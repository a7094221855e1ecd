-- ===== src/Icmp/Checksum/Sum.antt =====
-- The checksum as arithmetic modulo 65535.
use chitanda.Base.{
  length, All, ℕ, ◌+◌, ◌*◌, ◌%◌, ◌^◌, ◌≤◌, ◌<◌, ◌≡◌, refl, ◌∙◌, ◌⊎◌, List, [], ◌∷◌, arith,
}
use chitanda.Base.Bytes.{IsByte, uint_be}
use chitanda.Icmp.Checksum.{sum_words, fold}

-- The 16-bit words of a message, without a bound on their sum.
unfoldable pub words : List ℕ → ℕ
words [] = 0
words (a ∷ []) = a * 256
words (a ∷ b ∷ rest) = uint_be (a ∷ b ∷ []) + words rest

pub words-bound : (bytes : List ℕ) → All IsByte bytes → words bytes ≤ 65535 * length bytes
unfolding words uint_be
words-bound [] h = omega arith
words-bound (a ∷ []) h = ground arith
words-bound (a ∷ b ∷ rest) h = ground (arith, words-bound rest h.1.1)

pub sum_words-words :
    (acc : ℕ) (bytes : List ℕ) → acc < 2 ^ 32 → sum_words acc bytes ≡ (acc + words bytes) % 2 ^ 32
unfolding words sum_words
sum_words-words acc [] h = omega arith
sum_words-words acc (a ∷ []) h = refl
sum_words-words acc (a ∷ b ∷ rest) h =
    sum_words-words ((acc + uint_be (a ∷ b ∷ [])) % 2 ^ 32) rest (omega arith) ∙ omega arith

-- What folding keeps: the residue modulo 65535, and whether the sum is zero.
pub record IsFolded (sum folded : ℕ) : Type 0 where
  pub small : folded ≤ 65535
  pub same : folded % 65535 ≡ sum % 65535
  pub below : folded ≤ sum
  pub positive : (sum ≡ 0) ⊎ (0 < folded)

pub fold-IsFolded : (sum : ℕ) → sum < 2 ^ 32 → IsFolded sum (fold 2 sum)
unfolding fold
fold-IsFolded sum h = record {
  small = ground arith;
  same = ground arith;
  below = ground arith;
  positive = ground arith;
}
