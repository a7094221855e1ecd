-- ===== src/Base/Bytes.antt =====
-- Big-endian integers: PutUint16, PutUint32 and PutUint64 of encoding/binary are `put_be` at
-- widths 2, 4 and 8, and Uint16, Uint32 and Uint64 are `uint_be` of the bytes.
use chitanda.Base.{
  ℕ, zero, suc, ◌+◌, ◌*◌, ◌/◌, ◌%◌, ◌^◌, ◌≤◌, ◌<◌, ◌≡◌, refl, ap, ◌∙◌, arith, List, [], ◌∷◌, ◌++◌,
  length, length-append, All, All-append, append-nil, append_assoc, sym,
}
use native.Mathlib.Nat.{pow-suc}

abbrev pub IsByte : ℕ → Type 0
IsByte b = b < 256

-- The low `w` bytes of `v`, highest first.
unfoldable pub put_be : ℕ → ℕ → List ℕ
put_be zero v = []
put_be (suc w) v = put_be w (v / 256) ++ (v % 256) ∷ []

uint_from : ℕ → List ℕ → ℕ
uint_from acc [] = acc
uint_from acc (b ∷ bs) = uint_from (acc * 256 + b) bs

unfoldable pub uint_be : List ℕ → ℕ
unfolding uint_from
uint_be bs = uint_from 0 bs

pub length-put_be : (w v : ℕ) → length (put_be w v) ≡ w
unfolding put_be
length-put_be zero v = refl
length-put_be (suc w) v =
    omega (arith, length-append (put_be w (v / 256)) ((v % 256) ∷ []), length-put_be w (v / 256))

pub put_be-IsByte : (w v : ℕ) → All IsByte (put_be w v)
unfolding put_be
put_be-IsByte zero v = tt
put_be-IsByte (suc w) v =
    All-append IsByte (put_be w (v / 256)) _ (put_be-IsByte w (v / 256)) (omega arith)

uint_from-snoc :
    (acc b : ℕ) (bs : List ℕ) → uint_from acc (bs ++ b ∷ []) ≡ uint_from acc bs * 256 + b
unfolding uint_from
uint_from-snoc acc b [] = refl
uint_from-snoc acc b (c ∷ bs) = uint_from-snoc (acc * 256 + c) b bs

pub uint_be-snoc : (b : ℕ) (bs : List ℕ) → uint_be (bs ++ b ∷ []) ≡ uint_be bs * 256 + b
unfolding uint_be
uint_be-snoc b bs = uint_from-snoc 0 b bs

-- Reading back what was written gives the value, cut to the width.
pub uint_be-put_be : (w v : ℕ) → v < 256 ^ w → uint_be (put_be w v) ≡ v
unfolding put_be uint_be
uint_be-put_be zero v h = omega arith
uint_be-put_be (suc w) v h =
    uint_be-snoc (v % 256) (put_be w (v / 256))
    ∙ omega (arith, uint_be-put_be w (v / 256) (omega (arith, pow-suc 256 w)))

next_byte : (acc b p : ℕ) → b < 256 → (acc * 256 + b + 1) * p ≤ (acc + 1) * (256 * p)
next_byte acc b p h = grind arith

uint_from-bound :
    (acc : ℕ) (bs : List ℕ) → All IsByte bs → uint_from acc bs < (acc + 1) * 256 ^ length bs
unfolding uint_from
uint_from-bound acc [] h = omega arith
uint_from-bound acc (b ∷ bs) h = omega (
  arith,
  uint_from-bound (acc * 256 + b) bs h.1,
  pow-suc 256 (length bs),
  next_byte acc b (256 ^ length bs) h.0,
  ap (λ (t : ℕ). (acc + 1) * t) (pow-suc 256 (length bs)),
)

pub uint_be-bound : (bs : List ℕ) → All IsByte bs → uint_be bs < 256 ^ length bs
unfolding uint_be
uint_be-bound bs h = omega (arith, uint_from-bound 0 bs h)

next_high : (acc b : ℕ) → b < 256 → (acc * 256 + b) / 256 ≡ acc
next_high acc b h = omega arith

next_low : (acc b : ℕ) → b < 256 → (acc * 256 + b) % 256 ≡ b
next_low acc b h = omega arith

put_be-next : (w acc b : ℕ) → b < 256 → put_be (suc w) (acc * 256 + b) ≡ put_be w acc ++ b ∷ []
unfolding put_be
put_be-next w acc b h = rw (next_high acc b h, next_low acc b h) refl

put_be-uint_from :
    (w acc : ℕ) (bs : List ℕ)
    → All IsByte bs
    → put_be (length bs + w) (uint_from acc bs) ≡ put_be w acc ++ bs
unfolding uint_from
put_be-uint_from w acc [] h =
    ap (λ k. put_be k acc) {x = 0 + w} {y = w} (omega arith) ∙ sym (append-nil (put_be w acc))
put_be-uint_from w acc (b ∷ bs) h =
    ap (λ k. put_be k (uint_from (acc * 256 + b) bs)) {x = suc (length bs) + w}
      {y = length bs + suc w} (omega arith)
    ∙ put_be-uint_from (suc w) (acc * 256 + b) bs h.1
    ∙ ap (λ xs. xs ++ bs) (put_be-next w acc b h.0)
    ∙ append_assoc (put_be w acc) (b ∷ []) bs

-- Bytes are written back as they were read.
pub put_be-uint_be :
    (w : ℕ) (bs : List ℕ) → length bs ≡ w → All IsByte bs → put_be w (uint_be bs) ≡ bs
unfolding uint_be put_be
put_be-uint_be w bs e h =
    ap (λ k. put_be k (uint_from 0 bs)) {x = w} {y = length bs + 0} (omega arith)
    ∙ put_be-uint_from 0 0 bs h

-- Two and four bytes are written back as they were read.
pub put_be-uint_be_two :
    (a b : ℕ) → a < 256 → b < 256 → put_be 2 (uint_be (a ∷ b ∷ [])) ≡ a ∷ b ∷ []
unfolding put_be uint_be
put_be-uint_be_two a b h k = ground arith

pub put_be-uint_be_four :
    (a b c d : ℕ)
    → a < 256
    → b < 256
    → c < 256
    → d < 256
    → put_be 4 (uint_be (a ∷ b ∷ c ∷ d ∷ [])) ≡ a ∷ b ∷ c ∷ d ∷ []
unfolding put_be uint_be
put_be-uint_be_four a b c d h k l m = ground arith
