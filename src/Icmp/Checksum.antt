-- ===== src/Icmp/Checksum.antt =====
-- The one's complement checksum of internal/icmpmsg/icmp.go, and its incremental update.
pub mod Sum
use chitanda.Base.{
  ltb, leb, ◌==◌, if◌then◌else◌, bytes_eq, bytes_eq→eq, bytes_eq_self, ltb→lt, lt→ltb, leb→le,
  le→leb, lt→leb, le→ltb, ==_iff, Bool-cases, Option-cases, some_inj, length, get_or, set, take,
  drop, replicate, All, length-append, length-set, get_or-set_self, get_or-set_ne, length-replicate,
  get_or-replicate, take-append-drop, length-take, length-drop, take-append_exact,
  drop-append_exact, take-nil, take-add, drop-nil, drop-drop, All-append, ℕ, zero, suc, ◌+◌, ◌-◌,
  ◌*◌, ◌/◌, ◌%◌, ◌^◌, ◌≤◌, ◌<◌, min, max, bit_and, bit_or, bit_xor, ◌≡◌, refl, sym, ap, ap₂, ◌∙◌,
  ◌≢◌, ◌↔◌, ◌⊎◌, inl, inr, Bool, true, false, not, ◌&&◌, ◌||◌, Option, none, some, List, [], ◌∷◌,
  ◌++◌, map, append-nil, append_assoc, arith,
}
use chitanda.Base.Bytes.{
  IsByte, put_be, uint_be, length-put_be, put_be-IsByte, uint_be-snoc, uint_be-put_be,
  uint_be-bound, put_be-uint_be,
}

-- The loop over pairs of bytes and the odd last byte, in 32 bits.
unfoldable pub sum_words : ℕ → List ℕ → ℕ
sum_words acc [] = acc
sum_words acc (a ∷ []) = (acc + a * 256) % 2 ^ 32
sum_words acc (a ∷ b ∷ rest) = sum_words ((acc + uint_be (a ∷ b ∷ [])) % 2 ^ 32) rest

-- Two rounds bring every 32-bit sum to 16 bits.
unfoldable pub fold : ℕ → ℕ → ℕ
fold zero sum = sum
fold (suc fuel) sum =
    let rest = fold fuel (sum / 2 ^ 16 + sum % 2 ^ 16) in if ltb 65535 sum then rest else sum

-- `^uint16(x)`
abbrev pub complement : ℕ → ℕ
complement x = 65535 - x % 2 ^ 16

unfoldable pub checksum : List ℕ → ℕ
checksum bytes = complement (fold 2 (sum_words 0 bytes))

-- The sum of five 16-bit words does not reach 2 ^ 32.
unfoldable pub adjust_checksum : ℕ → ℕ → ℕ → ℕ
adjust_checksum cs old_value new_value =
    let sum =
      complement cs
      + complement (old_value / 2 ^ 16)
      + complement old_value
      + new_value / 2 ^ 16
      + new_value % 2 ^ 16 in
    complement (fold 2 sum)
