-- ===== src/Auth/Signature.antt =====
-- Signature and Verify of pkg/auth/auth.go. A string is its bytes. HMAC-SHA-256 with base64 after
-- it, and strconv.ParseInt, are parameters. A time is in nanoseconds since 1970, not before it.
pub mod Laws
use chitanda.Base.{
  ℤ, pos, negsuc, ltb, leb, ◌==◌, if◌then◌else◌, bytes_eq, bytes_eq→eq, bytes_eq_self, ltb→lt,
  lt→ltb, leb→le, le→leb, lt→leb, le→ltb, ==_iff, Bool-cases, Option-cases, some_inj, length,
  get_or, set, take, drop, replicate, All, All-take, All-drop, length-append, length-set,
  get_or-set_self, get_or-set_ne, length-replicate, get_or-replicate, take-append-drop, length-take,
  length-drop, take-append_exact, drop-append_exact, take-nil, take-add, drop-nil, drop-drop,
  All-append, ℕ, zero, suc, ◌+◌, ◌-◌, ◌*◌, ◌/◌, ◌%◌, ◌^◌, ◌≤◌, ◌<◌, min, max, bit_and, bit_or,
  bit_xor, ◌≡◌, refl, sym, ap, ap₂, ◌∙◌, ◌≢◌, ◌↔◌, ◌⊎◌, inl, inr, Bool, true, false, not, ◌&&◌,
  ◌||◌, Option, none, some, List, [], ◌∷◌, ◌++◌, map, append-nil, append_assoc, arith,
}
use chitanda.Base.Bytes.{
  IsByte, put_be, uint_be, length-put_be, put_be-IsByte, uint_be-snoc, uint_be-put_be,
  uint_be-bound, put_be-uint_be,
}

abbrev pub second : ℕ
second = 10 ^ 9

abbrev pub max_clock_skew : ℕ
max_clock_skew = 90 * second

-- "MYXRAY-AUTH-V2"
abbrev pub auth_domain_v2 : List ℕ
auth_domain_v2 = 77 ∷ 89 ∷ 88 ∷ 82 ∷ 65 ∷ 89 ∷ 45 ∷ 65 ∷ 85 ∷ 84 ∷ 72 ∷ 45 ∷ 86 ∷ 50 ∷ []

unfoldable pub write_length_prefixed : List ℕ → List ℕ
write_length_prefixed s = put_be 2 (length s % 2 ^ 16) ++ s

-- What is signed of a request.
pub record Request : Type 0 where
  pub mode : List ℕ
  pub method : List ℕ
  pub path : List ℕ
  pub target : List ℕ
  pub timestamp : List ℕ
  pub nonce : List ℕ

abbrev pub fields : Request → List (List ℕ)
fields r = auth_domain_v2 ∷ r.mode ∷ r.method ∷ r.path ∷ r.target ∷ r.timestamp ∷ r.nonce ∷ []

-- The bytes that the MAC is given, one field after the other.
unfoldable pub written : List (List ℕ) → List ℕ
written [] = []
written (s ∷ rest) = write_length_prefixed s ++ written rest

unfoldable pub signature : (List ℕ → List ℕ → List ℕ) → List ℕ → Request → List ℕ
signature mac psk r = mac psk (written (fields r))

-- `requestTime.Before(now.Add(-MaxClockSkew)) || requestTime.After(now.Add(MaxClockSkew))`
unfoldable pub is_skewed : ℤ → ℕ → Bool
is_skewed (pos n) now =
    ltb (n * second + max_clock_skew) now || ltb (now + max_clock_skew) (n * second)
is_skewed (negsuc n) now = ltb max_clock_skew (now + (n + 1) * second)

unfoldable pub verify :
    (List ℕ → List ℕ → List ℕ) → (List ℕ → Option ℤ) → List ℕ → Request → List ℕ → ℕ → Bool
verify mac parse_int psk r sig now = elim (parse_int r.timestamp) [
  | none ↦ false
  | some unix_seconds ↦
      if (length r.nonce == 0) || (length sig == 0)
      then false
      else if is_skewed unix_seconds now
      then false
      else bytes_eq (signature mac psk r) sig
]
