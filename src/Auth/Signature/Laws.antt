-- ===== src/Auth/Signature/Laws.antt =====
-- What a signature binds, and when it is accepted.
use chitanda.Base.{
  ℤ, pos, negsuc, bytes_eq, bytes_eq→eq, bytes_eq_self, Bool-cases, Option-cases, some_inj, length,
  get_or, take, drop, All, take-append_exact, drop-append_exact, ℕ, ◌+◌, ◌*◌, ◌%◌, ◌^◌, ◌≤◌, ◌<◌,
  ◌≡◌, refl, sym, ap, ap₂, ◌∙◌, ◌≢◌, ◌↔◌, ◌⊎◌, inl, inr, true, false, Option, some, List, [], ◌∷◌,
  ◌++◌, append_assoc, arith,
}
use chitanda.Base.Bytes.{put_be, uint_be, length-put_be, uint_be-put_be}
use mathlib.Core.Bool.{true≢false}
use mathlib.Core.Path.{subst}
use chitanda.Auth.Signature.{
  Request, fields, write_length_prefixed, written, signature, is_skewed, verify, max_clock_skew,
}

-- A field whose length fits the two bytes written for it.
abbrev pub IsShort : List ℕ → Type 0
IsShort s = length s < 2 ^ 16

prefix_of :
    (s xs : List ℕ) → write_length_prefixed s ++ xs ≡ put_be 2 (length s % 2 ^ 16) ++ (s ++ xs)
unfolding write_length_prefixed
prefix_of s xs = append_assoc (put_be 2 (length s % 2 ^ 16)) s xs

length_of :
    (s xs : List ℕ) → IsShort s → uint_be (take 2 (write_length_prefixed s ++ xs)) ≡ length s
length_of s xs h =
    let n = length s % 2 ^ 16 in
    ap (λ b. uint_be (take 2 b)) (prefix_of s xs)
    ∙ ap uint_be (take-append_exact 2 (put_be 2 n) (s ++ xs) (length-put_be 2 n))
    ∙ uint_be-put_be 2 n (omega arith)
    ∙ omega arith

body_of : (s xs : List ℕ) → drop 2 (write_length_prefixed s ++ xs) ≡ s ++ xs
body_of s xs =
    let n = length s % 2 ^ 16 in
    ap (drop 2) (prefix_of s xs) ∙ drop-append_exact 2 (put_be 2 n) (s ++ xs) (length-put_be 2 n)

-- The fields can be read off what was written.
write_length_prefixed_inj :
    (s t xs ys : List ℕ)
    → IsShort s
    → IsShort t
    → write_length_prefixed s ++ xs ≡ write_length_prefixed t ++ ys
    → (s ≡ t) × (xs ≡ ys)
write_length_prefixed_inj s t xs ys hs ht e =
    let l : length s ≡ length t =
      sym (length_of s xs hs) ∙ ap (λ b. uint_be (take 2 b)) e ∙ length_of t ys ht in
    let body : s ++ xs ≡ t ++ ys = sym (body_of s xs) ∙ ap (drop 2) e ∙ body_of t ys in
    (
      sym (take-append_exact (length t) s xs l)
          ∙ ap (take (length t)) body
          ∙ take-append_exact (length t) t ys refl,
      sym (drop-append_exact (length t) s xs l)
          ∙ ap (drop (length t)) body
          ∙ drop-append_exact (length t) t ys refl,
    )

written_inj :
    (ss ts : List (List ℕ))
    → length ss ≡ length ts
    → All IsShort ss
    → All IsShort ts
    → written ss ≡ written ts
    → ss ≡ ts
unfolding written
written_inj [] [] l hs ht e = refl
written_inj [] (t ∷ ts) l hs ht e = absurd (omega arith)
written_inj (s ∷ ss) [] l hs ht e = absurd (omega arith)
written_inj (s ∷ ss) (t ∷ ts) l hs ht e =
    let (a, b) = write_length_prefixed_inj s t (written ss) (written ts) hs.0 ht.0 e in
    ap₂ ◌∷◌ a (written_inj ss ts (omega arith) hs.1 ht.1 b)

request_of : List (List ℕ) → Request
request_of l = record {
  mode = get_or l 1 [];
  method = get_or l 2 [];
  path = get_or l 3 [];
  target = get_or l 4 [];
  timestamp = get_or l 5 [];
  nonce = get_or l 6 [];
}

fields_inj : (r q : Request) → fields r ≡ fields q → r ≡ q
unfolding request_of
fields_inj r q e = ap request_of e

window_same :
    (u : ℤ) (now later : ℕ)
    → is_skewed u now ≡ false
    → is_skewed u later ≡ false
    → later ≤ now + 2 * max_clock_skew
unfolding is_skewed
window_same (pos n) now later k l = ground arith
window_same (negsuc n) now later k l = ground arith

window_of :
    (u u' : ℤ) (now later : ℕ)
    → u ≡ u'
    → is_skewed u now ≡ false
    → is_skewed u' later ≡ false
    → later ≤ now + 2 * max_clock_skew
window_of u u' now later e k k' = window_same u now later k (ap (λ t. is_skewed t later) e ∙ k')

-- The time `u` in seconds is at most 90 s from the clock `now` in nanoseconds; `negsuc n` is
-- `-(n + 1)`.
abbrev pub IsWithin90 : ℤ → ℕ → Type 0
IsWithin90 (pos n) now =
    (now ≤ n * 1_000_000_000 + 90_000_000_000) × (n * 1_000_000_000 ≤ now + 90_000_000_000)
IsWithin90 (negsuc n) now = now + (n + 1) * 1_000_000_000 ≤ 90_000_000_000

is_skewed_iff : (u : ℤ) (now : ℕ) → (is_skewed u now ≡ false) ↔ IsWithin90 u now
unfolding is_skewed
is_skewed_iff (pos n) now = (λ k. ground arith, λ k. ground arith)
is_skewed_iff (negsuc n) now = (λ k. ground arith, λ k. ground arith)

module _ (mac : List ℕ → List ℕ → List ℕ) (parse_int : List ℕ → Option ℤ) (psk : List ℕ) where
  -- The tests of Verify.
  IsCurrent : Request → ℕ → Type 0
  IsCurrent r now =
      (unix_seconds : ℤ) × (parse_int r.timestamp ≡ some unix_seconds)
      × (is_skewed unix_seconds now ≡ false)

  verify_holds :
      (r : Request) (sig : List ℕ) (now : ℕ)
      → verify mac parse_int psk r sig now ≡ true
      → (0 < length r.nonce)
        × (0 < length sig)
        × IsCurrent r now
        × (bytes_eq (signature mac psk r) sig ≡ true)
  unfolding verify IsCurrent
  verify_holds r sig now v = elim (Option-cases (parse_int r.timestamp)) [
    | inl e ↦ ground arith
    | inr (u, e) ↦ (ground arith, ground arith, (u, e, ground arith), ground arith)
  ]

  verify_of :
      (r : Request) (sig : List ℕ) (now : ℕ) (u : ℤ)
      → 0 < length r.nonce
      → 0 < length sig
      → parse_int r.timestamp ≡ some u
      → is_skewed u now ≡ false
      → bytes_eq (signature mac psk r) sig ≡ true
      → verify mac parse_int psk r sig now ≡ true
  unfolding verify
  verify_of r sig now u n l e k b = ground arith

  -- A signature that was made for one request is accepted for another only if the two written
  -- requests collide under the MAC, provided that no field is longer than 65535 bytes.
  pub verify-signature_inj :
      (r q : Request) (now : ℕ)
      → All IsShort (fields r)
      → All IsShort (fields q)
      → verify mac parse_int psk q (signature mac psk r) now ≡ true
      → (r ≡ q)
        ⊎ ((written (fields r) ≢ written (fields q))
            × (mac psk (written (fields r)) ≡ mac psk (written (fields q))))
  unfolding signature
  verify-signature_inj r q now hr hq v =
      let (n, l, c, b) = verify_holds q (signature mac psk r) now v in
      elim (Bool-cases (bytes_eq (written (fields r)) (written (fields q)))) [
        | inl same ↦ inl (
            fields_inj r q (
              written_inj (fields r) (fields q) refl hr hq
                (bytes_eq→eq (written (fields r)) (written (fields q)) same)))
        | inr other ↦ inr (
          λ same. true≢false (
              sym (bytes_eq_self (written (fields r)))
              ∙ ap (bytes_eq (written (fields r))) same
              ∙ other),
          sym (bytes_eq→eq (mac psk (written (fields q))) (mac psk (written (fields r))) b),
        )
      ]

  -- A request and a signature are accepted exactly when the nonce and the signature are not empty,
  -- the timestamp is a number of seconds that lies within 90 * 10^9 nanoseconds of the clock on
  -- either side, and the signature is the MAC of the request's fields.
  pub verify_iff :
      (r : Request) (sig : List ℕ) (now : ℕ)
      → (verify mac parse_int psk r sig now ≡ true) ↔ (
          (0 < length r.nonce)
          × (0 < length sig)
          × ((unix_seconds : ℤ) × (parse_int r.timestamp ≡ some unix_seconds)
              × IsWithin90 unix_seconds now)
          × (mac psk (written (fields r)) ≡ sig))
  unfolding IsCurrent signature
  verify_iff r sig now = (
    λ v.
        let (n, l, (u, e, k), b) = verify_holds r sig now v in
        (n, l, (u, e, (is_skewed_iff u now).0 k), bytes_eq→eq (mac psk (written (fields r))) sig b),
    λ (n, l, (u, e, k), same). verify_of r sig now u n l e ((is_skewed_iff u now).1 k) (
        subst (λ s. bytes_eq (mac psk (written (fields r))) s ≡ true) same
          (bytes_eq_self (mac psk (written (fields r))))),
  )

  -- A request that is accepted at two times was accepted within 180 seconds.
  pub verify_window :
      (r : Request) (sig : List ℕ) (now later : ℕ)
      → verify mac parse_int psk r sig now ≡ true
      → verify mac parse_int psk r sig later ≡ true
      → later ≤ now + 2 * max_clock_skew
  unfolding IsCurrent is_skewed
  verify_window r sig now later v w =
      let (n, l, (u, e, k), b) = verify_holds r sig now v in
      let (n', l', (u', e', k'), b') = verify_holds r sig later w in
      window_of u u' now later (some_inj (sym e ∙ e')) k k'
