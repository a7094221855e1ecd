-- ===== src/Auth/ReplayCache/Laws.antt =====
-- A nonce that was accepted is known until its expiry, so long as no call has a later clock.
use chitanda.Base.{
  ltb, bytes_eq, bytes_eq→eq, bytes_eq_self, Bool-cases, All, ℕ, ◌+◌, ◌*◌, ◌<◌, ◌≡◌, refl, ap, ◌≢◌,
  inl, inr, true, false, some, List, [], ◌∷◌, arith,
}
use chitanda.Auth.Signature.{max_clock_skew}
use chitanda.Auth.ReplayCache.{
  ReplayExpiry, ReplayCache, expiry_of, delete_nonce, drop_entry, pop_expired, sweep, exists, check,
  accepted, accept, Use, accept_at, check_at, time_of, uses,
}

bytes_eq_left : (k m n : List ℕ) → bytes_eq k m ≡ true → bytes_eq k n ≡ bytes_eq m n
bytes_eq_left k m n h = ap (λ t. bytes_eq t n) (bytes_eq→eq k m h)

expiry_same :
    (expires : List (List ℕ × ℕ)) (m n : List ℕ)
    → bytes_eq m n ≡ true
    → expiry_of expires m ≡ expiry_of expires n
expiry_same expires m n h = ap (expiry_of expires) (bytes_eq→eq m n h)

expiry_of-delete_nonce_ne :
    (expires : List (List ℕ × ℕ)) (n m : List ℕ)
    → bytes_eq m n ≡ false
    → expiry_of (delete_nonce expires m) n ≡ expiry_of expires n
unfolding expiry_of delete_nonce
expiry_of-delete_nonce_ne [] n m h = refl
expiry_of-delete_nonce_ne ((k, e) ∷ rest) n m h =
    ground (arith, expiry_of-delete_nonce_ne rest n m h, bytes_eq_left k m n)

module _ (n : List ℕ) (until : ℕ) where
  -- The nonce is in the map, to expire at `until`.
  IsKnown : ReplayCache → Type 0
  IsKnown c = expiry_of c.expires n ≡ some until

  expiry_of-drop_entry :
      (expires : List (List ℕ × ℕ)) (x : ReplayExpiry)
      → x.expiry < until
      → expiry_of expires n ≡ some until
      → expiry_of (drop_entry expires x) n ≡ some until
  expiry_of-drop_entry expires x l h =
      ground (arith, expiry_same expires x.nonce n, expiry_of-delete_nonce_ne expires n x.nonce)

  expiry_of-pop_expired :
      (expires : List (List ℕ × ℕ)) (queue : List ReplayExpiry) (now : ℕ)
      → now < until
      → expiry_of expires n ≡ some until
      → expiry_of (pop_expired expires queue now).0 n ≡ some until
  unfolding pop_expired
  expiry_of-pop_expired expires [] now l h = h
  expiry_of-pop_expired expires (x ∷ xs) now l h = elim (Bool-cases (ltb now x.expiry)) [
    | inl e ↦ rw e h
    | inr e ↦ rw e (
        expiry_of-pop_expired (drop_entry expires x) xs now l
          (expiry_of-drop_entry expires x (ground arith) h))
  ]

  sweep-IsKnown : (c : ReplayCache) (now : ℕ) → now < until → IsKnown c → IsKnown (sweep c now)
  unfolding sweep IsKnown
  sweep-IsKnown c now l h = expiry_of-pop_expired c.expires c.expiry_queue now l h

  accept-IsKnown :
      (c : ReplayCache) (m : List ℕ) (now : ℕ)
      → now < until
      → IsKnown c
      → IsKnown (accept c m now).0
  unfolding accept IsKnown expiry_of
  accept-IsKnown c m now l h =
      let known : expiry_of (sweep c now).expires n ≡ some until = sweep-IsKnown c now l h in
      ground (arith, expiry_same (sweep c now).expires m n)

  uses-IsKnown :
      (c : ReplayCache) (us : List Use)
      → All (λ u. time_of u < until) us
      → IsKnown c
      → IsKnown (uses c us)
  unfolding uses check
  uses-IsKnown c [] a h = h
  uses-IsKnown c (accept_at m now ∷ us) a h =
      uses-IsKnown (accept c m now).0 us a.1 (accept-IsKnown c m now a.0 h)
  uses-IsKnown c (check_at m now ∷ us) a h =
      uses-IsKnown (sweep c now) us a.1 (sweep-IsKnown c now a.0 h)

accept-IsKnown_self :
    (c : ReplayCache) (n : List ℕ) (now : ℕ)
    → (accept c n now).1 ≡ accepted
    → IsKnown n (now + 2 * max_clock_skew) (accept c n now).0
unfolding accept IsKnown expiry_of
accept-IsKnown_self c n now h = ground (arith, bytes_eq_self n)

exists-IsKnown : (n : List ℕ) (until : ℕ) (c : ReplayCache) → IsKnown n until c → exists c n ≡ true
unfolding IsKnown
exists-IsKnown n until c h = ground arith

not_accepted :
    (c : ReplayCache) (n : List ℕ) (later : ℕ)
    → exists (sweep c later) n ≡ true
    → (accept c n later).1 ≢ accepted
unfolding accept
not_accepted c n later h e = ground arith

there_checked :
    (c : ReplayCache) (n : List ℕ) (later : ℕ)
    → exists (sweep c later) n ≡ true
    → (check c n later).1 ≡ true
unfolding check
there_checked c n later h = h

-- A nonce that was accepted is refused for the next 180 seconds, and Check reports it, whatever
-- other calls come in between and in whatever order their clocks are.
pub accept_nonce_once :
    (c : ReplayCache) (n : List ℕ) (now later : ℕ) (us : List Use)
    → (accept c n now).1 ≡ accepted
    → All (λ u. time_of u < now + 2 * max_clock_skew) us
    → later < now + 2 * max_clock_skew
    → let c' = uses (accept c n now).0 us in
      ((accept c' n later).1 ≢ accepted) × ((check c' n later).1 ≡ true)
accept_nonce_once c n now later us h a l =
    let until = now + 2 * max_clock_skew in
    let c' = uses (accept c n now).0 us in
    let known = uses-IsKnown n until (accept c n now).0 us a (accept-IsKnown_self c n now h) in
    let there = exists-IsKnown n until (sweep c' later) (sweep-IsKnown n until c' later l known) in
    (λ e. not_accepted c' n later there e, there_checked c' n later there)
