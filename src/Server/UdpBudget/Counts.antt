-- ===== src/Server/UdpBudget/Counts.antt =====
-- Counts in the map of users, and of the leases that are held.
use chitanda.Base.{
  ◌==◌, if◌then◌else◌, bytes_eq, bytes_eq→eq, bytes_eq_self, Bool-cases, ℕ, ◌+◌, ◌-◌, ◌≡◌, refl,
  sym, ap, ◌∙◌, inl, inr, true, false, not, ◌&&◌, List, [], ◌∷◌, arith,
}
use chitanda.Server.UdpBudget.{Users, users_of, delete_user, put_user, lower_user, Lease}

pub users_of-delete_user_self : (users : Users) (k : List ℕ) → users_of (delete_user users k) k ≡ 0
unfolding users_of delete_user
users_of-delete_user_self [] k = refl
users_of-delete_user_self ((j, n) ∷ rest) k = ground (arith, users_of-delete_user_self rest k)

bytes_eq_trans : (j k i : List ℕ) → bytes_eq j k ≡ true → bytes_eq j i ≡ true → bytes_eq k i ≡ true
bytes_eq_trans j k i h l = rw (sym (bytes_eq→eq j k h), sym (bytes_eq→eq j i l)) (bytes_eq_self j)

pub users_of-delete_user_ne :
    (users : Users) (k i : List ℕ)
    → bytes_eq k i ≡ false
    → users_of (delete_user users k) i ≡ users_of users i
unfolding users_of delete_user
users_of-delete_user_ne [] k i h = refl
users_of-delete_user_ne ((j, n) ∷ rest) k i h =
    ground (arith, users_of-delete_user_ne rest k i h, bytes_eq_trans j k i)

pub users_of-put_user :
    (users : Users) (k i : List ℕ) (n : ℕ)
    → users_of (put_user users k n) i ≡ (if bytes_eq k i then n else users_of users i)
unfolding users_of
users_of-put_user users k i n = ground (arith, users_of-delete_user_ne users k i)

deleted :
    (users : Users) (k i : List ℕ) (n : ℕ)
    → n ≡ 0
    → users_of (delete_user (put_user users k n) k) i
      ≡ (if bytes_eq k i then n else users_of users i)
deleted users k i n z = elim (Bool-cases (bytes_eq k i)) [
  | inl e ↦
      rw (e, sym (bytes_eq→eq k i e)) (users_of-delete_user_self (put_user users k n) k ∙ sym z)
  | inr e ↦ rw e (
      users_of-delete_user_ne (put_user users k n) k i e
      ∙ users_of-put_user users k i n
      ∙ ap (λ t. if t then n else users_of users i) e)
]

pub users_of-lower_user :
    (users : Users) (k i : List ℕ)
    → users_of (lower_user users k) i
      ≡ (if bytes_eq k i then users_of users k - 1 else users_of users i)
unfolding lower_user
users_of-lower_user users k i =
    let left = users_of users k - 1 in
    elim (Bool-cases (left == 0)) [
      | inl z ↦ rw (z, lower_user) (deleted users k i left (ground arith))
      | inr z ↦ rw (z, lower_user) (users_of-put_user users k i left)
    ]

-- The leases of an identity that were not released, and all of them.
unfoldable pub held_by : List Lease → List ℕ → ℕ
held_by [] identity = 0
held_by (l ∷ ls) identity =
    let more = held_by ls identity in
    if not l.released && bytes_eq l.identity identity then more + 1 else more

unfoldable pub held : List Lease → ℕ
held [] = 0
held (l ∷ ls) = let more = held ls in if not l.released then more + 1 else more
