-- ===== src/Server/UdpBudget/Laws.antt =====
-- The budget counts the leases that are held, and both limits hold.
use chitanda.Base.{
  if◌then◌else◌, bytes_eq, bytes_eq→eq, Bool-cases, ℕ, zero, suc, ◌+◌, ◌-◌, ◌≤◌, ◌<◌, ◌≡◌, refl, ap,
  ◌↔◌, ◌⊎◌, inl, inr, true, false, Option, none, some, List, [], ◌∷◌, arith,
}
use chitanda.Server.UdpBudget.{
  UdpTargetsBudget, Lease, System, Call, reserve, release_at, zero_budget, max_udp_targets,
  max_user_udp_targets, users_of, put_user, reserve_udp_target, release, release_nth, keep, call,
  calls,
}
use chitanda.Server.UdpBudget.Counts.{users_of-put_user, users_of-lower_user, held_by, held}

-- `used` and `users` are the numbers of held leases, within the limits.
pub record Accounted (s : System) : Type 0 where
  pub total : s.budget.used ≡ held s.leases
  pub total_limit : held s.leases ≤ max_udp_targets
  pub each : (identity : List ℕ) → users_of s.budget.users identity ≡ held_by s.leases identity
  pub each_limit : (identity : List ℕ) → held_by s.leases identity ≤ max_user_udp_targets

-- A reservation that was refused changes nothing; one that was granted adds a held lease.
reserve_none : (b b' : UdpTargetsBudget) (i : List ℕ) → reserve_udp_target b i ≡ (b', none) → b' ≡ b
unfolding reserve_udp_target
reserve_none b b' i h = ground arith

reserve_some :
    (b b' : UdpTargetsBudget) (i : List ℕ) (l : Lease)
    → reserve_udp_target b i ≡ (b', some l)
    → (b.used < max_udp_targets)
      × (users_of b.users i < max_user_udp_targets)
      × (b'.used ≡ b.used + 1)
      × (b'.users ≡ put_user b.users i (users_of b.users i + 1))
      × (l.identity ≡ i)
      × (l.released ≡ false)
unfolding reserve_udp_target
reserve_some b b' i l h = ground arith

held-cons : (l : Lease) (ls : List Lease) → l.released ≡ false → held (l ∷ ls) ≡ held ls + 1
unfolding held
held-cons l ls h = ground arith

held_by-cons :
    (l : Lease) (ls : List Lease) (j : List ℕ)
    → l.released ≡ false
    → held_by (l ∷ ls) j ≡ (if bytes_eq l.identity j then held_by ls j + 1 else held_by ls j)
unfolding held_by
held_by-cons l ls j h = ground arith

users_same :
    (users : List (List ℕ × ℕ)) (i j : List ℕ)
    → bytes_eq i j ≡ true
    → users_of users i ≡ users_of users j
users_same users i j h = ap (users_of users) (bytes_eq→eq i j h)

kept-Accounted :
    (s : System) (i : List ℕ) (b : UdpTargetsBudget) (lease : Option Lease)
    → reserve_udp_target s.budget i ≡ (b, lease)
    → Accounted s
    → Accounted (record { budget = b; leases = keep s.leases lease })
kept-Accounted s i b none e h = rw (reserve_none s.budget b i e) h
kept-Accounted s i b (some l) e h =
    let (free, user_free, used, users, mine, unreleased) = reserve_some s.budget b i l e in
    let one = held-cons l s.leases unreleased in
    record {
      total = omega (arith, h.total);
      total_limit = omega (arith, h.total);
      each = λ j. ground (
        arith,
        ap (λ t. users_of t j) users,
        users_of-put_user s.budget.users i j (users_of s.budget.users i + 1),
        held_by-cons l s.leases j unreleased,
        ap (λ t. bytes_eq t j) mine,
        users_same s.budget.users i j,
        h.each j,
        h.each_limit j,
      );
      each_limit = λ j. ground (
        arith,
        ap (λ t. users_of t j) users,
        users_of-put_user s.budget.users i j (users_of s.budget.users i + 1),
        held_by-cons l s.leases j unreleased,
        ap (λ t. bytes_eq t j) mine,
        users_same s.budget.users i j,
        h.each j,
        h.each_limit j,
      );
    }

reserve-Accounted : (s : System) (i : List ℕ) → Accounted s → Accounted (call s (reserve i))
unfolding call
reserve-Accounted s i h =
    kept-Accounted s i (reserve_udp_target s.budget i).0 (reserve_udp_target s.budget i).1 refl h

-- One held lease of the identity `k` was released.
record One (b : UdpTargetsBudget) (ls : List Lease) (b' : UdpTargetsBudget) (ls' : List Lease)
    (k : List ℕ) : Type 0 where
  one_used : b'.used ≡ b.used - 1
  one_held : held ls ≡ held ls' + 1
  one_user :
      (j : List ℕ)
      → users_of b'.users j ≡ (if bytes_eq k j then users_of b.users k - 1 else users_of b.users j)
  one_held_by : (j : List ℕ) → held_by ls j ≡ held_by ls' j + (if bytes_eq k j then 1 else 0)

IsReleased : UdpTargetsBudget → List Lease → UdpTargetsBudget → List Lease → Type 0
IsReleased b ls b' ls' = ((b' ≡ b) × (ls' ≡ ls)) ⊎ ((k : List ℕ) × One b ls b' ls' k)

release_first :
    (b : UdpTargetsBudget) (l : Lease) (ls : List Lease)
    → IsReleased b (l ∷ ls) (release b l).0 ((release b l).1 ∷ ls)
unfolding IsReleased release held held_by
release_first b l ls = elim (Bool-cases l.released) [
  | inl e ↦ inl (ground arith, ap (λ t. t ∷ ls) (ground arith))
  | inr e ↦ inr (
    l.identity,
    record {
      one_used = ground arith;
      one_held = ground arith;
      one_user = λ j. ground (arith, users_of-lower_user b.users l.identity j);
      one_held_by = λ j. ground arith;
    },
  )
]

later :
    (b : UdpTargetsBudget) (l : Lease) (ls : List Lease) (b' : UdpTargetsBudget) (ls' : List Lease)
    (k : List ℕ)
    → One b ls b' ls' k
    → One b (l ∷ ls) b' (l ∷ ls') k
unfolding held held_by
later b l ls b' ls' k one = record {
  one_used = one.one_used;
  one_held = ground (arith, one.one_held);
  one_user = one.one_user;
  one_held_by = λ j. ground (arith, one.one_held_by j);
}

release_nth-IsReleased :
    (b : UdpTargetsBudget) (ls : List Lease) (n : ℕ)
    → let (b', ls') = release_nth b ls n in IsReleased b ls b' ls'
unfolding release_nth IsReleased
release_nth-IsReleased b [] n = inl (refl, refl)
release_nth-IsReleased b (l ∷ ls) zero = release_first b l ls
release_nth-IsReleased b (l ∷ ls) (suc n) = elim (release_nth-IsReleased b ls n) [
  | inl (e, f) ↦ inl (e, ap (λ t. l ∷ t) f)
  | inr (k, one) ↦ inr (k, later b l ls (release_nth b ls n).0 (release_nth b ls n).1 k one)
]

released-Accounted :
    (b : UdpTargetsBudget) (ls : List Lease) (b' : UdpTargetsBudget) (ls' : List Lease)
    → IsReleased b ls b' ls'
    → Accounted (record { budget = b; leases = ls })
    → Accounted (record { budget = b'; leases = ls' })
unfolding IsReleased
released-Accounted b ls b' ls' (inl (e, f)) h = rw (e, f) h
released-Accounted b ls b' ls' (inr (k, one)) h = record {
  total = omega (arith, one.one_used, one.one_held, h.total);
  total_limit = omega (arith, one.one_held, h.total_limit);
  each = λ j. ground (arith, one.one_user j, one.one_held_by j, h.each j, users_same b.users k j);
  each_limit = λ j. ground (arith, one.one_held_by j, h.each_limit j);
}

call-Accounted : (s : System) (c : Call) → Accounted s → Accounted (call s c)
unfolding call
call-Accounted s (reserve i) h = reserve-Accounted s i h
call-Accounted s (release_at n) h =
    released-Accounted s.budget s.leases (release_nth s.budget s.leases n).0
      (release_nth s.budget s.leases n).1 (release_nth-IsReleased s.budget s.leases n) h

-- If `used` is the number of held leases, at most 1024, and the count of each identity the number
-- of its held leases, at most 256, this holds after any reservations and calls of release
-- functions, those of released leases included.
pub calls-Accounted : (s : System) (cs : List Call) → Accounted s → Accounted (calls s cs)
unfolding calls
calls-Accounted s [] h = h
calls-Accounted s (c ∷ cs) h = calls-Accounted (call s c) cs (call-Accounted s c h)

pub zero_budget-Accounted : Accounted (record { budget = zero_budget; leases = [] })
unfolding held held_by users_of
zero_budget-Accounted = record {
  total = refl;
  total_limit = omega arith;
  each = λ i. refl;
  each_limit = λ i. omega arith;
}

-- A reservation is refused exactly when a limit is reached: 1024 leases held in all, or 256 by the
-- identity that asks.
pub reserve_udp_target_iff :
    (s : System) (i : List ℕ)
    → Accounted s
    → ((reserve_udp_target s.budget i).1 ≡ none)
      ↔ ((held s.leases ≡ max_udp_targets) ⊎ (held_by s.leases i ≡ max_user_udp_targets))
unfolding reserve_udp_target
reserve_udp_target_iff s i h = ground (arith, h.total, h.total_limit, h.each i, h.each_limit i)
