-- ===== src/Server/UdpBudget.antt =====
-- pkg/server/udp_budget.go: the process-wide budget of UDP targets, and the leases on it.
pub mod Counts
pub mod Laws
mod Tests
use chitanda.Base.{
  ltb, leb, ◌==◌, if◌then◌else◌, bytes_eq, bytes_eq→eq, bytes_eq_self, ltb→lt, lt→ltb, leb→le,
  le→leb, lt→leb, le→ltb, ==_iff, Bool-cases, Option-cases, some_inj, length, get_or, set, take,
  drop, replicate, All, All-take, All-drop, length-append, length-set, get_or-set_self,
  get_or-set_ne, length-replicate, get_or-replicate, take-append-drop, length-take, length-drop,
  take-append_exact, drop-append_exact, take-nil, take-add, drop-nil, drop-drop, All-append, ℕ,
  zero, suc, ◌+◌, ◌-◌, ◌*◌, ◌/◌, ◌%◌, ◌^◌, ◌≤◌, ◌<◌, min, max, bit_and, bit_or, bit_xor, ◌≡◌, refl,
  sym, ap, ap₂, ◌∙◌, ◌≢◌, ◌↔◌, ◌⊎◌, inl, inr, Bool, true, false, not, ◌&&◌, ◌||◌, Option, none,
  some, List, [], ◌∷◌, ◌++◌, map, append-nil, append_assoc, arith,
}

abbrev pub max_udp_targets : ℕ
max_udp_targets = 1024

abbrev pub max_user_udp_targets : ℕ
max_user_udp_targets = 256

-- A map from identities to counts, the zero of a missing key included.
abbrev pub Users : Type 0
Users = List (List ℕ × ℕ)

unfoldable pub users_of : Users → List ℕ → ℕ
users_of [] identity = 0
users_of ((k, n) ∷ rest) identity =
    let found = users_of rest identity in if bytes_eq k identity then n else found

unfoldable pub delete_user : Users → List ℕ → Users
delete_user [] identity = []
delete_user ((k, n) ∷ rest) identity =
    let kept = delete_user rest identity in if bytes_eq k identity then kept else (k, n) ∷ kept

abbrev pub put_user : Users → List ℕ → ℕ → Users
put_user users identity n = (identity, n) ∷ delete_user users identity

-- `udpTargetsBudget`
pub record UdpTargetsBudget : Type 0 where
  pub used : ℕ
  pub users : Users

abbrev pub zero_budget : UdpTargetsBudget
zero_budget = record { used = 0; users = [] }

-- The function that a reservation returns, with the state of its `sync.Once`.
pub record Lease : Type 0 where
  pub identity : List ℕ
  pub released : Bool

unfoldable pub reserve_udp_target : UdpTargetsBudget → List ℕ → UdpTargetsBudget × Option Lease
reserve_udp_target b identity =
    if leb max_udp_targets b.used || leb max_user_udp_targets (users_of b.users identity)
    then (b, none)
    else (
      record {
        used = b.used + 1;
        users = put_user b.users identity (users_of b.users identity + 1);
      },
      some (record { identity = identity; released = false }),
    )

-- `users[identity]--`, and the key removed at zero.
unfoldable pub lower_user : Users → List ℕ → Users
lower_user users identity =
    let left = users_of users identity - 1 in
    let lowered = put_user users identity left in
    if left == 0 then delete_user lowered identity else lowered

unfoldable pub release : UdpTargetsBudget → Lease → UdpTargetsBudget × Lease
release b l = if l.released then (b, l) else (
  record { used = b.used - 1; users = lower_user b.users l.identity },
  record l { released = true },
)

-- The callers: a caller reserves, or calls the function of some lease, any number of times.
pub data Call : Type 0 where
  reserve : List ℕ → Call
  release_at : ℕ → Call

pub record System : Type 0 where
  pub budget : UdpTargetsBudget
  pub leases : List Lease

unfoldable pub release_nth : UdpTargetsBudget → List Lease → ℕ → UdpTargetsBudget × List Lease
release_nth b [] i = (b, [])
release_nth b (l ∷ ls) zero = let (b', l') = release b l in (b', l' ∷ ls)
release_nth b (l ∷ ls) (suc i) = let (b', ls') = release_nth b ls i in (b', l ∷ ls')

abbrev pub keep : List Lease → Option Lease → List Lease
keep ls none = ls
keep ls (some l) = l ∷ ls

unfoldable pub call : System → Call → System
call s (reserve identity) =
    let (b, lease) = reserve_udp_target s.budget identity in
    record { budget = b; leases = keep s.leases lease }
call s (release_at i) =
    let (b, leases) = release_nth s.budget s.leases i in record { budget = b; leases = leases }

unfoldable pub calls : System → List Call → System
calls s [] = s
calls s (c ∷ cs) = calls (call s c) cs
