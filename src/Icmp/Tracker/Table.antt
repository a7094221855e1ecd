-- ===== src/Icmp/Tracker/Table.antt =====
-- The table of outstanding requests stays bounded, with distinct keys.
use chitanda.Base.{
  leb, Bool-cases, Option-cases, length, ℕ, ◌+◌, ◌%◌, ◌^◌, ◌≤◌, ◌<◌, ◌≡◌, refl, inl, inr, Bool,
  none, List, [], ◌∷◌, arith,
}
use chitanda.Icmp.Message.{token_field}
use chitanda.Icmp.Tracker.{
  PendingEcho, Pending, max_pending, delete, lookup, insert, drop_expired, make_room,
  prepare_request, echo_reply_in, restore_packet, restore_reply,
}

-- What the map of outstanding requests keeps: at most 2048 entries, each key once.
Distinct : Pending → Type 0
Distinct [] = Unit
Distinct ((k, p) ∷ rest) = (lookup k rest ≡ none) × Distinct rest

pub IsTable : Pending → Type 0
IsTable pending = (length pending ≤ max_pending) × Distinct pending

module _ (token : ℕ) where
  length-delete : (pending : Pending) → length (delete token pending) ≤ length pending
  unfolding delete
  length-delete [] = omega arith
  length-delete ((k, p) ∷ rest) = ground (arith, length-delete rest)

  pub lookup-delete_self : (pending : Pending) → lookup token (delete token pending) ≡ none
  unfolding delete lookup
  lookup-delete_self [] = refl
  lookup-delete_self ((k, p) ∷ rest) = ground (arith, lookup-delete_self rest)

  pub lookup-delete-none :
      (k : ℕ) (pending : Pending) → lookup k pending ≡ none → lookup k (delete token pending) ≡ none
  unfolding delete lookup
  lookup-delete-none k [] h = refl
  lookup-delete-none k ((j, p) ∷ rest) h = ground (arith, lookup-delete-none k rest)

  delete-Distinct : (pending : Pending) → Distinct pending → Distinct (delete token pending)
  unfolding delete Distinct
  delete-Distinct [] h = tt
  delete-Distinct ((k, p) ∷ rest) h =
      ground (arith, delete-Distinct rest h.1, lookup-delete-none k rest h.0)

length-drop_expired :
    (now : ℕ) (pending : Pending) → length (drop_expired now pending) ≤ length pending
unfolding drop_expired
length-drop_expired now [] = omega arith
length-drop_expired now ((k, p) ∷ rest) = ground (arith, length-drop_expired now rest)

pub lookup-drop_expired-none :
    (now k : ℕ) (pending : Pending)
    → lookup k pending ≡ none
    → lookup k (drop_expired now pending) ≡ none
unfolding drop_expired lookup
lookup-drop_expired-none now k [] h = refl
lookup-drop_expired-none now k ((j, p) ∷ rest) h =
    ground (arith, lookup-drop_expired-none now k rest)

drop_expired-Distinct :
    (now : ℕ) (pending : Pending) → Distinct pending → Distinct (drop_expired now pending)
unfolding drop_expired Distinct
drop_expired-Distinct now [] h = tt
drop_expired-Distinct now ((k, p) ∷ rest) h =
    ground (arith, drop_expired-Distinct now rest h.1, lookup-drop_expired-none now k rest h.0)

insert-IsTable :
    (token : ℕ) (p : PendingEcho) (pending : Pending)
    → length pending < max_pending
    → Distinct pending
    → IsTable (insert token p pending)
unfolding insert IsTable Distinct
insert-IsTable token p pending h d = (
  omega (arith, length-delete token pending),
  (lookup-delete_self token pending, delete-Distinct token pending d),
)

IsTable-Distinct : (pending : Pending) → IsTable pending → Distinct pending
unfolding IsTable
IsTable-Distinct pending h = h.1

make_room-IsTable :
    (now : ℕ) (pending : Pending) → IsTable pending → IsTable (make_room now pending)
unfolding IsTable
make_room-IsTable now pending h =
    ground (arith, length-drop_expired now pending, drop_expired-Distinct now pending h.1)

prepare_request-IsTable :
    (pending : Pending) (counter now : ℕ) (packet : List ℕ) (ipv6 : Bool)
    → IsTable pending
    → IsTable (prepare_request pending counter now packet ipv6).0
unfolding prepare_request
prepare_request-IsTable pending counter now packet ipv6 h =
    let table = make_room now pending in
    let room = make_room-IsTable now pending h in
    elim (Bool-cases (leb max_pending (length table))) [
      | inl full ↦ ground (arith, room)
      | inr free ↦
          let inserted =
            insert-IsTable ((counter + 1) % 2 ^ 32)
              (record { original = token_field packet; created = now }) table (ground arith)
              (IsTable-Distinct table room) in
          ground (arith, inserted)
    ]

delete-IsTable : (token : ℕ) (pending : Pending) → IsTable pending → IsTable (delete token pending)
unfolding IsTable
delete-IsTable token pending h =
    (omega (arith, length-delete token pending), delete-Distinct token pending h.1)

restore_packet-IsTable :
    (pending : Pending) (now : ℕ) (packet : List ℕ) (ipv6 : Bool)
    → IsTable pending
    → IsTable (restore_packet pending now packet ipv6).0
unfolding restore_packet
restore_packet-IsTable pending now packet ipv6 h =
    elim (Option-cases (lookup (token_field packet) pending)) [
      | inl e ↦ rw (e, restore_packet) h
      | inr (p, e) ↦ rw (e, restore_packet) (delete-IsTable (token_field packet) pending h)
    ]

restore_reply-IsTable :
    (pending : Pending) (now : ℕ) (raw : List ℕ) (ipv6 : Bool)
    → IsTable pending
    → IsTable (restore_reply pending now raw ipv6).0
unfolding restore_reply
restore_reply-IsTable pending now raw ipv6 h = elim (Option-cases (echo_reply_in raw ipv6)) [
  | inl e ↦ rw (e, restore_reply) h
  | inr (packet, e) ↦ rw (e, restore_reply) (restore_packet-IsTable pending now packet ipv6 h)
]

-- Every operation keeps the table of outstanding requests within 2048 entries with distinct keys,
-- whatever packets and replies come.
pub tracker-IsTable :
    (pending : Pending) (counter now : ℕ) (packet raw : List ℕ) (ipv6 : Bool)
    → IsTable pending
    → IsTable (prepare_request pending counter now packet ipv6).0
      × IsTable (restore_reply pending now raw ipv6).0
tracker-IsTable pending counter now packet raw ipv6 h = (
  prepare_request-IsTable pending counter now packet ipv6 h,
  restore_reply-IsTable pending now raw ipv6 h,
)

pub nil-IsTable : IsTable []
unfolding IsTable Distinct
nil-IsTable = (omega arith, tt)
