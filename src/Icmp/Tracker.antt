-- ===== src/Icmp/Tracker.antt =====
-- EchoTracker of internal/icmpmsg/icmp.go. The map of outstanding requests is an association list,
-- the process-wide counter `nextEchoToken` and the clock (in nanoseconds) are passed in and out.
pub mod Table
pub mod Laws
pub mod Once
use chitanda.Base.{
  ltb, leb, ◌==◌, if◌then◌else◌, bytes_eq, bytes_eq→eq, bytes_eq_self, ltb→lt, lt→ltb, leb→le,
  le→leb, lt→leb, le→ltb, ==_iff, Bool-cases, Option-cases, some_inj, length, get_or, set, take,
  drop, replicate, All, length-append, length-set, get_or-set_self, get_or-set_ne, length-replicate,
  get_or-replicate, take-append-drop, length-take, length-drop, take-append_exact,
  drop-append_exact, take-nil, take-add, drop-nil, drop-drop, All-append, ℕ, zero, suc, ◌+◌, ◌-◌,
  ◌*◌, ◌/◌, ◌%◌, ◌^◌, ◌≤◌, ◌<◌, min, max, bit_and, bit_or, bit_xor, ◌≡◌, refl, sym, ap, ap₂, ◌∙◌,
  ◌≢◌, ◌↔◌, ◌⊎◌, inl, inr, Bool, true, false, not, ◌&&◌, ◌||◌, Option, none, some, List, [], ◌∷◌,
  ◌++◌, map, append-nil, append_assoc, arith,
}
use chitanda.Icmp.Message.{
  IcmpError, too_many_outstanding, token_field, validate_echo_request, rewrite_token,
  strip_ip_header, ipv4_echo_reply, ipv6_echo_reply,
}

pub record PendingEcho : Type 0 where
  pub original : ℕ
  pub created : ℕ

abbrev pub Pending : Type 0
Pending = List (ℕ × PendingEcho)

abbrev pub minute : ℕ
minute = 60 * 10 ^ 9

abbrev pub max_pending : ℕ
max_pending = 2048

-- `delete(t.pending, token)`
unfoldable pub delete : ℕ → Pending → Pending
delete token [] = []
delete token ((k, p) ∷ rest) =
    let kept = delete token rest in if k == token then kept else (k, p) ∷ kept

unfoldable pub lookup : ℕ → Pending → Option PendingEcho
lookup token [] = none
lookup token ((k, p) ∷ rest) = let found = lookup token rest in if k == token then some p else found

-- `t.pending[token] = p`
unfoldable pub insert : ℕ → PendingEcho → Pending → Pending
insert token p pending = (token, p) ∷ delete token pending

-- `time.Since(created) >= time.Minute`
abbrev pub expired : ℕ → PendingEcho → Bool
expired now p = leb minute (now - p.created)

-- The loop that drops expired requests from a full table.
unfoldable pub drop_expired : ℕ → Pending → Pending
drop_expired now [] = []
drop_expired now ((k, p) ∷ rest) =
    let kept = drop_expired now rest in if expired now p then kept else (k, p) ∷ kept

abbrev pub make_room : ℕ → Pending → Pending
make_room now pending =
    if leb max_pending (length pending) then drop_expired now pending else pending

-- The table, the counter, and the packet to send.
unfoldable pub prepare_request :
    Pending → ℕ → ℕ → List ℕ → Bool → Pending × ℕ × (IcmpError ⊎ List ℕ)
prepare_request pending counter now packet ipv6 =
    let table = make_room now pending in
    let token = (counter + 1) % 2 ^ 32 in
    elim (validate_echo_request packet ipv6) [
      | some e ↦ (pending, counter, inl e)
      | none ↦
          if leb max_pending (length table) then (table, counter, inl too_many_outstanding) else (
            insert token (record { original = token_field packet; created = now }) table,
            token,
            inr (rewrite_token packet token ipv6),
          )
    ]

-- The echo reply that a raw packet holds.
unfoldable pub echo_reply_in : List ℕ → Bool → Option (List ℕ)
echo_reply_in raw ipv6 =
    let want = if ipv6 then ipv6_echo_reply else ipv4_echo_reply in
    elim (strip_ip_header raw ipv6) [
      | inl e ↦ none
      | inr packet ↦
          if ltb (length packet) 8
          then none
          else if not (get_or packet 0 0 == want) || not (get_or packet 1 0 == 0)
          then none
          else some packet
    ]

unfoldable pub restore_packet : Pending → ℕ → List ℕ → Bool → Pending × Option (List ℕ)
restore_packet pending now packet ipv6 =
    let token = token_field packet in
    elim (lookup token pending) [
      | none ↦ (pending, none)
      | some p ↦ (
        delete token pending,
        if expired now p then none else some (rewrite_token packet p.original ipv6),
      )
    ]

unfoldable pub restore_reply : Pending → ℕ → List ℕ → Bool → Pending × Option (List ℕ)
restore_reply pending now raw ipv6 = elim (echo_reply_in raw ipv6) [
  | none ↦ (pending, none)
  | some packet ↦ restore_packet pending now packet ipv6
]
