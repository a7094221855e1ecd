-- ===== src/Icmp/Tracker/Once.antt =====
-- Replies that come again, with other calls of the tracker in between.
use chitanda.Base.{
  leb, Bool-cases, Option-cases, length, All, ℕ, ◌+◌, ◌%◌, ◌^◌, ◌≡◌, ◌≢◌, ap, ◌∙◌, inl, inr, Bool,
  none, some, List, [], ◌∷◌, arith,
}
use chitanda.Icmp.Message.{token_field}
use chitanda.Icmp.Tracker.{
  PendingEcho, Pending, max_pending, lookup, insert, make_room, prepare_request, echo_reply_in,
  restore_packet, restore_reply,
}
use chitanda.Icmp.Tracker.Laws.{restore_reply-some}
use chitanda.Icmp.Tracker.Table.{lookup-delete_self, lookup-delete-none, lookup-drop_expired-none}

-- A call of the tracker: PrepareRequest at a value of the counter and a time, with a packet, or
-- RestoreReply at a time, with a raw packet.
pub data Call : Type 0 where
  prepare : ℕ → ℕ → List ℕ → Bool → Call
  restore : ℕ → List ℕ → Bool → Call

abbrev pub call : Pending → Call → Pending
call pending (prepare counter now packet ipv6) = (prepare_request pending counter now packet ipv6).0
call pending (restore now raw ipv6) = (restore_reply pending now raw ipv6).0

-- The table after the calls, in their order.
unfoldable pub calls : Pending → List Call → Pending
calls pending [] = pending
calls pending (c ∷ rest) = calls (call pending c) rest

-- The call does not give `token` to a request.
abbrev pub IsOther : ℕ → Call → Type 0
IsOther token (prepare counter now packet ipv6) = (counter + 1) % 2 ^ 32 ≢ token
IsOther token (restore now raw ipv6) = Unit

module _ (token : ℕ) where
  insert-none :
      (k : ℕ) (p : PendingEcho) (pending : Pending)
      → k ≢ token
      → lookup token pending ≡ none
      → lookup token (insert k p pending) ≡ none
  unfolding insert lookup
  insert-none k p pending d h = ground (arith, lookup-delete-none k token pending h)

  make_room-none :
      (now : ℕ) (pending : Pending)
      → lookup token pending ≡ none
      → lookup token (make_room now pending) ≡ none
  make_room-none now pending h = elim (Bool-cases (leb max_pending (length pending))) [
    | inl full ↦ rw full (lookup-drop_expired-none now token pending h)
    | inr free ↦ rw free h
  ]

  prepare_request-none :
      (pending : Pending) (counter now : ℕ) (packet : List ℕ) (ipv6 : Bool)
      → (counter + 1) % 2 ^ 32 ≢ token
      → lookup token pending ≡ none
      → lookup token (prepare_request pending counter now packet ipv6).0 ≡ none
  unfolding prepare_request
  prepare_request-none pending counter now packet ipv6 d h =
      let room = make_room-none now pending h in
      let added =
        insert-none ((counter + 1) % 2 ^ 32)
          (record { original = token_field packet; created = now }) (make_room now pending) d
          room in
      ground (arith, h, room, added)

  restore_packet-kept :
      (pending : Pending) (now : ℕ) (packet : List ℕ) (ipv6 : Bool)
      → lookup token pending ≡ none
      → lookup token (restore_packet pending now packet ipv6).0 ≡ none
  unfolding restore_packet
  restore_packet-kept pending now packet ipv6 h =
      ground (arith, h, lookup-delete-none (token_field packet) token pending h)

  restore_reply-kept :
      (pending : Pending) (now : ℕ) (raw : List ℕ) (ipv6 : Bool)
      → lookup token pending ≡ none
      → lookup token (restore_reply pending now raw ipv6).0 ≡ none
  unfolding restore_reply
  restore_reply-kept pending now raw ipv6 h = elim (Option-cases (echo_reply_in raw ipv6)) [
    | inl e ↦ rw (e, restore_reply) h
    | inr (packet, e) ↦ rw (e, restore_reply) (restore_packet-kept pending now packet ipv6 h)
  ]

  call-none :
      (pending : Pending) (c : Call)
      → IsOther token c
      → lookup token pending ≡ none
      → lookup token (call pending c) ≡ none
  call-none pending (prepare counter now packet ipv6) d h =
      prepare_request-none pending counter now packet ipv6 d h
  call-none pending (restore now raw ipv6) d h = restore_reply-kept pending now raw ipv6 h

  calls-none :
      (pending : Pending) (between : List Call)
      → All (IsOther token) between
      → lookup token pending ≡ none
      → lookup token (calls pending between) ≡ none
  unfolding calls
  calls-none pending [] o h = h
  calls-none pending (c ∷ rest) o h =
      calls-none (call pending c) rest o.1 (call-none pending c o.0 h)

module _ (pending : Pending) (now : ℕ) (packet : List ℕ) (ipv6 : Bool) where
  restore_packet-none :
      lookup (token_field packet) pending ≡ none → (restore_packet pending now packet ipv6).1 ≡ none
  unfolding restore_packet
  restore_packet-none e = ground arith

  -- The reply's token is gone, whether or not it was in the table.
  restore_packet-spent :
      lookup (token_field packet) (restore_packet pending now packet ipv6).0 ≡ none
  unfolding restore_packet
  restore_packet-spent = ground (arith, lookup-delete_self (token_field packet) pending)

-- A raw packet that holds an echo reply, once handled by RestoreReply, is not restored when it
-- comes again at any time after any further calls of the tracker, among which no PrepareRequest
-- gives the reply's token to a new request.
pub restore_reply_once :
    (pending : Pending) (now later : ℕ) (raw reply : List ℕ) (ipv6 : Bool) (between : List Call)
    → echo_reply_in raw ipv6 ≡ some reply
    → All (IsOther (token_field reply)) between
    → (restore_reply (calls (restore_reply pending now raw ipv6).0 between) later raw ipv6).1 ≡ none
restore_reply_once pending now later raw reply ipv6 between e o =
    let handled = (restore_reply pending now raw ipv6).0 in
    let spent : lookup (token_field reply) handled ≡ none =
      rw (restore_reply-some pending now raw ipv6 reply e)
        (restore_packet-spent pending now reply ipv6) in
    ap (λ t. t.1) (restore_reply-some (calls handled between) later raw ipv6 reply e)
    ∙ restore_packet-none (calls handled between) later reply ipv6
        (calls-none (token_field reply) handled between o spent)
