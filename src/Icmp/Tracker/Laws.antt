-- ===== src/Icmp/Tracker/Laws.antt =====
-- The tracker: a reply gets back what its request had.
use chitanda.Base.{
  if◌then◌else◌, length, get_or, take, drop, All, All-take, All-drop, length-take, ℕ, ◌+◌, ◌%◌, ◌^◌,
  ◌≤◌, ◌<◌, ◌≡◌, ap, ◌∙◌, inr, Bool, none, some, List, arith,
}
use chitanda.Base.Bytes.{IsByte, uint_be-bound}
use native.Mathlib.Nat.{pow-le-pow_right}
use chitanda.Icmp.Message.{token_field, validate_echo_request, rewrite_token, strip_ip_header}
use chitanda.Icmp.Message.Laws.{strip_ip_header-drop}
use chitanda.Icmp.Message.Rewrite.{rewrite_token-token_field}
use chitanda.Icmp.Tracker.{
  PendingEcho, Pending, minute, lookup, insert, make_room, prepare_request, echo_reply_in,
  restore_packet, restore_reply,
}

-- What PrepareRequest does when it returns a request.
prepare_request-inr :
    (pending : Pending) (counter now : ℕ) (packet request : List ℕ) (ipv6 : Bool)
    → (prepare_request pending counter now packet ipv6).2 ≡ inr request
    → let token = (counter + 1) % 2 ^ 32 in
      (validate_echo_request packet ipv6 ≡ none)
      × ((prepare_request pending counter now packet ipv6).0
          ≡ insert token
              (record { original = token_field packet; created = now })
              (make_room now pending))
      × (request ≡ rewrite_token packet token ipv6)
unfolding prepare_request
prepare_request-inr pending counter now packet request ipv6 h = ground arith

module _ (pending : Pending) (now : ℕ) (raw : List ℕ) (ipv6 : Bool) where
  pub restore_reply-some :
      (packet : List ℕ)
      → echo_reply_in raw ipv6 ≡ some packet
      → restore_reply pending now raw ipv6 ≡ restore_packet pending now packet ipv6
  unfolding restore_reply
  restore_reply-some packet e = ground arith

validate_echo_request-length :
    (packet : List ℕ) (ipv6 : Bool) → validate_echo_request packet ipv6 ≡ none → 8 ≤ length packet
unfolding validate_echo_request
validate_echo_request-length packet ipv6 h = ground arith

token_field-bound : (packet : List ℕ) → All IsByte packet → token_field packet < 2 ^ 32
token_field-bound packet h =
    let four = take 4 (drop 4 packet) in
    let bound =
      uint_be-bound four (All-take IsByte 4 (drop 4 packet) (All-drop IsByte 4 packet h)) in
    let grows =
      pow-le-pow_right {n = 256} (omega arith) {i = length four} {j = 4}
        (omega (arith, length-take 4 (drop 4 packet))) in
    omega arith

echo_reply_in-some :
    (raw reply : List ℕ) (ipv6 : Bool)
    → strip_ip_header raw ipv6 ≡ inr reply
    → get_or reply 0 0 ≡ (if ipv6 then 129 else 0)
    → get_or reply 1 0 ≡ 0
    → 8 ≤ length reply
    → echo_reply_in raw ipv6 ≡ some reply
unfolding echo_reply_in
echo_reply_in-some raw reply ipv6 s k c l = ground arith

restore_packet-insert :
    (pending : Pending) (token : ℕ) (p : PendingEcho) (later : ℕ) (reply : List ℕ) (ipv6 : Bool)
    → token_field reply ≡ token
    → later < p.created + minute
    → (restore_packet (insert token p pending) later reply ipv6).1
      ≡ some (rewrite_token reply p.original ipv6)
unfolding restore_packet insert lookup
restore_packet-insert pending token p later reply ipv6 e l = ground arith

-- If a request of bytes was prepared, then an echo reply that carries its identifier and comes
-- less than a minute later is restored to the identifier that the request came with, its data and
-- its length kept.
pub restore_reply-prepare_request :
    (pending : Pending) (counter now later : ℕ) (packet request raw reply : List ℕ) (ipv6 : Bool)
    → All IsByte packet
    → (prepare_request pending counter now packet ipv6).2 ≡ inr request
    → strip_ip_header raw ipv6 ≡ inr reply
    → get_or reply 0 0 ≡ (if ipv6 then 129 else 0)
    → get_or reply 1 0 ≡ 0
    → token_field reply ≡ token_field request
    → later < now + minute
    → (out : List ℕ) × ((restore_reply
          (prepare_request pending counter now packet ipv6).0
          later
          raw
          ipv6).1
        ≡ some out)
      × (token_field out ≡ token_field packet)
      × (drop 8 out ≡ drop 8 reply)
      × (length out ≡ length reply)
restore_reply-prepare_request pending counter now later packet request raw reply ipv6 b h s k c t
      l =
    let token = (counter + 1) % 2 ^ 32 in
    let p : PendingEcho = record { original = token_field packet; created = now } in
    let (valid, state, made) = prepare_request-inr pending counter now packet request ipv6 h in
    let (long, dropped) = strip_ip_header-drop raw reply ipv6 s in
    let sent =
      rewrite_token-token_field packet token ipv6 (validate_echo_request-length packet ipv6 valid)
        (omega arith) in
    let found = echo_reply_in-some raw reply ipv6 s k c long in
    let restored =
      restore_packet-insert (make_room now pending) token p later reply ipv6
        (t ∙ ap token_field made ∙ sent.0) l in
    let (o, unused, d, n) =
      rewrite_token-token_field reply (token_field packet) ipv6 long (token_field-bound packet b) in
    (
      rewrite_token reply (token_field packet) ipv6,
      rw
          (
            state,
            restore_reply-some (insert token p (make_room now pending)) later raw ipv6 reply found,
          )
          restored,
      o,
      d,
      n,
    )
