-- ===== src/PlainUdp/Decode.antt =====
-- DecodePacket, DecodePacketMulti and decodeTargetAddress of internal/plainudp/plainudp.go.
pub mod Laws
pub mod Target
pub mod Safety
pub mod Window
use chitanda.Base.{
  ℤ, pos, negsuc, nil_of, ltb, leb, ◌==◌, if◌then◌else◌, bytes_eq, bytes_eq→eq, bytes_eq_self,
  ltb→lt, lt→ltb, leb→le, le→leb, lt→leb, le→ltb, ==_iff, Bool-cases, Option-cases, some_inj,
  length, get_or, set, take, drop, replicate, All, All-take, All-drop, slice_at, length-append,
  length-set, get_or-set_self, get_or-set_ne, length-replicate, get_or-replicate, take-append-drop,
  length-take, length-drop, take-append_exact, drop-append_exact, take-nil, take-add, drop-nil,
  drop-drop, All-append, ℕ, zero, suc, ◌+◌, ◌-◌, ◌*◌, ◌/◌, ◌%◌, ◌^◌, ◌≤◌, ◌<◌, min, max, bit_and,
  bit_or, bit_xor, ◌≡◌, refl, sym, ap, ap₂, ◌∙◌, ◌≢◌, ◌↔◌, ◌⊎◌, inl, inr, Bool, true, false, not,
  ◌&&◌, ◌||◌, Option, none, some, List, [], ◌∷◌, ◌++◌, map, append-nil, append_assoc, arith,
}
use chitanda.Base.Bytes.{
  IsByte, put_be, uint_be, length-put_be, put_be-IsByte, uint_be-snoc, uint_be-put_be,
  uint_be-bound, put_be-uint_be,
}
use chitanda.Crypto.{Aead}
use chitanda.Address.{NetText}
use chitanda.PlainUdp.Packet.{
  PacketError, packet_too_short, timestamp_expired, decryption_failed, invalid_address_type,
  invalid_address, invalid_direction, Codec, header_size, max_timestamp_skew, icmp_prefix, aead_of,
}

abbrev pub target_of : NetText → List ℕ → ℕ → List ℕ
target_of net host port =
    if port == 0 then icmp_prefix ++ host else net.join_host_port host (net.itoa port)

-- The port at `offset`, and what follows it.
abbrev pub with_port : NetText → List ℕ → List ℕ → ℕ → PacketError ⊎ (List ℕ × List ℕ)
with_port net data_ host offset =
    inr (target_of net host (uint_be (take 2 (drop offset data_))), drop (offset + 2) data_)

unfoldable pub decode_target_address : NetText → List ℕ → PacketError ⊎ (List ℕ × List ℕ)
decode_target_address net data_ =
    let addr_type = get_or data_ 0 0 in
    let domain_len = get_or data_ 1 0 in
    if ltb (length data_) 1
    then inl invalid_address
    else if addr_type == 1
    then if ltb (length data_) (1 + 4 + 2)
      then inl invalid_address
      else with_port net data_ (net.ip_text (take 4 (drop 1 data_))) (1 + 4)
    else if addr_type == 3
    then if ltb (length data_) (1 + 1)
      then inl invalid_address
      else if domain_len == 0 || ltb (length data_) (2 + domain_len + 2)
      then inl invalid_address
      else with_port net data_ (take domain_len (drop 2 data_)) (2 + domain_len)
    else if addr_type == 4
    then if ltb (length data_) (1 + 16 + 2)
      then inl invalid_address
      else with_port net data_ (net.ip_text (take 16 (drop 1 data_))) (1 + 16)
    else inl invalid_address_type

-- What DecodePacket returns beside the error.
pub record Packet : Type 0 where
  pub session_id : ℕ
  pub target : List ℕ
  pub payload : List ℕ
  pub timestamp : ℕ
  pub sequence : ℕ

abbrev pub no_packet : Packet
no_packet = record { session_id = 0; target = []; payload = []; timestamp = 0; sequence = 0 }

-- `diff < -30 || diff > 30` fails for `diff := int64(nowSec) - int64(timestamp)`, which wraps.
unfoldable pub is_recent : ℕ → ℕ → Bool
is_recent now timestamp =
    let diff = (now + 2 ^ 64 - timestamp) % 2 ^ 64 in
    leb diff max_timestamp_skew || leb (2 ^ 64 - max_timestamp_skew) diff

abbrev pub with_target : Packet → PacketError ⊎ (List ℕ × List ℕ) → Option PacketError × Packet
with_target p (inl e) = (some e, p)
with_target p (inr (target, payload)) = (none, record p { target = target; payload = payload })

unfoldable pub decode_plaintext : NetText → ℕ → List ℕ → Option PacketError × Packet
decode_plaintext net now plaintext =
    let timestamp = uint_be (take 8 plaintext) in
    if ltb (length plaintext) 24
    then (some packet_too_short, no_packet)
    else if not (is_recent now timestamp)
    then (some timestamp_expired, record no_packet { timestamp = timestamp })
    else with_target
        (record {
          session_id = uint_be (take 8 (drop 16 plaintext));
          target = [];
          payload = [];
          timestamp = timestamp;
          sequence = uint_be (take 8 (drop 8 plaintext));
        })
        (decode_target_address net (drop 24 plaintext))

abbrev pub after_decrypt : NetText → ℕ → Option (List ℕ) → Option PacketError × Packet
after_decrypt net now none = (some decryption_failed, no_packet)
after_decrypt net now (some plaintext) = decode_plaintext net now plaintext

-- A packet of a legal length, by the AEAD of the direction.
abbrev pub opened_under : NetText → List ℕ → ℕ → ℕ → Option Aead → Option PacketError × Packet
opened_under net packet dir now none = (some invalid_direction, no_packet)
opened_under net packet dir now (some a) =
    after_decrypt net now (a.open_ (take header_size packet) (drop header_size packet) (dir ∷ []))

unfoldable pub decode_packet : NetText → Codec → List ℕ → ℕ → ℕ → Option PacketError × Packet
decode_packet net c packet dir now =
    if ltb (length packet) (header_size + 24 + 1 + 16)
    then (some packet_too_short, no_packet)
    else opened_under net packet dir now (aead_of c dir)

-- A codec of the list may be nil. The index is none for -1.
abbrev pub Matched : Type 0
Matched = Option ℕ × Packet

abbrev pub or_next : ℕ → Option PacketError × Packet → Matched → Matched
or_next index (none, p) rest = (some index, p)
or_next index (some e, p) rest = rest

unfoldable pub decode_multi_from : NetText → ℕ → List (Option Codec) → List ℕ → ℕ → ℕ → Matched
decode_multi_from net index [] packet dir now = (none, no_packet)
decode_multi_from net index (none ∷ codecs) packet dir now =
    decode_multi_from net (index + 1) codecs packet dir now
decode_multi_from net index (some c ∷ codecs) packet dir now =
    or_next index (decode_packet net c packet dir now)
      (decode_multi_from net (index + 1) codecs packet dir now)

-- With no match the error is ErrDecryptionFailed.
unfoldable pub decode_packet_multi :
    NetText → List (Option Codec) → List ℕ → ℕ → ℕ → Option PacketError × Matched
decode_packet_multi net codecs packet dir now =
    let (index, p) = decode_multi_from net 0 codecs packet dir now in
    (elim index [ none ↦ some decryption_failed | some i ↦ none ], (index, p))
