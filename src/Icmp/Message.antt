-- ===== src/Icmp/Message.antt =====
-- Echo messages of internal/icmpmsg/icmp.go: building, parsing, validating, rewriting the
-- identifier, and taking the IP header off what a raw socket delivers.
pub mod Laws
pub mod Rewrite
use chitanda.Base.{
  ltb, leb, ◌==◌, if◌then◌else◌, bytes_eq, bytes_eq→eq, bytes_eq_self, ltb→lt, lt→ltb, leb→le,
  le→leb, lt→leb, le→ltb, ==_iff, Bool-cases, Option-cases, some_inj, length, get_or, set, take,
  drop, replicate, All, length-append, length-set, get_or-set_self, get_or-set_ne, length-replicate,
  get_or-replicate, take-append-drop, length-take, length-drop, take-append_exact,
  drop-append_exact, take-nil, take-add, drop-nil, drop-drop, All-append, ℕ, zero, suc, ◌+◌, ◌-◌,
  ◌*◌, ◌/◌, ◌%◌, ◌^◌, ◌≤◌, ◌<◌, min, max, bit_and, bit_or, bit_xor, ◌≡◌, refl, sym, ap, ap₂, ◌∙◌,
  ◌≢◌, ◌↔◌, ◌⊎◌, inl, inr, Bool, true, false, not, ◌&&◌, ◌||◌, Option, none, some, List, [], ◌∷◌,
  ◌++◌, map, append-nil, append_assoc, arith,
}
use chitanda.Base.Bytes.{
  IsByte, put_be, uint_be, length-put_be, put_be-IsByte, uint_be-snoc, uint_be-put_be,
  uint_be-bound, put_be-uint_be,
}
use chitanda.Icmp.Checksum.{checksum, adjust_checksum}

abbrev pub ipv4_echo_request : ℕ
ipv4_echo_request = 8

abbrev pub ipv4_echo_reply : ℕ
ipv4_echo_reply = 0

abbrev pub ipv6_echo_request : ℕ
ipv6_echo_request = 128

abbrev pub ipv6_echo_reply : ℕ
ipv6_echo_reply = 129

pub record EchoMessage : Type 0 where
  pub kind : ℕ
  pub code : ℕ
  pub checksum : ℕ
  pub id : ℕ
  pub seq : ℕ
  pub content : List ℕ

pub data IcmpError : Type 0 where
  too_short not_an_echo_request invalid_checksum : IcmpError
  invalid_ip_header too_many_outstanding : IcmpError

-- `PutUint16(packet[2:4], cs)` and `PutUint32(packet[4:8], token)`.
unfoldable pub put_checksum : List ℕ → ℕ → List ℕ
put_checksum packet cs = take 2 packet ++ (put_be 2 cs ++ drop 4 packet)

unfoldable pub put_token : List ℕ → ℕ → List ℕ
put_token packet token = take 4 packet ++ (put_be 4 token ++ drop 8 packet)

abbrev pub checksum_field : List ℕ → ℕ
checksum_field packet = uint_be (take 2 (drop 2 packet))

-- ID and sequence number as one 32-bit number.
abbrev pub token_field : List ℕ → ℕ
token_field packet = uint_be (take 4 (drop 4 packet))

-- The common body of BuildEchoRequest and BuildEchoReply.
abbrev pub build : ℕ → ℕ → ℕ → List ℕ → Bool → List ℕ
build kind id seq content is_ipv6 =
    let packet = kind ∷ 0 ∷ 0 ∷ 0 ∷ (put_be 2 id ++ (put_be 2 seq ++ content)) in
    if not is_ipv6 then put_checksum packet (checksum packet) else packet

unfoldable pub build_echo_request : ℕ → ℕ → List ℕ → Bool → List ℕ
build_echo_request id seq content is_ipv6 =
    build (if is_ipv6 then ipv6_echo_request else ipv4_echo_request) id seq content is_ipv6

unfoldable pub build_echo_reply : ℕ → ℕ → List ℕ → Bool → List ℕ
build_echo_reply id seq content is_ipv6 =
    build (if is_ipv6 then ipv6_echo_reply else ipv4_echo_reply) id seq content is_ipv6

unfoldable pub parse_echo : List ℕ → IcmpError ⊎ EchoMessage
parse_echo b =
    if ltb (length b) 8
    then inl too_short
    else inr (record {
      kind = get_or b 0 0;
      code = get_or b 1 0;
      checksum = checksum_field b;
      id = uint_be (take 2 (drop 4 b));
      seq = uint_be (take 2 (drop 6 b));
      content = drop 8 b;
    })

unfoldable pub validate_echo_request : List ℕ → Bool → Option IcmpError
validate_echo_request packet ipv6 =
    let want = if ipv6 then ipv6_echo_request else ipv4_echo_request in
    if ltb (length packet) 8
    then some too_short
    else if not (get_or packet 0 0 == want) || not (get_or packet 1 0 == 0)
    then some not_an_echo_request
    else if not ipv6 && not (checksum packet == 0)
    then some invalid_checksum
    else none

unfoldable pub rewrite_token : List ℕ → ℕ → Bool → List ℕ
rewrite_token packet token ipv6 =
    let old = token_field packet in
    let result = put_token packet token in
    if ipv6
    then (let cs = checksum_field result in
        if not (cs == 0) then put_checksum result (adjust_checksum cs old token) else result)
    else (let cleared = put_checksum result 0 in put_checksum cleared (checksum cleared))

unfoldable pub strip_ip_header : List ℕ → Bool → IcmpError ⊎ List ℕ
strip_ip_header packet ipv6 =
    let ihl = get_or packet 0 0 % 16 * 4 in
    if ltb (length packet) 8
    then inl too_short
    else if not ipv6 && (get_or packet 0 0 / 2 ^ 4 == 4)
    then (if ltb (length packet) 28
        then inl too_short
        else if ltb ihl 20 || ltb (length packet) (ihl + 8) || not (get_or packet 9 0 == 1)
        then inl invalid_ip_header
        else inr (drop ihl packet))
    else if ipv6 && (get_or packet 0 0 / 2 ^ 4 == 6)
    then (if ltb (length packet) 48 || not (get_or packet 6 0 == 58)
        then inl invalid_ip_header
        else inr (drop 40 packet))
    else inr packet
