-- ===== src/PlainUdp/Packet.antt =====
-- The packets of internal/plainudp/plainudp.go. HMAC-SHA-256, XChaCha20-Poly1305 under a key and the
-- parsers of net and strconv are parameters; the clock is in seconds, below 2 ^ 64.
pub mod Laws
use chitanda.Base.{
  ℤ, pos, negsuc, nil_of, ltb, leb, ◌==◌, if◌then◌else◌, bytes_eq, bytes_eq→eq, bytes_eq_self,
  ltb→lt, lt→ltb, leb→le, le→leb, lt→leb, le→ltb, ==_iff, Bool-cases, Option-cases, some_inj,
  length, get_or, set, take, drop, replicate, All, All-take, All-drop, slice_at, length-append,
  length-set, get_or-set_self, get_or-set_ne, length-replicate, get_or-replicate, take-append-drop,
  length-take, length-drop, take-append_exact, drop-append_exact, take-nil, take-add, drop-nil,
  drop-drop, All-append, ℕ, zero, suc, ◌+◌, ◌-◌, ◌*◌, ◌/◌, ◌%◌, ◌^◌, ◌≤◌, ◌<◌, min, max, bit_and,
  bit_or, bit_xor, ◌≡◌, refl, sym, ap, ap₂, ◌∙◌, ◌≢◌, ◌↔◌, ◌⊎◌, inl, inr, Bool, true, false, not,
  ◌&&◌, ◌||◌, Option, none, some, List, [], ◌∷◌, ◌++◌, map, append-nil, append_assoc, arith,
}
use chitanda.Base.Bytes.{
  IsByte, put_be, uint_be, length-put_be, put_be-IsByte, uint_be-snoc, uint_be-put_be,
  uint_be-bound, put_be-uint_be,
}
use chitanda.Crypto.{codes, Hmac, Aead}
use chitanda.Address.{
  NetText, AddressError, invalid_host_port, invalid_port, invalid_domain_length, parse_port,
  encode_host,
}

abbrev pub dir_client_to_server : ℕ
dir_client_to_server = 1

abbrev pub dir_server_to_client : ℕ
dir_server_to_client = 2

abbrev pub header_size : ℕ
header_size = 24

abbrev pub max_timestamp_skew : ℕ
max_timestamp_skew = 30

abbrev pub salt_udp : List ℕ
salt_udp = codes "MYXRAY-PLAIN-UDP-SALT-V2"

abbrev pub info_udp : List ℕ
info_udp = codes "MYXRAY-PLAIN-UDP-KEY-V2"

pub data PacketError : Type 0 where
  packet_too_short timestamp_expired decryption_failed invalid_address_type : PacketError
  invalid_address invalid_direction random_failed multiple_server_ids : PacketError
  bad_target : AddressError → PacketError

-- (c2sKey, s2cKey)
unfoldable pub derive_directional_keys : Hmac → List ℕ → List ℕ × List ℕ
derive_directional_keys mac psk =
    let prk = mac.sum salt_udp psk in
    (mac.sum prk (info_udp ++ codes "C2S"), mac.sum prk (info_udp ++ codes "S2C"))

pub record Codec : Type 0 where
  pub c2s_aead : Aead
  pub s2c_aead : Aead
  pub sequence : ℕ

-- The key of a server with a name.
abbrev pub server_psk : Hmac → List ℕ → List (List ℕ) → List ℕ
server_psk mac psk [] = psk
server_psk mac psk (server_id ∷ more) =
    if length server_id == 0
    then psk
    else mac.sum psk (codes "CHITANDA-PLAIN-UDP-SERVER-V3" ++ (0 ∷ server_id))

unfoldable pub new_codec : Hmac → (List ℕ → Aead) → List ℕ → List (List ℕ) → PacketError ⊎ Codec
new_codec mac new_x psk server_ids =
    let (c2s_key, s2c_key) = derive_directional_keys mac (server_psk mac psk server_ids) in
    if ltb 1 (length server_ids)
    then inl multiple_server_ids
    else inr (record { c2s_aead = new_x c2s_key; s2c_aead = new_x s2c_key; sequence = 0 })

-- The AEAD of a direction.
abbrev pub aead_of : Codec → ℕ → Option Aead
aead_of c dir =
    if dir == dir_client_to_server
    then some c.c2s_aead
    else if dir == dir_server_to_client
    then some c.s2c_aead
    else none

abbrev pub icmp_prefix : List ℕ
icmp_prefix = codes "icmp:"

abbrev pub host_port : NetText → Option (List ℕ × List ℕ) → AddressError ⊎ (List ℕ × ℕ)
host_port net none = inl invalid_host_port
host_port net (some (host, port_text)) = elim (parse_port net port_text) [
  | none ↦ inl invalid_port
  | some port ↦ inr (host, port)
]

abbrev pub target_parts : NetText → List ℕ → AddressError ⊎ (List ℕ × ℕ)
target_parts net address =
    if bytes_eq (take 5 address) icmp_prefix
    then inr (drop 5 address, 0)
    else host_port net (net.split_host_port address)

abbrev pub append_parts : NetText → List ℕ → AddressError ⊎ (List ℕ × ℕ) → AddressError ⊎ List ℕ
append_parts net buf (inl e) = inl e
append_parts net buf (inr (host, port)) = elim (encode_host net host) [
  | none ↦ inl invalid_domain_length
  | some bytes ↦ inr (buf ++ (bytes ++ put_be 2 port))
]

unfoldable pub append_target_address : NetText → List ℕ → List ℕ → AddressError ⊎ List ℕ
append_target_address net buf address = append_parts net buf (target_parts net address)

abbrev pub header_bytes : ℕ → ℕ → ℕ → List ℕ
header_bytes timestamp sequence session_id =
    put_be 8 timestamp ++ (put_be 8 sequence ++ put_be 8 session_id)

abbrev pub seal_packet :
    Codec → List ℕ → ℕ → List ℕ → Option (List ℕ) → AddressError ⊎ List ℕ → PacketError ⊎ List ℕ
seal_packet c dst dir payload draw (inl e) = inl (bad_target e)
seal_packet c dst dir payload draw (inr plaintext) = elim draw [
  | none ↦ inl random_failed
  | some nonce ↦ elim (aead_of c dir) [
    | none ↦ inl invalid_direction
    | some a ↦ inr (dst ++ (nonce ++ a.seal nonce (plaintext ++ payload) (dir ∷ [])))
  ]
]

-- The sequence number is used up by a failed call too.
unfoldable pub encode_packet :
    NetText
    → Codec
    → List ℕ
    → ℕ
    → ℕ
    → List ℕ
    → List ℕ
    → ℕ
    → Option (List ℕ)
    → (PacketError ⊎ List ℕ) × Codec
encode_packet net c dst dir session_id target payload now draw =
    let sequence = (c.sequence + 1) % 2 ^ 64 in
    (
      seal_packet c dst dir payload draw
          (append_target_address net (header_bytes now sequence session_id) target),
      record c { sequence = sequence },
    )
