-- ===== src/Rawstream/Hello.antt =====
-- The hellos of internal/rawstream/frame.go. A result is `inl error` or `inr value`. What is drawn
-- from crypto/rand is an argument, `none` where the draw fails; the clock is in seconds, below
-- 2 ^ 64.
pub mod Laws
use chitanda.Base.{
  ltb, leb, ◌==◌, if◌then◌else◌, bytes_eq, bytes_eq→eq, bytes_eq_self, ltb→lt, lt→ltb, leb→le,
  le→leb, lt→leb, le→ltb, ==_iff, Bool-cases, Option-cases, some_inj, length, get_or, set, take,
  drop, replicate, All, All-take, All-drop, length-append, length-set, get_or-set_self,
  get_or-set_ne, length-replicate, get_or-replicate, take-append-drop, length-take, length-drop,
  take-append_exact, drop-append_exact, take-nil, take-add, drop-nil, drop-drop, All-append, ℕ,
  zero, suc, ◌+◌, ◌-◌, ◌*◌, ◌/◌, ◌%◌, ◌^◌, ◌≤◌, ◌<◌, min, max, bit_and, bit_or, bit_xor, ◌≡◌, refl,
  sym, ap, ap₂, ◌∙◌, ◌≢◌, ◌↔◌, ◌⊎◌, inl, inr, Bool, true, false, not, ◌&&◌, ◌||◌, Option, none,
  some, List, [], ◌∷◌, ◌++◌, map, append-nil, append_assoc, arith,
}
use chitanda.Base.Bytes.{put_be, uint_be}
use chitanda.Crypto.{codes, Hmac}

abbrev pub client_hello_size : ℕ
client_hello_size = 48

abbrev pub server_hello_size : ℕ
server_hello_size = 40

abbrev pub max_timestamp_skew : ℕ
max_timestamp_skew = 90

abbrev pub max_polymorphic_padding : ℕ
max_polymorphic_padding = 64

abbrev pub domain_polymorphic_mask : List ℕ
domain_polymorphic_mask = codes "CHITANDA-RAWSTREAM-POLY-V1"

abbrev pub domain_client_hello : List ℕ
domain_client_hello = codes "CHITANDA-RAWSTREAM-CLIENT-V1"

abbrev pub domain_server_hello : List ℕ
domain_server_hello = codes "CHITANDA-RAWSTREAM-SERVER-V1"

pub data RawstreamError : Type 0 where
  short_psk random_failed invalid_record_len timestamp_expired : RawstreamError
  invalid_client_auth invalid_server_auth invalid_polymorphic_padding no_psk : RawstreamError

-- `diff < -90 || diff > 90` fails for `diff := int64(nowSec) - int64(timestamp)`, which wraps.
unfoldable pub is_fresh : ℕ → ℕ → Bool
is_fresh now timestamp =
    let diff = (now + 2 ^ 64 - timestamp) % 2 ^ 64 in
    leb diff max_timestamp_skew || leb (2 ^ 64 - max_timestamp_skew) diff

-- `xs[i] ^ ys[i]` for each `i`.
unfoldable pub xor_bytes : List ℕ → List ℕ → List ℕ
xor_bytes [] ys = []
xor_bytes (x ∷ xs) [] = []
xor_bytes (x ∷ xs) (y ∷ ys) = bit_xor x y ∷ xor_bytes xs ys

-- Fields of a header: padLen under a mask, and clientNonce.
abbrev pub header_pad : ℕ → List ℕ → ℕ
header_pad mask header = bit_xor (get_or header 0 0) mask

abbrev pub header_nonce : List ℕ → List ℕ
header_nonce header = take 24 (drop 9 header)

module _ (mac : Hmac) where
  -- The first 16 bytes of the MAC over the domain, the server's name (nothing if it is empty) and
  -- the rest.
  unfoldable pub tag_of : List ℕ → List ℕ → List ℕ → List ℕ → List ℕ
  tag_of psk domain server_id rest = take 16 (mac.sum psk (domain ++ (server_id ++ rest)))

  unfoldable pub create_client_hello :
      List ℕ → List ℕ → ℕ → Option (List ℕ) → RawstreamError ⊎ (List ℕ × List ℕ × ℕ)
  create_client_hello psk server_id now draw =
      if ltb (length psk) 32 then inl short_psk else elim draw [
        | none ↦ inl random_failed
        | some nonce ↦
            let tag = tag_of psk domain_client_hello server_id (put_be 8 now ++ nonce) in
            inr (put_be 8 now ++ (nonce ++ tag), nonce, now)
      ]

  unfoldable pub verify_client_hello : List ℕ → List ℕ → List ℕ → ℕ → RawstreamError ⊎ (List ℕ × ℕ)
  verify_client_hello psk server_id hello now =
      let timestamp = uint_be (take 8 hello) in
      let nonce = take 24 (drop 8 hello) in
      let expected = tag_of psk domain_client_hello server_id (take 8 hello ++ nonce) in
      if ltb (length psk) 32
      then inl short_psk
      else if not (length hello == client_hello_size)
      then inl invalid_record_len
      else if not (is_fresh now timestamp)
      then inl timestamp_expired
      else if not (bytes_eq (drop 32 hello) expected)
      then inl invalid_client_auth
      else inr (nonce, timestamp)

  -- (clientMask, serverMask)
  unfoldable pub derive_polymorphic_masks : List ℕ → List ℕ → ℕ × ℕ
  derive_polymorphic_masks psk server_id =
      let sum = mac.sum psk (domain_polymorphic_mask ++ server_id) in
      (get_or sum 0 0, get_or sum 1 0)

  unfoldable pub derive_timestamp_mask : List ℕ → List ℕ → List ℕ
  derive_timestamp_mask psk nonce = take 8 (mac.sum psk (codes "rawstream-ts-mask" ++ nonce))

  abbrev pub client_tag : List ℕ → List ℕ → List ℕ → List ℕ → ℕ → List ℕ
  client_tag psk server_id ts_buf nonce pad_len =
      tag_of psk domain_client_hello server_id (ts_buf ++ (nonce ++ pad_len ∷ []))

  -- The draws: the byte that gives the length of the padding, the padding of that length, the
  -- nonce.
  unfoldable pub create_polymorphic_client_hello :
      List ℕ
      → List ℕ
      → ℕ
      → Option ℕ
      → (ℕ → Option (List ℕ))
      → Option (List ℕ)
      → RawstreamError ⊎ (List ℕ × List ℕ × ℕ)
  create_polymorphic_client_hello psk server_id now draw_len draw_pad draw_nonce =
      if ltb (length psk) 32 then inl short_psk else elim draw_len [
        | none ↦ inl random_failed
        | some byte ↦
            let pad_len = byte % (max_polymorphic_padding + 1) in
            elim (if pad_len == 0 then some [] else draw_pad pad_len) [
              | none ↦ inl random_failed
              | some pad_bytes ↦ elim draw_nonce [
                | none ↦ inl random_failed
                | some nonce ↦
                    let mask = (derive_polymorphic_masks psk server_id).0 in
                    let masked = xor_bytes (put_be 8 now) (derive_timestamp_mask psk nonce) in
                    let tag = client_tag psk server_id (put_be 8 now) nonce pad_len in
                    inr
                      (bit_xor pad_len mask ∷ (masked ++ (nonce ++ (tag ++ pad_bytes))), nonce, now)
              ]
            ]
      ]

  -- tsBuf under a key, and whether the tag is right.
  abbrev pub header_ts : List ℕ → List ℕ → List ℕ
  header_ts psk header =
      xor_bytes (take 8 (drop 1 header)) (derive_timestamp_mask psk (header_nonce header))

  abbrev pub header_authentic : List ℕ → List ℕ → ℕ → List ℕ → Bool
  header_authentic psk server_id mask header = bytes_eq (take 16 (drop 33 header)) (
      client_tag psk server_id (header_ts psk header) (header_nonce header)
        (header_pad mask header))

  unfoldable pub verify_polymorphic_client_hello :
      List ℕ → List ℕ → List ℕ → ℕ → RawstreamError ⊎ (List ℕ × ℕ)
  verify_polymorphic_client_hello psk server_id hello now =
      let mask = (derive_polymorphic_masks psk server_id).0 in
      let pad_len = header_pad mask hello in
      let timestamp = uint_be (header_ts psk hello) in
      if ltb (length psk) 32
      then inl short_psk
      else if ltb (length hello) (1 + client_hello_size)
      then inl invalid_record_len
      else if ltb max_polymorphic_padding pad_len
      then inl invalid_polymorphic_padding
      else if not (length hello == 1 + client_hello_size + pad_len)
      then inl invalid_record_len
      else if not (is_fresh now timestamp)
      then inl timestamp_expired
      else if not (header_authentic psk server_id mask hello)
      then inl invalid_client_auth
      else inr (header_nonce hello, timestamp)
