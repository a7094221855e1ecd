-- ===== src/Rawstream/ServerHello.antt =====
-- The server's hello and the keys of internal/rawstream/frame.go.
pub mod Laws
use chitanda.Base.{
  ltb, leb, ◌==◌, if◌then◌else◌, bytes_eq, bytes_eq→eq, bytes_eq_self, ltb→lt, lt→ltb, leb→le,
  le→leb, lt→leb, le→ltb, ==_iff, Bool-cases, Option-cases, some_inj, length, get_or, set, take,
  drop, replicate, All, All-take, All-drop, length-append, length-set, get_or-set_self,
  get_or-set_ne, length-replicate, get_or-replicate, take-append-drop, length-take, length-drop,
  take-append_exact, drop-append_exact, take-nil, take-add, drop-nil, drop-drop, All-append, ℕ,
  zero, suc, ◌+◌, ◌-◌, ◌*◌, ◌/◌, ◌%◌, ◌^◌, ◌≤◌, ◌<◌, min, max, bit_and, bit_or, bit_xor, ◌≡◌, refl,
  sym, ap, ap₂, ◌∙◌, ◌≢◌, ◌↔◌, ◌⊎◌, inl, inr, Bool, true, false, not, ◌&&◌, ◌||◌, Option, none,
  some, List, [], ◌∷◌, ◌++◌, map, append-nil, append_assoc, arith,
}
use chitanda.Base.Bytes.{put_be}
use chitanda.Crypto.{codes, Hmac}
use chitanda.Io.{Event, IoError, read_full}
use chitanda.Rawstream.Hello.{
  RawstreamError, short_psk, random_failed, invalid_record_len, invalid_server_auth,
  invalid_polymorphic_padding, server_hello_size, max_polymorphic_padding, domain_server_hello,
  tag_of, derive_polymorphic_masks,
}
use chitanda.Rawstream.Matcher.{ReadError, io, rejected}

-- The padding is read only after the tag was found right.
abbrev pub read_server_padding :
    List ℕ → List ℕ × Option IoError × List Event → (ReadError ⊎ List ℕ) × List Event
read_server_padding nonce (pad, none, r) = (inr nonce, r)
read_server_padding nonce (pad, some e, r) = (inl (io e), r)

abbrev pub finish_server_hello : List ℕ → ℕ → List Event → (ReadError ⊎ List ℕ) × List Event
finish_server_hello nonce pad_len r =
    if ltb 0 pad_len then read_server_padding nonce (read_full r pad_len) else (inr nonce, r)

module _ (mac : Hmac) where
  unfoldable pub derive_0rtt_key : List ℕ → List ℕ → ℕ → List ℕ → List ℕ
  derive_0rtt_key psk server_id timestamp client_nonce =
      tag_of mac psk (codes "CHITANDA-RAWSTREAM-0RTT-V1") server_id
        (put_be 8 timestamp ++ client_nonce)

  -- (clientKey, serverKey)
  unfoldable pub derive_session_keys : List ℕ → List ℕ → ℕ → List ℕ → List ℕ → List ℕ × List ℕ
  derive_session_keys psk server_id timestamp client_nonce server_nonce =
      let prk = mac.sum psk (
        codes "CHITANDA-RAWSTREAM-SESSION-V1"
        ++ (server_id ++ (put_be 8 timestamp ++ (client_nonce ++ server_nonce)))) in
      (take 16 (mac.sum prk (codes "C2S")), take 16 (mac.sum prk (codes "S2C")))

  abbrev pub server_tag : List ℕ → List ℕ → ℕ → List ℕ → List ℕ → List ℕ → List ℕ
  server_tag psk server_id timestamp client_nonce server_nonce rest =
      tag_of mac psk domain_server_hello server_id
        (put_be 8 timestamp ++ (client_nonce ++ (server_nonce ++ rest)))

  unfoldable pub create_server_hello :
      List ℕ → List ℕ → ℕ → List ℕ → Option (List ℕ) → RawstreamError ⊎ (List ℕ × List ℕ)
  create_server_hello psk server_id timestamp client_nonce draw = elim draw [
    | none ↦ inl random_failed
    | some nonce ↦ inr (nonce ++ server_tag psk server_id timestamp client_nonce nonce [], nonce)
  ]

  unfoldable pub verify_server_hello :
      List ℕ → List ℕ → ℕ → List ℕ → List ℕ → RawstreamError ⊎ List ℕ
  verify_server_hello psk server_id timestamp client_nonce hello =
      let nonce = take 24 hello in
      if not (length hello == server_hello_size)
      then inl invalid_record_len
      else if not
          (bytes_eq (drop 24 hello) (server_tag psk server_id timestamp client_nonce nonce []))
      then inl invalid_server_auth
      else inr nonce

  unfoldable pub create_polymorphic_server_hello :
      List ℕ
      → List ℕ
      → ℕ
      → List ℕ
      → Option ℕ
      → (ℕ → Option (List ℕ))
      → Option (List ℕ)
      → RawstreamError ⊎ (List ℕ × List ℕ)
  create_polymorphic_server_hello psk server_id timestamp client_nonce draw_len draw_pad
        draw_nonce =
      if ltb (length psk) 32 then inl short_psk else elim draw_len [
        | none ↦ inl random_failed
        | some byte ↦
            let pad_len = byte % (max_polymorphic_padding + 1) in
            elim (if pad_len == 0 then some [] else draw_pad pad_len) [
              | none ↦ inl random_failed
              | some pad_bytes ↦ elim draw_nonce [
                | none ↦ inl random_failed
                | some nonce ↦
                    let mask = (derive_polymorphic_masks mac psk server_id).1 in
                    let tag =
                      server_tag psk server_id timestamp client_nonce nonce (pad_len ∷ []) in
                    inr (bit_xor pad_len mask ∷ (nonce ++ (tag ++ pad_bytes)), nonce)
              ]
            ]
      ]

  -- The fixed 41 bytes: the length of the padding, the nonce, and whether the tag is right.
  abbrev pub server_pad : List ℕ → List ℕ → List ℕ → ℕ
  server_pad psk server_id header =
      bit_xor (get_or header 0 0) (derive_polymorphic_masks mac psk server_id).1

  abbrev pub server_authentic : List ℕ → List ℕ → ℕ → List ℕ → List ℕ → Bool
  server_authentic psk server_id timestamp client_nonce header =
      bytes_eq (take 16 (drop 25 header)) (
        server_tag psk server_id timestamp client_nonce (take 24 (drop 1 header))
          (server_pad psk server_id header ∷ []))

  unfoldable pub verify_polymorphic_server_hello :
      List ℕ → List ℕ → ℕ → List ℕ → List ℕ → RawstreamError ⊎ List ℕ
  verify_polymorphic_server_hello psk server_id timestamp client_nonce hello =
      let pad_len = server_pad psk server_id hello in
      if ltb (length psk) 32
      then inl short_psk
      else if ltb (length hello) (1 + server_hello_size)
      then inl invalid_record_len
      else if ltb max_polymorphic_padding pad_len
      then inl invalid_polymorphic_padding
      else if not (length hello == 1 + server_hello_size + pad_len)
      then inl invalid_record_len
      else if not (server_authentic psk server_id timestamp client_nonce hello)
      then inl invalid_server_auth
      else inr (take 24 (drop 1 hello))

  abbrev pub after_server_header :
      List ℕ
      → List ℕ
      → ℕ
      → List ℕ
      → List ℕ × Option IoError × List Event
      → (ReadError ⊎ List ℕ) × List Event
  after_server_header psk server_id timestamp client_nonce (header, some e, r) = (inl (io e), r)
  after_server_header psk server_id timestamp client_nonce (header, none, r) =
      let pad_len = server_pad psk server_id header in
      let nonce = take 24 (drop 1 header) in
      if ltb max_polymorphic_padding pad_len
      then (inl (rejected invalid_polymorphic_padding), r)
      else if not (server_authentic psk server_id timestamp client_nonce header)
      then (inl (rejected invalid_server_auth), r)
      else finish_server_hello nonce pad_len r

  unfoldable pub read_and_verify_polymorphic_server_hello :
      List Event → List ℕ → List ℕ → ℕ → List ℕ → (ReadError ⊎ List ℕ) × List Event
  read_and_verify_polymorphic_server_hello r psk server_id timestamp client_nonce =
      if ltb (length psk) 32
      then (inl (rejected short_psk), r)
      else after_server_header psk server_id timestamp client_nonce
          (read_full r (1 + server_hello_size))
