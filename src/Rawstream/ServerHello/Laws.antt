-- ===== src/Rawstream/ServerHello/Laws.antt =====
-- The server's hello is verified by the client that sent the nonce, from a buffer or a connection.
use chitanda.Base.{
  nil_of, ltb, ◌==◌, if◌then◌else◌, bytes_eq_self, le→ltb, Bool-cases, length, take, drop, slice_at,
  length-append, take-append_exact, drop-append_exact, ℕ, ◌%◌, ◌≤◌, bit_xor, ◌≡◌, refl, sym, ap,
  ◌∙◌, ◌⊎◌, inl, inr, true, Option, none, some, List, [], ◌∷◌, ◌++◌, append-nil, append_assoc,
  arith,
}
use chitanda.Base.Bits.{bit_xor_cancel}
use chitanda.Crypto.{Hmac}
use chitanda.Io.{Event, IoError, read_full}
use chitanda.Io.Read.{stream_of, IsQuiet, Delivers, read_full_exactly}
use chitanda.Rawstream.Hello.{RawstreamError, derive_polymorphic_masks}
use chitanda.Rawstream.Hello.Laws.{length-tag_of, padding_drawn}
use chitanda.Rawstream.ServerHello.{
  server_tag, server_pad, server_authentic, create_server_hello, verify_server_hello,
  create_polymorphic_server_hello, verify_polymorphic_server_hello, read_server_padding,
  finish_server_hello, after_server_header, read_and_verify_polymorphic_server_hello,
}

read_server_padding_whole :
    (nonce : List ℕ) (d : List ℕ × Option IoError × List Event) (pad back : List ℕ)
    → Delivers d pad back
    → read_server_padding nonce d ≡ (inr nonce, d.2)
read_server_padding_whole nonce (got, none, r) pad back (g, e, s, q) = refl
read_server_padding_whole nonce (got, some x, r) pad back (g, e, s, q) = cc

finish_whole :
    (nonce pad tail : List ℕ) (n : ℕ) (r : List Event)
    → length pad ≡ n
    → IsQuiet r
    → stream_of r ≡ pad ++ tail
    → let (result, rest) = finish_server_hello nonce n r in
      (result ≡ inr nonce) × (stream_of rest ≡ tail) × IsQuiet rest
finish_whole nonce pad tail n r l q e = elim (Bool-cases (ltb 0 n)) [
  | inl z ↦
      let full = read_full_exactly n r pad tail l q e in
      rw (z, read_server_padding_whole nonce (read_full r n) pad tail full) (refl, full.2, full.3)
  | inr z ↦ rw z (refl, e ∙ ap (λ t. t ++ tail) (nil_of pad (ground arith)), q)
]

first_of :
    (a b nonce : List ℕ)
    → ◌≡◌ {A = RawstreamError ⊎ (List ℕ × List ℕ)} (inr (a, nonce)) (inr (b, nonce))
    → a ≡ b
first_of a b nonce h = cc

module _ (mac : Hmac) (psk server_id : List ℕ) (timestamp : ℕ) (client_nonce nonce : List ℕ)
    (nonce_long : length nonce ≡ 24) where
  plain_tag : List ℕ
  plain_tag = server_tag mac psk server_id timestamp client_nonce nonce []

  length-plain_tag : length plain_tag ≡ 16
  unfolding plain_tag
  length-plain_tag = length-tag_of mac psk _ server_id _

  -- What CreateServerHello makes of a nonce is verified, and gives the nonce.
  pub verify_server_hello-create :
      (hello : List ℕ)
      → create_server_hello mac psk server_id timestamp client_nonce (some nonce)
        ≡ inr (hello, nonce)
      → verify_server_hello mac psk server_id timestamp client_nonce hello ≡ inr nonce
  unfolding create_server_hello verify_server_hello plain_tag
  verify_server_hello-create hello c =
      let e : hello ≡ nonce ++ plain_tag = cc in
      rw
        (
          e,
          take-append_exact 24 nonce plain_tag nonce_long,
          drop-append_exact 24 nonce plain_tag nonce_long,
          bytes_eq_self plain_tag,
        )
        (ground (arith, length-append nonce plain_tag, length-plain_tag))

  long_psk :
      (byte : ℕ) (pad : ℕ → Option (List ℕ)) (hello : List ℕ)
      → create_polymorphic_server_hello mac psk server_id timestamp client_nonce
          (some byte)
          pad
          (some nonce)
        ≡ inr (hello, nonce)
      → 32 ≤ length psk
  unfolding create_polymorphic_server_hello
  long_psk byte pad hello c = ground arith

  module _ (byte : ℕ) where
    abbrev pad_len : ℕ
    pad_len = byte % 65

    pad_small : pad_len ≤ 64
    pad_small = omega arith

    first : ℕ
    first = bit_xor pad_len (derive_polymorphic_masks mac psk server_id).1

    tag : List ℕ
    tag = server_tag mac psk server_id timestamp client_nonce nonce (pad_len ∷ [])

    length-tag : length tag ≡ 16
    unfolding tag
    length-tag = length-tag_of mac psk _ server_id _

    -- The first 41 bytes.
    server_header : List ℕ
    server_header = first ∷ (nonce ++ tag)

    length-server_header : length server_header ≡ 41
    unfolding server_header
    length-server_header = omega (arith, length-append nonce tag, length-tag)

    header_parts : (rest : List ℕ) → server_header ++ rest ≡ first ∷ (nonce ++ (tag ++ rest))
    unfolding server_header
    header_parts rest = ap (◌∷◌ first) (append_assoc nonce tag rest)

    nonce_part : (rest : List ℕ) → take 24 (drop 1 (server_header ++ rest)) ≡ nonce
    nonce_part rest =
        ap (λ t. take 24 (drop 1 t)) (header_parts rest)
        ∙ slice_at 1 24 (first ∷ []) nonce (tag ++ rest) refl nonce_long

    tag_part : (rest : List ℕ) → take 16 (drop 25 (server_header ++ rest)) ≡ tag
    tag_part rest =
        ap (λ t. take 16 (drop 25 t)) (header_parts rest)
        ∙ slice_at 25 16 (first ∷ nonce) tag rest (omega arith) length-tag

    pad_part : (rest : List ℕ) → server_pad mac psk server_id (server_header ++ rest) ≡ pad_len
    unfolding server_header first
    pad_part rest = bit_xor_cancel pad_len _

    authentic :
        (rest : List ℕ)
        → server_authentic mac psk server_id timestamp client_nonce (server_header ++ rest) ≡ true
    unfolding tag
    authentic rest = rw (nonce_part rest, pad_part rest, tag_part rest) (bytes_eq_self tag)

    module _ (pad : ℕ → List ℕ) (bytes : List ℕ)
        (drawn : (if pad_len == 0 then some [] else some (pad pad_len)) ≡ some bytes) where
      created :
          32 ≤ length psk
          → create_polymorphic_server_hello mac psk server_id timestamp client_nonce
              (some byte)
              (λ k. some (pad k))
              (some nonce)
            ≡ inr (server_header ++ bytes, nonce)
      unfolding create_polymorphic_server_hello first tag
      created long =
          rw (le→ltb (length psk) 32 long, drawn)
            (ap (λ t. inr (t, nonce)) (sym (header_parts bytes)))

      created_fields :
          (hello : List ℕ)
          → create_polymorphic_server_hello mac psk server_id timestamp client_nonce
              (some byte)
              (λ k. some (pad k))
              (some nonce)
            ≡ inr (hello, nonce)
          → (32 ≤ length psk) × (hello ≡ server_header ++ bytes)
      created_fields hello c =
          let long = long_psk byte (λ k. some (pad k)) hello c in
          (long, first_of hello (server_header ++ bytes) nonce (sym c ∙ created long))

    module _ (pad : List ℕ) (pad_long : length pad ≡ pad_len) where
      verified :
          32 ≤ length psk
          → verify_polymorphic_server_hello mac psk server_id timestamp client_nonce
              (server_header ++ pad)
            ≡ inr nonce
      unfolding verify_polymorphic_server_hello
      verified long =
          rw (authentic pad, pad_part pad, nonce_part pad)
            (ground (arith, length-append server_header pad, length-server_header))

      after_header :
          (d : List ℕ × Option IoError × List Event) (tail : List ℕ)
          → Delivers d server_header (pad ++ tail)
          → let (result, rest) = after_server_header mac psk server_id timestamp client_nonce d in
            (result ≡ inr nonce) × (stream_of rest ≡ tail) × IsQuiet rest
      after_header (got, some x, r) tail (g, e, s, q) = cc
      after_header (got, none, r) tail (g, e, s, q) =
          let whole = append-nil server_header in
          rw
            (
              g,
              rw whole at (authentic []),
              rw whole at (nonce_part []),
              rw whole at (pad_part []),
              le→ltb 64 pad_len pad_small,
            )
            (finish_whole nonce pad tail pad_len r pad_long q s)

-- A polymorphic ServerHello, whatever bytes are drawn for it, is verified by the client that sent
-- the nonce, from a buffer and off a connection without errors, however that cuts it up; the client
-- gets the server's nonce, and what follows the hello is left.
pub verify-create_polymorphic_server_hello :
    (mac : Hmac) (psk server_id : List ℕ) (timestamp byte : ℕ) (client_nonce nonce : List ℕ)
    (pad : ℕ → List ℕ) (hello tail : List ℕ) (r : List Event)
    → length nonce ≡ 24
    → ((n : ℕ) → length (pad n) ≡ n)
    → create_polymorphic_server_hello mac psk server_id timestamp client_nonce
        (some byte)
        (λ n. some (pad n))
        (some nonce)
      ≡ inr (hello, nonce)
    → IsQuiet r
    → stream_of r ≡ hello ++ tail
    → let (result, rest) =
        read_and_verify_polymorphic_server_hello mac r psk server_id timestamp client_nonce in
      (verify_polymorphic_server_hello mac psk server_id timestamp client_nonce hello ≡ inr nonce)
      × (result ≡ inr nonce)
      × (stream_of rest ≡ tail)
      × IsQuiet rest
unfolding read_and_verify_polymorphic_server_hello
verify-create_polymorphic_server_hello mac psk server_id timestamp byte client_nonce nonce pad hello
      tail r n pads c q e =
    let (bytes, drawn, l) = padding_drawn (byte % 65) pad pads in
    let (long, same) =
      created_fields mac psk server_id timestamp client_nonce nonce n byte pad bytes drawn hello
        c in
    let head = server_header mac psk server_id timestamp client_nonce nonce n byte in
    let split : stream_of r ≡ head ++ (bytes ++ tail) =
      e ∙ ap (λ t. t ++ tail) same ∙ append_assoc head bytes tail in
    let full =
      read_full_exactly 41 r head (bytes ++ tail)
        (length-server_header mac psk server_id timestamp client_nonce nonce n byte) q split in
    let read =
      after_header mac psk server_id timestamp client_nonce nonce n byte bytes l (read_full r 41)
        tail full in
    (
      ap (verify_polymorphic_server_hello mac psk server_id timestamp client_nonce) same
          ∙ verified mac psk server_id timestamp client_nonce nonce n byte bytes l long,
      rw (le→ltb (length psk) 32 long) (read.0),
      rw (le→ltb (length psk) 32 long) (read.1),
      rw (le→ltb (length psk) 32 long) (read.2),
    )
