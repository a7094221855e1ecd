-- ===== src/Rawstream/Hello/Laws.antt =====
-- A polymorphic ClientHello is verified under the key that made it, from a buffer or a connection.
use chitanda.Base.{
  ◌==◌, if◌then◌else◌, bytes_eq_self, le→ltb, length, slice_at, take, drop, length-append,
  length-take, ℕ, zero, suc, ◌+◌, ◌%◌, ◌^◌, ◌≤◌, ◌<◌, bit_xor, ◌≡◌, refl, sym, ap, ap₂, ◌∙◌, inr,
  true, some, List, [], ◌∷◌, ◌++◌, append_assoc, arith,
}
use chitanda.Base.Bytes.{put_be, length-put_be, uint_be-put_be}
use chitanda.Base.Bits.{bit_xor_cancel}
use chitanda.Crypto.{codes, Hmac}
use chitanda.Rawstream.Hello.{
  is_fresh, xor_bytes, tag_of, derive_polymorphic_masks, derive_timestamp_mask, client_tag,
  create_polymorphic_client_hello, verify_polymorphic_client_hello, header_pad, header_nonce,
  header_ts, header_authentic,
}

pub xor_bytes_cancel :
    (xs ys : List ℕ) → length xs ≤ length ys → xor_bytes (xor_bytes xs ys) ys ≡ xs
unfolding xor_bytes
xor_bytes_cancel [] ys h = refl
xor_bytes_cancel (x ∷ xs) [] h = absurd (omega arith)
xor_bytes_cancel (x ∷ xs) (y ∷ ys) h =
    ap₂ ◌∷◌ (bit_xor_cancel x y) (xor_bytes_cancel xs ys (omega arith))

pub length-xor_bytes :
    (xs ys : List ℕ) → length xs ≤ length ys → length (xor_bytes xs ys) ≡ length xs
unfolding xor_bytes
length-xor_bytes [] ys h = refl
length-xor_bytes (x ∷ xs) [] h = absurd (omega arith)
length-xor_bytes (x ∷ xs) (y ∷ ys) h = ap suc (length-xor_bytes xs ys (omega arith))

module _ (mac : Hmac) where
  pub length-tag_of :
      (psk domain server_id rest : List ℕ) → length (tag_of mac psk domain server_id rest) ≡ 16
  unfolding tag_of
  length-tag_of psk domain server_id rest = omega (
    arith,
    length-take 16 (mac.sum psk (domain ++ (server_id ++ rest))),
    mac.length-sum psk (domain ++ (server_id ++ rest)),
  )

  length-derive_timestamp_mask :
      (psk nonce : List ℕ) → length (derive_timestamp_mask mac psk nonce) ≡ 8
  unfolding derive_timestamp_mask
  length-derive_timestamp_mask psk nonce = omega (
    arith,
    length-take 8 (mac.sum psk (codes "rawstream-ts-mask" ++ nonce)),
    mac.length-sum psk (codes "rawstream-ts-mask" ++ nonce),
  )

  -- The header of a polymorphic hello, before its padding.
  pub header_of : List ℕ → List ℕ → ℕ → ℕ → List ℕ → List ℕ
  header_of psk server_id now pad_len nonce =
      bit_xor pad_len (derive_polymorphic_masks mac psk server_id).0
      ∷ (xor_bytes (put_be 8 now) (derive_timestamp_mask mac psk nonce)
          ++ (nonce ++ client_tag mac psk server_id (put_be 8 now) nonce pad_len))

  module _ (psk server_id : List ℕ) (now pad_len : ℕ) (nonce : List ℕ)
      (nonce_long : length nonce ≡ 24) where
    masked : List ℕ
    masked = xor_bytes (put_be 8 now) (derive_timestamp_mask mac psk nonce)

    tag : List ℕ
    tag = client_tag mac psk server_id (put_be 8 now) nonce pad_len

    first : ℕ
    first = bit_xor pad_len (derive_polymorphic_masks mac psk server_id).0

    length-masked : length masked ≡ 8
    unfolding masked
    length-masked =
        length-xor_bytes (put_be 8 now) (derive_timestamp_mask mac psk nonce)
          (omega (arith, length-put_be 8 now, length-derive_timestamp_mask psk nonce))
        ∙ length-put_be 8 now

    length-tag : length tag ≡ 16
    unfolding tag
    length-tag = length-tag_of psk _ server_id _

    pub length-header_of : length (header_of psk server_id now pad_len nonce) ≡ 49
    unfolding header_of masked tag
    length-header_of = omega (
      arith,
      length-append masked (nonce ++ tag),
      length-append nonce tag,
      length-masked,
      length-tag,
    )

    -- With anything after the header, its parts from the left.
    parts :
        (rest : List ℕ)
        → header_of psk server_id now pad_len nonce ++ rest
          ≡ first ∷ (masked ++ (nonce ++ (tag ++ rest)))
    unfolding header_of masked tag first
    parts rest =
        ap (◌∷◌ first)
          (append_assoc masked (nonce ++ tag) rest ∙ ap (◌++◌ masked) (append_assoc nonce tag rest))

    pub header_nonce-header_of :
        (rest : List ℕ) → header_nonce (header_of psk server_id now pad_len nonce ++ rest) ≡ nonce
    header_nonce-header_of rest =
        ap header_nonce (parts rest)
        ∙ slice_at 9 24 (first ∷ masked) nonce (tag ++ rest) (omega (arith, length-masked))
            nonce_long

    pub header_ts-header_of :
        (rest : List ℕ)
        → header_ts mac psk (header_of psk server_id now pad_len nonce ++ rest) ≡ put_be 8 now
    unfolding masked
    header_ts-header_of rest =
        ap₂ (λ x n. xor_bytes x (derive_timestamp_mask mac psk n))
          (ap (λ t. take 8 (drop 1 t)) (parts rest)
            ∙ slice_at 1 8 (first ∷ []) masked (nonce ++ (tag ++ rest)) refl length-masked)
          (header_nonce-header_of rest)
        ∙ xor_bytes_cancel (put_be 8 now) (derive_timestamp_mask mac psk nonce)
            (omega (arith, length-put_be 8 now, length-derive_timestamp_mask psk nonce))

    pub header_pad-header_of :
        (rest : List ℕ)
        → header_pad
            (derive_polymorphic_masks mac psk server_id).0
            (header_of psk server_id now pad_len nonce ++ rest)
          ≡ pad_len
    unfolding header_of
    header_pad-header_of rest = bit_xor_cancel pad_len _

    header_tag :
        (rest : List ℕ)
        → take 16 (drop 33 (header_of psk server_id now pad_len nonce ++ rest)) ≡ tag
    header_tag rest =
        ap (λ t. take 16 (drop 33 t))
          (parts rest ∙ ap (◌∷◌ first) (sym (append_assoc masked nonce (tag ++ rest))))
        ∙ slice_at 33 16 (first ∷ (masked ++ nonce)) tag rest
            (omega (arith, length-append masked nonce, length-masked)) length-tag

    pub header_authentic-header_of :
        (rest : List ℕ)
        → header_authentic mac psk server_id
            (derive_polymorphic_masks mac psk server_id).0
            (header_of psk server_id now pad_len nonce ++ rest)
          ≡ true
    unfolding tag
    header_authentic-header_of rest =
        rw
          (
            header_ts-header_of rest,
            header_nonce-header_of rest,
            header_pad-header_of rest,
            header_tag rest,
          )
          (bytes_eq_self tag)

-- Two clocks below 2 ^ 64 that are at most 90 seconds apart.
abbrev pub AreNear : ℕ → ℕ → Type 0
AreNear now timestamp =
    (now < 2 ^ 64) × (timestamp < 2 ^ 64) × (timestamp ≤ now + 90) × (now ≤ timestamp + 90)

pub is_fresh_near : (now timestamp : ℕ) → AreNear now timestamp → is_fresh now timestamp ≡ true
unfolding is_fresh
is_fresh_near now timestamp (a, b, c, d) = ground arith

-- Padding bytes of a length that was drawn.
pub padding_drawn :
    (n : ℕ) (pad : ℕ → List ℕ)
    → ((k : ℕ) → length (pad k) ≡ k)
    → (p : List ℕ) × ((if n == 0 then some [] else some (pad n)) ≡ some p) × (length p ≡ n)
padding_drawn zero pad h = ([], refl, refl)
padding_drawn (suc n) pad h = (pad (suc n), ground arith, h (suc n))

module _ (mac : Hmac) (psk server_id : List ℕ) (now byte : ℕ) (pad : ℕ → List ℕ) (nonce : List ℕ)
    (psk_long : 32 ≤ length psk) (pads : (n : ℕ) → length (pad n) ≡ n)
    (nonce_long : length nonce ≡ 24) where
  abbrev pub pad_len : ℕ
  pad_len = byte % 65

  pub pad_bytes : List ℕ
  pad_bytes = (padding_drawn pad_len pad pads).0

  pub length-pad_bytes : length pad_bytes ≡ pad_len
  unfolding pad_bytes
  length-pad_bytes = (padding_drawn pad_len pad pads).2

  unfoldable pub hello_of : List ℕ
  hello_of = header_of mac psk server_id now pad_len nonce ++ pad_bytes

  pub created :
      create_polymorphic_client_hello mac psk server_id now
        (some byte)
        (λ n. some (pad n))
        (some nonce)
      ≡ inr (hello_of, nonce, now)
  unfolding create_polymorphic_client_hello hello_of pad_bytes masked first tag
  created =
      rw (le→ltb (length psk) 32 psk_long, (padding_drawn pad_len pad pads).1)
        (ap (λ t. inr (t, nonce, now))
          (sym (parts mac psk server_id now pad_len nonce nonce_long pad_bytes)))

  pub length-hello_of : length hello_of ≡ 49 + pad_len
  unfolding hello_of pad_bytes
  length-hello_of = omega (
    arith,
    length-append (header_of mac psk server_id now pad_len nonce) pad_bytes,
    length-header_of mac psk server_id now pad_len nonce nonce_long,
    (padding_drawn pad_len pad pads).2,
  )

  verified :
      (later : ℕ)
      → AreNear later now
      → verify_polymorphic_client_hello mac psk server_id hello_of later ≡ inr (nonce, now)
  unfolding verify_polymorphic_client_hello hello_of
  verified later near =
      let ts = header_ts-header_of mac psk server_id now pad_len nonce nonce_long pad_bytes in
      let back = header_pad-header_of mac psk server_id now pad_len nonce nonce_long pad_bytes in
      rw
        (
          header_authentic-header_of mac psk server_id now pad_len nonce nonce_long pad_bytes,
          ts,
          back,
          header_nonce-header_of mac psk server_id now pad_len nonce nonce_long pad_bytes,
          uint_be-put_be 8 now (omega arith),
          is_fresh_near later now near,
        )
        (ground (arith, length-hello_of))

-- A polymorphic ClientHello that is made with a key of at least 32 bytes, whatever bytes are drawn,
-- has from 49 to 113 bytes, and is verified under that key, with its nonce and timestamp, by a clock
-- at most 90 seconds from the one that made it.
pub verify-create_polymorphic :
    (mac : Hmac) (psk server_id : List ℕ) (now later byte : ℕ) (pad : ℕ → List ℕ) (nonce : List ℕ)
    → 32 ≤ length psk
    → ((n : ℕ) → length (pad n) ≡ n)
    → length nonce ≡ 24
    → AreNear later now
    → (hello : List ℕ) × (create_polymorphic_client_hello mac psk server_id now
          (some byte)
          (λ n. some (pad n))
          (some nonce)
        ≡ inr (hello, nonce, now))
      × (49 ≤ length hello)
      × (length hello ≤ 113)
      × (verify_polymorphic_client_hello mac psk server_id hello later ≡ inr (nonce, now))
verify-create_polymorphic mac psk server_id now later byte pad nonce long pads n near =
    let l = length-hello_of mac psk server_id now byte pad nonce long pads n in
    (
      hello_of mac psk server_id now byte pad nonce long pads n,
      created mac psk server_id now byte pad nonce long pads n,
      omega (arith, l),
      omega (arith, l),
      verified mac psk server_id now byte pad nonce long pads n later near,
    )
