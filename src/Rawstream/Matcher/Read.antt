-- ===== src/Rawstream/Matcher/Read.antt =====
-- A polymorphic ClientHello is read off a connection by the server that has its key.
use chitanda.Base.{
  nil_of, ltb, le→ltb, Bool-cases, length, ℕ, ◌%◌, ◌≤◌, ◌≡◌, refl, sym, ap, ◌∙◌, ◌⊎◌, inl, inr,
  Option, none, some, List, [], ◌∷◌, ◌++◌, append-nil, append_assoc, arith,
}
use chitanda.Base.Bytes.{uint_be-put_be}
use chitanda.Crypto.{Hmac}
use chitanda.Io.{Event, IoError, read_full}
use chitanda.Io.Read.{stream_of, IsQuiet, Delivers, read_full_exactly}
use chitanda.Rawstream.Hello.{RawstreamError, create_polymorphic_client_hello}
use chitanda.Rawstream.Hello.Laws.{
  header_of, length-header_of, header_nonce-header_of, header_ts-header_of, header_pad-header_of,
  header_authentic-header_of, AreNear, is_fresh_near, pad_bytes, length-pad_bytes, hello_of,
  created,
}
use chitanda.Rawstream.Matcher.{
  Match, MatchResult, match_one, match_polymorphic_client_hello_header, read_padding, after_match,
  after_header, read_and_match_polymorphic_client_hello, read_and_verify_polymorphic_client_hello,
}

pub after_header_whole :
    (decide : List ℕ → MatchResult) (d : List ℕ × Option IoError × List Event)
    (header back : List ℕ)
    → Delivers d header back
    → after_header decide d ≡ after_match (decide header) d.2
after_header_whole decide (got, none, r) header back (g, e, s, q) =
    ap (λ t. after_match (decide t) r) g
after_header_whole decide (got, some x, r) header back (g, e, s, q) = cc

pub read_padding_whole :
    (m : Match) (d : List ℕ × Option IoError × List Event) (pad back : List ℕ)
    → Delivers d pad back
    → read_padding m d ≡ (inr m, d.2)
read_padding_whole m (got, none, r) pad back (g, e, s, q) = refl
read_padding_whole m (got, some x, r) pad back (g, e, s, q) = cc

-- A match, then its padding.
pub after_match_whole :
    (m : Match) (r : List Event) (pad tail : List ℕ)
    → length pad ≡ m.pad_len
    → IsQuiet r
    → stream_of r ≡ pad ++ tail
    → ((after_match (inr m) r).0 ≡ inr m)
      × (stream_of (after_match (inr m) r).1 ≡ tail)
      × IsQuiet (after_match (inr m) r).1
after_match_whole m r pad tail l q e = elim (Bool-cases (ltb 0 m.pad_len)) [
  | inl z ↦
      let full = read_full_exactly m.pad_len r pad tail l q e in
      rw (z, read_padding_whole m (read_full r m.pad_len) pad tail full) (refl, full.2, full.3)
  | inr z ↦ rw z (refl, e ∙ ap (λ t. t ++ tail) (nil_of pad (ground arith)), q)
]

module _ (mac : Hmac) (psk server_id : List ℕ) (now byte : ℕ) (pad : ℕ → List ℕ) (nonce : List ℕ)
    (psk_long : 32 ≤ length psk) (pads : (n : ℕ) → length (pad n) ≡ n)
    (nonce_long : length nonce ≡ 24) where
  abbrev made_match : Match
  made_match = record { index = 0; pad_len = byte % 65; nonce = nonce; timestamp = now }

  header : List ℕ
  header = header_of mac psk server_id now (byte % 65) nonce

  length-header : length header ≡ 49
  unfolding header
  length-header = length-header_of mac psk server_id now (byte % 65) nonce nonce_long

  match_one-header :
      (later : ℕ) → AreNear later now → match_one mac server_id header later psk ≡ inr made_match
  unfolding match_one header
  match_one-header later near =
      let whole = append-nil (header_of mac psk server_id now (byte % 65) nonce) in
      let ts = header_ts-header_of mac psk server_id now (byte % 65) nonce nonce_long [] in
      let back = header_pad-header_of mac psk server_id now (byte % 65) nonce nonce_long [] in
      let right =
        header_authentic-header_of mac psk server_id now (byte % 65) nonce nonce_long [] in
      let same = header_nonce-header_of mac psk server_id now (byte % 65) nonce nonce_long [] in
      rw
        (
          rw whole at right,
          rw whole at ts,
          rw whole at back,
          rw whole at same,
          uint_be-put_be 8 now (omega arith),
          is_fresh_near later now near,
        )
        (ground arith)

  decided :
      (later : ℕ)
      → AreNear later now
      → match_polymorphic_client_hello_header mac server_id header later (psk ∷ []) ≡ inr made_match
  unfolding match_polymorphic_client_hello_header
  decided later near = ground (arith, match_one-header later near, length-header)

first_part :
    (a b nonce : List ℕ) (now : ℕ)
    → ◌≡◌ {A = RawstreamError ⊎ (List ℕ × List ℕ × ℕ)} (inr (a, nonce, now)) (inr (b, nonce, now))
    → a ≡ b
first_part a b nonce now h = cc

-- A polymorphic ClientHello made with a key of at least 32 bytes, whatever bytes are drawn, is read
-- by a server with the key and a clock at most 90 seconds away, off a connection without errors,
-- however that cuts it up; the server gets its nonce and timestamp, and what follows it is left.
pub read_and_verify-create_polymorphic :
    (mac : Hmac) (psk server_id : List ℕ) (now later byte : ℕ) (pad : ℕ → List ℕ)
    (nonce tail : List ℕ) (r : List Event) (hello : List ℕ)
    → 32 ≤ length psk
    → ((n : ℕ) → length (pad n) ≡ n)
    → length nonce ≡ 24
    → AreNear later now
    → create_polymorphic_client_hello mac psk server_id now
        (some byte)
        (λ n. some (pad n))
        (some nonce)
      ≡ inr (hello, nonce, now)
    → IsQuiet r
    → stream_of r ≡ hello ++ tail
    → let (result, rest) = read_and_verify_polymorphic_client_hello mac r psk server_id later in
      (result ≡ inr (record { index = 0; pad_len = byte % 65; nonce = nonce; timestamp = now }))
      × (stream_of rest ≡ tail)
      × IsQuiet rest
unfolding read_and_verify_polymorphic_client_hello read_and_match_polymorphic_client_hello hello_of
    header
read_and_verify-create_polymorphic mac psk server_id now later byte pad nonce tail r hello long pads
      n near c q e =
    let same =
      first_part hello (hello_of mac psk server_id now byte pad nonce long pads n) nonce now
        (sym c ∙ created mac psk server_id now byte pad nonce long pads n) in
    let bytes = pad_bytes mac psk server_id now byte pad nonce long pads n in
    let head = header mac psk server_id now byte pad nonce long pads n in
    let split : stream_of r ≡ head ++ (bytes ++ tail) =
      e ∙ ap (λ t. t ++ tail) same ∙ append_assoc head bytes tail in
    let full =
      read_full_exactly 49 r head (bytes ++ tail)
        (length-header mac psk server_id now byte pad nonce long pads n) q split in
    let m = made_match mac psk server_id now byte pad nonce long pads n in
    rw
      (
        le→ltb (length psk) 32 long,
        after_header_whole
            (λ h. match_polymorphic_client_hello_header mac server_id h later (psk ∷ []))
            (read_full r 49) head (bytes ++ tail) full,
        decided mac psk server_id now byte pad nonce long pads n later near,
      )
      (after_match_whole m (read_full r 49).2 bytes tail
        (length-pad_bytes mac psk server_id now byte pad nonce long pads n) full.3 full.2)
