-- ===== src/Rawstream/Tests.antt =====
-- Runs of the handshake and of the chunks, and their theorems at concrete inputs.
use chitanda.Base.{
  length, get_or, take, drop, replicate, All, length-replicate, ℕ, zero, suc, ◌%◌, ◌≤◌, bit_xor,
  ◌≡◌, refl, ◌↔◌, inr, none, some, List, [], ◌∷◌, ◌++◌, arith,
}
use chitanda.Base.Bytes.{IsByte, put_be, uint_be}
use chitanda.Crypto.{codes, Hmac}
use chitanda.Io.{Event}
use chitanda.Io.Read.{stream_of, IsQuiet}
use chitanda.Rawstream.Hello.{
  create_polymorphic_client_hello, verify_polymorphic_client_hello, derive_polymorphic_masks,
  derive_timestamp_mask, tag_of, xor_bytes, is_fresh,
}
use chitanda.Rawstream.Hello.Laws.{verify-create_polymorphic}
use chitanda.Rawstream.Matcher.{
  Match, PreparedClientHelloMatcher, match_keys, match_polymorphic_client_hello_header,
  new_prepared_client_hello_matcher, prepare_masks, match_header,
  read_and_verify_polymorphic_client_hello,
}
use chitanda.Rawstream.Matcher.Laws.{Authenticates, match-Authenticates, match_header_iff}
use chitanda.Rawstream.Matcher.Read.{read_and_verify-create_polymorphic}
use chitanda.Rawstream.ServerHello.{
  create_polymorphic_server_hello, verify_polymorphic_server_hello,
  read_and_verify_polymorphic_server_hello,
}
use chitanda.Rawstream.ServerHello.Laws.{verify-create_polymorphic_server_hello}

All-replicate : (P : ℕ → Type 0) (n b : ℕ) → P b → All P (replicate n b)
All-replicate P zero b h = tt
All-replicate P (suc n) b h = (h, All-replicate P n b h)

-- In place of HMAC: 32 times the first byte of the key.
abbrev toy_mac : Hmac
toy_mac = record {
  sum = λ key message. replicate 32 (get_or key 0 0 % 256);
  length-sum = λ key message. length-replicate 32 (get_or key 0 0 % 256);
  sum-IsByte = λ key message. All-replicate IsByte 32 (get_or key 0 0 % 256) (omega arith);
}

abbrev psk : List ℕ
psk = replicate 32 7

abbrev other_psk : List ℕ
other_psk = replicate 32 1

abbrev server_id : List ℕ
server_id = codes "srv"

abbrev client_nonce : List ℕ
client_nonce = replicate 24 9

abbrev server_nonce : List ℕ
server_nonce = replicate 24 4

-- A hello drawn with the byte 67, that is two bytes of padding.
abbrev hello : List ℕ
hello =
    bit_xor 2 7
    ∷ (xor_bytes (put_be 8 1000) (replicate 8 7)
        ++ (client_nonce ++ (replicate 16 7 ++ replicate 2 5)))

hello_created :
    create_polymorphic_client_hello toy_mac psk server_id 1000
      (some 67)
      (λ n. some (replicate n 5))
      (some client_nonce)
    ≡ inr (hello, client_nonce, 1000)
unfolding create_polymorphic_client_hello derive_polymorphic_masks derive_timestamp_mask tag_of
    xor_bytes put_be
hello_created = refl

abbrev served : List ℕ
served = bit_xor 2 7 ∷ (server_nonce ++ (replicate 16 7 ++ replicate 2 5))

served_created :
    create_polymorphic_server_hello toy_mac psk server_id 1000 client_nonce
      (some 67)
      (λ n. some (replicate n 5))
      (some server_nonce)
    ≡ inr (served, server_nonce)
unfolding create_polymorphic_server_hello derive_polymorphic_masks tag_of
served_created = refl

verify-create_polymorphic_example :
    (h : List ℕ) × (create_polymorphic_client_hello toy_mac psk server_id 1000
        (some 67)
        (λ n. some (replicate n 5))
        (some client_nonce)
      ≡ inr (h, client_nonce, 1000))
    × (49 ≤ length h)
    × (length h ≤ 113)
    × (verify_polymorphic_client_hello toy_mac psk server_id h 1090 ≡ inr (client_nonce, 1000))
verify-create_polymorphic_example =
    verify-create_polymorphic toy_mac psk server_id 1000 1090 67 (λ n. replicate n 5) client_nonce
      (omega arith) (λ n. length-replicate n 5) refl (omega arith)

abbrev two_reads : List Event
two_reads =
    record { bytes = take 20 hello; ends = none }
    ∷ record { bytes = drop 20 hello ++ 8 ∷ 9 ∷ []; ends = none }
    ∷ []

two_reads_whole : stream_of two_reads ≡ hello ++ 8 ∷ 9 ∷ []
unfolding xor_bytes put_be
two_reads_whole = refl

read_and_verify-create_polymorphic_example :
    let (result, rest) =
      read_and_verify_polymorphic_client_hello toy_mac two_reads psk server_id 1090 in
    (result ≡ inr (record { index = 0; pad_len = 2; nonce = client_nonce; timestamp = 1000 }))
    × (stream_of rest ≡ 8 ∷ 9 ∷ [])
    × IsQuiet rest
read_and_verify-create_polymorphic_example =
    read_and_verify-create_polymorphic toy_mac psk server_id 1000 1090 67 (λ n. replicate n 5)
      client_nonce (8 ∷ 9 ∷ []) two_reads hello (omega arith) (λ n. length-replicate n 5) refl
      (omega arith) hello_created (refl, (refl, tt)) two_reads_whole

-- The second of two keys made the hello.
abbrev matched : Match
matched = record { index = 1; pad_len = 2; nonce = client_nonce; timestamp = 1000 }

second_key :
    match_polymorphic_client_hello_header toy_mac server_id hello 1090 (other_psk ∷ psk ∷ [])
    ≡ inr matched
unfolding match_polymorphic_client_hello_header match_keys derive_polymorphic_masks
    derive_timestamp_mask tag_of xor_bytes put_be uint_be is_fresh
second_key = refl

match-Authenticates_example :
    Authenticates toy_mac server_id hello 1090 (other_psk ∷ psk ∷ []) matched 1
match-Authenticates_example =
    match-Authenticates toy_mac server_id hello 1090 (other_psk ∷ psk ∷ []) matched second_key

abbrev matcher : PreparedClientHelloMatcher
matcher = record { keys = other_psk ∷ psk ∷ []; client_masks = 1 ∷ 7 ∷ []; server_id = server_id }

matcher_made :
    new_prepared_client_hello_matcher toy_mac (other_psk ∷ psk ∷ []) server_id ≡ inr matcher
unfolding new_prepared_client_hello_matcher prepare_masks derive_polymorphic_masks
matcher_made = refl

match_header_iff_example : (match_header toy_mac matcher hello 1090 ≡ inr matched) ↔ (
    match_polymorphic_client_hello_header toy_mac server_id hello 1090 (other_psk ∷ psk ∷ [])
    ≡ inr matched)
match_header_iff_example =
    match_header_iff toy_mac (other_psk ∷ psk ∷ []) server_id hello 1090 matcher matched
      matcher_made

abbrev server_read : List Event
server_read = record { bytes = served ++ 3 ∷ []; ends = none } ∷ []

verify-create_polymorphic_server_hello_example :
    let (result, rest) =
      read_and_verify_polymorphic_server_hello toy_mac server_read psk server_id 1000
        client_nonce in
    (verify_polymorphic_server_hello toy_mac psk server_id 1000 client_nonce served
      ≡ inr server_nonce)
    × (result ≡ inr server_nonce)
    × (stream_of rest ≡ 3 ∷ [])
    × IsQuiet rest
verify-create_polymorphic_server_hello_example =
    verify-create_polymorphic_server_hello toy_mac psk server_id 1000 67 client_nonce server_nonce
      (λ n. replicate n 5) served (3 ∷ []) server_read refl (λ n. length-replicate n 5)
      served_created (refl, tt) refl
