-- ===== src/PlainUdp/PacketTests.antt =====
-- Runs of the packet codec, and its theorems at concrete inputs.
use chitanda.Base.{
  ◌≤◌, ◌≢◌, pos, if◌then◌else◌, bytes_eq, bytes_eq_self, length, take, drop, replicate,
  length-append, length-replicate, take-append_exact, drop-append_exact, ℕ, ◌+◌, ◌-◌, ◌≡◌, refl, ap,
  ◌∙◌, ◌≢◌, inr, Option, none, some, List, [], ◌∷◌, ◌++◌, arith,
}
use chitanda.Base.Bytes.{put_be, uint_be}
use chitanda.Crypto.{codes, Aead}
use chitanda.Address.{NetText, parse_port, encode_host}
use chitanda.Address.Laws.{host_text}
use chitanda.PlainUdp.Packet.{Codec, append_target_address, encode_packet}
use chitanda.PlainUdp.Packet.Laws.{Written}
use chitanda.PlainUdp.Decode.{
  target_of, Packet, decode_target_address, is_recent, decode_plaintext, decode_packet,
  decode_packet_multi,
}
use chitanda.PlainUdp.Decode.Laws.{AreClose, decode_packet-encode_packet}
use chitanda.PlainUdp.Decode.Window.{IsAuthentic, decode_packet_window}
use chitanda.PlainUdp.Decode.Safety.{Multi, decode_packet_multi-Multi}

-- In place of XChaCha20-Poly1305 under a key of one byte: the text, then 16 times the key.
abbrev toy_open : ℕ → List ℕ → Option (List ℕ)
toy_open key ciphertext =
    let n = length ciphertext - 16 in
    if bytes_eq (drop n ciphertext) (replicate 16 key) then some (take n ciphertext) else none

toy_open_sealed :
    (key : ℕ) (plaintext : List ℕ) → toy_open key (plaintext ++ replicate 16 key) ≡ some plaintext
toy_open_sealed key plaintext =
    let tag = replicate 16 key in
    let n : length (plaintext ++ tag) - 16 ≡ length plaintext =
      omega (arith, length-append plaintext tag, length-replicate 16 key) in
    rw
      (
        n,
        drop-append_exact (length plaintext) plaintext tag refl,
        take-append_exact (length plaintext) plaintext tag refl,
        bytes_eq_self tag,
      )
      refl

abbrev toy_aead : ℕ → Aead
toy_aead key = record {
  seal = λ nonce plaintext extra. plaintext ++ replicate 16 key;
  open_ = λ nonce ciphertext extra. toy_open key ciphertext;
  open_-seal = λ nonce plaintext extra. toy_open_sealed key plaintext;
  length-seal = λ nonce plaintext extra.
      length-append plaintext (replicate 16 key)
      ∙ ap (λ k. length plaintext + k) (length-replicate 16 key);
}

never_some : (v : List ℕ) → ◌≢◌ {A = Option (List ℕ)} none (some v)
never_some v h = ground arith

-- In place of net: the port is two digits, and always 80; every host is a name.
abbrev toy_net : NetText
toy_net = record {
  split_host_port =
      λ address. some (take (length address - 3) address, drop (length address - 2) address);
  join_host_port = λ host port. host ++ 58 ∷ port;
  atoi = λ text. some (pos 80);
  itoa = λ n. codes "80";
  parse_ip = λ text. none;
  to4 = λ ip. none;
  to16 = λ ip. replicate 16 0;
  ip_text = λ ip. ip;
  length-to4 = λ ip v h. absurd (never_some v h);
  length-to16 = λ text ip h. length-replicate {A = ℕ} 16 0;
}

abbrev codec : ℕ → Codec
codec key = record { c2s_aead = toy_aead key; s2c_aead = toy_aead (key + 1); sequence = 4 }

abbrev nonce : List ℕ
nonce = replicate 24 8

-- Session 6 at the time 1000, to "a:80", with a payload of one byte.
abbrev packet : List ℕ
packet =
    nonce
    ++ (put_be 8 1000 ++ (put_be 8 5 ++ (put_be 8 6 ++ (3 ∷ 1 ∷ 97 ∷ 0 ∷ 80 ∷ 7 ∷ replicate 16 1))))

packet_encoded :
    (encode_packet toy_net (codec 1) [] 1 6 (codes "a:80") (7 ∷ []) 1000 (some nonce)).0
    ≡ inr packet
unfolding encode_packet append_target_address encode_host parse_port put_be
packet_encoded = refl

decode_packet-encode_packet_example :
    (bytes : List ℕ) × (w : Written toy_net (codes "a:80") bytes) × (decode_packet toy_net
        (codec 1)
        packet
        1
        1030
      ≡ (
        none,
        record {
          session_id = 6;
          target = target_of toy_net (host_text toy_net w.host) w.port;
          payload = 7 ∷ [];
          timestamp = 1000;
          sequence = 5;
        },
      ))
decode_packet-encode_packet_example =
    decode_packet-encode_packet toy_net (codec 1) 4 1 6 1000 1030 (codes "a:80") (7 ∷ []) nonce
      packet refl (omega arith) (omega arith) packet_encoded

abbrev received : Packet
received = record {
  session_id = 6;
  target = codes "a:80";
  payload = 7 ∷ [];
  timestamp = 1000;
  sequence = 5;
}

packet_taken : decode_packet toy_net (codec 1) packet 1 1030 ≡ (none, received)
unfolding decode_packet decode_plaintext is_recent decode_target_address put_be uint_be
packet_taken = refl

packet_taken_again : decode_packet toy_net (codec 1) packet 1 970 ≡ (none, received)
unfolding decode_packet decode_plaintext is_recent decode_target_address put_be uint_be
packet_taken_again = refl

decode_packet_window_example :
    IsAuthentic toy_net (codec 1) packet 1 received
    × (received ≡ received)
    × AreClose 970 1000
    × AreClose 1030 1000
    × (1030 ≤ 970 + 60)
decode_packet_window_example =
    decode_packet_window toy_net (codec 1) packet 1 970 1030 received received (omega arith)
      (omega arith) (omega arith) (omega arith) (omega arith) packet_taken_again packet_taken

-- The codec of another key, none, and the right one.
abbrev codecs : List (Option Codec)
codecs = some (codec 2) ∷ none ∷ some (codec 1) ∷ []

decode_packet_multi-Multi_example :
    Multi toy_net packet 1 1030 codecs (decode_packet_multi toy_net codecs packet 1 1030)
decode_packet_multi-Multi_example = decode_packet_multi-Multi toy_net packet 1 1030 codecs
