-- ===== src/Rawstream/StreamTests.antt =====
-- Runs of the framed stream and of OPEN frames, and their theorems at concrete inputs.
use chitanda.Base.{
  pos, ◌==◌, if◌then◌else◌, bytes_eq, bytes_eq_self, some_inj, length, get_or, take, drop,
  replicate, length-append, length-replicate, take-append_exact, drop-append_exact, ℕ, ◌+◌, ◌-◌,
  ◌≤◌, ◌<◌, ◌≡◌, refl, sym, ap, ◌∙◌, inl, inr, false, Option, none, some, List, [], ◌∷◌, ◌++◌,
  arith,
}
use chitanda.Base.Bytes.{put_be}
use chitanda.Crypto.{codes, Aead}
use chitanda.Io.{Event, eof, timeout, failed, write}
use chitanda.Io.Read.{stream_of}
use chitanda.Address.{NetText, encode_address, parse_port, encode_host}
use chitanda.Address.Laws.{Encoded, host_text}
use chitanda.Rawstream.Chunk.{new_aead_stream, encrypt_chunk, nonce_of}
use chitanda.Rawstream.Writer.{
  FramedWriter, new_framed_writer, write_batch, write_eof, batch_loop, send_chunk, next_chunk,
  coalesce, phase, flush,
}
use chitanda.Rawstream.Writer.Laws.{Sent, write_batch-Sent}
use chitanda.Rawstream.Reader.{io, new_framed_reader}
use chitanda.Rawstream.Reader.Calls.{read_all, first_writer, read_all-write_batch}
use chitanda.Rawstream.Open.{
  encode_0rtt_open_frame, decode_0rtt_open_frame, encrypt_0rtt_chunk, decrypt_0rtt_chunk,
  invalid_open_frame,
}
use chitanda.Rawstream.Open.Laws.{decode-encode_0rtt_open_frame, decode-encode_short_name}

-- In place of AES-GCM: the text, then 16 times the last byte of the nonce.
abbrev toy_tag : List ℕ → List ℕ
toy_tag nonce = replicate 16 (get_or nonce 11 0)

abbrev toy_open : List ℕ → List ℕ → Option (List ℕ)
toy_open nonce ciphertext =
    let n = length ciphertext - 16 in
    if bytes_eq (drop n ciphertext) (toy_tag nonce) then some (take n ciphertext) else none

toy_open_sealed :
    (nonce plaintext : List ℕ) → toy_open nonce (plaintext ++ toy_tag nonce) ≡ some plaintext
toy_open_sealed nonce plaintext =
    let tag = toy_tag nonce in
    let n : length (plaintext ++ tag) - 16 ≡ length plaintext =
      omega (arith, length-append plaintext tag, length-replicate 16 (get_or nonce 11 0)) in
    rw
      (
        n,
        drop-append_exact (length plaintext) plaintext tag refl,
        take-append_exact (length plaintext) plaintext tag refl,
        bytes_eq_self tag,
      )
      refl

abbrev toy_aead : Aead
toy_aead = record {
  seal = λ nonce plaintext extra. plaintext ++ toy_tag nonce;
  open_ = λ nonce ciphertext extra. toy_open nonce ciphertext;
  open_-seal = λ nonce plaintext extra. toy_open_sealed nonce plaintext;
  length-seal = λ nonce plaintext extra.
      length-append plaintext (toy_tag nonce)
      ∙ ap (λ k. length plaintext + k) (length-replicate 16 (get_or nonce 11 0));
}

abbrev two_slices : List (List ℕ)
two_slices = (1 ∷ 2 ∷ []) ∷ [] ∷ (3 ∷ []) ∷ []

-- One record of three bytes.
abbrev first_record : List ℕ
first_record = 0 ∷ 19 ∷ 1 ∷ 2 ∷ 3 ∷ replicate 16 0

abbrev written : FramedWriter
written = record {
  w = record { sent = first_record; script = [] };
  stream = record { aead = toy_aead; sequence = 1 };
  buf = [];
  burst_bytes = 3;
  last_write = some 5;
  closed = false;
}

slices_written : write_batch (first_writer toy_aead) 5 two_slices ≡ some (3, none, written)
unfolding write_batch batch_loop send_chunk next_chunk coalesce phase flush encrypt_chunk nonce_of
    put_be write
slices_written = refl

-- The connection cuts the two records up, with a timeout inside each.
abbrev interrupted : List Event
interrupted =
    record { bytes = 0 ∷ []; ends = some timeout }
    ∷ record { bytes = drop 1 first_record ++ 0 ∷ 16 ∷ 1 ∷ 1 ∷ []; ends = some timeout }
    ∷ record { bytes = replicate 14 1; ends = none }
    ∷ []

interrupted_sent : stream_of interrupted ≡ (write_eof written).1.w.sent ++ []
unfolding write_eof flush encrypt_chunk nonce_of put_be write
interrupted_sent = refl

read_all-write_batch_example :
    (◌≡◌ {A = ℕ} 3 3)
    × ((write_eof written).0 ≡ none)
    × (read_all 99 (new_framed_reader interrupted (new_aead_stream toy_aead)) 2
        ≡ some (1 ∷ 2 ∷ 3 ∷ [], io eof))
read_all-write_batch_example =
    read_all-write_batch toy_aead 5 two_slices interrupted [] 1 99 3 written (omega arith)
      slices_written (inr refl, (inr refl, (inl refl, tt))) interrupted_sent (omega arith)

write_batch-Sent_example :
    (fw' : FramedWriter) × (write_batch (first_writer toy_aead) 5 two_slices ≡ some (3, none, fw'))
    × Sent (new_aead_stream toy_aead) [] (1 ∷ 2 ∷ 3 ∷ []) fw'
write_batch-Sent_example =
    write_batch-Sent (first_writer toy_aead) 5 two_slices refl refl (omega arith)

-- The connection takes seven bytes and fails.
abbrev failing : FramedWriter
failing =
    new_framed_writer (record { sent = []; script = (7, some failed) ∷ [] })
      (new_aead_stream toy_aead)

some_bytes : (v w : List ℕ) → some v ≡ some w → length v ≡ length w
some_bytes v w h = ap length (some_inj h)

-- In place of net: the port is two digits, and always 80; a host that begins with 1 is an address.
abbrev toy_net : NetText
toy_net = record {
  split_host_port =
      λ address. some (take (length address - 3) address, drop (length address - 2) address);
  join_host_port = λ host port. host ++ 58 ∷ port;
  atoi = λ text. some (pos 80);
  itoa = λ n. codes "80";
  parse_ip = λ text. if get_or text 0 0 == 49 then some text else none;
  to4 = λ ip. some (1 ∷ 1 ∷ 1 ∷ 1 ∷ []);
  to16 = λ ip. replicate 16 0;
  ip_text = λ ip. codes "1.1.1.1";
  length-to4 = λ ip v h. sym (some_bytes (1 ∷ 1 ∷ 1 ∷ 1 ∷ []) v h);
  length-to16 = λ text ip h. length-replicate {A = ℕ} 16 0;
}

abbrev draw_first : ℕ → Option ℕ
draw_first span = if span == 0 then none else some 0

abbrev draw_pad : ℕ → Option (List ℕ)
draw_pad n = some (replicate n 6)

padding_drawn : (n : ℕ) (padding : List ℕ) → draw_pad n ≡ some padding → length padding ≡ n
padding_drawn n padding h = sym (some_bytes (replicate n 6) padding h) ∙ length-replicate n 6

first_drawn : (span n : ℕ) → draw_first span ≡ some n → n < span
first_drawn span n h = ground arith

abbrev size_of : Option (List ℕ × List ℕ) → ℕ
size_of none = 0
size_of (some (text, port_text)) = length text

long_name :
    (text port_text : List ℕ)
    → toy_net.split_host_port (codes "abc:80") ≡ some (text, port_text)
    → 3 ≤ length text
long_name text port_text h = omega (arith, ap size_of h)

-- Two bytes of padding, then the target and the payload 7.
abbrev open_frame : List ℕ
open_frame = 0 ∷ 2 ∷ 6 ∷ 6 ∷ 3 ∷ 3 ∷ (codes "abc" ++ 0 ∷ 80 ∷ 7 ∷ [])

frame_encoded :
    encode_0rtt_open_frame toy_net (codes "abc:80") (7 ∷ []) (pos 2) (pos 4) draw_first draw_pad
    ≡ inr open_frame
unfolding encode_0rtt_open_frame encode_address parse_port encode_host put_be
frame_encoded = refl

decode-encode_0rtt_open_frame_example :
    (bytes : List ℕ) × (e : Encoded toy_net (codes "abc:80") bytes) × (decrypt_0rtt_chunk
        (λ key. toy_aead)
        []
        (encrypt_0rtt_chunk (λ key. toy_aead) [] open_frame)
      ≡ some open_frame)
    × (decode_0rtt_open_frame toy_net open_frame
        ≡ inr (host_text toy_net e.host ++ codes ":80", 7 ∷ []))
decode-encode_0rtt_open_frame_example =
    decode-encode_0rtt_open_frame toy_net (codes "abc:80") (7 ∷ []) (pos 2) (pos 4) draw_first
      draw_pad (first_drawn, padding_drawn) (omega arith) (λ key. toy_aead) [] open_frame
      (λ text port_text h k. omega (arith, long_name text port_text h)) frame_encoded

-- "ai:80", without a payload.
decode-encode_short_name_example :
    (frame : List ℕ) × (encode_0rtt_open_frame toy_net
        (codes "ai:80")
        []
        (pos 2)
        (pos 4)
        draw_first
        draw_pad
      ≡ inr frame)
    × (decode_0rtt_open_frame toy_net frame ≡ inl invalid_open_frame)
decode-encode_short_name_example =
    decode-encode_short_name toy_net (codes "ai:80") [] (pos 2) (pos 4) draw_first draw_pad
      (first_drawn, padding_drawn) (omega arith) (codes "ai") (codes "80") (6 ∷ 6 ∷ []) 80 0 refl
      refl refl (omega arith) (omega arith) (omega arith) (omega arith) refl refl
