-- ===== src/Rawstream/Open/Laws.antt =====
-- Which OPEN frames come back, and how.
use chitanda.Base.{
  ℤ, pos, Option-cases, length, take, drop, replicate, length-append, take-append_exact,
  drop-append_exact, ℕ, ◌+◌, ◌-◌, ◌≤◌, ◌<◌, ◌≡◌, refl, sym, ap, ◌∙◌, ◌⊎◌, inl, inr, Option, none,
  some, List, [], ◌++◌, append_assoc, arith,
}
use chitanda.Base.Bytes.{put_be, uint_be, length-put_be, uint_be-put_be}
use chitanda.Crypto.{Aead}
use chitanda.Address.{NetText, AddressError, encode_address}
use chitanda.Address.Laws.{
  Host, v4, v6, name, host_bytes, host_text, IsHost, Names, Encoded, encode_address-Encoded,
  encode_address-name,
}
use chitanda.Rawstream.Open.Target.{decode_target-host, decode_short, same_text}
use chitanda.Rawstream.Open.{
  OpenError, invalid_open_frame, min_padding, max_padding, frame_of, encode_0rtt_open_frame,
  decode_target, open_parts, decode_0rtt_open_frame, encrypt_0rtt_chunk, decrypt_0rtt_chunk,
}

-- What was drawn is as long as asked for, or below the span.
abbrev pub IsDraw : (ℕ → Option ℕ) → (ℕ → Option (List ℕ)) → Type 0
IsDraw draw draw_pad =
    ((span n : ℕ) → draw span ≡ some n → n < span)
    × ((n : ℕ) (padding : List ℕ) → draw_pad n ≡ some padding → length padding ≡ n)

-- An OPEN frame in its parts.
record Framed (net : NetText) (target payload frame : List ℕ) : Type 0 where
  padding : List ℕ
  bytes : List ℕ
  short : length padding < 65536
  encoded : encode_address net target ≡ inr bytes
  frame_is : frame ≡ put_be 2 (length padding) ++ (padding ++ (bytes ++ payload))

frame_of_parts :
    (n : ℕ) (padding payload frame : List ℕ) (enc : AddressError ⊎ List ℕ)
    → frame_of n padding payload enc ≡ inr frame
    → (bytes : List ℕ) × (enc ≡ inr bytes) × (frame ≡ put_be 2 n ++ (padding ++ (bytes ++ payload)))
frame_of_parts n padding payload frame (inl x) e = ground arith
frame_of_parts n padding payload frame (inr bytes) e = (bytes, refl, ground arith)

frame_of-Framed :
    (net : NetText) (target payload frame padding : List ℕ) (n : ℕ)
    → length padding ≡ n
    → n < 65536
    → frame_of n padding payload (encode_address net target) ≡ inr frame
    → Framed net target payload frame
frame_of-Framed net target payload frame padding n l h e =
    let (bytes, enc, e') = frame_of_parts n padding payload frame (encode_address net target) e in
    record {
      padding = padding;
      bytes = bytes;
      short = omega arith;
      encoded = enc;
      frame_is = e' ∙ ap (λ k. put_be 2 k ++ (padding ++ (bytes ++ payload))) (sym l);
    }

-- The padding is skipped.
decode-Framed :
    (net : NetText) (target payload frame : List ℕ) (f : Framed net target payload frame)
    → decode_0rtt_open_frame net frame
      ≡ open_parts (f.bytes ++ payload) (decode_target net (f.bytes ++ payload))
unfolding decode_0rtt_open_frame
decode-Framed net target payload frame f =
    let n = length f.padding in
    let head = put_be 2 n in
    let rest = f.bytes ++ payload in
    let l2 = length-put_be 2 n in
    let size : uint_be (take 2 (head ++ (f.padding ++ rest))) ≡ n =
      ap uint_be (take-append_exact 2 head (f.padding ++ rest) l2)
      ∙ uint_be-put_be 2 n (omega (arith, f.short)) in
    let skipped : drop (2 + n) (head ++ (f.padding ++ rest)) ≡ rest =
      ap (drop (2 + n)) (sym (append_assoc head f.padding rest))
      ∙ drop-append_exact (2 + n) (head ++ f.padding) rest
          (omega (arith, length-append head f.padding, l2)) in
    rw (f.frame_is, size, skipped)
      (ground (arith, length-append head (f.padding ++ rest), length-append f.padding rest, l2))

open_whole :
    (net : NetText) (target payload bytes : List ℕ) (e : Encoded net target bytes)
    → 7 ≤ length (bytes ++ payload)
    → open_parts (bytes ++ payload) (decode_target net (bytes ++ payload))
      ≡ inr (net.join_host_port (host_text net e.host) (net.itoa e.port), payload)
open_whole net target payload bytes e l =
    let hb = host_bytes e.host in
    let two = put_be 2 e.port in
    let same : bytes ++ payload ≡ hb ++ (two ++ payload) =
      ap (λ t. t ++ payload) e.bytes_are ∙ append_assoc hb two payload in
    let text = net.join_host_port (host_text net e.host) (net.itoa e.port) in
    ap (λ t. open_parts t (decode_target net t)) same
    ∙ ap (open_parts (hb ++ (two ++ payload))) (
        decode_target-host net e.port e.port_small payload e.host e.is_host
          (omega (arith, ap length same)))
    ∙ ap (λ t. inr (text, t))
        (ap (drop (length hb + 2)) (sym (append_assoc hb two payload))
          ∙ drop-append_exact (length hb + 2) (hb ++ two) payload
              (omega (arith, length-append hb two, length-put_be 2 e.port)))

module _ (net : NetText) (target payload : List ℕ) (min_pad max_pad : ℤ) (draw : ℕ → Option ℕ)
    (draw_pad : ℕ → Option (List ℕ)) (drawn : IsDraw draw draw_pad)
    (small : max_padding max_pad (min_padding min_pad) < 65536) where
  abbrev encoded_frame : OpenError ⊎ List ℕ
  encoded_frame = encode_0rtt_open_frame net target payload min_pad max_pad draw draw_pad

  encode-Framed : (frame : List ℕ) → encoded_frame ≡ inr frame → Framed net target payload frame
  unfolding encode_0rtt_open_frame
  encode-Framed frame e =
      let low = min_padding min_pad in
      let span = max_padding max_pad low + 1 - low in
      elim (Option-cases (draw span)) [
        | inl d ↦ ground arith
        | inr (n, d) ↦ elim (Option-cases (draw_pad (low + n))) [
          | inl p ↦ ground arith
          | inr (padding, p) ↦
              frame_of-Framed net target payload frame padding (low + n)
                (drawn.1 (low + n) padding p) (omega (arith, drawn.0 span n d)) (ground arith)
        ]
      ]

  long_enough :
      (text : List ℕ) (h : Host)
      → Names net text h
      → IsHost h
      → (net.parse_ip text ≡ none → 3 ≤ length text + length payload)
      → 7 ≤ length (host_bytes h) + 2 + length payload
  long_enough text (v4 b) nm i room = omega arith
  long_enough text (v6 b) nm i room = omega arith
  long_enough text (name b) nm i room = omega (arith, room nm.0, ap length nm.1)

  too_short :
      (text : List ℕ) (h : Host)
      → Names net text h
      → net.parse_ip text ≡ none
      → length (host_bytes h) ≡ 2 + length text
  too_short text (v4 b) nm e = ground (arith, nm.1)
  too_short text (v6 b) nm e = ground (arith, nm.1)
  too_short text (name b) nm e = omega (arith, ap length nm.1)

  -- An OPEN frame to a host that is an address, or a name of 3 bytes at least when those of the
  -- payload are counted with it, opens under its key and decodes to the payload and to the target,
  -- with the host and the port printed again; whatever padding is drawn, up to 65535 bytes.
  pub decode-encode_0rtt_open_frame :
      (gcm : List ℕ → Aead) (key frame : List ℕ)
      → ((text port_text : List ℕ)
          → net.split_host_port target ≡ some (text, port_text)
          → net.parse_ip text ≡ none
          → 3 ≤ length text + length payload)
      → encoded_frame ≡ inr frame
      → (bytes : List ℕ) × (e : Encoded net target bytes) × (decrypt_0rtt_chunk gcm key
            (encrypt_0rtt_chunk gcm key frame)
          ≡ some frame)
        × (decode_0rtt_open_frame net frame
            ≡ inr (net.join_host_port (host_text net e.host) (net.itoa e.port), payload))
  unfolding decrypt_0rtt_chunk encrypt_0rtt_chunk
  decode-encode_0rtt_open_frame gcm key frame room h =
      let f = encode-Framed frame h in
      let e = encode_address-Encoded net target f.bytes f.encoded in
      let l = long_enough e.text e.host e.names e.is_host (room e.text e.port_text e.split) in
      let a = gcm key in
      (
        f.bytes,
        e,
        a.open_-seal (replicate 12 0) frame [],
        decode-Framed net target payload frame f
            ∙ open_whole net target payload f.bytes e (
                omega (
                  arith,
                  l,
                  ap length e.bytes_are,
                  length-append (host_bytes e.host) (put_be 2 e.port),
                  length-put_be 2 e.port,
                  length-append f.bytes payload,
                )),
      )

  encode_frame_of :
      (n : ℕ) (padding : List ℕ)
      → draw (max_padding max_pad (min_padding min_pad) + 1 - min_padding min_pad) ≡ some n
      → draw_pad (min_padding min_pad + n) ≡ some padding
      → encoded_frame
        ≡ frame_of (min_padding min_pad + n) padding payload (encode_address net target)
  unfolding encode_0rtt_open_frame
  encode_frame_of n padding d p =
      let span = max_padding max_pad (min_padding min_pad) + 1 - min_padding min_pad in
      ground (arith, drawn.0 span n d)

  decode-short_frame :
      (text port_text frame : List ℕ)
      → net.split_host_port target ≡ some (text, port_text)
      → net.parse_ip text ≡ none
      → length text + length payload < 3
      → encoded_frame ≡ inr frame
      → decode_0rtt_open_frame net frame ≡ inl invalid_open_frame
  decode-short_frame text port_text frame sp np l h =
      let f = encode-Framed frame h in
      let e = encode_address-Encoded net target f.bytes f.encoded in
      let same : e.text ≡ text = same_text e.text e.port_text text port_text (sym e.split ∙ sp) in
      let short = too_short e.text e.host e.names (ap net.parse_ip same ∙ np) in
      let small : length (f.bytes ++ payload) < 7 = omega (
        arith,
        short,
        ap length same,
        ap length e.bytes_are,
        length-append (host_bytes e.host) (put_be 2 e.port),
        length-put_be 2 e.port,
        length-append f.bytes payload,
      ) in
      decode-Framed net target payload frame f
      ∙ ap (open_parts (f.bytes ++ payload)) (decode_short net (f.bytes ++ payload) small)

  -- To a name of one or two bytes, counted with those of the payload, with a port from 1 to 65535,
  -- an OPEN frame is encoded whenever the draws succeed and the padding is below 65536 bytes, and its
  -- decoding fails.
  pub decode-encode_short_name :
      (text port_text padding : List ℕ) (port n : ℕ)
      → net.split_host_port target ≡ some (text, port_text)
      → net.parse_ip text ≡ none
      → net.atoi port_text ≡ some (pos port)
      → 0 < port
      → port < 65536
      → 0 < length text
      → length text + length payload < 3
      → draw (max_padding max_pad (min_padding min_pad) + 1 - min_padding min_pad) ≡ some n
      → draw_pad (min_padding min_pad + n) ≡ some padding
      → (frame : List ℕ) × (encoded_frame ≡ inr frame)
        × (decode_0rtt_open_frame net frame ≡ inl invalid_open_frame)
  decode-encode_short_name text port_text padding port n sp np pi p0 p1 l0 l d p =
      let count = min_padding min_pad + n in
      let made =
        encode_frame_of n padding d p
        ∙ ap (frame_of count padding payload)
            (encode_address-name net target text port_text port sp np pi p0 p1 l0 (omega arith)) in
      (_, made, decode-short_frame text port_text _ sp np l made)
