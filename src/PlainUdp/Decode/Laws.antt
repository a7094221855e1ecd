-- ===== src/PlainUdp/Decode/Laws.antt =====
-- Packets come back as they were sent.
use chitanda.Base.{
  le→ltb, length, take, drop, slice_at, length-append, take-append_exact, drop-append_exact, ℕ, ◌+◌,
  ◌%◌, ◌^◌, ◌≤◌, ◌<◌, ◌≡◌, refl, sym, ap, ◌∙◌, inr, true, none, some, List, [], ◌∷◌, ◌++◌,
  append_assoc, arith,
}
use chitanda.Base.Bytes.{put_be, uint_be, length-put_be, uint_be-put_be}
use chitanda.Crypto.{Aead}
use chitanda.Address.{NetText}
use chitanda.Address.Laws.{Host, host_bytes, host_text, IsHost}
use chitanda.PlainUdp.Packet.{Codec, aead_of, header_bytes, encode_packet}
use chitanda.PlainUdp.Packet.Laws.{Written, encode_packet-Sealed}
use chitanda.PlainUdp.Decode.{
  target_of, Packet, is_recent, decode_plaintext, after_decrypt, opened_under, decode_packet,
}
use chitanda.PlainUdp.Decode.Target.{decode_target_address-host}

-- Two clocks below 2 ^ 64 that are at most 30 seconds apart.
abbrev pub AreClose : ℕ → ℕ → Type 0
AreClose now timestamp =
    (now < 2 ^ 64) × (timestamp < 2 ^ 64) × (timestamp ≤ now + 30) × (now ≤ timestamp + 30)

is_recent_close : (now timestamp : ℕ) → AreClose now timestamp → is_recent now timestamp ≡ true
unfolding is_recent
is_recent_close now timestamp (a, b, c, d) = ground arith

-- The plaintext of a packet.
abbrev plain : ℕ → ℕ → ℕ → List ℕ → List ℕ
plain now sequence session_id rest = header_bytes now sequence session_id ++ rest

plain_parts :
    (now sequence session_id : ℕ) (rest : List ℕ)
    → plain now sequence session_id rest
      ≡ put_be 8 now ++ (put_be 8 sequence ++ (put_be 8 session_id ++ rest))
plain_parts now sequence session_id rest =
    append_assoc (put_be 8 now) (put_be 8 sequence ++ put_be 8 session_id) rest
    ∙ ap (◌++◌ (put_be 8 now)) (append_assoc (put_be 8 sequence) (put_be 8 session_id) rest)

length-header_bytes :
    (now sequence session_id : ℕ) → length (header_bytes now sequence session_id) ≡ 24
length-header_bytes now sequence session_id = omega (
  arith,
  length-append (put_be 8 now) (put_be 8 sequence ++ put_be 8 session_id),
  length-append (put_be 8 sequence) (put_be 8 session_id),
  length-put_be 8 now,
  length-put_be 8 sequence,
  length-put_be 8 session_id,
)

module _ (net : NetText) (now later sequence session_id : ℕ) (near : AreClose later now)
    (sequence_fits : sequence < 2 ^ 64) (session_fits : session_id < 2 ^ 64) (h : Host)
    (i : IsHost h) (port : ℕ) (port_small : port < 65536) (payload : List ℕ) where
  abbrev rest : List ℕ
  rest = host_bytes h ++ (put_be 2 port ++ payload)

  decoded : Packet
  decoded = record {
    session_id = session_id;
    target = target_of net (host_text net h) port;
    payload = payload;
    timestamp = now;
    sequence = sequence;
  }

  abbrev whole : List ℕ
  whole = plain now sequence session_id rest

  timestamp_at : uint_be (take 8 whole) ≡ now
  timestamp_at =
      ap (λ t. uint_be (take 8 t)) (plain_parts now sequence session_id rest)
      ∙ ap uint_be (take-append_exact 8 (put_be 8 now) _ (length-put_be 8 now))
      ∙ uint_be-put_be 8 now (omega arith)

  sequence_at : uint_be (take 8 (drop 8 whole)) ≡ sequence
  sequence_at =
      ap (λ t. uint_be (take 8 (drop 8 t))) (plain_parts now sequence session_id rest)
      ∙ ap uint_be (
          slice_at 8 8 (put_be 8 now) (put_be 8 sequence) _ (length-put_be 8 now)
            (length-put_be 8 sequence))
      ∙ uint_be-put_be 8 sequence (omega arith)

  session_at : uint_be (take 8 (drop 16 whole)) ≡ session_id
  session_at =
      ap (λ t. uint_be (take 8 (drop 16 t)))
        (plain_parts now sequence session_id rest
          ∙ sym (append_assoc (put_be 8 now) (put_be 8 sequence) (put_be 8 session_id ++ rest)))
      ∙ ap uint_be (
          slice_at 16 8 (put_be 8 now ++ put_be 8 sequence) (put_be 8 session_id) rest
            (omega (
              arith,
              length-append (put_be 8 now) (put_be 8 sequence),
              length-put_be 8 now,
              length-put_be 8 sequence,
            ))
            (length-put_be 8 session_id))
      ∙ uint_be-put_be 8 session_id (omega arith)

  target_at : drop 24 whole ≡ rest
  target_at =
      drop-append_exact 24 (header_bytes now sequence session_id) rest
        (length-header_bytes now sequence session_id)

  decode_plaintext-whole : decode_plaintext net later whole ≡ (none, decoded)
  unfolding decode_plaintext decoded
  decode_plaintext-whole =
      rw
        (
          timestamp_at,
          sequence_at,
          session_at,
          target_at,
          is_recent_close later now near,
          decode_target_address-host net port port_small payload h i,
        )
        (ground (
          arith,
          length-append (header_bytes now sequence session_id) rest,
          length-header_bytes now sequence session_id,
        ))

long_packet :
    (net : NetText) (c : Codec) (packet : List ℕ) (dir now : ℕ)
    → 65 ≤ length packet
    → decode_packet net c packet dir now ≡ opened_under net packet dir now (aead_of c dir)
unfolding decode_packet
long_packet net c packet dir now h = rw (le→ltb (length packet) 65 h) refl

-- A packet under an AEAD of the right direction.
decode_sealed :
    (net : NetText) (c : Codec) (a : Aead) (dir later : ℕ) (nonce plaintext : List ℕ)
    → length nonce ≡ 24
    → 25 ≤ length plaintext
    → aead_of c dir ≡ some a
    → decode_packet net c (nonce ++ a.seal nonce plaintext (dir ∷ [])) dir later
      ≡ decode_plaintext net later plaintext
decode_sealed net c a dir later nonce plaintext n long e =
    let box = a.seal nonce plaintext (dir ∷ []) in
    let big =
      long_packet net c (nonce ++ box) dir later
        (omega (arith, length-append nonce box, a.length-seal nonce plaintext (dir ∷ []))) in
    big
    ∙ ap (opened_under net (nonce ++ box) dir later) e
    ∙ ap (λ t. after_decrypt net later (a.open_ t (drop 24 (nonce ++ box)) (dir ∷ [])))
        (take-append_exact 24 nonce box n)
    ∙ ap (λ t. after_decrypt net later (a.open_ nonce t (dir ∷ [])))
        (drop-append_exact 24 nonce box n)
    ∙ ap (after_decrypt net later) (a.open_-seal nonce plaintext (dir ∷ []))

-- A packet that EncodePacket made for a direction is decoded by every codec with the same AEADs, for
-- that direction and by a clock at most 30 seconds away, to its session, its sequence number, its
-- timestamp, the payload, and the target with the host and the port printed again.
pub decode_packet-encode_packet :
    (net : NetText) (c : Codec) (k dir session_id now later : ℕ)
    (target payload nonce packet : List ℕ)
    → length nonce ≡ 24
    → session_id < 2 ^ 64
    → AreClose later now
    → (encode_packet net c [] dir session_id target payload now (some nonce)).0 ≡ inr packet
    → (bytes : List ℕ) × (w : Written net target bytes) × (decode_packet net
          (record c { sequence = k })
          packet
          dir
          later
        ≡ (
          none,
          record {
            session_id = session_id;
            target = target_of net (host_text net w.host) w.port;
            payload = payload;
            timestamp = now;
            sequence = (c.sequence + 1) % 2 ^ 64;
          },
        ))
unfolding decoded
decode_packet-encode_packet net c k dir session_id now later target payload nonce packet n fits near
      e =
    let s = encode_packet-Sealed net c dir session_id now target payload nonce packet e in
    let w = s.written in
    let next = (c.sequence + 1) % 2 ^ 64 in
    let body = host_bytes w.host ++ (put_be 2 w.port ++ payload) in
    let head = header_bytes now next session_id in
    let same : s.bytes ++ payload ≡ body =
      ap (λ t. t ++ payload) w.bytes_are
      ∙ append_assoc (host_bytes w.host) (put_be 2 w.port) payload in
    (
      s.bytes,
      w,
      ap (λ t. decode_packet net (record c { sequence = k }) t dir later)
            (s.packet_is ∙ ap (λ t. nonce ++ s.aead.seal nonce (head ++ t) (dir ∷ [])) same)
          ∙ decode_sealed net (record c { sequence = k }) s.aead dir later nonce (head ++ body) n
              (omega (
                arith,
                length-append head body,
                length-header_bytes now next session_id,
                length-append (host_bytes w.host) (put_be 2 w.port ++ payload),
                length-append (put_be 2 w.port) payload,
                length-put_be 2 w.port,
              ))
              s.aead_is
          ∙ decode_plaintext-whole net now later next session_id near (omega arith) fits w.host
              w.is_host w.port w.port_small payload,
    )
