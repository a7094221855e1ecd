-- ===== src/Frame/Datagram/Laws.antt =====
-- Datagrams: encoding and decoding are inverse, and the cache changes no answer.
use chitanda.Base.{
  bytes_eq→eq, length, get_or, take, drop, All, length-append, take-append-drop, length-take,
  length-drop, take-append_exact, drop-append_exact, drop-drop, All-take, All-drop, ℕ, ◌+◌, ◌^◌,
  ◌≤◌, ◌<◌, ◌≡◌, refl, sym, ap, ap₂, ◌∙◌, ◌⊎◌, inl, inr, List, [], ◌∷◌, ◌++◌, map, arith,
}
use chitanda.Base.Bytes.{IsByte, put_be, uint_be, length-put_be, uint_be-put_be, put_be-uint_be}
use chitanda.Frame.Datagram.{
  encode_datagram_into, encode_datagram, DatagramCache, zero_cache, remember, decode,
  decode_datagram, decode_all, max_datagram_size,
}

-- What a run of packets leaves in the cache.
IsCached : DatagramCache → Type 0
IsCached c = (length c.address ≡ 0) ⊎ (c.key ≡ c.address)

encoded : ℕ → List ℕ → List ℕ → List ℕ
encoded s a p = 1 ∷ (put_be 8 s ++ (put_be 2 (length a) ++ (a ++ p)))

encode_datagram-eq :
    (s : ℕ) (a p : List ℕ) (packet : List ℕ)
    → encode_datagram s a p ≡ inr packet
    → (0 < length a) × (length a ≤ 512) × (length p ≤ 1350) × (packet ≡ encoded s a p)
unfolding encode_datagram encode_datagram_into encoded
encode_datagram-eq s a p packet h = ground arith

encode_datagram-inr :
    (s : ℕ) (a p : List ℕ)
    → 0 < length a
    → length a ≤ 512
    → length p ≤ 1350
    → encode_datagram s a p ≡ inr (encoded s a p)
unfolding encode_datagram encode_datagram_into encoded
encode_datagram-inr s a p h k l = ground arith

-- The address bytes are what a first packet leaves in the cache.
decode-inr :
    (c : DatagramCache) (packet : List ℕ)
    → let n = uint_be (take 2 (drop 9 packet)) in
      11 + n ≤ length packet
      → get_or packet 0 0 ≡ 1
      → 0 < n
      → n ≤ 512
      → length packet ≤ 11 + n + 1350
      → (decode c packet).1
        ≡ inr (
          uint_be (take 8 (drop 1 packet)),
          (remember c (take n (drop 11 packet))).address,
          drop (11 + n) packet,
        )
unfolding decode
decode-inr c packet h e k l m =
    ground (arith, length-drop (11 + uint_be (take 2 (drop 9 packet))) packet)

-- The packet that decodes: where each part stands in it.
decode-cases :
    (c : DatagramCache) (packet address payload : List ℕ) (s : ℕ)
    → let n = uint_be (take 2 (drop 9 packet)) in
      (decode c packet).1 ≡ inr (s, address, payload)
      → (11 + n ≤ length packet)
        × (get_or packet 0 0 ≡ 1)
        × (0 < n)
        × (n ≤ 512)
        × (length (drop (11 + n) packet) ≤ 1350)
        × (s ≡ uint_be (take 8 (drop 1 packet)))
        × (address ≡ (remember c (take n (drop 11 packet))).address)
        × (payload ≡ drop (11 + n) packet)
unfolding decode
decode-cases c packet address payload s h = ground arith

module _ (s : ℕ) (a p : List ℕ) where
  address_length_of : length a < 256 ^ 2 → uint_be (take 2 (drop 9 (encoded s a p))) ≡ length a
  unfolding encoded
  address_length_of h =
      ap (λ t. uint_be (take 2 t))
        (drop-append_exact 8 (put_be 8 s) (put_be 2 (length a) ++ (a ++ p)) (length-put_be 8 s))
      ∙ ap uint_be (take-append_exact 2 (put_be 2 (length a)) (a ++ p) (length-put_be 2 (length a)))
      ∙ uint_be-put_be 2 (length a) h

  sequence_of : s < 256 ^ 8 → uint_be (take 8 (drop 1 (encoded s a p))) ≡ s
  unfolding encoded
  sequence_of h =
      ap uint_be
        (take-append_exact 8 (put_be 8 s) (put_be 2 (length a) ++ (a ++ p)) (length-put_be 8 s))
      ∙ uint_be-put_be 8 s h

  body_of : drop 11 (encoded s a p) ≡ a ++ p
  unfolding encoded
  body_of =
      sym (drop-drop 2 9 (encoded s a p))
      ∙ ap (drop 2)
          (drop-append_exact 8 (put_be 8 s) (put_be 2 (length a) ++ (a ++ p)) (length-put_be 8 s))
      ∙ drop-append_exact 2 (put_be 2 (length a)) (a ++ p) (length-put_be 2 (length a))

  length-encoded : length (encoded s a p) ≡ 11 + length a + length p
  unfolding encoded
  length-encoded = omega (
    arith,
    length-append (put_be 8 s) (put_be 2 (length a) ++ (a ++ p)),
    length-append (put_be 2 (length a)) (a ++ p),
    length-append a p,
    length-put_be 8 s,
    length-put_be 2 (length a),
  )

-- The cached string is the address at hand.
remember_self :
    (c : DatagramCache) (bytes : List ℕ)
    → 0 < length bytes
    → IsCached c
    → ((remember c bytes).address ≡ bytes) × IsCached (remember c bytes)
unfolding IsCached
remember_self c bytes h k = ground (arith, bytes_eq→eq c.key bytes)

decode-IsCached : (c : DatagramCache) (packet : List ℕ) → IsCached c → IsCached (decode c packet).0
unfolding decode
decode-IsCached c packet k =
    let n = uint_be (take 2 (drop 9 packet)) in
    let bytes = take n (drop 11 packet) in
    ground (arith, remember_self c bytes, length-take n (drop 11 packet), length-drop 11 packet)

zero_cache-IsCached : IsCached zero_cache
unfolding IsCached
zero_cache-IsCached = inl refl

decode-zero_cache :
    (c : DatagramCache) (packet : List ℕ)
    → IsCached c
    → (decode c packet).1 ≡ decode_datagram packet
unfolding decode decode_datagram
decode-zero_cache c packet k =
    let n = uint_be (take 2 (drop 9 packet)) in
    let bytes = take n (drop 11 packet) in
    ground (
      arith,
      remember_self c bytes,
      remember_self zero_cache bytes,
      zero_cache-IsCached,
      length-take n (drop 11 packet),
      length-drop 11 packet,
    )

triple :
    {s s' : ℕ} {a a' p p' : List ℕ}
    → s ≡ s'
    → a ≡ a'
    → p ≡ p'
    → ◌≡◌ {A = ℕ × List ℕ × List ℕ} (s, a, p) (s', a', p')
triple e f g = cc

joined :
    (s : ℕ) (a p : List ℕ) {v q l b r : List ℕ}
    → v ≡ 1 ∷ []
    → q ≡ put_be 8 s
    → l ≡ put_be 2 (length a)
    → b ≡ a
    → r ≡ p
    → v ++ (q ++ (l ++ (b ++ r))) ≡ encoded s a p
unfolding encoded
joined s a p e f g h k = rw (e, f, g, h, k) refl

decode-encoded :
    (s : ℕ) (a p : List ℕ)
    → s < 2 ^ 64
    → 0 < length a
    → length a ≤ 512
    → length p ≤ 1350
    → decode_datagram (encoded s a p) ≡ inr (s, a, p)
unfolding decode_datagram
decode-encoded s a p hs ha ka kp =
    let e = address_length_of s a p (omega arith) in
    let n = uint_be (take 2 (drop 9 (encoded s a p))) in
    decode-inr zero_cache (encoded s a p) (omega (arith, e, length-encoded s a p))
      (unfold encoded in refl) (omega (arith, e)) (omega (arith, e))
      (omega (arith, e, length-encoded s a p))
    ∙ ap inr (
        triple (sequence_of s a p (omega arith))
          (ap (λ k. take k (drop 11 (encoded s a p))) e
            ∙ ap (take (length a)) (body_of s a p)
            ∙ take-append_exact (length a) a p refl)
          (ap (λ k. drop (11 + k) (encoded s a p)) e
            ∙ sym (drop-drop (length a) 11 (encoded s a p))
            ∙ ap (drop (length a)) (body_of s a p)
            ∙ drop-append_exact (length a) a p refl))

-- The parts of a packet, one after the other.
parts :
    (n : ℕ) (packet : List ℕ)
    → packet
      ≡ take 1 packet
        ++ (take 8 (drop 1 packet)
            ++ (take 2 (drop 9 packet) ++ (take n (drop 11 packet) ++ drop (11 + n) packet)))
parts n packet =
    sym (take-append-drop 1 packet)
    ∙ ap (λ t. take 1 packet ++ t)
        (sym (take-append-drop 8 (drop 1 packet))
          ∙ ap (λ t. take 8 (drop 1 packet) ++ t)
              (drop-drop 8 1 packet
                ∙ sym (take-append-drop 2 (drop 9 packet))
                ∙ ap (λ t. take 2 (drop 9 packet) ++ t)
                    (drop-drop 2 9 packet
                      ∙ sym (take-append-drop n (drop 11 packet))
                      ∙ ap (λ t. take n (drop 11 packet) ++ t) (drop-drop n 11 packet))))

take_one :
    (packet : List ℕ) (b : ℕ) → 0 < length packet → get_or packet 0 0 ≡ b → take 1 packet ≡ b ∷ []
take_one [] b h e = absurd (omega arith)
take_one (x ∷ xs) b h e = ap (λ t. t ∷ []) e

written_back :
    (w k : ℕ) (packet : List ℕ)
    → k + w ≤ length packet
    → All IsByte packet
    → put_be w (uint_be (take w (drop k packet))) ≡ take w (drop k packet)
written_back w k packet h bytes =
    put_be-uint_be w (take w (drop k packet))
      (omega (arith, length-take w (drop k packet), length-drop k packet))
      (All-take IsByte w (drop k packet) (All-drop IsByte k packet bytes))

-- A packet that EncodeDatagram makes, with a 64-bit sequence number, stays within the packet size
-- limit and decodes to what was put in.
pub decode_datagram-encode_datagram :
    (s : ℕ) (a p packet : List ℕ)
    → s < 2 ^ 64
    → encode_datagram s a p ≡ inr packet
    → (decode_datagram packet ≡ inr (s, a, p)) × (length packet ≤ max_datagram_size)
decode_datagram-encode_datagram s a p packet hs h =
    let (a_positive, a_small, p_small, e) = encode_datagram-eq s a p packet h in
    (
      ap decode_datagram e ∙ decode-encoded s a p hs a_positive a_small p_small,
      omega (arith, ap length e, length-encoded s a p),
    )

-- A packet of bytes that decodes is the one that EncodeDatagram makes of the result.
pub encode_datagram-decode_datagram :
    (s : ℕ) (a p packet : List ℕ)
    → All IsByte packet
    → decode_datagram packet ≡ inr (s, a, p)
    → encode_datagram s a p ≡ inr packet
encode_datagram-decode_datagram s a p packet bytes h =
    let n = uint_be (take 2 (drop 9 packet)) in
    let (long, version, positive, small, p_small, s_is, a_is, p_is) =
      decode-cases zero_cache packet a p s (unfold decode_datagram in h) in
    let n_is : length a ≡ n =
      ap length a_is ∙ omega (arith, length-take n (drop 11 packet), length-drop 11 packet) in
    encode_datagram-inr s a p (omega arith) (omega arith) (omega (arith, ap length p_is))
    ∙ ap inr (
        sym (
          parts n packet
          ∙ joined s a p (take_one packet 1 (omega arith) version)
              (sym (written_back 8 1 packet (omega arith) bytes) ∙ ap (put_be 8) (sym s_is))
              (sym (written_back 2 9 packet (omega arith) bytes) ∙ ap (put_be 2) (sym n_is))
              (sym a_is) (sym p_is)))

decode_all-IsCached :
    (c : DatagramCache) (packets : List (List ℕ))
    → IsCached c
    → decode_all c packets ≡ map decode_datagram packets
unfolding decode_all
decode_all-IsCached c [] k = refl
decode_all-IsCached c (packet ∷ rest) k =
    ap₂ ◌∷◌ (decode-zero_cache c packet k)
      (decode_all-IsCached (decode c packet).0 rest (decode-IsCached c packet k))

-- The cache of a flow changes no result: the packets decode as each would alone.
pub decode_all-map :
    (packets : List (List ℕ)) → decode_all zero_cache packets ≡ map decode_datagram packets
decode_all-map packets = decode_all-IsCached zero_cache packets zero_cache-IsCached
