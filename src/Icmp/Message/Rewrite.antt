-- ===== src/Icmp/Message/Rewrite.antt =====
-- rewriteToken: the new identifier is in place, the rest stays, and the checksum keeps its validity.
use chitanda.Base.{
  ◌==◌, Bool-cases, length, take, drop, All, length-append, take-append_exact, drop-append_exact,
  All-append, ℕ, ◌+◌, ◌/◌, ◌%◌, ◌^◌, ◌≤◌, ◌<◌, ◌≡◌, refl, ap, ◌∙◌, inl, inr, Bool, true, false,
  List, [], ◌∷◌, ◌++◌, arith,
}
use chitanda.Base.Bytes.{IsByte, put_be, uint_be, length-put_be, put_be-IsByte, uint_be-put_be}
use chitanda.Icmp.Checksum.{complement, checksum, adjust_checksum}
use chitanda.Icmp.Checksum.Sum.{words, fold-IsFolded}
use chitanda.Icmp.Message.{put_checksum, put_token, checksum_field, token_field, rewrite_token}
use chitanda.Icmp.Message.Laws.{eight_bytes, packet_of, checksum-packet_of}

-- The update takes the old value out of the sum and puts the new one in.
adjust_checksum-sum :
    (cs old new : ℕ)
    → cs < 2 ^ 16
    → old < 2 ^ 32
    → new < 2 ^ 32
    → (adjust_checksum cs old new < 2 ^ 16)
      × ((adjust_checksum cs old new + new / 2 ^ 16 + new % 2 ^ 16) % 65535
          ≡ (cs + old / 2 ^ 16 + old % 2 ^ 16) % 65535)
unfolding adjust_checksum
adjust_checksum-sum cs old new h k l =
    let sum =
      complement cs + complement (old / 2 ^ 16) + complement old + new / 2 ^ 16 + new % 2 ^ 16 in
    let folded = fold-IsFolded sum (omega arith) in omega arith

-- A rewritten packet: the bytes around the checksum and the identifier stay.
rewrite-shape :
    (a b c d e f g h : ℕ) (rest : List ℕ) (token : ℕ) (ipv6 : Bool)
    → (x y : ℕ) × (rewrite_token (a ∷ b ∷ c ∷ d ∷ e ∷ f ∷ g ∷ h ∷ rest) token ipv6
        ≡ a ∷ b ∷ x ∷ y ∷ (put_be 4 token ++ rest))
unfolding rewrite_token put_checksum put_token put_be
rewrite-shape a b c d e f g h rest token false = (_, _, refl)
rewrite-shape a b c d e f g h rest token true = elim (Bool-cases (uint_be (c ∷ d ∷ []) == 0)) [
  | inl z ↦ (c, d, rw z refl)
  | inr z ↦
      let cs = adjust_checksum (uint_be (c ∷ d ∷ [])) (uint_be (e ∷ f ∷ g ∷ h ∷ [])) token in
      (cs / 256 % 256, cs % 256, rw z refl)
]

-- rewriteToken puts a 32-bit identifier into a message of at least 8 bytes, where it is read back,
-- and leaves the type, the code, the data and the length.
pub rewrite_token-token_field :
    (packet : List ℕ) (token : ℕ) (ipv6 : Bool)
    → 8 ≤ length packet
    → token < 2 ^ 32
    → let result = rewrite_token packet token ipv6 in
      (token_field result ≡ token)
      × (take 2 result ≡ take 2 packet)
      × (drop 8 result ≡ drop 8 packet)
      × (length result ≡ length packet)
rewrite_token-token_field packet token ipv6 l k =
    let (a, b, c, d, e, f, g, h, rest, p) = eight_bytes packet l in
    let (x, y, r) = rewrite-shape a b c d e f g h rest token ipv6 in
    rw (p, r)
      (
        ap uint_be (take-append_exact 4 (put_be 4 token) rest (length-put_be 4 token))
            ∙ uint_be-put_be 4 token (omega arith),
        refl,
        drop-append_exact 4 (put_be 4 token) rest (length-put_be 4 token),
        omega (arith, length-append (put_be 4 token) rest, length-put_be 4 token),
      )

rewrite_four :
    (a b c d e f g h : ℕ) (rest : List ℕ) (token : ℕ)
    → rewrite_token (a ∷ b ∷ c ∷ d ∷ e ∷ f ∷ g ∷ h ∷ rest) token false
      ≡ packet_of a b (put_be 4 token ++ rest)
unfolding rewrite_token put_checksum put_token put_be
rewrite_four a b c d e f g h rest token = refl

words_six :
    (a b c d e f g h : ℕ) (rest : List ℕ) (token : ℕ)
    → All IsByte (c ∷ d ∷ e ∷ f ∷ g ∷ h ∷ [])
    → token < 2 ^ 32
    → 0 < uint_be (c ∷ d ∷ [])
    → words (rewrite_token (a ∷ b ∷ c ∷ d ∷ e ∷ f ∷ g ∷ h ∷ rest) token true) % 65535
      ≡ words (a ∷ b ∷ c ∷ d ∷ e ∷ f ∷ g ∷ h ∷ rest) % 65535
unfolding rewrite_token put_checksum put_token put_be words uint_be
words_six a b c d e f g h rest token bytes k positive =
    let cs = uint_be (c ∷ d ∷ []) in
    let old = uint_be (e ∷ f ∷ g ∷ h ∷ []) in
    let adjusted = adjust_checksum-sum cs old token (omega arith) (omega arith) k in
    let z : (cs == 0) ≡ false = ground arith in rw z (omega arith)

-- A rewritten ICMPv4 message of bytes has a valid checksum, whatever it had before.
pub rewrite_token-checksum :
    (packet : List ℕ) (token : ℕ)
    → 8 ≤ length packet
    → length packet ≤ 65535
    → All IsByte packet
    → checksum (rewrite_token packet token false) ≡ 0
rewrite_token-checksum packet token l k bytes =
    let (a, b, c, d, e, f, g, h, rest, p) = eight_bytes packet l in
    let all : All IsByte (a ∷ b ∷ c ∷ d ∷ e ∷ f ∷ g ∷ h ∷ rest) = rw p at bytes in
    let long : length packet ≡ 8 + length rest = ap length p ∙ omega arith in
    ap (λ t. checksum (rewrite_token t token false)) p
    ∙ ap checksum (rewrite_four a b c d e f g h rest token)
    ∙ checksum-packet_of a b (put_be 4 token ++ rest) all.0 all.1.0
        (All-append IsByte (put_be 4 token) rest (put_be-IsByte 4 token) all.1.1.1.1.1.1.1.1)
        (omega (arith, length-append (put_be 4 token) rest, length-put_be 4 token))

-- A rewritten ICMPv6 message keeps its sum modulo 65535 if it has a checksum: with any
-- pseudo-header it is valid exactly if it was.
pub rewrite_token-words :
    (packet : List ℕ) (token : ℕ)
    → 8 ≤ length packet
    → All IsByte packet
    → token < 2 ^ 32
    → 0 < checksum_field packet
    → words (rewrite_token packet token true) % 65535 ≡ words packet % 65535
rewrite_token-words packet token l bytes k positive =
    let (a, b, c, d, e, f, g, h, rest, p) = eight_bytes packet l in
    let all : All IsByte (a ∷ b ∷ c ∷ d ∷ e ∷ f ∷ g ∷ h ∷ rest) = rw p at bytes in
    let (x0, (x1, (x2, (x3, (x4, (x5, (x6, (x7, x8)))))))) = all in
    rw p (
      words_six a b c d e f g h rest token (x2, (x3, (x4, (x5, (x6, (x7, tt)))))) k
        (rw p at positive))
