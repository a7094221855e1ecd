-- ===== src/Icmp/Message/Laws.antt =====
-- Echo messages: what is built parses back and is valid; a stripped reply has its 8 bytes.
use chitanda.Base.{
  if◌then◌else◌, le→ltb, length, get_or, drop, All, length-append, length-drop, take-append_exact,
  drop-append_exact, drop-drop, All-append, ℕ, ◌+◌, ◌-◌, ◌*◌, ◌/◌, ◌%◌, ◌^◌, ◌≤◌, ◌<◌, ◌≡◌, refl,
  sym, ap, ◌∙◌, ◌⊎◌, inl, inr, Bool, true, false, none, List, [], ◌∷◌, ◌++◌, arith,
}
use chitanda.Base.Bytes.{IsByte, put_be, uint_be, length-put_be, put_be-IsByte, uint_be-put_be}
use chitanda.Icmp.Checksum.{fold, complement, checksum}
use chitanda.Icmp.Checksum.Sum.{words, words-bound, sum_words-words, fold-IsFolded}
use chitanda.Icmp.Message.{
  put_checksum, checksum_field, build, build_echo_request, build_echo_reply, parse_echo,
  validate_echo_request, strip_ip_header,
}

-- The first eight bytes of a packet, and the rest.
pub eight_bytes :
    (packet : List ℕ)
    → 8 ≤ length packet
    → (a b c d e f g h : ℕ) × (rest : List ℕ) × (packet ≡ a ∷ b ∷ c ∷ d ∷ e ∷ f ∷ g ∷ h ∷ rest)
eight_bytes [] l = absurd (omega arith)
eight_bytes (a ∷ []) l = absurd (omega arith)
eight_bytes (a ∷ b ∷ []) l = absurd (omega arith)
eight_bytes (a ∷ b ∷ c ∷ []) l = absurd (omega arith)
eight_bytes (a ∷ b ∷ c ∷ d ∷ []) l = absurd (omega arith)
eight_bytes (a ∷ b ∷ c ∷ d ∷ e ∷ []) l = absurd (omega arith)
eight_bytes (a ∷ b ∷ c ∷ d ∷ e ∷ f ∷ []) l = absurd (omega arith)
eight_bytes (a ∷ b ∷ c ∷ d ∷ e ∷ f ∷ g ∷ []) l = absurd (omega arith)
eight_bytes (a ∷ b ∷ c ∷ d ∷ e ∷ f ∷ g ∷ h ∷ rest) l = (a, b, c, d, e, f, g, h, rest, refl)

checksum-words :
    (bytes : List ℕ) → words bytes < 2 ^ 32 → checksum bytes ≡ 65535 - fold 2 (words bytes)
unfolding checksum
checksum-words bytes h =
    ap (λ s. complement (fold 2 s)) {y = words bytes}
      (sum_words-words 0 bytes (omega arith) ∙ omega arith)
    ∙ omega (arith, (fold-IsFolded (words bytes) h).small)

-- With its checksum in place the words of a message sum to a multiple of 65535 that is not zero.
checksum-valid : (sum : ℕ) → sum + 65535 < 2 ^ 32 → fold 2 (sum + (65535 - fold 2 sum)) ≡ 65535
checksum-valid sum h =
    let a = fold-IsFolded sum (omega arith) in
    let b = fold-IsFolded (sum + (65535 - fold 2 sum)) (omega arith) in omega arith

pub words-put_checksum :
    (a b c d : ℕ) (rest : List ℕ) (cs : ℕ)
    → cs < 65536
    → words (put_checksum (a ∷ b ∷ c ∷ d ∷ rest) cs) ≡ uint_be (a ∷ b ∷ []) + (cs + words rest)
unfolding words put_checksum put_be
words-put_checksum a b c d rest cs h =
    let e : uint_be (cs / 256 % 256 ∷ cs % 256 ∷ []) ≡ cs = uint_be-put_be 2 cs h in
    omega (arith, e)

zero_word : uint_be (0 ∷ 0 ∷ []) ≡ 0
unfolding uint_be
zero_word = refl

abbrev pub packet_of : ℕ → ℕ → List ℕ → List ℕ
packet_of kind code rest =
    put_checksum (kind ∷ code ∷ 0 ∷ 0 ∷ rest) (checksum (kind ∷ code ∷ 0 ∷ 0 ∷ rest))

-- A message of two header bytes, its checksum and the rest is valid.
module _ (kind code : ℕ) (rest : List ℕ) (k-IsByte : IsByte kind) (c-IsByte : IsByte code)
    (rest-IsByte : All IsByte rest) (small : length rest ≤ 65531) where
  cleared_sum : ℕ
  cleared_sum = words (kind ∷ code ∷ 0 ∷ 0 ∷ rest)

  sum_small : cleared_sum + 65535 < 2 ^ 32
  unfolding cleared_sum
  sum_small = omega (
    arith,
    words-bound (kind ∷ code ∷ 0 ∷ 0 ∷ rest)
        (k-IsByte, (c-IsByte, (omega arith, (omega arith, rest-IsByte)))),
  )

  words_sum : words (packet_of kind code rest) ≡ cleared_sum + (65535 - fold 2 cleared_sum)
  unfolding cleared_sum words
  words_sum =
      words-put_checksum kind code 0 0 rest (checksum (kind ∷ code ∷ 0 ∷ 0 ∷ rest))
        (unfold checksum in omega arith)
      ∙ omega
          (arith, checksum-words (kind ∷ code ∷ 0 ∷ 0 ∷ rest) (omega (arith, sum_small)), zero_word)

  pub checksum-packet_of : checksum (packet_of kind code rest) ≡ 0
  checksum-packet_of =
      checksum-words (packet_of kind code rest) (omega (arith, words_sum, sum_small))
      ∙ omega (arith, ap (fold 2) words_sum, checksum-valid cleared_sum (omega (arith, sum_small)))

build-checksum :
    (kind id seq : ℕ) (content : List ℕ)
    → All IsByte content
    → IsByte kind
    → length content ≤ 65527
    → checksum (build kind id seq content false) ≡ 0
build-checksum kind id seq content h k l =
    checksum-packet_of kind 0 (put_be 2 id ++ (put_be 2 seq ++ content)) k (omega arith)
      (All-append IsByte (put_be 2 id) _ (put_be-IsByte 2 id)
        (All-append IsByte (put_be 2 seq) content (put_be-IsByte 2 seq) h))
      (omega (
        arith,
        length-append (put_be 2 id) (put_be 2 seq ++ content),
        length-append (put_be 2 seq) content,
        length-put_be 2 id,
        length-put_be 2 seq,
      ))

-- A request that BuildEchoRequest makes of at most 65527 bytes passes ValidateEchoRequest.
pub validate_echo_request-build_echo_request :
    (id seq : ℕ) (content : List ℕ) (is_ipv6 : Bool)
    → All IsByte content
    → length content ≤ 65527
    → validate_echo_request (build_echo_request id seq content is_ipv6) is_ipv6 ≡ none
unfolding validate_echo_request build_echo_request put_checksum put_be
validate_echo_request-build_echo_request id seq content false h l =
    let valid : checksum (build 8 id seq content false) ≡ 0 =
      build-checksum 8 id seq content h (omega arith) l in
    ground arith
validate_echo_request-build_echo_request id seq content true h l = ground arith

parse_fields :
    (kind c d id seq : ℕ) (content : List ℕ)
    → id < 2 ^ 16
    → seq < 2 ^ 16
    → parse_echo (kind ∷ 0 ∷ c ∷ d ∷ (put_be 2 id ++ (put_be 2 seq ++ content)))
      ≡ inr (record {
        kind = kind;
        code = 0;
        checksum = uint_be (c ∷ d ∷ []);
        id = id;
        seq = seq;
        content = content;
      })
unfolding parse_echo
parse_fields kind c d id seq content hi hs =
    rw
      (
        le→ltb (length (kind ∷ 0 ∷ c ∷ d ∷ (put_be 2 id ++ (put_be 2 seq ++ content)))) 8 (
            omega (
              arith,
              length-append (put_be 2 id) (put_be 2 seq ++ content),
              length-append (put_be 2 seq) content,
              length-put_be 2 id,
              length-put_be 2 seq,
            )),
        take-append_exact 2 (put_be 2 id) (put_be 2 seq ++ content) (length-put_be 2 id),
        drop-append_exact 2 (put_be 2 id) (put_be 2 seq ++ content) (length-put_be 2 id),
        uint_be-put_be 2 id hi,
        take-append_exact 2 (put_be 2 seq) content (length-put_be 2 seq),
        uint_be-put_be 2 seq hs,
        sym (drop-drop 2 2 (put_be 2 id ++ (put_be 2 seq ++ content))),
        drop-append_exact 2 (put_be 2 id) (put_be 2 seq ++ content) (length-put_be 2 id),
        drop-append_exact 2 (put_be 2 seq) content (length-put_be 2 seq),
      )
      refl

-- What BuildEchoRequest and BuildEchoReply make of a 16-bit identifier and sequence number parses
-- back to them, with the type for the IP version, code 0 and the data.
pub parse_echo-build :
    (id seq : ℕ) (content : List ℕ) (is_ipv6 : Bool)
    → id < 2 ^ 16
    → seq < 2 ^ 16
    → let request = build_echo_request id seq content is_ipv6 in
      let reply = build_echo_reply id seq content is_ipv6 in
      (parse_echo request
        ≡ inr (record {
          kind = if is_ipv6 then 128 else 8;
          code = 0;
          checksum = checksum_field request;
          id = id;
          seq = seq;
          content = content;
        }))
      × (parse_echo reply
          ≡ inr (record {
            kind = if is_ipv6 then 129 else 0;
            code = 0;
            checksum = checksum_field reply;
            id = id;
            seq = seq;
            content = content;
          }))
unfolding build_echo_request build_echo_reply put_checksum put_be
parse_echo-build id seq content true hi hs =
    (parse_fields 128 0 0 id seq content hi hs, parse_fields 129 0 0 id seq content hi hs)
parse_echo-build id seq content false hi hs =
    let request = checksum (8 ∷ 0 ∷ 0 ∷ 0 ∷ (put_be 2 id ++ (put_be 2 seq ++ content))) in
    let reply = checksum (0 ∷ 0 ∷ 0 ∷ 0 ∷ (put_be 2 id ++ (put_be 2 seq ++ content))) in
    (
      parse_fields 8 (request / 256 % 256) (request % 256) id seq content hi hs,
      parse_fields 0 (reply / 256 % 256) (reply % 256) id seq content hi hs,
    )

strip_four :
    (packet p : List ℕ)
    → strip_ip_header packet false ≡ inr p
    → let ihl = get_or packet 0 0 % 16 * 4 in
      ((p ≡ packet) × (8 ≤ length packet)) ⊎ ((p ≡ drop ihl packet) × (ihl + 8 ≤ length packet))
unfolding strip_ip_header
strip_four packet p h = ground arith

strip_six :
    (packet p : List ℕ)
    → strip_ip_header packet true ≡ inr p
    → ((p ≡ packet) × (8 ≤ length packet)) ⊎ ((p ≡ drop 40 packet) × (48 ≤ length packet))
unfolding strip_ip_header
strip_six packet p h = ground arith

-- A suffix that leaves 8 bytes.
suffix :
    (k : ℕ) (packet p : List ℕ)
    → p ≡ drop k packet
    → k + 8 ≤ length packet
    → (8 ≤ length p) × (drop (length packet - length p) packet ≡ p)
suffix k packet p e h =
    let l : length p ≡ length packet - k = ap length e ∙ length-drop k packet in
    (omega arith, ap (λ i. drop i packet) {y = k} (omega arith) ∙ sym e)

-- What StripIPHeader returns is the end of the packet, of at least 8 bytes.
pub strip_ip_header-drop :
    (packet p : List ℕ) (ipv6 : Bool)
    → strip_ip_header packet ipv6 ≡ inr p
    → (8 ≤ length p) × (drop (length packet - length p) packet ≡ p)
strip_ip_header-drop packet p false h = elim (strip_four packet p h) [
  | inl (e, l) ↦ suffix 0 packet p e (omega arith)
  | inr (e, l) ↦ suffix (get_or packet 0 0 % 16 * 4) packet p e l
]
strip_ip_header-drop packet p true h = elim (strip_six packet p h) [
  | inl (e, l) ↦ suffix 0 packet p e (omega arith)
  | inr (e, l) ↦ suffix 40 packet p e l
]
