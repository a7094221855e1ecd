-- ===== src/Rawstream/Chunk/Laws.antt =====
-- What chunks are on the wire, without the code, and that sealing and opening agree with it.
use chitanda.Base.{
  length, length-append, ℕ, suc, ◌+◌, ◌≤◌, ◌<◌, ◌≡◌, sym, ap, ◌∙◌, inr, List, [], ◌∷◌, ◌++◌,
  append-nil, append_assoc, arith,
}
use chitanda.Base.Bytes.{put_be, uint_be, length-put_be, uint_be-put_be}
use chitanda.Crypto.{Aead}
use chitanda.Rawstream.Chunk.{
  AeadStream, max_chunk_payload_len, max_uint64, nonce_of, encrypt_chunk, decrypt_chunk,
}

-- A plaintext fits in a record.
abbrev pub IsPlain : List ℕ → Type 0
IsPlain c = length c ≤ max_chunk_payload_len

-- One that is not the end of the stream.
abbrev pub IsChunk : List ℕ → Type 0
IsChunk c = (0 < length c) × IsPlain c

abbrev pub len_of : List ℕ → List ℕ
len_of c = put_be 2 (length c + 16)

abbrev pub box_of : Aead → ℕ → List ℕ → List ℕ
box_of a sequence c = a.seal (nonce_of sequence) c (len_of c)

abbrev pub record_of : Aead → ℕ → List ℕ → List ℕ
record_of a sequence c = len_of c ++ box_of a sequence c

-- The records of the chunks in order, under the nonces from `sequence` on.
abbrev pub wire : Aead → ℕ → List (List ℕ) → List ℕ
wire a sequence [] = []
wire a sequence (c ∷ cs) = record_of a sequence c ++ wire a (sequence + 1) cs

pub length-box_of :
    (a : Aead) (sequence : ℕ) (c : List ℕ) → length (box_of a sequence c) ≡ length c + 16
length-box_of a sequence c = a.length-seal (nonce_of sequence) c (len_of c)

pub length-record_of :
    (a : Aead) (sequence : ℕ) (c : List ℕ) → length (record_of a sequence c) ≡ length c + 18
length-record_of a sequence c = omega (
  arith,
  length-append (len_of c) (box_of a sequence c),
  length-put_be 2 (length c + 16),
  length-box_of a sequence c,
)

pub uint_be-len_of : (c : List ℕ) → IsPlain c → uint_be (len_of c) ≡ length c + 16
uint_be-len_of c h = uint_be-put_be 2 (length c + 16) (omega arith)

pub encrypt_chunk-record_of :
    (s : AeadStream) (dst c : List ℕ)
    → IsPlain c
    → s.sequence < max_uint64
    → encrypt_chunk s dst c
      ≡ (inr (dst ++ record_of s.aead s.sequence c), record s { sequence = s.sequence + 1 })
unfolding encrypt_chunk
encrypt_chunk-record_of s dst c h k = ground arith

pub decrypt_chunk-box_of :
    (s : AeadStream) (c : List ℕ) (wire_len : ℕ)
    → wire_len ≡ length c + 16
    → s.sequence < max_uint64
    → decrypt_chunk s [] (box_of s.aead s.sequence c) wire_len
      ≡ (inr c, record s { sequence = s.sequence + 1 })
unfolding decrypt_chunk
decrypt_chunk-box_of s c wire_len e k =
    rw (e, s.aead.open_-seal (nonce_of s.sequence) c (len_of c)) (ground arith)

-- The wire of one chunk more.
pub wire-snoc :
    (a : Aead) (sequence : ℕ) (cs : List (List ℕ)) (c : List ℕ)
    → wire a sequence (cs ++ c ∷ []) ≡ wire a sequence cs ++ record_of a (sequence + length cs) c
wire-snoc a sequence [] c =
    append-nil (record_of a sequence c)
    ∙ ap (λ k. record_of a k c) {x = sequence} {y = sequence + 0} (omega arith)
wire-snoc a sequence (d ∷ cs) c =
    ap (◌++◌ (record_of a sequence d)) (
      wire-snoc a (sequence + 1) cs c
      ∙ ap (λ k. wire a (sequence + 1) cs ++ record_of a k c) {x = sequence + 1 + length cs}
          {y = sequence + suc (length cs)} (omega arith))
    ∙ sym (append_assoc (record_of a sequence d) (wire a (sequence + 1) cs) _)
