-- ===== src/Rawstream/Chunk.antt =====
-- `AEADStream` of internal/rawstream/frame.go: chunks sealed under nonces that count up, each behind
-- its length, which is authenticated with it.
pub mod Laws
use chitanda.Base.{
  ltb, leb, ◌==◌, if◌then◌else◌, bytes_eq, bytes_eq→eq, bytes_eq_self, ltb→lt, lt→ltb, leb→le,
  le→leb, lt→leb, le→ltb, ==_iff, Bool-cases, Option-cases, some_inj, length, get_or, set, take,
  drop, replicate, All, All-take, All-drop, slice_at, length-append, length-set, get_or-set_self,
  get_or-set_ne, length-replicate, get_or-replicate, take-append-drop, length-take, length-drop,
  take-append_exact, drop-append_exact, take-nil, take-add, drop-nil, drop-drop, All-append, ℕ,
  zero, suc, ◌+◌, ◌-◌, ◌*◌, ◌/◌, ◌%◌, ◌^◌, ◌≤◌, ◌<◌, min, max, bit_and, bit_or, bit_xor, ◌≡◌, refl,
  sym, ap, ap₂, ◌∙◌, ◌≢◌, ◌↔◌, ◌⊎◌, inl, inr, Bool, true, false, not, ◌&&◌, ◌||◌, Option, none,
  some, List, [], ◌∷◌, ◌++◌, map, append-nil, append_assoc, arith,
}
use chitanda.Base.Bytes.{
  IsByte, put_be, uint_be, length-put_be, put_be-IsByte, uint_be-snoc, uint_be-put_be,
  uint_be-bound, put_be-uint_be,
}
use chitanda.Crypto.{Aead}

abbrev pub max_chunk_payload_len : ℕ
max_chunk_payload_len = 32768

abbrev pub max_chunk_wire_len : ℕ
max_chunk_wire_len = max_chunk_payload_len + 16

abbrev pub max_uint64 : ℕ
max_uint64 = 2 ^ 64 - 1

pub data ChunkError : Type 0 where
  chunk_too_large sequence_exhausted decryption_failed : ChunkError

pub record AeadStream : Type 0 where
  pub aead : Aead
  pub sequence : ℕ

abbrev pub new_aead_stream : Aead → AeadStream
new_aead_stream aead = record { aead = aead; sequence = 0 }

-- `nonceBuf`: the first four bytes stay zero.
unfoldable pub nonce_of : ℕ → List ℕ
nonce_of sequence = replicate 4 0 ++ put_be 8 sequence

unfoldable pub encrypt_chunk : AeadStream → List ℕ → List ℕ → (ChunkError ⊎ List ℕ) × AeadStream
encrypt_chunk s dst plaintext =
    let len_buf = put_be 2 (length plaintext + 16) in
    if ltb max_chunk_payload_len (length plaintext)
    then (inl chunk_too_large, s)
    else if s.sequence == max_uint64
    then (inl sequence_exhausted, s)
    else (
      inr (dst ++ (len_buf ++ s.aead.seal (nonce_of s.sequence) plaintext len_buf)),
      record s { sequence = s.sequence + 1 },
    )

abbrev pub opened : List ℕ → Option (List ℕ) → ChunkError ⊎ List ℕ
opened dst none = inl decryption_failed
opened dst (some plaintext) = inr (dst ++ plaintext)

unfoldable pub decrypt_chunk : AeadStream → List ℕ → List ℕ → ℕ → (ChunkError ⊎ List ℕ) × AeadStream
decrypt_chunk s dst ciphertext wire_len =
    if s.sequence == max_uint64 then (inl sequence_exhausted, s) else (
      opened dst (s.aead.open_ (nonce_of s.sequence) ciphertext (put_be 2 wire_len)),
      record s { sequence = s.sequence + 1 },
    )
