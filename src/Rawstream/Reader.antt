-- ===== src/Rawstream/Reader.antt =====
-- `FramedReader` of internal/rawstream/stream.go.
pub mod Laws
pub mod Delivery
pub mod Calls
use chitanda.Base.{
  ltb, leb, ◌==◌, if◌then◌else◌, bytes_eq, bytes_eq→eq, bytes_eq_self, ltb→lt, lt→ltb, leb→le,
  le→leb, lt→leb, le→ltb, ==_iff, Bool-cases, Option-cases, some_inj, length, get_or, set, take,
  drop, replicate, All, All-take, All-drop, slice_at, length-append, length-set, get_or-set_self,
  get_or-set_ne, length-replicate, get_or-replicate, take-append-drop, length-take, length-drop,
  take-append_exact, drop-append_exact, take-nil, take-add, drop-nil, drop-drop, All-append, ℕ,
  zero, suc, ◌+◌, ◌-◌, ◌*◌, ◌/◌, ◌%◌, ◌^◌, ◌≤◌, ◌<◌, min, max, bit_and, bit_or, bit_xor, ◌≡◌, refl,
  sym, ap, ap₂, ◌∙◌, ◌≢◌, ◌↔◌, ◌⊎◌, inl, inr, Bool, true, false, not, ◌&&◌, ◌||◌, Option, none,
  some, List, [], ◌∷◌, ◌++◌, map, append-nil, append_assoc, arith,
}
use chitanda.Base.Bytes.{
  IsByte, put_be, uint_be, length-put_be, put_be-IsByte, uint_be-snoc, uint_be-put_be,
  uint_be-bound, put_be-uint_be,
}
use chitanda.Io.{Event, IoError, eof, unexpected_eof, timeout, read_full}
use chitanda.Rawstream.Chunk.{
  ChunkError, chunk_too_large, decryption_failed, AeadStream, max_chunk_wire_len, decrypt_chunk,
}

pub data ReadFailure : Type 0 where
  io : IoError → ReadFailure
  chunk : ChunkError → ReadFailure

-- `header` and `body` hold the `headerRead` and `bodyRead` bytes of a record that have come so far;
-- the buffer of the body is replaced only where none of it has come.
pub record FramedReader : Type 0 where
  pub r : List Event
  pub stream : AeadStream
  pub header : List ℕ
  pub body : List ℕ
  pub dec_buf : List ℕ
  pub dec_off : ℕ
  pub eof_reached : Bool
  pub fatal_err : Option ReadFailure

abbrev pub new_framed_reader : List Event → AeadStream → FramedReader
new_framed_reader r s = record {
  r = r;
  stream = s;
  header = [];
  body = [];
  dec_buf = [];
  dec_off = 0;
  eof_reached = false;
  fatal_err = none;
}

abbrev pub Answer : Type 0
Answer = List ℕ × Option ReadFailure × FramedReader

-- A timeout keeps the partial record; any other error is final.
abbrev pub read_error : FramedReader → IoError → Answer
read_error fr timeout = ([], some (io timeout), fr)
read_error fr eof =
    ([], some (io unexpected_eof), record fr { fatal_err = some (io unexpected_eof) })
read_error fr e = ([], some (io e), record fr { fatal_err = some (io e) })

-- `copy(p, decBuf[decOff:])` for a buffer of `n` bytes.
abbrev pub hand_over : FramedReader → ℕ → Answer
hand_over fr n =
    let got = take n (drop fr.dec_off fr.dec_buf) in
    (got, none, record fr { dec_off = fr.dec_off + length got })

abbrev pub after_open : ℕ → FramedReader → (ChunkError ⊎ List ℕ) × AeadStream → Answer
after_open n fr (inl e, s) = (
  [],
  some (chunk decryption_failed),
  record fr { stream = s; dec_buf = []; fatal_err = some (chunk decryption_failed) },
)
after_open n fr (inr [], s) = (
  [],
  some (io eof),
  record fr { stream = s; dec_buf = []; header = []; body = []; eof_reached = true },
)
after_open n fr (inr (b ∷ bs), s) =
    hand_over (record fr { stream = s; dec_buf = b ∷ bs; dec_off = 0; header = []; body = [] }) n

abbrev pub after_chunk_body : ℕ → FramedReader → List ℕ × Option IoError × List Event → Answer
after_chunk_body n fr (got, some e, rest) =
    read_error (record fr { r = rest; body = fr.body ++ got }) e
after_chunk_body n fr (got, none, rest) =
    after_open n (record fr { r = rest; body = fr.body ++ got })
      (decrypt_chunk fr.stream [] (fr.body ++ got) (uint_be fr.header))

unfoldable pub read_chunk_body : ℕ → FramedReader → Answer
read_chunk_body n fr =
    let wire_len = uint_be fr.header in
    if ltb wire_len 16
    then (
      [],
      some (chunk decryption_failed),
      record fr { fatal_err = some (chunk decryption_failed) },
    )
    else if ltb max_chunk_wire_len wire_len
    then ([], some (chunk chunk_too_large), record fr { fatal_err = some (chunk chunk_too_large) })
    else after_chunk_body n fr (read_full fr.r (wire_len - length fr.body))

abbrev pub after_length : ℕ → FramedReader → List ℕ × Option IoError × List Event → Answer
after_length n fr (got, some e, rest) =
    read_error (record fr { r = rest; header = fr.header ++ got }) e
after_length n fr (got, none, rest) =
    read_chunk_body n (record fr { r = rest; header = fr.header ++ got })

unfoldable pub read_record : ℕ → FramedReader → Answer
read_record n fr =
    if ltb (length fr.header) 2
    then after_length n fr (read_full fr.r (2 - length fr.header))
    else read_chunk_body n fr

-- `Read` into a buffer of `n` bytes.
unfoldable pub framed_read : FramedReader → ℕ → Answer
framed_read fr zero = ([], none, fr)
framed_read fr (suc n) =
    if ltb fr.dec_off (length fr.dec_buf) then hand_over fr (suc n) else elim fr.fatal_err [
      | some e ↦ ([], some e, fr)
      | none ↦ if fr.eof_reached then ([], some (io eof), fr) else read_record (suc n) fr
    ]
