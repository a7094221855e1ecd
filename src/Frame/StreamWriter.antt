-- ===== src/Frame/StreamWriter.antt =====
-- `StreamWriter` of internal/frame/writer.go: DATA frames of at most 256 KiB, and one HALF_CLOSE.
-- The buffer pools hold no state that a caller sees, and are left out; so is the mutex.
pub mod Laws
use chitanda.Base.{
  ℕ, zero, suc, ◌+◌, ◌-◌, min, Bool, true, false, if◌then◌else◌, Option, none, some, List, [], ◌∷◌,
  ◌++◌, length, take, drop,
}
use chitanda.Io.{IoError, closed_pipe, Writer}
use chitanda.Frame.Header.{Error, io, data_chunk_size, type_data, type_half_close, encode_header}
use chitanda.Frame.Transfer.{write_full, write_frame}

-- `min(len(p), DataChunkSize)`
abbrev pub chunk_size : List ℕ → ℕ
chunk_size p = min (length p) data_chunk_size

pub record StreamWriter : Type 0 where
  pub writer : Writer
  pub closed : Bool
  pub failed : Option Error

abbrev pub new_stream_writer : Writer → StreamWriter
new_stream_writer w = record { writer = w; closed = false; failed = none }

-- The loop of `Write`: `n` bytes are out. A round takes a byte at least, so the length is enough
-- fuel.
unfoldable pub write_chunks : ℕ → Writer → List ℕ → ℕ → ℕ × Option IoError × Writer
write_chunks fuel w [] n = (n, none, w)
write_chunks zero w (b ∷ bs) n = (n, none, w)
write_chunks (suc fuel) w (b ∷ bs) n =
    let p = b ∷ bs in
    let size = chunk_size p in
    let (error, w') = write_full w (encode_header type_data 0 size ++ take size p) in
    elim error [ some e ↦ (n, some e, w') | none ↦ write_chunks fuel w' (drop size p) (n + size) ]

abbrev after_chunks : StreamWriter → ℕ × Option IoError × Writer → ℕ × Option Error × StreamWriter
after_chunks s (n, none, w) = (n, none, record s { writer = w })
after_chunks s (n, some e, w) = (n, some (io e), record s { writer = w; failed = some (io e) })

unfoldable pub stream_write : StreamWriter → List ℕ → ℕ × Option Error × StreamWriter
stream_write s p = elim s.failed [
  | some e ↦ (0, some e, s)
  | none ↦
      if s.closed
      then (0, some (io closed_pipe), s)
      else after_chunks s (write_chunks (length p) s.writer p 0)
]

unfoldable pub close_write : StreamWriter → Option Error × StreamWriter
close_write s = elim s.failed [
  | some e ↦ (some e, s)
  | none ↦
      if s.closed
      then (none, s)
      else let (error, w) = write_frame s.writer type_half_close 0 [] in
        (error, record { writer = w; closed = true; failed = error })
]
