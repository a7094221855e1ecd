-- ===== src/Frame/Transfer.antt =====
-- Writing frames: `writeFull`, `WriteFrame`, `CopyAsDataFrames` and `CopyAsDataFramesAndClose` of
-- internal/frame/frame.go, and `StreamWriter` of internal/frame/writer.go.
pub mod Full
pub mod Copy
pub mod Ends
use chitanda.Base.{
  ℕ, zero, suc, ◌+◌, ◌-◌, min, Bool, true, false, ltb, leb, ◌==◌, not, if◌then◌else◌, Option, none,
  some, List, [], ◌∷◌, ◌++◌, length, take, drop,
}
use chitanda.Io.{Event, IoError, eof, short_write, closed_pipe, Writer, read, write}
use chitanda.Frame.Header.{
  Error, io, payload_too_large, header_size, data_chunk_size, max_payload, type_data,
  type_half_close, type_reset, encode_header,
}

-- The loop of `writeFull`. Every round but the last sends a byte, so the length is enough fuel.
unfoldable pub write_loop : ℕ → Writer → List ℕ → Option IoError × Writer
write_loop fuel w [] = (none, w)
write_loop zero w (b ∷ bs) = (some short_write, w)
write_loop (suc fuel) w (b ∷ bs) =
    let (n, error, w') = write w (b ∷ bs) in
    elim error [
      | some e ↦ (some e, w')
      | none ↦ elim (n == 0) [
        | true ↦ (some short_write, w')
        | false ↦ write_loop fuel w' (drop n (b ∷ bs))
      ]
    ]

unfoldable pub write_full : Writer → List ℕ → Option IoError × Writer
write_full w payload = write_loop (length payload) w payload

unfoldable pub write_frame : Writer → ℕ → ℕ → List ℕ → Option Error × Writer
write_frame w kind flags payload =
    let (error, w') = write_full w (encode_header kind flags (length payload) ++ payload) in
    if ltb max_payload (length payload)
    then (some payload_too_large, w)
    else (elim error [ none ↦ none | some e ↦ some (io e) ], w')

-- `for { n, readErr := r.Read(buffer[HeaderSize:]); … }`: a round for each Read of the source. The
-- fuel bounds the rounds; `none` as the outcome means that it ran out.
pub record Copied : Type 0 where
  pub total : ℕ
  pub error : Option IoError
  pub writer : Writer

-- `errors.Is(readErr, io.EOF)` is a clean end.
abbrev pub ended : ℕ → IoError → Writer → Copied
ended total eof w = record { total = total; error = none; writer = w }
ended total e w = record { total = total; error = some e; writer = w }

abbrev pub data_frame : List ℕ → List ℕ
data_frame got = encode_header type_data 0 (length got) ++ got

module _ (next : Writer → List Event → ℕ → Option Copied) where
  unfoldable pub after_write :
      ℕ → List ℕ → Option IoError → List Event → Option IoError × Writer → Option Copied
  after_write total got error r (some e, w) =
      some (record { total = total; error = some e; writer = w })
  after_write total got none r (none, w) = next w r (total + length got)
  after_write total got (some e) r (none, w) = some (ended (total + length got) e w)

  unfoldable pub after_read : Writer → ℕ → List ℕ × Option IoError × List Event → Option Copied
  unfolding after_write
  after_read w total ([], none, r) = next w r total
  after_read w total ([], some e, r) = some (ended total e w)
  after_read w total (b ∷ bs, error, r) =
      after_write total (b ∷ bs) error r (write_full w (data_frame (b ∷ bs)))

unfoldable pub copy_loop : ℕ → Writer → List Event → ℕ → Option Copied
copy_loop zero w r total = none
copy_loop (suc fuel) w r total = after_read (copy_loop fuel) w total (read r data_chunk_size)

-- HALF_CLOSE after a clean end, RESET (whose own failure is dropped) after any error.
unfoldable pub close_after : Copied → Option Error × Writer
close_after c = elim c.error [
  | some e ↦ (some (io e), (write_frame c.writer type_reset 0 []).1)
  | none ↦ write_frame c.writer type_half_close 0 []
]

unfoldable pub copy_as_data_frames_and_close :
    ℕ → Writer → List Event → Option (Option Error × Writer)
copy_as_data_frames_and_close fuel w r = elim (copy_loop fuel w r 0) [
  | none ↦ none
  | some c ↦ some (close_after c)
]
