-- ===== src/Frame/Tests.antt =====
-- Runs of the framing, and its theorems at concrete inputs.
use chitanda.Base.{Option, ℕ, ◌≡◌, refl, arith, false, none, some, List, [], ◌∷◌, ◌++◌}
use chitanda.Base.Bytes.{put_be}
use chitanda.Io.{Event, eof, failed, Writer, write}
use chitanda.Io.Read.{stream_of, IsQuiet}
use chitanda.Frame.Header.{Error, io, ok, encode_header, read_header}
use chitanda.Frame.Header.Laws.{read_header-encode_header}
use chitanda.Frame.Transfer.{write_loop, write_full, write_frame}
use chitanda.Frame.Transfer.{copy_as_data_frames_and_close}
use chitanda.Frame.Transfer.Ends.{CopyEnds, copy_and_close-CopyEnds}
use chitanda.Frame.Wire.{wire, chunks_of}
use chitanda.Frame.StreamWriter.{
  StreamWriter, new_stream_writer, write_chunks, stream_write, close_write,
}
use chitanda.Frame.StreamWriter.Laws.{stream_write_ok, stream_write_failed, close_write_once}
use chitanda.Frame.StreamReader.{StreamError, new_stream_reader}
use chitanda.Frame.StreamReader.Calls.{read_all, read_all-wire}

abbrev plain : List ℕ → Event
plain bs = record { bytes = bs; ends = none }

abbrev idle : Writer
idle = record { sent = []; script = [] }

-- Takes three bytes of the first call and then fails.
abbrev broken : Writer
broken = record { sent = []; script = (3, none) ∷ (0, some failed) ∷ [] }

abbrev cut_header : List Event
cut_header = plain (1 ∷ 3 ∷ 0 ∷ []) ∷ plain (0 ∷ 0 ∷ 0 ∷ 0 ∷ 2 ∷ 7 ∷ []) ∷ []

read_header-encode_header_example :
    ((read_header cut_header).0 ≡ ok (record { kind = 3; flags = 0; size = 2 }))
    × (stream_of (read_header cut_header).1 ≡ 7 ∷ [])
    × IsQuiet (read_header cut_header).1
unfolding encode_header put_be
read_header-encode_header_example =
    read_header-encode_header 3 0 2 cut_header (7 ∷ []) (omega arith) (omega arith)
      (refl, (refl, tt)) refl

three_written : (write_frame idle 3 0 (7 ∷ 8 ∷ [])).0 ≡ none
unfolding write_frame write_full write_loop write encode_header put_be
three_written = refl

abbrev source : List Event
source = plain (1 ∷ 2 ∷ []) ∷ plain [] ∷ plain (3 ∷ []) ∷ []

-- Takes three bytes of the first call and one of the second, and then every byte.
abbrev slow : Writer
slow = record { sent = []; script = (3, none) ∷ (1, none) ∷ [] }

copy_and_close-CopyEnds_example :
    (result : Option Error × Writer) × (copy_as_data_frames_and_close 7 slow source ≡ some result)
    × CopyEnds slow source result
copy_and_close-CopyEnds_example =
    copy_and_close-CopyEnds 7 slow source (refl, (refl, (refl, tt))) (omega arith)

abbrev opened : StreamWriter
opened = new_stream_writer idle

both_written : (stream_write opened (7 ∷ 8 ∷ [])).1 ≡ none
unfolding stream_write write_chunks write_full write_loop write encode_header put_be
both_written = refl

stream_write_ok_example :
    let (n, _, s) = stream_write opened (7 ∷ 8 ∷ []) in
    (n ≡ 2)
    × (s.writer.sent ≡ [] ++ wire (chunks_of 2 (7 ∷ 8 ∷ [])))
    × (s.failed ≡ none)
    × (s.closed ≡ false)
stream_write_ok_example = stream_write_ok opened (7 ∷ 8 ∷ []) refl refl both_written

abbrev breaking : StreamWriter
breaking = new_stream_writer broken

cut_off : (stream_write breaking (7 ∷ 8 ∷ [])).1 ≡ some (io failed)
unfolding stream_write write_chunks write_full write_loop write encode_header put_be
cut_off = refl

stream_write_failed_example :
    let s = (stream_write breaking (7 ∷ 8 ∷ [])).2 in
    (stream_write s (9 ∷ []) ≡ (0, some (io failed), s)) × (close_write s ≡ (some (io failed), s))
stream_write_failed_example =
    stream_write_failed breaking (7 ∷ 8 ∷ []) (9 ∷ []) (io failed) refl refl cut_off

close_write_once_example :
    let s = (close_write opened).1 in
    (close_write s ≡ ((close_write opened).0, s))
    × ((stream_write s (9 ∷ [])).2 ≡ s)
    × ((stream_write s (9 ∷ [])).0 ≡ 0)
close_write_once_example = close_write_once opened (9 ∷ []) refl

-- Two frames and the end, cut inside the headers.
abbrev arriving : List Event
arriving =
    plain (1 ∷ 3 ∷ 0 ∷ 0 ∷ 0 ∷ 0 ∷ 0 ∷ 2 ∷ 1 ∷ 2 ∷ 1 ∷ 3 ∷ [])
    ∷ plain []
    ∷ plain (0 ∷ 0 ∷ 0 ∷ 0 ∷ 0 ∷ 1 ∷ 3 ∷ 1 ∷ 4 ∷ 0 ∷ 0 ∷ 0 ∷ 0 ∷ 0 ∷ 0 ∷ [])
    ∷ []

read_all-wire_example :
    read_all 40 (new_stream_reader arriving) 5 ≡ some (1 ∷ 2 ∷ 3 ∷ [], StreamError.io eof)
read_all-wire_example =
    read_all-wire ((1 ∷ 2 ∷ []) ∷ (3 ∷ []) ∷ []) arriving [] 4 40 (omega arith)
      (refl, (refl, (refl, tt))) (unfold encode_header put_be in refl) (omega arith) (omega arith)
