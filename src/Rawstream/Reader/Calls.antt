-- ===== src/Rawstream/Reader/Calls.antt =====
-- The bytes that a caller gets who reads to the end, and a stream from the writer to the reader.
use chitanda.Base.{
  length, All, length-append, ℕ, zero, suc, ◌+◌, ◌≤◌, ◌<◌, ◌≡◌, refl, sym, ap, ◌∙◌, Option, none,
  some, List, [], ◌∷◌, ◌++◌, append_assoc, arith,
}
use mathlib.Core.Path.{subst}
use chitanda.Crypto.{Aead}
use chitanda.Io.{Event, eof, timeout}
use chitanda.Io.Read.{stream_of, weight}
use chitanda.Io.Patience.{IsPatient}
use chitanda.Frame.Wire.{join}
use chitanda.Rawstream.Chunk.{AeadStream, new_aead_stream, max_uint64}
use chitanda.Rawstream.Chunk.Laws.{IsChunk, len_of, record_of, wire}
use chitanda.Rawstream.Writer.{FramedWriter, BatchResult, new_framed_writer, write_batch, write_eof}
use chitanda.Rawstream.Writer.Laws.{Sent, write_batch-Sent, write_eof-record_of}
use chitanda.Rawstream.Reader.{
  FramedReader, ReadFailure, Answer, io, new_framed_reader, framed_read,
}
use chitanda.Rawstream.Reader.Laws.{in_length, cost}
use chitanda.Rawstream.Reader.Delivery.{
  At, lead, wire-lead, bytes, later, ended, framed_read_delivers,
}

abbrev with_more : List ℕ → Option (List ℕ × ReadFailure) → Option (List ℕ × ReadFailure)
with_more got none = none
with_more got (some (rest, e)) = some (got ++ rest, e)

-- A caller goes on after bytes and after a timeout, and stops at any other error.
abbrev go_on :
    (FramedReader → Option (List ℕ × ReadFailure)) → Answer → Option (List ℕ × ReadFailure)
go_on again (got, none, fr) = with_more got (again fr)
go_on again (got, some (io timeout), fr) = with_more got (again fr)
go_on again (got, some e, fr) = some (got, e)

-- Calls with a buffer of `n` bytes; `none` if the fuel runs out.
unfoldable pub read_all : ℕ → FramedReader → ℕ → Option (List ℕ × ReadFailure)
read_all zero fr n = none
read_all (suc fuel) fr n = go_on (λ fr'. read_all fuel fr' n) (framed_read fr n)

read_all-At :
    (fuel : ℕ) (fr : FramedReader) (n : ℕ) (pending : List ℕ) (cs : List (List ℕ)) (tail : List ℕ)
    → cost fr + length pending < fuel
    → At fr pending cs tail
    → read_all fuel fr (suc n) ≡ some (pending ++ join cs, io eof)
unfolding read_all
read_all-At zero fr n pending cs tail h at = absurd (omega arith)
read_all-At (suc fuel) fr n pending cs tail h at =
    let again : FramedReader → Option (List ℕ × ReadFailure) = λ fr'. read_all fuel fr' (suc n) in
    elim (framed_read_delivers fr n pending cs tail at) [
      | bytes got pending' cs' fr' e at' o w ↦
          ap (go_on again) e
          ∙ ap (with_more got) (read_all-At fuel fr' n pending' cs' tail (omega arith) at')
          ∙ ap (λ t. some (t, io eof)) o
      | later pending' cs' fr' e at' o w ↦
          ap (go_on again) e
          ∙ ap (with_more []) (read_all-At fuel fr' n pending' cs' tail (omega arith) at')
          ∙ ap (λ t. some (t, io eof)) o
      | ended fr' e z ↦ ap (go_on again) e ∙ ap (λ t. some (t, io eof)) (sym z)
    ]

-- The records of `chunks` and of the end, cut up by the connection in any way and interrupted by any
-- timeouts, are read as the joined chunks and then EOF, with any size of buffer; the calls end.
pub read_all-wire_patient :
    (s : AeadStream) (chunks : List (List ℕ)) (r : List Event) (tail : List ℕ) (n fuel : ℕ)
    → All IsChunk chunks
    → s.sequence + length chunks < max_uint64
    → IsPatient r
    → stream_of r
      ≡ wire s.aead s.sequence chunks ++ (record_of s.aead (s.sequence + length chunks) [] ++ tail)
    → weight r < fuel
    → read_all fuel (new_framed_reader r s) (suc n) ≡ some (join chunks, io eof)
read_all-wire_patient s chunks r tail n fuel good k p e h =
    read_all-At fuel (new_framed_reader r s) n [] chunks tail (omega arith) (record {
      healthy = refl;
      going = refl;
      patient = p;
      holds = refl;
      stands =
          in_length (len_of (lead chunks)) refl refl
            (e ∙ wire-lead s.aead s.sequence chunks tail ∙ append_assoc (len_of (lead chunks)) _ _);
      good = good;
      nonces = k;
    })

length-join : (chunks : List (List ℕ)) → All IsChunk chunks → length chunks ≤ length (join chunks)
length-join [] h = omega arith
length-join (c ∷ cs) h = omega (arith, length-append c (join cs), length-join cs h.1, h.0.0)

same_end :
    (m n : ℕ) (x y : FramedWriter)
    → ◌≡◌ {A = Option BatchResult} (some (m, none, x)) (some (n, none, y))
    → (m ≡ n) × (x ≡ y)
same_end m n x y h = (cc, cc)

abbrev pub first_writer : Aead → FramedWriter
first_writer a = new_framed_writer (record { sent = []; script = [] }) (new_aead_stream a)

-- A reader at what a new writer sent of a batch, and then WriteEOF.
sent_whole :
    (a : Aead) (buffers : List (List ℕ)) (r : List Event) (tail : List ℕ) (n fuel : ℕ)
    (fw : FramedWriter)
    → length (join buffers) < max_uint64
    → Sent (new_aead_stream a) [] (join buffers) fw
    → IsPatient r
    → stream_of r ≡ (write_eof fw).1.w.sent ++ tail
    → weight r < fuel
    → ((write_eof fw).0 ≡ none)
      × (read_all fuel (new_framed_reader r (new_aead_stream a)) (suc n)
          ≡ some (join buffers, io eof))
sent_whole a buffers r tail n fuel fw k t p same h =
    let few : 0 + length t.chunks < max_uint64 =
      omega (arith, length-join t.chunks t.good, ap length t.order) in
    let next : fw.stream.sequence ≡ 0 + length t.chunks = ap (λ s. s.sequence) t.stream_is in
    let (ok, done, out) = write_eof-record_of fw t.open_ t.calm (omega (arith, next)) in
    let sent : (write_eof fw).1.w.sent ≡ wire a 0 t.chunks ++ record_of a (0 + length t.chunks) [] =
      out
      ∙ ap (λ s. fw.w.sent ++ record_of s.aead s.sequence []) t.stream_is
      ∙ ap (λ o. o ++ record_of a (0 + length t.chunks) []) t.sent in
    (
      ok,
      read_all-wire_patient (new_aead_stream a) t.chunks r tail n fuel t.good few p
            (same
              ∙ ap (λ o. o ++ tail) sent
              ∙ append_assoc (wire a 0 t.chunks) (record_of a (0 + length t.chunks) []) tail)
            h
          ∙ ap (λ o. some (o, io eof)) t.order,
    )

-- What a new writer sends of a batch without an error, and then WriteEOF, on a connection that takes
-- every byte, a reader with the same key reads back whole, and then EOF, with any size of buffer,
-- however the connection between them cuts the bytes up and whatever timeouts interrupt the reads;
-- every byte is counted, and WriteEOF reports no error; for fewer than 2 ^ 64 - 1 bytes.
pub read_all-write_batch :
    (a : Aead) (now : ℕ) (buffers : List (List ℕ)) (r : List Event) (tail : List ℕ)
    (n fuel count : ℕ) (fw : FramedWriter)
    → length (join buffers) < max_uint64
    → write_batch (first_writer a) now buffers ≡ some (count, none, fw)
    → IsPatient r
    → stream_of r ≡ (write_eof fw).1.w.sent ++ tail
    → weight r < fuel
    → (count ≡ length (join buffers))
      × ((write_eof fw).0 ≡ none)
      × (read_all fuel (new_framed_reader r (new_aead_stream a)) (suc n)
          ≡ some (join buffers, io eof))
read_all-write_batch a now buffers r tail n fuel count fw k w p same h =
    let (fw', e, t) = write_batch-Sent (first_writer a) now buffers refl refl (omega arith) in
    let (c, f) = same_end count (length (join buffers)) fw fw' (sym w ∙ e) in
    let sent = subst (Sent (new_aead_stream a) [] (join buffers)) (sym f) t in
    let (ok, whole) = sent_whole a buffers r tail n fuel fw k sent p same h in (c, ok, whole)
