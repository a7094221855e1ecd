-- ===== src/Frame/Transfer/Ends.antt =====
-- How `CopyAsDataFramesAndClose` ends.
use chitanda.Base.{
  ◌==◌, ltb, ℕ, zero, suc, ◌+◌, ◌≤◌, ◌<◌, ◌≡◌, ◌≢◌, refl, arith, Option, none, some, inl, inr,
  Bool-cases, List, [], ◌∷◌, ◌++◌, length, length-drop, All, drop,
}
use mathlib.Core.Bool.{true, false}
use chitanda.Io.{Event, IoError, eof, Writer, read, write}
use chitanda.Io.Write.{IsWilling, write-IsWilling}
use chitanda.Io.Read.{stream_of, IsQuiet, weight}
use chitanda.Frame.Header.{Error, data_chunk_size, type_half_close, encode_header}
use chitanda.Frame.Wire.{wire, join, IsChunk}
use chitanda.Frame.Transfer.{
  Copied, ended, data_frame, after_write, after_read, write_loop, write_full, write_frame,
  copy_loop, close_after, copy_as_data_frames_and_close,
}
use chitanda.Frame.Transfer.Copy.{copy_and_close_ok}

-- How a copy to `w` of the source `r` ends. Every byte was sent, as the frames of chunks and a
-- HALF_CLOSE; or an error is returned, and the writer is not one that never fails and takes a byte
-- at least in each call.
pub data CopyEnds (w : Writer) (r : List Event) (result : Option Error × Writer) : Type 0 where
  complete :
      (chunks : List (List ℕ))
      → All IsChunk chunks
      → join chunks ≡ stream_of r
      → result.0 ≡ none
      → result.1.sent ≡ w.sent ++ (wire chunks ++ encode_header type_half_close 0 0)
      → CopyEnds w r result
  broken : (e : Error) → result.0 ≡ some e → ¬ IsWilling w.script → CopyEnds w r result

-- Nothing failed, and the writer goes on so.
abbrev Calm : {E : Type 0} → Option E × Writer → Type 0
Calm (error, w) = (error ≡ none) × IsWilling w.script

write_loop-Calm :
    (fuel : ℕ) (w : Writer) (p : List ℕ)
    → length p ≤ fuel
    → IsWilling w.script
    → Calm (write_loop fuel w p)
unfolding write_loop
write_loop-Calm fuel w [] h c = (refl, c)
write_loop-Calm zero w (b ∷ bs) h c = absurd (omega arith)
write_loop-Calm (suc fuel) w (b ∷ bs) h c =
    let n = (write w (b ∷ bs)).0 in
    let (some_, e, s) = write-IsWilling w (b ∷ bs) (omega arith) c in
    let taken : (n == 0) ≡ false = ground (arith, some_) in
    rw (e, taken, write_loop)
      (write_loop-Calm fuel (write w (b ∷ bs)).2 (drop n (b ∷ bs))
        (omega (arith, length-drop n (b ∷ bs), some_)) s)

write_full-Calm : (w : Writer) (p : List ℕ) → IsWilling w.script → Calm (write_full w p)
unfolding write_full
write_full-Calm w p c = write_loop-Calm (length p) w p (omega arith) c

half_close-Calm : (w : Writer) → IsWilling w.script → Calm (write_frame w type_half_close 0 [])
unfolding write_frame
half_close-Calm w c =
    let (e, s) = write_full-Calm w (encode_header type_half_close 0 0 ++ []) c in (rw e refl, s)

shorter :
    (n : ℕ) (bs : List ℕ) (k : ℕ)
    → 0 < n
    → ltb n (length bs) ≡ true
    → suc (length (drop n bs) + k) < suc (length bs + k)
shorter n bs k h l = ground (arith, length-drop n bs)

-- A Read of a source that has an event left uses up some of it.
read-quiet :
    (e : Event) (es : List Event)
    → IsQuiet (e ∷ es)
    → ((read (e ∷ es) data_chunk_size).1 ≡ none)
      × IsQuiet (read (e ∷ es) data_chunk_size).2
      × (weight (read (e ∷ es) data_chunk_size).2 < weight (e ∷ es))
unfolding read
read-quiet e es q = elim (Bool-cases (ltb data_chunk_size (length e.bytes))) [
  | inl more ↦ rw more (refl, q, shorter data_chunk_size e.bytes (weight es) (omega arith) more)
  | inr all ↦ rw all (q.0, q.1, omega arith)
]

abbrev Finishes : Writer → Option Copied → Type 0
Finishes w o =
    (c : Copied) × (o ≡ some c)
    × (IsWilling w.script → (c.error ≡ none) × IsWilling c.writer.script)

-- `next` ends on every source with less than `fuel` to give.
abbrev Ending : ℕ → (Writer → List Event → ℕ → Option Copied) → Type 0
Ending fuel next =
    (w : Writer) (r : List Event) (total : ℕ)
    → IsQuiet r
    → weight r < fuel
    → Finishes w (next w r total)

module _ (next : Writer → List Event → ℕ → Option Copied) (fuel : ℕ)
    (ending : Ending fuel next) where
  after_write-Finishes :
      (w : Writer) (total : ℕ) (got : List ℕ) (r : List Event) (sent : Option IoError × Writer)
      → IsQuiet r
      → weight r < fuel
      → (IsWilling w.script → Calm sent)
      → Finishes w (after_write next total got none r sent)
  unfolding after_write
  after_write-Finishes w total got r (some e, w') q h k =
      (_, refl, λ c. absurd (some_none e (k c).0))
    where
      some_none : (e : IoError) → ◌≢◌ {A = Option IoError} (some e) none
      some_none e x = ground arith
  after_write-Finishes w total got r (none, w') q h k =
      let (c, e, calm) = ending w' r (total + length got) q h in (c, e, λ s. calm (k s).1)

  after_read-Finishes :
      (w : Writer) (total : ℕ) (x : List ℕ × Option IoError × List Event)
      → x.1 ≡ none
      → IsQuiet x.2
      → weight x.2 < fuel
      → Finishes w (after_read next w total x)
  unfolding after_read
  after_read-Finishes w total (got, some e, r) z q h = cc
  after_read-Finishes w total ([], none, r) z q h = ending w r total q h
  after_read-Finishes w total (d ∷ ds, none, r) z q h =
      after_write-Finishes w total (d ∷ ds) r (write_full w (data_frame (d ∷ ds))) q h
        (write_full-Calm w (data_frame (d ∷ ds)))

copy_loop-Finishes : (fuel : ℕ) → Ending fuel (copy_loop fuel)
unfolding copy_loop after_read read
copy_loop-Finishes zero w r total q h = absurd (omega arith)
copy_loop-Finishes (suc fuel) w [] total q h = (ended total eof w, refl, λ c. (refl, c))
copy_loop-Finishes (suc fuel) w (e ∷ es) total q h =
    let (z, q', less) = read-quiet e es q in
    after_read-Finishes (copy_loop fuel) fuel (copy_loop-Finishes fuel) w total
      (read (e ∷ es) data_chunk_size) z q' (omega arith)

close_after-calm :
    (c : Copied) → c.error ≡ none → IsWilling c.writer.script → (close_after c).0 ≡ none
unfolding close_after
close_after-calm c e s = rw e (half_close-Calm c.writer s).0

copy-Finishes :
    (fuel : ℕ) (w : Writer) (r : List Event)
    → IsQuiet r
    → weight r < fuel
    → (result : Option Error × Writer) × (copy_as_data_frames_and_close fuel w r ≡ some result)
      × (IsWilling w.script → result.0 ≡ none)
unfolding copy_as_data_frames_and_close
copy-Finishes fuel w r q h =
    let (c, e, calm) = copy_loop-Finishes fuel w r 0 q h in
    (
      close_after c,
      rw (e, copy_as_data_frames_and_close) refl,
      λ s. close_after-calm c (calm s).0 (calm s).1,
    )

-- With more fuel than the Reads that the source can answer, a copy of a source whose connection
-- reports no error before its end returns: without an error, and then the peer was sent all bytes of
-- the source as DATA frames within the limit and a HALF_CLOSE behind them; or with an error, and
-- then not every Write of the writer takes a byte at least without an error.
pub copy_and_close-CopyEnds :
    (fuel : ℕ) (w : Writer) (r : List Event)
    → IsQuiet r
    → weight r < fuel
    → (result : Option Error × Writer) × (copy_as_data_frames_and_close fuel w r ≡ some result)
      × CopyEnds w r result
copy_and_close-CopyEnds fuel w r q h =
    let ((error, w'), e, calm) = copy-Finishes fuel w r q h in
    ((error, w'), e, ends error w' e calm)
  where
    ends :
        (error : Option Error) (w' : Writer)
        → copy_as_data_frames_and_close fuel w r ≡ some (error, w')
        → (IsWilling w.script → error ≡ none)
        → CopyEnds w r (error, w')
    ends none w' e calm =
        let (chunks, good, all_bytes, sent) = copy_and_close_ok fuel w w' r q e in
        complete chunks good all_bytes refl sent
    ends (some x) w' e calm = broken x refl (λ s. cc (calm s))
