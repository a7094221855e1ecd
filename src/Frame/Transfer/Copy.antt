-- ===== src/Frame/Transfer/Copy.antt =====
-- `CopyAsDataFramesAndClose`: a clean end of the source is a HALF_CLOSE after all of its bytes.
use chitanda.Base.{
  ℕ, zero, suc, ◌+◌, ◌≤◌, ◌≡◌, ◌⊎◌, refl, sym, ap, ◌∙◌, arith, Option, none, some, Option-cases,
  some_inj, List, [], ◌∷◌, ◌++◌, append_assoc, append-nil, length, length-append, All, inl, inr,
}
use mathlib.Core.Path.{subst}
use chitanda.Io.{Event, IoError, eof, Writer, read}
use chitanda.Io.Read.{stream_of, read-stream_of, length-read, IsQuiet}
use chitanda.Frame.Header.{data_chunk_size, type_data, type_half_close, encode_header}
use chitanda.Frame.Wire.{wire, join, IsChunk}
use chitanda.Frame.Transfer.{
  Copied, ended, data_frame, after_write, after_read, write_full, copy_loop, close_after,
  copy_as_data_frames_and_close,
}
use chitanda.Frame.Transfer.Full.{write_full_ok, write_frame_ok}

-- The chunks that a successful copy has sent.
record Copies (w : Writer) (r : List Event) (total : ℕ) (c : Copied) : Type 0 where
  chunks : List (List ℕ)
  good : All IsChunk chunks
  all_bytes : join chunks ≡ stream_of r
  sent : c.writer.sent ≡ w.sent ++ wire chunks
  counted : c.total ≡ total + length (stream_of r)

read-IsQuiet_cases :
    (r : List Event) (n : ℕ)
    → IsQuiet r
    → (((read r n).1 ≡ none) × IsQuiet (read r n).2)
      ⊎ ((stream_of r ≡ []) × (read r n ≡ ([], some eof, [])))
unfolding read
read-IsQuiet_cases [] n q = inr (refl, refl)
read-IsQuiet_cases (e ∷ es) n q = inl (ground arith)

-- What a successful rest of the copy does.
abbrev Good : (Writer → List Event → ℕ → Option Copied) → Type 0
Good next =
    (w : Writer) (r : List Event) (total : ℕ) (c : Copied)
    → IsQuiet r
    → next w r total ≡ some c
    → c.error ≡ none
    → Copies w r total c

module _ (next : Writer → List Event → ℕ → Option Copied) (good : Good next) where
  after_write-Copies :
      (w : Writer) (total : ℕ) (got : List ℕ) (r r0 : List Event) (c : Copied)
      (sent : Option IoError × Writer)
      → IsChunk got
      → IsQuiet r
      → got ++ stream_of r ≡ stream_of r0
      → (sent.0 ≡ none → sent.1.sent ≡ w.sent ++ data_frame got)
      → after_write next total got none r sent ≡ some c
      → c.error ≡ none
      → Copies w r0 total c
  unfolding after_write
  after_write-Copies w total got r r0 c (some e, w') k q b s h n = cc
  after_write-Copies w total got r r0 c (none, w') k q b s h n =
      let rest : Copies w' r (total + length got) c = good w' r (total + length got) c q h n in
      record {
        chunks = got ∷ rest.chunks;
        good = (k, rest.good);
        all_bytes = ap (◌++◌ got) rest.all_bytes ∙ b;
        sent =
            rest.sent
            ∙ ap (λ t. t ++ wire rest.chunks) (s refl)
            ∙ append_assoc w.sent (data_frame got) (wire rest.chunks)
            ∙ ap (◌++◌ w.sent)
                (append_assoc (encode_header type_data 0 (length got)) got (wire rest.chunks));
        counted = omega (arith, rest.counted, ap length b, length-append got (stream_of r));
      }

  after_read-Copies :
      (w : Writer) (total : ℕ) (r0 : List Event) (c : Copied)
      (x : List ℕ × Option IoError × List Event)
      → x.1 ≡ none
      → IsQuiet x.2
      → length x.0 ≤ data_chunk_size
      → x.0 ++ stream_of x.2 ≡ stream_of r0
      → after_read next w total x ≡ some c
      → c.error ≡ none
      → Copies w r0 total c
  unfolding after_read
  after_read-Copies w total r0 c (got, some e, r) z q l b h n = cc
  after_read-Copies w total r0 c ([], none, r) z q l b h n =
      let rest : Copies w r total c = good w r total c q h n in
      record {
        chunks = rest.chunks;
        good = rest.good;
        all_bytes = rest.all_bytes ∙ b;
        sent = rest.sent;
        counted = omega (arith, rest.counted, ap length b);
      }
  after_read-Copies w total r0 c (d ∷ ds, none, r) z q l b h n =
      after_write-Copies w total (d ∷ ds) r r0 c (write_full w (data_frame (d ∷ ds))) (omega arith)
        q b (write_full_ok w (data_frame (d ∷ ds))) h n

Copies-end :
    (w : Writer) (r : List Event) (total : ℕ)
    → stream_of r ≡ []
    → Copies w r total (ended total eof w)
Copies-end w r total e = record {
  chunks = [];
  good = tt;
  all_bytes = sym e;
  sent = sym (append-nil w.sent);
  counted = omega (arith, ap length e);
}

copy_loop-Copies : (fuel : ℕ) → Good (copy_loop fuel)
unfolding copy_loop after_read
copy_loop-Copies zero w r total c q h n = cc
copy_loop-Copies (suc fuel) w r total c q h n = elim (read-IsQuiet_cases r data_chunk_size q) [
  | inl (e, q') ↦
      after_read-Copies (copy_loop fuel) (copy_loop-Copies fuel) w total r c
        (read r data_chunk_size) e q' (length-read r data_chunk_size)
        (read-stream_of r data_chunk_size) h n
  | inr (empty, e) ↦
      subst (Copies w r total) (some_inj (ap (after_read (copy_loop fuel) w total) (sym e) ∙ h))
        (Copies-end w r total empty)
]

-- The outcome of a copy and its closing frame.
close_after_ok :
    (w : Writer) (r : List Event) (c : Copied)
    → ((c.error ≡ none) → Copies w r 0 c)
    → (close_after c).0 ≡ none
    → Copies w r 0 c × ((close_after c).1.sent ≡ c.writer.sent ++ encode_header type_half_close 0 0)
unfolding close_after
close_after_ok w r c k e = elim (Option-cases c.error) [
  | inl n ↦ (
    k n,
    rw (n, close_after)
        ((write_frame_ok c.writer type_half_close 0 [] (rw (n, close_after) at e)).1
          ∙ ap (◌++◌ c.writer.sent) (append-nil (encode_header type_half_close 0 0))),
  )
  | inr (x, n) ↦ cc (rw (n, close_after) at e)
]

-- Where the copy of a source whose connection reports no error before its end is itself reported
-- without an error, the peer was sent all bytes of the source as DATA frames within the limit, and
-- a HALF_CLOSE behind them.
pub copy_and_close_ok :
    (fuel : ℕ) (w w' : Writer) (r : List Event)
    → IsQuiet r
    → copy_as_data_frames_and_close fuel w r ≡ some (none, w')
    → (chunks : List (List ℕ)) × All IsChunk chunks
      × (join chunks ≡ stream_of r)
      × (w'.sent ≡ w.sent ++ (wire chunks ++ encode_header type_half_close 0 0))
unfolding copy_as_data_frames_and_close
copy_and_close_ok fuel w w' r q h = elim (Option-cases (copy_loop fuel w r 0)) [
  | inl n ↦ cc (rw (n, copy_as_data_frames_and_close) at h)
  | inr (c, n) ↦
      let e : close_after c ≡ (none, w') = some_inj (rw (n, copy_as_data_frames_and_close) at h) in
      let (copies, closed) =
        close_after_ok w r c (copy_loop-Copies fuel w r 0 c q n) (ap (λ t. t.0) e) in
      (
        copies.chunks,
        copies.good,
        copies.all_bytes,
        ap (λ t. t.1.sent) (sym e)
            ∙ closed
            ∙ ap (λ t. t ++ encode_header type_half_close 0 0) copies.sent
            ∙ append_assoc w.sent (wire copies.chunks) (encode_header type_half_close 0 0),
      )
]
