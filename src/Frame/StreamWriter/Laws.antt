-- ===== src/Frame/StreamWriter/Laws.antt =====
-- What a stream writer sends, and how it behaves after a failure and after its end.
use chitanda.Base.{
  ℕ, zero, suc, ◌+◌, ◌≤◌, ◌≡◌, refl, sym, ap, ◌∙◌, arith, false, Option, none, some, Option-cases,
  List, [], ◌∷◌, ◌++◌, append_assoc, append-nil, length, length-take, length-drop, take, drop, inl,
  inr,
}
use chitanda.Io.{IoError, Writer}
use chitanda.Frame.Header.{Error, type_data, encode_header}
use chitanda.Frame.Transfer.{write_full}
use chitanda.Frame.Transfer.Full.{write_full_ok}
use chitanda.Frame.Wire.{wire, chunks_of}
use chitanda.Frame.StreamWriter.{
  chunk_size, StreamWriter, write_chunks, after_chunks, stream_write, close_write,
}

-- The first frame of a buffer, and the writer after it.
abbrev first_frame : List ℕ → List ℕ
first_frame p = encode_header type_data 0 (chunk_size p) ++ take (chunk_size p) p

abbrev after_first : Writer → List ℕ → Writer
after_first w p = (write_full w (first_frame p)).1

write_chunks_step :
    (fuel : ℕ) (w : Writer) (b : ℕ) (bs : List ℕ) (n : ℕ)
    → (write_chunks (suc fuel) w (b ∷ bs) n).1 ≡ none
    → ((write_full w (first_frame (b ∷ bs))).0 ≡ none)
      × (write_chunks (suc fuel) w (b ∷ bs) n
          ≡ write_chunks fuel
              (after_first w (b ∷ bs))
              (drop (chunk_size (b ∷ bs)) (b ∷ bs))
              (n + chunk_size (b ∷ bs)))
unfolding write_chunks
write_chunks_step fuel w b bs n e = elim (Option-cases (write_full w (first_frame (b ∷ bs))).0) [
  | inl q ↦ (q, rw (q, write_chunks))
  | inr (x, q) ↦ cc (rw (q, write_chunks) at e)
]

write_chunks_ok :
    (fuel : ℕ) (w : Writer) (p : List ℕ) (n : ℕ)
    → length p ≤ fuel
    → (write_chunks fuel w p n).1 ≡ none
    → ((write_chunks fuel w p n).0 ≡ n + length p)
      × ((write_chunks fuel w p n).2.sent ≡ w.sent ++ wire (chunks_of fuel p))
unfolding write_chunks chunks_of
write_chunks_ok fuel w [] n h e = (omega arith, sym (append-nil w.sent))
write_chunks_ok zero w (b ∷ bs) n h e = absurd (omega arith)
write_chunks_ok (suc fuel) w (b ∷ bs) n h e =
    let p : List ℕ = b ∷ bs in
    let size : ℕ = chunk_size p in
    let step : ((write_full w (first_frame p)).0 ≡ none)
        × (write_chunks (suc fuel) w p n
            ≡ write_chunks fuel (after_first w p) (drop size p) (n + size)) =
      write_chunks_step fuel w b bs n e in
    let ih : ((write_chunks fuel (after_first w p) (drop size p) (n + size)).0
          ≡ n + size + length (drop size p))
        × ((write_chunks fuel (after_first w p) (drop size p) (n + size)).2.sent
            ≡ (after_first w p).sent ++ wire (chunks_of fuel (drop size p))) =
      write_chunks_ok fuel (after_first w p) (drop size p) (n + size)
        (omega (arith, length-drop size p)) (ap (λ r. r.1) (sym step.1) ∙ e) in
    rw step.1 (
      omega (arith, ih.0, length-drop size p),
      ih.1
          ∙ ap (λ t. t ++ wire (chunks_of fuel (drop size p)))
              (write_full_ok w (first_frame p) step.0)
          ∙ append_assoc w.sent (first_frame p) _
          ∙ ap (◌++◌ w.sent) (append_assoc (encode_header type_data 0 size) (take size p) _)
          ∙ ap
              (λ k.
                w.sent
                ++ (encode_header type_data 0 k
                    ++ (take size p ++ wire (chunks_of fuel (drop size p)))))
              {x = size} {y = length (take size p)} (omega (arith, length-take size p)),
    )

after_chunks-none :
    (s : StreamWriter) (r : ℕ × Option IoError × Writer)
    → (after_chunks s r).1 ≡ none
    → (r.1 ≡ none)
      × ((after_chunks s r).0 ≡ r.0)
      × ((after_chunks s r).2 ≡ record s { writer = r.2 })
after_chunks-none s (n, none, w) e = (refl, refl, refl)
after_chunks-none s (n, some x, w) e = cc

-- A Write that reports no error took the whole buffer, sent it as DATA frames, and left the writer
-- open; an open writer is one that neither failed nor was closed.
pub stream_write_ok :
    (s : StreamWriter) (p : List ℕ)
    → s.failed ≡ none
    → s.closed ≡ false
    → (stream_write s p).1 ≡ none
    → let (n, _, s') = stream_write s p in
      (n ≡ length p)
      × (s'.writer.sent ≡ s.writer.sent ++ wire (chunks_of (length p) p))
      × (s'.failed ≡ none)
      × (s'.closed ≡ false)
stream_write_ok s p hf hc e = rw whole (
  omega (arith, sent.0, parts.1),
  ap (λ t. t.writer.sent) parts.2 ∙ sent.1,
  ap (λ t. t.failed) parts.2 ∙ hf,
  ap (λ t. t.closed) parts.2 ∙ hc,
)
  where
    r : ℕ × Option IoError × Writer
    r = write_chunks (length p) s.writer p 0

    whole : stream_write s p ≡ after_chunks s r
    whole = unfold stream_write in rw (hf, hc)

    parts :
        (r.1 ≡ none)
        × ((after_chunks s r).0 ≡ r.0)
        × ((after_chunks s r).2 ≡ record s { writer = r.2 })
    parts = after_chunks-none s r (ap (λ t. t.1) (sym whole) ∙ e)

    sent : (r.0 ≡ 0 + length p) × (r.2.sent ≡ s.writer.sent ++ wire (chunks_of (length p) p))
    sent = write_chunks_ok (length p) s.writer p 0 (omega arith) parts.0

refuses :
    (s : StreamWriter) (q : List ℕ) (x : Error)
    → s.failed ≡ some x
    → (stream_write s q ≡ (0, some x, s)) × (close_write s ≡ (some x, s))
unfolding stream_write close_write
refuses s q x h = rw h (refl, refl)

-- A failure of the transport during a Write is final: whatever is written or closed later reports
-- the same error and sends nothing.
pub stream_write_failed :
    (s : StreamWriter) (p q : List ℕ) (x : Error)
    → s.failed ≡ none
    → s.closed ≡ false
    → (stream_write s p).1 ≡ some x
    → let s' = (stream_write s p).2 in
      (stream_write s' q ≡ (0, some x, s')) × (close_write s' ≡ (some x, s'))
stream_write_failed s p q x hf hc e = refuses (stream_write s p).2 q x failed
  where
    r : ℕ × Option IoError × Writer
    r = write_chunks (length p) s.writer p 0

    whole : stream_write s p ≡ after_chunks s r
    whole = unfold stream_write in rw (hf, hc)

    kept :
        (r : ℕ × Option IoError × Writer)
        → (after_chunks s r).1 ≡ some x
        → (after_chunks s r).2.failed ≡ some x
    kept (n, none, w) h = cc
    kept (n, some y, w) h = h

    failed : (stream_write s p).2.failed ≡ some x
    failed = ap (λ t. t.2.failed) whole ∙ kept r (ap (λ t. t.1) (sym whole) ∙ e)

-- `CloseWrite` closes for good: later it reports the same outcome and sends no second HALF_CLOSE,
-- and a Write sends nothing.
pub close_write_once :
    (s : StreamWriter) (q : List ℕ)
    → s.failed ≡ none
    → let s' = (close_write s).1 in
      (close_write s' ≡ ((close_write s).0, s'))
      × ((stream_write s' q).2 ≡ s')
      × ((stream_write s' q).0 ≡ 0)
unfolding close_write stream_write
close_write_once s q hf = ground arith
