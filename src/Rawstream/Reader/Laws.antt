-- ===== src/Rawstream/Reader/Laws.antt =====
-- How the reader gets through one record, whatever timeouts come in the middle of it.
use chitanda.Base.{
  nil_of, ltb, ltb→lt, Bool-cases, length, length-append, ℕ, ◌+◌, ◌-◌, ◌≤◌, ◌<◌, ◌≡◌, sym, ap, ◌∙◌,
  inl, inr, some, List, [], ◌++◌, append-nil, append_assoc, arith,
}
use chitanda.Base.Bytes.{uint_be, length-put_be}
use mathlib.Core.Path.{subst}
use chitanda.Io.{Event, timeout, read_full}
use chitanda.Io.Read.{stream_of, weight}
use chitanda.Io.Patience.{IsPatient, whole, partly, read_full_patiently}
use chitanda.Rawstream.Chunk.{AeadStream, max_uint64, decrypt_chunk}
use chitanda.Rawstream.Chunk.Laws.{
  IsPlain, len_of, box_of, length-box_of, uint_be-len_of, decrypt_chunk-box_of,
}
use chitanda.Rawstream.Reader.{
  FramedReader, Answer, io, after_open, after_chunk_body, read_chunk_body, after_length,
  read_record,
}

-- The reader stands inside the record of `c`, before `back`.
pub data Stands (fr : FramedReader) (c back : List ℕ) : Type 0 where
  in_length :
      (rest : List ℕ)
      → fr.header ++ rest ≡ len_of c
      → fr.body ≡ []
      → stream_of fr.r ≡ rest ++ (box_of fr.stream.aead fr.stream.sequence c ++ back)
      → Stands fr c back
  in_box :
      (rest : List ℕ)
      → fr.header ≡ len_of c
      → fr.body ++ rest ≡ box_of fr.stream.aead fr.stream.sequence c
      → stream_of fr.r ≡ rest ++ back
      → Stands fr c back

-- The reads and the bytes that a record under way still has or holds.
abbrev pub cost : FramedReader → ℕ
cost fr = weight fr.r + length fr.header + length fr.body

abbrev pub moved : FramedReader → List Event → List ℕ → List ℕ → FramedReader
moved fr r header body = record fr { r = r; header = header; body = body }

abbrev pub next_stream : AeadStream → AeadStream
next_stream s = record s { sequence = s.sequence + 1 }

-- What a read of a record comes to: a timeout, with the reader still inside the record, or the
-- plaintext.
pub data Progresses (n : ℕ) (fr : FramedReader) (c back : List ℕ) (answer : Answer) : Type 0 where
  waits :
      (r : List Event) (header body : List ℕ)
      → answer ≡ ([], some (io timeout), moved fr r header body)
      → Stands (moved fr r header body) c back
      → IsPatient r
      → cost (moved fr r header body) < cost fr
      → Progresses n fr c back answer
  opens :
      (r : List Event) (header body : List ℕ)
      → answer ≡ after_open n (moved fr r header body) (inr c, next_stream fr.stream)
      → IsPatient r
      → stream_of r ≡ back
      → weight r + length c + 18 ≤ cost fr
      → Progresses n fr c back answer

module _ (n : ℕ) (fr : FramedReader) (c back : List ℕ) (short : IsPlain c)
    (left : fr.stream.sequence < max_uint64) (patient : IsPatient fr.r) where
  abbrev box : List ℕ
  box = box_of fr.stream.aead fr.stream.sequence c

  sizes_pass :
      uint_be fr.header ≡ length c + 16
      → read_chunk_body n fr
        ≡ after_chunk_body n fr (read_full fr.r (uint_be fr.header - length fr.body))
  unfolding read_chunk_body
  sizes_pass e = ground arith

  read_chunk_body-Progresses :
      (rest : List ℕ)
      → fr.header ≡ len_of c
      → fr.body ++ rest ≡ box
      → stream_of fr.r ≡ rest ++ back
      → Progresses n fr c back (read_chunk_body n fr)
  read_chunk_body-Progresses rest h b e =
      let size : uint_be fr.header ≡ length c + 16 = ap uint_be h ∙ uint_be-len_of c short in
      let boxed = length-box_of fr.stream.aead fr.stream.sequence c in
      let parts = length-append fr.body rest in
      let two = ap length h ∙ length-put_be 2 (length c + 16) in
      let r' = (read_full fr.r (uint_be fr.header - length fr.body)).2 in
      let passed = sizes_pass size in
      elim (read_full_patiently (uint_be fr.header - length fr.body) fr.r rest back
        (omega (arith, size, boxed, parts, ap length b)) patient e) [
          | whole x p s w ↦
              opens r' fr.header box
                (passed
                  ∙ ap (after_chunk_body n fr) x
                  ∙ ap
                      (λ t.
                        after_open n (moved fr r' fr.header t)
                          (decrypt_chunk fr.stream [] t (uint_be fr.header)))
                      b
                  ∙ ap (after_open n (moved fr r' fr.header box))
                      (decrypt_chunk-box_of fr.stream c (uint_be fr.header) size left))
                p s (omega (arith, boxed, parts, two, ap length b, w))
          | partly got rest' x g p s w ↦
              waits r' fr.header (fr.body ++ got) (passed ∙ ap (after_chunk_body n fr) x)
                (in_box rest' h (append_assoc fr.body got rest' ∙ ap (◌++◌ fr.body) g ∙ b) s) p
                (omega (arith, length-append fr.body got, w))
        ]

-- A step made from a reader that has only read on.
carry :
    (n : ℕ) (fr : FramedReader) (c back : List ℕ) (r : List Event) (header : List ℕ)
    (answer : Answer)
    → cost (moved fr r header fr.body) ≤ cost fr
    → Progresses n (moved fr r header fr.body) c back answer
    → Progresses n fr c back answer
carry n fr c back r header answer h (waits r' header' body' e s p w) =
    waits r' header' body' e s p (omega arith)
carry n fr c back r header answer h (opens r' header' body' e p s w) =
    opens r' header' body' e p s (omega arith)

read_record_whole :
    (n : ℕ) (fr : FramedReader) → 2 ≤ length fr.header → read_record n fr ≡ read_chunk_body n fr
unfolding read_record
read_record_whole n fr h = ground arith

read_record_part :
    (n : ℕ) (fr : FramedReader)
    → length fr.header < 2
    → read_record n fr ≡ after_length n fr (read_full fr.r (2 - length fr.header))
unfolding read_record
read_record_part n fr h = ground arith

module _ (n : ℕ) (fr : FramedReader) (c back : List ℕ) (short : IsPlain c)
    (left : fr.stream.sequence < max_uint64) (patient : IsPatient fr.r) where
  length_comes :
      (rest : List ℕ)
      → length fr.header < 2
      → fr.header ++ rest ≡ len_of c
      → fr.body ≡ []
      → stream_of fr.r ≡ rest ++ (box n fr c back short left patient ++ back)
      → Progresses n fr c back (read_record n fr)
  length_comes rest l h b s =
      let two : length fr.header + length rest ≡ 2 =
        omega (arith, ap length h, length-append fr.header rest, length-put_be 2 (length c + 16)) in
      let full = read_full fr.r (2 - length fr.header) in
      let begun = read_record_part n fr l in
      elim (read_full_patiently (2 - length fr.header) fr.r rest
        (box n fr c back short left patient ++ back) (omega arith) patient s) [
          | whole x p q w ↦
              let fr' = moved fr full.2 (fr.header ++ rest) fr.body in
              let on =
                read_chunk_body-Progresses n fr' c back short left p
                  (box n fr c back short left patient) h
                  (ap (λ t. t ++ box n fr c back short left patient) b) q in
              subst (Progresses n fr c back) (sym (begun ∙ ap (after_length n fr) x)) (
                carry n fr c back full.2 (fr.header ++ rest) _
                  (omega (arith, w, length-append fr.header rest)) on)
          | partly got rest' x g p q w ↦
              waits full.2 (fr.header ++ got) fr.body (begun ∙ ap (after_length n fr) x)
                (in_length rest' (append_assoc fr.header got rest' ∙ ap (◌++◌ fr.header) g ∙ h) b q)
                p (omega (arith, length-append fr.header got, w))
        ]

  box_comes :
      (rest : List ℕ)
      → fr.header ≡ len_of c
      → fr.body ++ rest ≡ box n fr c back short left patient
      → stream_of fr.r ≡ rest ++ back
      → Progresses n fr c back (read_record n fr)
  box_comes rest h b s =
      subst (Progresses n fr c back)
        (sym (read_record_whole n fr (omega (arith, ap length h, length-put_be 2 (length c + 16)))))
        (read_chunk_body-Progresses n fr c back short left patient rest h b s)

  -- A read of a record from inside it: a timeout that loses nothing, or the plaintext.
  pub read_record-Progresses : Stands fr c back → Progresses n fr c back (read_record n fr)
  read_record-Progresses (in_box rest h b s) = box_comes rest h b s
  read_record-Progresses (in_length rest h b s) = elim (Bool-cases (ltb (length fr.header) 2)) [
    | inl l ↦ length_comes rest (ltb→lt (length fr.header) 2 l) h b s
    | inr l ↦
        let none_left = nil_of rest (
          ground
            (arith, ap length h, length-append fr.header rest, length-put_be 2 (length c + 16))) in
        box_comes (box n fr c back short left patient)
          (sym (append-nil fr.header) ∙ ap (◌++◌ fr.header) (sym none_left) ∙ h)
          (ap (λ t. t ++ box n fr c back short left patient) b)
          (s ∙ ap (λ t. t ++ (box n fr c back short left patient ++ back)) none_left)
  ]
