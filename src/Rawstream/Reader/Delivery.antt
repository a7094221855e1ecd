-- ===== src/Rawstream/Reader/Delivery.antt =====
-- A reader that is called to the end of the stream, and tries again after a timeout.
use chitanda.Base.{
  length, take, drop, All, take-append-drop, length-drop, drop-drop, ℕ, zero, suc, ◌+◌, ◌≤◌, ◌<◌,
  ◌≡◌, refl, sym, ap, ◌∙◌, inr, false, none, some, List, [], ◌∷◌, ◌++◌, append_assoc, arith,
}
use mathlib.Core.Path.{subst}
use chitanda.Crypto.{Aead}
use chitanda.Io.{Event, eof, timeout}
use chitanda.Io.Read.{stream_of, weight}
use chitanda.Io.Patience.{IsPatient}
use chitanda.Frame.Wire.{join}
use chitanda.Rawstream.Chunk.{max_uint64}
use chitanda.Rawstream.Chunk.Laws.{IsPlain, IsChunk, len_of, record_of, wire}
use chitanda.Rawstream.Reader.{
  FramedReader, Answer, io, hand_over, after_open, read_record, framed_read,
}
use chitanda.Rawstream.Reader.Laws.{
  Stands, in_length, in_box, cost, moved, next_stream, waits, opens, read_record-Progresses,
}

-- The next plaintext, empty at the end of the stream, and the bytes behind its record.
abbrev pub lead : List (List ℕ) → List ℕ
lead [] = []
lead (c ∷ cs) = c

abbrev pub behind : Aead → ℕ → List (List ℕ) → List ℕ → List ℕ
behind a sequence [] tail = tail
behind a sequence (c ∷ cs) tail =
    record_of a (sequence + 1) (lead cs) ++ behind a (sequence + 1) cs tail

pub wire-lead :
    (a : Aead) (sequence : ℕ) (cs : List (List ℕ)) (tail : List ℕ)
    → wire a sequence cs ++ (record_of a (sequence + length cs) [] ++ tail)
      ≡ record_of a sequence (lead cs) ++ behind a sequence cs tail
wire-lead a sequence [] tail =
    ap (λ k. record_of a k [] ++ tail) {x = sequence + 0} {y = sequence} (omega arith)
wire-lead a sequence (c ∷ cs) tail =
    append_assoc (record_of a sequence c) (wire a (sequence + 1) cs) _
    ∙ ap (◌++◌ (record_of a sequence c)) (
        ap (λ k. wire a (sequence + 1) cs ++ (record_of a k [] ++ tail))
          {x = sequence + suc (length cs)} {y = sequence + 1 + length cs} (omega arith)
        ∙ wire-lead a (sequence + 1) cs tail)

-- The reader holds `pending`, and the records of `cs` and of the end are to come.
pub record At (fr : FramedReader) (pending : List ℕ) (cs : List (List ℕ)) (tail : List ℕ)
    : Type 0 where
  pub healthy : fr.fatal_err ≡ none
  pub going : fr.eof_reached ≡ false
  pub patient : IsPatient fr.r
  pub holds : drop fr.dec_off fr.dec_buf ≡ pending
  pub stands : Stands fr (lead cs) (behind fr.stream.aead fr.stream.sequence cs tail)
  pub good : All IsChunk cs
  pub nonces : fr.stream.sequence + length cs < max_uint64

-- What a call comes to.
pub data Delivered (fr : FramedReader) (pending : List ℕ) (cs : List (List ℕ)) (tail : List ℕ)
    (answer : Answer) : Type 0 where
  bytes :
      (got pending' : List ℕ) (cs' : List (List ℕ)) (fr' : FramedReader)
      → answer ≡ (got, none, fr')
      → At fr' pending' cs' tail
      → got ++ (pending' ++ join cs') ≡ pending ++ join cs
      → cost fr' + length pending' < cost fr + length pending
      → Delivered fr pending cs tail answer
  later :
      (pending' : List ℕ) (cs' : List (List ℕ)) (fr' : FramedReader)
      → answer ≡ ([], some (io timeout), fr')
      → At fr' pending' cs' tail
      → pending' ++ join cs' ≡ pending ++ join cs
      → cost fr' + length pending' < cost fr + length pending
      → Delivered fr pending cs tail answer
  ended :
      (fr' : FramedReader)
      → answer ≡ ([], some (io eof), fr')
      → pending ++ join cs ≡ []
      → Delivered fr pending cs tail answer

lead-IsPlain : (cs : List (List ℕ)) → All IsChunk cs → IsPlain (lead cs)
lead-IsPlain [] h = omega arith
lead-IsPlain (c ∷ cs) h = h.0.1

-- A call that finds decrypted bytes hands over the first of them.
framed_read_held :
    (fr : FramedReader) (n : ℕ) (b : ℕ) (bs : List ℕ)
    → drop fr.dec_off fr.dec_buf ≡ b ∷ bs
    → framed_read fr (suc n) ≡ hand_over fr (suc n)
unfolding framed_read
framed_read_held fr n b bs h = ground (arith, ap length h, length-drop fr.dec_off fr.dec_buf)

framed_read_next :
    (fr : FramedReader) (n : ℕ) (cs : List (List ℕ)) (tail : List ℕ)
    → At fr [] cs tail
    → framed_read fr (suc n) ≡ read_record (suc n) fr
unfolding framed_read
framed_read_next fr n cs tail at =
    ground (arith, ap length at.holds, length-drop fr.dec_off fr.dec_buf, at.healthy, at.going)

split_held :
    (fr : FramedReader) (n : ℕ) (held : List ℕ)
    → drop fr.dec_off fr.dec_buf ≡ held
    → hand_over fr (suc n)
      ≡ (take (suc n) held, none, record fr { dec_off = fr.dec_off + length (take (suc n) held) })
split_held fr n held h =
    ap (λ t. (take (suc n) t, none, record fr { dec_off = fr.dec_off + length (take (suc n) t) })) h

drop_taken : (n : ℕ) (xs : List ℕ) → drop (length (take n xs)) xs ≡ drop n xs
drop_taken zero xs = refl
drop_taken (suc n) [] = refl
drop_taken (suc n) (x ∷ xs) = drop_taken n xs

keep-Stands :
    (fr : FramedReader) (off : ℕ) (c back : List ℕ)
    → Stands fr c back
    → Stands (record fr { dec_off = off }) c back
keep-Stands fr off c back (in_length rest h b s) = in_length rest h b s
keep-Stands fr off c back (in_box rest h b s) = in_box rest h b s

read_held :
    (fr : FramedReader) (n b : ℕ) (bs : List ℕ) (cs : List (List ℕ)) (tail : List ℕ)
    → At fr (b ∷ bs) cs tail
    → Delivered fr (b ∷ bs) cs tail (hand_over fr (suc n))
read_held fr n b bs cs tail at =
    let got = take (suc n) (b ∷ bs) in
    let fr' : FramedReader = record fr { dec_off = fr.dec_off + length got } in
    let at' : At fr' (drop (suc n) (b ∷ bs)) cs tail = record {
      healthy = at.healthy;
      going = at.going;
      patient = at.patient;
      holds =
          sym (drop-drop (length got) fr.dec_off fr.dec_buf)
          ∙ ap (drop (length got)) at.holds
          ∙ drop_taken (suc n) (b ∷ bs);
      stands =
          keep-Stands fr (fr.dec_off + length got) (lead cs)
            (behind fr.stream.aead fr.stream.sequence cs tail) at.stands;
      good = at.good;
      nonces = at.nonces;
    } in
    bytes got (drop (suc n) (b ∷ bs)) cs fr' (split_held fr n (b ∷ bs) at.holds) at'
      (sym (append_assoc got (drop (suc n) (b ∷ bs)) (join cs))
        ∙ ap (λ t. t ++ join cs) (take-append-drop (suc n) (b ∷ bs)))
      (omega (arith, length-drop (suc n) (b ∷ bs)))

-- The same step, for what the reader stood at before a record.
carry :
    (fr fr' : FramedReader) (pending pending' : List ℕ) (cs cs' : List (List ℕ)) (tail : List ℕ)
    (answer : Answer)
    → pending' ++ join cs' ≡ pending ++ join cs
    → cost fr' + length pending' ≤ cost fr + length pending
    → Delivered fr' pending' cs' tail answer
    → Delivered fr pending cs tail answer
carry fr fr' pending pending' cs cs' tail answer o w (bytes got p ds f e at o' w') =
    bytes got p ds f e at (o' ∙ o) (omega arith)
carry fr fr' pending pending' cs cs' tail answer o w (later p ds f e at o' w') =
    later p ds f e at (o' ∙ o) (omega arith)
carry fr fr' pending pending' cs cs' tail answer o w (ended f e z) = ended f e (sym o ∙ z)

-- The record was whole: the end, or a chunk of which the first bytes are handed over.
read_opened :
    (fr : FramedReader) (n : ℕ) (cs : List (List ℕ)) (tail : List ℕ) (r : List Event)
    (header body : List ℕ)
    → At fr [] cs tail
    → IsPatient r
    → stream_of r ≡ behind fr.stream.aead fr.stream.sequence cs tail
    → weight r + length (lead cs) + 18 ≤ cost fr
    → Delivered fr [] cs tail
        (after_open (suc n) (moved fr r header body) (inr (lead cs), next_stream fr.stream))
read_opened fr n [] tail r header body at p s w = ended _ refl refl
read_opened fr n ([] ∷ cs) tail r header body at p s w = absurd (omega (arith, at.good.0.0))
read_opened fr n ((b ∷ bs) ∷ cs) tail r header body at p s w =
    let fr' : FramedReader = record fr {
      r = r;
      stream = next_stream fr.stream;
      dec_buf = b ∷ bs;
      dec_off = 0;
      header = [];
      body = [];
    } in
    let at' : At fr' (b ∷ bs) cs tail = record {
      healthy = at.healthy;
      going = at.going;
      patient = p;
      holds = refl;
      stands = in_length (len_of (lead cs)) refl refl (s ∙ append_assoc (len_of (lead cs)) _ _);
      good = at.good.1;
      nonces = omega (arith, at.nonces);
    } in
    carry fr fr' [] (b ∷ bs) ((b ∷ bs) ∷ cs) cs tail _ refl (omega arith)
      (read_held fr' n b bs cs tail at')

read_fresh :
    (fr : FramedReader) (n : ℕ) (cs : List (List ℕ)) (tail : List ℕ)
    → At fr [] cs tail
    → Delivered fr [] cs tail (read_record (suc n) fr)
read_fresh fr n cs tail at =
    elim (read_record-Progresses (suc n) fr (lead cs)
      (behind fr.stream.aead fr.stream.sequence cs tail) (lead-IsPlain cs at.good)
      (omega (arith, at.nonces)) at.patient at.stands) [
        | waits r header body e st p w ↦
            later [] cs (moved fr r header body) e
              (record {
                healthy = at.healthy;
                going = at.going;
                patient = p;
                holds = at.holds;
                stands = st;
                good = at.good;
                nonces = at.nonces;
              })
              refl (omega arith)
        | opens r header body e p s w ↦
            subst (Delivered fr [] cs tail) (sym e)
              (read_opened fr n cs tail r header body at p s w)
      ]

-- From anywhere in the stream, a call with room for a byte hands over the next bytes, or reports a
-- timeout and loses nothing, or reports EOF where nothing is left.
pub framed_read_delivers :
    (fr : FramedReader) (n : ℕ) (pending : List ℕ) (cs : List (List ℕ)) (tail : List ℕ)
    → At fr pending cs tail
    → Delivered fr pending cs tail (framed_read fr (suc n))
framed_read_delivers fr n [] cs tail at =
    subst (Delivered fr [] cs tail) (sym (framed_read_next fr n cs tail at))
      (read_fresh fr n cs tail at)
framed_read_delivers fr n (b ∷ bs) cs tail at =
    subst (Delivered fr (b ∷ bs) cs tail) (sym (framed_read_held fr n b bs at.holds))
      (read_held fr n b bs cs tail at)
