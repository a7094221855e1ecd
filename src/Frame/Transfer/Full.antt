-- ===== src/Frame/Transfer/Full.antt =====
-- `writeFull` sends a prefix of its bytes, all of them if it reports no error; `WriteFrame` on top.
use chitanda.Base.{
  ℕ, zero, suc, ◌+◌, ◌≤◌, ◌≡◌, refl, sym, ap, ◌∙◌, arith, ◌==◌, Bool-cases, Option, none, some,
  Option-cases, List, [], ◌∷◌, ◌++◌, append_assoc, append-nil, length, length-drop, take, take-add,
  drop, inl, inr,
}
use chitanda.Io.{IoError, short_write, Writer, write}
use chitanda.Io.Write.{write-sent, take-length}
use chitanda.Frame.Header.{max_payload, encode_header}
use chitanda.Frame.Transfer.{write_loop, write_full, write_frame}

-- What was sent of `p`, and the error.
pub record Sent (w : Writer) (p : List ℕ) (error : Option IoError) (w' : Writer) : Type 0 where
  pub count : ℕ
  pub prefix : w'.sent ≡ w.sent ++ take count p
  pub within : count ≤ length p
  pub whole : error ≡ none → count ≡ length p

-- A first write of `n` bytes, and then the rest.
Sent-then :
    (w w' w'' : Writer) (p : List ℕ) (n : ℕ) (error : Option IoError)
    → w'.sent ≡ w.sent ++ take n p
    → n ≤ length p
    → Sent w' (drop n p) error w''
    → Sent w p error w''
Sent-then w w' w'' p n error e h s = record {
  count = n + s.count;
  prefix =
      s.prefix
      ∙ ap (λ t. t ++ take s.count (drop n p)) e
      ∙ append_assoc w.sent (take n p) (take s.count (drop n p))
      ∙ ap (◌++◌ w.sent) (take-add n s.count p);
  within = omega (arith, s.within, length-drop n p);
  whole = λ q. omega (arith, s.whole q, length-drop n p);
}

Sent-failed : (w : Writer) (p : List ℕ) (e : IoError) → Sent w p (some e) (write w p).2
Sent-failed w p e = record {
  count = (write w p).0;
  prefix = (write-sent w p).0;
  within = (write-sent w p).1;
  whole = λ h. cc;
}

write_loop-Sent :
    (fuel : ℕ) (w : Writer) (p : List ℕ)
    → length p ≤ fuel
    → Sent w p (write_loop fuel w p).0 (write_loop fuel w p).1
unfolding write_loop
write_loop-Sent fuel w [] h = record {
  count = 0;
  prefix = sym (append-nil w.sent);
  within = omega arith;
  whole = λ e. refl;
}
write_loop-Sent zero w (b ∷ bs) h = absurd (omega arith)
write_loop-Sent (suc fuel) w (b ∷ bs) h = elim (Option-cases (write w (b ∷ bs)).1) [
  | inr (e, q) ↦ rw (q, write_loop) (Sent-failed w (b ∷ bs) e)
  | inl q ↦ elim (Bool-cases ((write w (b ∷ bs)).0 == 0)) [
    | inl z ↦ rw (q, z, write_loop) (Sent-failed w (b ∷ bs) short_write)
    | inr z ↦
        rw (q, z, write_loop)
          (Sent-then w (write w (b ∷ bs)).2 _ (b ∷ bs) (write w (b ∷ bs)).0 _
            (write-sent w (b ∷ bs)).0 (write-sent w (b ∷ bs)).1
            (write_loop-Sent fuel (write w (b ∷ bs)).2 (drop (write w (b ∷ bs)).0 (b ∷ bs))
              (ground (arith, length-drop (write w (b ∷ bs)).0 (b ∷ bs)))))
  ]
]

-- `writeFull` ends, having sent a prefix of its bytes, and all of them if it reports no error.
pub write_full-Sent : (w : Writer) (p : List ℕ) → Sent w p (write_full w p).0 (write_full w p).1
unfolding write_full
write_full-Sent w p = write_loop-Sent (length p) w p (omega arith)

pub write_full_ok :
    (w : Writer) (p : List ℕ) → (write_full w p).0 ≡ none → (write_full w p).1.sent ≡ w.sent ++ p
write_full_ok w p e =
    let s : Sent w p (write_full w p).0 (write_full w p).1 = write_full-Sent w p in
    s.prefix ∙ ap (◌++◌ w.sent) (ap (λ k. take k p) (s.whole e) ∙ take-length p)

-- A frame that `WriteFrame` reports as written stands whole at the end of what was sent; one whose
-- payload is too large sends nothing.
pub write_frame_ok :
    (w : Writer) (k f : ℕ) (payload : List ℕ)
    → (write_frame w k f payload).0 ≡ none
    → (length payload ≤ max_payload)
      × ((write_frame w k f payload).1.sent
          ≡ w.sent ++ (encode_header k f (length payload) ++ payload))
unfolding write_frame
write_frame_ok w k f payload h =
    ground (arith, write_full_ok w (encode_header k f (length payload) ++ payload))
