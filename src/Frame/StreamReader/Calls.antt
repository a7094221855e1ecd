-- ===== src/Frame/StreamReader/Calls.antt =====
-- Each call of `Read` on such a connection, and a reader that calls it to the end.
use chitanda.Base.{
  ℕ, zero, suc, ◌^◌, ◌≤◌, ◌<◌, ◌≡◌, refl, sym, ap, ◌∙◌, arith, Option, none, some, List, [], ◌∷◌,
  ◌++◌, append_assoc, length, length-append, All, ◌⊎◌, inl, inr,
}
use chitanda.Io.{Event, IoError, eof, read}
use chitanda.Io.Read.{
  stream_of, read-stream_of, length-read, IsQuiet, read-IsQuiet, append_prefix, weight, read-weight,
}
use chitanda.Frame.Wire.{wire, join, IsChunk}
use chitanda.Frame.StreamReader.{
  StreamReader, StreamError, io, done, again, body_size, less_remaining, after_body, read_body,
  read_head, read_loop, stream_read, new_stream_reader,
}
use chitanda.Frame.StreamReader.Delivery.{At, closing, read_head_data, read_head_close}

-- What a call hands over: some bytes of what is still to come, and a reader at the rest.
pub record Moves (s : StreamReader) (front : List ℕ) (chunks : List (List ℕ)) (tail got : List ℕ)
    (s' : StreamReader) : Type 0 where
  pub front' : List ℕ
  pub chunks' : List (List ℕ)
  pub at' : At s' front' chunks' tail
  pub order : got ++ (front' ++ join chunks') ≡ front ++ join chunks
  pub lighter : weight s'.source < weight s.source

after_body_quiet :
    (s : StreamReader) (r : List ℕ × Option IoError × List Event)
    → r.1 ≡ none
    → after_body s r ≡ done r.0 none (record s { source = r.2; remaining = less_remaining s r.0 })
unfolding after_body
after_body_quiet s (got, none, rest) e = refl
after_body_quiet s (got, some x, rest) e = cc

read_body-Moves :
    (s : StreamReader) (n : ℕ) (front : List ℕ) (chunks : List (List ℕ)) (tail : List ℕ)
    → 0 < n
    → n < 2 ^ 32
    → 0 < length front
    → At s front chunks tail
    → (got : List ℕ) × (s' : StreamReader) × (read_body s n ≡ done got none s')
      × Moves s front chunks tail got s'
unfolding read_body
read_body-Moves s n front chunks tail hn hm hf at =
    let k : ℕ = body_size s n in
    let got : List ℕ = (read s.source k).0 in
    let rest : List Event = (read s.source k).2 in
    let long : 0 < length (stream_of s.source) =
      omega (arith, ap length at.bytes, length-append front (wire chunks ++ (closing ++ tail))) in
    let sized : (0 < k) × (k ≤ length front) = ground (arith, at.left) in
    let calm : ((read s.source k).1 ≡ none) × IsQuiet rest =
      read-IsQuiet s.source k at.quiet long in
    let (front', p, q) =
      append_prefix got (stream_of rest) front (wire chunks ++ (closing ++ tail))
        (omega (arith, length-read s.source k, sized)) (read-stream_of s.source k ∙ at.bytes) in
    let s' : StreamReader = record s { source = rest; remaining = less_remaining s got } in
    (
      got,
      s',
      after_body_quiet s (read s.source k) calm.0,
      record {
        front' = front';
        chunks' = chunks;
        at' = record {
          open_ = at.open_;
          fresh = at.fresh;
          left = omega (arith, at.left, at.front_small, ap length p, length-append got front');
          quiet = calm.1;
          bytes = q;
          front_small = omega (arith, at.front_small, ap length p, length-append got front');
          chunks_good = at.chunks_good;
        };
        order = sym (append_assoc got front' (join chunks)) ∙ ap (λ t. t ++ join chunks) p;
        lighter = read-weight s.source k sized.0 long;
      },
    )

-- The loop from inside a payload: one more round.
read_loop_body :
    (fuel : ℕ) (s s' : StreamReader) (n : ℕ) (got : List ℕ)
    → s.terminal ≡ none
    → 0 < s.remaining
    → read_body s n ≡ done got none s'
    → read_loop (suc fuel) s n ≡ some (got, none, s')
unfolding read_loop
read_loop_body fuel s s' n got t h e = ground arith

read_loop_head :
    (fuel : ℕ) (s s' : StreamReader) (n : ℕ)
    → s.terminal ≡ none
    → s.remaining ≡ 0
    → read_head s ≡ again s'
    → read_loop (suc fuel) s n ≡ read_loop fuel s' n
unfolding read_loop
read_loop_head fuel s s' n t h e = ground arith

read_loop_end :
    (fuel : ℕ) (s : StreamReader) (n : ℕ) (x : StreamError)
    → s.terminal ≡ some x
    → read_loop (suc fuel) s n ≡ some ([], some x, s)
unfolding read_loop
read_loop_end fuel s n x t = ground arith

-- The outcomes of a call: bytes, or EOF where nothing is left.
abbrev pub Delivered : StreamReader → ℕ → List ℕ → List (List ℕ) → List ℕ → Type 0
Delivered s n front chunks tail =
    ((got : List ℕ) × (s' : StreamReader) × (stream_read s n ≡ some (got, none, s'))
      × Moves s front chunks tail got s')
    ⊎ ((s' : StreamReader) × (stream_read s n ≡ some ([], some (io eof), s'))
        × (front ++ join chunks ≡ []))

-- From where the frames begin, and from inside a payload, a call with room for a byte delivers the
-- next bytes, and EOF exactly where none are left.
pub stream_read_delivers :
    (s : StreamReader) (n : ℕ) (front : List ℕ) (chunks : List (List ℕ)) (tail : List ℕ)
    → suc n < 2 ^ 32
    → At s front chunks tail
    → Delivered s (suc n) front chunks tail
unfolding stream_read
stream_read_delivers s n (b ∷ bs) chunks tail hm at =
    let (got, s', e, m) =
      read_body-Moves s (suc n) (b ∷ bs) chunks tail (omega arith) hm (omega arith) at in
    inl (got, s', read_loop_body 2 s s' (suc n) got at.open_ (omega (arith, at.left)) e, m)
stream_read_delivers s n [] (c ∷ cs) tail hm at =
    let (s1, e1, at1, light) = read_head_data s c cs tail at in
    let (got, s', e, m) =
      read_body-Moves s1 (suc n) c cs tail (omega arith) hm at.chunks_good.0.0 at1 in
    inl (
      got,
      s',
      read_loop_head 2 s s1 (suc n) at.open_ at.left e1
          ∙ read_loop_body 1 s1 s' (suc n) got at1.open_
              (omega (arith, at1.left, at.chunks_good.0.0)) e,
      record {
        front' = m.front';
        chunks' = m.chunks';
        at' = m.at';
        order = m.order;
        lighter = omega (arith, m.lighter, light);
      },
    )
stream_read_delivers s n [] [] tail hm at =
    let (s1, e1, t1) = read_head_close s tail at in
    inr (
      s1,
      read_loop_head 2 s s1 (suc n) at.open_ at.left e1 ∙ read_loop_end 1 s1 (suc n) (io eof) t1,
      refl,
    )

-- A caller that reads with a buffer of `n` bytes up to the first error; `none` if the fuel runs
-- out.
abbrev with_more : List ℕ → Option (List ℕ × StreamError) → Option (List ℕ × StreamError)
with_more got none = none
with_more got (some (bytes, e)) = some (got ++ bytes, e)

unfoldable pub read_all : ℕ → StreamReader → ℕ → Option (List ℕ × StreamError)
read_all zero s n = none
read_all (suc fuel) s n = elim (stream_read s n) [
  | none ↦ none
  | some (got, some e, s') ↦ some (got, e)
  | some (got, none, s') ↦ with_more got (read_all fuel s' n)
]

read_all-At :
    (fuel : ℕ) (s : StreamReader) (n : ℕ) (front : List ℕ) (chunks : List (List ℕ)) (tail : List ℕ)
    → suc n < 2 ^ 32
    → weight s.source < fuel
    → At s front chunks tail
    → read_all fuel s (suc n) ≡ some (front ++ join chunks, io eof)
unfolding read_all
read_all-At zero s n front chunks tail hm hw at = absurd (omega arith)
read_all-At (suc fuel) s n front chunks tail hm hw at =
    elim (stream_read_delivers s n front chunks tail hm at) [
      | inl (got, s', e, m) ↦
          rw (e, read_all)
            (rw (read_all-At fuel s' n m.front' m.chunks' tail hm (omega (arith, m.lighter)) m.at')
              (ap (λ t. some (t, io eof)) m.order))
      | inr (s', e, z) ↦ rw (e, read_all) (ap (λ t. some (t, io eof)) (sym z))
    ]

-- A connection that carries the DATA frames of `chunks` and a HALF_CLOSE, cut into reads in any
-- way, is read as the joined chunks and then EOF, with any size of buffer; the calls end.
pub read_all-wire :
    (chunks : List (List ℕ)) (r : List Event) (tail : List ℕ) (n fuel : ℕ)
    → All IsChunk chunks
    → IsQuiet r
    → stream_of r ≡ wire chunks ++ (closing ++ tail)
    → suc n < 2 ^ 32
    → weight r < fuel
    → read_all fuel (new_stream_reader r) (suc n) ≡ some (join chunks, io eof)
read_all-wire chunks r tail n fuel good q e hm hw =
    read_all-At fuel (new_stream_reader r) n [] chunks tail hm hw (record {
      open_ = refl;
      fresh = refl;
      left = refl;
      quiet = q;
      bytes = e;
      front_small = omega arith;
      chunks_good = good;
    })
