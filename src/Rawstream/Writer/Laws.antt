-- ===== src/Rawstream/Writer/Laws.antt =====
-- On a connection that takes every byte, what a batch puts on the wire.
use chitanda.Base.{
  nil_of, ltb, leb, ◌==◌, if◌then◌else◌, Bool-cases, length, All, length-append, ℕ, zero, suc, ◌+◌,
  ◌%◌, ◌^◌, ◌≤◌, ◌<◌, ◌≡◌, refl, sym, ap, ◌∙◌, ◌⊎◌, inl, inr, Bool, true, false, ◌||◌, none, some,
  List, [], ◌∷◌, ◌++◌, append-nil, append_assoc, arith,
}
use chitanda.Io.{closed_pipe, write}
use chitanda.Frame.Wire.{join}
use mathlib.Core.Path.{subst}
use chitanda.Rawstream.Chunk.{AeadStream, max_uint64, encrypt_chunk}
use chitanda.Rawstream.Chunk.Laws.{
  IsPlain, IsChunk, record_of, wire, encrypt_chunk-record_of, length-record_of,
}
use chitanda.Rawstream.Writer.{
  FramedWriter, Progress, BatchResult, phase, next_chunk, flush, flushed, flush_if, sealed,
  send_chunk, finished, batch_loop, rounds, burst_at, write_batch, write_eof, after_eof, io,
}
use chitanda.Rawstream.Writer.Cuts.{next_chunk-Takes, phase-bounds}

-- What is sealed is sent or in the buffer; the connection has no failure in store.
pub record Under (b : Progress) (out : List ℕ) (s : AeadStream) : Type 0 where
  pub calm : b.fw.w.script ≡ []
  pub out_is : b.fw.w.sent ++ b.fw.buf ≡ out
  pub stream_is : b.fw.stream ≡ s
  pub pending : b.unflushed ≤ length b.fw.buf
  pub open_ : b.fw.closed ≡ false

-- A round left `b'`, with `more` bytes of plaintext accounted for.
abbrev Goes : Progress → BatchResult ⊎ Progress → ℕ → List ℕ → AeadStream → Type 0
Goes b result more out s =
    (b' : Progress) × (result ≡ inr b')
    × Under b' out s
    × (b'.total + b'.unflushed ≡ b.total + b.unflushed + more)

flush_calm :
    (fw : FramedWriter)
    → fw.w.script ≡ []
    → flush fw ≡ (none, record fw { w = record (fw.w) { sent = fw.w.sent ++ fw.buf } })
unfolding flush write
flush_calm fw h = rw h (ground arith)

flush_if-Goes :
    (enough : Bool) (b : Progress) (out : List ℕ) (s : AeadStream)
    → Under b out s
    → Goes b (flush_if enough b) 0 out s
flush_if-Goes false b out s u = (b, refl, u, omega arith)
flush_if-Goes true b out s u =
    let w' = record (b.fw.w) { sent = b.fw.w.sent ++ b.fw.buf } in
    (
      record {
        fw = record (b.fw) { w = w'; buf = [] };
        total = b.total + b.unflushed;
        unflushed = 0;
      },
      ap (flushed b) (flush_calm b.fw u.calm),
      record {
        calm = u.calm;
        out_is = append-nil (b.fw.w.sent ++ b.fw.buf) ∙ u.out_is;
        stream_is = u.stream_is;
        pending = omega arith;
        open_ = u.open_;
      },
      omega arith,
    )

abbrev pub after : AeadStream → ℕ → AeadStream
after s n = record s { sequence = s.sequence + n }

send_chunk-Goes :
    (b : Progress) (plain out : List ℕ) (s : AeadStream)
    → IsPlain plain
    → s.sequence < max_uint64
    → Under b out s
    → Goes b
        (send_chunk b plain)
        (length plain)
        (out ++ record_of s.aead s.sequence plain)
        (after s 1)
unfolding send_chunk
send_chunk-Goes b plain out s h k u =
    let buf = b.fw.buf ++ record_of s.aead s.sequence plain in
    let burst = (b.fw.burst_bytes + length plain) % 2 ^ 64 in
    let threshold = (phase b.fw.burst_bytes).1 in
    let next : Progress = record {
      fw = record (b.fw) { buf = buf; stream = after s 1; burst_bytes = burst };
      total = b.total;
      unflushed = b.unflushed + length plain;
    } in
    let u' : Under next (out ++ record_of s.aead s.sequence plain) (after s 1) = record {
      calm = u.calm;
      out_is =
          sym (append_assoc b.fw.w.sent b.fw.buf (record_of s.aead s.sequence plain))
          ∙ ap (λ t. t ++ record_of s.aead s.sequence plain) u.out_is;
      stream_is = refl;
      pending = omega (
        arith,
        u.pending,
        length-append b.fw.buf (record_of s.aead s.sequence plain),
        length-record_of s.aead s.sequence plain,
      );
      open_ = u.open_;
    } in
    let (b', e, v, c) =
      flush_if-Goes (threshold == 0 || leb threshold (length buf)) next _ (after s 1) u' in
    (
      b',
      ap (sealed b (length plain) threshold) (
            ap (λ t. encrypt_chunk t b.fw.buf plain) u.stream_is
            ∙ encrypt_chunk-record_of s b.fw.buf plain h k)
          ∙ e,
      v,
      omega (arith, c),
    )

-- The chunks of a batch that was sent whole, in their order.
pub record Sent (s : AeadStream) (out : List ℕ) (plain : List ℕ) (fw' : FramedWriter) : Type 0 where
  pub chunks : List (List ℕ)
  pub order : join chunks ≡ plain
  pub good : All IsChunk chunks
  pub sent : fw'.w.sent ≡ out ++ wire s.aead s.sequence chunks
  pub stream_is : fw'.stream ≡ after s (length chunks)
  pub calm : fw'.w.script ≡ []
  pub open_ : fw'.closed ≡ false

all_sent :
    (b : Progress) (fw' : FramedWriter) (out : List ℕ) (s : AeadStream)
    → Under b out s
    → fw'.w ≡ record (b.fw.w) { sent = b.fw.w.sent ++ b.fw.buf }
    → fw'.stream ≡ b.fw.stream
    → fw'.closed ≡ b.fw.closed
    → Sent s out [] fw'
all_sent b fw' out s u e f g = record {
  chunks = [];
  order = refl;
  good = tt;
  sent = ap (λ w. w.sent) e ∙ u.out_is ∙ sym (append-nil out);
  stream_is =
      f
      ∙ u.stream_is
      ∙ ap (λ k. record s { sequence = k }) {x = s.sequence} {y = s.sequence + 0} (omega arith);
  calm = ap (λ w. w.script) e ∙ u.calm;
  open_ = g ∙ u.open_;
}

finished-Sent :
    (b : Progress) (out : List ℕ) (s : AeadStream)
    → Under b out s
    → (fw' : FramedWriter) × (finished (flush_if (ltb 0 (length b.fw.buf)) b)
        ≡ (b.total + b.unflushed, none, fw'))
      × Sent s out [] fw'
finished-Sent b out s u = elim (Bool-cases (ltb 0 (length b.fw.buf))) [
  | inl e ↦
      let fw' = record (b.fw) {
        w = record (b.fw.w) { sent = b.fw.w.sent ++ b.fw.buf };
        buf = [];
      } in
      (
        fw',
        rw e (ap (λ t. finished (flushed b t)) (flush_calm b.fw u.calm)),
        all_sent b fw' out s u refl refl refl,
      )
  | inr e ↦
      let empty : b.fw.buf ≡ [] = nil_of b.fw.buf (ground arith) in
      (
        b.fw,
        rw e (
            ap (λ n. (n, none, b.fw)) {x = b.total} {y = b.total + b.unflushed}
              (omega (arith, u.pending, ap length empty))),
        all_sent b b.fw out s u
            (ap (λ t. record (b.fw.w) { sent = t })
              (sym (append-nil b.fw.w.sent) ∙ ap (◌++◌ b.fw.w.sent) (sym empty)))
            refl refl,
      )
]

after_chunk :
    (s : AeadStream) (out plain rest : List ℕ) (fw' : FramedWriter)
    → IsChunk plain
    → Sent (after s 1) (out ++ record_of s.aead s.sequence plain) rest fw'
    → Sent s out (plain ++ rest) fw'
after_chunk s out plain rest fw' h t = record {
  chunks = plain ∷ t.chunks;
  order = ap (◌++◌ plain) t.order;
  good = (h, t.good);
  sent =
      t.sent
      ∙ append_assoc out (record_of s.aead s.sequence plain)
          (wire s.aead (s.sequence + 1) t.chunks);
  stream_is =
      t.stream_is
      ∙ ap (λ k. record s { sequence = k }) {x = s.sequence + 1 + length t.chunks}
          {y = s.sequence + suc (length t.chunks)} (omega arith);
  calm = t.calm;
  open_ = t.open_;
}

-- A round whose chunk was taken.
pub batch_loop-next :
    (fuel x : ℕ) (b b' : Progress) (p : List ℕ) (ps : List (List ℕ))
    → send_chunk b (next_chunk (phase b.fw.burst_bytes).0 (x ∷ p) ps).0 ≡ inr b'
    → batch_loop (suc fuel) b ((x ∷ p) ∷ ps)
      ≡ batch_loop fuel b' (next_chunk (phase b.fw.burst_bytes).0 (x ∷ p) ps).1
unfolding batch_loop
batch_loop-next fuel x b b' p ps e = rw (e, batch_loop) refl

batch_loop-Sent :
    (fuel : ℕ) (b : Progress) (bufs : List (List ℕ)) (out : List ℕ) (s : AeadStream)
    → rounds bufs ≤ fuel
    → s.sequence + length (join bufs) < max_uint64
    → Under b out s
    → (fw' : FramedWriter) × (batch_loop fuel b bufs
        ≡ some (b.total + b.unflushed + length (join bufs), none, fw'))
      × Sent s out (join bufs) fw'
unfolding batch_loop
batch_loop-Sent fuel b [] out s h k u =
    let (fw', e, t) = finished-Sent b out s u in
    (
      fw',
      ap some (
          e
          ∙ ap (λ n. (n, none, fw')) {x = b.total + b.unflushed} {y = b.total + b.unflushed + 0}
              (omega arith)),
      t,
    )
batch_loop-Sent zero b (p ∷ ps) out s h k u = absurd (omega arith)
batch_loop-Sent (suc fuel) b ([] ∷ ps) out s h k u =
    batch_loop-Sent fuel b ps out s (omega arith) k u
batch_loop-Sent (suc fuel) b ((x ∷ p) ∷ ps) out s h k u =
    let bounds = phase-bounds b.fw.burst_bytes in
    let (takes, some_) =
      next_chunk-Takes (phase b.fw.burst_bytes).0 (x ∷ p) ps bounds.0 (omega arith) in
    let plain = (next_chunk (phase b.fw.burst_bytes).0 (x ∷ p) ps).0 in
    let rest = (next_chunk (phase b.fw.burst_bytes).0 (x ∷ p) ps).1 in
    let whole = ap length takes.order in
    let (b', e, u', c) =
      send_chunk-Goes b plain out s (omega (arith, takes.short, bounds)) (omega arith) u in
    let (fw', e', t) =
      batch_loop-Sent fuel b' rest (out ++ record_of s.aead s.sequence plain) (after s 1)
        (omega (arith, takes.progress, some_))
        (omega (arith, whole, length-append plain (join rest), some_)) u' in
    (
      fw',
      batch_loop-next fuel x b b' p ps e
          ∙ e'
          ∙ ap (λ n. some (n, none, fw')) {x = b'.total + b'.unflushed + length (join rest)}
              {y = b.total + b.unflushed + length (join ((x ∷ p) ∷ ps))}
              (omega (arith, c, whole, length-append plain (join rest))),
      subst (λ t. Sent s out t fw') takes.order
          (after_chunk s out plain (join rest) fw' (some_, omega (arith, takes.short, bounds)) t),
    )

-- WriteBatch of an open writer, on a connection that takes every byte, while the sequence number and
-- the bytes of the slices are below 2 ^ 64 - 1 together: no error, every byte of the slices counted,
-- and on the wire, after what was sent before, the records of chunks of 1 to 32768 bytes that join to
-- the slices, under the consecutive nonces from the stream's next one on.
pub write_batch-Sent :
    (fw : FramedWriter) (now : ℕ) (buffers : List (List ℕ))
    → fw.closed ≡ false
    → fw.w.script ≡ []
    → fw.stream.sequence + length (join buffers) < max_uint64
    → (fw' : FramedWriter) × (write_batch fw now buffers ≡ some (length (join buffers), none, fw'))
      × Sent fw.stream fw.w.sent (join buffers) fw'
unfolding write_batch
write_batch-Sent fw now buffers o calm k =
    let started = record fw { buf = []; last_write = some now; burst_bytes = burst_at fw now } in
    let (fw', e, t) =
      batch_loop-Sent (rounds buffers) (record { fw = started; total = 0; unflushed = 0 }) buffers
        fw.w.sent fw.stream (omega arith) k
        (record {
          calm = calm;
          out_is = append-nil fw.w.sent;
          stream_is = refl;
          pending = omega arith;
          open_ = o;
        }) in
    (
      fw',
      ap
            (λ c.
              if c
              then some (0, some (io closed_pipe), fw)
              else batch_loop (rounds buffers) (record { fw = started; total = 0; unflushed = 0 })
                  buffers)
            o
          ∙ e
          ∙ ap (λ n. some (n, none, fw')) {x = 0 + 0 + length (join buffers)}
              {y = length (join buffers)} (omega arith),
      t,
    )

-- WriteEOF on such a connection: a record of no bytes under the next nonce.
pub write_eof-record_of :
    (fw : FramedWriter)
    → fw.closed ≡ false
    → fw.w.script ≡ []
    → fw.stream.sequence < max_uint64
    → let (error, fw') = write_eof fw in
      (error ≡ none)
      × (fw'.closed ≡ true)
      × (fw'.w.sent ≡ fw.w.sent ++ record_of fw.stream.aead fw.stream.sequence [])
unfolding write_eof
write_eof-record_of fw o calm k =
    let box = record_of fw.stream.aead fw.stream.sequence [] in
    let closing = record fw { closed = true } in
    let full = record closing { buf = box; stream = after fw.stream 1 } in
    let q : write_eof fw ≡ (none, record full { w = record (fw.w) { sent = fw.w.sent ++ box } }) =
      ap (λ c. if c then (none, fw) else after_eof closing (encrypt_chunk fw.stream [] [])) o
      ∙ ap (after_eof closing) (encrypt_chunk-record_of fw.stream [] [] (omega arith) k)
      ∙ ap (λ f. (elim f.0 [ none ↦ none | some e ↦ some (io e) ], f.1)) (flush_calm full calm) in
    (ap (λ f. f.0) q, ap (λ f. f.1.closed) q, ap (λ f. f.1.w.sent) q)
