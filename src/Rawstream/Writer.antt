-- ===== src/Rawstream/Writer.antt =====
-- `FramedWriter` of internal/rawstream/stream.go: records that grow with the burst, coalesced from
-- the slices of a batch, and flushed when enough is sealed.
pub mod Cuts
pub mod Laws
pub mod Returns
use chitanda.Base.{
  ltb, leb, ◌==◌, if◌then◌else◌, bytes_eq, bytes_eq→eq, bytes_eq_self, ltb→lt, lt→ltb, leb→le,
  le→leb, lt→leb, le→ltb, ==_iff, Bool-cases, Option-cases, some_inj, length, get_or, set, take,
  drop, replicate, All, All-take, All-drop, slice_at, length-append, length-set, get_or-set_self,
  get_or-set_ne, length-replicate, get_or-replicate, take-append-drop, length-take, length-drop,
  take-append_exact, drop-append_exact, take-nil, take-add, drop-nil, drop-drop, All-append, ℕ,
  zero, suc, ◌+◌, ◌-◌, ◌*◌, ◌/◌, ◌%◌, ◌^◌, ◌≤◌, ◌<◌, min, max, bit_and, bit_or, bit_xor, ◌≡◌, refl,
  sym, ap, ap₂, ◌∙◌, ◌≢◌, ◌↔◌, ◌⊎◌, inl, inr, Bool, true, false, not, ◌&&◌, ◌||◌, Option, none,
  some, List, [], ◌∷◌, ◌++◌, map, append-nil, append_assoc, arith,
}
use chitanda.Io.{IoError, closed_pipe, short_write, Writer, write}
use chitanda.Rawstream.Chunk.{ChunkError, AeadStream, max_chunk_payload_len, encrypt_chunk}

abbrev pub min_record_payload_len : ℕ
min_record_payload_len = 1380

abbrev pub mid_record_payload_len : ℕ
mid_record_payload_len = 8192

abbrev pub max_batch_flush_len : ℕ
max_batch_flush_len = 128 * 1024

abbrev pub phase1_threshold : ℕ
phase1_threshold = 128 * 1024

abbrev pub phase2_threshold : ℕ
phase2_threshold = 1024 * 1024

abbrev pub idle_reset_threshold : ℕ
idle_reset_threshold = 10 ^ 9

pub data WriteError : Type 0 where
  io : IoError → WriteError
  chunk : ChunkError → WriteError

-- `last_write` is nothing before the first write; times are in nanoseconds.
pub record FramedWriter : Type 0 where
  pub w : Writer
  pub stream : AeadStream
  pub buf : List ℕ
  pub burst_bytes : ℕ
  pub last_write : Option ℕ
  pub closed : Bool

abbrev pub new_framed_writer : Writer → AeadStream → FramedWriter
new_framed_writer w s = record {
  w = w;
  stream = s;
  buf = [];
  burst_bytes = 0;
  last_write = none;
  closed = false;
}

-- `burstBytes < threshold` for an int64.
abbrev is_below : ℕ → ℕ → Bool
is_below burst threshold = leb (2 ^ 63) burst || ltb burst threshold

-- (maxChunk, flushThreshold)
unfoldable pub phase : ℕ → ℕ × ℕ
phase burst =
    if is_below burst phase1_threshold
    then (min_record_payload_len, 0)
    else if is_below burst phase2_threshold
    then (mid_record_payload_len, mid_record_payload_len)
    else (max_chunk_payload_len, max_batch_flush_len)

-- What (index, offset) have not passed of `buffers` is a list of slices, the first cut short. The
-- loop that fills `plain` takes from it while there is room.
unfoldable pub coalesce : ℕ → List (List ℕ) → List ℕ × List (List ℕ)
coalesce room [] = ([], [])
coalesce room (part ∷ parts) =
    let (more, rest) = coalesce (room - length part) parts in
    if room == 0
    then ([], part ∷ parts)
    else if leb (length part) room
    then (part ++ more, rest)
    else (take room part, drop room part ∷ parts)

unfoldable pub next_chunk : ℕ → List ℕ → List (List ℕ) → List ℕ × List (List ℕ)
next_chunk max_chunk p rest =
    if ltb (length p) max_chunk && ltb 0 (length rest)
    then coalesce max_chunk (p ∷ rest)
    else (take max_chunk p, drop max_chunk p ∷ rest)

abbrev pub after_flush : FramedWriter → ℕ × Option IoError × Writer → Option IoError × FramedWriter
after_flush fw (n, some e, w) = (some e, record fw { w = w; closed = true })
after_flush fw (n, none, w) =
    if n == length fw.buf
    then (none, record fw { w = w })
    else (some short_write, record fw { w = w; closed = true })

unfoldable pub flush : FramedWriter → Option IoError × FramedWriter
flush fw = after_flush fw (write fw.w fw.buf)

-- A batch under way: the plaintext flushed, and sealed but not flushed.
pub record Progress : Type 0 where
  pub fw : FramedWriter
  pub total : ℕ
  pub unflushed : ℕ

-- What `WriteBatch` returns, beside the writer.
abbrev pub BatchResult : Type 0
BatchResult = ℕ × Option WriteError × FramedWriter

abbrev pub flushed : Progress → Option IoError × FramedWriter → BatchResult ⊎ Progress
flushed b (some e, fw) = inl (b.total, some (io e), fw)
flushed b (none, fw) =
    inr (record { fw = record fw { buf = [] }; total = b.total + b.unflushed; unflushed = 0 })

abbrev pub flush_if : Bool → Progress → BatchResult ⊎ Progress
flush_if enough b = if enough then flushed b (flush b.fw) else inr b

abbrev pub sealed : Progress → ℕ → ℕ → (ChunkError ⊎ List ℕ) × AeadStream → BatchResult ⊎ Progress
sealed b size threshold (inl e, s) =
    inl (b.total, some (chunk e), record (b.fw) { buf = []; stream = s })
sealed b size threshold (inr buf, s) =
    let burst = (b.fw.burst_bytes + size) % 2 ^ 64 in
    flush_if (threshold == 0 || leb threshold (length buf)) (record {
      fw = record (b.fw) { buf = buf; stream = s; burst_bytes = burst };
      total = b.total;
      unflushed = b.unflushed + size;
    })

-- A round of the loop with the chunk it took.
unfoldable pub send_chunk : Progress → List ℕ → BatchResult ⊎ Progress
send_chunk b plain =
    sealed b (length plain) (phase b.fw.burst_bytes).1 (encrypt_chunk b.fw.stream b.fw.buf plain)

abbrev pub finished : BatchResult ⊎ Progress → BatchResult
finished (inl r) = r
finished (inr b) = (b.total, none, b.fw)

-- The loop; `none` means that the fuel ran out. A round takes a byte or drops an empty slice.
unfoldable pub batch_loop : ℕ → Progress → List (List ℕ) → Option BatchResult
batch_loop fuel b [] = some (finished (flush_if (ltb 0 (length b.fw.buf)) b))
batch_loop zero b (p ∷ ps) = none
batch_loop (suc fuel) b ([] ∷ ps) = batch_loop fuel b ps
batch_loop (suc fuel) b ((x ∷ p) ∷ ps) =
    let (plain, rest) = next_chunk (phase b.fw.burst_bytes).0 (x ∷ p) ps in
    elim (send_chunk b plain) [ inl r ↦ some r | inr b' ↦ batch_loop fuel b' rest ]

abbrev pub rounds : List (List ℕ) → ℕ
rounds [] = 0
rounds (p ∷ ps) = suc (length p + rounds ps)

abbrev pub burst_at : FramedWriter → ℕ → ℕ
burst_at fw now = elim fw.last_write [
  | none ↦ fw.burst_bytes
  | some t ↦ if ltb idle_reset_threshold (now - t) then 0 else fw.burst_bytes
]

unfoldable pub write_batch : FramedWriter → ℕ → List (List ℕ) → Option BatchResult
write_batch fw now buffers =
    let started = record fw { buf = []; last_write = some now; burst_bytes = burst_at fw now } in
    if fw.closed
    then some (0, some (io closed_pipe), fw)
    else batch_loop (rounds buffers) (record { fw = started; total = 0; unflushed = 0 }) buffers

abbrev pub after_eof :
    FramedWriter → (ChunkError ⊎ List ℕ) × AeadStream → Option WriteError × FramedWriter
after_eof fw (inl e, s) = (some (chunk e), record fw { buf = []; stream = s })
after_eof fw (inr buf, s) =
    let (error, fw') = flush (record fw { buf = buf; stream = s }) in
    (elim error [ none ↦ none | some e ↦ some (io e) ], fw')

unfoldable pub write_eof : FramedWriter → Option WriteError × FramedWriter
write_eof fw =
    if fw.closed
    then (none, fw)
    else after_eof (record fw { closed = true }) (encrypt_chunk fw.stream [] [])
