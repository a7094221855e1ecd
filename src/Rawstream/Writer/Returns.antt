-- ===== src/Rawstream/Writer/Returns.antt =====
-- What WriteBatch returns on any connection.
use chitanda.Base.{
  length, All, ℕ, ◌+◌, ◌≤◌, ◌≡◌, ◌⊎◌, inl, inr, true, false, none, some, List, ◌++◌,
}
use chitanda.Io.{IoError, Writer}
use chitanda.Frame.Wire.{join}
use chitanda.Rawstream.Chunk.{sequence_exhausted, AeadStream}
use chitanda.Rawstream.Chunk.Laws.{IsChunk, wire}
use chitanda.Rawstream.Writer.{FramedWriter, Progress, BatchResult, io, chunk}
use chitanda.Rawstream.Writer.Laws.{after}

-- A batch of `whole` bytes that ended early: at a failed or short write, which closes the writer, or
-- where no nonce is left.
pub data IsEarly (whole : ℕ) (result : BatchResult) : Type 0 where
  broken :
      (n : ℕ) (e : IoError) (fw : FramedWriter)
      → result ≡ (n, some (io e), fw)
      → n ≤ whole
      → fw.closed ≡ true
      → IsEarly whole result
  exhausted :
      (n : ℕ) (fw : FramedWriter)
      → result ≡ (n, some (chunk sequence_exhausted), fw)
      → n ≤ whole
      → IsEarly whole result

-- `plain` is on the wire behind `out`: the records of chunks that join to it, under the consecutive
-- nonces of `s`.
pub record Delivered (s : AeadStream) (out plain : List ℕ) (fw' : FramedWriter) : Type 0 where
  pub chunks : List (List ℕ)
  pub order : join chunks ≡ plain
  pub good : All IsChunk chunks
  pub sent : fw'.w.sent ≡ out ++ wire s.aead s.sequence chunks
  pub stream_is : fw'.stream ≡ after s (length chunks)
  pub open_ : fw'.closed ≡ false

-- How a batch of `whole` bytes ends, of which `plain` was not sealed yet when `out` was.
pub data Ends (whole : ℕ) (s : AeadStream) (out plain : List ℕ) (result : BatchResult)
    : Type 0 where
  all_sent :
      (fw : FramedWriter)
      → result ≡ (whole, none, fw)
      → Delivered s out plain fw
      → Ends whole s out plain result
  early : IsEarly whole result → Ends whole s out plain result

-- What is sealed was sent, or is in the buffer.
record Held (b : Progress) (out : List ℕ) (s : AeadStream) : Type 0 where
  out_is : b.fw.w.sent ++ b.fw.buf ≡ out
  stream_is : b.fw.stream ≡ s
  pending : b.unflushed ≤ length b.fw.buf
  open_ : b.fw.closed ≡ false

-- A round ends the batch, or leaves all plaintext accounted for.
data Round (whole : ℕ) (out : List ℕ) (s : AeadStream) (result : BatchResult ⊎ Progress)
    : Type 0 where
  stops : (r : BatchResult) → result ≡ inl r → IsEarly whole r → Round whole out s result
  goes :
      (b : Progress)
      → result ≡ inr b
      → b.total + b.unflushed ≡ whole
      → Held b out s
      → Round whole out s result
