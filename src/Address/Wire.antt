-- ===== src/Address/Wire.antt =====
-- A host, a port and a payload, one behind the other.
use chitanda.Base.{
  length, take, drop, slice_at, length-append, ℕ, ◌+◌, ◌<◌, ◌≡◌, ap, ◌∙◌, List, ◌++◌, arith,
}
use chitanda.Base.Bytes.{put_be, uint_be, length-put_be, uint_be-put_be}
use chitanda.Address.Laws.{Host, host_bytes}

module _ (port : ℕ) (port_small : port < 65536) (payload : List ℕ) where
  port_read : uint_be (put_be 2 port) ≡ port
  port_read = uint_be-put_be 2 port (omega arith)

  -- The port behind `k` bytes.
  pub port_at :
      (k : ℕ) (front : List ℕ)
      → length front ≡ k
      → uint_be (take 2 (drop k (front ++ (put_be 2 port ++ payload)))) ≡ port
  port_at k front h =
      ap uint_be (slice_at k 2 front (put_be 2 port) payload h (length-put_be 2 port)) ∙ port_read

  -- The bytes that a decoder is to read of a host, a port and what follows.
  abbrev pub wire : Host → List ℕ
  wire h = host_bytes h ++ (put_be 2 port ++ payload)

  pub length-wire : (h : Host) → length (wire h) ≡ length (host_bytes h) + 2 + length payload
  length-wire h = omega (
    arith,
    length-append (host_bytes h) (put_be 2 port ++ payload),
    length-append (put_be 2 port) payload,
    length-put_be 2 port,
  )
