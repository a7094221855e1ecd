-- ===== src/Frame/StreamReader.antt =====
-- `StreamReader` of internal/frame/reader.go: DATA frames as a byte stream, ended by HALF_CLOSE.
pub mod Delivery
pub mod Calls
use chitanda.Base.{
  ℕ, zero, suc, ◌+◌, ◌-◌, ◌*◌, ◌%◌, ◌^◌, Bool, true, false, ltb, ◌==◌, ◌||◌, not, if◌then◌else◌,
  Option, none, some, List, [], ◌∷◌, ◌++◌, length, get_or, take, drop,
}
use chitanda.Base.Bytes.{uint_be}
use chitanda.Io.{Event, IoError, eof, unexpected_eof, timeout, read, read_full}
use chitanda.Frame.Header.{
  version, header_size, max_payload, type_data, type_half_close, type_reset,
}

pub data StreamError : Type 0 where
  io : IoError → StreamError
  invalid_header unsupported_flags empty_data invalid_half_close peer_reset unexpected_frame :
      StreamError

-- `header` holds the `headerRead` bytes of a header that have come so far.
pub record StreamReader : Type 0 where
  pub source : List Event
  pub remaining : ℕ
  pub terminal : Option StreamError
  pub header : List ℕ

abbrev pub new_stream_reader : List Event → StreamReader
new_stream_reader r = record { source = r; remaining = 0; terminal = none; header = [] }

-- EOF inside the stream is ErrUnexpectedEOF, and a timeout does not end it.
abbrev in_stream : IoError → IoError
in_stream eof = unexpected_eof
in_stream e = e

abbrev ends_stream : IoError → Option StreamError
ends_stream timeout = none
ends_stream e = some (io e)

-- A round of the loop returns to the caller, or goes on.
pub data Round : Type 0 where
  done : List ℕ → Option StreamError → StreamReader → Round
  again : StreamReader → Round

abbrev body_size : StreamReader → ℕ → ℕ
body_size s n = if ltb s.remaining (n % 2 ^ 32) then s.remaining else n

-- `remaining -= uint32(n)`
abbrev pub less_remaining : StreamReader → List ℕ → ℕ
less_remaining s got = (s.remaining + 2 ^ 32 - length got % 2 ^ 32) % 2 ^ 32

unfoldable pub after_body : StreamReader → List ℕ × Option IoError × List Event → Round
after_body s (got, none, rest) =
    done got none (record s { source = rest; remaining = less_remaining s got })
after_body s (got, some e, rest) = done got (some (io (in_stream e))) (record s {
  source = rest;
  remaining = less_remaining s got;
  terminal = ends_stream (in_stream e);
})

unfoldable pub read_body : StreamReader → ℕ → Round
read_body s n = after_body s (read s.source (body_size s n))

-- The `switch` on the type of a complete header.
unfoldable pub accept_header : StreamReader → List ℕ → StreamReader
accept_header s raw =
    let kind = get_or raw 1 0 in
    let flags = uint_be (take 2 (drop 2 raw)) in
    let size = uint_be (drop 4 raw) in
    if not (get_or raw 0 0 == version) || ltb max_payload size
    then record s { terminal = some invalid_header }
    else if not (flags == 0)
    then record s { terminal = some unsupported_flags }
    else if kind == type_data
    then if size == 0
      then record s { terminal = some empty_data }
      else record s { remaining = size }
    else if kind == type_half_close
    then if not (size == 0)
      then record s { terminal = some invalid_half_close }
      else record s { terminal = some (io eof) }
    else if kind == type_reset
    then record s { terminal = some peer_reset }
    else record s { terminal = some unexpected_frame }

unfoldable pub after_head : StreamReader → List ℕ × Option IoError × List Event → Round
after_head s (got, none, rest) =
    again (accept_header (record s { source = rest; header = [] }) (s.header ++ got))
after_head s (got, some timeout, rest) =
    done [] (some (io timeout)) (record s { source = rest; header = s.header ++ got })
after_head s (got, some e, rest) =
    again (record s { source = rest; header = s.header ++ got; terminal = some (io (in_stream e)) })

unfoldable pub read_head : StreamReader → Round
read_head s = after_head s (read_full s.source (header_size - length s.header))

-- The loop of `Read`; `none` means that the fuel ran out.
unfoldable pub read_loop :
    ℕ → StreamReader → ℕ → Option (List ℕ × Option StreamError × StreamReader)
read_loop zero s n = none
read_loop (suc fuel) s n = elim s.terminal [
  | some t ↦ some ([], some t, s)
  | none ↦ elim (if s.remaining == 0 then read_head s else read_body s n) [
    | done got error s' ↦ some (got, error, s')
    | again s' ↦ read_loop fuel s' n
  ]
]

-- `Read` into a buffer of `n` bytes. A header leads to a body or to the end, so three rounds are
-- enough.
unfoldable pub stream_read : StreamReader → ℕ → Option (List ℕ × Option StreamError × StreamReader)
stream_read s zero = some ([], none, s)
stream_read s (suc n) = read_loop 3 s (suc n)
