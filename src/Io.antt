-- ===== src/Io.antt =====
-- The standard library's io: readers and writers as scripts of what each call of the underlying
-- connection answers, `io.ReadFull`, and the errors that the code tells apart.
pub mod Patience
pub mod Read
pub mod Write
use chitanda.Base.{
  ℕ, zero, suc, ◌+◌, ◌-◌, min, Bool, true, false, ltb, leb, ◌==◌, if◌then◌else◌, Option, none, some,
  List, [], ◌∷◌, ◌++◌, length, take, drop,
}

-- `timeout` is any net.Error with Timeout(); `failed` any other error of a connection.
pub data IoError : Type 0 where
  eof unexpected_eof short_write closed_pipe timeout failed : IoError

-- What one Read of the connection has to give: bytes, then perhaps an error.
pub record Event : Type 0 where
  pub bytes : List ℕ
  pub ends : Option IoError

-- A Read returns the error together with the last bytes of the event. Past the script there is EOF.
unfoldable pub read : List Event → ℕ → List ℕ × Option IoError × List Event
read [] n = ([], some eof, [])
read (e ∷ es) n =
    if ltb n (length e.bytes)
    then (take n e.bytes, none, record e { bytes = drop n e.bytes } ∷ es)
    else (e.bytes, e.ends, es)

-- The loop of io.ReadAtLeast: it goes on while bytes are missing and no error came; an error that
-- comes with the last byte wanted is dropped.
unfoldable pub fill : List Event → ℕ → List ℕ × Option IoError × List Event
fill es zero = ([], none, es)
fill [] (suc n) = ([], some eof, [])
fill (e ∷ es) (suc n) =
    let (more, error, rest) = fill es (suc n - length e.bytes) in
    if ltb (suc n) (length e.bytes)
    then (take (suc n) e.bytes, none, record e { bytes = drop (suc n) e.bytes } ∷ es)
    else if length e.bytes == suc n
    then (e.bytes, none, es)
    else elim e.ends [ none ↦ (e.bytes ++ more, error, rest) | some x ↦ (e.bytes, some x, es) ]

-- EOF after some bytes is ErrUnexpectedEOF.
abbrev pub cut_short : List ℕ → Option IoError → Option IoError
cut_short [] error = error
cut_short (b ∷ bs) (some eof) = some unexpected_eof
cut_short (b ∷ bs) error = error

unfoldable pub read_full : List Event → ℕ → List ℕ × Option IoError × List Event
unfolding fill
read_full es n = let (got, error, rest) = fill es n in (got, cut_short got error, rest)

-- A writer: what it has sent, and the answers (count, error) of its next calls. Past the script
-- every call takes all bytes.
pub record Writer : Type 0 where
  pub sent : List ℕ
  pub script : List (ℕ × Option IoError)

abbrev write_as : Writer → List ℕ → List (ℕ × Option IoError) → ℕ × Option IoError × Writer
write_as w p [] = (length p, none, record w { sent = w.sent ++ p })
write_as w p ((n, error) ∷ script) =
    let k = min n (length p) in (k, error, record { sent = w.sent ++ take k p; script = script })

unfoldable pub write : Writer → List ℕ → ℕ × Option IoError × Writer
write w p = write_as w p w.script
