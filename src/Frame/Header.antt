-- ===== src/Frame/Header.antt =====
-- The 8-byte header of internal/frame/frame.go: version, type, flags, length.
pub mod Laws
use chitanda.Base.{
  ℕ, ◌+◌, ◌*◌, ◌^◌, ltb, ◌==◌, not, if◌then◌else◌, Option, none, some, List, [], ◌∷◌, ◌++◌, length,
  get_or, take, drop,
}
use chitanda.Base.Bytes.{put_be, uint_be}
use chitanda.Io.{Event, IoError, read_full}

abbrev pub version : ℕ
version = 1

abbrev pub header_size : ℕ
header_size = 8

abbrev pub data_chunk_size : ℕ
data_chunk_size = 256 * 2 ^ 10

abbrev pub max_payload : ℕ
max_payload = 16 * 2 ^ 20

-- TypeOpen … TypeWindowUpdate are 1 … 6.
abbrev pub type_open : ℕ
type_open = 1

abbrev pub type_open_ack : ℕ
type_open_ack = 2

abbrev pub type_data : ℕ
type_data = 3

abbrev pub type_half_close : ℕ
type_half_close = 4

abbrev pub type_reset : ℕ
type_reset = 5

abbrev pub type_window_update : ℕ
type_window_update = 6

pub record Header : Type 0 where
  pub kind : ℕ
  pub flags : ℕ
  pub size : ℕ

-- What the functions of this package can fail with.
pub data Error : Type 0 where
  io : IoError → Error
  unsupported_version payload_too_large : Error

pub data Result {ℓ} (A : Type ℓ) : Type ℓ where
  ok : A → Result A
  err : Error → Result A

unfoldable pub encode_header : ℕ → ℕ → ℕ → List ℕ
encode_header kind flags size = version ∷ kind ∷ (put_be 2 flags ++ put_be 4 size)

abbrev pub check_header : List ℕ → Result Header
check_header raw =
    let header : Header = record {
      kind = get_or raw 1 0;
      flags = uint_be (take 2 (drop 2 raw));
      size = uint_be (take 4 (drop 4 raw));
    } in
    if not (get_or raw 0 0 == version)
    then err unsupported_version
    else if ltb max_payload header.size
    then err payload_too_large
    else ok header

-- The result, and the reader after it.
unfoldable pub read_header : List Event → Result Header × List Event
read_header r =
    let (raw, error, rest) = read_full r header_size in
    elim error [ none ↦ (check_header raw, rest) | some e ↦ (err (io e), rest) ]

-- The payload as far as it was read comes back beside the error.
unfoldable pub read_payload : List Event → ℕ → List ℕ × Option Error × List Event
read_payload r size =
    let (payload, error, rest) = read_full r size in
    if ltb max_payload size
    then ([], some payload_too_large, r)
    else (payload, elim error [ none ↦ none | some e ↦ some (io e) ], rest)
