-- ===== src/Frame/Datagram.antt =====
-- Datagrams of internal/frame/frame.go: version, 64-bit sequence number, 16-bit length of the
-- address, address, payload. A result is `inl error` or `inr value`; a string is its bytes.
pub mod Laws
mod Tests
use chitanda.Base.{
  ℕ, ◌+◌, ◌≡◌, Bool, ltb, leb, ◌==◌, not, ◌||◌, if◌then◌else◌, ◌⊎◌, inl, inr, List, [], ◌∷◌, ◌++◌,
  length, get_or, take, drop, bytes_eq,
}
use chitanda.Base.Bytes.{put_be, uint_be}

abbrev pub datagram_version : ℕ
datagram_version = 1

abbrev pub datagram_header_size : ℕ
datagram_header_size = 11

abbrev pub max_datagram_address : ℕ
max_datagram_address = 512

abbrev pub max_datagram_payload : ℕ
max_datagram_payload = 1350

abbrev pub max_datagram_size : ℕ
max_datagram_size = datagram_header_size + max_datagram_address + max_datagram_payload

pub data DatagramError : Type 0 where
  invalid_address payload_too_large buffer_too_small : DatagramError
  invalid_header invalid_address_length : DatagramError

-- All of the result is written, so of `dst` only the capacity matters.
unfoldable pub encode_datagram_into : ℕ → ℕ → List ℕ → List ℕ → DatagramError ⊎ List ℕ
encode_datagram_into capacity sequence address payload =
    if (length address == 0) || ltb max_datagram_address (length address)
    then inl invalid_address
    else if ltb max_datagram_payload (length payload)
    then inl payload_too_large
    else if ltb capacity (datagram_header_size + length address + length payload)
    then inl buffer_too_small
    else inr (
        datagram_version
        ∷ (put_be 8 sequence ++ (put_be 2 (length address) ++ (address ++ payload))))

unfoldable pub encode_datagram : ℕ → List ℕ → List ℕ → DatagramError ⊎ List ℕ
encode_datagram sequence address payload =
    encode_datagram_into (datagram_header_size + length address + length payload) sequence address
      payload

-- The address string last made, and the bytes it was made of.
pub record DatagramCache : Type 0 where
  pub key : List ℕ
  pub address : List ℕ

-- `var cache DatagramCache`
abbrev pub zero_cache : DatagramCache
zero_cache = record { key = []; address = [] }

abbrev pub remember : DatagramCache → List ℕ → DatagramCache
remember c bytes =
    if (length c.address == 0) || not (bytes_eq c.key bytes)
    then record { key = bytes; address = bytes }
    else c

unfoldable pub decode :
    DatagramCache → List ℕ → DatagramCache × (DatagramError ⊎ (ℕ × List ℕ × List ℕ))
decode c packet =
    let address_length = uint_be (take 2 (drop 9 packet)) in
    let payload = drop (datagram_header_size + address_length) packet in
    let c' = remember c (take address_length (drop datagram_header_size packet)) in
    if ltb (length packet) datagram_header_size || not (get_or packet 0 0 == datagram_version)
    then (c, inl invalid_header)
    else if (address_length == 0)
        || ltb max_datagram_address address_length
        || ltb (length packet) (datagram_header_size + address_length)
    then (c, inl invalid_address_length)
    else if ltb max_datagram_payload (length payload)
    then (c, inl payload_too_large)
    else (c', inr (uint_be (take 8 (drop 1 packet)), c'.address, payload))

unfoldable pub decode_datagram : List ℕ → DatagramError ⊎ (ℕ × List ℕ × List ℕ)
decode_datagram packet = (decode zero_cache packet).1

-- The datagrams of a flow, decoded with its cache.
unfoldable pub decode_all :
    DatagramCache → List (List ℕ) → List (DatagramError ⊎ (ℕ × List ℕ × List ℕ))
decode_all c [] = []
decode_all c (packet ∷ rest) = let (c', result) = decode c packet in result ∷ decode_all c' rest
