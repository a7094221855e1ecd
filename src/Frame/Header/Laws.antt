-- ===== src/Frame/Header/Laws.antt =====
-- What is written as a header or a payload is read back, however the connection cuts it up.
use chitanda.Base.{
  ℕ, ◌^◌, ◌≤◌, ◌<◌, ◌≡◌, refl, sym, ap, ◌∙◌, arith, none, List, [], ◌++◌, append-nil, length,
  length-append, length-drop, take, drop, take-append_exact, drop-append_exact, le→ltb,
}
use chitanda.Base.Bytes.{put_be, uint_be, length-put_be, uint_be-put_be}
use chitanda.Io.{Event}
use chitanda.Io.Read.{stream_of, IsQuiet, read_full_quiet, read_full_exactly}
use chitanda.Frame.Header.{ok, max_payload, encode_header, check_header, read_header, read_payload}

pub length-encode_header : (k f n : ℕ) → length (encode_header k f n) ≡ 8
unfolding encode_header
length-encode_header k f n =
    omega (arith, length-append (put_be 2 f) (put_be 4 n), length-put_be 2 f, length-put_be 4 n)

pub flags_of : (k f n : ℕ) → f < 2 ^ 16 → uint_be (take 2 (drop 2 (encode_header k f n))) ≡ f
unfolding encode_header
flags_of k f n h =
    ap uint_be (take-append_exact 2 (put_be 2 f) (put_be 4 n) (length-put_be 2 f))
    ∙ uint_be-put_be 2 f h

pub size_of : (k f n : ℕ) → n < 2 ^ 32 → uint_be (drop 4 (encode_header k f n)) ≡ n
unfolding encode_header
size_of k f n h =
    ap uint_be (drop-append_exact 2 (put_be 2 f) (put_be 4 n) (length-put_be 2 f))
    ∙ uint_be-put_be 4 n h

take_all : (m : ℕ) (xs : List ℕ) → length xs ≡ m → take m xs ≡ xs
take_all m xs h = ap (take m) (sym (append-nil xs)) ∙ take-append_exact m xs [] h

length-drop_header : (k f n : ℕ) → length (drop 4 (encode_header k f n)) ≡ 4
length-drop_header k f n =
    omega (arith, length-drop 4 (encode_header k f n), length-encode_header k f n)

check_header-encode_header :
    (k f n : ℕ)
    → f < 2 ^ 16
    → n ≤ max_payload
    → check_header (encode_header k f n) ≡ ok (record { kind = k; flags = f; size = n })
check_header-encode_header k f n hf hn =
    rw
      (
        flags_of k f n hf,
        take_all 4 (drop 4 (encode_header k f n)) (length-drop_header k f n),
        size_of k f n (omega arith),
        le→ltb max_payload n hn,
      )
      (unfold encode_header in refl)

-- A header that was encoded is read back, with what follows it left in the stream, however the
-- connection splits the bytes into reads.
pub read_header-encode_header :
    (k f n : ℕ) (r : List Event) (tail : List ℕ)
    → f < 2 ^ 16
    → n ≤ max_payload
    → IsQuiet r
    → stream_of r ≡ encode_header k f n ++ tail
    → let (result, rest) = read_header r in
      (result ≡ ok (record { kind = k; flags = f; size = n }))
      × (stream_of rest ≡ tail)
      × IsQuiet rest
unfolding read_header
read_header-encode_header k f n r tail hf hn q e =
    let (a, b, c, d) =
      read_full_exactly 8 r (encode_header k f n) tail (length-encode_header k f n) q e in
    rw (b, read_header) (ap check_header a ∙ check_header-encode_header k f n hf hn, c, d)

-- A payload of an allowed size is read back whole.
pub read_payload-IsQuiet :
    (payload tail : List ℕ) (r : List Event)
    → length payload ≤ max_payload
    → IsQuiet r
    → stream_of r ≡ payload ++ tail
    → let (got, error, rest) = read_payload r (length payload) in
      (got ≡ payload) × (error ≡ none) × (stream_of rest ≡ tail) × IsQuiet rest
unfolding read_payload
read_payload-IsQuiet payload tail r h q e =
    let (a, b, c, d) = read_full_quiet r payload tail q e in
    rw (le→ltb max_payload (length payload) h) (a, rw b, c, d)
