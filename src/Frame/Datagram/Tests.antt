-- ===== src/Frame/Datagram/Tests.antt =====
-- Runs of the datagrams, and their theorems at concrete inputs.
use chitanda.Base.{length, All, ℕ, ◌≤◌, ◌≡◌, refl, inr, List, [], ◌∷◌, arith}
use chitanda.Base.Bytes.{IsByte, put_be, uint_be}
use chitanda.Frame.Datagram.{
  encode_datagram_into, encode_datagram, decode, decode_datagram, max_datagram_size,
}
use chitanda.Frame.Datagram.Laws.{decode_datagram-encode_datagram, encode_datagram-decode_datagram}

abbrev hello : List ℕ
hello = 1 ∷ 0 ∷ 0 ∷ 0 ∷ 0 ∷ 0 ∷ 0 ∷ 1 ∷ 44 ∷ 0 ∷ 2 ∷ 97 ∷ 98 ∷ 7 ∷ []

encoded_hello : encode_datagram 300 (97 ∷ 98 ∷ []) (7 ∷ []) ≡ inr hello
unfolding encode_datagram encode_datagram_into put_be
encoded_hello = refl

decoded_hello : decode_datagram hello ≡ inr (300, 97 ∷ 98 ∷ [], 7 ∷ [])
unfolding decode_datagram decode uint_be
decoded_hello = refl

hello-IsByte : All IsByte hello
hello-IsByte = ground arith

decode_datagram-encode_datagram_example :
    (decode_datagram hello ≡ inr (300, 97 ∷ 98 ∷ [], 7 ∷ [])) × (length hello ≤ max_datagram_size)
decode_datagram-encode_datagram_example =
    decode_datagram-encode_datagram 300 (97 ∷ 98 ∷ []) (7 ∷ []) hello (omega arith) encoded_hello

encode_datagram-decode_datagram_example : encode_datagram 300 (97 ∷ 98 ∷ []) (7 ∷ []) ≡ inr hello
encode_datagram-decode_datagram_example =
    encode_datagram-decode_datagram 300 (97 ∷ 98 ∷ []) (7 ∷ []) hello hello-IsByte decoded_hello
