-- ===== src/Rawstream/Open.antt =====
-- The 0-RTT OPEN frame of internal/rawstream/frame.go: padding, the target's address and the first
-- payload, sealed under the all-zero nonce.
pub mod Target
pub mod Laws
use chitanda.Base.{
  ℤ, pos, negsuc, nil_of, ltb, leb, ◌==◌, if◌then◌else◌, bytes_eq, bytes_eq→eq, bytes_eq_self,
  ltb→lt, lt→ltb, leb→le, le→leb, lt→leb, le→ltb, ==_iff, Bool-cases, Option-cases, some_inj,
  length, get_or, set, take, drop, replicate, All, All-take, All-drop, slice_at, length-append,
  length-set, get_or-set_self, get_or-set_ne, length-replicate, get_or-replicate, take-append-drop,
  length-take, length-drop, take-append_exact, drop-append_exact, take-nil, take-add, drop-nil,
  drop-drop, All-append, ℕ, zero, suc, ◌+◌, ◌-◌, ◌*◌, ◌/◌, ◌%◌, ◌^◌, ◌≤◌, ◌<◌, min, max, bit_and,
  bit_or, bit_xor, ◌≡◌, refl, sym, ap, ap₂, ◌∙◌, ◌≢◌, ◌↔◌, ◌⊎◌, inl, inr, Bool, true, false, not,
  ◌&&◌, ◌||◌, Option, none, some, List, [], ◌∷◌, ◌++◌, map, append-nil, append_assoc, arith,
}
use chitanda.Base.Bytes.{
  IsByte, put_be, uint_be, length-put_be, put_be-IsByte, uint_be-snoc, uint_be-put_be,
  uint_be-bound, put_be-uint_be,
}
use chitanda.Crypto.{Aead}
use chitanda.Address.{NetText, AddressError, encode_address}

-- `rand.Int` panics on a span below 1.
pub data OpenError : Type 0 where
  panicked random_failed invalid_open_frame invalid_address : OpenError
  bad_target : AddressError → OpenError

abbrev pub default_min_padding : ℕ
default_min_padding = 32

abbrev pub default_max_padding : ℕ
default_max_padding = 256

abbrev pub min_padding : ℤ → ℕ
min_padding (pos n) = n
min_padding (negsuc n) = default_min_padding

abbrev pub max_padding : ℤ → ℕ → ℕ
max_padding (pos n) low = if ltb n low then default_max_padding else n
max_padding (negsuc n) low = default_max_padding

abbrev pub frame_of : ℕ → List ℕ → List ℕ → AddressError ⊎ List ℕ → OpenError ⊎ List ℕ
frame_of padding_len padding payload (inl e) = inl (bad_target e)
frame_of padding_len padding payload (inr target) =
    inr (put_be 2 padding_len ++ (padding ++ (target ++ payload)))

-- The draws: a number below the span, and padding of a length. The bounds of the padding are below
-- 2 ^ 63, so that the span wraps to a negative number from 2 ^ 63 on.
unfoldable pub encode_0rtt_open_frame :
    NetText → List ℕ → List ℕ → ℤ → ℤ → (ℕ → Option ℕ) → (ℕ → Option (List ℕ)) → OpenError ⊎ List ℕ
encode_0rtt_open_frame net target payload min_pad max_pad draw draw_pad =
    let low = min_padding min_pad in
    let span = max_padding max_pad low + 1 - low in
    if span == 0 || leb (2 ^ 63) span then inl panicked else elim (draw span) [
      | none ↦ inl random_failed
      | some n ↦ elim (draw_pad (low + n)) [
        | none ↦ inl random_failed
        | some padding ↦ frame_of (low + n) padding payload (encode_address net target)
      ]
    ]

-- The text of an address of `n` bytes at the front of `b` and its port, and the bytes read.
abbrev pub ip_target : NetText → List ℕ → ℕ → List ℕ × ℕ
ip_target net b n = (
  net.join_host_port (net.ip_text (take n (drop 1 b)))
      (net.itoa (uint_be (take 2 (drop (1 + n) b)))),
  1 + n + 2,
)

abbrev pub domain_target : NetText → List ℕ → ℕ → List ℕ × ℕ
domain_target net b n = (
  net.join_host_port (take n (drop 2 b)) (net.itoa (uint_be (take 2 (drop (2 + n) b)))),
  2 + n + 2,
)

unfoldable pub decode_target : NetText → List ℕ → OpenError ⊎ (List ℕ × ℕ)
decode_target net b =
    let atyp = get_or b 0 0 in
    let domain_len = get_or b 1 0 in
    if ltb (length b) 7
    then inl invalid_open_frame
    else if atyp == 1
    then if ltb (length b) 7 then inl invalid_open_frame else inr (ip_target net b 4)
    else if atyp == 4
    then if ltb (length b) 19 then inl invalid_open_frame else inr (ip_target net b 16)
    else if atyp == 3
    then if domain_len == 0 || ltb (length b) (2 + domain_len + 2)
      then inl invalid_open_frame
      else inr (domain_target net b domain_len)
    else inl invalid_address

abbrev pub open_parts : List ℕ → OpenError ⊎ (List ℕ × ℕ) → OpenError ⊎ (List ℕ × List ℕ)
open_parts rest (inl e) = inl e
open_parts rest (inr (target, consumed)) = inr (target, drop consumed rest)

unfoldable pub decode_0rtt_open_frame : NetText → List ℕ → OpenError ⊎ (List ℕ × List ℕ)
decode_0rtt_open_frame net plaintext =
    let padding_len = uint_be (take 2 plaintext) in
    let rest = drop (2 + padding_len) plaintext in
    if ltb (length plaintext) 2
    then inl invalid_open_frame
    else if ltb (length plaintext) (2 + padding_len)
    then inl invalid_open_frame
    else open_parts rest (decode_target net rest)

-- `gcm key` is AES-128-GCM under the key.
unfoldable pub encrypt_0rtt_chunk : (List ℕ → Aead) → List ℕ → List ℕ → List ℕ
encrypt_0rtt_chunk gcm key plaintext = let a = gcm key in a.seal (replicate 12 0) plaintext []

unfoldable pub decrypt_0rtt_chunk : (List ℕ → Aead) → List ℕ → List ℕ → Option (List ℕ)
decrypt_0rtt_chunk gcm key ciphertext = let a = gcm key in a.open_ (replicate 12 0) ciphertext []
