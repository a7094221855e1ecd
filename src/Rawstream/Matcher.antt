-- ===== src/Rawstream/Matcher.antt =====
-- Which of several keys made a polymorphic ClientHello: MatchPolymorphicClientHelloHeader and
-- PreparedClientHelloMatcher of internal/rawstream/frame.go, and reading one from a connection.
pub mod Laws
pub mod Read
use chitanda.Base.{
  ltb, leb, ◌==◌, if◌then◌else◌, bytes_eq, bytes_eq→eq, bytes_eq_self, ltb→lt, lt→ltb, leb→le,
  le→leb, lt→leb, le→ltb, ==_iff, Bool-cases, Option-cases, some_inj, length, get_or, set, take,
  drop, replicate, All, All-take, All-drop, length-append, length-set, get_or-set_self,
  get_or-set_ne, length-replicate, get_or-replicate, take-append-drop, length-take, length-drop,
  take-append_exact, drop-append_exact, take-nil, take-add, drop-nil, drop-drop, All-append, ℕ,
  zero, suc, ◌+◌, ◌-◌, ◌*◌, ◌/◌, ◌%◌, ◌^◌, ◌≤◌, ◌<◌, min, max, bit_and, bit_or, bit_xor, ◌≡◌, refl,
  sym, ap, ap₂, ◌∙◌, ◌≢◌, ◌↔◌, ◌⊎◌, inl, inr, Bool, true, false, not, ◌&&◌, ◌||◌, Option, none,
  some, List, [], ◌∷◌, ◌++◌, map, append-nil, append_assoc, arith,
}
use chitanda.Base.Bytes.{uint_be}
use chitanda.Crypto.{Hmac}
use chitanda.Io.{Event, IoError, read_full}
use chitanda.Rawstream.Hello.{
  RawstreamError, short_psk, invalid_record_len, timestamp_expired, invalid_client_auth,
  invalid_polymorphic_padding, no_psk, client_hello_size, max_polymorphic_padding, is_fresh,
  derive_polymorphic_masks, header_pad, header_nonce, header_ts, header_authentic,
}

-- The index of the key, the length of the padding, the nonce and the timestamp.
pub record Match : Type 0 where
  pub index : ℕ
  pub pad_len : ℕ
  pub nonce : List ℕ
  pub timestamp : ℕ

abbrev pub MatchResult : Type 0
MatchResult = RawstreamError ⊎ Match

-- What the loop over the keys returns when no key is left.
abbrev pub none_matched : Bool → MatchResult
none_matched expired = if expired then inl timestamp_expired else inl invalid_client_auth

module _ (mac : Hmac) (server_id header : List ℕ) (now : ℕ) where
  abbrev pub match_of : ℕ → List ℕ → ℕ → Match
  match_of index psk mask = record {
    index = index;
    pad_len = header_pad mask header;
    nonce = header_nonce header;
    timestamp = uint_be (header_ts mac psk header);
  }

  -- The case of one key, with the errors told apart.
  unfoldable pub match_one : List ℕ → MatchResult
  match_one psk =
      let mask = (derive_polymorphic_masks mac psk server_id).0 in
      if ltb (length psk) 32
      then inl short_psk
      else if ltb max_polymorphic_padding (header_pad mask header)
      then inl invalid_polymorphic_padding
      else if not (is_fresh now (uint_be (header_ts mac psk header)))
      then inl timestamp_expired
      else if not (header_authentic mac psk server_id mask header)
      then inl invalid_client_auth
      else inr (match_of 0 psk mask)

  -- A round of the loop: what is done with one key and its mask, given what the rest of the loop
  -- does with `expiredFound`.
  abbrev pub try_key : ℕ → List ℕ → ℕ → Bool → (Bool → MatchResult) → MatchResult
  try_key index psk mask expired rest =
      if ltb max_polymorphic_padding (header_pad mask header)
      then rest expired
      else if not (header_authentic mac psk server_id mask header)
      then rest expired
      else if not (is_fresh now (uint_be (header_ts mac psk header)))
      then rest true
      else inr (match_of index psk mask)

  unfoldable pub match_keys : ℕ → List (List ℕ) → Bool → MatchResult
  match_keys index [] expired = none_matched expired
  match_keys index (psk ∷ keys) expired =
      let mask = (derive_polymorphic_masks mac psk server_id).0 in
      let rest = match_keys (index + 1) keys in
      if ltb (length psk) 32 then rest expired else try_key index psk mask expired rest

  unfoldable pub match_polymorphic_client_hello_header : List (List ℕ) → MatchResult
  match_polymorphic_client_hello_header keys =
      if ltb (length header) (1 + client_hello_size) then inl invalid_record_len else elim keys [
        | [] ↦ match_keys 0 [] false
        | psk ∷ [] ↦ match_one psk
        | psk ∷ key ∷ more ↦ match_keys 0 (psk ∷ key ∷ more) false
      ]

pub record PreparedClientHelloMatcher : Type 0 where
  pub keys : List (List ℕ)
  pub client_masks : List ℕ
  pub server_id : List ℕ

-- The loop of the constructor: the masks, or nothing if a key is short.
unfoldable pub prepare_masks : Hmac → List ℕ → List (List ℕ) → Option (List ℕ)
prepare_masks mac server_id [] = some []
prepare_masks mac server_id (psk ∷ keys) =
    let rest = prepare_masks mac server_id keys in
    if ltb (length psk) 32 then none else elim rest [
      | none ↦ none
      | some masks ↦ some ((derive_polymorphic_masks mac psk server_id).0 ∷ masks)
    ]

unfoldable pub new_prepared_client_hello_matcher :
    Hmac → List (List ℕ) → List ℕ → RawstreamError ⊎ PreparedClientHelloMatcher
new_prepared_client_hello_matcher mac keys server_id =
    if length keys == 0 then inl no_psk else elim (prepare_masks mac server_id keys) [
      | none ↦ inl short_psk
      | some masks ↦ inr (record { keys = keys; client_masks = masks; server_id = server_id })
    ]

unfoldable pub match_prepared :
    Hmac → List ℕ → List ℕ → ℕ → ℕ → List (List ℕ) → List ℕ → Bool → MatchResult
match_prepared mac server_id header now index [] masks expired = none_matched expired
match_prepared mac server_id header now index (psk ∷ keys) masks expired =
    try_key mac server_id header now index psk (get_or masks 0 0) expired
      (match_prepared mac server_id header now (index + 1) keys (drop 1 masks))

unfoldable pub match_header : Hmac → PreparedClientHelloMatcher → List ℕ → ℕ → MatchResult
match_header mac m header now =
    if ltb (length header) (1 + client_hello_size)
    then inl invalid_record_len
    else match_prepared mac m.server_id header now 0 m.keys m.client_masks false

-- What reading a hello can fail with.
pub data ReadError : Type 0 where
  io : IoError → ReadError
  rejected : RawstreamError → ReadError

-- The padding is read only if the header matched. The reader comes back beside the result.
abbrev pub read_padding :
    Match → List ℕ × Option IoError × List Event → (ReadError ⊎ Match) × List Event
read_padding m (pad, none, r) = (inr m, r)
read_padding m (pad, some e, r) = (inl (io e), r)

abbrev pub after_match : MatchResult → List Event → (ReadError ⊎ Match) × List Event
after_match (inl e) r = (inl (rejected e), r)
after_match (inr m) r =
    if ltb 0 m.pad_len then read_padding m (read_full r m.pad_len) else (inr m, r)

abbrev pub after_header :
    (List ℕ → MatchResult) → List ℕ × Option IoError × List Event → (ReadError ⊎ Match) × List Event
after_header decide (header, none, r) = after_match (decide header) r
after_header decide (header, some e, r) = (inl (io e), r)

unfoldable pub read_and_match :
    Hmac → PreparedClientHelloMatcher → List Event → ℕ → (ReadError ⊎ Match) × List Event
read_and_match mac m r now =
    after_header (λ header. match_header mac m header now) (read_full r (1 + client_hello_size))

unfoldable pub read_and_match_polymorphic_client_hello :
    Hmac → List Event → List (List ℕ) → List ℕ → ℕ → (ReadError ⊎ Match) × List Event
read_and_match_polymorphic_client_hello mac r keys server_id now =
    after_header (λ header. match_polymorphic_client_hello_header mac server_id header now keys)
      (read_full r (1 + client_hello_size))

unfoldable pub read_and_verify_polymorphic_client_hello :
    Hmac → List Event → List ℕ → List ℕ → ℕ → (ReadError ⊎ Match) × List Event
read_and_verify_polymorphic_client_hello mac r psk server_id now =
    if ltb (length psk) 32
    then (inl (rejected short_psk), r)
    else read_and_match_polymorphic_client_hello mac r (psk ∷ []) server_id now
