-- ===== src/Rawstream/Matcher/Laws.antt =====
-- The prepared matcher accepts what the plain one does, and only what a key authenticates.
use chitanda.Base.{
  le→ltb, Option-cases, length, get_or, ℕ, suc, ◌+◌, ◌≤◌, ◌<◌, ◌≡◌, refl, ap, ◌≢◌, ◌↔◌, ◌⊎◌, inl,
  inr, Bool, true, false, some, List, [], ◌∷◌, arith,
}
use chitanda.Base.Bytes.{uint_be}
use mathlib.Core.Path.{fun_ext, subst}
use chitanda.Crypto.{Hmac}
use chitanda.Rawstream.Hello.{
  is_fresh, derive_polymorphic_masks, header_pad, header_nonce, header_ts, header_authentic,
  max_polymorphic_padding,
}
use chitanda.Rawstream.Matcher.{
  Match, none_matched, match_one, try_key, match_keys, match_polymorphic_client_hello_header,
  PreparedClientHelloMatcher, prepare_masks, new_prepared_client_hello_matcher, match_prepared,
  match_header,
}

prepared_next :
    (mac : Hmac) (server_id psk : List ℕ) (keys : List (List ℕ)) (masks : List ℕ)
    → prepare_masks mac server_id (psk ∷ keys) ≡ some masks
    → (32 ≤ length psk)
      × ((rest : List ℕ) × (prepare_masks mac server_id keys ≡ some rest)
          × (masks ≡ (derive_polymorphic_masks mac psk server_id).0 ∷ rest))
unfolding prepare_masks
prepared_next mac server_id psk keys masks h =
    elim (Option-cases (prepare_masks mac server_id keys)) [
      | inl e ↦ ground arith
      | inr (rest, e) ↦ (ground arith, (rest, e, ground arith))
    ]

module _ (mac : Hmac) (server_id header : List ℕ) (now : ℕ) where
  prepared_keys :
      (index : ℕ) (keys : List (List ℕ)) (masks : List ℕ) (expired : Bool)
      → prepare_masks mac server_id keys ≡ some masks
      → match_prepared mac server_id header now index keys masks expired
        ≡ match_keys mac server_id header now index keys expired
  unfolding match_prepared match_keys
  prepared_keys index [] masks expired h = refl
  prepared_keys index (psk ∷ keys) masks expired h =
      let (long, (rest, e, f)) = prepared_next mac server_id psk keys masks h in
      rw (f, le→ltb (length psk) 32 long)
        (ap (try_key mac server_id header now index psk _ expired)
          (fun_ext (λ x. prepared_keys (index + 1) keys rest x e)))

  -- A single key: the loop accepts what `match_one` does.
  one_key :
      (psk : List ℕ) (r : Match)
      → (match_keys mac server_id header now 0 (psk ∷ []) false ≡ inr r)
        ↔ (match_one mac server_id header now psk ≡ inr r)
  unfolding match_keys match_one
  one_key psk r = ground arith

  listed :
      (keys : List (List ℕ)) (r : Match)
      → (match_polymorphic_client_hello_header mac server_id header now keys ≡ inr r)
        ↔ ((49 ≤ length header) × (match_keys mac server_id header now 0 keys false ≡ inr r))
  unfolding match_polymorphic_client_hello_header
  listed [] r = ground arith
  listed (psk ∷ []) r = ground (arith, one_key psk r)
  listed (psk ∷ key ∷ more) r = ground arith

  -- What a key that was matched shows.
  FirstAuthenticates : List ℕ → Match → Type 0
  FirstAuthenticates psk r =
      let mask = (derive_polymorphic_masks mac psk server_id).0 in
      (header_authentic mac psk server_id mask header ≡ true)
      × (is_fresh now r.timestamp ≡ true)
      × (r.pad_len ≤ max_polymorphic_padding)
      × (r.timestamp ≡ uint_be (header_ts mac psk header))
      × (r.pad_len ≡ header_pad mask header)
      × (r.nonce ≡ header_nonce header)

  pub Authenticates : List (List ℕ) → Match → ℕ → Type 0
  Authenticates keys r i = (i < length keys) × FirstAuthenticates (get_or keys i []) r

  first_or_later :
      (index : ℕ) (psk : List ℕ) (keys : List (List ℕ)) (expired : Bool) (r : Match)
      → match_keys mac server_id header now index (psk ∷ keys) expired ≡ inr r
      → ((r.index ≡ index) × FirstAuthenticates psk r)
        ⊎ (match_keys mac server_id header now (index + 1) keys expired ≡ inr r)
        ⊎ (match_keys mac server_id header now (index + 1) keys true ≡ inr r)
  unfolding match_keys FirstAuthenticates
  first_or_later index psk keys expired r h = ground arith

  later :
      (psk : List ℕ) (keys : List (List ℕ)) (r : Match) (index : ℕ)
      → (i : ℕ) × (r.index ≡ index + 1 + i) × Authenticates keys r i
      → (i : ℕ) × (r.index ≡ index + i) × Authenticates (psk ∷ keys) r i
  unfolding Authenticates
  later psk keys r index (i, e, (l, rest)) = (suc i, omega arith, (omega arith, rest))

  no_match : (expired : Bool) (r : Match) → none_matched expired ≢ inr r
  no_match expired r h = ground arith

  match_keys-Authenticates :
      (index : ℕ) (keys : List (List ℕ)) (expired : Bool) (r : Match)
      → match_keys mac server_id header now index keys expired ≡ inr r
      → (i : ℕ) × (r.index ≡ index + i) × Authenticates keys r i
  unfolding Authenticates match_keys
  match_keys-Authenticates index [] expired r h = absurd (no_match expired r h)
  match_keys-Authenticates index (psk ∷ keys) expired r h =
      elim (first_or_later index psk keys expired r h) [
        | inl (e, a) ↦ (0, omega arith, (omega arith, a))
        | inr (inl e) ↦
            later psk keys r index (match_keys-Authenticates (index + 1) keys expired r e)
        | inr (inr e) ↦ later psk keys r index (match_keys-Authenticates (index + 1) keys true r e)
      ]

  -- What MatchPolymorphicClientHelloHeader accepts was authenticated by the key at the index that
  -- it returns, with a timestamp that passes the test of 90 seconds against the clock and at most
  -- 64 bytes of padding; the fields are those of the header under that key.
  pub match-Authenticates :
      (keys : List (List ℕ)) (r : Match)
      → match_polymorphic_client_hello_header mac server_id header now keys ≡ inr r
      → Authenticates keys r r.index
  match-Authenticates keys r h =
      let (i, e, a) = match_keys-Authenticates 0 keys false r ((listed keys r).0 h).1 in
      subst (Authenticates keys r) {x = i} {y = r.index} (omega arith) a

prepared_fields :
    (mac : Hmac) (keys : List (List ℕ)) (server_id : List ℕ) (m : PreparedClientHelloMatcher)
    → new_prepared_client_hello_matcher mac keys server_id ≡ inr m
    → (m.keys ≡ keys)
      × (prepare_masks mac server_id keys ≡ some m.client_masks)
      × (m.server_id ≡ server_id)
unfolding new_prepared_client_hello_matcher
prepared_fields mac keys server_id m h = elim (Option-cases (prepare_masks mac server_id keys)) [
  | inl e ↦ ground arith
  | inr (masks, e) ↦ (ground arith, ground arith, ground arith)
]

-- A prepared matcher accepts exactly the headers, with exactly the results, that
-- MatchPolymorphicClientHelloHeader accepts with the same keys and server.
pub match_header_iff :
    (mac : Hmac) (keys : List (List ℕ)) (server_id header : List ℕ) (now : ℕ)
    (m : PreparedClientHelloMatcher) (r : Match)
    → new_prepared_client_hello_matcher mac keys server_id ≡ inr m
    → (match_header mac m header now ≡ inr r)
      ↔ (match_polymorphic_client_hello_header mac server_id header now keys ≡ inr r)
unfolding match_header
match_header_iff mac keys server_id header now m r h =
    let (ks, ms, sid) = prepared_fields mac keys server_id m h in
    let plain = listed mac server_id header now keys r in
    let same : match_prepared mac m.server_id header now 0 m.keys m.client_masks false
        ≡ match_keys mac server_id header now 0 keys false =
      cc (prepared_keys mac server_id header now 0 keys m.client_masks false ms) in
    ground (arith, plain, same)
