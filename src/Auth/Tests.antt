-- ===== src/Auth/Tests.antt =====
-- Runs of signatures and of the nonce cache, and their theorems at concrete inputs.
use chitanda.Base.{
  ℤ, pos, length, ℕ, ◌*◌, ◌^◌, ◌<◌, ◌≡◌, refl, ◌≢◌, ◌↔◌, ◌⊎◌, true, Option, some, List, [], ◌∷◌,
  ◌++◌, arith,
}
use chitanda.Base.Bytes.{put_be}
use chitanda.Auth.Signature.{
  Request, fields, write_length_prefixed, written, signature, is_skewed, verify,
}
use chitanda.Auth.Signature.Laws.{IsWithin90, verify-signature_inj, verify_iff}
use chitanda.Auth.ReplayCache.{
  new_replay_cache, check_at, pop_expired, sweep, expiry_of, accept, accepted, check, uses,
}
use chitanda.Auth.ReplayCache.Laws.{accept_nonce_once}

-- In place of HMAC: the key, then the message.
abbrev joined_mac : List ℕ → List ℕ → List ℕ
joined_mac psk message = psk ++ message

-- In place of ParseInt: every text is 100.
abbrev hundred : List ℕ → Option ℤ
hundred text = some (pos 100)

abbrev request : Request
request = record {
  mode = 1 ∷ [];
  method = 2 ∷ [];
  path = 3 ∷ [];
  target = [];
  timestamp = 49 ∷ 48 ∷ 48 ∷ [];
  nonce = 9 ∷ [];
}

request_verified :
    verify joined_mac hundred
      (7 ∷ [])
      request
      (signature joined_mac (7 ∷ []) request)
      (100 * 10 ^ 9)
    ≡ true
unfolding verify signature is_skewed written write_length_prefixed put_be
request_verified = refl

verify-signature_inj_example :
    (request ≡ request)
    ⊎ ((written (fields request) ≢ written (fields request))
        × (7 ∷ written (fields request) ≡ 7 ∷ written (fields request)))
verify-signature_inj_example =
    verify-signature_inj joined_mac hundred (7 ∷ []) request request (100 * 10 ^ 9) (ground arith)
      (ground arith) request_verified

verify_iff_example :
    (verify joined_mac hundred (7 ∷ []) request (7 ∷ written (fields request)) 5 ≡ true) ↔ (
      (0 < 1)
      × (0 < length (7 ∷ written (fields request)))
      × ((u : ℤ) × (some (pos 100) ≡ some u) × IsWithin90 u 5)
      × (7 ∷ written (fields request) ≡ 7 ∷ written (fields request)))
verify_iff_example = verify_iff joined_mac hundred (7 ∷ []) request (7 ∷ written (fields request)) 5

first_accepted : (accept new_replay_cache (9 ∷ []) 1000).1 ≡ accepted
unfolding accept sweep pop_expired expiry_of
first_accepted = refl

accept_nonce_once_example :
    ((accept
        (uses (accept new_replay_cache (9 ∷ []) 1000).0 (check_at (8 ∷ []) 2000 ∷ []))
        (9 ∷ [])
        3000).1
      ≢ accepted)
    × ((check
          (uses (accept new_replay_cache (9 ∷ []) 1000).0 (check_at (8 ∷ []) 2000 ∷ []))
          (9 ∷ [])
          3000).1
        ≡ true)
accept_nonce_once_example =
    accept_nonce_once new_replay_cache (9 ∷ []) 1000 3000 (check_at (8 ∷ []) 2000 ∷ [])
      first_accepted (omega arith, tt) (omega arith)
