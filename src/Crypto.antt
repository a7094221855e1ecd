-- ===== src/Crypto.antt =====
-- The cryptography that the code calls and does not implement: crypto/hmac with SHA-256, and the
-- AEADs of crypto/cipher and x/crypto, with what their documents promise.
use chitanda.Base.{length, All, ℕ, ◌+◌, ◌≡◌, Option, some, List, [], ◌∷◌}
use chitanda.Base.Bytes.{IsByte}
use Prim.Native.Char.{code}
use Prim.Native.String.{String}

-- The bytes of an ASCII text.
abbrev pub codes : String → List ℕ
codes String.[] = []
codes (String.◌∷◌ c s) = code c ∷ codes s

-- `sum key message`: the MAC has 32 bytes.
pub record Hmac : Type 0 where
  pub sum : List ℕ → List ℕ → List ℕ
  pub length-sum : (key message : List ℕ) → length (sum key message) ≡ 32
  pub sum-IsByte : (key message : List ℕ) → All IsByte (sum key message)

-- `seal nonce plaintext data` and `open_ nonce ciphertext data`: what was sealed opens under the
-- same nonce and data, and is 16 bytes longer.
pub record Aead : Type 0 where
  pub seal : List ℕ → List ℕ → List ℕ → List ℕ
  pub open_ : List ℕ → List ℕ → List ℕ → Option (List ℕ)
  pub open_-seal :
      (nonce plaintext extra : List ℕ)
      → open_ nonce (seal nonce plaintext extra) extra ≡ some plaintext
  pub length-seal :
      (nonce plaintext extra : List ℕ) → length (seal nonce plaintext extra) ≡ length plaintext + 16
