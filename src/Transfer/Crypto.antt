-- ===== src/Transfer/Crypto.antt =====
-- client/src/services/crypto: the IV of a chunk, and what the code relies on in the libraries that
-- hash and encrypt.
pub mod Iv
pub mod Hash
use file_share_app.Base.{ℕ, ◌*◌, ◌<◌, ◌≡◌, List, [], ◌++◌, length, Option, some, Utf16, All}

-- @noble/hashes and the Web Crypto API. `hex_to_bytes` and `decrypt` throw on bad input: `none`.
pub record Crypto : Type 1 where
  pub Hasher : Type 0
  pub create : Hasher
  pub update : Hasher → List ℕ → Hasher
  pub digest : Hasher → List ℕ
  pub update-nil : (h : Hasher) → update h [] ≡ h
  -- Hashing piece by piece is hashing the concatenation.
  pub update-update : (h : Hasher) (a b : List ℕ) → update (update h a) b ≡ update h (a ++ b)
  -- A digest is a list of bytes.
  pub digest_bytes : (h : Hasher) → All (λ b. b < 256) (digest h)
  pub bytes_to_hex : List ℕ → Utf16
  pub hex_to_bytes : Utf16 → Option (List ℕ)
  -- Two digits for a byte.
  pub length-bytes_to_hex : (b : List ℕ) → length (bytes_to_hex b) ≡ 2 * length b
  pub hex_round_trip : (b : List ℕ) → All (λ x. x < 256) b → hex_to_bytes (bytes_to_hex b) ≡ some b
  pub Key : Type 0
  pub encrypt : Key → List ℕ → List ℕ → List ℕ
  pub decrypt : Key → List ℕ → List ℕ → Option (List ℕ)
  -- AES-GCM under one key and IV.
  pub decrypt-encrypt : (k : Key) (iv p : List ℕ) → decrypt k iv (encrypt k iv p) ≡ some p
