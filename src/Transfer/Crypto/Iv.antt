-- ===== src/Transfer/Crypto/Iv.antt =====
-- client/src/services/crypto/encryption.ts, ivForChunk: four bytes of salt, then two 32-bit numbers
-- in big-endian order. `x >>> 0` is the number modulo 2 ^ 32.
use file_share_app.Base.{
  ℕ, ◌+◌, ◌*◌, ◌/◌, ◌%◌, ◌^◌, ◌<◌, ◌≡◌, List, [], ◌∷◌, ◌++◌, length, arith, All, All-append,
  length-append, take, drop, ap, sym, ◌∙◌, append_cancel,
}

-- `view.setUint32(offset, n >>> 0, false)`
pub uint32_bytes : ℕ → List ℕ
uint32_bytes n =
    let m = n % 2 ^ 32 in (m / 2 ^ 24) ∷ (m / 2 ^ 16 % 256) ∷ (m / 2 ^ 8 % 256) ∷ (m % 256) ∷ []

-- The first four of the zeros, with the salt set over them. What a salt of up to twelve bytes writes
-- after them is written over; a longer one, which the source throws at, is cut off.
abbrev salt_bytes : List ℕ → List ℕ
salt_bytes iv_salt = take 4 (iv_salt ++ 0 ∷ 0 ∷ 0 ∷ 0 ∷ [])

unfoldable pub iv_for_chunk : List ℕ → ℕ → ℕ → List ℕ
unfolding uint32_bytes
iv_for_chunk iv_salt file_index chunk_index =
    salt_bytes iv_salt ++ (uint32_bytes file_index ++ uint32_bytes chunk_index)

salt_bytes-bytes : (salt : List ℕ) → All (λ b. b < 256) salt → All (λ b. b < 256) (salt_bytes salt)
salt_bytes-bytes [] h = omega arith
salt_bytes-bytes (a ∷ []) (p, h) = ground arith
salt_bytes-bytes (a ∷ b ∷ []) (p, (q, h)) = ground arith
salt_bytes-bytes (a ∷ b ∷ c ∷ []) (p, (q, (r, h))) = ground arith
salt_bytes-bytes (a ∷ b ∷ c ∷ d ∷ rest) (p, (q, (r, (s, h)))) = ground arith

length-salt_bytes : (salt : List ℕ) → length (salt_bytes salt) ≡ 4
length-salt_bytes [] = ground arith
length-salt_bytes (a ∷ []) = ground arith
length-salt_bytes (a ∷ b ∷ []) = ground arith
length-salt_bytes (a ∷ b ∷ c ∷ []) = ground arith
length-salt_bytes (a ∷ b ∷ c ∷ d ∷ rest) = ground arith

uint32_bytes-bytes : (n : ℕ) → All (λ b. b < 256) (uint32_bytes n)
unfolding uint32_bytes
uint32_bytes-bytes n = omega arith

-- `getUint32`: the number that four bytes stand for.
abbrev read_uint32 : List ℕ → ℕ
read_uint32 (a ∷ b ∷ c ∷ d ∷ []) = a * 2 ^ 24 + b * 2 ^ 16 + c * 2 ^ 8 + d
read_uint32 _ = 0

read_uint32-uint32_bytes : (n : ℕ) → n < 2 ^ 32 → read_uint32 (uint32_bytes n) ≡ n
unfolding uint32_bytes
read_uint32-uint32_bytes n h = omega arith

uint32_bytes-injective :
    (m n : ℕ) → m < 2 ^ 32 → n < 2 ^ 32 → uint32_bytes m ≡ uint32_bytes n → m ≡ n
uint32_bytes-injective m n hm hn e =
    sym (read_uint32-uint32_bytes m hm) ∙ ap read_uint32 e ∙ read_uint32-uint32_bytes n hn

-- The two halves of what follows the salt.
uint32_bytes_split :
    (a b c d : ℕ)
    → uint32_bytes a ++ uint32_bytes b ≡ uint32_bytes c ++ uint32_bytes d
    → (uint32_bytes a ≡ uint32_bytes c) × (uint32_bytes b ≡ uint32_bytes d)
unfolding uint32_bytes
uint32_bytes_split a b c d e = (ap (take 4) e, ap (drop 4) e)

-- Under one salt two chunks of a transfer get the same IV only if they are the same chunk of the
-- same file, as long as both numbers are below 2 ^ 32.
pub iv_for_chunk-injective :
    (salt : List ℕ) (f c g d : ℕ)
    → f < 2 ^ 32
    → c < 2 ^ 32
    → g < 2 ^ 32
    → d < 2 ^ 32
    → iv_for_chunk salt f c ≡ iv_for_chunk salt g d
    → (f ≡ g) × (c ≡ d)
unfolding iv_for_chunk
iv_for_chunk-injective salt f c g d hf hc hg hd e =
    let (p, q) = uint32_bytes_split f c g d (append_cancel (salt_bytes salt) _ _ e) in
    (uint32_bytes-injective f g hf hg p, uint32_bytes-injective c d hc hd q)

pub iv_for_chunk_bytes :
    (salt : List ℕ) (f c : ℕ) → All (λ b. b < 256) salt → All (λ b. b < 256) (iv_for_chunk salt f c)
unfolding iv_for_chunk
iv_for_chunk_bytes salt f c h =
    All-append (λ b. b < 256) (salt_bytes salt) (uint32_bytes f ++ uint32_bytes c)
      (salt_bytes-bytes salt h)
      (All-append (λ b. b < 256) (uint32_bytes f) (uint32_bytes c) (uint32_bytes-bytes f)
        (uint32_bytes-bytes c))

pub length-iv_for_chunk : (salt : List ℕ) (f c : ℕ) → length (iv_for_chunk salt f c) ≡ 12
unfolding iv_for_chunk
length-iv_for_chunk salt f c = omega (
  arith,
  length-append (salt_bytes salt) (uint32_bytes f ++ uint32_bytes c),
  length-salt_bytes salt,
)
