-- ===== src/Transfer/Crypto/Hash.antt =====
-- client/src/services/crypto/hash.ts: `sha256HexOfBlob`, with a round of its loop for each byte at
-- most.
use file_share_app.Base.{
  ℕ, zero, suc, ◌+◌, ◌≤◌, ◌<◌, ◌≡◌, sym, ap, ◌∙◌, List, ◌++◌, length, take, drop, take-append-drop,
  drop_all, drop-drop, ltb, Utf16, if◌then◌else◌, arith, Bool-cases, inl, inr,
}
use file_share_app.Transfer.Crypto.{Crypto}

module _ (c : Crypto) where
  open c use {Hasher, create, update, digest, bytes_to_hex}

  unfoldable pub hash_slices : ℕ → ℕ → ℕ → List ℕ → Hasher → Hasher
  hash_slices zero chunk_size offset blob h = h
  hash_slices (suc rounds) chunk_size offset blob h =
      let rest =
        hash_slices rounds chunk_size (offset + chunk_size) blob
          (update h (take chunk_size (drop offset blob))) in
      if ltb offset (length blob) then rest else h

  unfoldable pub sha256_hex_of_blob : List ℕ → ℕ → Utf16
  unfolding hash_slices
  sha256_hex_of_blob blob chunk_size =
      bytes_to_hex (digest (hash_slices (length blob) chunk_size 0 blob create))

  hash_slices_all :
      (rounds chunk_size offset : ℕ) (blob : List ℕ) (h : Hasher)
      → 0 < chunk_size
      → length blob ≤ rounds + offset
      → hash_slices rounds chunk_size offset blob h ≡ update h (drop offset blob)
  unfolding hash_slices
  hash_slices_all zero chunk_size offset blob h positive le =
      rw (drop_all offset blob (omega arith)) (sym (c.update-nil h))
  hash_slices_all (suc rounds) chunk_size offset blob h positive le =
      elim (Bool-cases (ltb offset (length blob))) [
        | inl more ↦ rw more (
            hash_slices_all rounds chunk_size (offset + chunk_size) blob _ positive (omega arith)
            ∙ c.update-update h _ _
            ∙ ap (update h) (
                ap (◌++◌ (take chunk_size (drop offset blob)))
                  (sym (drop-drop offset chunk_size blob))
                ∙ take-append-drop chunk_size (drop offset blob)))
        | inr over ↦ rw (over, drop_all offset blob (ground arith)) (sym (c.update-nil h))
      ]

  -- For a positive chunk size, hashing a blob slice by slice gives the digest of the whole blob.
  pub sha256_hex_of_blob-whole :
      (blob : List ℕ) (chunk_size : ℕ)
      → 0 < chunk_size
      → sha256_hex_of_blob blob chunk_size ≡ bytes_to_hex (digest (update create blob))
  unfolding sha256_hex_of_blob
  sha256_hex_of_blob-whole blob chunk_size positive =
      ap (λ h. bytes_to_hex (digest h))
        (hash_slices_all (length blob) chunk_size 0 blob create positive (omega arith))
