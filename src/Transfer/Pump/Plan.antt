-- ===== src/Transfer/Pump/Plan.antt =====
-- What a pump is to send: the chunks of the file in order, and the digest of all its bytes.
use file_share_app.Base.{
  ℕ, zero, suc, ◌+◌, ◌-◌, ◌*◌, ◌≤◌, min, ◌≡◌, ap, ◌∙◌, List, [], ◌++◌, length, take, drop, Option,
  none, some, arith, take-add, take-min, take_all, length-drop,
}
use file_share_app.Transfer.Crypto.{Crypto}
use file_share_app.Transfer.Pump.{slice, Output, EncryptionSession, Config, chunk, announce, sealed}

-- The end of a slice need not be clamped: the file ends there.
slice_clamped :
    (content : List ℕ) (m n : ℕ)
    → slice content m (min (m + n) (length content)) ≡ take n (drop m content)
slice_clamped content m n =
    ap (λ k. take k (drop m content)) {x = min (m + n) (length content) - m}
      {y = min n (length (drop m content))} (omega (arith, length-drop m content))
    ∙ take-min n (drop m content)

module _ (c : Crypto) where
  open c use {Hasher, create, update, update-update}

  -- The first `n` chunks, as one piece.
  unfoldable pub bytes_before : Config c → ℕ → List ℕ
  bytes_before cfg n = take (n * cfg.chunk_size) cfg.file

  -- The callbacks of round `i`.
  unfoldable pub outputs_of : Config c → Option (EncryptionSession c) → ℕ → List Output
  outputs_of cfg none i = announce c cfg i (chunk c cfg i) none
  outputs_of cfg (some session) i =
      let (payload, iv_hex) = sealed c session cfg.file_index i (chunk c cfg i) in
      announce c cfg i payload (some iv_hex)

  -- The callbacks of the `k` rounds that begin with round `from_chunk`.
  unfoldable pub outputs_from : Config c → ℕ → ℕ → List Output
  outputs_from cfg from_chunk zero = []
  outputs_from cfg from_chunk (suc k) =
      outputs_from cfg from_chunk k ++ outputs_of cfg cfg.encryption (from_chunk + k)

  unfoldable pub hashed : Config c → ℕ → Hasher
  hashed cfg n = update create (bytes_before cfg n)

  -- One more chunk is the next piece of the file.
  pub bytes_before-suc :
      (cfg : Config c) (n : ℕ) → bytes_before cfg n ++ chunk c cfg n ≡ bytes_before cfg (suc n)
  unfolding bytes_before chunk
  bytes_before-suc cfg n =
      ap (◌++◌ (take (n * cfg.chunk_size) cfg.file))
        (slice_clamped cfg.file (n * cfg.chunk_size) cfg.chunk_size)
      ∙ take-add (n * cfg.chunk_size) cfg.chunk_size cfg.file
      ∙ ap (λ k. take k cfg.file) {x = n * cfg.chunk_size + cfg.chunk_size}
          {y = suc n * cfg.chunk_size} (grind arith)

  pub update-hashed :
      (cfg : Config c) (n : ℕ) → update (hashed cfg n) (chunk c cfg n) ≡ hashed cfg (suc n)
  unfolding hashed
  update-hashed cfg n = update-update create _ _ ∙ ap (update create) (bytes_before-suc cfg n)

  -- As many chunks as cover the file are the file.
  pub bytes_before_all :
      (cfg : Config c) (n : ℕ)
      → length cfg.file ≤ n * cfg.chunk_size
      → bytes_before cfg n ≡ cfg.file
  unfolding bytes_before
  bytes_before_all cfg n h = take_all (n * cfg.chunk_size) cfg.file h

  pub hashed_all :
      (cfg : Config c) (n : ℕ)
      → length cfg.file ≤ n * cfg.chunk_size
      → hashed cfg n ≡ update create cfg.file
  unfolding hashed
  hashed_all cfg n h = ap (update create) (bytes_before_all cfg n h)

  pub hashed_zero : (cfg : Config c) → hashed cfg 0 ≡ create
  unfolding hashed bytes_before
  hashed_zero cfg =
      ap (λ k. update create (take k cfg.file)) {x = 0 * cfg.chunk_size} {y = 0} (omega arith)
      ∙ c.update-nil create
