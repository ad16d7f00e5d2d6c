-- ===== src/Transfer/Delivery/Chunk.antt =====
-- What a receiver holds, and what the two frames of one chunk do to it.
use file_share_app.Base.{
  ℕ, zero, suc, ◌*◌, ◌≤◌, ◌<◌, ◌≡◌, refl, sym, ap, ◌∙◌, false, List, [], ◌∷◌, ◌++◌, length,
  length-append, length-take, All, Option, none, some, ltb, lt→ltb, leb, leb→le, ◌||◌, eqb, arith,
  Utf16, utf16_eq, Bool-cases, inl, inr,
}
use file_share_app.Transfer.Crypto.{Crypto}
use file_share_app.Transfer.Crypto.Iv.{iv_for_chunk, iv_for_chunk_bytes, length-iv_for_chunk}
use file_share_app.Transfer.ChunkSize.{total_chunks}
use file_share_app.Transfer.ChunkSize.Ladder.{total_chunks_least}
use file_share_app.Transfer.Sink.{ChunkSink}
use file_share_app.Transfer.Pump.{Config, EncryptionSession, chunk, sealed}
use file_share_app.Transfer.Pump.Plan.{bytes_before, bytes_before-suc, hashed, update-hashed}
use file_share_app.Transfer.ChunkReceiver.{Receiver, contains, handle_chunk, open_payload}

module _ (c : Crypto) (k : ChunkSink) (cfg : Config c) where
  open c use {encrypt, decrypt, bytes_to_hex, hex_to_bytes}

  abbrev pub HasByteSalt : Option (EncryptionSession c) → Type 0
  HasByteSalt none = Unit
  HasByteSalt (some session) = All (λ b. b < 256) session.iv_salt

  -- The sender cut the file as it announced, and its salt is made of bytes.
  pub record IsPlanned : Type 0 where
    pub positive : 0 < cfg.chunk_size
    pub counted : cfg.total_chunks ≡ total_chunks (length cfg.file) cfg.chunk_size
    pub salted : HasByteSalt cfg.encryption

  -- The receiver has the first `n` chunks: in its sink, in its digest and in its set.
  pub record Holds (n : ℕ) (r : Receiver c k) : Type 0 where
    pub hasher : r.hasher ≡ hashed c cfg n
    pub contents : k.contents r.sink ≡ bytes_before c cfg n
    pub below : k.Below n r.sink
    pub unfinished : r.digested ≡ false
    pub chunk_size : r.metadata.chunk_size ≡ cfg.chunk_size
    pub total_chunks : r.metadata.total_chunks ≡ cfg.total_chunks
    pub encryption : r.encryption ≡ cfg.encryption
    pub received : (m : ℕ) → contains r.received m ≡ ltb m n
    pub count : length r.received ≡ n

  past_the_end :
      (n : ℕ) → IsPlanned → n < cfg.total_chunks → length cfg.file < n * cfg.chunk_size → ⊥
  past_the_end zero plan lt past = absurd (omega arith)
  past_the_end (suc n) plan lt past =
      let few =
        total_chunks_least (length cfg.file) cfg.chunk_size (suc n) plan.positive (omega arith)
          (omega arith) in
      omega (arith, few, plan.counted)

  -- Every chunk but those past the end begins within the file.
  pub chunk_begins :
      IsPlanned → (n : ℕ) → n < cfg.total_chunks → n * cfg.chunk_size ≤ length cfg.file
  chunk_begins plan n lt = elim (Bool-cases (leb (n * cfg.chunk_size) (length cfg.file))) [
    | inl within ↦ leb→le _ _ within
    | inr past ↦ absurd (past_the_end n plan lt (ground arith))
  ]

  length-bytes_before :
      IsPlanned
      → (n : ℕ) → n < cfg.total_chunks
      → length (bytes_before c cfg n) ≡ n * cfg.chunk_size
  unfolding bytes_before
  length-bytes_before plan n lt =
      omega (arith, length-take (n * cfg.chunk_size) cfg.file, chunk_begins plan n lt)

  open_payload_hex :
      (session : EncryptionSession c) (iv bytes : List ℕ) (hex : Utf16)
      → hex_to_bytes hex ≡ some iv
      → 0 < length hex
      → open_payload c k (some session) (some hex) (encrypt session.key iv bytes) ≡ some bytes
  unfolding open_payload
  open_payload_hex session iv bytes [] e h = absurd (omega arith)
  open_payload_hex session iv bytes (u ∷ us) e h =
      rw (e, open_payload) (c.decrypt-encrypt session.key iv bytes)

  -- What the sender sealed the receiver opens.
  pub open_payload-sealed :
      (session : EncryptionSession c) (i : ℕ) (bytes : List ℕ)
      → All (λ b. b < 256) session.iv_salt
      → open_payload c k
          (some session)
          (some (sealed c session cfg.file_index i bytes).1)
          (sealed c session cfg.file_index i bytes).0
        ≡ some bytes
  unfolding sealed
  open_payload-sealed session i bytes h =
      let iv = iv_for_chunk session.iv_salt cfg.file_index i in
      open_payload_hex session iv bytes (bytes_to_hex iv)
        (c.hex_round_trip iv (iv_for_chunk_bytes session.iv_salt cfg.file_index i h))
        (omega
          (arith, c.length-bytes_to_hex iv, length-iv_for_chunk session.iv_salt cfg.file_index i))

  contains-snoc : (ks : List ℕ) (n m : ℕ) → contains (ks ++ n ∷ []) m ≡ (contains ks m || eqb n m)
  unfolding contains
  contains-snoc [] n m = ground arith
  contains-snoc (j ∷ ks) n m = ground (arith, contains-snoc ks n m)

  -- A chunk that is there already changes nothing.
  pub handle_chunk_again :
      (r : Receiver c k) (n i : ℕ) (iv : Option Utf16) (bytes : List ℕ)
      → Holds n r
      → i < n
      → (handle_chunk c k r i iv bytes).0 ≡ r
  unfolding handle_chunk
  handle_chunk_again r n i iv bytes h lt = rw (h.unfinished, h.received i, lt→ltb i n lt)

  -- The next chunk is written, hashed and recorded.
  pub handle_chunk_next :
      (r : Receiver c k) (n : ℕ) (iv : Option Utf16) (bytes : List ℕ)
      → IsPlanned
      → n < cfg.total_chunks
      → Holds n r
      → open_payload c k r.encryption iv bytes ≡ some (chunk c cfg n)
      → Holds (suc n) (handle_chunk c k r n iv bytes).0
  unfolding handle_chunk
  handle_chunk_next r n iv bytes plan lt h opened =
      let piece = chunk c cfg n in
      let (sink, written, holds, below) = k.write-append r.sink n piece h.below in
      let offset : n * r.metadata.chunk_size ≡ length (k.contents r.sink) =
        rw (h.chunk_size, h.contents) (sym (length-bytes_before plan n lt)) in
      let absent : contains r.received n ≡ false = h.received n ∙ ground arith in
      rw (h.unfinished, absent, opened, handle_chunk)
        (rw (offset, written, handle_chunk)
          (record {
            hasher = ap (λ g. c.update g piece) h.hasher ∙ update-hashed c cfg n;
            contents = holds ∙ ap (λ s. s ++ piece) h.contents ∙ bytes_before-suc c cfg n;
            below = below;
            unfinished = refl;
            chunk_size = h.chunk_size;
            total_chunks = h.total_chunks;
            encryption = h.encryption;
            received = λ m. ground (arith, contains-snoc r.received n m, h.received m);
            count = omega (arith, length-append r.received (n ∷ []), h.count);
          }))
