-- ===== src/Transfer/ChunkReceiver.antt =====
-- client/src/services/transfer/chunkReceiver.ts. The session handles the messages of the file
-- channel one at a time, each to its end, so `handle_chunk` is one step.
pub mod Resume
pub mod Checksums
use Prim.Native.Nat.{bit_or, bit_xor}
use file_share_app.Base.{
  ℕ, zero, suc, ◌*◌, Bool, true, false, ◌&&◌, ◌||◌, not, List, [], ◌∷◌, ◌++◌, length, Option, none,
  some, eqb, leb, Utf16, if◌then◌else◌,
}
use file_share_app.Transfer.Crypto.{Crypto}
use file_share_app.Transfer.Pump.{EncryptionSession}
use file_share_app.Transfer.Sink.{ChunkSink}

-- The part of FileMetadata that the receiver reads.
pub record Metadata : Type 0 where
  pub total_chunks : ℕ
  pub chunk_size : ℕ

-- `receivedChunks.has(n)`
unfoldable pub contains : List ℕ → ℕ → Bool
contains [] n = false
contains (k ∷ ks) n = eqb k n || contains ks n

-- `while (receivedChunks.has(n)) n++`, for as many rounds as there are chunks and one more.
pub first_missing : ℕ → List ℕ → ℕ → ℕ
unfolding contains
first_missing zero received n = n
first_missing (suc rounds) received n =
    let next = first_missing rounds received (suc n) in if contains received n then next else n

-- How `handleChunk` ends: ignored, done with its call of `onProgress`, or rejected.
pub data Handled : Type 0 where
  ignored rejected : Handled
  stored : ℕ → ℕ → Handled

module _ (c : Crypto) (k : ChunkSink) where
  open c use {Hasher, create, update, digest, bytes_to_hex, hex_to_bytes, decrypt}
  open k use {State, write}

  pub record Receiver : Type 0 where
    pub metadata : Metadata
    pub encryption : Option (EncryptionSession c)
    pub hasher : Hasher
    pub received : List ℕ
    pub digested : Bool
    pub sink : State

  unfoldable pub new : Metadata → Option (EncryptionSession c) → State → Receiver
  new metadata encryption sink = record {
    metadata = metadata;
    encryption = encryption;
    hasher = create;
    received = [];
    digested = false;
    sink = sink;
  }

  decrypt_hex : EncryptionSession c → Option (List ℕ) → List ℕ → Option (List ℕ)
  decrypt_hex session none payload = none
  decrypt_hex session (some iv) payload = decrypt session.key iv payload

  -- `if (encryption && ivHex)`: an empty string is no IV.
  unfoldable pub open_payload :
      Option (EncryptionSession c) → Option Utf16 → List ℕ → Option (List ℕ)
  unfolding decrypt_hex
  open_payload none iv_hex payload = some payload
  open_payload (some session) none payload = some payload
  open_payload (some session) (some []) payload = some payload
  open_payload (some session) (some (u ∷ us)) payload =
      decrypt_hex session (hex_to_bytes (u ∷ us)) payload

  keep : Receiver → ℕ → List ℕ → Option State → Receiver × Handled
  keep r chunk_index plaintext none = (r, rejected)
  keep r chunk_index plaintext (some sink) = (
    record r {
      sink = sink;
      hasher = update r.hasher plaintext;
      received = r.received ++ chunk_index ∷ [];
    },
    stored (length plaintext) chunk_index,
  )

  store : Receiver → ℕ → Option (List ℕ) → Receiver × Handled
  unfolding keep
  store r chunk_index none = (r, rejected)
  store r chunk_index (some plaintext) =
      keep r chunk_index plaintext
        (write r.sink chunk_index (chunk_index * r.metadata.chunk_size) plaintext)

  unfoldable pub handle_chunk : Receiver → ℕ → Option Utf16 → List ℕ → Receiver × Handled
  unfolding open_payload store contains
  handle_chunk r chunk_index iv_hex payload =
      if r.digested
      then (r, ignored)
      else if contains r.received chunk_index
      then (r, ignored)
      else store r chunk_index (open_payload r.encryption iv_hex payload)

  unfoldable pub resume_from_chunk : Receiver → ℕ
  unfolding first_missing
  resume_from_chunk r = first_missing (suc (length r.received)) r.received 0

  unfoldable pub is_complete : Receiver → Bool
  unfolding resume_from_chunk
  is_complete r =
      leb r.metadata.total_chunks (length r.received)
      && leb r.metadata.total_chunks (resume_from_chunk r)

  -- `digestHex`
  unfoldable pub digest_hex : Receiver → Receiver × Utf16
  digest_hex r = (record r { digested = true }, bytes_to_hex (digest r.hasher))

-- `for (…) diff |= bytesA[i] ^ bytesB[i]`
pub difference : ℕ → List ℕ → List ℕ → ℕ
difference diff (a ∷ s) (b ∷ t) = difference (bit_or diff (bit_xor a b)) s t
difference diff _ _ = diff

module _ (c : Crypto) where
  open c use {hex_to_bytes}

  compare_bytes : Option (List ℕ) → Option (List ℕ) → Option Bool
  unfolding difference
  compare_bytes (some a) (some b) =
      some (if not (eqb (length a) (length b)) then false else eqb (difference 0 a b) 0)
  compare_bytes _ _ = none

  -- `none`: `hexToBytes` threw.
  unfoldable pub checksums_match : Utf16 → Utf16 → Option Bool
  unfolding compare_bytes
  checksums_match a b =
      if not (eqb (length a) (length b))
      then some false
      else compare_bytes (hex_to_bytes a) (hex_to_bytes b)
