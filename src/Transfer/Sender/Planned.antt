-- ===== src/Transfer/Sender/Planned.antt =====
-- What a session makes of the files of its queue fits the two ends of the transfer.
use file_share_app.Base.{
  ℕ, suc, ap, ◌≤◌, ◌≡◌, ◌≢◌, refl, List, [], ◌∷◌, map, length, All, Option, none, some, Utf16,
  units, arith,
}
use file_share_app.Shared.Constants.{max_files_per_transfer}
use file_share_app.Shared.FileNames.{sanitize_file_name}
use file_share_app.Shared.FileNames.Sanitized.{sanitize_file_name-IsPlain}
use file_share_app.Shared.FileNames.Safe.{sanitize_file_name-safe}
use file_share_app.Shared.Offers.{file_offer, offer_json}
use file_share_app.Shared.Offers.RoundTrip.{IsSendable, paths, offer_round_trip}
use file_share_app.Transfer.ChunkSize.{select_chunk_size}
use file_share_app.Transfer.ChunkSize.Ladder.{IsRung, select_chunk_size-IsRung, total_chunks_covers}
use file_share_app.Transfer.Crypto.{Crypto}
use file_share_app.Transfer.Sink.{ChunkSink}
use file_share_app.Transfer.Pump.{EncryptionSession}
use file_share_app.Transfer.Delivery.Chunk.{IsPlanned, HasByteSalt}
use file_share_app.Transfer.Sender.{SourceFile, with_metadata, type_or_default}
use file_share_app.Transfer.Sender.Loop.{config_of}

-- What is asked of a file: an id, no path or type that is too long, and a name that is not
-- sanitized to a single dot.
pub record IsOfferable (f : SourceFile) : Type 0 where
  pub has_id : 1 ≤ length f.id
  pub short_id : length f.id ≤ 128
  pub short_type : length f.mime_type ≤ 255
  pub short_path : All (λ path. length path ≤ 1024) (paths f.relative_path)
  pub named : sanitize_file_name f.name ≢ units "."

rung-positive : (n : ℕ) → IsRung n → 1 ≤ n
rung-positive n h = ground arith

chunk_size_positive : (memory : Option ℕ) (size : ℕ) → 1 ≤ select_chunk_size memory size none
chunk_size_positive memory size = rung-positive _ (select_chunk_size-IsRung memory size none)

length-type_or_default : (t : Utf16) → length t ≤ 255 → length (type_or_default t) ≤ 255
length-type_or_default [] h = omega arith
length-type_or_default (u ∷ us) h = h

with_metadata-IsSendable :
    (memory : Option ℕ) (f : SourceFile)
    → IsOfferable f
    → IsSendable (with_metadata memory f).metadata
unfolding with_metadata
with_metadata-IsSendable memory f h =
    let (plain, some_name, short) = sanitize_file_name-IsPlain f.name in
    record {
      has_id = h.has_id;
      short_id = h.short_id;
      has_name = some_name;
      short_name = short;
      safe = sanitize_file_name-safe f.name h.named;
      short_type = length-type_or_default f.mime_type h.short_type;
      has_chunks =
          (total_chunks_covers (length f.content) _
            (chunk_size_positive memory (length f.content))).0;
      has_chunk_size = chunk_size_positive memory (length f.content);
      short_path = h.short_path;
      no_checksum = refl;
    }

with_metadata-All-IsSendable :
    (memory : Option ℕ) (fs : List SourceFile)
    → All IsOfferable fs
    → All IsSendable (map (λ q. q.metadata) (map (with_metadata memory) fs))
with_metadata-All-IsSendable memory [] h = tt
with_metadata-All-IsSendable memory (f ∷ fs) (h, hs) =
    (with_metadata-IsSendable memory f h, with_metadata-All-IsSendable memory fs hs)

length-metadata :
    (memory : Option ℕ) (fs : List SourceFile)
    → length (map (λ q. q.metadata) (map (with_metadata memory) fs)) ≡ length fs
length-metadata memory [] = refl
length-metadata memory (f ∷ fs) = ap suc (length-metadata memory fs)

-- The FILE_OFFER that a session sends for its queue passes the receiver's schema, which gives back
-- the metadata of the queue as they are, for 1 to 500 files with ids of 1 to 128 units, types of at
-- most 255 and paths of at most 1024, none of whose names is sanitized to a single dot, and a
-- transfer id of 1 to 128 units.
pub offer-received :
    (memory : Option ℕ) (ts : ℕ) (transfer_id : Utf16) (fs : List SourceFile)
    → 1 ≤ length transfer_id
    → length transfer_id ≤ 128
    → 1 ≤ length fs
    → length fs ≤ max_files_per_transfer
    → All IsOfferable fs
    → let files = map (λ q. q.metadata) (map (with_metadata memory) fs) in
      file_offer (offer_json ts transfer_id files)
      ≡ some (record { transfer_id = transfer_id; files = files })
offer-received memory ts transfer_id fs some_id short_id some_file few h =
    let count = length-metadata memory fs in
    offer_round_trip ts transfer_id _ some_id short_id (omega (arith, count, some_file))
      (omega (arith, count, few)) (with_metadata-All-IsSendable memory fs h)

module _ (c : Crypto) (k : ChunkSink) where
  -- The pump of every file of the queue, under a session key whose salt is made of bytes or under
  -- none, is set up for the file's own bytes, with a positive chunk size and the number of chunks
  -- that the end-to-end results ask for.
  pub config_of-IsPlanned :
      (memory : Option ℕ) (f : SourceFile) (i : ℕ) (encryption : Option (EncryptionSession c))
      → HasByteSalt c k (config_of c (with_metadata memory f) i encryption) encryption
      → IsPlanned c k (config_of c (with_metadata memory f) i encryption)
        × ((config_of c (with_metadata memory f) i encryption).file ≡ f.content)
  unfolding with_metadata
  config_of-IsPlanned memory f i encryption salted = (
    record {
      positive = chunk_size_positive memory (length f.content);
      counted = refl;
      salted = salted;
    },
    refl,
  )
