-- ===== src/Shared/Offers/RoundTrip.antt =====
-- An offer that is written is read back.
use file_share_app.Base.{
  ℕ, ◌≤◌, ◌≡◌, refl, sym, ap, subst, List, [], ◌∷◌, length, All, Option, none, some, le→leb, Utf16,
  utf16_beq, arith,
}
use file_share_app.Shared.Constants.{max_files_per_transfer}
use file_share_app.Shared.Json.{get_field, property}
use file_share_app.Shared.Schemas.{bounded_string, optional}
use file_share_app.Shared.FileNames.{
  FileMetadata, file_metadata, natural_from, safe_file_name, safe_name, checksum_text,
}
use file_share_app.Shared.Offers.{
  file_offer, files_array, all_metadata, metadata_json, metadata_items, offer_json,
}

abbrev pub paths : Option Utf16 → List Utf16
paths none = []
paths (some path) = path ∷ []

-- What the schema asks of the metadata of a file, apart from its checksum.
pub record IsSendable (f : FileMetadata) : Type 0 where
  pub has_id : 1 ≤ length f.id
  pub short_id : length f.id ≤ 128
  pub has_name : 1 ≤ length f.name
  pub short_name : length f.name ≤ 255
  pub safe : safe_name (some f.name) ≡ some f.name
  pub short_type : length f.mime_type ≤ 255
  pub has_chunks : 1 ≤ f.total_chunks
  pub has_chunk_size : 1 ≤ f.chunk_size
  pub short_path : All (λ path. length path ≤ 1024) (paths f.relative_path)
  pub no_checksum : f.checksum ≡ none

metadata_round_trip :
    (id name mime_type : Utf16) (size last_modified total_chunks chunk_size : ℕ)
    (relative_path : Option Utf16)
    → let f : FileMetadata = record {
      id = id;
      name = name;
      size = size;
      mime_type = mime_type;
      last_modified = last_modified;
      total_chunks = total_chunks;
      chunk_size = chunk_size;
      relative_path = relative_path;
      checksum = none;
    } in
      IsSendable f → file_metadata (some (metadata_json f)) ≡ some f
unfolding file_metadata metadata_json property get_field bounded_string natural_from optional
    safe_file_name checksum_text utf16_beq
metadata_round_trip id name mime_type size last_modified total_chunks chunk_size none h =
    rw
      (
        le→leb 1 (length id) h.has_id,
        le→leb (length id) 128 h.short_id,
        le→leb 1 (length name) h.has_name,
        le→leb (length name) 255 h.short_name,
        h.safe,
        le→leb 0 size (omega arith),
        le→leb 0 (length mime_type) (omega arith),
        le→leb (length mime_type) 255 h.short_type,
        le→leb 0 last_modified (omega arith),
        le→leb 1 total_chunks h.has_chunks,
        le→leb 1 chunk_size h.has_chunk_size,
      )
      refl
metadata_round_trip id name mime_type size last_modified total_chunks chunk_size (some path) h =
    rw
      (
        le→leb 1 (length id) h.has_id,
        le→leb (length id) 128 h.short_id,
        le→leb 1 (length name) h.has_name,
        le→leb (length name) 255 h.short_name,
        h.safe,
        le→leb 0 size (omega arith),
        le→leb 0 (length mime_type) (omega arith),
        le→leb (length mime_type) 255 h.short_type,
        le→leb 0 last_modified (omega arith),
        le→leb 1 total_chunks h.has_chunks,
        le→leb 1 chunk_size h.has_chunk_size,
        le→leb 0 (length path) (omega arith),
        le→leb (length path) 1024 h.short_path.0,
      )
      refl

sendable_round_trip :
    (f : FileMetadata) → IsSendable f → file_metadata (some (metadata_json f)) ≡ some f
sendable_round_trip f h =
    let e : f ≡ record f { checksum = none } = ap (λ o. record f { checksum = o }) h.no_checksum in
    subst (λ g. file_metadata (some (metadata_json g)) ≡ some g) (sym e)
      (metadata_round_trip f.id f.name f.mime_type f.size f.last_modified f.total_chunks
        f.chunk_size f.relative_path (subst IsSendable e h))

metadata_items_round_trip :
    (fs : List FileMetadata) → All IsSendable fs → all_metadata (metadata_items fs) ≡ some fs
unfolding all_metadata metadata_items
metadata_items_round_trip [] h = refl
metadata_items_round_trip (f ∷ fs) (h, hs) =
    rw (sendable_round_trip f h, metadata_items_round_trip fs hs) refl

-- An offer of 1 to 500 files whose metadata the schema takes and have no checksum, with a transfer
-- id of 1 to 128 units, is read back from its JSON as it was.
pub offer_round_trip :
    (ts : ℕ) (transfer_id : Utf16) (fs : List FileMetadata)
    → 1 ≤ length transfer_id
    → length transfer_id ≤ 128
    → 1 ≤ length fs
    → length fs ≤ max_files_per_transfer
    → All IsSendable fs
    → file_offer (offer_json ts transfer_id fs)
      ≡ some (record { transfer_id = transfer_id; files = fs })
unfolding file_offer offer_json files_array property get_field bounded_string utf16_beq
offer_round_trip ts transfer_id fs some_id short_id some_file few h =
    rw
      (
        le→leb 1 (length transfer_id) some_id,
        le→leb (length transfer_id) 128 short_id,
        metadata_items_round_trip fs h,
        le→leb 1 (length fs) some_file,
        le→leb (length fs) max_files_per_transfer few,
      )
      refl
