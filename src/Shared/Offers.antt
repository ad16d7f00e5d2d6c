-- ===== src/Shared/Offers.antt =====
-- fileOfferSchema of shared/src/schemas.ts, and the offer as SenderSession writes it. The text of a
-- message stands as the value that JSON.parse makes of it; a field that is undefined is not written.
pub mod RoundTrip
use file_share_app.Base.{
  ℕ, Bool, true, false, ◌&&◌, List, [], ◌∷◌, length, Option, none, some, leb, Utf16, utf16_eq,
  units, ◌==◌, ◌>>=◌, if◌then◌else◌,
}
use file_share_app.Shared.Constants.{max_files_per_transfer}
use file_share_app.Shared.Json.{
  Json, Items, end, item, Fields, nil, field, number, string, array, object, property,
}
use file_share_app.Shared.Schemas.{bounded_string}
use file_share_app.Shared.FileNames.{FileMetadata, file_metadata}

pub record FileOffer : Type 0 where
  pub transfer_id : Utf16
  pub files : List FileMetadata

-- `z.array(fileMetadataSchema)`: each item passes.
unfoldable pub all_metadata : Items → Option (List FileMetadata)
all_metadata end = some []
all_metadata (item v vs) = do f ← file_metadata (some v); fs ← all_metadata vs; some (f ∷ fs)

-- `.min(1).max(MAX_FILES_PER_TRANSFER)`
abbrev pub within_limits : List FileMetadata → Option (List FileMetadata)
within_limits fs =
    if leb 1 (length fs) && leb (length fs) max_files_per_transfer then some fs else none

unfoldable pub files_array : Option Json → Option (List FileMetadata)
unfolding all_metadata
files_array (some (array items)) = all_metadata items >>= within_limits
files_array _ = none

-- `z.literal("FILE_OFFER")`
abbrev pub offer_literal : Option Json → Option Utf16
offer_literal (some (string s)) = if s == units "FILE_OFFER" then some s else none
offer_literal _ = none

-- `z.number()`
abbrev pub any_number : Option Json → Option Json
any_number (some (number n)) = some (number n)
any_number (some (Json.negative n)) = some (Json.negative n)
any_number (some Json.fraction) = some Json.fraction
any_number _ = none

-- fileOfferSchema
unfoldable pub file_offer : Json → Option FileOffer
unfolding bounded_string files_array property
file_offer v = do
  kind ← offer_literal (property (units "type") v)
  ts ← any_number (property (units "ts") v)
  transfer_id ← bounded_string 1 128 (property (units "transferId") v)
  files ← files_array (property (units "files") v)
  some (record { transfer_id = transfer_id; files = files })

abbrev pub optional_field : Utf16 → Option Utf16 → Fields → Fields
optional_field name none rest = rest
optional_field name (some s) rest = field name (string s) rest

-- One FileMetadata in JSON.
unfoldable pub metadata_json : FileMetadata → Json
metadata_json f = object (
    field (units "id") (string f.id) (
      field (units "name") (string f.name) (
        field (units "size") (number f.size) (
          field (units "type") (string f.mime_type) (
            field (units "lastModified") (number f.last_modified) (
              field (units "totalChunks") (number f.total_chunks) (
                field (units "chunkSize") (number f.chunk_size) (
                  optional_field (units "relativePath") f.relative_path
                    (optional_field (units "checksum") f.checksum nil)))))))))

unfoldable pub metadata_items : List FileMetadata → Items
unfolding metadata_json
metadata_items [] = end
metadata_items (f ∷ fs) = item (metadata_json f) (metadata_items fs)

-- The FILE_OFFER of `onInitialChannelsReady` and of `resumeCurrentFileAfterReconnect`.
unfoldable pub offer_json : ℕ → Utf16 → List FileMetadata → Json
unfolding metadata_items
offer_json ts transfer_id files = object (
    field (units "type") (string (units "FILE_OFFER")) (
      field (units "transferId") (string transfer_id) (
        field (units "files") (array (metadata_items files)) (field (units "ts") (number ts) nil))))
