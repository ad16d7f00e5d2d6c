-- ===== src/Client/Storage.antt =====
-- client/src/services/storage/db.ts: the repositories of the history and of the checkpoints. An
-- object store is a `Dict` from its key path; an index lists its records by the index and then by
-- the key.
pub mod History
use file_share_app.Base.{
  ℕ, Bool, true, false, ◌&&◌, ◌||◌, List, [], ◌∷◌, ◌++◌, Option, eqb, ltb, Utf16, utf16_eq,
  if◌then◌else◌,
}
use file_share_app.Base.Dict.{Dict, get, set, delete, values}

pub data SentOrReceived : Type 0 where
  sent received : SentOrReceived

pub data HistoryStatus : Type 0 where
  completed failed cancelled : HistoryStatus

pub record HistoryEntry : Type 0 where
  pub id : Utf16
  pub direction : SentOrReceived
  pub file_name : Utf16
  pub size : ℕ
  pub timestamp : ℕ
  pub status : HistoryStatus
  pub peer_name : Utf16
  pub verified : Bool

pub record TransferCheckpoint : Type 0 where
  pub file_id : Utf16
  pub transfer_id : Utf16
  pub file_name : Utf16
  pub file_size : ℕ
  pub mime_type : Utf16
  pub total_chunks : ℕ
  pub chunk_size : ℕ
  pub received_chunks : List ℕ
  pub updated_at : ℕ

-- The order of string keys: by code units.
abbrev text_leb : Utf16 → Utf16 → Bool
text_leb [] t = true
text_leb (a ∷ s) [] = false
text_leb (a ∷ s) (b ∷ t) = ltb a b || eqb a b && text_leb s t

abbrev pub comes_before : HistoryEntry → HistoryEntry → Bool
comes_before a b = ltb a.timestamp b.timestamp || eqb a.timestamp b.timestamp && text_leb a.id b.id

unfoldable pub insert_entry : HistoryEntry → List HistoryEntry → List HistoryEntry
insert_entry e [] = e ∷ []
insert_entry e (f ∷ fs) =
    let rest = insert_entry e fs in if comes_before e f then e ∷ f ∷ fs else f ∷ rest

-- `getAllFromIndex("history", "by-timestamp")`
unfoldable pub by_timestamp : List HistoryEntry → List HistoryEntry
unfolding insert_entry
by_timestamp [] = []
by_timestamp (e ∷ es) = insert_entry e (by_timestamp es)

abbrev pub reverse : List HistoryEntry → List HistoryEntry
reverse [] = []
reverse (e ∷ es) = reverse es ++ e ∷ []

-- historyRepository
abbrev pub add : HistoryEntry → Dict Utf16 HistoryEntry → Dict Utf16 HistoryEntry
add entry store = set entry.id entry store

unfoldable pub list : Dict Utf16 HistoryEntry → List HistoryEntry
unfolding by_timestamp
list store = reverse (by_timestamp (values store))

abbrev pub clear : Dict Utf16 HistoryEntry → Dict Utf16 HistoryEntry
clear store = []

-- checkpointRepository
abbrev pub save_checkpoint :
    TransferCheckpoint → Dict Utf16 TransferCheckpoint → Dict Utf16 TransferCheckpoint
save_checkpoint checkpoint store = set checkpoint.file_id checkpoint store

abbrev pub get_checkpoint : Utf16 → Dict Utf16 TransferCheckpoint → Option TransferCheckpoint
get_checkpoint file_id store = get file_id store

abbrev pub delete_checkpoint : Utf16 → Dict Utf16 TransferCheckpoint → Dict Utf16 TransferCheckpoint
delete_checkpoint file_id store = delete file_id store
