-- ===== src/Client/TransferStore.antt =====
-- client/src/stores/useTransferStore.ts: the files of a transfer. Speeds and times are floating
-- point numbers, and pass through as values of the parameter `Number`.
pub mod Entries
use file_share_app.Base.{ℕ, Bool, List, [], ◌∷◌, map, Option, none, some, Utf16, utf16_eq}
use file_share_app.Base.Dict.{Dict, get, set}
use file_share_app.Transfer.StateMachine.{TransferState, idle}

pub data PerFileStatus : Type 0 where
  queued transferring paused verifying completed failed cancelled : PerFileStatus

pub data Direction : Type 0 where
  sends receives : Direction

abbrev or_old {ℓ} : {A : Type ℓ} → Option A → A → A
or_old none old = old
or_old (some new) old = new

module _ (Number : Type 0) (zero infinity : Number) where
  pub record TransferFileEntry : Type 0 where
    pub id : Utf16
    pub name : Utf16
    pub size : ℕ
    pub mime_type : Utf16
    pub status : PerFileStatus
    pub bytes_transferred : ℕ
    pub current_speed_bps : Number
    pub average_speed_bps : Number
    pub eta_seconds : Number
    pub checksum_verified : Option Bool
    pub error : Option Utf16

  pub record TransferStore : Type 0 where
    pub transfer_state : TransferState
    pub direction : Option Direction
    pub peer_display_name : Option Utf16
    pub files : Dict Utf16 TransferFileEntry
    pub file_order : List Utf16
    pub overall_speed_bps : Number
    pub overall_eta_seconds : Number

  abbrev pub initial : TransferStore
  initial = record {
    transfer_state = idle;
    direction = none;
    peer_display_name = none;
    files = [];
    file_order = [];
    overall_speed_bps = zero;
    overall_eta_seconds = infinity;
  }

  pub record NewFile : Type 0 where
    pub id : Utf16
    pub name : Utf16
    pub size : ℕ
    pub mime_type : Utf16

  abbrev pub queued_entry : NewFile → TransferFileEntry
  queued_entry f = record {
    id = f.id;
    name = f.name;
    size = f.size;
    mime_type = f.mime_type;
    status = queued;
    bytes_transferred = 0;
    current_speed_bps = zero;
    average_speed_bps = zero;
    eta_seconds = infinity;
    checksum_verified = none;
    error = none;
  }

  abbrev pub set_transfer_state : TransferState → TransferStore → TransferStore
  set_transfer_state state s = record s { transfer_state = state }

  abbrev pub set_direction : Option Direction → TransferStore → TransferStore
  set_direction direction s = record s { direction = direction }

  abbrev pub set_peer_display_name : Option Utf16 → TransferStore → TransferStore
  set_peer_display_name name s = record s { peer_display_name = name }

  -- `Object.fromEntries`: of a repeated id the last counts.
  unfoldable pub add_entries :
      Dict Utf16 TransferFileEntry → List NewFile → Dict Utf16 TransferFileEntry
  add_entries entries [] = entries
  add_entries entries (f ∷ fs) = add_entries (set f.id (queued_entry f) entries) fs

  unfoldable pub init_files : List NewFile → TransferStore → TransferStore
  unfolding add_entries
  init_files fs s = record s { files = add_entries [] fs; file_order = map (λ f. f.id) fs }

  pub record ProgressPatch : Type 0 where
    pub bytes_transferred : Option ℕ
    pub current_speed_bps : Option Number
    pub average_speed_bps : Option Number
    pub eta_seconds : Option Number

  abbrev pub patch_progress : ProgressPatch → TransferFileEntry → TransferFileEntry
  patch_progress p f = record f {
    bytes_transferred = or_old p.bytes_transferred f.bytes_transferred;
    current_speed_bps = or_old p.current_speed_bps f.current_speed_bps;
    average_speed_bps = or_old p.average_speed_bps f.average_speed_bps;
    eta_seconds = or_old p.eta_seconds f.eta_seconds;
  }

  -- An update of the entry of an id, and of nothing when there is none.
  change_found :
      Utf16
      → (TransferFileEntry → TransferFileEntry)
      → TransferStore
      → Option TransferFileEntry
      → TransferStore
  change_found id change s none = s
  change_found id change s (some existing) = record s { files = set id (change existing) s.files }

  unfoldable pub change_file :
      Utf16 → (TransferFileEntry → TransferFileEntry) → TransferStore → TransferStore
  unfolding change_found
  change_file id change s = change_found id change s (get id s.files)

  unfoldable pub update_file_progress : Utf16 → ProgressPatch → TransferStore → TransferStore
  unfolding change_file
  update_file_progress id patch s = change_file id (patch_progress patch) s

  -- `extra` as the callers give it: a verdict or an error.
  unfoldable pub set_file_status :
      Utf16
      → PerFileStatus
      → (TransferFileEntry → TransferFileEntry)
      → TransferStore
      → TransferStore
  unfolding change_file
  set_file_status id status extra s = change_file id (λ f. extra (record f { status = status })) s

  abbrev pub set_overall_speed : Number → Number → TransferStore → TransferStore
  set_overall_speed speed_bps eta_seconds s = record s {
    overall_speed_bps = speed_bps;
    overall_eta_seconds = eta_seconds;
  }

  abbrev pub reset : TransferStore → TransferStore
  reset s = initial
