-- ===== src/Client/TransferStore/Entries.antt =====
-- An update changes one entry at most.
use file_share_app.Base.{
  ◌≡◌, refl, Option, none, some, Utf16, utf16_eq, utf16_beq_iff, ◌==◌, if◌then◌else◌, arith,
}
use file_share_app.Base.Dict.{get, get-set}
use file_share_app.Client.TransferStore.{
  TransferStore, TransferFileEntry, ProgressPatch, patch_progress, change_file, change_found,
  update_file_progress, PerFileStatus, set_file_status,
}

module _ (Number : Type 0) (zero infinity : Number) where
  abbrev pub changed :
      (TransferFileEntry Number zero infinity → TransferFileEntry Number zero infinity)
      → Option (TransferFileEntry Number zero infinity)
      → Option (TransferFileEntry Number zero infinity)
  changed change none = none
  changed change (some f) = some (change f)

  change_found-get :
      (id other : Utf16)
      (change : TransferFileEntry Number zero infinity → TransferFileEntry Number zero infinity)
      (s : TransferStore Number zero infinity) (o : Option (TransferFileEntry Number zero infinity))
      → get id s.files ≡ o
      → get other (change_found Number zero infinity id change s o).files
        ≡ (if id == other then changed change o else get other s.files)
  unfolding change_found
  change_found-get id other change s none e = ground (arith, utf16_beq_iff id other)
  change_found-get id other change s (some f) e = get-set id other (change f) s.files

  -- `updateFileProgress` patches the entry of its id, when there is one, and changes no other.
  pub update_file_progress-get :
      (id other : Utf16) (patch : ProgressPatch Number zero infinity)
      (s : TransferStore Number zero infinity)
      → get other (update_file_progress Number zero infinity id patch s).files ≡ (
          if id == other
          then changed (patch_progress Number zero infinity patch) (get id s.files)
          else get other s.files)
  unfolding update_file_progress change_file
  update_file_progress-get id other patch s =
      change_found-get id other (patch_progress Number zero infinity patch) s (get id s.files) refl

  -- `setFileStatus` sets the status of its id, when it has an entry, and changes no other.
  pub set_file_status-get :
      (id other : Utf16) (status : PerFileStatus)
      (extra : TransferFileEntry Number zero infinity → TransferFileEntry Number zero infinity)
      (s : TransferStore Number zero infinity)
      → get other (set_file_status Number zero infinity id status extra s).files ≡ (
          if id == other
          then changed (λ f. extra (record f { status = status })) (get id s.files)
          else get other s.files)
  unfolding set_file_status change_file
  set_file_status-get id other status extra s =
      change_found-get id other (λ f. extra (record f { status = status })) s (get id s.files) refl
