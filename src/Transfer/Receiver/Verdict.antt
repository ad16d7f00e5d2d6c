-- ===== src/Transfer/Receiver/Verdict.antt =====
-- How the end of a file is judged.
use file_share_app.Base.{
  ℕ, ◌≡◌, refl, sym, ◌∙◌, Bool, true, false, List, [], ◌∷◌, ◌++◌, append-nil, Option, none, some,
  Utf16, utf16_eq, utf16_beq_iff, if◌then◌else◌,
}
use file_share_app.Base.Dict.{Dict, get, set, get-set}
use file_share_app.Client.Storage
use file_share_app.Client.TransferStore.{
  PerFileStatus, TransferFileEntry, TransferStore, set_file_status,
}
use file_share_app.Client.TransferStore.Entries.{set_file_status-get}
use file_share_app.Shared.FileNames.{FileMetadata}
use file_share_app.Transfer.Crypto.{Crypto}
use file_share_app.Transfer.Sink.{ChunkSink}
use file_share_app.Transfer.ChunkReceiver.{Receiver, digest_hex, checksums_match}
use file_share_app.Transfer.Receiver.{Effect, Finalizing, adds_history, saves}
use file_share_app.Transfer.Receiver.Handlers.{Here}
use file_share_app.Transfer.Receiver.Files.{
  contains_id, integrity_error, handle_file_complete, finalized, complete_with, await_finalize,
  conclude, save_blob, with_verdict, history_entry,
}

module _ (c : Crypto) (k : ChunkSink) (Number : Type 0) (nought infinity : Number) where
  abbrev pub saved : Option (List ℕ) → Utf16 → List Effect
  saved none name = []
  saved (some blob) name = saves blob name ∷ []

  save_blob-outputs :
      (blob : Option (List ℕ)) (name : Utf16) (s : Here c k Number nought infinity)
      → (save_blob c k Number nought infinity blob name s).outputs ≡ s.outputs ++ saved blob name
  unfolding save_blob
  save_blob-outputs none name s = sym (append-nil s.outputs)
  save_blob-outputs (some b) name s = refl

  set_status_found :
      (id : Utf16) (status : PerFileStatus)
      (extra : TransferFileEntry Number nought infinity → TransferFileEntry Number nought infinity)
      (t : TransferStore Number nought infinity) (entry : TransferFileEntry Number nought infinity)
      → get id t.files ≡ some entry
      → get id (set_file_status Number nought infinity id status extra t).files
        ≡ some (extra (record entry { status = status }))
  set_status_found id status extra t entry there =
      set_file_status-get Number nought infinity id id status extra t
      ∙ rw ((utf16_beq_iff id id).1 refl, there) refl

  get_set_same {ℓ} :
      {V : Type ℓ} (id : Utf16) (v : V) (d : Dict Utf16 V) → get id (set id v d) ≡ some v
  get_set_same id v d = get-set id id v d ∙ rw ((utf16_beq_iff id id).1 refl) refl

  -- What holds between the two halves of `handleFileComplete`.
  record Awaits (file_id : Utf16) (g : Finalizing) (e : TransferFileEntry Number nought infinity)
      (s t : Here c k Number nought infinity) : Type 0 where
    waits : get file_id t.finalizing ≡ some g
    there : get file_id t.transfers.files ≡ some e
    outputs : t.outputs ≡ s.outputs
    sender_name : t.sender_name ≡ s.sender_name
    completes : contains_id t.completed_file_ids file_id ≡ true

  begun :
      (s : Here c k Number nought infinity) (file_id checksum : Utf16) (r : Receiver c k)
      (f : FileMetadata) (entry : TransferFileEntry Number nought infinity) (verified : Bool)
      → contains_id s.completed_file_ids file_id ≡ false
      → get file_id s.inbox.receivers ≡ some r
      → get file_id s.metadata_by_id ≡ some f
      → get file_id s.transfers.files ≡ some entry
      → checksums_match c (digest_hex c k r).1 checksum ≡ some verified
      → Awaits file_id
          (record { metadata = f; verified = verified })
          (record entry { status = PerFileStatus.verifying })
          s
          (handle_file_complete c k Number nought infinity file_id checksum s)
  unfolding handle_file_complete complete_with await_finalize
  begun s file_id checksum r f entry verified fresh listed known there judged =
      rw (fresh, listed, known)
        (rw (judged, await_finalize)
          (record {
            waits =
                get_set_same file_id (record { metadata = f; verified = verified }) s.finalizing;
            there =
                set_status_found file_id PerFileStatus.verifying (λ e. e) s.transfers entry there;
            outputs = refl;
            sender_name = refl;
            completes = rw ((utf16_beq_iff file_id file_id).1 refl) refl;
          }))

  ended :
      (s t : Here c k Number nought infinity) (file_id : Utf16) (g : Finalizing)
      (entry : TransferFileEntry Number nought infinity) (blob : Option (List ℕ)) (now : ℕ)
      → Awaits file_id g entry s t
      → let u = finalized c k Number nought infinity file_id blob now t in
        (get file_id u.transfers.files
          ≡ some (record entry {
            status = if g.verified then PerFileStatus.completed else PerFileStatus.failed;
            checksum_verified = some g.verified;
            error = if g.verified then none else some integrity_error;
          }))
        × (u.outputs
            ≡ (s.outputs ++ saved blob g.metadata.name)
              ++ adds_history (history_entry g s.sender_name now) ∷ [])
  unfolding finalized conclude
  ended s t file_id g entry blob now h = rw h.waits (
    set_status_found file_id (if g.verified then PerFileStatus.completed else PerFileStatus.failed)
        (with_verdict c k Number nought infinity g.verified) t.transfers entry h.there,
    rw (save_blob-outputs blob g.metadata.name t, h.outputs, h.sender_name) refl,
  )

  -- A file that has a receiver, metadata and an entry and was not completed before, and a checksum
  -- that can be compared: after FILE_COMPLETE and the end of `finalize` the entry is COMPLETED, with
  -- the checksum verified and no error, when the two checksums match, and FAILED with an error when
  -- they do not; the blob, if there is one, was offered under the file's name, and the history got
  -- one entry: the received file's id, name and size, the sender and the time, completed and verified
  -- when the checksums match, and failed and not verified when they do not.
  pub complete-verdict :
      (s : Here c k Number nought infinity) (file_id checksum : Utf16) (r : Receiver c k)
      (f : FileMetadata) (entry : TransferFileEntry Number nought infinity) (blob : Option (List ℕ))
      (now : ℕ) (verified : Bool)
      → contains_id s.completed_file_ids file_id ≡ false
      → get file_id s.inbox.receivers ≡ some r
      → get file_id s.metadata_by_id ≡ some f
      → get file_id s.transfers.files ≡ some entry
      → checksums_match c (digest_hex c k r).1 checksum ≡ some verified
      → let t =
          finalized c k Number nought infinity file_id blob now
            (handle_file_complete c k Number nought infinity file_id checksum s) in
        (get file_id t.transfers.files
          ≡ some (record entry {
            status = if verified then PerFileStatus.completed else PerFileStatus.failed;
            checksum_verified = some verified;
            error = if verified then none else some integrity_error;
          }))
        × (t.outputs
            ≡ (s.outputs ++ saved blob f.name)
              ++ adds_history (record {
                id = f.id;
                direction = Storage.received;
                file_name = f.name;
                size = f.size;
                timestamp = now;
                status = if verified then Storage.completed else Storage.failed;
                peer_name = s.sender_name;
                verified = verified;
              })
                ∷ [])
  complete-verdict s file_id checksum r f entry blob now verified fresh listed known there judged =
      ended s (handle_file_complete c k Number nought infinity file_id checksum s) file_id
        (record { metadata = f; verified = verified })
        (record entry { status = PerFileStatus.verifying }) blob now
        (begun s file_id checksum r f entry verified fresh listed known there judged)
