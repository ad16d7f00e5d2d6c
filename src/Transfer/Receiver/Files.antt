-- ===== src/Transfer/Receiver/Files.antt =====
-- The files: progress, the frames of the file channel, the end of a file, and the end of a session.
use file_share_app.Base.{
  ℕ, ◌+◌, Bool, true, false, ◌||◌, List, [], ◌∷◌, Option, none, some, Utf16, utf16_eq, units, ◌==◌,
  if◌then◌else◌,
}
use file_share_app.Base.Dict.{get, set, delete}
use file_share_app.Shared.FileNames.{FileMetadata}
use file_share_app.Client.ConnectionStore.{ConnectionState}
use file_share_app.Client.TransferStore.{
  PerFileStatus, TransferFileEntry, update_file_progress, set_file_status,
}
use file_share_app.Client.Storage.{HistoryEntry}
use file_share_app.Client.Storage
use file_share_app.Transfer.Crypto.{Crypto}
use file_share_app.Transfer.Sink.{ChunkSink}
use file_share_app.Transfer.StateMachine.{TransferState}
use file_share_app.Transfer.ChunkReceiver.{
  Receiver, Handled, ignored, rejected, stored, handle_chunk, digest_hex, checksums_match,
}
use file_share_app.Transfer.Delivery.{ChunkMeta, Frame, handle_frame, payload}
use file_share_app.Transfer.ControlProtocol.{ControlMessage}
use file_share_app.Transfer.Receiver.{
  Timer, no_timer, spent, Finalizing, closes_signaling, saves, adds_history, closes_peer,
}
use file_share_app.Transfer.Receiver.Handlers.{
  Here, do_effect, set_transfer, set_connection, send_control,
}
use file_share_app.Transfer.Receiver.Messages.{session_init, handle_file_offer}

abbrev pub contains_id : List Utf16 → Utf16 → Bool
contains_id [] id = false
contains_id (i ∷ ids) id = i == id || contains_id ids id

abbrev clear : Timer → Timer
clear no_timer = no_timer
clear _ = spent

abbrev pub integrity_error : Utf16
integrity_error = units "Integrity verification failed"

abbrev pub history_entry : Finalizing → Utf16 → ℕ → HistoryEntry
history_entry f peer_name now = record {
  id = f.metadata.id;
  direction = Storage.received;
  file_name = f.metadata.name;
  size = f.metadata.size;
  timestamp = now;
  status = if f.verified then Storage.completed else Storage.failed;
  peer_name = peer_name;
  verified = f.verified;
}

module _ (c : Crypto) (k : ChunkSink) (Number : Type 0) (nought infinity : Number) where
  -- What the trackers of speed read after a chunk was recorded.
  pub record Speeds : Type 0 where
    pub current_speed_bps : Number
    pub average_speed_bps : Number
    pub eta_seconds : Number

  abbrev size_of : Option FileMetadata → ℕ
  size_of none = 0
  size_of (some f) = f.size

  abbrev pub bytes_of : Option (TransferFileEntry Number nought infinity) → ℕ
  bytes_of none = 0
  bytes_of (some f) = f.bytes_transferred

  unfoldable pub is_transferring : Option (TransferFileEntry Number nought infinity) → Bool
  is_transferring none = false
  is_transferring (some f) = is_status f.status
    where
      is_status : PerFileStatus → Bool
      is_status PerFileStatus.transferring = true
      is_status _ = false

  -- `current` is the entry before the update.
  unfoldable pub on_chunk_progress :
      Speeds → Utf16 → ℕ → Here c k Number nought infinity → Here c k Number nought infinity
  unfolding is_transferring
  on_chunk_progress speeds file_id bytes s =
      let current = get file_id s.transfers.files in
      let updated =
        update_file_progress Number nought infinity file_id
          (record {
            bytes_transferred = some (bytes_of current + bytes);
            current_speed_bps = some speeds.current_speed_bps;
            average_speed_bps = some speeds.average_speed_bps;
            eta_seconds = some speeds.eta_seconds;
          })
          s.transfers in
      record s {
        transfers =
            if is_transferring current
            then updated
            else set_file_status Number nought infinity file_id PerFileStatus.transferring (λ f. f)
                updated;
      }

  -- The call of `onProgress` at the end of `handleChunk`.
  unfoldable pub progress_of :
      Speeds → Utf16 → Handled → Here c k Number nought infinity → Here c k Number nought infinity
  unfolding on_chunk_progress
  progress_of speeds file_id ignored s = s
  progress_of speeds file_id rejected s = s
  progress_of speeds file_id (stored bytes chunk_index) s = on_chunk_progress speeds file_id bytes s

  unfoldable pub handled_by : ChunkMeta → List ℕ → Option (Receiver c k) → Handled
  handled_by m bytes none = ignored
  handled_by m bytes (some r) = (handle_chunk c k r m.chunk_index m.iv bytes).1

  unfoldable pub payload_progress :
      Speeds
      → Option ChunkMeta
      → List ℕ
      → Here c k Number nought infinity
      → Here c k Number nought infinity
      → Here c k Number nought infinity
  unfolding progress_of handled_by
  payload_progress speeds none bytes before s = s
  payload_progress speeds (some m) bytes before s =
      progress_of speeds m.file_id (handled_by m bytes (get m.file_id before.inbox.receivers)) s

  -- A frame of chunks on the file channel, to its end.
  unfoldable pub handle_chunk_frame :
      Speeds → Frame → Here c k Number nought infinity → Here c k Number nought infinity
  unfolding payload_progress
  handle_chunk_frame speeds (Frame.chunk_meta m) s = record s {
    inbox = handle_frame c k s.inbox (Frame.chunk_meta m);
  }
  handle_chunk_frame speeds (payload bytes) s =
      payload_progress speeds s.inbox.pending bytes s
        (record s { inbox = handle_frame c k s.inbox (payload bytes) })

  -- `checksumsMatch`; when it throws the file stays as it is.
  unfoldable pub await_finalize :
      Utf16
      → FileMetadata
      → Option Bool
      → Here c k Number nought infinity
      → Here c k Number nought infinity
  await_finalize file_id f none s = s
  await_finalize file_id f (some verified) s = record s {
    finalizing = set file_id (record { metadata = f; verified = verified }) s.finalizing;
  }

  unfoldable pub complete_with :
      Utf16
      → Utf16
      → Option (Receiver c k)
      → Option FileMetadata
      → Here c k Number nought infinity
      → Here c k Number nought infinity
  unfolding await_finalize
  complete_with file_id checksum (some r) (some f) s =
      let (digested, digest) = digest_hex c k r in
      await_finalize file_id f (checksums_match c digest checksum) (record s {
        completed_file_ids = file_id ∷ s.completed_file_ids;
        transfers =
            set_file_status Number nought infinity file_id PerFileStatus.verifying (λ e. e)
              s.transfers;
        inbox = record {
          pending = s.inbox.pending;
          receivers = set file_id digested s.inbox.receivers;
        };
      })
  complete_with file_id checksum _ _ s = s

  -- `handleFileComplete` up to `finalize`.
  unfoldable pub handle_file_complete :
      Utf16 → Utf16 → Here c k Number nought infinity → Here c k Number nought infinity
  unfolding complete_with
  handle_file_complete file_id checksum s =
      if contains_id s.completed_file_ids file_id
      then s
      else complete_with file_id checksum (get file_id s.inbox.receivers)
          (get file_id s.metadata_by_id) s

  abbrev pub with_verdict :
      Bool → TransferFileEntry Number nought infinity → TransferFileEntry Number nought infinity
  with_verdict verified e = record e {
    checksum_verified = some verified;
    error = if verified then none else some integrity_error;
  }

  unfoldable pub save_blob :
      Option (List ℕ) → Utf16 → Here c k Number nought infinity → Here c k Number nought infinity
  save_blob none name s = s
  save_blob (some blob) name s = do_effect c k Number nought infinity (saves blob name) s

  unfoldable pub conclude :
      Utf16
      → Option (List ℕ)
      → ℕ
      → Option Finalizing
      → Here c k Number nought infinity
      → Here c k Number nought infinity
  unfolding save_blob
  conclude file_id blob now none s = s
  conclude file_id blob now (some f) s =
      let t = save_blob blob f.metadata.name s in
      do_effect c k Number nought infinity (adds_history (history_entry f s.sender_name now))
        (record t {
          finalizing = delete file_id s.finalizing;
          transfers =
              set_file_status Number nought infinity file_id
                (if f.verified then PerFileStatus.completed else PerFileStatus.failed)
                (with_verdict f.verified) s.transfers;
        })

  -- The rest of `handleFileComplete`, with what `finalize` gave and the time.
  unfoldable pub finalized :
      Utf16
      → Option (List ℕ)
      → ℕ
      → Here c k Number nought infinity
      → Here c k Number nought infinity
  unfolding conclude
  finalized file_id blob now s = conclude file_id blob now (get file_id s.finalizing) s

  unfoldable pub handle_control_message :
      ControlMessage → Here c k Number nought infinity → Here c k Number nought infinity
  unfolding session_init handle_file_offer handle_file_complete
  handle_control_message (ControlMessage.session_init sender enabled key salt) s =
      session_init c k Number nought infinity enabled key salt s
  handle_control_message (ControlMessage.file_offer v) s =
      handle_file_offer c k Number nought infinity v s
  handle_control_message (ControlMessage.file_complete file_id checksum) s =
      handle_file_complete file_id checksum s
  handle_control_message (ControlMessage.transfer_complete transfer_id) s =
      set_connection c k Number nought infinity ConnectionState.completed
        (set_transfer c k Number nought infinity TransferState.completed s)
  handle_control_message ControlMessage.ping s =
      send_control c k Number nought infinity ControlMessage.pong s
  handle_control_message (ControlMessage.cancel reason) s =
      set_transfer c k Number nought infinity TransferState.cancelled s
  handle_control_message _ s = s

  -- A text on the file channel.
  unfoldable pub handle_file_text :
      Speeds → ControlMessage → Here c k Number nought infinity → Here c k Number nought infinity
  unfolding handle_control_message handle_chunk_frame
  handle_file_text speeds (ControlMessage.chunk_meta m) s =
      handle_chunk_frame speeds (Frame.chunk_meta m) s
  handle_file_text speeds m s = handle_control_message m s

  unfoldable pub close_peer :
      Option ℕ → Here c k Number nought infinity → Here c k Number nought infinity
  close_peer none s = s
  close_peer (some n) s =
      do_effect c k Number nought infinity (closes_peer n)
        (record s { closed_peers = n ∷ s.closed_peers })

  unfoldable pub destroy : Here c k Number nought infinity → Here c k Number nought infinity
  unfolding close_peer
  destroy s =
      do_effect c k Number nought infinity closes_signaling
        (close_peer s.peer (record s { give_up_timer = clear s.give_up_timer }))

  unfoldable pub cancel : Here c k Number nought infinity → Here c k Number nought infinity
  unfolding destroy
  cancel s = destroy (
      set_transfer c k Number nought infinity TransferState.cancelled (
        send_control c k Number nought infinity (ControlMessage.cancel none)
          (record s { cancelled = true })))
