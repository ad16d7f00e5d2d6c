-- ===== src/Transfer/Sender/Loop.antt =====
-- Sending the queue: `handleAccept` and `sendFile`.
use file_share_app.Base.{
  ℕ, suc, ◌+◌, true, [], get_elem?, Option, none, some, Utf16, utf16_eq, nat_eq, units,
  if◌then◌else◌,
}
use file_share_app.Base.Dict.{Dict, get, set, delete}
use file_share_app.Client.ConnectionStore.{ConnectionState}
use file_share_app.Client.TransferStore.{
  PerFileStatus, TransferFileEntry, update_file_progress, set_file_status, set_overall_speed,
}
use file_share_app.Client.Storage
use file_share_app.Client.Storage.{HistoryEntry}
use file_share_app.Transfer.Crypto.{Crypto}
use file_share_app.Transfer.StateMachine.{TransferState}
use file_share_app.Transfer.Pump
use file_share_app.Transfer.Pump.{EncryptionSession, Config, Output, Outcome}
use file_share_app.Transfer.ControlProtocol.{ControlMessage}
use file_share_app.Transfer.Sender.{QueuedFileWithMeta, AcceptLoop, Waiting, Effect}
use file_share_app.Transfer.Sender.Handlers.{
  Here, do_effect, set_transfer, set_connection, set_status, to_peer, send_file_text,
}
use file_share_app.Transfer.Sender.{for_pump, for_history}

module _ (c : Crypto) where
  abbrev pub config_of : QueuedFileWithMeta → ℕ → Option (EncryptionSession c) → Config c
  config_of item file_index encryption = record {
    file = item.file.content;
    file_index = file_index;
    chunk_size = item.metadata.chunk_size;
    total_chunks = item.metadata.total_chunks;
    encryption = encryption;
  }

module _ (c : Crypto) (Number : Type 0) (nought infinity : Number) where
  -- What the trackers of speed read after bytes were recorded.
  pub record Speeds : Type 0 where
    pub current_speed_bps : Number
    pub average_speed_bps : Number
    pub eta_seconds : Number
    pub overall_speed_bps : Number
    pub overall_eta_seconds : Number

  abbrev resume_point : Option ℕ → ℕ
  resume_point none = 0
  resume_point (some n) = n

  -- `sendFile` up to the end of its pump.
  unfoldable pub send_file :
      ℕ
      → Dict Utf16 ℕ
      → ℕ
      → QueuedFileWithMeta
      → Here c Number nought infinity
      → Here c Number nought infinity
  send_file n resume_map i item s =
      do_effect c Number nought infinity
        (Effect.starts_pump s.pumps (config_of c item i s.encryption)
          (resume_point (get item.metadata.id resume_map)))
        (set_status c Number nought infinity item.file.id PerFileStatus.transferring (record s {
          active_pump = some s.pumps;
          pumps = suc s.pumps;
          loops = set n (record { resume_map = resume_map; waiting = for_pump i s.pumps }) s.loops;
        }))

  -- The loop of `handleAccept`, from the round of index `i` to its next `await` or its end.
  unfoldable pub enter_round :
      ℕ
      → Dict Utf16 ℕ
      → ℕ
      → Option QueuedFileWithMeta
      → Here c Number nought infinity
      → Here c Number nought infinity
  unfolding send_file
  enter_round n resume_map i none s =
      let ended = record s { loops = delete n s.loops } in
      if s.cancelled
      then ended
      else set_connection c Number nought infinity ConnectionState.completed (
          set_transfer c Number nought infinity TransferState.completed (
            send_file_text c Number nought infinity (ControlMessage.transfer_complete s.transfer_id)
              ended))
  enter_round n resume_map i (some item) s =
      let t = record s { active_file_index = i } in
      if s.cancelled then record t { loops = delete n s.loops } else send_file n resume_map i item t

  unfoldable pub round :
      ℕ → Dict Utf16 ℕ → ℕ → Here c Number nought infinity → Here c Number nought infinity
  unfolding enter_round
  round n resume_map i s = enter_round n resume_map i (get_elem? s.queue i) s

  abbrev resume_map_of : Option (Dict Utf16 ℕ) → Dict Utf16 ℕ
  resume_map_of none = []
  resume_map_of (some d) = d

  unfoldable pub handle_accept :
      Option (Dict Utf16 ℕ) → Here c Number nought infinity → Here c Number nought infinity
  unfolding round
  handle_accept resume_from s = round s.loops_started (resume_map_of resume_from) 0 (
      set_transfer c Number nought infinity TransferState.transferring
        (record s { loops_started = suc s.loops_started }))

  abbrev name_or_unknown : Option Utf16 → Utf16
  name_or_unknown none = units "Unknown device"
  name_or_unknown (some name) = name

  abbrev history_entry : QueuedFileWithMeta → Utf16 → ℕ → HistoryEntry
  history_entry item peer_name now = record {
    id = item.metadata.id;
    direction = Storage.sent;
    file_name = item.metadata.name;
    size = item.metadata.size;
    timestamp = now;
    status = Storage.completed;
    peer_name = peer_name;
    verified = true;
  }

  abbrev unverified :
      TransferFileEntry Number nought infinity → TransferFileEntry Number nought infinity
  unverified f = record f { checksum_verified = none }

  -- `sendFile` after its pump, with the outcome and the time.
  unfoldable pub after_pump :
      ℕ
      → Dict Utf16 ℕ
      → ℕ
      → Outcome
      → ℕ
      → Option QueuedFileWithMeta
      → Here c Number nought infinity
      → Here c Number nought infinity
  unfolding round
  after_pump n resume_map i outcome now none s = s
  after_pump n resume_map i Outcome.was_cancelled now (some item) s =
      round n resume_map (suc i)
        (set_status c Number nought infinity item.file.id PerFileStatus.cancelled s)
  after_pump n resume_map i (Outcome.completed checksum) now (some item) s =
      let t =
        send_file_text c Number nought infinity
          (ControlMessage.file_complete item.metadata.id checksum) s in
      do_effect c Number nought infinity
        (Effect.adds_history
          (history_entry item (name_or_unknown s.connection.peer_display_name) now))
        (record t {
          loops = set n (record { resume_map = resume_map; waiting = for_history i }) s.loops;
          transfers =
              set_file_status Number nought infinity item.file.id PerFileStatus.completed unverified
                s.transfers;
        })

  unfoldable pub at_pump :
      ℕ
      → Dict Utf16 ℕ
      → Waiting
      → Outcome
      → ℕ
      → Here c Number nought infinity
      → Here c Number nought infinity
  unfolding after_pump
  at_pump n resume_map (for_pump i pump) outcome now s =
      after_pump n resume_map i outcome now (get_elem? s.queue i) (record s { active_pump = none })
  at_pump n resume_map (for_history i) outcome now s = s

  unfoldable pub pump_of_loop :
      ℕ
      → Outcome
      → ℕ
      → Option AcceptLoop
      → Here c Number nought infinity
      → Here c Number nought infinity
  unfolding at_pump
  pump_of_loop n outcome now none s = s
  pump_of_loop n outcome now (some l) s = at_pump n l.resume_map l.waiting outcome now s

  -- The pump that loop `n` waits for has ended.
  unfoldable pub pump_ended :
      ℕ → Outcome → ℕ → Here c Number nought infinity → Here c Number nought infinity
  unfolding pump_of_loop
  pump_ended n outcome now s = pump_of_loop n outcome now (get n s.loops) s

  unfoldable pub at_history :
      ℕ → Dict Utf16 ℕ → Waiting → Here c Number nought infinity → Here c Number nought infinity
  unfolding round
  at_history n resume_map (for_pump i pump) s = s
  at_history n resume_map (for_history i) s = round n resume_map (suc i) s

  unfoldable pub history_of_loop :
      ℕ → Option AcceptLoop → Here c Number nought infinity → Here c Number nought infinity
  unfolding at_history
  history_of_loop n none s = s
  history_of_loop n (some l) s = at_history n l.resume_map l.waiting s

  -- The entry of the history that loop `n` waits for is stored.
  unfoldable pub history_added : ℕ → Here c Number nought infinity → Here c Number nought infinity
  unfolding history_of_loop
  history_added n s = history_of_loop n (get n s.loops) s

  abbrev bytes_of : Option (TransferFileEntry Number nought infinity) → ℕ
  bytes_of none = 0
  bytes_of (some f) = f.bytes_transferred

  -- The callbacks of the pump of an item.
  unfoldable pub pump_calls :
      Speeds
      → QueuedFileWithMeta
      → Output
      → Here c Number nought infinity
      → Here c Number nought infinity
  pump_calls speeds item (Pump.meta i size iv) s =
      send_file_text c Number nought infinity
        (ControlMessage.chunk_meta
          (record { file_id = item.metadata.id; chunk_index = i; byte_length = size; iv = iv }))
        s
  pump_calls speeds item (Pump.binary bytes) s =
      to_peer c Number nought infinity s.peer (λ n. Effect.sends_file_chunk n bytes) s
  pump_calls speeds item (Pump.progress size i) s = record s {
    transfers =
        set_overall_speed Number nought infinity speeds.overall_speed_bps speeds.overall_eta_seconds
          (update_file_progress Number nought infinity item.file.id
            (record {
              bytes_transferred = some (bytes_of (get item.file.id s.transfers.files) + size);
              current_speed_bps = some speeds.current_speed_bps;
              average_speed_bps = some speeds.average_speed_bps;
              eta_seconds = some speeds.eta_seconds;
            })
            s.transfers);
  }

  unfoldable pub calls_of_item :
      Speeds
      → Output
      → Option QueuedFileWithMeta
      → Here c Number nought infinity
      → Here c Number nought infinity
  unfolding pump_calls
  calls_of_item speeds output none s = s
  calls_of_item speeds output (some item) s = pump_calls speeds item output s

  unfoldable pub pump_output :
      Speeds → ℕ → Output → Here c Number nought infinity → Here c Number nought infinity
  unfolding calls_of_item
  pump_output speeds i output s = calls_of_item speeds output (get_elem? s.queue i) s

  unfoldable pub handle_reject : Here c Number nought infinity → Here c Number nought infinity
  handle_reject s =
      set_connection c Number nought infinity ConnectionState.cancelled
        (set_transfer c Number nought infinity TransferState.cancelled s)
