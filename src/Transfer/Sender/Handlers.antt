-- ===== src/Transfer/Sender/Handlers.antt =====
-- The start of a session, the messages of the signaling server, and the calls that end or pause a
-- transfer. A method that awaits a promise ends there, and what follows is the operation of its
-- result.
use file_share_app.Base.{
  ℕ, true, not, List, [], ◌∷◌, ◌++◌, map, length, filter_by, get_elem?, Option, none, some, eqb,
  Utf16, utf16_eq, nat_eq, units, if◌then◌else◌,
}
use file_share_app.Base.Dict.{Dict, delete}
use file_share_app.Client.ConnectionStore
use file_share_app.Client.ConnectionStore.{
  ConnectionState, set_connection_state, set_peer, set_error,
}
use file_share_app.Client.TransferStore
use file_share_app.Client.TransferStore.{
  PerFileStatus, TransferFileEntry, NewFile, set_transfer_state, set_direction,
  set_peer_display_name, init_files, update_file_progress, set_file_status, set_overall_speed,
}
use file_share_app.Transfer.Crypto.{Crypto}
use file_share_app.Transfer.StateMachine.{TransferState}
use file_share_app.Transfer.Pump.{EncryptionSession}
use file_share_app.Transfer.ControlProtocol.{ControlMessage}
use file_share_app.Transfer.Sender.{SourceFile, QueuedFileWithMeta, with_metadata, Effect, Session}

abbrev clear_interval : Option ℕ → Dict ℕ ℕ → Dict ℕ ℕ
clear_interval none running = running
clear_interval (some n) running = delete n running

abbrev pub clear_timeout : Option ℕ → List ℕ → List ℕ
clear_timeout none running = running
clear_timeout (some n) running = filter_by (λ m. not (eqb m n)) running

module _ (c : Crypto) (Number : Type 0) (nought infinity : Number) where
  abbrev pub Here : Type 0
  Here = Session c Number nought infinity

  abbrev pub do_effect : Effect c → Here → Here
  do_effect e s = record s { outputs = s.outputs ++ e ∷ [] }

  abbrev pub set_transfer : TransferState → Here → Here
  set_transfer state s = record s {
    transfers = set_transfer_state Number nought infinity state s.transfers;
  }

  abbrev pub set_connection : ConnectionState → Here → Here
  set_connection state s = record s { connection = set_connection_state state s.connection }

  abbrev pub set_message : Utf16 → Here → Here
  set_message text s = record s { connection = set_error (some text) s.connection }

  abbrev pub set_status : Utf16 → PerFileStatus → Here → Here
  set_status id status s = record s {
    transfers = set_file_status Number nought infinity id status (λ f. f) s.transfers;
  }

  -- `this.peer?.m(…)`, for a call that only acts on the outside.
  unfoldable pub to_peer : Option ℕ → (ℕ → Effect c) → Here → Here
  to_peer none call s = s
  to_peer (some n) call s = do_effect (call n) s

  abbrev pub send_control : ControlMessage → Here → Here
  send_control m s = to_peer s.peer (λ n. Effect.sends_control n m) s

  -- `this.peer!.sendFileChannelText(...)`. A connection is there when a message of the receiver was
  -- heard, and is replaced but never taken away; without one the source throws, and nothing is sent
  -- here. The connection sends when its channel is open, which its own model tells.
  abbrev pub send_file_text : ControlMessage → Here → Here
  send_file_text m s = to_peer s.peer (λ n. Effect.sends_file_text n m) s

  -- `this.activePump?.m()`
  abbrev pub to_pump : (ℕ → Effect c) → Here → Here
  to_pump call s = to_peer s.active_pump call s

  abbrev to_new_file : SourceFile → NewFile Number nought infinity
  to_new_file f = record {
    id = f.id;
    name = f.name;
    size = length f.content;
    mime_type = f.mime_type;
  }

  abbrev wire_and_connect : Here → Here
  wire_and_connect s = do_effect Effect.connects (do_effect Effect.wires_handlers s)

  -- `start`, up to the first `await`.
  unfoldable pub start : Option ℕ → List SourceFile → Here → Here
  unfolding init_files
  start memory files s =
      let prepared = record s {
        queue = map (with_metadata memory) files;
        transfers = init_files Number nought infinity (map to_new_file files) (
            set_transfer_state Number nought infinity TransferState.preparing (
              set_direction Number nought infinity (some TransferStore.sends)
                (TransferStore.reset Number nought infinity s.transfers)));
      } in
      if s.encryption_enabled
      then do_effect Effect.generates_key prepared
      else wire_and_connect prepared

  -- After `generateEncryptionSession`.
  unfoldable pub key_generated : EncryptionSession c → Here → Here
  key_generated session s = wire_and_connect (record s { encryption = some session })

  -- After `connect`, which fails or not.
  unfoldable pub connection_failed : Utf16 → Here → Here
  connection_failed text s =
      set_transfer TransferState.failed (set_connection ConnectionState.failed (set_message text s))

  unfoldable pub signaling_connected : Here → Here
  signaling_connected s = do_effect (Effect.creates_session s.display_name s.timeout_seconds) (
      set_connection ConnectionState.creating_session
        (set_transfer TransferState.waiting_for_peer s))

  unfoldable pub session_created : Utf16 → Utf16 → Utf16 → ℕ → Here → Here
  session_created session_id token pairing_code expires_at s = record s {
    session_id = some session_id;
    connection = set_connection_state ConnectionState.waiting_for_receiver (
        ConnectionStore.set_session (some session_id) (some token) (some pairing_code)
          (some expires_at) s.connection);
  }

  unfoldable pub answered : Utf16 → Here → Here
  answered sdp s = to_peer s.peer (λ n. Effect.sets_remote_description n sdp) s

  unfoldable pub remote_candidate : Utf16 → Here → Here
  remote_candidate candidate s = to_peer s.peer (λ n. Effect.adds_candidate n candidate) s

  unfoldable pub peer_left : Here → Here
  peer_left s =
      if s.cancelled
      then s
      else set_transfer TransferState.interrupted (set_connection ConnectionState.reconnecting s)

  unfoldable pub session_expired : Here → Here
  session_expired s = set_transfer TransferState.expired (set_connection ConnectionState.expired s)

  unfoldable pub rate_limited : Here → Here
  rate_limited s = set_transfer TransferState.failed (
      set_connection ConnectionState.failed (
        set_message
          (units "Too many requests to the signaling server. Please wait a moment and try again.")
          s))

  unfoldable pub pause_item : Option QueuedFileWithMeta → Here → Here
  pause_item none s = s
  pause_item (some item) s = set_transfer TransferState.paused (
      set_status item.file.id PerFileStatus.paused
        (send_control (ControlMessage.pause (some item.metadata.id)) s))

  unfoldable pub pause_current_file : Here → Here
  unfolding pause_item
  pause_current_file s =
      pause_item (get_elem? s.queue s.active_file_index) (to_pump Effect.pauses_pump s)

  unfoldable pub resume_item : Option QueuedFileWithMeta → Here → Here
  resume_item none s = s
  resume_item (some item) s = set_transfer TransferState.transferring (
      set_status item.file.id PerFileStatus.transferring
        (send_control (ControlMessage.resume (some item.metadata.id)) s))

  unfoldable pub resume_current_file : Here → Here
  unfolding resume_item
  resume_current_file s =
      resume_item (get_elem? s.queue s.active_file_index) (to_pump Effect.resumes_pump s)

  unfoldable pub close_peer : Option ℕ → Here → Here
  close_peer none s = s
  close_peer (some n) s =
      do_effect (Effect.closes_peer n) (record s { closed_peers = n ∷ s.closed_peers })

  unfoldable pub destroy : Here → Here
  unfolding close_peer
  destroy s = do_effect Effect.closes_signaling (
      close_peer s.peer (record s {
        intervals = clear_interval s.ping_timer s.intervals;
        pong_timers = clear_timeout s.pong_timeout s.pong_timers;
      }))

  unfoldable pub cancel_all : Option Utf16 → Here → Here
  unfolding destroy
  cancel_all reason s = destroy (
      set_connection ConnectionState.cancelled (
        set_transfer TransferState.cancelled (
          send_control (ControlMessage.cancel reason)
            (to_pump Effect.cancels_pump (record s { cancelled = true })))))
