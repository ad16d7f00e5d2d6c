-- ===== src/Transfer/Receiver/Handlers.antt =====
-- The operations of ReceiverSession. A handler that awaits another promise ends there, and what
-- follows the `await` is the operation of its result; the two promises of `respondToOffer`, the
-- folder picker and the sinks, are taken as settled at once.
use file_share_app.Base.{
  ℕ, suc, true, false, [], ◌∷◌, ◌++◌, Option, none, some, Utf16, utf16_eq, units, if◌then◌else◌,
}
use file_share_app.Client.ConnectionStore.{
  ConnectionState, set_connection_state, set_peer, set_error,
}
use file_share_app.Client.TransferStore
use file_share_app.Client.TransferStore.{
  PerFileStatus, TransferFileEntry, NewFile, set_transfer_state, set_direction,
  set_peer_display_name, init_files, update_file_progress, set_file_status,
}
use file_share_app.Transfer.Crypto.{Crypto}
use file_share_app.Transfer.Sink.{ChunkSink}
use file_share_app.Transfer.StateMachine.{TransferState}
use file_share_app.Transfer.ControlProtocol.{ControlMessage}
use file_share_app.Transfer.Receiver.{
  JoinParams, Timer, no_timer, running, spent, Effect, Session, wires_handlers, connects,
  joins_session, creates_answer, sends_answer, sends_candidate, adds_candidate, sends_control,
}

-- `RTCPeerConnection.connectionState`
pub data PeerState : Type 0 where
  new connecting connected disconnected failed closed : PeerState

unfoldable pub arm : Timer → Timer
arm no_timer = running
arm t = t

module _ (c : Crypto) (k : ChunkSink) (Number : Type 0) (nought infinity : Number) where
  abbrev pub Here : Type 0
  Here = Session c k Number nought infinity

  abbrev pub do_effect : Effect → Here → Here
  do_effect e s = record s { outputs = s.outputs ++ e ∷ [] }

  abbrev pub set_transfer : TransferState → Here → Here
  set_transfer state s = record s {
    transfers = set_transfer_state Number nought infinity state s.transfers;
  }

  abbrev pub set_connection : ConnectionState → Here → Here
  set_connection state s = record s { connection = set_connection_state state s.connection }

  abbrev pub set_message : Utf16 → Here → Here
  set_message text s = record s { connection = set_error (some text) s.connection }

  unfoldable pub send_to : Option ℕ → ControlMessage → Here → Here
  send_to none m s = s
  send_to (some n) m s = do_effect (sends_control n m) s

  -- `this.peer?.sendControl(…)`
  abbrev pub send_control : ControlMessage → Here → Here
  send_control m s = send_to s.peer m s

  unfoldable pub wire_signaling_handlers : Here → Here
  wire_signaling_handlers s =
      if s.handlers_wired then s else do_effect wires_handlers (record s { handlers_wired = true })

  -- `join` up to `connect`, and after it.
  unfoldable pub join : Here → Here
  unfolding wire_signaling_handlers
  join s =
      if s.join_requested
      then s
      else do_effect connects (
          wire_signaling_handlers (record s {
            join_requested = true;
            transfers =
                set_direction Number nought infinity (some TransferStore.receives)
                  (TransferStore.reset Number nought infinity s.transfers);
            connection = set_connection_state ConnectionState.creating_session s.connection;
          }))

  unfoldable pub signaling_connected : JoinParams → Here → Here
  signaling_connected params s = do_effect (joins_session params s.display_name) s

  unfoldable pub connection_failed : Utf16 → Here → Here
  connection_failed text s =
      set_connection ConnectionState.failed (set_message text (record s { join_requested = false }))

  unfoldable pub session_joined : Option Utf16 → Utf16 → Here → Here
  session_joined session_id name s = record s {
    session_id = session_id;
    sender_name = name;
    connection =
        set_connection_state ConnectionState.connecting (set_peer (some name) s.connection);
    transfers =
        set_peer_display_name Number nought infinity (some name)
          (set_transfer_state Number nought infinity TransferState.connecting s.transfers);
  }

  unfoldable pub session_not_found : Here → Here
  session_not_found s =
      set_connection ConnectionState.failed (set_message (units "Session not found or expired") s)

  unfoldable pub session_expired : Here → Here
  session_expired s = set_transfer TransferState.expired (set_connection ConnectionState.expired s)

  -- The handler of OFFER up to `createAnswer`, and after it.
  unfoldable pub offered : Utf16 → Here → Here
  offered sdp s =
      do_effect (creates_answer s.offers sdp)
        (record s { peer = some s.offers; offers = suc s.offers })

  unfoldable pub answer_created : Utf16 → Here → Here
  answer_created answer s = do_effect (sends_answer s.session_id answer) s

  unfoldable pub add_to : Option ℕ → Utf16 → Here → Here
  add_to none candidate s = s
  add_to (some n) candidate s = do_effect (adds_candidate n candidate) s

  unfoldable pub remote_candidate : Utf16 → Here → Here
  unfolding add_to
  remote_candidate candidate s = add_to s.peer candidate s

  unfoldable pub peer_left : Here → Here
  peer_left s =
      if s.cancelled
      then s
      else set_transfer TransferState.interrupted (set_connection ConnectionState.reconnecting s)

  unfoldable pub rate_limited : Here → Here
  rate_limited s = set_connection ConnectionState.failed (
      set_message
        (units "Too many requests to the signaling server. Please wait a moment and try again.") s)

  -- The handlers that `wirePeerHandlers` sets.
  unfoldable pub local_candidate : Utf16 → Here → Here
  local_candidate candidate s = do_effect (sends_candidate s.session_id candidate) s

  unfoldable pub connection_lost : Here → Here
  unfolding arm
  connection_lost s =
      if s.cancelled
      then s
      else set_connection ConnectionState.reconnecting (
          set_transfer TransferState.interrupted (record s { give_up_timer = arm s.give_up_timer }))

  unfoldable pub connection_state_change : PeerState → Here → Here
  unfolding connection_lost
  connection_state_change connected s =
      set_connection ConnectionState.connected (record s { give_up_timer = no_timer })
  connection_state_change disconnected s = connection_lost s
  connection_state_change failed s = connection_lost s
  connection_state_change _ s = s

  unfoldable pub channels_ready : Here → Here
  channels_ready s =
      set_connection ConnectionState.connected (record s { give_up_timer = no_timer })

  unfoldable pub fire : Timer → Utf16 → Here → Here
  fire running text s =
      let t = record s { give_up_timer = spent } in
      if s.cancelled
      then t
      else set_transfer TransferState.failed
          (set_connection ConnectionState.failed (set_message text t))
  fire _ text s = s

  -- The timer of GIVE_UP_AFTER_MS fires.
  unfoldable pub give_up : Utf16 → Here → Here
  unfolding fire
  give_up text s = fire s.give_up_timer text s
