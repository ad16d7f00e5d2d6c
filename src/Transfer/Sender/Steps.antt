-- ===== src/Transfer/Sender/Steps.antt =====
-- What can happen to a session, in any order: calls of its methods, what its promises settle to,
-- messages of the signaling server, what its peer connections do, and its intervals and timers. A
-- connection that was closed has no handlers any more. `text` is the message of
-- natFailureMessage.ts.
use file_share_app.Base.{
  ℕ, Bool, false, not, ◌&&◌, ◌||◌, List, [], ◌∷◌, Option, none, some, eqb, ltb, Utf16, utf16_eq,
  nat_eq, if◌then◌else◌,
}
use file_share_app.Client.TransferStore.{PerFileStatus}
use file_share_app.Transfer.Crypto.{Crypto}
use file_share_app.Transfer.Pump.{EncryptionSession, Output, Outcome}
use file_share_app.Transfer.ControlProtocol.{ControlMessage}
use file_share_app.Transfer.Sender.{SourceFile, Effect}
use file_share_app.Transfer.Sender.Handlers
use file_share_app.Transfer.Sender.Handlers.{
  Here, set_message, set_status, to_pump, cancel_all, clear_timeout,
}
use file_share_app.Transfer.Sender.Connection
use file_share_app.Transfer.Sender.Connection.{PeerState}
use file_share_app.Transfer.Sender.Loop
use file_share_app.Transfer.Sender.Loop.{Speeds, handle_accept, handle_reject}

abbrev pub has_closed : List ℕ → ℕ → Bool
has_closed [] n = false
has_closed (m ∷ ms) n = eqb m n || has_closed ms n

module _ (c : Crypto) (Number : Type 0) (nought infinity : Number) where
  pub data SignalingEvent : Type 0 where
    session_created : Utf16 → Utf16 → Utf16 → ℕ → SignalingEvent
    peer_joined answered ice_candidate error : Utf16 → SignalingEvent
    peer_left session_expired rate_limited : SignalingEvent

  pub data PeerEvent : Type 0 where
    state_changed : PeerState → PeerEvent
    channels_ready : ℕ → PeerEvent
    local_candidate : Utf16 → PeerEvent
    -- A text on the control channel, if it is a message.
    control_text : Option ControlMessage → PeerEvent

  pub data Event : Type 0 where
    starts : Option ℕ → List SourceFile → Event
    key_generated : EncryptionSession c → Event
    signaling_connected pauses resumes destroys : Event
    connection_failed offer_created : Utf16 → Event
    cancels : Option Utf16 → Event
    signaling : SignalingEvent → Event
    peer : ℕ → PeerEvent → Event
    key_exported : ℕ → Utf16 → Utf16 → Event
    pump_ended : ℕ → Outcome → ℕ → Event
    pump_calls : Speeds c Number nought infinity → ℕ → Output → Event
    history_added ping_due pong_missed : ℕ → Event
    reconnect_due : Bool → Event

  unfoldable pub status_if :
      Option Utf16 → PerFileStatus → Here c Number nought infinity → Here c Number nought infinity
  status_if (some (u ∷ us)) status s = set_status c Number nought infinity (u ∷ us) status s
  status_if _ status s = s

  unfoldable pub handle_control_message :
      ControlMessage → Here c Number nought infinity → Here c Number nought infinity
  unfolding handle_accept handle_reject cancel_all status_if
  handle_control_message (ControlMessage.file_accept transfer_id resume_from) s =
      handle_accept c Number nought infinity resume_from s
  handle_control_message (ControlMessage.file_reject transfer_id) s =
      handle_reject c Number nought infinity s
  handle_control_message ControlMessage.pong s = record s {
    pong_timers = clear_timeout s.pong_timeout s.pong_timers;
  }
  handle_control_message (ControlMessage.cancel reason) s =
      cancel_all c Number nought infinity none s
  handle_control_message (ControlMessage.pause file_id) s =
      status_if file_id PerFileStatus.paused (to_pump c Number nought infinity Effect.pauses_pump s)
  handle_control_message (ControlMessage.resume file_id) s =
      status_if file_id PerFileStatus.transferring
        (to_pump c Number nought infinity Effect.resumes_pump s)
  handle_control_message _ s = s

  unfoldable pub on_signaling :
      SignalingEvent → Here c Number nought infinity → Here c Number nought infinity
  unfolding Handlers.session_created Connection.peer_joined Handlers.answered
      Handlers.remote_candidate Handlers.peer_left Handlers.session_expired Handlers.rate_limited
  on_signaling (session_created id token code expires_at) s =
      Handlers.session_created c Number nought infinity id token code expires_at s
  on_signaling (peer_joined name) s = Connection.peer_joined c Number nought infinity name s
  on_signaling (answered sdp) s = Handlers.answered c Number nought infinity sdp s
  on_signaling (ice_candidate candidate) s =
      Handlers.remote_candidate c Number nought infinity candidate s
  on_signaling (error message) s = set_message c Number nought infinity message s
  on_signaling peer_left s = Handlers.peer_left c Number nought infinity s
  on_signaling session_expired s = Handlers.session_expired c Number nought infinity s
  on_signaling rate_limited s = Handlers.rate_limited c Number nought infinity s

  unfoldable pub on_peer :
      Utf16 → PeerEvent → Here c Number nought infinity → Here c Number nought infinity
  unfolding Connection.connection_state_change Connection.channels_ready Connection.local_candidate
      handle_control_message
  on_peer text (state_changed state) s =
      Connection.connection_state_change c Number nought infinity text state s
  on_peer text (channels_ready now) s = Connection.channels_ready c Number nought infinity now s
  on_peer text (local_candidate candidate) s =
      Connection.local_candidate c Number nought infinity candidate s
  on_peer text (control_text none) s = s
  on_peer text (control_text (some m)) s = handle_control_message m s

  unfoldable pub step :
      Utf16 → Here c Number nought infinity → Event → Here c Number nought infinity
  unfolding Handlers.start Handlers.key_generated Handlers.signaling_connected
      Handlers.connection_failed Handlers.pause_current_file Handlers.resume_current_file
      Handlers.destroy cancel_all Connection.offer_created Connection.send_offers
      Connection.ping_due Connection.pong_missed Connection.reconnect_due Loop.pump_ended
      Loop.pump_output Loop.history_added on_signaling on_peer
  step text s (starts memory files) = Handlers.start c Number nought infinity memory files s
  step text s (key_generated session) = Handlers.key_generated c Number nought infinity session s
  step text s signaling_connected = Handlers.signaling_connected c Number nought infinity s
  step text s (connection_failed message) =
      Handlers.connection_failed c Number nought infinity message s
  step text s (offer_created sdp) = Connection.offer_created c Number nought infinity sdp s
  step text s pauses = Handlers.pause_current_file c Number nought infinity s
  step text s resumes = Handlers.resume_current_file c Number nought infinity s
  step text s destroys = Handlers.destroy c Number nought infinity s
  step text s (cancels reason) = cancel_all c Number nought infinity reason s
  step text s (signaling e) = on_signaling e s
  step text s (peer n e) =
      if ltb n s.peers && not (has_closed s.closed_peers n) then on_peer text e s else s
  step text s (key_exported now key iv_salt) =
      Connection.send_offers c Number nought infinity now (some key) (some iv_salt) s
  step text s (pump_ended n outcome now) = Loop.pump_ended c Number nought infinity n outcome now s
  step text s (pump_calls speeds i output) =
      Loop.pump_output c Number nought infinity speeds i output s
  step text s (history_added n) = Loop.history_added c Number nought infinity n s
  step text s (ping_due interval) = Connection.ping_due c Number nought infinity interval s
  step text s (pong_missed timer) = Connection.pong_missed c Number nought infinity text timer s
  step text s (reconnect_due signaling_open) =
      Connection.reconnect_due c Number nought infinity signaling_open s

  unfoldable pub run :
      Utf16 → Here c Number nought infinity → List Event → Here c Number nought infinity
  run text s [] = s
  run text s (e ∷ es) = run text (step text s e) es
