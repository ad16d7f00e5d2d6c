-- ===== src/Transfer/Receiver/Steps.antt =====
-- What can happen to a session, in any order: calls of its methods, what its promises settle to,
-- messages of the signaling server, and what its peer connections and its timer do. A connection
-- that was closed has no handlers any more.
use file_share_app.Base.{
  ℕ, Bool, false, not, ◌&&◌, ◌||◌, List, [], ◌∷◌, Option, none, some, eqb, ltb, Utf16,
  if◌then◌else◌,
}
use file_share_app.Transfer.Crypto.{Crypto}
use file_share_app.Transfer.Sink.{ChunkSink}
use file_share_app.Shared.FileNames.{FileMetadata}
use file_share_app.Transfer.Pump.{EncryptionSession}
use file_share_app.Transfer.Delivery.{Frame}
use file_share_app.Transfer.ControlProtocol.{ControlMessage}
use file_share_app.Transfer.Receiver.{JoinParams}
use file_share_app.Transfer.Receiver.Handlers
use file_share_app.Transfer.Receiver.Handlers.{Here, PeerState, set_message}
use file_share_app.Transfer.Receiver.Messages
use file_share_app.Transfer.Receiver.Messages.{handle_file_offer}
use file_share_app.Transfer.Receiver.Files
use file_share_app.Transfer.Receiver.Files.{
  Speeds, handle_control_message, handle_file_text, handle_chunk_frame,
}

abbrev pub has_closed : List ℕ → ℕ → Bool
has_closed [] n = false
has_closed (m ∷ ms) n = eqb m n || has_closed ms n

module _ (c : Crypto) (k : ChunkSink) (Number : Type 0) (nought infinity : Number) where
  pub data SignalingEvent : Type 0 where
    session_joined : Option Utf16 → Utf16 → SignalingEvent
    session_not_found session_expired peer_left rate_limited : SignalingEvent
    offered ice_candidate error : Utf16 → SignalingEvent

  pub data PeerEvent : Type 0 where
    state_changed : PeerState → PeerEvent
    channels_ready : PeerEvent
    local_candidate : Utf16 → PeerEvent
    -- A text on the control channel or on the file channel, if it is a message, or bytes.
    control_text : Option ControlMessage → PeerEvent
    file_text : Speeds c k Number nought infinity → Option ControlMessage → PeerEvent
    file_bytes : Speeds c k Number nought infinity → List ℕ → PeerEvent

  pub data Event : Type 0 where
    joins cancels destroys : Event
    signaling_connected : JoinParams → Event
    connection_failed answer_created gives_up : Utf16 → Event
    signaling : SignalingEvent → Event
    peer : ℕ → PeerEvent → Event
    key_imported : EncryptionSession c → Event
    responds : Utf16 → List FileMetadata → Bool → (FileMetadata → k.State) → Event
    finalized : Utf16 → Option (List ℕ) → ℕ → Event

  unfoldable pub on_signaling :
      SignalingEvent → Here c k Number nought infinity → Here c k Number nought infinity
  unfolding Handlers.session_joined Handlers.session_not_found Handlers.session_expired
      Handlers.offered Handlers.remote_candidate Handlers.peer_left Handlers.rate_limited
  on_signaling (session_joined id name) s =
      Handlers.session_joined c k Number nought infinity id name s
  on_signaling session_not_found s = Handlers.session_not_found c k Number nought infinity s
  on_signaling session_expired s = Handlers.session_expired c k Number nought infinity s
  on_signaling peer_left s = Handlers.peer_left c k Number nought infinity s
  on_signaling rate_limited s = Handlers.rate_limited c k Number nought infinity s
  on_signaling (offered sdp) s = Handlers.offered c k Number nought infinity sdp s
  on_signaling (ice_candidate candidate) s =
      Handlers.remote_candidate c k Number nought infinity candidate s
  on_signaling (error text) s = set_message c k Number nought infinity text s

  unfoldable pub on_peer :
      PeerEvent → Here c k Number nought infinity → Here c k Number nought infinity
  unfolding Handlers.connection_state_change Handlers.channels_ready Handlers.local_candidate
      handle_control_message handle_file_text handle_chunk_frame
  on_peer (state_changed state) s =
      Handlers.connection_state_change c k Number nought infinity state s
  on_peer channels_ready s = Handlers.channels_ready c k Number nought infinity s
  on_peer (local_candidate candidate) s =
      Handlers.local_candidate c k Number nought infinity candidate s
  on_peer (control_text none) s = s
  on_peer (control_text (some m)) s = handle_control_message c k Number nought infinity m s
  on_peer (file_text speeds none) s = s
  on_peer (file_text speeds (some m)) s = handle_file_text c k Number nought infinity speeds m s
  on_peer (file_bytes speeds bytes) s =
      handle_chunk_frame c k Number nought infinity speeds (Frame.payload bytes) s

  unfoldable pub step : Here c k Number nought infinity → Event → Here c k Number nought infinity
  unfolding Handlers.join Handlers.signaling_connected Handlers.connection_failed
      Handlers.answer_created Handlers.give_up on_signaling on_peer Messages.key_imported
      Messages.respond_to_offer Files.finalized Files.cancel Files.destroy
  step s joins = Handlers.join c k Number nought infinity s
  step s (signaling_connected params) =
      Handlers.signaling_connected c k Number nought infinity params s
  step s (connection_failed text) = Handlers.connection_failed c k Number nought infinity text s
  step s (answer_created answer) = Handlers.answer_created c k Number nought infinity answer s
  step s (gives_up text) = Handlers.give_up c k Number nought infinity text s
  step s (signaling e) = on_signaling e s
  step s (peer n e) = if ltb n s.offers && not (has_closed s.closed_peers n) then on_peer e s else s
  step s (key_imported session) = Messages.key_imported c k Number nought infinity session s
  step s (responds transfer_id files accept make_sink) =
      Messages.respond_to_offer c k Number nought infinity transfer_id files accept make_sink s
  step s (finalized file_id blob now) =
      Files.finalized c k Number nought infinity file_id blob now s
  step s cancels = Files.cancel c k Number nought infinity s
  step s destroys = Files.destroy c k Number nought infinity s

  unfoldable pub run :
      Here c k Number nought infinity → List Event → Here c k Number nought infinity
  run s [] = s
  run s (e ∷ es) = run (step s e) es
