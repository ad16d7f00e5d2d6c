-- ===== src/Transfer/Sender/Connection.antt =====
-- The peer connection: the handshake, the heartbeat, and what follows its loss.
use file_share_app.Base.{
  ℕ, suc, ◌-◌, Bool, true, false, not, ◌&&◌, ◌||◌, List, [], ◌∷◌, map, filter_by, get_elem?, Option,
  none, some, eqb, leb, Utf16, utf16_eq, nat_eq, if◌then◌else◌,
}
use file_share_app.Base.Dict.{get, set}
use file_share_app.Shared.Offers
use file_share_app.Client.ConnectionStore.{ConnectionState, set_connection_state, set_peer}
use file_share_app.Client.TransferStore.{set_peer_display_name}
use file_share_app.Transfer.Crypto.{Crypto}
use file_share_app.Transfer.StateMachine.{TransferState}
use file_share_app.Transfer.Pump.{EncryptionSession}
use file_share_app.Transfer.ControlProtocol.{ControlMessage}
use file_share_app.Transfer.Sender.{QueuedFileWithMeta, Effect, max_webrtc_reconnect_attempts}
use file_share_app.Transfer.Sender.Handlers.{
  Here, do_effect, set_transfer, set_connection, set_message, to_pump, send_control, close_peer,
}

-- `RTCPeerConnection.connectionState`
pub data PeerState : Type 0 where
  new connecting connected disconnected failed closed : PeerState

abbrev pub is_over : TransferState → Bool
is_over TransferState.completed = true
is_over TransferState.cancelled = true
is_over TransferState.failed = true
is_over _ = false

abbrev pub runs : List ℕ → ℕ → Bool
runs [] n = false
runs (m ∷ ms) n = eqb m n || runs ms n

module _ (c : Crypto) (Number : Type 0) (nought infinity : Number) where
  -- `new PeerConnectionManager("sender")` and `wirePeerHandlers`, with its heartbeat.
  unfoldable pub new_peer : Here c Number nought infinity → Here c Number nought infinity
  new_peer s = record s {
    peer = some s.peers;
    peers = suc s.peers;
    intervals = set s.peers s.peers s.intervals;
    ping_timer = some s.peers;
  }

  -- `beginWebRtcHandshake`, up to `createOffer`, and after it.
  unfoldable pub begin_web_rtc_handshake :
      Here c Number nought infinity → Here c Number nought infinity
  unfolding new_peer
  begin_web_rtc_handshake s = do_effect c Number nought infinity (Effect.creates_offer s.peers) (
      new_peer (
        set_transfer c Number nought infinity TransferState.connecting
          (set_connection c Number nought infinity ConnectionState.negotiating s)))

  unfoldable pub offer_created :
      Utf16 → Here c Number nought infinity → Here c Number nought infinity
  offer_created sdp s = do_effect c Number nought infinity (Effect.sends_offer s.session_id sdp) s

  unfoldable pub peer_joined : Utf16 → Here c Number nought infinity → Here c Number nought infinity
  unfolding begin_web_rtc_handshake
  peer_joined name s = begin_web_rtc_handshake (record s {
    connection =
        set_connection_state ConnectionState.receiver_connected (set_peer (some name) s.connection);
    transfers = set_peer_display_name Number nought infinity (some name) s.transfers;
  })

  unfoldable pub local_candidate :
      Utf16 → Here c Number nought infinity → Here c Number nought infinity
  local_candidate candidate s =
      do_effect c Number nought infinity (Effect.sends_candidate s.session_id candidate) s

  -- `text` is the message of natFailureMessage.ts.
  unfoldable pub handle_connection_loss :
      Utf16 → Here c Number nought infinity → Here c Number nought infinity
  handle_connection_loss text s =
      if is_over s.transfers.transfer_state
      then s
      else if leb max_webrtc_reconnect_attempts s.webrtc_reconnect_attempts
      then to_pump c Number nought infinity Effect.cancels_pump (
          set_transfer c Number nought infinity TransferState.failed (
            set_connection c Number nought infinity ConnectionState.failed
              (set_message c Number nought infinity text s)))
      else to_pump c Number nought infinity Effect.pauses_pump (
          set_connection c Number nought infinity ConnectionState.reconnecting (
            set_transfer c Number nought infinity TransferState.interrupted (record s {
              webrtc_reconnect_attempts = suc s.webrtc_reconnect_attempts;
              reconnect_timers = suc s.reconnect_timers;
            })))

  -- A timer of RECONNECT_GRACE_MS fires: `attemptReconnect`.
  unfoldable pub attempt_reconnect :
      Bool → Option Utf16 → Here c Number nought infinity → Here c Number nought infinity
  unfolding new_peer
  attempt_reconnect signaling_open none s = s
  attempt_reconnect signaling_open (some session_id) s =
      if s.cancelled || not signaling_open
      then s
      else let t = close_peer c Number nought infinity s.peer (record s { reconnecting = true }) in
        do_effect c Number nought infinity (Effect.creates_offer t.peers) (new_peer t)

  unfoldable pub reconnect_due :
      Bool → Here c Number nought infinity → Here c Number nought infinity
  unfolding attempt_reconnect
  reconnect_due signaling_open s =
      if eqb s.reconnect_timers 0
      then s
      else attempt_reconnect signaling_open s.session_id
          (record s { reconnect_timers = s.reconnect_timers - 1 })

  unfoldable pub connection_state_change :
      Utf16 → PeerState → Here c Number nought infinity → Here c Number nought infinity
  unfolding handle_connection_loss
  connection_state_change text connected s =
      set_connection c Number nought infinity ConnectionState.connected s
  connection_state_change text disconnected s =
      if s.cancelled then s else handle_connection_loss text s
  connection_state_change text failed s = if s.cancelled then s else handle_connection_loss text s
  connection_state_change text _ s = s

  -- `onInitialChannelsReady`: SESSION_INIT and FILE_OFFER, once the key, if any, is exported.
  unfoldable pub send_offers :
      ℕ
      → Option Utf16
      → Option Utf16
      → Here c Number nought infinity
      → Here c Number nought infinity
  send_offers now key iv_salt s =
      send_control c Number nought infinity
        (ControlMessage.file_offer
          (Offers.offer_json now s.transfer_id (map (λ q. q.metadata) s.queue)))
        (send_control c Number nought infinity
          (ControlMessage.session_init s.display_name s.encryption_enabled key iv_salt) s)

  unfoldable pub initial_with :
      ℕ
      → Option (EncryptionSession c)
      → Here c Number nought infinity
      → Here c Number nought infinity
  unfolding send_offers
  initial_with now none s = send_offers now none none s
  initial_with now (some session) s = do_effect c Number nought infinity Effect.exports_key s

  -- `resumeCurrentFileAfterReconnect`
  unfoldable pub reoffer :
      ℕ → Option QueuedFileWithMeta → Here c Number nought infinity → Here c Number nought infinity
  reoffer now none s = s
  reoffer now (some item) s =
      send_control c Number nought infinity
        (ControlMessage.file_offer (Offers.offer_json now s.transfer_id (item.metadata ∷ []))) s

  unfoldable pub channels_ready : ℕ → Here c Number nought infinity → Here c Number nought infinity
  unfolding initial_with reoffer
  channels_ready now s =
      if s.reconnecting
      then reoffer now (get_elem? s.queue s.active_file_index) (
          set_transfer c Number nought infinity TransferState.transferring (
            set_connection c Number nought infinity ConnectionState.connected
              (record s { reconnecting = false; webrtc_reconnect_attempts = 0 })))
      else initial_with now s.encryption (
          set_transfer c Number nought infinity TransferState.awaiting_acceptance
            (set_connection c Number nought infinity ConnectionState.connected s))

  unfoldable pub ping_peer :
      Option ℕ → Here c Number nought infinity → Here c Number nought infinity
  ping_peer none s = s
  ping_peer (some peer) s =
      do_effect c Number nought infinity (Effect.sends_control peer ControlMessage.ping) (record s {
        pong_timers = s.pings ∷ s.pong_timers;
        pong_timeout = some s.pings;
        pings = suc s.pings;
      })

  -- An interval of `startHeartbeat` comes round, and a timer that it set fires.
  unfoldable pub ping_due : ℕ → Here c Number nought infinity → Here c Number nought infinity
  unfolding ping_peer
  ping_due interval s = ping_peer (get interval s.intervals) s

  unfoldable pub pong_missed :
      Utf16 → ℕ → Here c Number nought infinity → Here c Number nought infinity
  unfolding handle_connection_loss
  pong_missed text timer s =
      let t = record s { pong_timers = filter_by (λ m. not (eqb m timer)) s.pong_timers } in
      if runs s.pong_timers timer && not s.cancelled then handle_connection_loss text t else t
