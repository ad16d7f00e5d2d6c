-- ===== src/Transfer/Sender/Kept.antt =====
-- What the steps of a session keep, for properties of what it did, its attempts and timers for a
-- reconnection, its queue, its loops and its connection. A property is given by its laws, and by what
-- a new call of `handleAccept` does to it.
use file_share_app.Base.{
  ℕ, suc, ◌≡◌, refl, ◌-◌, Bool, true, false, not, ◌&&◌, ◌||◌, List, [], ◌∷◌, ◌++◌, filter_by,
  get_elem?, Option, none, some, eqb, leb, Utf16, utf16_eq, nat_eq, if◌then◌else◌,
}
use file_share_app.Base.Dict.{Dict, get}
use file_share_app.Client.ConnectionStore.{ConnectionState}
use file_share_app.Client.TransferStore.{PerFileStatus}
use file_share_app.Transfer.Crypto.{Crypto}
use file_share_app.Transfer.StateMachine.{TransferState}
use file_share_app.Transfer.Pump
use file_share_app.Transfer.Pump.{EncryptionSession, Config, Output, Outcome}
use file_share_app.Transfer.ControlProtocol.{ControlMessage}
use file_share_app.Transfer.Sender.{
  QueuedFileWithMeta, AcceptLoop, Effect, max_webrtc_reconnect_attempts,
}
use file_share_app.Transfer.Sender.Handlers.{
  Here, set_transfer, set_connection, send_control, set_message, to_peer, to_pump, cancel_all,
  start, key_generated, signaling_connected, connection_failed, pause_current_file, pause_item,
  resume_current_file, resume_item, destroy, close_peer, session_created, answered,
  remote_candidate, peer_left, session_expired, rate_limited,
}
use file_share_app.Transfer.Sender.Connection.{
  PeerState, is_over, runs, new_peer, offer_created, local_candidate, handle_connection_loss,
  attempt_reconnect, reconnect_due, connection_state_change, send_offers, ping_due, ping_peer,
  pong_missed,
}
use file_share_app.Transfer.Sender.Loop.{
  Speeds, handle_accept, handle_reject, pump_ended, history_added, pump_calls, calls_of_item,
  pump_output,
}
use file_share_app.Transfer.Sender.Steps.{
  Event, PeerEvent, SignalingEvent, step, on_peer, on_signaling, handle_control_message, status_if,
}

module _ (c : Crypto) where
  -- Neither an offer of a connection, nor a text on the file channel but one about a chunk.
  abbrev pub is_plain : Effect c → Bool
  is_plain (Effect.creates_offer n) = false
  is_plain (Effect.sends_file_text n (ControlMessage.chunk_meta m)) = true
  is_plain (Effect.sends_file_text n m) = false
  is_plain _ = true

  abbrev pub Property : Type 1
  Property =
      List (Effect c) → ℕ → ℕ → List QueuedFileWithMeta → Dict ℕ AcceptLoop → Option ℕ → Type 0

  pub record IsStable (Q : Property) : Type 0 where
    pub adds :
        {o : List (Effect c)} {a t : ℕ} {q : List QueuedFileWithMeta} {l : Dict ℕ AcceptLoop}
        {p : Option ℕ} (e : Effect c)
        → is_plain e ≡ true
        → Q o a t q l p
        → Q (o ++ e ∷ []) a t q l p
    -- One more attempt, and a timer for it.
    pub loses :
        {o : List (Effect c)} {a t : ℕ} {q : List QueuedFileWithMeta} {l : Dict ℕ AcceptLoop}
        {p : Option ℕ}
        → leb max_webrtc_reconnect_attempts a ≡ false
        → Q o a t q l p
        → Q o (suc a) (suc t) q l p
    -- A timer fired, without an attempt or with one.
    pub drops :
        {o : List (Effect c)} {a t : ℕ} {q : List QueuedFileWithMeta} {l : Dict ℕ AcceptLoop}
        {p : Option ℕ}
        → Q o a t q l p
        → Q o a (t - 1) q l p
    pub retries :
        {o : List (Effect c)} {a t : ℕ} {q : List QueuedFileWithMeta} {l : Dict ℕ AcceptLoop}
        {p : Option ℕ} (n : ℕ)
        → eqb t 0 ≡ false
        → Q o a t q l p
        → Q (o ++ Effect.creates_offer n ∷ []) a (t - 1) q l (some n)

module _ (c : Crypto) (Number : Type 0) (nought infinity : Number) where
  abbrev pub IsOrdinarySignal : SignalingEvent c Number nought infinity → Type 0
  IsOrdinarySignal (SignalingEvent.peer_joined name) = ⊥
  IsOrdinarySignal _ = Unit

  abbrev pub IsOrdinaryPeer : PeerEvent c Number nought infinity → Type 0
  IsOrdinaryPeer (PeerEvent.channels_ready now) = ⊥
  IsOrdinaryPeer _ = Unit

  -- Neither a start, nor a receiver that joins, nor channels that get ready, nor a turn of a loop.
  abbrev pub IsOrdinary : Event c Number nought infinity → Type 0
  IsOrdinary (Event.signaling e) = IsOrdinarySignal e
  IsOrdinary (Event.peer n e) = IsOrdinaryPeer e
  IsOrdinary (Event.starts memory files) = ⊥
  IsOrdinary (Event.pump_ended n outcome now) = ⊥
  IsOrdinary (Event.history_added n) = ⊥
  IsOrdinary _ = Unit

module _ (c : Crypto) (Number : Type 0) (nought infinity : Number) (Q : Property c)
    (laws : IsStable c Q) where
  abbrev pub Kept : Here c Number nought infinity → Type 0
  Kept s = Q s.outputs s.webrtc_reconnect_attempts s.reconnect_timers s.queue s.loops s.peer

  pub if-Kept :
      (b : Bool) (s t : Here c Number nought infinity) → Kept s → Kept t → Kept (if b then s else t)
  if-Kept true s t g h = g
  if-Kept false s t g h = h

  pub to_peer-Kept :
      (peer : Option ℕ) (call : ℕ → Effect c) (s : Here c Number nought infinity)
      → ((n : ℕ) → is_plain c (call n) ≡ true)
      → Kept s
      → Kept (to_peer c Number nought infinity peer call s)
  unfolding to_peer
  to_peer-Kept none call s other h = h
  to_peer-Kept (some n) call s other h = laws.adds (call n) (other n) h

  close_peer-Kept :
      (peer : Option ℕ) (s : Here c Number nought infinity)
      → Kept s
      → Kept (close_peer c Number nought infinity peer s)
  unfolding close_peer
  close_peer-Kept none s h = h
  close_peer-Kept (some n) s h = laws.adds _ refl h

  destroy-Kept :
      (s : Here c Number nought infinity) → Kept s → Kept (destroy c Number nought infinity s)
  unfolding destroy
  destroy-Kept s h = laws.adds _ refl (close_peer-Kept s.peer _ h)

  control-Kept :
      (m : ControlMessage) (s : Here c Number nought infinity)
      → Kept s
      → Kept (send_control c Number nought infinity m s)
  control-Kept m s h = to_peer-Kept s.peer (λ n. Effect.sends_control n m) s (λ n. refl) h

  cancel-Kept :
      (reason : Option Utf16) (s : Here c Number nought infinity)
      → Kept s
      → Kept (cancel_all c Number nought infinity reason s)
  unfolding cancel_all
  cancel-Kept reason s h =
      let r = record s { cancelled = true } in
      let t = to_pump c Number nought infinity Effect.cancels_pump r in
      let u = send_control c Number nought infinity (ControlMessage.cancel reason) t in
      destroy-Kept
        (set_connection c Number nought infinity ConnectionState.cancelled
          (set_transfer c Number nought infinity TransferState.cancelled u))
        (control-Kept (ControlMessage.cancel reason) t
          (to_peer-Kept s.active_pump Effect.cancels_pump r (λ n. refl) h))

  loss-Kept :
      (text : Utf16) (s : Here c Number nought infinity)
      → Kept s
      → Kept (handle_connection_loss c Number nought infinity text s)
  unfolding handle_connection_loss
  loss-Kept text s h =
      if-Kept (is_over s.transfers.transfer_state) s _ h
        (by_limit (leb max_webrtc_reconnect_attempts s.webrtc_reconnect_attempts) refl)
    where
      by_limit :
          (b : Bool)
          → leb max_webrtc_reconnect_attempts s.webrtc_reconnect_attempts ≡ b
          → Kept (
              if b
              then to_pump c Number nought infinity Effect.cancels_pump (
                  set_transfer c Number nought infinity TransferState.failed (
                    set_connection c Number nought infinity ConnectionState.failed
                      (set_message c Number nought infinity text s)))
              else to_pump c Number nought infinity Effect.pauses_pump (
                  set_connection c Number nought infinity ConnectionState.reconnecting (
                    set_transfer c Number nought infinity TransferState.interrupted (record s {
                      webrtc_reconnect_attempts = suc s.webrtc_reconnect_attempts;
                      reconnect_timers = suc s.reconnect_timers;
                    }))))
      by_limit true e = to_peer-Kept s.active_pump Effect.cancels_pump _ (λ n. refl) h
      by_limit false e =
          to_peer-Kept s.active_pump Effect.pauses_pump _ (λ n. refl) (laws.loses e h)

  calls-Kept :
      (speeds : Speeds c Number nought infinity) (output : Output) (o : Option QueuedFileWithMeta)
      (s : Here c Number nought infinity)
      → Kept s
      → Kept (calls_of_item c Number nought infinity speeds output o s)
  unfolding calls_of_item pump_calls
  calls-Kept speeds output none s h = h
  calls-Kept speeds (Pump.meta i size iv) (some item) s h = to_peer-Kept s.peer _ s (λ n. refl) h
  calls-Kept speeds (Pump.binary bytes) (some item) s h =
      to_peer-Kept s.peer (λ n. Effect.sends_file_chunk n bytes) s (λ n. refl) h
  calls-Kept speeds (Pump.progress size i) (some item) s h = h

  reoffer-Kept :
      (peer : Option ℕ) (s : Here c Number nought infinity)
      → eqb s.reconnect_timers 0 ≡ false
      → Kept s
      → let t =
          close_peer c Number nought infinity peer
            (record s { reconnect_timers = s.reconnect_timers - 1; reconnecting = true }) in
        Q
          (t.outputs ++ Effect.creates_offer t.peers ∷ [])
          t.webrtc_reconnect_attempts
          t.reconnect_timers
          t.queue
          t.loops
          (some t.peers)
  unfolding close_peer
  reoffer-Kept none s e h = laws.retries _ e h
  reoffer-Kept (some n) s e h = laws.retries _ e (laws.adds (Effect.closes_peer n) refl h)

  reconnect-Kept :
      (signaling_open : Bool) (o : Option Utf16) (s : Here c Number nought infinity)
      → eqb s.reconnect_timers 0 ≡ false
      → Kept s
      → Kept (
          attempt_reconnect c Number nought infinity signaling_open o
            (record s { reconnect_timers = s.reconnect_timers - 1 }))
  unfolding attempt_reconnect new_peer
  reconnect-Kept signaling_open none s e h = laws.drops h
  reconnect-Kept signaling_open (some id) s e h =
      if-Kept (s.cancelled || not signaling_open) _ _ (laws.drops h) (reoffer-Kept s.peer s e h)

  due-Kept :
      (signaling_open : Bool) (s : Here c Number nought infinity)
      → Kept s
      → Kept (reconnect_due c Number nought infinity signaling_open s)
  unfolding reconnect_due
  due-Kept signaling_open s h = by_timers (eqb s.reconnect_timers 0) refl
    where
      by_timers :
          (b : Bool)
          → eqb s.reconnect_timers 0 ≡ b
          → Kept (
              if b
              then s
              else attempt_reconnect c Number nought infinity signaling_open s.session_id
                  (record s { reconnect_timers = s.reconnect_timers - 1 }))
      by_timers true e = h
      by_timers false e = reconnect-Kept signaling_open s.session_id s e h

  change-Kept :
      (text : Utf16) (p : PeerState) (s : Here c Number nought infinity)
      → Kept s
      → Kept (connection_state_change c Number nought infinity text p s)
  unfolding connection_state_change
  change-Kept text PeerState.connected s h = h
  change-Kept text PeerState.disconnected s h = if-Kept s.cancelled s _ h (loss-Kept text s h)
  change-Kept text PeerState.failed s h = if-Kept s.cancelled s _ h (loss-Kept text s h)
  change-Kept text _ s h = h

  pub offers-Kept :
      (now : ℕ) (key iv_salt : Option Utf16) (s : Here c Number nought infinity)
      → Kept s
      → Kept (send_offers c Number nought infinity now key iv_salt s)
  unfolding send_offers
  offers-Kept now key iv_salt s h =
      let init = ControlMessage.session_init s.display_name s.encryption_enabled key iv_salt in
      control-Kept _ (send_control c Number nought infinity init s) (control-Kept init s h)

  ping-Kept :
      (o : Option ℕ) (s : Here c Number nought infinity)
      → Kept s
      → Kept (ping_peer c Number nought infinity o s)
  unfolding ping_peer
  ping-Kept none s h = h
  ping-Kept (some n) s h = laws.adds _ refl h

  missed-Kept :
      (text : Utf16) (timer : ℕ) (s : Here c Number nought infinity)
      → Kept s
      → Kept (pong_missed c Number nought infinity text timer s)
  unfolding pong_missed
  missed-Kept text timer s h =
      let t = record s { pong_timers = filter_by (λ m. not (eqb m timer)) s.pong_timers } in
      if-Kept (runs s.pong_timers timer && not s.cancelled) _ t (loss-Kept text t h) h

  status-Kept :
      (o : Option Utf16) (status : PerFileStatus) (s : Here c Number nought infinity)
      → Kept s
      → Kept (status_if c Number nought infinity o status s)
  unfolding status_if
  status-Kept none status s h = h
  status-Kept (some []) status s h = h
  status-Kept (some (u ∷ us)) status s h = h

  module _
      (accepts : (d : Option (Dict Utf16 ℕ)) (s : Here c Number nought infinity)
        → Kept s
        → Kept (handle_accept c Number nought infinity d s)) where
    message-Kept :
        (m : ControlMessage) (s : Here c Number nought infinity)
        → Kept s
        → Kept (handle_control_message c Number nought infinity m s)
    unfolding handle_control_message handle_reject
    message-Kept (ControlMessage.file_accept id d) s h = accepts d s h
    message-Kept (ControlMessage.file_reject id) s h = h
    message-Kept ControlMessage.pong s h = h
    message-Kept (ControlMessage.cancel reason) s h = cancel-Kept none s h
    message-Kept (ControlMessage.pause o) s h =
        status-Kept o PerFileStatus.paused (to_pump c Number nought infinity Effect.pauses_pump s)
          (to_peer-Kept s.active_pump Effect.pauses_pump s (λ n. refl) h)
    message-Kept (ControlMessage.resume o) s h =
        status-Kept o PerFileStatus.transferring
          (to_pump c Number nought infinity Effect.resumes_pump s)
          (to_peer-Kept s.active_pump Effect.resumes_pump s (λ n. refl) h)
    message-Kept _ s h = h

    pause-Kept :
        (o : Option QueuedFileWithMeta) (s : Here c Number nought infinity)
        → Kept s
        → Kept (pause_item c Number nought infinity o s)
    unfolding pause_item
    pause-Kept none s h = h
    pause-Kept (some item) s h = control-Kept (ControlMessage.pause (some item.metadata.id)) s h

    resume-Kept :
        (o : Option QueuedFileWithMeta) (s : Here c Number nought infinity)
        → Kept s
        → Kept (resume_item c Number nought infinity o s)
    unfolding resume_item
    resume-Kept none s h = h
    resume-Kept (some item) s h = control-Kept (ControlMessage.resume (some item.metadata.id)) s h

    signaling-Kept :
        (e : SignalingEvent c Number nought infinity) (s : Here c Number nought infinity)
        → IsOrdinarySignal c Number nought infinity e
        → Kept s
        → Kept (on_signaling c Number nought infinity e s)
    unfolding on_signaling session_created answered remote_candidate peer_left session_expired
        rate_limited
    signaling-Kept (SignalingEvent.session_created id token code expires_at) s q h = h
    signaling-Kept (SignalingEvent.peer_joined name) s q h = absurd q
    signaling-Kept (SignalingEvent.answered sdp) s q h =
        to_peer-Kept s.peer (λ n. Effect.sets_remote_description n sdp) s (λ n. refl) h
    signaling-Kept (SignalingEvent.ice_candidate candidate) s q h =
        to_peer-Kept s.peer (λ n. Effect.adds_candidate n candidate) s (λ n. refl) h
    signaling-Kept (SignalingEvent.error message) s q h = h
    signaling-Kept SignalingEvent.peer_left s q h = if-Kept s.cancelled _ _ h h
    signaling-Kept SignalingEvent.session_expired s q h = h
    signaling-Kept SignalingEvent.rate_limited s q h = h

    peer-Kept :
        (text : Utf16) (e : PeerEvent c Number nought infinity) (s : Here c Number nought infinity)
        → IsOrdinaryPeer c Number nought infinity e
        → Kept s
        → Kept (on_peer c Number nought infinity text e s)
    unfolding on_peer local_candidate
    peer-Kept text (PeerEvent.state_changed state) s q h = change-Kept text state s h
    peer-Kept text (PeerEvent.channels_ready now) s q h = absurd q
    peer-Kept text (PeerEvent.local_candidate candidate) s q h = laws.adds _ refl h
    peer-Kept text (PeerEvent.control_text none) s q h = h
    peer-Kept text (PeerEvent.control_text (some m)) s q h = message-Kept m s h

    pub step-Kept :
        (text : Utf16) (s : Here c Number nought infinity) (e : Event c Number nought infinity)
        → IsOrdinary c Number nought infinity e
        → Kept s
        → Kept (step c Number nought infinity text s e)
    unfolding step start key_generated signaling_connected connection_failed pause_current_file
        resume_current_file offer_created pump_ended pump_output history_added ping_due
    step-Kept text s (Event.starts memory files) q h = absurd q
    step-Kept text s (Event.key_generated session) q h = laws.adds _ refl (laws.adds _ refl h)
    step-Kept text s Event.signaling_connected q h = laws.adds _ refl h
    step-Kept text s (Event.connection_failed message) q h = h
    step-Kept text s (Event.offer_created sdp) q h = laws.adds _ refl h
    step-Kept text s Event.pauses q h =
        pause-Kept (get_elem? s.queue s.active_file_index)
          (to_pump c Number nought infinity Effect.pauses_pump s)
          (to_peer-Kept s.active_pump Effect.pauses_pump s (λ n. refl) h)
    step-Kept text s Event.resumes q h =
        resume-Kept (get_elem? s.queue s.active_file_index)
          (to_pump c Number nought infinity Effect.resumes_pump s)
          (to_peer-Kept s.active_pump Effect.resumes_pump s (λ n. refl) h)
    step-Kept text s Event.destroys q h = destroy-Kept s h
    step-Kept text s (Event.cancels reason) q h = cancel-Kept reason s h
    step-Kept text s (Event.signaling e) q h = signaling-Kept e s q h
    step-Kept text s (Event.peer n e) q h = if-Kept _ _ s (peer-Kept text e s q h) h
    step-Kept text s (Event.key_exported now key iv_salt) q h =
        offers-Kept now (some key) (some iv_salt) s h
    step-Kept text s (Event.pump_ended n outcome now) q h = absurd q
    step-Kept text s (Event.pump_calls speeds i output) q h =
        calls-Kept speeds output (get_elem? s.queue i) s h
    step-Kept text s (Event.history_added n) q h = absurd q
    step-Kept text s (Event.ping_due interval) q h = ping-Kept (get interval s.intervals) s h
    step-Kept text s (Event.pong_missed timer) q h = missed-Kept text timer s h
    step-Kept text s (Event.reconnect_due signaling_open) q h = due-Kept signaling_open s h
