-- ===== src/Transfer/Receiver/Kept.antt =====
-- What the steps of a session keep, for properties of what it did, the files that it finalizes and
-- finalized, the metadata that it knows, its timer and whether it was cancelled. A property is given
-- by its laws, and by what `handleFileComplete` does to it.
use file_share_app.Base.{
  ℕ, ◌≡◌, refl, Bool, true, false, List, [], ◌∷◌, ◌++◌, map, Option, none, some, Utf16, utf16_eq,
  if◌then◌else◌,
}
use file_share_app.Base.Dict.{Dict}
use file_share_app.Shared.FileNames.{FileMetadata}
use file_share_app.Shared.Offers
use file_share_app.Shared.Offers.{FileOffer}
use file_share_app.Transfer.Crypto.{Crypto}
use file_share_app.Transfer.Sink.{ChunkSink}
use file_share_app.Transfer.ChunkReceiver.{Handled, ignored, rejected, stored}
use file_share_app.Transfer.Delivery.{ChunkMeta, Frame, chunk_meta, payload}
use file_share_app.Transfer.ControlProtocol.{ControlMessage}
use file_share_app.Transfer.Receiver.{Effect, Finalizing, adds_history, Timer}
use file_share_app.Transfer.Receiver.Handlers.{
  Here, arm, send_to, add_to, PeerState, join, signaling_connected, connection_failed,
  answer_created, connection_lost, connection_state_change, local_candidate, session_joined,
  session_not_found, session_expired, offered, remote_candidate, peer_left, rate_limited,
  wire_signaling_handlers,
}
use file_share_app.Transfer.Receiver.Messages.{
  remember, take_offer, show_files, send_accept, session_init, handle_file_offer, with_safe_name,
  key_imported, respond_to_offer,
}
use file_share_app.Transfer.Receiver.Files.{
  handle_file_complete, Speeds, handle_chunk_frame, handle_file_text, handle_control_message,
  on_chunk_progress, progress_of, payload_progress,
}
use file_share_app.Transfer.Receiver.Steps.{
  Event, PeerEvent, SignalingEvent, on_peer, on_signaling, step,
}

-- No entry of the history.
abbrev pub is_plain : Effect → Bool
is_plain (adds_history entry) = false
is_plain _ = true

abbrev pub Property : Type 1
Property =
    List Effect
    → Dict Utf16 Finalizing
    → List Utf16
    → Dict Utf16 FileMetadata
    → Timer
    → Bool
    → Type 0

pub record IsStable (Q : Property) : Type 0 where
  pub adds :
      {o : List Effect} {w : Dict Utf16 Finalizing} {f : List Utf16} {m : Dict Utf16 FileMetadata}
      {t : Timer} {x : Bool} (e : Effect)
      → is_plain e ≡ true
      → Q o w f m t x
      → Q (o ++ e ∷ []) w f m t x
  pub remembers :
      {o : List Effect} {w : Dict Utf16 Finalizing} {f : List Utf16} {m : Dict Utf16 FileMetadata}
      {t : Timer} {x : Bool} (files : List FileMetadata)
      → Q o w f m t x
      → Q o w f (remember files m) t x
  -- The connection is lost.
  pub arms :
      {o : List Effect} {w : Dict Utf16 Finalizing} {f : List Utf16} {m : Dict Utf16 FileMetadata}
      {t : Timer} {x : Bool}
      → Q o w f m t x
      → Q o w f m (arm t) x

module _ (c : Crypto) (k : ChunkSink) (Number : Type 0) (nought infinity : Number) where
  abbrev pub IsOrdinaryPeer : PeerEvent c k Number nought infinity → Type 0
  IsOrdinaryPeer (PeerEvent.state_changed PeerState.connected) = ⊥
  IsOrdinaryPeer PeerEvent.channels_ready = ⊥
  IsOrdinaryPeer _ = Unit

  -- Neither a connection, nor the end of a file or of the session, nor the timer.
  abbrev pub IsOrdinary : Event c k Number nought infinity → Type 0
  IsOrdinary (Event.peer n e) = IsOrdinaryPeer e
  IsOrdinary (Event.gives_up text) = ⊥
  IsOrdinary (Event.finalized file_id blob now) = ⊥
  IsOrdinary Event.cancels = ⊥
  IsOrdinary Event.destroys = ⊥
  IsOrdinary _ = Unit

module _ (c : Crypto) (k : ChunkSink) (Number : Type 0) (nought infinity : Number) (Q : Property)
    (laws : IsStable Q)
    (completes : (file_id checksum : Utf16) (s : Here c k Number nought infinity)
      → Q s.outputs s.finalizing s.completed_file_ids s.metadata_by_id s.give_up_timer s.cancelled
      → let t = handle_file_complete c k Number nought infinity file_id checksum s in
        Q t.outputs t.finalizing t.completed_file_ids t.metadata_by_id t.give_up_timer
          t.cancelled) where
  abbrev Kept : Here c k Number nought infinity → Type 0
  Kept s =
      Q s.outputs s.finalizing s.completed_file_ids s.metadata_by_id s.give_up_timer s.cancelled

  send_to-Kept :
      (peer : Option ℕ) (m : ControlMessage) (s : Here c k Number nought infinity)
      → Kept s
      → Kept (send_to c k Number nought infinity peer m s)
  unfolding send_to
  send_to-Kept none m s h = h
  send_to-Kept (some n) m s h = laws.adds _ refl h

  add_to-Kept :
      (peer : Option ℕ) (candidate : Utf16) (s : Here c k Number nought infinity)
      → Kept s
      → Kept (add_to c k Number nought infinity peer candidate s)
  unfolding add_to
  add_to-Kept none m s h = h
  add_to-Kept (some n) m s h = laws.adds _ refl h

  if-Kept :
      (b : Bool) (s t : Here c k Number nought infinity)
      → Kept s
      → Kept t
      → Kept (if b then s else t)
  if-Kept true s t g h = g
  if-Kept false s t g h = h

  offer-Kept :
      (o : Option FileOffer) (s : Here c k Number nought infinity)
      → Kept s
      → Kept (take_offer c k Number nought infinity o s)
  unfolding take_offer show_files send_accept
  offer-Kept none s h = h
  offer-Kept (some offer) s h =
      let files = map with_safe_name offer.files in
      let known = laws.remembers files h in
      if-Kept _ _ _ (send_to-Kept s.peer _ _ known) (laws.adds _ refl known)

  init-Kept :
      (enabled : Bool) (key salt : Option Utf16) (s : Here c k Number nought infinity)
      → Kept s
      → Kept (session_init c k Number nought infinity enabled key salt s)
  unfolding session_init
  init-Kept true (some (u ∷ us)) (some (v ∷ vs)) s h = laws.adds _ refl h
  init-Kept true (some (u ∷ us)) (some []) s h = h
  init-Kept true (some (u ∷ us)) none s h = h
  init-Kept true (some []) salt s h = h
  init-Kept true none salt s h = h
  init-Kept false key salt s h = h

  control-Kept :
      (m : ControlMessage) (s : Here c k Number nought infinity)
      → Kept s
      → Kept (handle_control_message c k Number nought infinity m s)
  unfolding handle_control_message handle_file_offer
  control-Kept (ControlMessage.session_init sender enabled key salt) s h =
      init-Kept enabled key salt s h
  control-Kept (ControlMessage.file_offer v) s h = offer-Kept (Offers.file_offer v) s h
  control-Kept (ControlMessage.file_complete file_id checksum) s h = completes file_id checksum s h
  control-Kept (ControlMessage.transfer_complete id) s h = h
  control-Kept ControlMessage.ping s h = send_to-Kept s.peer _ s h
  control-Kept (ControlMessage.cancel reason) s h = h
  control-Kept _ s h = h

  progress_of-Kept :
      (speeds : Speeds c k Number nought infinity) (file_id : Utf16) (o : Handled)
      (s : Here c k Number nought infinity)
      → Kept s
      → Kept (progress_of c k Number nought infinity speeds file_id o s)
  unfolding progress_of on_chunk_progress
  progress_of-Kept speeds file_id ignored s h = h
  progress_of-Kept speeds file_id rejected s h = h
  progress_of-Kept speeds file_id (stored bytes i) s h = h

  payload-Kept :
      (speeds : Speeds c k Number nought infinity) (pending : Option ChunkMeta) (bytes : List ℕ)
      (before s : Here c k Number nought infinity)
      → Kept s
      → Kept (payload_progress c k Number nought infinity speeds pending bytes before s)
  unfolding payload_progress
  payload-Kept speeds none bytes before s h = h
  payload-Kept speeds (some m) bytes before s h = progress_of-Kept speeds m.file_id _ s h

  frame-Kept :
      (speeds : Speeds c k Number nought infinity) (f : Frame) (s : Here c k Number nought infinity)
      → Kept s
      → Kept (handle_chunk_frame c k Number nought infinity speeds f s)
  unfolding handle_chunk_frame
  frame-Kept speeds (chunk_meta m) s h = h
  frame-Kept speeds (payload bytes) s h = payload-Kept speeds s.inbox.pending bytes s _ h

  text-Kept :
      (speeds : Speeds c k Number nought infinity) (m : ControlMessage)
      (s : Here c k Number nought infinity)
      → Kept s
      → Kept (handle_file_text c k Number nought infinity speeds m s)
  unfolding handle_file_text
  text-Kept speeds (ControlMessage.chunk_meta m) s h = frame-Kept speeds (chunk_meta m) s h
  text-Kept speeds (ControlMessage.session_init sender enabled key salt) s h =
      control-Kept (ControlMessage.session_init sender enabled key salt) s h
  text-Kept speeds (ControlMessage.file_offer v) s h =
      control-Kept (ControlMessage.file_offer v) s h
  text-Kept speeds (ControlMessage.file_complete file_id checksum) s h =
      control-Kept (ControlMessage.file_complete file_id checksum) s h
  text-Kept speeds ControlMessage.ping s h = control-Kept ControlMessage.ping s h
  text-Kept speeds _ s h = h

  lost-Kept :
      (s : Here c k Number nought infinity)
      → Kept s
      → Kept (connection_lost c k Number nought infinity s)
  unfolding connection_lost
  lost-Kept s h = if-Kept s.cancelled s _ h (laws.arms h)

  on_peer-Kept :
      (e : PeerEvent c k Number nought infinity) (s : Here c k Number nought infinity)
      → IsOrdinaryPeer c k Number nought infinity e
      → Kept s
      → Kept (on_peer c k Number nought infinity e s)
  unfolding on_peer connection_state_change local_candidate
  on_peer-Kept (PeerEvent.state_changed PeerState.connected) s q h = absurd q
  on_peer-Kept (PeerEvent.state_changed PeerState.disconnected) s q h = lost-Kept s h
  on_peer-Kept (PeerEvent.state_changed PeerState.failed) s q h = lost-Kept s h
  on_peer-Kept (PeerEvent.state_changed _) s q h = h
  on_peer-Kept PeerEvent.channels_ready s q h = absurd q
  on_peer-Kept (PeerEvent.local_candidate candidate) s q h = laws.adds _ refl h
  on_peer-Kept (PeerEvent.control_text none) s q h = h
  on_peer-Kept (PeerEvent.control_text (some m)) s q h = control-Kept m s h
  on_peer-Kept (PeerEvent.file_text speeds none) s q h = h
  on_peer-Kept (PeerEvent.file_text speeds (some m)) s q h = text-Kept speeds m s h
  on_peer-Kept (PeerEvent.file_bytes speeds bytes) s q h = frame-Kept speeds (payload bytes) s h

  on_signaling-Kept :
      (e : SignalingEvent c k Number nought infinity) (s : Here c k Number nought infinity)
      → Kept s
      → Kept (on_signaling c k Number nought infinity e s)
  unfolding on_signaling session_joined session_not_found session_expired offered remote_candidate
      peer_left rate_limited
  on_signaling-Kept (SignalingEvent.session_joined id name) s h = h
  on_signaling-Kept SignalingEvent.session_not_found s h = h
  on_signaling-Kept SignalingEvent.session_expired s h = h
  on_signaling-Kept SignalingEvent.peer_left s h = if-Kept s.cancelled _ _ h h
  on_signaling-Kept SignalingEvent.rate_limited s h = h
  on_signaling-Kept (SignalingEvent.offered sdp) s h = laws.adds _ refl h
  on_signaling-Kept (SignalingEvent.ice_candidate candidate) s h = add_to-Kept s.peer candidate s h
  on_signaling-Kept (SignalingEvent.error text) s h = h

  wire-Kept :
      (s : Here c k Number nought infinity)
      → Kept s
      → Kept (wire_signaling_handlers c k Number nought infinity s)
  unfolding wire_signaling_handlers
  wire-Kept s h = if-Kept s.handlers_wired _ _ h (laws.adds _ refl h)

  pub step-Kept :
      (s : Here c k Number nought infinity) (e : Event c k Number nought infinity)
      → IsOrdinary c k Number nought infinity e
      → Kept s
      → Kept (step c k Number nought infinity s e)
  unfolding step join signaling_connected connection_failed answer_created key_imported
      respond_to_offer send_accept
  step-Kept s Event.joins q h = if-Kept s.join_requested _ _ h (laws.adds _ refl (wire-Kept _ h))
  step-Kept s (Event.signaling_connected params) q h = laws.adds _ refl h
  step-Kept s (Event.connection_failed text) q h = h
  step-Kept s (Event.answer_created answer) q h = laws.adds _ refl h
  step-Kept s (Event.gives_up text) q h = absurd q
  step-Kept s (Event.signaling e) q h = on_signaling-Kept e s h
  step-Kept s (Event.peer n e) q h = if-Kept _ _ _ (on_peer-Kept e s q h) h
  step-Kept s (Event.key_imported session) q h = h
  step-Kept s (Event.responds transfer_id files accept make_sink) q h =
      if-Kept accept _ _ (send_to-Kept s.peer _ _ h) (send_to-Kept s.peer _ s h)
  step-Kept s (Event.finalized file_id blob now) q h = absurd q
  step-Kept s Event.cancels q h = absurd q
  step-Kept s Event.destroys q h = absurd q
