-- ===== src/Tests/Sessions.antt =====
-- The two sessions and what they rest on.
use file_share_app.Base.{
  ℕ, ◌+◌, ◌≤◌, ◌≡◌, ◌≢◌, refl, sym, subst, ◌∙◌, List, [], ◌∷◌, ◌++◌, none, some, Utf16, utf16_eq,
  utf16_beq, units, true, false, arith,
}
use mathlib.Core.List.{Perm}
use file_share_app.Base.Dict.{get, set, delete}
use file_share_app.Shared.FileNames.{FileMetadata, sanitize_file_name}
use file_share_app.Shared.Offers.{file_offer, offer_json}
use file_share_app.Client.ConnectionStore
use file_share_app.Client.TransferStore
use file_share_app.Client.Storage
use file_share_app.Client.TransferStore.{PerFileStatus, TransferFileEntry, init_files}
use file_share_app.Client.SessionStore.{QueuedFile, reorder}
use file_share_app.Client.SessionStore.Queue.{reorder-Perm}
use file_share_app.Client.PeerConnection
use file_share_app.Client.PeerConnection.{PeerRole, new_manager}
use file_share_app.Client.PeerConnection.Candidates
use file_share_app.Client.PeerConnection.Candidates.{applied, copies, flat, candidates_once}
use file_share_app.Transfer.Pump
use file_share_app.Transfer.Pump.{Config, EncryptionSession, start}
use file_share_app.Transfer.ChunkReceiver
use file_share_app.Transfer.ChunkReceiver.{checksums_match, digest_hex}
use file_share_app.Transfer.Delivery.{frames}
use file_share_app.Transfer.Delivery.Chunk.{IsPlanned}
use file_share_app.Transfer.ControlProtocol.{ControlMessage}
use file_share_app.Transfer.Receiver
use file_share_app.Transfer.Receiver.{Session, adds_history, saves}
use file_share_app.Transfer.Receiver.Handlers.{Here, PeerState}
use file_share_app.Transfer.Receiver.Files
use file_share_app.Transfer.Receiver.Files.{
  Speeds, handle_file_complete, integrity_error, history_entry,
}
use file_share_app.Transfer.Receiver.Steps.{
  Event, PeerEvent, SignalingEvent, peer, file_text, step, run,
}
use file_share_app.Transfer.Receiver.Whole.{completed_whole, heard}
use file_share_app.Transfer.Receiver.Verdict.{complete-verdict}
use file_share_app.Transfer.Receiver.Once.{recorded_once}
use file_share_app.Transfer.Receiver.Tally.{recorded}
use file_share_app.Transfer.Sender
use file_share_app.Transfer.Sender.{SourceFile, with_metadata, max_webrtc_reconnect_attempts}
use file_share_app.Transfer.Sender.Connection
use file_share_app.Transfer.Sender.Handlers
use file_share_app.Transfer.Sender.Steps as SenderSteps
use file_share_app.Transfer.Sender.Attempts.{offers, run-attempts}
use file_share_app.Transfer.Sender.Orderly.{told, ended}
use file_share_app.Transfer.Sender.Complete.{run-told}
use file_share_app.Transfer.Sender.Loop.{config_of}
use file_share_app.Transfer.Sender.Planned.{offer-received, config_of-IsPlanned}
use file_share_app.Tests.Toys.{toy_crypto}
use file_share_app.Tests.Transfers.{
  config, checksum, file_id, sink, fresh, inbox, interrupted, run-interrupted, config-IsPlanned,
  inbox-HasChunks,
}

-- Speeds are numbers here.
abbrev Receiving : Type 0
Receiving = Here toy_crypto sink ℕ 0 1

abbrev metadata : FileMetadata
metadata = record {
  id = file_id;
  name = units "a.txt";
  size = 5;
  mime_type = [];
  last_modified = 0;
  total_chunks = 3;
  chunk_size = 2;
  relative_path = none;
  checksum = none;
}

abbrev entry : TransferFileEntry ℕ 0 1
entry = record {
  id = file_id;
  name = units "a.txt";
  size = 5;
  mime_type = [];
  status = PerFileStatus.queued;
  bytes_transferred = 0;
  current_speed_bps = 0;
  average_speed_bps = 0;
  eta_seconds = 1;
  checksum_verified = none;
  error = none;
}

abbrev new_session : Receiving
new_session =
    Receiver.new toy_crypto sink ℕ 0 1 (TransferStore.initial ℕ 0 1) ConnectionStore.initial
      (units "B")

-- A session that accepted an offer of one file.
abbrev accepted : Receiving
accepted = record new_session {
  peer = some 0;
  offers = 1;
  inbox = inbox;
  metadata_by_id = (file_id, metadata) ∷ [];
  transfers = record new_session.transfers { files = (file_id, entry) ∷ [] };
}

abbrev no_speeds : Speeds toy_crypto sink ℕ 0 1
no_speeds = record { current_speed_bps = 0; average_speed_bps = 0; eta_seconds = 1 }

abbrev sent : List Pump.Output
sent = (Pump.run toy_crypto config (start toy_crypto 0) interrupted).sent

abbrev arrived : Receiving
arrived =
    run toy_crypto sink ℕ 0 1 accepted
      (heard toy_crypto sink ℕ 0 1 0 (λ i. no_speeds) 0 (frames file_id sent))

abbrev completed : Receiving
completed = run toy_crypto sink ℕ 0 1 arrived (
    peer 0 (file_text no_speeds (some (ControlMessage.file_complete file_id checksum)))
    ∷ Event.finalized file_id none 7
    ∷ [])

completed_whole_example :
    ((r : ChunkReceiver.Receiver toy_crypto sink) × (get file_id arrived.inbox.receivers ≡ some r)
      × (sink.contents r.sink ≡ config.file))
    × ((e : TransferFileEntry ℕ 0 1) × (get file_id completed.transfers.files ≡ some e)
        × (e.status ≡ PerFileStatus.completed)
        × (e.checksum_verified ≡ some true)
        × (e.error ≡ none))
unfolding Receiver.new get utf16_beq
completed_whole_example =
    completed_whole toy_crypto sink ℕ 0 1 config file_id accepted 0 0 0 7 (λ i. no_speeds)
      interrupted checksum metadata entry none config-IsPlanned inbox-HasChunks (omega arith)
      (omega arith) run-interrupted refl refl refl refl

-- A wrong checksum for a file of which nothing arrived.
abbrev rejected : Receiving
rejected =
    Files.finalized toy_crypto sink ℕ 0 1 file_id none 7
      (handle_file_complete toy_crypto sink ℕ 0 1 file_id checksum accepted)

complete-verdict_example :
    (get file_id rejected.transfers.files
      ≡ some (record entry {
        status = PerFileStatus.failed;
        checksum_verified = some false;
        error = some integrity_error;
      }))
    × (rejected.outputs
        ≡ (accepted.outputs ++ [])
          ++ adds_history (record {
            id = file_id;
            direction = Storage.received;
            file_name = units "a.txt";
            size = 5;
            timestamp = 7;
            status = Storage.failed;
            peer_name = accepted.sender_name;
            verified = false;
          })
            ∷ [])
unfolding Receiver.new get set utf16_beq checksums_match digest_hex ChunkReceiver.new
complete-verdict_example =
    complete-verdict toy_crypto sink ℕ 0 1 accepted file_id checksum fresh metadata entry none 7
      false refl refl refl refl refl

twice : List (Event toy_crypto sink ℕ 0 1)
twice =
    peer 0 (file_text no_speeds (some (ControlMessage.file_complete file_id checksum)))
    ∷ Event.finalized file_id none 7
    ∷ peer 0 (file_text no_speeds (some (ControlMessage.file_complete file_id checksum)))
    ∷ Event.finalized file_id none 8
    ∷ []

recorded_once_example : recorded file_id (run toy_crypto sink ℕ 0 1 new_session twice).outputs ≤ 1
recorded_once_example =
    recorded_once toy_crypto sink ℕ 0 1 (TransferStore.initial ℕ 0 1) ConnectionStore.initial
      (units "B") twice file_id

abbrev given_up : Receiving
given_up =
    step toy_crypto sink ℕ 0 1
      (run toy_crypto sink ℕ 0 1 accepted (
        peer 0 (PeerEvent.state_changed PeerState.failed)
        ∷ Event.signaling SignalingEvent.peer_left
        ∷ []))
      (Event.gives_up (units "gone"))

-- A sender with a connection that fails, fails again and is tried anew.
abbrev Sending : Type 0
Sending = Sender.Session toy_crypto ℕ 0 1

abbrev connected : Sending
connected =
    record (Sender.new toy_crypto ℕ 0 1 (TransferStore.initial ℕ 0 1) ConnectionStore.initial
      (units "A") 600 false (units "t")) { peer = some 0; peers = 1; session_id = some (units "s") }

abbrev failures : List (SenderSteps.Event toy_crypto ℕ 0 1)
failures =
    SenderSteps.peer 0 (SenderSteps.state_changed Connection.disconnected)
    ∷ SenderSteps.peer 0 (SenderSteps.state_changed Connection.failed)
    ∷ SenderSteps.reconnect_due true
    ∷ SenderSteps.reconnect_due true
    ∷ []

run-attempts_example :
    (offers toy_crypto (SenderSteps.run toy_crypto ℕ 0 1 (units "gone") connected failures).outputs
      ≤ offers toy_crypto connected.outputs + max_webrtc_reconnect_attempts)
    × ((SenderSteps.run toy_crypto ℕ 0 1
          (units "gone")
          connected
          failures).webrtc_reconnect_attempts
        ≤ max_webrtc_reconnect_attempts)
unfolding Sender.new
run-attempts_example =
    run-attempts toy_crypto ℕ 0 1 (units "gone") connected failures refl refl
      (tt, (tt, (tt, (tt, tt))))

-- It does try: two connections are offered.
tried :
    offers toy_crypto (SenderSteps.run toy_crypto ℕ 0 1 (units "gone") connected failures).outputs
    ≡ 2
unfolding Sender.new SenderSteps.run SenderSteps.step Handlers.to_peer
tried = refl

abbrev source : SourceFile
source = record {
  id = file_id;
  name = units "a/b..txt";
  mime_type = [];
  last_modified = 0;
  content = 1 ∷ 2 ∷ 3 ∷ [];
  relative_path = none;
}

abbrev IsLong : Utf16 → Type 0
IsLong (u ∷ v ∷ us) = Unit
IsLong _ = ⊥

source_name : sanitize_file_name (units "a/b..txt") ≡ units "a_b_txt"
unfolding sanitize_file_name
source_name = refl

source_differs : sanitize_file_name (units "a/b..txt") ≢ units "."
source_differs e = subst IsLong (sym source_name ∙ e) tt

offer-received_example :
    file_offer (offer_json 9 (units "t") ((with_metadata none source).metadata ∷ []))
    ≡ some (record { transfer_id = units "t"; files = (with_metadata none source).metadata ∷ [] })
offer-received_example =
    offer-received none 9 (units "t") (source ∷ []) (omega arith) (omega arith) (omega arith)
      (omega arith)
      (
        record {
          has_id = omega arith;
          short_id = omega arith;
          short_type = omega arith;
          short_path = tt;
          named = source_differs;
        },
        tt,
      )

config_of-IsPlanned_example :
    IsPlanned toy_crypto sink (config_of toy_crypto (with_metadata none source) 0 config.encryption)
    × ((config_of toy_crypto (with_metadata none source) 0 config.encryption).file ≡ source.content)
config_of-IsPlanned_example =
    config_of-IsPlanned toy_crypto sink none source 0 config.encryption (omega arith)

early : List Candidates.Event
early = Candidates.remote_candidate (units "a") ∷ Candidates.remote_candidate (units "b") ∷ []

late : List Candidates.Event
late = Candidates.added ∷ Candidates.remote_candidate (units "c") ∷ []

abbrev manager : PeerConnection.PeerConnectionManager
manager =
    Candidates.run (new_manager PeerRole.receiver) (early ++ Candidates.description_settled ∷ late)

candidates_once_example :
    (applied (Candidates.run (new_manager PeerRole.receiver) early).outputs ≡ [])
    × (copies (units "b") (applied manager.outputs) + copies (units "b") (flat manager.loops)
        ≡ copies (units "b") (Candidates.came early) + copies (units "b") (Candidates.came late))
unfolding early late
candidates_once_example =
    candidates_once PeerRole.receiver early late (units "b") (tt, (tt, tt)) (tt, (tt, tt))

abbrev queued : ℕ → QueuedFile
queued n = record {
  id = n ∷ [];
  file = record { name = units "a"; size = n; last_modified = 0 };
  relative_path = none;
}

reorder-Perm_example : Perm (reorder 0 1 (queued 1 ∷ queued 2 ∷ [])) (queued 1 ∷ queued 2 ∷ [])
reorder-Perm_example = reorder-Perm 0 1 (queued 1 ∷ queued 2 ∷ [])

-- A sender with one file, whose receiver accepts it.
abbrev ready : Sending
ready = record connected { queue = with_metadata none source ∷ [] }

abbrev whole_queue : List (SenderSteps.Event toy_crypto ℕ 0 1)
whole_queue =
    SenderSteps.peer 0
      (SenderSteps.control_text (some (ControlMessage.file_accept (units "t") none)))
    ∷ SenderSteps.pump_ended 0 (Pump.completed (units "06")) 5
    ∷ SenderSteps.history_added 0
    ∷ []

abbrev finished : Sending
finished = SenderSteps.run toy_crypto ℕ 0 1 (units "gone") ready whole_queue

finished_ended : ended toy_crypto finished.outputs ≡ true
unfolding Sender.new SenderSteps.run SenderSteps.step Handlers.to_peer get set delete utf16_beq
    with_metadata
finished_ended = refl

run-told_example : told toy_crypto file_id finished.outputs ≡ true
unfolding Sender.new with_metadata
run-told_example =
    run-told toy_crypto ℕ 0 1 (units "gone") ready whole_queue 0 (with_metadata none source) refl
      refl refl (tt, (tt, (tt, tt))) finished_ended refl
