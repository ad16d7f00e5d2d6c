-- ===== src/Transfer/Receiver.antt =====
-- client/src/services/transfer/ReceiverSession.ts: what a session keeps, and what it does to the
-- outside. Handlers has its operations. A peer connection is the number of the offer that it was
-- made for; speeds are values of the parameter `Number`.
pub mod Handlers
pub mod Messages
pub mod Files
pub mod Steps
pub mod Verdict
pub mod Whole
pub mod Kept
pub mod Tally
pub mod Once
pub mod GiveUp
use file_share_app.Base.{ℕ, Bool, false, List, [], Option, none, Utf16, utf16_eq, units}
use file_share_app.Base.Dict.{Dict}
use file_share_app.Shared.FileNames.{FileMetadata}
use file_share_app.Client.ConnectionStore
use file_share_app.Client.ConnectionStore.{ConnectionStore}
use file_share_app.Client.TransferStore
use file_share_app.Client.TransferStore.{TransferStore}
use file_share_app.Client.Storage.{HistoryEntry}
use file_share_app.Transfer.Crypto.{Crypto}
use file_share_app.Transfer.Sink.{ChunkSink}
use file_share_app.Transfer.Pump.{EncryptionSession}
use file_share_app.Transfer.Delivery.{Inbox}
use file_share_app.Transfer.ControlProtocol.{ControlMessage}

pub record JoinParams : Type 0 where
  pub session_id : Option Utf16
  pub token : Option Utf16
  pub pairing_code : Option Utf16

pub record IncomingOffer : Type 0 where
  pub transfer_id : Utf16
  pub sender_name : Utf16
  pub files : List FileMetadata
  pub total_size : ℕ

-- `giveUpTimer`: null, running, or a timer that fired or was cleared and is not forgotten.
pub data Timer : Type 0 where
  no_timer running spent : Timer

-- What the session does to the outside. Sessions and candidates stand as texts.
pub data Effect : Type 0 where
  wires_handlers connects closes_signaling : Effect
  joins_session : JoinParams → Utf16 → Effect
  creates_answer : ℕ → Utf16 → Effect
  sends_answer sends_candidate : Option Utf16 → Utf16 → Effect
  adds_candidate : ℕ → Utf16 → Effect
  sends_control : ℕ → ControlMessage → Effect
  imports_key : Utf16 → Utf16 → Effect
  shows_offer : IncomingOffer → Effect
  saves : List ℕ → Utf16 → Effect
  adds_history : HistoryEntry → Effect
  closes_peer : ℕ → Effect

-- A file between `handleFileComplete`'s verdict and the end of its `finalize`.
pub record Finalizing : Type 0 where
  pub metadata : FileMetadata
  pub verified : Bool

module _ (c : Crypto) (k : ChunkSink) (Number : Type 0) (nought infinity : Number) where
  pub record Session : Type 0 where
    pub transfers : TransferStore Number nought infinity
    pub connection : ConnectionStore
    pub display_name : Utf16
    -- `peer`, which a new offer replaces, and the connections that were closed.
    pub peer : Option ℕ
    pub closed_peers : List ℕ
    pub offers : ℕ
    pub session_id : Option Utf16
    pub sender_name : Utf16
    pub encryption : Option (EncryptionSession c)
    -- `pendingChunkMeta` and `receivers`
    pub inbox : Inbox c k
    pub completed_file_ids : List Utf16
    pub metadata_by_id : Dict Utf16 FileMetadata
    pub finalizing : Dict Utf16 Finalizing
    pub give_up_timer : Timer
    pub cancelled : Bool
    pub handlers_wired : Bool
    pub join_requested : Bool
    -- What it did so far, the oldest first.
    pub outputs : List Effect

  unfoldable pub new : TransferStore Number nought infinity → ConnectionStore → Utf16 → Session
  new transfers connection display_name = record {
    transfers = transfers;
    connection = connection;
    display_name = display_name;
    peer = none;
    closed_peers = [];
    offers = 0;
    session_id = none;
    sender_name = units "Unknown device";
    encryption = none;
    inbox = record { pending = none; receivers = [] };
    completed_file_ids = [];
    metadata_by_id = [];
    finalizing = [];
    give_up_timer = no_timer;
    cancelled = false;
    handlers_wired = false;
    join_requested = false;
    outputs = [];
  }
