-- ===== src/Transfer/Sender.antt =====
-- client/src/services/transfer/SenderSession.ts: what a session keeps, and what it does to the
-- outside. Connections, pumps, accept loops, intervals and timers are numbered as they are made;
-- speeds are values of the parameter `Number`.
pub mod Handlers
pub mod Connection
pub mod Loop
pub mod Steps
pub mod Kept
pub mod Attempts
pub mod Orderly
pub mod Complete
pub mod Planned
use file_share_app.Base.{
  ℕ, ◌+◌, ◌*◌, Bool, false, List, [], ◌∷◌, map, length, Option, none, some, Utf16, eqb,
  if◌then◌else◌, units,
}
use file_share_app.Base.Dict.{Dict}
use file_share_app.Shared.FileNames.{FileMetadata, sanitize_file_name}
use file_share_app.Client.ConnectionStore.{ConnectionStore}
use file_share_app.Client.TransferStore.{TransferStore}
use file_share_app.Client.Storage.{HistoryEntry}
use file_share_app.Transfer.ChunkSize.{select_chunk_size, total_chunks}
use file_share_app.Transfer.Crypto.{Crypto}
use file_share_app.Transfer.Pump.{EncryptionSession, Config}
use file_share_app.Transfer.ControlProtocol.{ControlMessage}

abbrev pub max_webrtc_reconnect_attempts : ℕ
max_webrtc_reconnect_attempts = 5

-- A QueuedFile with the properties and the bytes of its File.
pub record SourceFile : Type 0 where
  pub id : Utf16
  pub name : Utf16
  pub mime_type : Utf16
  pub last_modified : ℕ
  pub content : List ℕ
  pub relative_path : Option Utf16

pub record QueuedFileWithMeta : Type 0 where
  pub file : SourceFile
  pub metadata : FileMetadata

abbrev pub type_or_default : Utf16 → Utf16
type_or_default [] = units "application/octet-stream"
type_or_default (u ∷ us) = u ∷ us

-- The metadata of an item; `memory` is `navigator.deviceMemory`.
unfoldable pub with_metadata : Option ℕ → SourceFile → QueuedFileWithMeta
with_metadata memory f =
    let size = length f.content in
    let chunk_size = select_chunk_size memory size none in
    record {
      file = f;
      metadata = record {
        id = f.id;
        name = sanitize_file_name f.name;
        size = size;
        mime_type = type_or_default f.mime_type;
        last_modified = f.last_modified;
        total_chunks = total_chunks size chunk_size;
        chunk_size = chunk_size;
        relative_path = f.relative_path;
        checksum = none;
      };
    }

-- Where a call of `handleAccept` waits: for the pump of a file, or for the history after it.
pub data Waiting : Type 0 where
  for_pump : ℕ → ℕ → Waiting
  for_history : ℕ → Waiting

pub record AcceptLoop : Type 0 where
  pub resume_map : Dict Utf16 ℕ
  pub waiting : Waiting

module _ (c : Crypto) where
  -- What the session does to the outside. Session descriptions and candidates stand as texts.
  pub data Effect : Type 0 where
    generates_key exports_key wires_handlers connects closes_signaling : Effect
    creates_session : Utf16 → ℕ → Effect
    creates_offer : ℕ → Effect
    sends_offer sends_candidate : Option Utf16 → Utf16 → Effect
    sets_remote_description adds_candidate : ℕ → Utf16 → Effect
    sends_control sends_file_text : ℕ → ControlMessage → Effect
    sends_file_chunk : ℕ → List ℕ → Effect
    starts_pump : ℕ → Config c → ℕ → Effect
    pauses_pump resumes_pump cancels_pump closes_peer : ℕ → Effect
    adds_history : HistoryEntry → Effect

module _ (c : Crypto) (Number : Type 0) (nought infinity : Number) where
  pub record Session : Type 0 where
    pub transfers : TransferStore Number nought infinity
    pub connection : ConnectionStore
    -- `opts` and `transferId`
    pub display_name : Utf16
    pub timeout_seconds : ℕ
    pub encryption_enabled : Bool
    pub transfer_id : Utf16
    pub session_id : Option Utf16
    pub encryption : Option (EncryptionSession c)
    pub peer : Option ℕ
    pub peers : ℕ
    pub closed_peers : List ℕ
    pub queue : List QueuedFileWithMeta
    pub active_pump : Option ℕ
    pub pumps : ℕ
    pub active_file_index : ℕ
    pub loops : Dict ℕ AcceptLoop
    pub loops_started : ℕ
    -- The intervals that run, each with its connection, and `pingTimer`.
    pub intervals : Dict ℕ ℕ
    pub ping_timer : Option ℕ
    -- The timers for a PONG that run, and `pongTimeout`.
    pub pong_timers : List ℕ
    pub pong_timeout : Option ℕ
    pub pings : ℕ
    -- The timers of RECONNECT_GRACE_MS that run.
    pub reconnect_timers : ℕ
    pub cancelled : Bool
    pub reconnecting : Bool
    pub webrtc_reconnect_attempts : ℕ
    -- What it did so far, the oldest first.
    pub outputs : List (Effect c)

  unfoldable pub new :
      TransferStore Number nought infinity → ConnectionStore → Utf16 → ℕ → Bool → Utf16 → Session
  new transfers connection display_name timeout_seconds encryption_enabled transfer_id = record {
    transfers = transfers;
    connection = connection;
    display_name = display_name;
    timeout_seconds = timeout_seconds;
    encryption_enabled = encryption_enabled;
    transfer_id = transfer_id;
    session_id = none;
    encryption = none;
    peer = none;
    peers = 0;
    closed_peers = [];
    queue = [];
    active_pump = none;
    pumps = 0;
    active_file_index = 0;
    loops = [];
    loops_started = 0;
    intervals = [];
    ping_timer = none;
    pong_timers = [];
    pong_timeout = none;
    pings = 0;
    reconnect_timers = 0;
    cancelled = false;
    reconnecting = false;
    webrtc_reconnect_attempts = 0;
    outputs = [];
  }
