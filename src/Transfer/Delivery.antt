-- ===== src/Transfer/Delivery.antt =====
-- The file channel between the two sessions: what SenderSession.sendFile puts on it for the
-- callbacks of a pump, and what ReceiverSession.handleFileChannelData does with the frames that
-- carry chunks. The channel is ordered and reliable while it lasts; when it breaks, the frames that
-- arrived are a prefix of those sent.
pub mod Chunk
pub mod Run
pub mod Whole
use file_share_app.Base.{ℕ, List, [], ◌∷◌, Option, none, some, Utf16, utf16_eq}
use file_share_app.Base.Dict.{Dict, get, set}
use file_share_app.Transfer.Crypto.{Crypto}
use file_share_app.Transfer.Sink.{ChunkSink}
use file_share_app.Transfer.Pump.{Output, meta, binary, progress}
use file_share_app.Transfer.ChunkReceiver.{Receiver, Handled, handle_chunk}

-- ChunkMetaMessage.
pub record ChunkMeta : Type 0 where
  pub file_id : Utf16
  pub chunk_index : ℕ
  pub byte_length : ℕ
  pub iv : Option Utf16

pub data Frame : Type 0 where
  chunk_meta : ChunkMeta → Frame
  payload : List ℕ → Frame

-- `sendMeta` and `sendBinary`; `onProgress` puts nothing on the channel.
unfoldable pub frames : Utf16 → List Output → List Frame
frames file_id [] = []
frames file_id (meta i size iv ∷ rest) =
    chunk_meta (record { file_id = file_id; chunk_index = i; byte_length = size; iv = iv })
    ∷ frames file_id rest
frames file_id (binary bytes ∷ rest) = payload bytes ∷ frames file_id rest
frames file_id (progress size i ∷ rest) = frames file_id rest

module _ (c : Crypto) (k : ChunkSink) where
  -- `pendingChunkMeta` and `receivers`.
  pub record Inbox : Type 0 where
    pub pending : Option ChunkMeta
    pub receivers : Dict Utf16 (Receiver c k)

  handle_with : Inbox → ChunkMeta → List ℕ → Option (Receiver c k) → Inbox
  handle_with inbox m bytes none = inbox
  handle_with inbox m bytes (some r) = record inbox {
    receivers = set m.file_id (handle_chunk c k r m.chunk_index m.iv bytes).0 inbox.receivers;
  }

  take_payload : Inbox → Option ChunkMeta → List ℕ → Inbox
  unfolding handle_with
  take_payload inbox none bytes = inbox
  take_payload inbox (some m) bytes =
      handle_with (record inbox { pending = none }) m bytes (get m.file_id inbox.receivers)

  unfoldable pub handle_frame : Inbox → Frame → Inbox
  unfolding take_payload
  handle_frame inbox (chunk_meta m) = record inbox { pending = some m }
  handle_frame inbox (payload bytes) = take_payload inbox inbox.pending bytes

  unfoldable pub deliver : Inbox → List Frame → Inbox
  deliver inbox [] = inbox
  deliver inbox (f ∷ fs) = deliver (handle_frame inbox f) fs
