-- ===== src/Transfer/Receiver/GiveUp.antt =====
-- A receiver that lost its connection does not wait for ever.
use file_share_app.Base.{◌≡◌, false, some, Utf16, utf16_eq}
use file_share_app.Transfer.Crypto.{Crypto}
use file_share_app.Transfer.Sink.{ChunkSink}
use file_share_app.Transfer.ChunkReceiver.{Receiver}
use file_share_app.Transfer.Receiver.{Timer, running}
use file_share_app.Transfer.Receiver.Handlers.{Here}
use file_share_app.Transfer.Receiver.Files
use file_share_app.Transfer.Receiver.Files.{
  history_entry, contains_id, Speeds, handle_chunk_frame, handle_file_text, handle_control_message,
  on_chunk_progress, progress_of, handled_by, payload_progress, close_peer, destroy, cancel,
}
use file_share_app.Transfer.Receiver.Kept.{Property, IsOrdinary}
use file_share_app.Transfer.Receiver.Steps.{Event}
use file_share_app.Transfer.StateMachine.{TransferState}
use file_share_app.Client.ConnectionStore.{ConnectionState}

abbrev IsRunning : Timer → Type 0
IsRunning running = Unit
IsRunning _ = ⊥

-- The timer runs, and the session is not cancelled.
abbrev Waiting : Property
Waiting outputs waiting finished known timer cancelled = (timer ≡ running) × (cancelled ≡ false)

module _ (c : Crypto) (k : ChunkSink) (Number : Type 0) (nought infinity : Number) where
  -- Neither a connection, nor an end of the session, nor the timer itself.
  abbrev pub IsQuiet : Event c k Number nought infinity → Type 0
  IsQuiet (Event.finalized file_id blob now) = Unit
  IsQuiet e = IsOrdinary c k Number nought infinity e

  abbrev Waits : Here c k Number nought infinity → Type 0
  Waits s = (s.give_up_timer ≡ running) × (s.cancelled ≡ false)

  abbrev GaveUp : Utf16 → Here c k Number nought infinity → Type 0
  GaveUp reason u =
      (u.transfers.transfer_state ≡ TransferState.failed)
      × (u.connection.connection_state ≡ ConnectionState.failed)
      × (u.connection.error_message ≡ some reason)
