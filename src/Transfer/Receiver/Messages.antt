-- ===== src/Transfer/Receiver/Messages.antt =====
-- The messages of the data channels: the control protocol, the chunks, and the end of a session.
use file_share_app.Base.{
  ℕ, ◌+◌, Bool, true, not, List, [], ◌∷◌, map, filter_by, length, Option, none, some, eqb, Utf16,
  utf16_eq, if◌then◌else◌,
}
use file_share_app.Base.Dict.{Dict, get, has, set}
use file_share_app.Shared.Json.{Json}
use file_share_app.Shared.FileNames.{FileMetadata, sanitize_file_name}
use file_share_app.Shared.Offers
use file_share_app.Shared.Offers.{FileOffer}
use file_share_app.Client.TransferStore.{NewFile, init_files}
use file_share_app.Transfer.Crypto.{Crypto}
use file_share_app.Transfer.Sink.{ChunkSink}
use file_share_app.Transfer.StateMachine.{TransferState}
use file_share_app.Transfer.Pump.{EncryptionSession}
use file_share_app.Transfer.ChunkReceiver.{
  Receiver, Handled, ignored, rejected, stored, handle_chunk, resume_from_chunk, digest_hex,
  checksums_match,
}
use file_share_app.Transfer.ChunkReceiver
use file_share_app.Transfer.ControlProtocol.{ControlMessage}
use file_share_app.Transfer.Receiver.{imports_key, shows_offer}
use file_share_app.Transfer.Receiver.Handlers.{Here, do_effect, set_transfer, send_control}

abbrev total_size : List FileMetadata → ℕ
total_size [] = 0
total_size (f ∷ fs) = f.size + total_size fs

abbrev pub with_safe_name : FileMetadata → FileMetadata
with_safe_name f = record f { name = sanitize_file_name f.name }

unfoldable pub remember : List FileMetadata → Dict Utf16 FileMetadata → Dict Utf16 FileMetadata
remember [] d = d
remember (f ∷ fs) d = remember fs (set f.id f d)

module _ (c : Crypto) (k : ChunkSink) (Number : Type 0) (nought infinity : Number) where
  unfoldable pub session_init :
      Bool
      → Option Utf16
      → Option Utf16
      → Here c k Number nought infinity
      → Here c k Number nought infinity
  session_init true (some (u ∷ us)) (some (v ∷ vs)) s =
      do_effect c k Number nought infinity (imports_key (u ∷ us) (v ∷ vs)) s
  session_init _ _ _ s = s

  -- After `importKeyRaw`.
  unfoldable pub key_imported :
      EncryptionSession c → Here c k Number nought infinity → Here c k Number nought infinity
  key_imported session s = record s { encryption = some session }

  add_resume_point : Dict Utf16 ℕ → Utf16 → Option (Receiver c k) → Dict Utf16 ℕ
  add_resume_point d id none = d
  add_resume_point d id (some r) = set id (resume_from_chunk c k r) d

  unfoldable pub resume_points :
      Dict Utf16 (Receiver c k) → List FileMetadata → Dict Utf16 ℕ → Dict Utf16 ℕ
  unfolding add_resume_point
  resume_points receivers [] d = d
  resume_points receivers (f ∷ fs) d =
      resume_points receivers fs (add_resume_point d f.id (get f.id receivers))

  unfoldable pub send_accept :
      Utf16 → List FileMetadata → Here c k Number nought infinity → Here c k Number nought infinity
  unfolding resume_points
  send_accept transfer_id files s =
      send_control c k Number nought infinity
        (ControlMessage.file_accept transfer_id (some (resume_points s.inbox.receivers files [])))
        (set_transfer c k Number nought infinity TransferState.transferring s)

  -- `newFiles`
  abbrev new_files : Dict Utf16 (Receiver c k) → List FileMetadata → List FileMetadata
  new_files receivers = filter_by (λ f. not (has f.id receivers))

  abbrev to_new_file : FileMetadata → NewFile Number nought infinity
  to_new_file f = record { id = f.id; name = f.name; size = f.size; mime_type = f.mime_type }

  unfoldable pub show_files :
      Utf16 → List FileMetadata → Here c k Number nought infinity → Here c k Number nought infinity
  show_files transfer_id files s =
      do_effect c k Number nought infinity
        (shows_offer (record {
          transfer_id = transfer_id;
          sender_name = s.sender_name;
          files = files;
          total_size = total_size files;
        }))
        (record s {
          transfers = init_files Number nought infinity (map to_new_file files) s.transfers;
        })

  unfoldable pub take_offer :
      Option FileOffer → Here c k Number nought infinity → Here c k Number nought infinity
  unfolding remember send_accept show_files
  take_offer none s = s
  take_offer (some offer) s =
      let files = map with_safe_name offer.files in
      let t = record s { metadata_by_id = remember files s.metadata_by_id } in
      if eqb (length (new_files t.inbox.receivers files)) 0
      then send_accept offer.transfer_id files t
      else show_files offer.transfer_id files t

  unfoldable pub handle_file_offer :
      Json → Here c k Number nought infinity → Here c k Number nought infinity
  unfolding take_offer
  handle_file_offer msg s = take_offer (Offers.file_offer msg) s

  unfoldable pub add_receivers :
      (FileMetadata → k.State)
      → Option (EncryptionSession c)
      → List FileMetadata
      → Dict Utf16 (Receiver c k)
      → Dict Utf16 (Receiver c k)
  add_receivers make_sink encryption [] d = d
  add_receivers make_sink encryption (f ∷ fs) d = add_receivers make_sink encryption fs (
      set f.id
        (ChunkReceiver.new c k (record { total_chunks = f.total_chunks; chunk_size = f.chunk_size })
          encryption (make_sink f))
        d)

  -- `respondToOffer`; `make_sink` is `createSinkFor`, under the folder that was picked.
  unfoldable pub respond_to_offer :
      Utf16
      → List FileMetadata
      → Bool
      → (FileMetadata → k.State)
      → Here c k Number nought infinity
      → Here c k Number nought infinity
  unfolding send_accept add_receivers
  respond_to_offer transfer_id files accept make_sink s =
      if accept
      then send_accept transfer_id files (record s {
        inbox = record {
          pending = s.inbox.pending;
          receivers = add_receivers make_sink s.encryption files s.inbox.receivers;
        };
      })
      else set_transfer c k Number nought infinity TransferState.cancelled
          (send_control c k Number nought infinity (ControlMessage.file_reject transfer_id) s)
