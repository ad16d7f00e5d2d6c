-- ===== src/Transfer/Receiver/Whole.antt =====
-- A whole file through both sessions' ends of the channel.
use file_share_app.Base.{
  ℕ, suc, ◌≤◌, ◌≡◌, refl, ap, ◌∙◌, Bool, true, false, not, ◌&&◌, List, [], ◌∷◌, Option, none, some,
  ltb, Utf16, utf16_eq, utf16_beq_iff, ◌==◌, if◌then◌else◌,
}
use file_share_app.Base.Dict.{get}
use file_share_app.Client.TransferStore.{
  PerFileStatus, TransferFileEntry, TransferStore, update_file_progress, set_file_status,
}
use file_share_app.Client.TransferStore.Entries.{
  update_file_progress-get, set_file_status-get, changed,
}
use file_share_app.Shared.FileNames.{FileMetadata}
use file_share_app.Transfer.Crypto.{Crypto}
use file_share_app.Transfer.Sink.{ChunkSink}
use file_share_app.Transfer.Pump
use file_share_app.Transfer.Pump.{Config, finished, completed, start}
use file_share_app.Transfer.ChunkReceiver.{
  Receiver, Handled, ignored, rejected, stored, resume_from_chunk, digest_hex, checksums_match,
}
use file_share_app.Transfer.Delivery.{
  ChunkMeta, Frame, frames, chunk_meta, payload, deliver, handle_frame,
}
use file_share_app.Transfer.Delivery.Chunk.{IsPlanned}
use file_share_app.Transfer.Delivery.Run.{HasChunks}
use file_share_app.Transfer.Delivery.Whole.{delivered_whole}
use file_share_app.Transfer.ControlProtocol.{ControlMessage}
use file_share_app.Transfer.Receiver.Handlers.{Here}
use file_share_app.Transfer.Receiver.Files.{
  Speeds, contains_id, handle_chunk_frame, handle_file_text, handle_control_message,
  on_chunk_progress, progress_of, handled_by, payload_progress, is_transferring,
}
use file_share_app.Transfer.Receiver.Steps.{
  Event, peer, file_text, file_bytes, on_peer, step, run, has_closed,
}
use file_share_app.Transfer.Receiver.Verdict.{complete-verdict}

module _ (c : Crypto) (k : ChunkSink) (Number : Type 0) (nought infinity : Number) where
  abbrev HasEntry : Utf16 → TransferStore Number nought infinity → Type 0
  HasEntry id t = (e : TransferFileEntry Number nought infinity) × (get id t.files ≡ some e)

  -- What the frames of a file leave alone.
  record Keeps (id : Utf16) (s t : Here c k Number nought infinity) : Type 0 where
    completed : t.completed_file_ids ≡ s.completed_file_ids
    known : t.metadata_by_id ≡ s.metadata_by_id
    offers : t.offers ≡ s.offers
    closed : t.closed_peers ≡ s.closed_peers
    entry : HasEntry id s.transfers → HasEntry id t.transfers

  Keeps-refl : (id : Utf16) (s : Here c k Number nought infinity) → Keeps id s s
  Keeps-refl id s = record {
    completed = refl;
    known = refl;
    offers = refl;
    closed = refl;
    entry = λ h. h;
  }

  Keeps-trans :
      (id : Utf16) (s t u : Here c k Number nought infinity)
      → Keeps id s t
      → Keeps id t u
      → Keeps id s u
  Keeps-trans id s t u g h = record {
    completed = h.completed ∙ g.completed;
    known = h.known ∙ g.known;
    offers = h.offers ∙ g.offers;
    closed = h.closed ∙ g.closed;
    entry = λ e. h.entry (g.entry e);
  }

  entry_changed :
      (same : Bool)
      (change : TransferFileEntry Number nought infinity → TransferFileEntry Number nought infinity)
      (found other : Option (TransferFileEntry Number nought infinity))
      (e : TransferFileEntry Number nought infinity)
      → other ≡ some e
      → (same ≡ true → found ≡ other)
      → (f : TransferFileEntry Number nought infinity) × ((if same
            then changed Number nought infinity change found
            else other)
          ≡ some f)
  entry_changed true change found other e h eq = rw (eq refl, h) (change e, refl)
  entry_changed false change found other e h eq = (e, h)

  progress-HasEntry :
      (id other : Utf16) (p : _) (t : TransferStore Number nought infinity)
      → HasEntry other t
      → HasEntry other (update_file_progress Number nought infinity id p t)
  progress-HasEntry id other p t (e, h) =
      rw (update_file_progress-get Number nought infinity id other p t) (
        entry_changed (id == other) _ (get id t.files) (get other t.files) e h
          (λ same. ap (λ i. get i t.files) ((utf16_beq_iff id other).0 same)))

  status-HasEntry :
      (id other : Utf16) (status : PerFileStatus) (t : TransferStore Number nought infinity)
      → HasEntry other t
      → HasEntry other (set_file_status Number nought infinity id status (λ f. f) t)
  status-HasEntry id other status t (e, h) =
      rw (set_file_status-get Number nought infinity id other status (λ f. f) t) (
        entry_changed (id == other) _ (get id t.files) (get other t.files) e h
          (λ same. ap (λ i. get i t.files) ((utf16_beq_iff id other).0 same)))

  if-HasEntry :
      (b : Bool) (id : Utf16) (t u : TransferStore Number nought infinity)
      → HasEntry id t
      → HasEntry id u
      → HasEntry id (if b then t else u)
  if-HasEntry true id t u g h = g
  if-HasEntry false id t u g h = h

  progress_of-Keeps :
      (id : Utf16) (speeds : Speeds c k Number nought infinity) (file_id : Utf16) (o : Handled)
      (s : Here c k Number nought infinity)
      → Keeps id s (progress_of c k Number nought infinity speeds file_id o s)
        × ((progress_of c k Number nought infinity speeds file_id o s).inbox ≡ s.inbox)
  unfolding progress_of on_chunk_progress
  progress_of-Keeps id speeds file_id ignored s = (Keeps-refl id s, refl)
  progress_of-Keeps id speeds file_id rejected s = (Keeps-refl id s, refl)
  progress_of-Keeps id speeds file_id (stored bytes i) s = (
    record {
      completed = refl;
      known = refl;
      offers = refl;
      closed = refl;
      entry = λ h.
          let g = progress-HasEntry file_id id _ s.transfers h in
          if-HasEntry (is_transferring c k Number nought infinity (get file_id s.transfers.files))
            id _ _ g (status-HasEntry file_id id PerFileStatus.transferring _ g);
    },
    refl,
  )

  payload_progress-Keeps :
      (id : Utf16) (speeds : Speeds c k Number nought infinity) (pending : Option ChunkMeta)
      (bytes : List ℕ) (before s : Here c k Number nought infinity)
      → Keeps id s (payload_progress c k Number nought infinity speeds pending bytes before s)
        × ((payload_progress c k Number nought infinity speeds pending bytes before s).inbox
            ≡ s.inbox)
  unfolding payload_progress
  payload_progress-Keeps id speeds none bytes before s = (Keeps-refl id s, refl)
  payload_progress-Keeps id speeds (some m) bytes before s =
      progress_of-Keeps id speeds m.file_id
        (handled_by c k Number nought infinity m bytes (get m.file_id before.inbox.receivers)) s

  handle_chunk_frame-Keeps :
      (id : Utf16) (speeds : Speeds c k Number nought infinity) (frame : Frame)
      (s : Here c k Number nought infinity)
      → Keeps id s (handle_chunk_frame c k Number nought infinity speeds frame s)
        × ((handle_chunk_frame c k Number nought infinity speeds frame s).inbox
            ≡ handle_frame c k s.inbox frame)
  unfolding handle_chunk_frame
  handle_chunk_frame-Keeps id speeds (chunk_meta m) s = (
    record { completed = refl; known = refl; offers = refl; closed = refl; entry = λ h. h },
    refl,
  )
  handle_chunk_frame-Keeps id speeds (payload bytes) s =
      let t = record s { inbox = handle_frame c k s.inbox (payload bytes) } in
      let (keeps, inbox) = payload_progress-Keeps id speeds s.inbox.pending bytes s t in
      (
        record {
          completed = keeps.completed;
          known = keeps.known;
          offers = keeps.offers;
          closed = keeps.closed;
          entry = keeps.entry;
        },
        inbox,
      )

  -- The frames of chunks as what connection `n` hears, with what the trackers read at each.
  abbrev pub heard :
      ℕ
      → (ℕ → Speeds c k Number nought infinity)
      → ℕ
      → List Frame
      → List (Event c k Number nought infinity)
  heard n speeds i [] = []
  heard n speeds i (chunk_meta m ∷ fs) =
      peer n (file_text (speeds i) (some (ControlMessage.chunk_meta m))) ∷ heard n speeds (suc i) fs
  heard n speeds i (payload bytes ∷ fs) =
      peer n (file_bytes (speeds i) bytes) ∷ heard n speeds (suc i) fs

  abbrev pub is_live : ℕ → Here c k Number nought infinity → Bool
  is_live n s = ltb n s.offers && not (has_closed s.closed_peers n)

  live-Keeps :
      (id : Utf16) (n : ℕ) (s t : Here c k Number nought infinity)
      → Keeps id s t
      → is_live n s ≡ true
      → is_live n t ≡ true
  live-Keeps id n s t h live = rw (h.offers, h.closed) live

  run-heard :
      (id : Utf16) (n : ℕ) (speeds : ℕ → Speeds c k Number nought infinity) (i : ℕ)
      (fs : List Frame) (s : Here c k Number nought infinity)
      → is_live n s ≡ true
      → Keeps id s (run c k Number nought infinity s (heard n speeds i fs))
        × ((run c k Number nought infinity s (heard n speeds i fs)).inbox ≡ deliver c k s.inbox fs)
  unfolding run step on_peer handle_file_text deliver
  run-heard id n speeds i [] s live = (Keeps-refl id s, refl)
  run-heard id n speeds i (chunk_meta m ∷ fs) s live =
      let t = handle_chunk_frame c k Number nought infinity (speeds i) (chunk_meta m) s in
      let (keeps, inbox) = handle_chunk_frame-Keeps id (speeds i) (chunk_meta m) s in
      let (later, rest) = run-heard id n speeds (suc i) fs t (live-Keeps id n s t keeps live) in
      rw (live, run, step)
        (Keeps-trans id s t _ keeps later, rest ∙ ap (λ x. deliver c k x fs) inbox)
  run-heard id n speeds i (payload bytes ∷ fs) s live =
      let t = handle_chunk_frame c k Number nought infinity (speeds i) (payload bytes) s in
      let (keeps, inbox) = handle_chunk_frame-Keeps id (speeds i) (payload bytes) s in
      let (later, rest) = run-heard id n speeds (suc i) fs t (live-Keeps id n s t keeps live) in
      rw (live, run, step)
        (Keeps-trans id s t _ keeps later, rest ∙ ap (λ x. deliver c k x fs) inbox)

  module _ (cfg : Config c) (file_id : Utf16) where
    -- A session whose receiver of the file has its first `before` chunks and whose store lists the
    -- file, which was not completed yet; a run of the sender's pump from the receiver's resume point
    -- or below that ends as completed, with any events between its turns. When the connection's
    -- frames of that run are heard in order, and then FILE_COMPLETE with the checksum of the run,
    -- and `finalize` ends, then the sink of the file's receiver has the whole file, and its entry is
    -- COMPLETED with the checksum verified and no error.
    pub completed_whole :
        (s : Here c k Number nought infinity) (n before from_chunk now : ℕ)
        (speeds : ℕ → Speeds c k Number nought infinity) (es : List Pump.Event) (checksum : Utf16)
        (f : FileMetadata) (entry : TransferFileEntry Number nought infinity)
        (blob : Option (List ℕ))
        → IsPlanned c k cfg
        → (h : HasChunks c k cfg file_id before s.inbox) → before ≤ cfg.total_chunks
        → from_chunk ≤ resume_from_chunk c k h.receiver
        → (Pump.run c cfg (start c from_chunk) es).phase ≡ finished (completed checksum)
        → is_live n s ≡ true
        → contains_id s.completed_file_ids file_id ≡ false
        → get file_id s.metadata_by_id ≡ some f
        → get file_id s.transfers.files ≡ some entry
        → let arrived =
            run c k Number nought infinity s
              (heard n speeds 0 (frames file_id (Pump.run c cfg (start c from_chunk) es).sent)) in
          let t = run c k Number nought infinity arrived (
            peer n (file_text (speeds 0) (some (ControlMessage.file_complete file_id checksum)))
            ∷ Event.finalized file_id blob now
            ∷ []) in
          ((r : Receiver c k) × (get file_id arrived.inbox.receivers ≡ some r)
            × (k.contents r.sink ≡ cfg.file))
          × ((e : TransferFileEntry Number nought infinity) × (get file_id t.transfers.files
                ≡ some e)
              × (e.status ≡ PerFileStatus.completed)
              × (e.checksum_verified ≡ some true)
              × (e.error ≡ none))
    unfolding run step on_peer handle_file_text handle_control_message
    completed_whole s n before from_chunk now speeds es checksum f entry blob plan h below le e live
          fresh known there =
        let sent = frames file_id (Pump.run c cfg (start c from_chunk) es).sent in
        let arrived = run c k Number nought infinity s (heard n speeds 0 sent) in
        let (keeps, inbox) = run-heard file_id n speeds 0 sent s live in
        let (sum, (r, listed, whole)) =
          delivered_whole c k cfg file_id s.inbox before from_chunk es checksum plan h below le e in
        let got : get file_id arrived.inbox.receivers ≡ some r =
          ap (λ x. get file_id x.receivers) inbox ∙ listed in
        let (e', there') = keeps.entry (entry, there) in
        let judged : checksums_match c (digest_hex c k r).1 checksum ≡ some true =
          rw sum whole.verified in
        let (done, told) =
          complete-verdict c k Number nought infinity arrived file_id checksum r f e' blob now true
            (rw keeps.completed fresh) got (rw keeps.known known) there' judged in
        (
          (r, got, whole.contents),
          rw (live-Keeps file_id n s arrived keeps live, run, step) (_, done, refl, refl, refl),
        )
