-- ===== src/Transfer/Delivery/Whole.antt =====
-- A transfer from end to end: what the receiver has once a run of the sender has ended.
use file_share_app.Base.{
  ℕ, ◌+◌, ◌-◌, ◌*◌, ◌≤◌, ◌<◌, ◌≡◌, refl, sym, ap, ◌∙◌, subst, max, true, List, length, take, some,
  lt→ltb, arith, Utf16, utf16_eq, All,
}
use mathlib.Core.Option.{some-injective}
use file_share_app.Base.Dict.{get}
use file_share_app.Transfer.Crypto.{Crypto}
use file_share_app.Transfer.ChunkSize.Ladder.{total_chunks_covers}
use file_share_app.Transfer.Sink.{ChunkSink}
use file_share_app.Transfer.Pump.{Config, Event, finished, completed, start, run}
use file_share_app.Transfer.Pump.Plan.{bytes_before_all, hashed_all}
use file_share_app.Transfer.Pump.Progress.{
  file_checksum, run-completed, run-IsSound, start-IsSound, sent_prefix,
}
use file_share_app.Transfer.ChunkReceiver.{
  Receiver, checksums_match, digest_hex, is_complete, resume_from_chunk,
}
use file_share_app.Transfer.ChunkReceiver.Resume.{resume_from_chunk_unique}
use file_share_app.Transfer.ChunkReceiver.Checksums.{checksums_match_iff}
use file_share_app.Transfer.Delivery.{Inbox, frames, deliver}
use file_share_app.Transfer.Delivery.Chunk.{IsPlanned, Holds}
use file_share_app.Transfer.Delivery.Run.{
  HasChunks, run_frames-HasChunks, run_prefix-HasChunks, Reaches,
}

module _ (c : Crypto) (k : ChunkSink) (cfg : Config c) where
  covered : IsPlanned c k cfg → length cfg.file ≤ cfg.total_chunks * cfg.chunk_size
  covered plan =
      let (_, covers) = total_chunks_covers (length cfg.file) cfg.chunk_size plan.positive in
      rw plan.counted covers

  -- The receiver has the whole file: in the sink, and in a digest that matches the sender's
  -- checksum.
  pub record IsWhole (checksum : Utf16) (r : Receiver c k) : Type 0 where
    pub contents : k.contents r.sink ≡ cfg.file
    pub digest : (digest_hex c k r).1 ≡ checksum
    pub verified : checksums_match c (digest_hex c k r).1 checksum ≡ some true
    pub complete : is_complete c k r ≡ true

  resume_of_Holds : (n : ℕ) (r : Receiver c k) → Holds c k cfg n r → resume_from_chunk c k r ≡ n
  resume_of_Holds n r h =
      resume_from_chunk_unique c k r n (λ m lt. h.received m ∙ lt→ltb m n lt)
        (h.received n ∙ ground arith)

  match_self :
      (b : List ℕ)
      → All (λ x. x < 256) b
      → checksums_match c (c.bytes_to_hex b) (c.bytes_to_hex b) ≡ some true
  match_self b h =
      (checksums_match_iff c _ _ b b (c.hex_round_trip b h) (c.hex_round_trip b h) h h).1
        (refl, refl)

  covered_by :
      IsPlanned c k cfg → (n : ℕ) → cfg.total_chunks ≤ n → length cfg.file ≤ n * cfg.chunk_size
  covered_by plan n le = let enough = covered plan in grind (arith, enough)

  Holds-IsWhole :
      (n : ℕ) (r : Receiver c k)
      → IsPlanned c k cfg
      → cfg.total_chunks ≤ n
      → Holds c k cfg n r
      → IsWhole (file_checksum c cfg) r
  unfolding is_complete digest_hex
  Holds-IsWhole n r plan le h =
      let all = covered_by plan n le in
      let hashed = h.hasher ∙ hashed_all c cfg n all in
      let sum : c.bytes_to_hex (c.digest r.hasher) ≡ file_checksum c cfg =
        ap (λ g. c.bytes_to_hex (c.digest g)) hashed in
      record {
        contents = h.contents ∙ bytes_before_all c cfg n all;
        digest = sum;
        verified =
            ap (λ d. checksums_match c d (file_checksum c cfg)) sum
            ∙ match_self (c.digest (c.update c.create cfg.file))
                (c.digest_bytes (c.update c.create cfg.file));
        complete = ground (arith, h.total_chunks, h.count, resume_of_Holds n r h);
      }

  module _ (file_id : Utf16) where
    abbrev pub Arrived : Inbox c k → Type 0
    Arrived inbox =
        (r : Receiver c k) × (get file_id inbox.receivers ≡ some r)
        × IsWhole (file_checksum c cfg) r

    completed-Arrived :
        (inbox : Inbox c k) (n from_chunk : ℕ) (es : List Event) (checksum : Utf16)
        → IsPlanned c k cfg
        → from_chunk ≤ n
        → n ≤ cfg.total_chunks
        → HasChunks c k cfg file_id n inbox
        → (run c cfg (start c from_chunk) es).phase ≡ finished (completed checksum)
        → (checksum ≡ file_checksum c cfg)
          × Arrived (deliver c k inbox (frames file_id (run c cfg (start c from_chunk) es).sent))
    completed-Arrived inbox n from_chunk es checksum plan le below h e =
        let (sum, sent) =
          run-completed c cfg from_chunk es checksum (omega arith) (covered plan) e in
        let count = cfg.total_chunks - from_chunk in
        let has =
          run_frames-HasChunks c k cfg file_id inbox n from_chunk count plan le (omega arith) h in
        (
          sum,
          rw sent (
            has.receiver,
            has.listed,
            Holds-IsWhole (max n (from_chunk + count)) has.receiver plan (omega arith) has.holds,
          ),
        )

    -- A receiver that has the file's first `n` chunks, a run of the sender from the receiver's
    -- resume point or below, with any events between its turns, that ends as completed, and all its
    -- frames delivered in order: then the checksum that the sender announces is that of the file,
    -- and the receiver of the file has the whole file in its sink, a digest equal to that checksum,
    -- which verifies, and counts as complete.
    pub delivered_whole :
        (inbox : Inbox c k) (n from_chunk : ℕ) (es : List Event) (checksum : Utf16)
        → IsPlanned c k cfg
        → (h : HasChunks c k cfg file_id n inbox) → n ≤ cfg.total_chunks
        → from_chunk ≤ resume_from_chunk c k h.receiver
        → (run c cfg (start c from_chunk) es).phase ≡ finished (completed checksum)
        → (checksum ≡ file_checksum c cfg)
          × Arrived (deliver c k inbox (frames file_id (run c cfg (start c from_chunk) es).sent))
    delivered_whole inbox n from_chunk es checksum plan h below le e =
        completed-Arrived inbox n from_chunk es checksum plan
          (omega (arith, le, resume_of_Holds n h.receiver h.holds)) below h e

    -- What a first run left before the channel broke.
    broken-HasChunks :
        (inbox : Inbox c k) (es : List Event) (j : ℕ)
        → IsPlanned c k cfg
        → HasChunks c k cfg file_id 0 inbox
        → Reaches c k cfg file_id 0
            (cfg.total_chunks)
            (deliver c k inbox (take j (frames file_id (run c cfg (start c 0) es).sent)))
    broken-HasChunks inbox es j plan h =
        let (count, fits, sent) =
          sent_prefix c cfg 0 (run c cfg (start c 0) es)
            (run-IsSound c cfg 0 (start c 0) es (start-IsSound c cfg 0)) in
        let (n, lo, hi, has) =
          run_prefix-HasChunks c k cfg file_id inbox 0 0 count j plan (omega arith) (omega arith)
            h in
        rw sent (n, lo, omega arith, has)

    listed_resume :
        (inbox : Inbox c k) (n : ℕ) (r : Receiver c k)
        → HasChunks c k cfg file_id n inbox
        → get file_id inbox.receivers ≡ some r
        → n ≡ resume_from_chunk c k r
    listed_resume inbox n r h got =
        let same = some-injective h.receiver r (sym h.listed ∙ got) in
        sym (resume_of_Holds n r (subst (Holds c k cfg n) same h.holds))

    -- A transfer that breaks and is resumed: of a first run from chunk 0, in whatever state, the
    -- first `j` frames reach an inbox whose receiver has nothing of the file yet, and `r` is what
    -- that receiver has become. If the sender runs again from the resume point of `r`, with any
    -- events between its turns, and the run ends as completed and its frames are delivered, then the
    -- checksum that the sender announces is that of the file, and the receiver has the whole file in
    -- its sink, a digest equal to that checksum, which verifies, and counts as complete.
    pub resumed_whole :
        (inbox : Inbox c k) (es es' : List Event) (j : ℕ) (r : Receiver c k) (checksum : Utf16)
        → IsPlanned c k cfg
        → HasChunks c k cfg file_id 0 inbox
        → let broken =
            deliver c k inbox (take j (frames file_id (run c cfg (start c 0) es).sent)) in
          get file_id broken.receivers ≡ some r
          → (run c cfg (start c (resume_from_chunk c k r)) es').phase
            ≡ finished (completed checksum)
          → (checksum ≡ file_checksum c cfg)
            × Arrived (
                deliver c k
                  (deliver c k inbox (take j (frames file_id (run c cfg (start c 0) es).sent)))
                  (frames file_id (run c cfg (start c (resume_from_chunk c k r)) es').sent))
    resumed_whole inbox es es' j r checksum plan h got e =
        let broken = deliver c k inbox (take j (frames file_id (run c cfg (start c 0) es).sent)) in
        let (n, lo, hi, has) = broken-HasChunks inbox es j plan h in
        let point = listed_resume broken n r has got in
        completed-Arrived broken n (resume_from_chunk c k r) es' checksum plan (omega arith) hi has
          e
