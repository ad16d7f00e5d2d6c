-- ===== src/Transfer/Delivery/Run.antt =====
-- What the frames of a run do to the receiver of the file, all of them or those before a break.
use file_share_app.Base.{
  ℕ, zero, suc, ◌+◌, ◌-◌, ◌≤◌, ◌<◌, ◌≡◌, refl, ◌∙◌, subst, max, List, [], ◌∷◌, ◌++◌, length, take,
  take_all, take-nil, take-append, Option, none, some, ltb, ltb→lt, leb, arith, Utf16, utf16_eq,
  utf16_beq_iff, Bool-cases, inl, inr,
}
use file_share_app.Base.Dict.{get, get-set}
use file_share_app.Transfer.Crypto.{Crypto}
use file_share_app.Transfer.Sink.{ChunkSink}
use file_share_app.Transfer.Pump.{
  Output, meta, binary, progress, Config, EncryptionSession, chunk, announce, sealed,
}
use file_share_app.Transfer.Pump.Plan.{outputs_of, outputs_from}
use file_share_app.Transfer.ChunkReceiver.{Receiver, handle_chunk, open_payload}
use file_share_app.Transfer.Delivery.{
  ChunkMeta, Frame, chunk_meta, payload, frames, Inbox, handle_frame, deliver,
}
use file_share_app.Transfer.Delivery.Chunk.{
  IsPlanned, Holds, HasByteSalt, open_payload-sealed, handle_chunk_again, handle_chunk_next,
}

frames-append :
    (file_id : Utf16) (xs ys : List Output)
    → frames file_id (xs ++ ys) ≡ frames file_id xs ++ frames file_id ys
unfolding frames
frames-append file_id [] ys = refl
frames-append file_id (meta i size iv ∷ xs) ys = rw (frames-append file_id xs ys)
frames-append file_id (binary bytes ∷ xs) ys = rw (frames-append file_id xs ys)
frames-append file_id (progress size i ∷ xs) ys = frames-append file_id xs ys

module _ (c : Crypto) (k : ChunkSink) (cfg : Config c) (file_id : Utf16) where
  deliver-append :
      (inbox : Inbox c k) (fs gs : List Frame)
      → deliver c k inbox (fs ++ gs) ≡ deliver c k (deliver c k inbox fs) gs
  unfolding deliver
  deliver-append inbox [] gs = refl
  deliver-append inbox (f ∷ fs) gs = deliver-append (handle_frame c k inbox f) fs gs

  -- The receiver of the file has its first `n` chunks.
  pub record HasChunks (n : ℕ) (inbox : Inbox c k) : Type 0 where
    pub receiver : Receiver c k
    pub listed : get file_id inbox.receivers ≡ some receiver
    pub holds : Holds c k cfg n receiver

  meta_of : ℕ → List ℕ → Option Utf16 → ChunkMeta
  meta_of i bytes iv = record {
    file_id = file_id;
    chunk_index = i;
    byte_length = length bytes;
    iv = iv;
  }

  meta-HasChunks :
      (inbox : Inbox c k) (n : ℕ) (m : ChunkMeta)
      → HasChunks n inbox
      → HasChunks n (handle_frame c k inbox (chunk_meta m))
  unfolding handle_frame
  meta-HasChunks inbox n m h = record { receiver = h.receiver; listed = h.listed; holds = h.holds }

  -- The two frames of chunk `i`, for a receiver that has the chunks before it.
  pair-HasChunks :
      (inbox : Inbox c k) (n i : ℕ) (iv : Option Utf16) (bytes : List ℕ)
      → IsPlanned c k cfg
      → i < cfg.total_chunks
      → i ≤ n
      → open_payload c k cfg.encryption iv bytes ≡ some (chunk c cfg i)
      → HasChunks n inbox
      → HasChunks (max n (suc i)) (
          handle_frame c k
            (handle_frame c k inbox (chunk_meta (meta_of i bytes iv)))
            (payload bytes))
  unfolding handle_frame meta_of
  pair-HasChunks inbox n i iv bytes plan lt le opened h =
      rw (h.listed, handle_frame)
        (record {
          receiver = (handle_chunk c k h.receiver i iv bytes).0;
          listed =
              get-set file_id file_id (handle_chunk c k h.receiver i iv bytes).0 inbox.receivers
              ∙ rw ((utf16_beq_iff file_id file_id).1 refl);
          holds = elim (Bool-cases (ltb i n)) [
            | inl again ↦
                rw (handle_chunk_again c k cfg h.receiver n i iv bytes h.holds (ltb→lt i n again)) (
                  subst (λ j. Holds c k cfg j h.receiver) {x = n} {y = max n (suc i)} (ground arith)
                    h.holds)
            | inr fresh ↦
                let same : n ≡ i = ground arith in
                subst (λ j. Holds c k cfg j (handle_chunk c k h.receiver i iv bytes).0) {x = suc i}
                  {y = max n (suc i)} (omega arith)
                  (handle_chunk_next c k cfg h.receiver i iv bytes plan lt
                    (subst (λ j. Holds c k cfg j h.receiver) same h.holds)
                    (rw h.holds.encryption opened))
          ];
        })

  -- What the frames of round `i` carry opens to its chunk.
  chunk_frames-HasChunks :
      (enc : Option (EncryptionSession c)) (inbox : Inbox c k) (n i : ℕ)
      → cfg.encryption ≡ enc
      → IsPlanned c k cfg
      → i < cfg.total_chunks
      → i ≤ n
      → HasChunks n inbox
      → HasChunks (max n (suc i)) (deliver c k inbox (frames file_id (outputs_of c cfg enc i)))
  unfolding deliver frames outputs_of announce meta_of chunk
  chunk_frames-HasChunks none inbox n i e plan lt le h =
      pair-HasChunks inbox n i none (chunk c cfg i) plan lt le (rw e (unfold open_payload in refl))
        h
  chunk_frames-HasChunks (some session) inbox n i e plan lt le h =
      let (bytes, iv) = sealed c session cfg.file_index i (chunk c cfg i) in
      pair-HasChunks inbox n i (some iv) bytes plan lt le
        (rw e (
          open_payload-sealed c k cfg session i (chunk c cfg i)
            (subst (HasByteSalt c k cfg) e plan.salted)))
        h

  -- All frames of the rounds from `from_chunk` on, for a receiver that has the chunks before them,
  -- and perhaps some of them already.
  pub run_frames-HasChunks :
      (inbox : Inbox c k) (n from_chunk count : ℕ)
      → IsPlanned c k cfg
      → from_chunk ≤ n
      → from_chunk + count ≤ cfg.total_chunks
      → HasChunks n inbox
      → HasChunks
          (max n (from_chunk + count))
          (deliver c k inbox (frames file_id (outputs_from c cfg from_chunk count)))
  unfolding outputs_from frames deliver
  run_frames-HasChunks inbox n from_chunk zero plan le fits h =
      subst (λ j. HasChunks j inbox) {x = n} {y = max n (from_chunk + 0)} (omega arith) h
  run_frames-HasChunks inbox n from_chunk (suc count) plan le fits h =
      let earlier = outputs_from c cfg from_chunk count in
      let next = outputs_of c cfg cfg.encryption (from_chunk + count) in
      let held = run_frames-HasChunks inbox n from_chunk count plan le (omega arith) h in
      let more =
        chunk_frames-HasChunks cfg.encryption (deliver c k inbox (frames file_id earlier))
          (max n (from_chunk + count)) (from_chunk + count) refl plan (omega arith) (omega arith)
          held in
      rw
        (
          frames-append file_id earlier next,
          deliver-append inbox (frames file_id earlier) (frames file_id next),
        )
        (subst
          (λ j.
            HasChunks j
              (deliver c k (deliver c k inbox (frames file_id earlier)) (frames file_id next)))
          {x = max (max n (from_chunk + count)) (suc (from_chunk + count))}
          {y = max n (from_chunk + suc count)} (omega arith) more)

  -- Some first part of a list of frames gives the receiver `m` chunks, between `low` and `high`.
  abbrev pub Reaches : ℕ → ℕ → Inbox c k → Type 0
  Reaches low high inbox = (m : ℕ) × (low ≤ m) × (m ≤ high) × HasChunks m inbox

  chunk_prefix :
      (enc : Option (EncryptionSession c)) (inbox : Inbox c k) (n i j : ℕ)
      → cfg.encryption ≡ enc
      → IsPlanned c k cfg
      → i < cfg.total_chunks
      → i ≤ n
      → HasChunks n inbox
      → Reaches n
          (max n (suc i))
          (deliver c k inbox (take j (frames file_id (outputs_of c cfg enc i))))
  unfolding deliver frames outputs_of announce
  chunk_prefix enc inbox n i zero e plan lt le h = (n, omega arith, omega arith, h)
  chunk_prefix none inbox n i (suc zero) e plan lt le h =
      (n, omega arith, omega arith, meta-HasChunks inbox n _ h)
  chunk_prefix (some session) inbox n i (suc zero) e plan lt le h =
      (n, omega arith, omega arith, meta-HasChunks inbox n _ h)
  chunk_prefix none inbox n i (suc (suc j)) e plan lt le h = (
    max n (suc i),
    omega arith,
    omega arith,
    rw (take-nil j) (chunk_frames-HasChunks none inbox n i e plan lt le h),
  )
  chunk_prefix (some session) inbox n i (suc (suc j)) e plan lt le h = (
    max n (suc i),
    omega arith,
    omega arith,
    rw (take-nil j) (chunk_frames-HasChunks (some session) inbox n i e plan lt le h),
  )

  -- The first `j` frames of a run, the channel then breaking: whole chunks, none lost.
  pub run_prefix-HasChunks :
      (inbox : Inbox c k) (n from_chunk count j : ℕ)
      → IsPlanned c k cfg
      → from_chunk ≤ n
      → from_chunk + count ≤ cfg.total_chunks
      → HasChunks n inbox
      → Reaches n
          (max n (from_chunk + count))
          (deliver c k inbox (take j (frames file_id (outputs_from c cfg from_chunk count))))
  unfolding outputs_from frames deliver
  run_prefix-HasChunks inbox n from_chunk zero j plan le fits h =
      (n, omega arith, omega arith, rw (take-nil j) h)
  run_prefix-HasChunks inbox n from_chunk (suc count) j plan le fits h =
      let earlier = frames file_id (outputs_from c cfg from_chunk count) in
      let next = frames file_id (outputs_of c cfg cfg.encryption (from_chunk + count)) in
      rw
        (
          frames-append file_id (outputs_from c cfg from_chunk count)
              (outputs_of c cfg cfg.encryption (from_chunk + count)),
          take-append j earlier next,
          deliver-append inbox (take j earlier) (take (j - length earlier) next),
        )
        (elim (Bool-cases (leb j (length earlier))) [
          | inl short ↦
              let nothing : 0 ≡ j - length earlier = ground arith in
              let (m, lo, hi, held) =
                run_prefix-HasChunks inbox n from_chunk count j plan le (omega arith) h in
              (
                m,
                lo,
                omega arith,
                subst
                    (λ z.
                      HasChunks m (deliver c k (deliver c k inbox (take j earlier)) (take z next)))
                    nothing held,
              )
          | inr long ↦
              let reached = max n (from_chunk + count) in
              let all = run_frames-HasChunks inbox n from_chunk count plan le (omega arith) h in
              let (m, lo, hi, held) =
                chunk_prefix cfg.encryption (deliver c k inbox earlier) reached (from_chunk + count)
                  (j - length earlier) refl plan (omega arith) (omega arith) all in
              (m, omega arith, omega arith, rw (take_all j earlier (ground arith)) held)
        ])
