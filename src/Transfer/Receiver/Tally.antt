-- ===== src/Transfer/Receiver/Tally.antt =====
-- A count of the files that a session finalized, and what keeps it.
use file_share_app.Base.{
  ℕ, ◌+◌, ◌≤◌, ◌≡◌, refl, sym, ap, subst, ◌∙◌, Bool, true, false, ◌||◌, List, [], ◌∷◌, ◌++◌, Option,
  none, some, Utf16, utf16_eq, utf16_beq_iff, ◌==◌, if◌then◌else◌, arith, is_some,
}
use mathlib.Core.Option.{some-injective}
use file_share_app.Base.Dict.{Dict, get, set, delete, has, get-set, get-delete}
use file_share_app.Shared.FileNames.{FileMetadata}
use file_share_app.Client.Storage.{HistoryEntry}
use file_share_app.Transfer.Crypto.{Crypto}
use file_share_app.Transfer.Sink.{ChunkSink}
use file_share_app.Transfer.ChunkReceiver.{Receiver, digest_hex, checksums_match}
use file_share_app.Transfer.ControlProtocol.{ControlMessage}
use file_share_app.Transfer.Receiver.{Effect, Finalizing, adds_history}
use file_share_app.Transfer.Receiver.Handlers.{Here, send_to, add_to}
use file_share_app.Transfer.Receiver.Messages.{remember}
use file_share_app.Transfer.Receiver.Files
use file_share_app.Transfer.Receiver.Files.{
  history_entry, contains_id, Speeds, handle_chunk_frame, handle_file_text, handle_control_message,
  on_chunk_progress, progress_of, handled_by, payload_progress, handle_file_complete, complete_with,
  await_finalize, conclude, save_blob, close_peer,
}

abbrev pub records : Utf16 → Effect → ℕ
records id (adds_history h) = if h.id == id then 1 else 0
records id _ = 0

-- The entries of the history with an id, among what the session did.
abbrev pub recorded : Utf16 → List Effect → ℕ
recorded id [] = 0
recorded id (e ∷ es) = records id e + recorded id es

recorded-append :
    (id : Utf16) (es fs : List Effect) → recorded id (es ++ fs) ≡ recorded id es + recorded id fs
recorded-append id [] fs = omega arith
recorded-append id (e ∷ es) fs = omega (arith, recorded-append id es fs)

abbrev pub one_if : Bool → ℕ
one_if b = if b then 1 else 0

chosen {ℓ} :
    {V : Type ℓ} (name : V → Utf16) (id : Utf16) (b : Bool) (v : V) (o : Option V)
    → (b ≡ true → name v ≡ id)
    → ((w : V) → o ≡ some w → name w ≡ id)
    → (w : V) → (if b then some v else o) ≡ some w
    → name w ≡ id
chosen name id true v o same h w e = ap name (sym (some-injective v w e)) ∙ same refl
chosen name id false v o same h w e = h w e

-- Each value stands under its own name.
abbrev pub IsNamed {ℓ} : {V : Type ℓ} → (V → Utf16) → Dict Utf16 V → Type ℓ
IsNamed {V = V} name d = (id : Utf16) (v : V) → get id d ≡ some v → name v ≡ id

set-IsNamed {ℓ} :
    {V : Type ℓ} (name : V → Utf16) (key : Utf16) (v : V) (d : Dict Utf16 V)
    → name v ≡ key
    → IsNamed name d
    → IsNamed name (set key v d)
set-IsNamed name key v d named h id w e =
    chosen name id (key == id) v (get id d) (λ same. named ∙ (utf16_beq_iff key id).0 same) (h id) w
      (sym (get-set key id v d) ∙ e)

delete-IsNamed {ℓ} :
    {V : Type ℓ} (name : V → Utf16) (key : Utf16) (d : Dict Utf16 V)
    → IsNamed name d
    → IsNamed name (delete key d)
delete-IsNamed name key d h id w e = left (key == id) (sym (get-delete key id d) ∙ e)
  where
    left : (b : Bool) → (if b then none else get id d) ≡ some w → name w ≡ id
    left true e' = cc
    left false e' = h id w e'

pub record IsTallied (outputs : List Effect) (waiting : Dict Utf16 Finalizing)
    (finished : List Utf16) (known : Dict Utf16 FileMetadata) : Type 0 where
  pub counted :
      (id : Utf16)
      → recorded id outputs + one_if (has id waiting) ≤ one_if (contains_id finished id)
  pub named : IsNamed (λ f. f.id) known
  pub kept : IsNamed (λ g. g.metadata.id) waiting

pub effect-IsTallied :
    {outputs : List Effect} {waiting : Dict Utf16 Finalizing} {finished : List Utf16}
    {known : Dict Utf16 FileMetadata} (e : Effect)
    → ((id : Utf16) → records id e ≡ 0)
    → IsTallied outputs waiting finished known
    → IsTallied (outputs ++ e ∷ []) waiting finished known
effect-IsTallied {outputs} e other h = record {
  counted = λ id. omega (arith, recorded-append id outputs (e ∷ []), other id, h.counted id);
  named = h.named;
  kept = h.kept;
}

module _ (c : Crypto) (k : ChunkSink) (Number : Type 0) (nought infinity : Number) where
  abbrev pub Tallied : Here c k Number nought infinity → Type 0
  Tallied s = IsTallied s.outputs s.finalizing s.completed_file_ids s.metadata_by_id

  pub send_to-Tallied :
      (peer : Option ℕ) (m : ControlMessage) (s : Here c k Number nought infinity)
      → Tallied s
      → Tallied (send_to c k Number nought infinity peer m s)
  unfolding send_to
  send_to-Tallied none m s h = h
  send_to-Tallied (some n) m s h = effect-IsTallied _ (λ id. refl) h

  pub add_to-Tallied :
      (peer : Option ℕ) (candidate : Utf16) (s : Here c k Number nought infinity)
      → Tallied s
      → Tallied (add_to c k Number nought infinity peer candidate s)
  unfolding add_to
  add_to-Tallied none m s h = h
  add_to-Tallied (some n) m s h = effect-IsTallied _ (λ id. refl) h

  pub close_peer-Tallied :
      (peer : Option ℕ) (s : Here c k Number nought infinity)
      → Tallied s
      → Tallied (close_peer c k Number nought infinity peer s)
  unfolding close_peer
  close_peer-Tallied none s h = h
  close_peer-Tallied (some n) s h = effect-IsTallied _ (λ id. refl) h

  pub if-Tallied :
      (b : Bool) (s t : Here c k Number nought infinity)
      → Tallied s
      → Tallied t
      → Tallied (if b then s else t)
  if-Tallied true s t g h = g
  if-Tallied false s t g h = h

  pub remember-IsNamed :
      (fs : List FileMetadata) (d : Dict Utf16 FileMetadata)
      → IsNamed (λ f. f.id) d
      → IsNamed (λ f. f.id) (remember fs d)
  unfolding remember
  remember-IsNamed [] d h = h
  remember-IsNamed (g ∷ gs) d h =
      remember-IsNamed gs (set g.id g d) (set-IsNamed (λ f. f.id) g.id g d refl h)

  begun_count :
      (outputs : List Effect) (waiting : Dict Utf16 Finalizing) (finished : List Utf16)
      (file_id id : Utf16) (g : Finalizing)
      → contains_id finished file_id ≡ false
      → ((i : Utf16)
          → recorded i outputs + one_if (has i waiting) ≤ one_if (contains_id finished i))
      → recorded id outputs + one_if (has id (set file_id g waiting))
        ≤ one_if (contains_id (file_id ∷ finished) id)
  begun_count outputs waiting finished file_id id g fresh h =
      rw (get-set file_id id g waiting) (by_same (file_id == id) refl)
    where
      by_same :
          (b : Bool)
          → (file_id == id) ≡ b
          → recorded id outputs + one_if (is_some (if b then some g else get id waiting))
            ≤ one_if (b || contains_id finished id)
      by_same true e =
          let same = (utf16_beq_iff file_id id).0 e in
          let none_yet = h file_id in rw⁻¹ same (ground arith)
      by_same false e = h id

  await-Tallied :
      (file_id : Utf16) (f : FileMetadata) (o : Option Bool) (s : Here c k Number nought infinity)
      (finished : List Utf16)
      → s.completed_file_ids ≡ file_id ∷ finished
      → contains_id finished file_id ≡ false
      → f.id ≡ file_id
      → IsTallied s.outputs s.finalizing finished s.metadata_by_id
      → Tallied (await_finalize c k Number nought infinity file_id f o s)
  unfolding await_finalize
  await-Tallied file_id f none s finished e fresh named h = record {
    counted = λ id. rw e (ground (arith, h.counted id));
    named = h.named;
    kept = h.kept;
  }
  await-Tallied file_id f (some v) s finished e fresh named h = record {
    counted = λ id. rw e (begun_count s.outputs s.finalizing finished file_id id _ fresh h.counted);
    named = h.named;
    kept = set-IsNamed (λ g. g.metadata.id) file_id _ s.finalizing named h.kept;
  }

  complete_with-Tallied :
      (file_id checksum : Utf16) (r : Option (Receiver c k)) (f : Option FileMetadata)
      (s : Here c k Number nought infinity)
      → contains_id s.completed_file_ids file_id ≡ false
      → get file_id s.metadata_by_id ≡ f
      → Tallied s
      → Tallied (complete_with c k Number nought infinity file_id checksum r f s)
  unfolding complete_with
  complete_with-Tallied file_id checksum none f s fresh e h = h
  complete_with-Tallied file_id checksum (some r) none s fresh e h = h
  complete_with-Tallied file_id checksum (some r) (some f) s fresh e h =
      await-Tallied file_id f (checksums_match c (digest_hex c k r).1 checksum) _
        s.completed_file_ids refl fresh (h.named file_id f e) h

  pub complete-Tallied :
      (file_id checksum : Utf16) (s : Here c k Number nought infinity)
      → Tallied s
      → Tallied (handle_file_complete c k Number nought infinity file_id checksum s)
  unfolding handle_file_complete
  complete-Tallied file_id checksum s h = by_seen (contains_id s.completed_file_ids file_id) refl
    where
      by_seen :
          (b : Bool)
          → contains_id s.completed_file_ids file_id ≡ b
          → Tallied (
              if b
              then s
              else complete_with c k Number nought infinity file_id checksum
                  (get file_id s.inbox.receivers)
                  (get file_id s.metadata_by_id)
                  s)
      by_seen true e = h
      by_seen false e = complete_with-Tallied file_id checksum _ _ s e refl h

  ended_count :
      (outputs : List Effect) (waiting : Dict Utf16 Finalizing) (file_id id : Utf16)
      (g : Finalizing) (entry : HistoryEntry) (n : ℕ)
      → entry.id ≡ file_id
      → get file_id waiting ≡ some g
      → recorded id outputs + one_if (has id waiting) ≤ n
      → recorded id (outputs ++ adds_history entry ∷ []) + one_if (has id (delete file_id waiting))
        ≤ n
  ended_count outputs waiting file_id id g entry n own e h =
      rw (recorded-append id outputs (adds_history entry ∷ []), get-delete file_id id waiting, own)
        (by_same (file_id == id) refl)
    where
      by_same :
          (b : Bool)
          → (file_id == id) ≡ b
          → recorded id outputs
              + (one_if b + 0)
              + one_if (is_some (if b then none else get id waiting))
            ≤ n
      by_same true e' =
          let waits : get id waiting ≡ some g =
            subst (λ i. get i waiting ≡ some g) ((utf16_beq_iff file_id id).0 e') e in
          ground (arith, waits)
      by_same false e' = omega (arith, h)

  save_blob-Tallied :
      (blob : Option (List ℕ)) (name : Utf16) (s : Here c k Number nought infinity)
      → Tallied s
      → Tallied (save_blob c k Number nought infinity blob name s)
        × ((save_blob c k Number nought infinity blob name s).finalizing ≡ s.finalizing)
  unfolding save_blob
  save_blob-Tallied none name s h = (h, refl)
  save_blob-Tallied (some b) name s h = (effect-IsTallied _ (λ id. refl) h, refl)

  conclude-Tallied :
      (file_id : Utf16) (blob : Option (List ℕ)) (now : ℕ) (o : Option Finalizing)
      (s : Here c k Number nought infinity)
      → get file_id s.finalizing ≡ o
      → Tallied s
      → Tallied (conclude c k Number nought infinity file_id blob now o s)
  unfolding conclude
  conclude-Tallied file_id blob now none s e h = h
  conclude-Tallied file_id blob now (some g) s e h =
      let (h', same) = save_blob-Tallied blob g.metadata.name s h in
      let own = h.kept file_id g e in
      record {
        counted = λ id.
            ended_count _ s.finalizing file_id id g (history_entry g s.sender_name now) _ own e (
              subst
                (λ d.
                  recorded id (save_blob c k Number nought infinity blob g.metadata.name s).outputs
                    + one_if (has id d)
                  ≤ one_if (
                      contains_id
                        (save_blob c k Number nought infinity blob g.metadata.name
                          s).completed_file_ids
                        id))
                same (h'.counted id));
        named = h'.named;
        kept = delete-IsNamed (λ g. g.metadata.id) file_id s.finalizing h.kept;
      }

  pub finalized-Tallied :
      (file_id : Utf16) (blob : Option (List ℕ)) (now : ℕ) (s : Here c k Number nought infinity)
      → Tallied s
      → Tallied (Files.finalized c k Number nought infinity file_id blob now s)
  unfolding Files.finalized
  finalized-Tallied file_id blob now s h =
      conclude-Tallied file_id blob now (get file_id s.finalizing) s refl h
