-- ===== src/Transfer/Sink/IndexedDb/Ordered.antt =====
-- Chunks put in ascending order come back as the file, whatever other files' chunks the store
-- holds.
use file_share_app.Base.{
  ℕ, suc, ◌<◌, ◌≡◌, refl, sym, ap, ◌∙◌, true, false, List, [], ◌∷◌, ◌++◌, length, some, Utf16,
  utf16_eq, utf16_beq_iff, ◌==◌, filter_by, arith, append_assoc, append-nil, Bool-cases, inl, inr,
}
use file_share_app.Base.Dict.{set}
use file_share_app.Transfer.Sink.{ChunkSink}
use file_share_app.Transfer.Sink.IndexedDb.{
  key_eq, key_beq, ChunkStore, ChunkRecord, insert_sorted, sort, is_of, get_all_for_file, join, put,
  write,
}

module _ (file_id : Utf16) where
  -- Every chunk of the file has an index below `i`.
  abbrev pub Below : ℕ → ChunkStore → Type 0
  Below i [] = Unit
  Below i (((f, j), bytes) ∷ store) = (f == file_id ≡ true → j < i) × Below i store

  Below-suc : (i : ℕ) (store : ChunkStore) → Below i store → Below (suc i) store
  Below-suc i [] h = tt
  Below-suc i (((f, j), bytes) ∷ store) (h, hs) =
      ((λ e. let lt = h e in omega arith), Below-suc i store hs)

  -- The put goes past every record of the file, and past those of other files.
  not_the_key :
      (f : Utf16) (i j : ℕ) → (f == file_id ≡ true → j < i) → key_beq (f, j) (file_id, i) ≡ false
  unfolding key_beq
  not_the_key f i j h = ground arith

  put-Below :
      (store : ChunkStore) (i : ℕ) (bytes : List ℕ)
      → Below i store
      → Below (suc i) (put store file_id i bytes)
  unfolding put set
  put-Below [] i bytes h = ((λ e. omega arith), tt)
  put-Below (((f, j), old) ∷ store) i bytes (h, hs) =
      rw (not_the_key f i j h) ((λ e. let lt = h e in omega arith), put-Below store i bytes hs)

  -- A put above every index appends a record.
  put-append :
      (store : ChunkStore) (i : ℕ) (bytes : List ℕ)
      → Below i store
      → filter_by (is_of file_id) (put store file_id i bytes)
        ≡ filter_by (is_of file_id) store ++ ((file_id, i), bytes) ∷ []
  unfolding put set
  put-append [] i bytes h = rw ((utf16_beq_iff file_id file_id).1 refl)
  put-append (((f, j), old) ∷ store) i bytes (h, hs) =
      rw (not_the_key f i j h) (ground (arith, put-append store i bytes hs))

  -- Every record has an index below `i`.
  abbrev AllBelow : ℕ → List ChunkRecord → Type 0
  AllBelow i [] = Unit
  AllBelow i (r ∷ rs) = (r.0.1 < i) × AllBelow i rs

  filter-AllBelow :
      (i : ℕ) (store : ChunkStore) → Below i store → AllBelow i (filter_by (is_of file_id) store)
  filter-AllBelow i [] h = tt
  filter-AllBelow i (((f, j), bytes) ∷ store) (h, hs) = elim (Bool-cases (f == file_id)) [
    | inl e ↦ rw e (h e, filter-AllBelow i store hs)
    | inr e ↦ rw e (filter-AllBelow i store hs)
  ]

  insert_sorted-append :
      (r last : ChunkRecord) (rs : List ChunkRecord)
      → r.0.1 < last.0.1
      → insert_sorted r (rs ++ last ∷ []) ≡ insert_sorted r rs ++ last ∷ []
  unfolding insert_sorted
  insert_sorted-append r last [] h = ground arith
  insert_sorted-append r last (s ∷ rs) h = ground (arith, insert_sorted-append r last rs h)

  -- A last record above all others stays last.
  sort-append :
      (i : ℕ) (bytes : List ℕ) (rs : List ChunkRecord)
      → AllBelow i rs
      → sort (rs ++ ((file_id, i), bytes) ∷ []) ≡ sort rs ++ ((file_id, i), bytes) ∷ []
  unfolding sort insert_sorted
  sort-append i bytes [] h = refl
  sort-append i bytes (r ∷ rs) (h, hs) =
      ap (insert_sorted r) (sort-append i bytes rs hs)
      ∙ insert_sorted-append r ((file_id, i), bytes) (sort rs) h

  join-append : (rs : List ChunkRecord) (r : ChunkRecord) → join (rs ++ r ∷ []) ≡ join rs ++ r.1
  join-append [] r = append-nil r.1
  join-append (s ∷ rs) r = ap (◌++◌ s.1) (join-append rs r) ∙ sym (append_assoc s.1 (join rs) r.1)

  -- The blob that `finalize` makes, as Deleted shows.
  abbrev pub blob : ChunkStore → List ℕ
  blob store = join (get_all_for_file store file_id)

  pub write-append :
      (store : ChunkStore) (i : ℕ) (bytes : List ℕ)
      → Below i store
      → (t : ChunkStore) × (write file_id store i (length (blob store)) bytes ≡ some t)
        × (blob t ≡ blob store ++ bytes)
        × Below (suc i) t
  unfolding write get_all_for_file
  write-append store i bytes h = (
    put store file_id i bytes,
    refl,
    (ap (λ rs. join (sort rs)) (put-append store i bytes h)
        ∙ ap join (sort-append i bytes _ (filter-AllBelow i store h))
        ∙ join-append (sort (filter_by (is_of file_id) store)) ((file_id, i), bytes)),
    put-Below store i bytes h,
  )

  unfoldable pub indexed_db_sink : ChunkSink
  indexed_db_sink = record {
    State = ChunkStore;
    write = write file_id;
    contents = blob;
    Below = Below;
    write-append = write-append;
  }
