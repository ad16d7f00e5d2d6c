-- ===== src/Transfer/Sink/IndexedDb/Deleted.antt =====
-- What `finalize` and `abort` leave in the store.
use file_share_app.Base.{
  ℕ, zero, suc, ◌≤◌, ◌<◌, ◌≡◌, refl, ap, ◌∙◌, true, false, List, [], ◌∷◌, length, Option, none,
  some, is_some, Utf16, utf16_eq, utf16_beq_iff, ◌==◌, if◌then◌else◌, arith, All, filter_by,
  Bool-cases, inl, inr, eqb_iff, eqb,
}
use file_share_app.Base.Dict.{get, has, delete, get-delete}
use file_share_app.Transfer.Sink.IndexedDb.{
  key_eq, key_beq, is_of, ChunkRecord, ChunkStore, Cursors, sort, insert_sorted, delete_from,
  delete_all_for_file, get_all_for_file, join, with_blob, finalize, abort,
}

length-delete-le : (f : Utf16) (i : ℕ) (d : ChunkStore) → length (delete (f, i) d) ≤ length d
unfolding delete
length-delete-le f i [] = omega arith
length-delete-le f i ((k, bytes) ∷ d) = ground (arith, length-delete-le f i d)

length-delete-less :
    (f : Utf16) (i : ℕ) (d : ChunkStore) → has (f, i) d ≡ true → length (delete (f, i) d) < length d
unfolding delete get
length-delete-less f i [] h = cc
length-delete-less f i ((k, bytes) ∷ d) h =
    ground (arith, length-delete-le f i d, length-delete-less f i d)

module _ (c : Cursors) (file_id : Utf16) where
  open c use {comes_before, connected, cursor, cursor-found, cursor-first, cursor-end}

  -- Where the cursor stands is the first of the file's chunks, and it stands nowhere when there are
  -- none.
  abbrev StandsFirst : ChunkStore → Option ℕ → Type 0
  StandsFirst store none = (j : ℕ) → has (file_id, j) store ≡ false
  StandsFirst store (some i) =
      (has (file_id, i) store ≡ true)
      × ((j : ℕ) → has (file_id, j) store ≡ true → comes_before j i ≡ false)

  opened-StandsFirst :
      (store : ChunkStore) (o : Option ℕ) → cursor file_id none store ≡ o → StandsFirst store o
  opened-StandsFirst store none e = λ j. cursor-end file_id none store j e refl
  opened-StandsFirst store (some i) e =
      (cursor-found file_id none store i e, λ j h. cursor-first file_id none store i j e h refl)

  get-deleted :
      (store : ChunkStore) (g : Utf16) (i j : ℕ)
      → get (g, j) (delete (file_id, i) store)
        ≡ (if key_beq (file_id, i) (g, j) then none else get (g, j) store)
  get-deleted store g i j = get-delete (file_id, i) (g, j) store

  left_other :
      (store : ChunkStore) (i j : ℕ)
      → has (file_id, j) (delete (file_id, i) store) ≡ true
      → (has (file_id, j) store ≡ true) × (eqb i j ≡ false)
  unfolding key_beq
  left_other store i j left =
      ground (arith, get-deleted store file_id i j, utf16_beq_iff file_id file_id)

  -- A chunk that is left comes after the deleted one.
  left_after :
      (store : ChunkStore) (i j : ℕ)
      → StandsFirst store (some i)
      → has (file_id, j) (delete (file_id, i) store) ≡ true
      → comes_before i j ≡ true
  left_after store i j (h, first) left =
      let (there, other) = left_other store i j left in
      elim (Bool-cases (comes_before i j)) [
        | inl later ↦ later
        | inr not_later ↦
            let same = connected i j not_later (first j there) in ground (arith, eqb_iff i j)
      ]

  continued-StandsFirst :
      (store : ChunkStore) (i : ℕ) (o : Option ℕ)
      → StandsFirst store (some i)
      → cursor file_id (some i) (delete (file_id, i) store) ≡ o
      → StandsFirst (delete (file_id, i) store) o
  continued-StandsFirst store i none h e = λ j.
      elim (Bool-cases (has (file_id, j) (delete (file_id, i) store))) [
        | inl left ↦
            let later = left_after store i j h left in
            cursor-end file_id (some i) (delete (file_id, i) store) j e later
        | inr gone ↦ gone
      ]
  continued-StandsFirst store i (some k) h e = (
    cursor-found file_id (some i) (delete (file_id, i) store) k e,
    λ j left.
        cursor-first file_id (some i) (delete (file_id, i) store) k j e left
          (left_after store i j h left),
  )

  -- The chunks of the file are gone, and the others are as they were.
  abbrev pub IsCleared : ChunkStore → ChunkStore → Type 0
  IsCleared store left =
      (g : Utf16) (i : ℕ) → get (g, i) left ≡ (if g == file_id then none else get (g, i) store)

  none_there : (o : Option (List ℕ)) → is_some o ≡ false → o ≡ none
  none_there none h = refl
  none_there (some b) h = cc

  nothing_to_clear :
      (store : ChunkStore) → ((j : ℕ) → has (file_id, j) store ≡ false) → IsCleared store store
  nothing_to_clear store gone g i = elim (Bool-cases (g == file_id)) [
    | inl same ↦
        rw (same, (utf16_beq_iff g file_id).0 same) (none_there (get (file_id, i) store) (gone i))
    | inr other ↦ rw other refl
  ]

  deleted_others :
      (store : ChunkStore) (i j : ℕ) (g : Utf16)
      → (if g == file_id then none else get (g, j) (delete (file_id, i) store))
        ≡ (if g == file_id then none else get (g, j) store)
  unfolding key_beq
  deleted_others store i j g =
      ground (arith, get-deleted store g i j, utf16_beq_iff g file_id, utf16_beq_iff file_id g)

  delete_from-IsCleared :
      (rounds : ℕ) (store : ChunkStore) (o : Option ℕ)
      → StandsFirst store o
      → length store ≤ rounds
      → (left : ChunkStore) × (delete_from c rounds file_id store o ≡ some left)
        × IsCleared store left
  unfolding delete_from
  delete_from-IsCleared rounds store none h le = (store, refl, nothing_to_clear store h)
  delete_from-IsCleared zero store (some i) h le =
      absurd (let less = length-delete-less file_id i store h.0 in omega arith)
  delete_from-IsCleared (suc rounds) store (some i) h le =
      let store' = delete (file_id, i) store in
      let less = length-delete-less file_id i store h.0 in
      let (left, e, cleared) =
        delete_from-IsCleared rounds store' (cursor file_id (some i) store')
          (continued-StandsFirst store i (cursor file_id (some i) store') h refl) (omega arith) in
      (left, e, λ g j. cleared g j ∙ deleted_others store i j g)

-- No record has a larger index than one after it.
abbrev pub Ascending : List ChunkRecord → Type 0
Ascending [] = Unit
Ascending (r ∷ rs) = All (λ t. r.0.1 ≤ t.0.1) rs × Ascending rs

All-insert_sorted :
    (i : ℕ) (r : ChunkRecord) (rs : List ChunkRecord)
    → i ≤ r.0.1
    → All (λ t. i ≤ t.0.1) rs
    → All (λ t. i ≤ t.0.1) (insert_sorted r rs)
unfolding insert_sorted
All-insert_sorted i r [] le h = (le, tt)
All-insert_sorted i r (s ∷ rs) le (p, h) = ground (arith, All-insert_sorted i r rs le h)

All-from :
    (i j : ℕ) (rs : List ChunkRecord) → i ≤ j → All (λ t. j ≤ t.0.1) rs → All (λ t. i ≤ t.0.1) rs
All-from i j [] le h = tt
All-from i j (r ∷ rs) le (p, h) = (omega arith, All-from i j rs le h)

insert_sorted-Ascending :
    (r : ChunkRecord) (rs : List ChunkRecord) → Ascending rs → Ascending (insert_sorted r rs)
unfolding insert_sorted
insert_sorted-Ascending r [] h = (tt, tt)
insert_sorted-Ascending r (s ∷ rs) (p, h) =
    ground
      (arith, insert_sorted-Ascending r rs h, All-insert_sorted s.0.1 r rs, All-from r.0.1 s.0.1 rs)

sort-Ascending : (rs : List ChunkRecord) → Ascending (sort rs)
unfolding sort
sort-Ascending [] = tt
sort-Ascending (r ∷ rs) = insert_sorted-Ascending r (sort rs) (sort-Ascending rs)

-- Whatever the store holds: the cursor's loop ends, in `finalize` and in `abort`, with none of the
-- file's chunks left and every chunk of any other file as it was; and `finalize` gives the chunks
-- that were listed for the file before, joined in the order of the list, in which no index is larger
-- than one after it.
pub finalize-cleared :
    (c : Cursors) (file_id : Utf16) (store : ChunkStore)
    → (left : ChunkStore) × (finalize c file_id store
        ≡ some (join (get_all_for_file store file_id), left))
      × (abort c file_id store ≡ some left)
      × Ascending (get_all_for_file store file_id)
      × ((g : Utf16) (i : ℕ) → get (g, i) left ≡ (if g == file_id then none else get (g, i) store))
unfolding finalize abort delete_all_for_file get_all_for_file
finalize-cleared c file_id store =
    let (left, e, cleared) =
      delete_from-IsCleared c file_id (length store) store (c.cursor file_id none store)
        (opened-StandsFirst c file_id store (c.cursor file_id none store) refl) (omega arith) in
    (
      left,
      ap (with_blob (join (get_all_for_file store file_id))) e,
      e,
      sort-Ascending (filter_by (is_of file_id) store),
      cleared,
    )
