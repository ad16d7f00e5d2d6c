-- ===== src/Transfer/Sink/IndexedDb.antt =====
-- IndexedDbChunkSink over chunkRepository (client/src/services/storage/db.ts). The object store is
-- a `Dict`; its key `${fileId}:${chunkIndex}` stands as the pair, which it determines, since a
-- decimal has no colon.
pub mod Ordered
pub mod Deleted
use file_share_app.Base.{
  ℕ, zero, suc, length, ◌≡◌, refl, ◌↔◌, Bool, true, false, ◌&&◌, List, [], ◌∷◌, ◌++◌, Option, none,
  some, Utf16, utf16_eq, utf16_beq_iff, Eq, ◌==◌, eqb, eqb_iff, leb, filter_by, map, if◌then◌else◌,
  arith, nat_eq, not,
}
use file_share_app.Base.Dict.{Dict, set, delete, has}

abbrev pub ChunkKey : Type 0
ChunkKey = Utf16 × ℕ

unfoldable pub key_beq : ChunkKey → ChunkKey → Bool
key_beq (f, i) (g, j) = f == g && eqb i j

pub key_beq_iff : (a b : ChunkKey) → (key_beq a b ≡ true) ↔ (a ≡ b)
unfolding key_beq
key_beq_iff (f, i) (g, j) = ground (arith, utf16_beq_iff f g)

instance abbrev pub key_eq : Eq ChunkKey
key_eq = record { same = key_beq; same_iff = key_beq_iff }

abbrev pub ChunkStore : Type 0
ChunkStore = Dict ChunkKey (List ℕ)

pub put : ChunkStore → Utf16 → ℕ → List ℕ → ChunkStore
put store file_id chunk_index bytes = set (file_id, chunk_index) bytes store

abbrev pub ChunkRecord : Type 0
ChunkRecord = ChunkKey × List ℕ

-- `all.sort((a, b) => a.chunkIndex - b.chunkIndex)`
unfoldable pub insert_sorted : ChunkRecord → List ChunkRecord → List ChunkRecord
insert_sorted r [] = r ∷ []
insert_sorted r (s ∷ rest) = if leb r.0.1 s.0.1 then r ∷ s ∷ rest else s ∷ insert_sorted r rest

unfoldable pub sort : List ChunkRecord → List ChunkRecord
unfolding insert_sorted
sort [] = []
sort (r ∷ rest) = insert_sorted r (sort rest)

abbrev is_of : Utf16 → ChunkRecord → Bool
is_of file_id r = r.0.0 == file_id

-- The index `by-file` lists the records of one file.
unfoldable pub get_all_for_file : ChunkStore → Utf16 → List ChunkRecord
unfolding sort
get_all_for_file store file_id = sort (filter_by (is_of file_id) store)

-- `new Blob(records.map((r) => r.data))`
abbrev pub join : List ChunkRecord → List ℕ
join [] = []
join (r ∷ rest) = r.1 ++ join rest

pub write : Utf16 → ChunkStore → ℕ → ℕ → List ℕ → Option ChunkStore
unfolding put
write file_id store chunk_index byte_offset bytes = some (put store file_id chunk_index bytes)

abbrev pub is_after : (ℕ → ℕ → Bool) → Option ℕ → ℕ → Bool
is_after comes_before none j = true
is_after comes_before (some i) j = comes_before i j

-- A cursor of the index `by-file`, which stands at a chunk of its file.
pub record Cursors : Type 0 where
  -- The order of the keys of one file's chunks.
  pub comes_before : ℕ → ℕ → Bool
  pub connected : (i j : ℕ) → comes_before i j ≡ false → comes_before j i ≡ false → i ≡ j
  -- The chunk of the file that comes first among those after the position: `openCursor(fileId)` has
  -- no position, and `continue()` the chunk where it stands, which may be deleted.
  pub cursor : Utf16 → Option ℕ → ChunkStore → Option ℕ
  pub cursor-found :
      (file_id : Utf16) (from : Option ℕ) (store : ChunkStore) (i : ℕ)
      → cursor file_id from store ≡ some i
      → has (file_id, i) store ≡ true
  pub cursor-first :
      (file_id : Utf16) (from : Option ℕ) (store : ChunkStore) (i j : ℕ)
      → cursor file_id from store ≡ some i
      → has (file_id, j) store ≡ true
      → is_after comes_before from j ≡ true
      → comes_before j i ≡ false
  pub cursor-end :
      (file_id : Utf16) (from : Option ℕ) (store : ChunkStore) (j : ℕ)
      → cursor file_id from store ≡ none
      → is_after comes_before from j ≡ true
      → has (file_id, j) store ≡ false

abbrev pub with_blob : List ℕ → Option ChunkStore → Option (List ℕ × ChunkStore)
with_blob blob none = none
with_blob blob (some left) = some (blob, left)

module _ (c : Cursors) where
  open c use {cursor}

  -- The loop, for at most so many rounds; `none`: it has not ended.
  unfoldable pub delete_from : ℕ → Utf16 → ChunkStore → Option ℕ → Option ChunkStore
  delete_from rounds file_id store none = some store
  delete_from zero file_id store (some i) = none
  delete_from (suc rounds) file_id store (some i) =
      let store' = delete (file_id, i) store in
      delete_from rounds file_id store' (cursor file_id (some i) store')

  unfoldable pub delete_all_for_file : ChunkStore → Utf16 → Option ChunkStore
  unfolding delete_from
  delete_all_for_file store file_id =
      delete_from (length store) file_id store (cursor file_id none store)

  -- The blob, and the store that is left.
  unfoldable pub finalize : Utf16 → ChunkStore → Option (List ℕ × ChunkStore)
  unfolding get_all_for_file delete_all_for_file
  finalize file_id store =
      with_blob (join (get_all_for_file store file_id)) (delete_all_for_file store file_id)

  unfoldable pub abort : Utf16 → ChunkStore → Option ChunkStore
  unfolding delete_all_for_file
  abort file_id store = delete_all_for_file store file_id
