-- ===== src/Client/SessionStore.antt =====
-- client/src/stores/useSessionStore.ts: the files that wait to be sent. `crypto.randomUUID()` is a
-- stream of ids. The text `${name}:${size}:${lastModified}` stands as the triple, which it
-- determines, since decimals have no colon.
pub mod Queue
use file_share_app.Base.{
  ℕ, zero, suc, ◌+◌, Bool, true, false, not, ◌&&◌, ◌||◌, List, [], ◌∷◌, ◌++◌, Option, none, some,
  filter_by, get_elem?, eqb, Utf16, utf16_eq, ◌==◌, if◌then◌else◌,
}

-- The properties of a File that are read.
pub record FileInfo : Type 0 where
  pub name : Utf16
  pub size : ℕ
  pub last_modified : ℕ

pub record QueuedFile : Type 0 where
  pub id : Utf16
  pub file : FileInfo
  pub relative_path : Option Utf16

abbrev pub same_key : FileInfo → FileInfo → Bool
same_key f g = f.name == g.name && (eqb f.size g.size && eqb f.last_modified g.last_modified)

-- `existingKeys.has(key)`
unfoldable pub has_key : List QueuedFile → FileInfo → Bool
has_key [] f = false
has_key (q ∷ qs) f = same_key q.file f || has_key qs f

unfoldable pub with_ids : (ℕ → Utf16) → ℕ → List FileInfo → List QueuedFile
with_ids make_id n [] = []
with_ids make_id n (f ∷ fs) =
    record { id = make_id n; file = f; relative_path = none } ∷ with_ids make_id (suc n) fs

unfoldable pub add_files : (ℕ → Utf16) → List FileInfo → List QueuedFile → List QueuedFile
unfolding has_key with_ids
add_files make_id files queued =
    queued ++ with_ids make_id 0 (filter_by (λ f. not (has_key queued f)) files)

unfoldable pub remove_file : Utf16 → List QueuedFile → List QueuedFile
remove_file id queued = filter_by (λ q. not (q.id == id)) queued

-- `splice(index, 1)`
unfoldable pub remove_at : ℕ → List QueuedFile → List QueuedFile
remove_at index [] = []
remove_at zero (q ∷ qs) = qs
remove_at (suc index) (q ∷ qs) = q ∷ remove_at index qs

-- `splice(index, 0, q)`: past the end it appends.
unfoldable pub insert_at : ℕ → QueuedFile → List QueuedFile → List QueuedFile
insert_at zero q qs = q ∷ qs
insert_at (suc index) q [] = q ∷ []
insert_at (suc index) q (p ∷ ps) = p ∷ insert_at index q ps

move_found : ℕ → ℕ → List QueuedFile → Option QueuedFile → List QueuedFile
unfolding remove_at insert_at
move_found from_index to_index queued none = queued
move_found from_index to_index queued (some moved) =
    insert_at to_index moved (remove_at from_index queued)

-- The indices are those of items of the queue or past its end; from below zero `splice` would count
-- from the end.
unfoldable pub reorder : ℕ → ℕ → List QueuedFile → List QueuedFile
unfolding move_found
reorder from_index to_index queued =
    move_found from_index to_index queued (get_elem? queued from_index)

abbrev pub clear : List QueuedFile → List QueuedFile
clear queued = []

abbrev pub total_bytes : List QueuedFile → ℕ
total_bytes [] = 0
total_bytes (q ∷ qs) = q.file.size + total_bytes qs
