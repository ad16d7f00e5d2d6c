-- ===== src/Client/SessionStore/Queue.antt =====
-- What the operations do to the queue as a whole.
use mathlib.Core.List.{Perm}
use mathlib.Core.List.Perm
use mathlib.Core.Option.{some-injective}
use file_share_app.Base.{
  ℕ, zero, suc, ◌≡◌, refl, ◌∙◌, Bool, true, not, ◌||◌, List, [], ◌∷◌, ◌++◌, append-nil, Option,
  none, some, filter_by, get_elem?, Utf16, utf16_eq, utf16_beq_iff, All, arith, Bool-cases, inl,
  inr,
}
use file_share_app.Client.SessionStore.{
  FileInfo, QueuedFile, same_key, has_key, with_ids, add_files, remove_at, insert_at, move_found,
  reorder,
}

remove_at-Perm :
    (n : ℕ) (qs : List QueuedFile) (q : QueuedFile)
    → get_elem? qs n ≡ some q
    → Perm (q ∷ remove_at n qs) qs
unfolding remove_at
remove_at-Perm n [] q e = cc
remove_at-Perm zero (p ∷ qs) q e = rw (some-injective p q e) (Perm.refl (q ∷ qs))
remove_at-Perm (suc n) (p ∷ qs) q e =
    Perm.trans (Perm.swap _ _ _) (Perm.cons p (remove_at-Perm n qs q e))

insert_at-Perm : (n : ℕ) (q : QueuedFile) (qs : List QueuedFile) → Perm (insert_at n q qs) (q ∷ qs)
unfolding insert_at
insert_at-Perm zero q qs = Perm.refl _
insert_at-Perm (suc n) q [] = Perm.refl _
insert_at-Perm (suc n) q (p ∷ ps) =
    Perm.trans (Perm.cons p (insert_at-Perm n q ps)) (Perm.swap _ _ _)

-- Whatever the two indices, reordering leaves the same files in the queue, each as often.
pub reorder-Perm :
    (from_index to_index : ℕ) (queued : List QueuedFile)
    → Perm (reorder from_index to_index queued) queued
unfolding reorder move_found
reorder-Perm from_index to_index queued = moved (get_elem? queued from_index) refl
  where
    moved :
        (o : Option QueuedFile)
        → get_elem? queued from_index ≡ o
        → Perm (move_found from_index to_index queued o) queued
    moved none e = Perm.refl queued
    moved (some q) e =
        Perm.trans (insert_at-Perm to_index q (remove_at from_index queued))
          (remove_at-Perm from_index queued q e)

has_key-append :
    (qs rs : List QueuedFile) (f : FileInfo) → has_key (qs ++ rs) f ≡ (has_key qs f || has_key rs f)
unfolding has_key
has_key-append [] rs f = refl
has_key-append (q ∷ qs) rs f = ground (arith, has_key-append qs rs f)

same_key_self : (f : FileInfo) → same_key f f ≡ true
same_key_self f = ground (arith, utf16_beq_iff f.name f.name)

All-imp :
    (P Q : FileInfo → Type 0)
    → ((f : FileInfo) → P f → Q f)
    → (fs : List FileInfo) → All P fs
    → All Q fs
All-imp P Q h [] a = tt
All-imp P Q h (f ∷ fs) (p, a) = (h f p, All-imp P Q h fs a)

abbrev Listed : (ℕ → Utf16) → List QueuedFile → ℕ → List FileInfo → FileInfo → Type 0
Listed make_id qs n fs f =
    (has_key qs f || has_key (with_ids make_id n (filter_by (λ g. not (has_key qs g)) fs)) f) ≡ true

-- After an addition every file of the batch has its key in the queue.
All-Listed :
    (make_id : ℕ → Utf16) (qs : List QueuedFile) (n : ℕ) (fs : List FileInfo)
    → All (Listed make_id qs n fs) fs
unfolding has_key with_ids
All-Listed make_id qs n [] = tt
All-Listed make_id qs n (f ∷ fs) = elim (Bool-cases (has_key qs f)) [
  | inl old ↦ (
    ground arith,
    All-imp (Listed make_id qs n fs) (Listed make_id qs n (f ∷ fs)) (λ g h. rw old h) fs
        (All-Listed make_id qs n fs),
  )
  | inr fresh ↦ (
    ground (arith, same_key_self f),
    All-imp (Listed make_id qs (suc n) fs) (Listed make_id qs n (f ∷ fs))
        (λ g h. rw fresh (ground arith)) fs (All-Listed make_id qs (suc n) fs),
  )
]

filter_by-none :
    (p : FileInfo → Bool) (fs : List FileInfo)
    → All (λ f. p f ≡ true) fs
    → filter_by (λ f. not (p f)) fs ≡ []
filter_by-none p [] a = refl
filter_by-none p (f ∷ fs) (e, a) = rw e (filter_by-none p fs a)

-- Adding the same files a second time changes nothing, whatever ids are drawn.
pub add_files_again :
    (make_id make_id' : ℕ → Utf16) (files : List FileInfo) (queued : List QueuedFile)
    → add_files make_id' files (add_files make_id files queued) ≡ add_files make_id files queued
unfolding add_files
add_files_again make_id make_id' files queued =
    let added = with_ids make_id 0 (filter_by (λ f. not (has_key queued f)) files) in
    let none_left = filter_by-none (has_key (queued ++ added)) files (
      All-imp (Listed make_id queued 0 files) _ (λ f h. has_key-append queued added f ∙ h) files
        (All-Listed make_id queued 0 files)) in
    rw none_left (append-nil (queued ++ added))
