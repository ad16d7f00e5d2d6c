-- ===== src/Tests/Cursors.antt =====
-- A cursor that goes through the chunks of a file by their indices, and what the loop over it
-- deletes.
use file_share_app.Base.{
  ℕ, ◌≡◌, refl, Bool, true, false, ◌&&◌, List, [], ◌∷◌, Option, none, some, Utf16, utf16_eq,
  utf16_beq, ◌==◌, eqb, eqb_iff, ltb, if◌then◌else◌, arith, Bool-cases, Option-cases, inl, inr,
}
use file_share_app.Base.Dict.{get, has, delete}
use file_share_app.Transfer.Sink.IndexedDb.{
  key_eq, key_beq, ChunkStore, Cursors, is_after, finalize, abort, delete_all_for_file, delete_from,
  sort, insert_sorted, get_all_for_file, join,
}
use file_share_app.Transfer.Sink.IndexedDb.Deleted.{Ascending, finalize-cleared}

abbrev least : ℕ → Option ℕ → ℕ
least i none = i
least i (some j) = if ltb j i then j else i

unfoldable next : Utf16 → Option ℕ → ChunkStore → Option ℕ
next f from [] = none
next f from (((g, i), bytes) ∷ d) =
    let rest = next f from d in if g == f && is_after ltb from i then some (least i rest) else rest

has_cons :
    (f g : Utf16) (i j : ℕ) (bytes : List ℕ) (d : ChunkStore)
    → has (f, j) (((g, i), bytes) ∷ d) ≡ (if g == f && eqb i j then true else has (f, j) d)
unfolding get key_beq
has_cons f g i j bytes d = ground arith

-- Whether the cursor may go to a chunk.
abbrev takes : Utf16 → Option ℕ → Utf16 → ℕ → Bool
takes f from g i = g == f && is_after ltb from i

takes_there :
    (f : Utf16) (from : Option ℕ) (g : Utf16) (i j : ℕ)
    → is_after ltb from j ≡ true
    → (g == f && eqb i j) ≡ true
    → takes f from g i ≡ true
takes_there f none g i j h e = ground arith
takes_there f (some k) g i j h e = ground arith

next-end :
    (f : Utf16) (from : Option ℕ) (d : ChunkStore) (j : ℕ)
    → next f from d ≡ none
    → is_after ltb from j ≡ true
    → has (f, j) d ≡ false
unfolding next get
next-end f from [] j e h = refl
next-end f from (((g, i), bytes) ∷ d) j e h = elim (Bool-cases (takes f from g i)) [
  | inl goes ↦ cc (rw goes at e)
  | inr stays ↦
      let rest = next-end f from d j (rw stays at e) h in
      ground (arith, rest, has_cons f g i j bytes d, takes_there f from g i j h)
]

next-found :
    (f : Utf16) (from : Option ℕ) (d : ChunkStore) (i : ℕ)
    → next f from d ≡ some i
    → has (f, i) d ≡ true
unfolding next
next-found f from [] i e = cc
next-found f from (((g, k), bytes) ∷ d) i e = elim (Bool-cases (takes f from g k)) [
  | inl goes ↦ elim (Option-cases (next f from d)) [
    | inl last ↦
        let same = rw (goes, last) at e in
        ground (arith, same, goes, has_cons f g k i bytes d, eqb_iff k i)
    | inr (m, before) ↦
        let same = rw (goes, before) at e in
        ground
          (arith, same, goes, has_cons f g k i bytes d, eqb_iff k i, next-found f from d m before)
  ]
  | inr stays ↦
      let rest = next-found f from d i (rw stays at e) in
      ground (arith, rest, has_cons f g k i bytes d)
]

next-first :
    (f : Utf16) (from : Option ℕ) (d : ChunkStore) (i j : ℕ)
    → next f from d ≡ some i
    → has (f, j) d ≡ true
    → is_after ltb from j ≡ true
    → ltb j i ≡ false
unfolding next
next-first f from [] i j e there h = cc
next-first f from (((g, k), bytes) ∷ d) i j e there h = elim (Bool-cases (takes f from g k)) [
  | inl goes ↦ elim (Option-cases (next f from d)) [
    | inl last ↦
        let same = rw (goes, last) at e in
        ground (arith, same, has_cons f g k j bytes d, eqb_iff k j, next-end f from d j last h)
    | inr (m, before) ↦
        let same = rw (goes, before) at e in
        ground (arith, same, has_cons f g k j bytes d, eqb_iff k j, next-first f from d m j before)
  ]
  | inr stays ↦ ground (
    arith,
    next-first f from d i j (rw stays at e),
    has_cons f g k j bytes d,
    takes_there f from g k j h,
  )
]

ltb_connected : (i j : ℕ) → ltb i j ≡ false → ltb j i ≡ false → i ≡ j
ltb_connected i j a b = ground arith

abbrev by_index : Cursors
by_index = record {
  comes_before = ltb;
  connected = ltb_connected;
  cursor = next;
  cursor-found = next-found;
  cursor-first = next-first;
  cursor-end = next-end;
}

-- Two chunks of one file, the later first, around a chunk of another.
abbrev store : ChunkStore
store = ((1 ∷ [], 1), 3 ∷ []) ∷ ((2 ∷ [], 0), 2 ∷ []) ∷ ((1 ∷ [], 0), 1 ∷ []) ∷ []

finalize-cleared_example :
    (left : ChunkStore) × (finalize by_index (1 ∷ []) store
      ≡ some (join (get_all_for_file store (1 ∷ [])), left))
    × (abort by_index (1 ∷ []) store ≡ some left)
    × Ascending (get_all_for_file store (1 ∷ []))
    × ((g : Utf16) (i : ℕ) → get (g, i) left ≡ (if g == (1 ∷ []) then none else get (g, i) store))
finalize-cleared_example = finalize-cleared by_index (1 ∷ []) store

-- The other file's chunk is left.
finalized : finalize by_index (1 ∷ []) store ≡ some (1 ∷ 3 ∷ [], ((2 ∷ [], 0), 2 ∷ []) ∷ [])
unfolding finalize delete_all_for_file delete_from next get_all_for_file sort insert_sorted delete
    key_beq utf16_beq
finalized = refl
