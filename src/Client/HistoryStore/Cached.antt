-- ===== src/Client/HistoryStore/Cached.antt =====
-- What the pages show is what the repository would list.
use file_share_app.Base.{
  ℕ, ◌<◌, ◌≡◌, refl, sym, ap, ◌∙◌, List, [], ◌∷◌, ◌++◌, none, Utf16, utf16_eq, arith, All, ◌==◌,
  Bool-cases, inl, inr,
}
use file_share_app.Base.Dict.{Dict, get, set, values}
use file_share_app.Client.Storage.{
  HistoryEntry, insert_entry, by_timestamp, reverse, list, comes_before,
}
use file_share_app.Client.Storage.History.{NewestFirst, list-NewestFirst}
use file_share_app.Client.HistoryStore.{
  HistoryStore, refresh, Call, refreshes, clears, adds, step, run,
}

-- Every entry is older than the time.
abbrev pub Before : ℕ → List HistoryEntry → Type 0
Before t es = All (λ f. f.timestamp < t) es

-- An entry with an id of its own, newer than what the repository has.
abbrev pub IsFresh : HistoryEntry → Dict Utf16 HistoryEntry → Type 0
IsFresh e store = (get e.id store ≡ none) × Before e.timestamp (values store)

-- The entries that the calls add are fresh when they are added.
abbrev pub AllFresh : HistoryStore → List Call → Type 0
AllFresh s [] = Unit
AllFresh s (adds e ∷ cs) = IsFresh e s.repository × AllFresh (step s (adds e)) cs
AllFresh s (refreshes ∷ cs) = AllFresh (step s refreshes) cs
AllFresh s (clears ∷ cs) = AllFresh (step s clears) cs

values-set :
    (k : Utf16) (e : HistoryEntry) (d : Dict Utf16 HistoryEntry)
    → get k d ≡ none
    → values (set k e d) ≡ values d ++ e ∷ []
unfolding get set
values-set k e [] h = refl
values-set k e ((j, f) ∷ d) h = elim (Bool-cases (j == k)) [
  | inl same ↦ cc (rw same at h)
  | inr other ↦ rw other (ap (◌∷◌ f) (values-set k e d (rw other at h)))
]

insert_entry-last :
    (x e : HistoryEntry) (es : List HistoryEntry)
    → x.timestamp < e.timestamp
    → insert_entry x (es ++ e ∷ []) ≡ insert_entry x es ++ e ∷ []
unfolding insert_entry
insert_entry-last x e [] lt = ground arith
insert_entry-last x e (f ∷ fs) lt = elim (Bool-cases (comes_before x f)) [
  | inl first ↦ rw first refl
  | inr later ↦ rw later (ap (◌∷◌ f) (insert_entry-last x e fs lt))
]

by_timestamp-last :
    (e : HistoryEntry) (es : List HistoryEntry)
    → Before e.timestamp es
    → by_timestamp (es ++ e ∷ []) ≡ by_timestamp es ++ e ∷ []
unfolding by_timestamp insert_entry
by_timestamp-last e [] h = refl
by_timestamp-last e (x ∷ xs) (lt, h) =
    ap (insert_entry x) (by_timestamp-last e xs h) ∙ insert_entry-last x e (by_timestamp xs) lt

reverse-snoc : (es : List HistoryEntry) (e : HistoryEntry) → reverse (es ++ e ∷ []) ≡ e ∷ reverse es
reverse-snoc [] e = refl
reverse-snoc (f ∷ fs) e = ap (λ es. es ++ f ∷ []) (reverse-snoc fs e)

list-set :
    (e : HistoryEntry) (store : Dict Utf16 HistoryEntry)
    → IsFresh e store
    → list (set e.id e store) ≡ e ∷ list store
unfolding list
list-set e store (new, newer) =
    ap (λ es. reverse (by_timestamp es)) (values-set e.id e store new)
    ∙ ap reverse (by_timestamp-last e (values store) newer)
    ∙ reverse-snoc (by_timestamp (values store)) e

run-list :
    (s : HistoryStore) (cs : List Call)
    → s.entries ≡ list s.repository
    → AllFresh s cs
    → (run s cs).entries ≡ list (run s cs).repository
unfolding run list by_timestamp
run-list s [] h _ = h
run-list s (refreshes ∷ cs) h fresh = run-list (step s refreshes) cs refl fresh
run-list s (clears ∷ cs) h fresh = run-list (step s clears) cs refl fresh
run-list s (adds e ∷ cs) h (new, fresh) =
    run-list (step s (adds e)) cs (ap (◌∷◌ e) h ∙ sym (list-set e s.repository new)) fresh

-- After a first refresh of any store, and as long as every entry added has an id of its own and is
-- newer than what the repository has then, the entries shown are those that the repository would
-- list, the newest first.
pub run-cached :
    (s : HistoryStore) (cs : List Call)
    → AllFresh (refresh s) cs
    → ((run (refresh s) cs).entries ≡ list (run (refresh s) cs).repository)
      × NewestFirst (run (refresh s) cs).entries
run-cached s cs fresh =
    let same = run-list (refresh s) cs refl fresh in
    (same, rw same (list-NewestFirst (run (refresh s) cs).repository))
