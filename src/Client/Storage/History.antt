-- ===== src/Client/Storage/History.antt =====
-- The history as it is listed.
use file_share_app.Base.{ℕ, ◌≤◌, List, [], ◌∷◌, ◌++◌, Utf16, utf16_eq, arith, All, All-append}
use file_share_app.Base.Dict.{Dict, values}
use file_share_app.Client.Storage.{HistoryEntry, insert_entry, by_timestamp, reverse, list}

-- No entry is older than the ones after it.
abbrev pub NewestFirst : List HistoryEntry → Type 0
NewestFirst [] = Unit
NewestFirst (e ∷ es) = All (λ f. f.timestamp ≤ e.timestamp) es × NewestFirst es

abbrev OldestFirst : List HistoryEntry → Type 0
OldestFirst [] = Unit
OldestFirst (e ∷ es) = All (λ f. e.timestamp ≤ f.timestamp) es × OldestFirst es

All-weaken :
    (s t : ℕ) (es : List HistoryEntry)
    → s ≤ t
    → All (λ f. t ≤ f.timestamp) es
    → All (λ f. s ≤ f.timestamp) es
All-weaken s t [] le h = tt
All-weaken s t (e ∷ es) le (p, h) = (omega arith, All-weaken s t es le h)

All-insert_entry :
    (t : ℕ) (e : HistoryEntry) (es : List HistoryEntry)
    → t ≤ e.timestamp
    → All (λ f. t ≤ f.timestamp) es
    → All (λ f. t ≤ f.timestamp) (insert_entry e es)
unfolding insert_entry
All-insert_entry t e [] le h = (le, tt)
All-insert_entry t e (f ∷ fs) le (p, h) = ground (arith, All-insert_entry t e fs le h)

insert_entry-OldestFirst :
    (e : HistoryEntry) (es : List HistoryEntry) → OldestFirst es → OldestFirst (insert_entry e es)
unfolding insert_entry
insert_entry-OldestFirst e [] h = (tt, tt)
insert_entry-OldestFirst e (f ∷ fs) (p, h) = ground (
  arith,
  insert_entry-OldestFirst e fs h,
  All-insert_entry f.timestamp e fs,
  All-weaken e.timestamp f.timestamp fs,
)

by_timestamp-OldestFirst : (es : List HistoryEntry) → OldestFirst (by_timestamp es)
unfolding by_timestamp
by_timestamp-OldestFirst [] = tt
by_timestamp-OldestFirst (e ∷ es) =
    insert_entry-OldestFirst e (by_timestamp es) (by_timestamp-OldestFirst es)

snoc-NewestFirst :
    (es : List HistoryEntry) (e : HistoryEntry)
    → NewestFirst es
    → All (λ f. e.timestamp ≤ f.timestamp) es
    → NewestFirst (es ++ e ∷ [])
snoc-NewestFirst [] e h a = (tt, tt)
snoc-NewestFirst (f ∷ fs) e (p, h) (le, a) =
    (All-append (λ g. g.timestamp ≤ f.timestamp) fs (e ∷ []) p (le, tt), snoc-NewestFirst fs e h a)

All-reverse :
    (t : ℕ) (es : List HistoryEntry)
    → All (λ f. t ≤ f.timestamp) es
    → All (λ f. t ≤ f.timestamp) (reverse es)
All-reverse t [] h = tt
All-reverse t (e ∷ es) (p, h) =
    All-append (λ f. t ≤ f.timestamp) (reverse es) (e ∷ []) (All-reverse t es h) (p, tt)

reverse-NewestFirst : (es : List HistoryEntry) → OldestFirst es → NewestFirst (reverse es)
reverse-NewestFirst [] h = tt
reverse-NewestFirst (e ∷ es) (p, h) =
    snoc-NewestFirst (reverse es) e (reverse-NewestFirst es h) (All-reverse e.timestamp es p)

-- The history is listed with the newest entry first.
pub list-NewestFirst : (store : Dict Utf16 HistoryEntry) → NewestFirst (list store)
unfolding list
list-NewestFirst store =
    reverse-NewestFirst (by_timestamp (values store)) (by_timestamp-OldestFirst (values store))
