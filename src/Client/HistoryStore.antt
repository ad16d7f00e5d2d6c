-- ===== src/Client/HistoryStore.antt =====
-- client/src/stores/useHistoryStore.ts: the entries that the pages show, beside the repository that
-- keeps them. A call runs to its end, past its `await`, before the next one starts.
pub mod Cached
use file_share_app.Base.{Bool, true, false, List, [], ◌∷◌, Utf16}
use file_share_app.Base.Dict.{Dict}
use file_share_app.Client.Storage
use file_share_app.Client.Storage.{HistoryEntry, list}

pub record HistoryStore : Type 0 where
  pub repository : Dict Utf16 HistoryEntry
  pub entries : List HistoryEntry
  pub loaded : Bool

abbrev pub initial : Dict Utf16 HistoryEntry → HistoryStore
initial repository = record { repository = repository; entries = []; loaded = false }

abbrev pub refresh : HistoryStore → HistoryStore
refresh s = record s { entries = list s.repository; loaded = true }

abbrev pub add : HistoryEntry → HistoryStore → HistoryStore
add entry s = record s { repository = Storage.add entry s.repository; entries = entry ∷ s.entries }

abbrev pub clear : HistoryStore → HistoryStore
clear s = record s { repository = Storage.clear s.repository; entries = [] }

pub data Call : Type 0 where
  refreshes clears : Call
  adds : HistoryEntry → Call

abbrev pub step : HistoryStore → Call → HistoryStore
step s refreshes = refresh s
step s clears = clear s
step s (adds entry) = add entry s

unfoldable pub run : HistoryStore → List Call → HistoryStore
run s [] = s
run s (c ∷ cs) = run (step s c) cs
