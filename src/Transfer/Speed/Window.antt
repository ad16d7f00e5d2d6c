-- ===== src/Transfer/Speed/Window.antt =====
-- The tracker against the history of its calls.
use file_share_app.Base.{ℕ, ◌≤◌, List, [], ◌∷◌, ◌++◌, All}
use file_share_app.Transfer.Speed.{Sample, Speed, Tracker, new, current_bps, record_bytes}

-- The tracker after the calls of `record`, the latest first.
unfoldable pub after : ℕ → ℕ → List Sample → Tracker
after window_ms start [] = new window_ms start
after window_ms start (s ∷ older) = record_bytes s.bytes s.ts (after window_ms start older)

-- The calls, the latest last.
abbrev pub in_time : List Sample → List Sample
in_time [] = []
in_time (s ∷ older) = in_time older ++ s ∷ []

-- No call is before an older one.
abbrev pub LatestFirst : List Sample → Type 0
LatestFirst [] = Unit
LatestFirst (s ∷ older) = All (λ x. x.ts ≤ s.ts) older × LatestFirst older

abbrev Ascending : List Sample → Type 0
Ascending [] = Unit
Ascending (s ∷ ss) = All (λ x. s.ts ≤ x.ts) ss × Ascending ss

-- The speeds at the ends of the calls, the latest first.
abbrev pub speeds : ℕ → ℕ → List Sample → List Speed
speeds w start [] = []
speeds w start (s ∷ older) =
    current_bps s.ts w (after w start (s ∷ older)).samples ∷ speeds w start older
