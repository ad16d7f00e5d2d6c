-- ===== src/Server/RateLimiter.antt =====
-- server/src/security/rateLimiter.ts: hits for each key, kept for one window. `Date.now()` is the
-- argument `now` of each call; `t > now - windowMs`, which may be negative there, is
-- `now < t + window_ms`.
pub mod Window
use file_share_app.Base.{
  ℕ, ◌+◌, Bool, Option, none, some, List, [], ◌∷◌, ◌++◌, length, filter_by, ltb, leb, Utf16,
  utf16_eq, if◌then◌else◌,
}
use file_share_app.Base.Dict.{Dict, get, set, delete}

pub record RateLimiter : Type 0 where
  pub hits : Dict Utf16 (List ℕ)
  pub window_ms : ℕ
  pub max_hits : ℕ

abbrev pub new : ℕ → ℕ → RateLimiter
new window_ms max_hits = record { hits = []; window_ms = window_ms; max_hits = max_hits }

-- `hits.filter((t) => t > windowStart)`
abbrev pub recent : ℕ → ℕ → List ℕ → List ℕ
recent window_ms now = filter_by (λ t. ltb now (t + window_ms))

-- `?? []`
abbrev pub or_empty : Option (List ℕ) → List ℕ
or_empty none = []
or_empty (some ts) = ts

unfoldable pub check : RateLimiter → Utf16 → ℕ → RateLimiter × Bool
check l key now =
    let kept = recent l.window_ms now (or_empty (get key l.hits)) ++ now ∷ [] in
    (record l { hits = set key kept l.hits }, leb (length kept) l.max_hits)

pub reset : RateLimiter → Utf16 → RateLimiter
reset l key = record l { hits = delete key l.hits }

abbrev put_back : Utf16 → List ℕ → Dict Utf16 (List ℕ) → Dict Utf16 (List ℕ)
put_back key [] rest = rest
put_back key (t ∷ ts) rest = (key, t ∷ ts) ∷ rest

-- The loop over `hits.entries()`: each entry is visited once, and replaced or deleted in place.
pub sweep_entries : ℕ → ℕ → Dict Utf16 (List ℕ) → Dict Utf16 (List ℕ)
sweep_entries window_ms now [] = []
sweep_entries window_ms now ((key, ts) ∷ rest) =
    put_back key (recent window_ms now ts) (sweep_entries window_ms now rest)

pub sweep : RateLimiter → ℕ → RateLimiter
unfolding sweep_entries
sweep l now = record l { hits = sweep_entries l.window_ms now l.hits }
