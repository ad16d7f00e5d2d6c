-- ===== src/Server/RateLimiter/Window.antt =====
-- The limiter against the history of its calls: what `check` answers, and what `sweep` keeps.
use file_share_app.Base.{
  ℕ, ◌+◌, ◌≤◌, ◌<◌, ◌≡◌, refl, ap, ◌∙◌, ◌≢◌, Bool, true, false, ◌&&◌, none, List, [], ◌∷◌, ◌++◌,
  length, length-append, ltb, leb, Utf16, List-cases, utf16_eq, utf16_beq_iff, ◌==◌, if◌then◌else◌,
  arith, All, inl, inr,
}
use file_share_app.Base.Dict.{
  Dict, get, get-set, get-delete, Distinct, set-Distinct, delete-Distinct,
}
use file_share_app.Server.RateLimiter.{
  RateLimiter, new, recent, or_empty, check, reset, sweep, sweep_entries, put_back,
}

pub data Call : Type 0 where
  checks resets : Utf16 → Call
  sweeps : Call

-- The calls made so far with their times, the newest first.
abbrev pub History : Type 0
History = List (ℕ × Call)

abbrev nonempty : List ℕ → Bool
nonempty [] = false
nonempty (t ∷ ts) = true

abbrev pub step : RateLimiter → ℕ → Call → RateLimiter
step l now (checks key) = (check l key now).0
step l now (resets key) = reset l key
step l now sweeps = sweep l now

-- No call is later than `now`, and the times never fall.
abbrev pub Until : ℕ → History → Type 0
Until now [] = Unit {0}
Until now ((t, c) ∷ h) = (t ≤ now) × Until t h

length-recent_snoc :
    (w s now : ℕ) (ts : List ℕ)
    → s ≤ now
    → length (recent w now (recent w s ts ++ s ∷ []))
      ≡ length (recent w now ts) + (if ltb now (s + w) then 1 else 0)
length-recent_snoc w s now [] h = ground arith
length-recent_snoc w s now (t ∷ ts) h = ground (arith, length-recent_snoc w s now ts h)

recent-recent :
    (w s now : ℕ) (ts : List ℕ) → s ≤ now → recent w now (recent w s ts) ≡ recent w now ts
recent-recent w s now [] h = refl
recent-recent w s now (t ∷ ts) h = ground (arith, recent-recent w s now ts h)

-- What `sweep` leaves of one entry.
get-put_back :
    (j key : Utf16) (ts : List ℕ) (d : Dict Utf16 (List ℕ))
    → or_empty (get key (put_back j ts d))
      ≡ (if nonempty ts && j == key then ts else or_empty (get key d))
unfolding get
get-put_back j key [] d = refl
get-put_back j key (t ∷ ts) d = ground arith

get-put_back_none :
    (j key : Utf16) (ts : List ℕ) (d : Dict Utf16 (List ℕ))
    → j == key ≡ false
    → get key (put_back j ts d) ≡ get key d
unfolding get
get-put_back_none j key [] d h = refl
get-put_back_none j key (t ∷ ts) d h = rw h

get-sweep_entries-none :
    (w now : ℕ) (key : Utf16) (d : Dict Utf16 (List ℕ))
    → get key d ≡ none
    → get key (sweep_entries w now d) ≡ none
unfolding get sweep_entries
get-sweep_entries-none w now key [] h = refl
get-sweep_entries-none w now key ((j, ts) ∷ d) h = ground (
  arith,
  get-put_back_none j key (recent w now ts) (sweep_entries w now d),
  get-sweep_entries-none w now key d,
)

Until-le : (t now : ℕ) (h : History) → t ≤ now → Until t h → Until now h
Until-le t now [] o u = tt
Until-le t now ((s, c) ∷ h) o u = (omega arith, u.1)

recent-sweep :
    (w s now : ℕ) (key : Utf16) (d : Dict Utf16 (List ℕ))
    → Distinct d
    → s ≤ now
    → recent w now (or_empty (get key (sweep_entries w s d))) ≡ recent w now (or_empty (get key d))
unfolding get sweep_entries
recent-sweep w s now key [] u h = refl
recent-sweep w s now key ((j, ts) ∷ d) u h = ground (
  arith,
  get-put_back j key (recent w s ts) (sweep_entries w s d),
  get-sweep_entries-none w s j d u.0,
  utf16_beq_iff j key,
  recent-recent w s now ts h,
  recent-sweep w s now key d u.1 h,
)

-- The limiter that a server started with this window and this maximum has after a history.
unfoldable pub after : ℕ → ℕ → History → RateLimiter
after w limit [] = new w limit
after w limit ((t, c) ∷ h) = step (after w limit h) t c

-- The calls of `check` for `key` in the window that ends at `now`, refused ones included, since
-- the key's last reset.
pub attempts : ℕ → Utf16 → ℕ → History → ℕ
attempts w key now [] = 0
attempts w key now ((t, checks j) ∷ h) =
    attempts w key now h + (if j == key && ltb now (t + w) then 1 else 0)
attempts w key now ((t, resets j) ∷ h) = if j == key then 0 else attempts w key now h
attempts w key now ((t, sweeps) ∷ h) = attempts w key now h

-- Those of them that were allowed.
pub allowed : ℕ → ℕ → Utf16 → ℕ → History → ℕ
allowed w limit key now [] = 0
allowed w limit key now ((t, checks j) ∷ h) =
    allowed w limit key now h
    + (if j == key && ltb now (t + w) && (check (after w limit h) j t).1 then 1 else 0)
allowed w limit key now ((t, resets j) ∷ h) = if j == key then 0 else allowed w limit key now h
allowed w limit key now ((t, sweeps) ∷ h) = allowed w limit key now h

after_settings :
    (w limit : ℕ) (h : History)
    → ((after w limit h).window_ms ≡ w) × ((after w limit h).max_hits ≡ limit)
unfolding after check reset sweep
after_settings w limit [] = (refl, refl)
after_settings w limit ((t, checks j) ∷ h) = after_settings w limit h
after_settings w limit ((t, resets j) ∷ h) = after_settings w limit h
after_settings w limit ((t, sweeps) ∷ h) = after_settings w limit h

sweep_entries-Distinct :
    (w now : ℕ) (d : Dict Utf16 (List ℕ)) → Distinct d → Distinct (sweep_entries w now d)
unfolding sweep_entries
sweep_entries-Distinct w now [] u = tt
sweep_entries-Distinct w now ((j, ts) ∷ d) u = elim (List-cases (recent w now ts)) [
  | inl e ↦ rw e (sweep_entries-Distinct w now d u.1)
  | inr (t, rest, e) ↦
      rw e (get-sweep_entries-none w now j d u.0, sweep_entries-Distinct w now d u.1)
]

after-Distinct : (w limit : ℕ) (h : History) → Distinct (after w limit h).hits
unfolding after check reset sweep
after-Distinct w limit [] = tt
after-Distinct w limit ((t, checks j) ∷ h) = set-Distinct j _ _ (after-Distinct w limit h)
after-Distinct w limit ((t, resets j) ∷ h) = delete-Distinct j _ (after-Distinct w limit h)
after-Distinct w limit ((t, sweeps) ∷ h) = sweep_entries-Distinct _ t _ (after-Distinct w limit h)

-- What a call leaves stored for a key.
hits-check :
    (l : RateLimiter) (j key : Utf16) (t : ℕ)
    → or_empty (get key (check l j t).0.hits) ≡ (
        if j == key
        then recent l.window_ms t (or_empty (get key l.hits)) ++ t ∷ []
        else or_empty (get key l.hits))
unfolding check
hits-check l j key t =
    let kept = recent l.window_ms t (or_empty (get j l.hits)) ++ t ∷ [] in
    ground (arith, get-set j key kept l.hits, utf16_beq_iff j key)

hits-reset :
    (l : RateLimiter) (j key : Utf16)
    → or_empty (get key (reset l j).hits) ≡ (if j == key then [] else or_empty (get key l.hits))
unfolding reset
hits-reset l j key = ground (arith, get-delete j key l.hits)

recent-hits-sweep :
    (w limit : ℕ) (key : Utf16) (t now : ℕ) (h : History)
    → t ≤ now
    → length (recent w now (or_empty (get key (sweep (after w limit h) t).hits)))
      ≡ length (recent w now (or_empty (get key (after w limit h).hits)))
unfolding sweep
recent-hits-sweep w limit key t now h o =
    rw (after_settings w limit h).0
      (ap length (recent-sweep w t now key (after w limit h).hits (after-Distinct w limit h) o))

-- What is stored for a key, as far as it still counts at `now`, is the number of attempts.
length-recent-after :
    (w limit : ℕ) (key : Utf16) (now : ℕ) (h : History)
    → Until now h
    → length (recent w now (or_empty (get key (after w limit h).hits))) ≡ attempts w key now h
unfolding after attempts
length-recent-after w limit key now [] o = unfold get in refl
length-recent-after w limit key now ((t, checks j) ∷ h) o =
    let l = after w limit h in
    let ts = or_empty (get key l.hits) in
    rw (hits-check l j key t, (after_settings w limit h).0)
      (ground (
        arith,
        length-recent_snoc w t now ts o.0,
        length-recent-after w limit key now h (Until-le t now h o.0 o.1),
      ))
length-recent-after w limit key now ((t, resets j) ∷ h) o =
    rw (hits-reset (after w limit h) j key)
      (ground (arith, length-recent-after w limit key now h (Until-le t now h o.0 o.1)))
length-recent-after w limit key now ((t, sweeps) ∷ h) o =
    recent-hits-sweep w limit key t now h o.0
    ∙ length-recent-after w limit key now h (Until-le t now h o.0 o.1)

check-verdict :
    (l : RateLimiter) (key : Utf16) (now : ℕ)
    → (check l key now).1
      ≡ leb (length (recent l.window_ms now (or_empty (get key l.hits))) + 1) l.max_hits
unfolding check
check-verdict l key now =
    ap (λ n. leb n l.max_hits)
      (length-append (recent l.window_ms now (or_empty (get key l.hits))) (now ∷ []))

-- For every history whose times do not fall and reach `now` at most: `check` allows a call exactly
-- when the calls for its key in the window that ends at `now`, refused ones and this one included
-- and those before the key's last `reset` left out, number at most the maximum.
pub check-attempts :
    (w limit : ℕ) (key : Utf16) (now : ℕ) (h : History)
    → Until now h
    → (check (after w limit h) key now).1 ≡ leb (attempts w key now h + 1) limit
check-attempts w limit key now h o = rw (
  check-verdict (after w limit h) key now,
  (after_settings w limit h).0,
  (after_settings w limit h).1,
  length-recent-after w limit key now h o,
)

attempts-anti :
    (w : ℕ) (key : Utf16) (t now : ℕ) (h : History)
    → t ≤ now
    → attempts w key now h ≤ attempts w key t h
unfolding attempts
attempts-anti w key t now [] o = omega arith
attempts-anti w key t now ((s, checks j) ∷ h) o = ground (arith, attempts-anti w key t now h o)
attempts-anti w key t now ((s, resets j) ∷ h) o = ground (arith, attempts-anti w key t now h o)
attempts-anti w key t now ((s, sweeps) ∷ h) o = attempts-anti w key t now h o

allowed-le-attempts :
    (w limit : ℕ) (key : Utf16) (now : ℕ) (h : History)
    → allowed w limit key now h ≤ attempts w key now h
unfolding attempts allowed
allowed-le-attempts w limit key now [] = omega arith
allowed-le-attempts w limit key now ((s, checks j) ∷ h) =
    ground (arith, allowed-le-attempts w limit key now h)
allowed-le-attempts w limit key now ((s, resets j) ∷ h) =
    ground (arith, allowed-le-attempts w limit key now h)
allowed-le-attempts w limit key now ((s, sweeps) ∷ h) = allowed-le-attempts w limit key now h

-- For every history whose times do not fall and reach `now` at most: the calls of `check` for one
-- key that were allowed in the window that ends at `now`, since the key's last `reset`, number at
-- most the maximum.
pub allowed-le-max :
    (w limit : ℕ) (key : Utf16) (now : ℕ) (h : History)
    → Until now h
    → allowed w limit key now h ≤ limit
unfolding allowed
allowed-le-max w limit key now [] o = omega arith
allowed-le-max w limit key now ((t, checks j) ∷ h) o = ground (
  arith,
  utf16_beq_iff j key,
  check-attempts w limit j t h o.1,
  attempts-anti w key t now h o.0,
  allowed-le-attempts w limit key now h,
  allowed-le-max w limit key now h (Until-le t now h o.0 o.1),
)
allowed-le-max w limit key now ((t, resets j) ∷ h) o =
    ground (arith, allowed-le-max w limit key now h (Until-le t now h o.0 o.1))
allowed-le-max w limit key now ((t, sweeps) ∷ h) o =
    allowed-le-max w limit key now h (Until-le t now h o.0 o.1)

-- An entry that `sweep` leaves: it has a hit, and every hit is in the window.
abbrev pub IsLive : ℕ → ℕ → List ℕ → Type 0
IsLive w now ts = (ts ≢ []) × All (λ t. now < t + w) ts

recent-All : (w now : ℕ) (ts : List ℕ) → All (λ t. now < t + w) (recent w now ts)
recent-All w now [] = tt
recent-All w now (t ∷ ts) = ground (arith, recent-All w now ts)

pub sweep_entries-IsLive :
    (w now : ℕ) (d : Dict Utf16 (List ℕ)) → All (λ p. IsLive w now p.1) (sweep_entries w now d)
unfolding sweep_entries
sweep_entries-IsLive w now [] = tt
sweep_entries-IsLive w now ((j, ts) ∷ d) = elim (List-cases (recent w now ts)) [
  | inl e ↦ rw e (sweep_entries-IsLive w now d)
  | inr (t, rest, e) ↦ rw e ((λ p. cc, rw e at (recent-All w now ts)), sweep_entries-IsLive w now d)
]
