-- ===== src/Transfer/Speed.antt =====
-- client/src/utils/rollingAverage.ts: `RollingSpeedTracker`. The clock is in whole milliseconds, the
-- argument `now` of each call, and a speed is the fraction of bytes to milliseconds that the code
-- divides, with one millisecond for the speed 0.
pub mod Window
use file_share_app.Base.{
  ℕ, ◌+◌, ◌*◌, ◌-◌, max, Bool, List, [], ◌∷◌, ◌++◌, ltb, eqb, if◌then◌else◌, Option, none, some,
}

pub record Sample : Type 0 where
  pub bytes : ℕ
  pub ts : ℕ

pub record Speed : Type 0 where
  pub bytes : ℕ
  pub ms : ℕ

pub record Tracker : Type 0 where
  pub samples : List Sample
  pub total_bytes : ℕ
  pub peak : Speed
  pub started_at : ℕ
  pub window_ms : ℕ

abbrev pub nought : Speed
nought = record { bytes = 0; ms = 1 }

abbrev pub new : ℕ → ℕ → Tracker
new window_ms now = record {
  samples = [];
  total_bytes = 0;
  peak = nought;
  started_at = now;
  window_ms = window_ms;
}

-- `ts < now - windowMs`, where the difference may be negative.
abbrev pub is_old : ℕ → ℕ → Sample → Bool
is_old now window_ms s = ltb (s.ts + window_ms) now

-- The loop of `shift`.
unfoldable pub shift_old : ℕ → ℕ → List Sample → List Sample
shift_old now window_ms [] = []
shift_old now window_ms (s ∷ ss) =
    let rest = shift_old now window_ms ss in if is_old now window_ms s then rest else s ∷ ss

unfoldable pub sum_bytes : List Sample → ℕ
sum_bytes [] = 0
sum_bytes (s ∷ ss) = s.bytes + sum_bytes ss

abbrev pub over : ℕ → ℕ → Speed
over bytes ms = if eqb ms 0 then nought else record { bytes = bytes; ms = ms }

-- `currentBps`, also `currentSpeedBps`. The start of the window is not after `now`.
unfoldable pub current_bps : ℕ → ℕ → List Sample → Speed
unfolding sum_bytes
current_bps now window_ms [] = nought
current_bps now window_ms (s ∷ ss) = over (sum_bytes (s ∷ ss)) (now - max s.ts (now - window_ms))

-- Whether a speed is above another.
unfoldable pub is_above : Speed → Speed → Bool
is_above a b = ltb (b.bytes * a.ms) (a.bytes * b.ms)

unfoldable pub keep_samples : ℕ → ℕ → Tracker → List Sample
unfolding shift_old
keep_samples byte_length now t =
    shift_old now t.window_ms (t.samples ++ record { bytes = byte_length; ts = now } ∷ [])

-- `record`
unfoldable pub record_bytes : ℕ → ℕ → Tracker → Tracker
unfolding keep_samples current_bps is_above
record_bytes byte_length now t =
    let kept = keep_samples byte_length now t in
    let current = current_bps now t.window_ms kept in
    record t {
      samples = kept;
      total_bytes = t.total_bytes + byte_length;
      peak = if is_above current t.peak then current else t.peak;
    }

-- `averageSpeedBps`
abbrev pub average_bps : ℕ → Tracker → Speed
average_bps now t = over t.total_bytes (now - t.started_at)

-- `etaSeconds`, as the fraction of milliseconds to bytes: `none` is Infinity.
unfoldable pub eta : ℕ → ℕ → Tracker → Option (ℕ × ℕ)
unfolding current_bps
eta remaining_bytes now t =
    let current = current_bps now t.window_ms t.samples in
    let speed = if eqb current.bytes 0 then average_bps now t else current in
    if eqb speed.bytes 0 then none else some (remaining_bytes * speed.ms, speed.bytes)
