-- ===== src/Client/Signaling/Attempts.antt =====
-- How often the signaling client reconnects.
use file_share_app.Base.{
  ℕ, suc, Option, none, some, if◌then◌else◌, ◌+◌, ◌≤◌, ◌≡◌, refl, Bool, true, false, List, [], ◌∷◌,
  ◌++◌, All, arith, Bool-cases, inl, inr,
}
use file_share_app.Client.Signaling.{
  Client, Action, start_timer, rejects, closed, Event, connects, closes, timer_fires, opened,
  socket_closed, times_out, step, run, new, settle, set_state, open_new_socket, schedule_reconnect,
  max_reconnect_attempts, close_current, clear_when,
}

abbrev is_timer : Action → Bool
is_timer (start_timer delay) = true
is_timer _ = false

-- The timers of further attempts that are started.
abbrev pub timers : List Action → ℕ
timers [] = 0
timers (x ∷ done) = if is_timer x then suc (timers done) else timers done

-- No socket opens.
abbrev pub StaysShut : Event → Type 0
StaysShut (opened n) = ⊥
StaysShut _ = Unit {0}

timers-append : (a b : List Action) → timers (a ++ b) ≡ timers a + timers b
timers-append [] b = ground arith
timers-append (x ∷ a) b = ground (arith, timers-append a b)

-- The timers that are started are the attempts counted, and the count stays at six or below.
abbrev Counts : ℕ → Client × List Action → Type 0
Counts before (c, done) =
    (c.reconnect_attempts ≡ before + timers done)
    × (before ≤ max_reconnect_attempts → c.reconnect_attempts ≤ max_reconnect_attempts)

settle-Counts : (n : ℕ) (c : Client) → Counts c.reconnect_attempts (settle n (rejects n) c)
unfolding settle
settle-Counts n c = ground arith

schedule_reconnect-Counts : (c : Client) → Counts c.reconnect_attempts (schedule_reconnect c)
unfolding schedule_reconnect set_state
schedule_reconnect-Counts c = ground arith

timers-close_current : (o : Option ℕ) → timers (close_current o) ≡ 0
timers-close_current none = refl
timers-close_current (some n) = refl

timers-clear_when : (b : Bool) → timers (clear_when b) ≡ 0
timers-clear_when b = ground arith

step-Counts : (c : Client) (e : Event) → StaysShut e → Counts c.reconnect_attempts (step c e)
unfolding step set_state open_new_socket
step-Counts c (opened n) h = elim h [ ]
step-Counts c connects h = ground arith
step-Counts c closes h = ground (
  arith,
  timers-append (clear_when c.reconnect_timer) (close_current c.socket),
  timers-clear_when c.reconnect_timer,
  timers-close_current c.socket,
)
step-Counts c timer_fires h = ground arith
step-Counts c (socket_closed n) h =
    let c' = (settle n (rejects n) c).0 in
    elim (Bool-cases c.manually_closed) [
      | inl e ↦ rw e (ground (arith, settle-Counts n (record c { state = closed })))
      | inr e ↦ rw e (
          ground (
            arith,
            timers-append (settle n (rejects n) c).1 (schedule_reconnect c').1,
            settle-Counts n c,
            schedule_reconnect-Counts c',
          ))
    ]
step-Counts c (times_out n) h =
    let (c', done) = settle n (rejects n) c in
    ground (
      arith,
      timers-append (close_current c.socket) done,
      timers-close_current c.socket,
      settle-Counts n c,
    )

run-Counts :
    (c : Client) (es : List Event) → All StaysShut es → Counts c.reconnect_attempts (run c es)
unfolding run
run-Counts c [] h = ground arith
run-Counts c (e ∷ es) (shut, h) =
    let next = (step c e).0 in
    ground (
      arith,
      timers-append (step c e).1 (run next es).1,
      step-Counts c e shut,
      run-Counts next es h,
    )

step_bounded :
    (c : Client) (e : Event)
    → c.reconnect_attempts ≤ max_reconnect_attempts
    → (step c e).0.reconnect_attempts ≤ max_reconnect_attempts
unfolding step settle set_state open_new_socket schedule_reconnect
step_bounded c connects h = ground arith
step_bounded c closes h = ground arith
step_bounded c timer_fires h = ground arith
step_bounded c (opened n) h = ground arith
step_bounded c (socket_closed n) h = ground arith
step_bounded c (times_out n) h = ground arith

run_bounded :
    (c : Client) (es : List Event)
    → c.reconnect_attempts ≤ max_reconnect_attempts
    → (run c es).0.reconnect_attempts ≤ max_reconnect_attempts
unfolding run
run_bounded c [] h = h
run_bounded c (e ∷ es) h = run_bounded (step c e).0 es (step_bounded c e h)

-- A new client after any events, and then events with no socket that opens: every timer for a
-- further attempt that is started meanwhile is counted in `reconnectAttempts`, which nothing sets
-- back; and the ones counted before and those started meanwhile are at most six together.
pub run-timers :
    (before es : List Event)
    → All StaysShut es
    → let c = (run new before).0 in
      ((run c es).0.reconnect_attempts ≡ c.reconnect_attempts + timers (run c es).1)
      × (c.reconnect_attempts + timers (run c es).1 ≤ 6)
run-timers before es h =
    let c = (run new before).0 in
    let counts = run-Counts c es h in
    let bounded = run_bounded new before (omega arith) in
    (counts.0, omega (arith, counts.0, counts.1 bounded))
