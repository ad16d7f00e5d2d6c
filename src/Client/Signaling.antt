-- ===== src/Client/Signaling.antt =====
-- client/src/services/signaling/SignalingClient.ts as a state machine. The calls of `connect` and
-- `close` and the events of sockets and timers are the steps; what a step does to the outside is
-- its list of actions. A socket is the number of the attempt that opened it. The listeners of
-- messages stand in Listeners, and the message of an error is not kept.
pub mod Attempts
pub mod Listeners
use file_share_app.Base.{
  ℕ, suc, ◌+◌, ◌*◌, ◌^◌, min, Bool, true, false, List, [], ◌∷◌, ◌++◌, Option, none, some, eqb, ltb,
  leb, if◌then◌else◌,
}

abbrev pub reconnect_base_delay_ms : ℕ
reconnect_base_delay_ms = 1000

abbrev pub reconnect_max_delay_ms : ℕ
reconnect_max_delay_ms = 10000

abbrev pub max_reconnect_attempts : ℕ
max_reconnect_attempts = 6

abbrev pub connect_timeout_ms : ℕ
connect_timeout_ms = 10000

pub data ConnectionState : Type 0 where
  idle connecting is_open reconnecting closed : ConnectionState

-- What the client does: open a socket with its timeout, close a socket, settle the promise of an
-- attempt, start or clear the timer of the next attempt, and tell the state listeners.
pub data Action : Type 0 where
  open_socket close_socket resolves rejects : ℕ → Action
  start_timer : ℕ → Action
  clear_timer : Action
  tells : ConnectionState → Action

pub record Client : Type 0 where
  pub socket : Option ℕ
  pub state : ConnectionState
  pub reconnect_attempts : ℕ
  pub manually_closed : Bool
  -- Whether a timer was ever started: it is not forgotten when it fires.
  pub reconnect_timer : Bool
  -- The attempts so far, and those whose promise is settled.
  pub attempts : ℕ
  pub settled : List ℕ

abbrev pub new : Client
new = record {
  socket = none;
  state = idle;
  reconnect_attempts = 0;
  manually_closed = false;
  reconnect_timer = false;
  attempts = 0;
  settled = [];
}

abbrev has_settled : List ℕ → ℕ → Bool
has_settled [] n = false
has_settled (m ∷ ms) n = if eqb m n then true else has_settled ms n

-- `setState`
unfoldable pub set_state : ConnectionState → Client → Client × List Action
set_state s c = (record c { state = s }, tells s ∷ [])

-- `settle`: the first one counts.
unfoldable pub settle : ℕ → Action → Client → Client × List Action
settle n outcome c =
    if has_settled c.settled n
    then (c, [])
    else (record c { settled = n ∷ c.settled }, outcome ∷ [])

-- `openSocket`; the constructor of WebSocket does not throw.
unfoldable pub open_new_socket : Client → Client × List Action
unfolding set_state
open_new_socket c =
    let (c', told) =
      set_state (if ltb 0 c.reconnect_attempts then reconnecting else connecting) c in
    (
      record c' { socket = some c.attempts; attempts = suc c.attempts },
      told ++ open_socket c.attempts ∷ [],
    )

-- `scheduleReconnect`
unfoldable pub schedule_reconnect : Client → Client × List Action
unfolding set_state
schedule_reconnect c =
    if leb max_reconnect_attempts c.reconnect_attempts then set_state closed c else (
      record c {
        state = reconnecting;
        reconnect_attempts = c.reconnect_attempts + 1;
        reconnect_timer = true;
      },
      tells reconnecting
          ∷ start_timer
              (min (reconnect_base_delay_ms * 2 ^ c.reconnect_attempts) reconnect_max_delay_ms)
          ∷ [],
    )

abbrev close_current : Option ℕ → List Action
close_current none = []
close_current (some n) = close_socket n ∷ []

abbrev clear_when : Bool → List Action
clear_when b = if b then clear_timer ∷ [] else []

pub data Event : Type 0 where
  connects closes timer_fires : Event
  opened socket_closed times_out : ℕ → Event

-- One step; `connect` is called with a URL.
unfoldable pub step : Client → Event → Client × List Action
unfolding open_new_socket set_state settle schedule_reconnect
step c connects = open_new_socket (record c { manually_closed = false })
step c timer_fires = open_new_socket c
step c (opened n) =
    let (c', told) = set_state is_open (record c { reconnect_attempts = 0 }) in
    let (c'', done) = settle n (resolves n) c' in (c'', told ++ done)
step c (socket_closed n) =
    let (closed_by_user, told) = set_state closed c in
    let (c', done) = settle n (rejects n) closed_by_user in
    let (d, rejected) = settle n (rejects n) c in
    let (d', scheduled) = schedule_reconnect d in
    if c.manually_closed then (c', told ++ done) else (d', rejected ++ scheduled)
step c (times_out n) =
    let (c', done) = settle n (rejects n) c in (c', close_current c.socket ++ done)
step c closes = (
  record c { manually_closed = true; socket = none },
  clear_when c.reconnect_timer ++ close_current c.socket,
)

unfoldable pub run : Client → List Event → Client × List Action
run c [] = (c, [])
run c (e ∷ es) = let (c', done) = step c e in let (c'', later) = run c' es in (c'', done ++ later)
