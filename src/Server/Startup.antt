-- ===== src/Server/Startup.antt =====
-- server/src/server.ts: the upgrade to a WebSocket, the sweep and the heartbeat of the connections.
-- A socket is a number; `wss.clients` is a map from the sockets to `isAlive`, and what closes leaves
-- it.
pub mod Heartbeat
use file_share_app.Base.{
  ℕ, Bool, true, false, List, [], ◌∷◌, Option, none, some, Utf16, nat_eq, if◌then◌else◌, is_some,
}
use file_share_app.Base.Dict.{Dict, get, set, delete}
use file_share_app.Server.Origin.{is_origin_allowed}
use file_share_app.Server.RateLimiter
use file_share_app.Server.RateLimiter.{RateLimiter, check, sweep}
use file_share_app.Server.Sessions.{SessionManager, sweep_expired}

abbrev pub connection_rate_limit_max : ℕ
connection_rate_limit_max = 20

-- The handler of `upgrade`: whether the connection is taken, with the limiter after it.
unfoldable pub upgrade : List Utf16 → Option Utf16 → Utf16 → ℕ → RateLimiter → RateLimiter × Bool
upgrade allowed origin ip now limiter =
    if is_origin_allowed origin allowed then check limiter ip now else (limiter, false)

pub data Effect : Type 0 where
  terminates pings : ℕ → Effect

-- What the timer of the sweep runs: the sessions, the messages' limiter and the connections' limiter
-- after it, with the messages sent.
unfoldable pub on_sweep_timer :
    (ℕ → Bool)
    → ℕ
    → SessionManager
    → RateLimiter
    → RateLimiter
    → SessionManager × RateLimiter × RateLimiter × List (ℕ × Utf16)
on_sweep_timer is_open now sessions messages connections =
    let (sessions', told) = sweep_expired is_open now sessions in
    (sessions', sweep messages now, sweep connections now, told)

-- One round of the heartbeat over the clients.
unfoldable pub beat : Dict ℕ Bool → Dict ℕ Bool × List Effect
beat [] = ([], [])
beat ((ws, true) ∷ clients) =
    let (rest, effects) = beat clients in ((ws, false) ∷ rest, pings ws ∷ effects)
beat ((ws, false) ∷ clients) =
    let (rest, effects) = beat clients in ((ws, false) ∷ rest, terminates ws ∷ effects)

-- `ws.on("pong")`, for a socket that is still there.
unfoldable pub pong : ℕ → Dict ℕ Bool → Dict ℕ Bool
pong ws clients = if is_some (get ws clients) then set ws true clients else clients

pub data Event : Type 0 where
  connects pongs closes : ℕ → Event

-- What happens between two rounds.
unfoldable pub step : Dict ℕ Bool → Event → Dict ℕ Bool
unfolding pong
step clients (connects ws) = set ws true clients
step clients (pongs ws) = pong ws clients
step clients (closes ws) = delete ws clients

unfoldable pub run : Dict ℕ Bool → List Event → Dict ℕ Bool
run clients [] = clients
run clients (e ∷ es) = run (step clients e) es
