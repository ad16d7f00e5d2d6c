-- ===== src/Server/Relay.antt =====
-- server/src/signaling/relay.ts: the guards before the handlers, and the events of the server.
-- `JSON.parse(raw.toString("utf8"))` is the parameter `parse`, which is `none` when it throws.
pub mod Reachable
use file_share_app.Base.{
  ℕ, ltb, Bool, true, false, List, [], ◌∷◌, length, Option, none, some, Utf16, utf16_eq, units,
  ◌==◌, if◌then◌else◌,
}
use file_share_app.Shared.Constants.{max_signaling_message_bytes}
use file_share_app.Shared.Json.{Json, null, string, property}
use file_share_app.Server.RateLimiter
use file_share_app.Server.RateLimiter.{RateLimiter, check}
use file_share_app.Server.Sessions.{SessionManager, sweep_expired}
use file_share_app.Server.Handlers.{
  Moment, Sent, Message, send, error, rate_limited, invalid_message, message_too_large,
  invalid_json, internal_error, unknown_type, handle_create_session, handle_join_session,
  handle_sdp_relay, handle_ice_relay, handle_disconnect, session_expired,
}

pub record Server : Type 0 where
  pub sessions : SessionManager
  pub rate_limiter : RateLimiter

-- The switch on `envelope.type`.
unfoldable pub route_type :
    Moment → SessionManager → ℕ → Option Json → Json → Option (SessionManager × Sent)
route_type t m socket (some (string kind)) envelope =
    let payload = property (units "payload") envelope in
    let session_id = property (units "sessionId") envelope in
    if kind == units "CREATE_SESSION"
    then handle_create_session t m socket payload
    else if kind == units "JOIN_SESSION"
    then some (handle_join_session t m socket payload)
    else if kind == units "OFFER"
    then some (m, handle_sdp_relay t m socket kind session_id payload)
    else if kind == units "ANSWER"
    then some (m, handle_sdp_relay t m socket kind session_id payload)
    else if kind == units "ICE_CANDIDATE"
    then some (m, handle_ice_relay t m socket session_id payload)
    else some (m, send t socket (error unknown_type))
route_type t m socket _ envelope = some (m, send t socket (error unknown_type))

-- Reading `type` of null throws, which the caller reports as INTERNAL_ERROR.
unfoldable pub route : Moment → SessionManager → ℕ → Option Json → Option (SessionManager × Sent)
unfolding route_type
route t m socket none = some (m, send t socket (error invalid_json))
route t m socket (some null) = some (m, send t socket (error internal_error))
route t m socket (some envelope) = route_type t m socket (property (units "type") envelope) envelope

with_limiter : RateLimiter → Option (SessionManager × Sent) → Option (Server × Sent)
with_limiter limiter none = none
with_limiter limiter (some (m, sent)) = some (record { sessions = m; rate_limiter = limiter }, sent)

module _ (parse : List ℕ → Option Json) where
  -- The handler of `message`, for the address of the connection.
  unfoldable pub handle_message :
      Moment → Server → ℕ → Utf16 → Bool → List ℕ → Option (Server × Sent)
  unfolding with_limiter
  handle_message t v socket ip is_binary raw =
      if is_binary
      then some (v, send t socket (error invalid_message))
      else if ltb max_signaling_message_bytes (length raw)
      then some (v, send t socket (error message_too_large))
      else let (limiter, allowed) = check v.rate_limiter ip t.limiter_now in
        if allowed
        then with_limiter limiter (route t v.sessions socket (parse raw))
        else some (record v { rate_limiter = limiter }, send t socket rate_limited)

  pub data Event : Type 0 where
    message : ℕ → Utf16 → Bool → List ℕ → Event
    close : ℕ → Event
    sweep : Event

  abbrev expiries : List (ℕ × Utf16) → Sent
  expiries [] = []
  expiries ((socket, id) ∷ rest) = (socket, session_expired id) ∷ expiries rest

  -- One event of the server: a message, a closed socket, or the timer's sweep (server/src/server.ts).
  unfoldable pub step : Moment → Server → Event → Option (Server × Sent)
  unfolding handle_message
  step t v (message socket ip is_binary raw) = handle_message t v socket ip is_binary raw
  step t v (close socket) =
      let (m, sent) = handle_disconnect t v.sessions socket in
      some (record v { sessions = m }, sent)
  step t v sweep =
      let (m, told) = sweep_expired t.is_open t.change_now v.sessions in
      some (
        record { sessions = m; rate_limiter = RateLimiter.sweep v.rate_limiter t.limiter_now },
        expiries told,
      )
