-- ===== src/Server/Relay/Reachable.antt =====
-- What holds of the server after any events.
use mathlib.Core.Option.{some-injective}
use file_share_app.Base.{
  ℕ, ◌≡◌, refl, ap, subst, Bool, true, false, List, length, ltb, Option, none, some, utf16_eq,
  units, if◌then◌else◌, ◌==◌,
}
use file_share_app.Shared.Constants.{max_signaling_message_bytes}
use file_share_app.Shared.Json.{Json, string}
use file_share_app.Server.RateLimiter
use file_share_app.Server.Sessions
use file_share_app.Server.RateLimiter.{RateLimiter, check}
use file_share_app.Server.Sessions.{SessionManager, sweep_expired}
use file_share_app.Server.Sessions.Consistent.{
  IsConsistent, new-IsConsistent, sweep_expired-IsConsistent,
}
use file_share_app.Server.Handlers.{Moment, Sent}
use file_share_app.Server.Handlers.Agreement.{
  handle_create_session-IsConsistent, handle_join_session-IsConsistent,
  handle_disconnect-IsConsistent,
}
use file_share_app.Server.Relay.{
  Server, route_type, route, with_limiter, handle_message, Event, message, close, sweep, step,
}

-- The result of a handler, when there is one, keeps the maps in agreement.
abbrev Keeps : Option (SessionManager × Sent) → Type 0
Keeps o = (m : SessionManager) (sent : Sent) → o ≡ some (m, sent) → IsConsistent m

Keeps-same : (m : SessionManager) (sent : Sent) → IsConsistent m → Keeps (some (m, sent))
Keeps-same m sent h m' sent' e = subst IsConsistent (ap (λ q. q.0) (some-injective _ _ e)) h

if-Keeps :
    (b : Bool) (x y : Option (SessionManager × Sent))
    → Keeps x
    → Keeps y
    → Keeps (if b then x else y)
if-Keeps true x y p q = p
if-Keeps false x y p q = q

route_type-Keeps :
    (t : Moment) (m : SessionManager) (socket : ℕ) (kind : Option Json) (envelope : Json)
    → IsConsistent m
    → Keeps (route_type t m socket kind envelope)
unfolding route_type
route_type-Keeps t m socket (some (string kind)) envelope h =
    if-Keeps (kind == units "CREATE_SESSION") _ _
      (λ m' sent. handle_create_session-IsConsistent t m m' socket _ sent h)
      (if-Keeps (kind == units "JOIN_SESSION") _ _
        (Keeps-same _ _ (handle_join_session-IsConsistent t m socket _ h))
        (if-Keeps (kind == units "OFFER") _ _ (Keeps-same m _ h) (
          if-Keeps (kind == units "ANSWER") _ _ (Keeps-same m _ h)
            (if-Keeps (kind == units "ICE_CANDIDATE") _ _ (Keeps-same m _ h) (Keeps-same m _ h)))))
route_type-Keeps t m socket _ envelope h = Keeps-same m _ h

route-Keeps :
    (t : Moment) (m : SessionManager) (socket : ℕ) (parsed : Option Json)
    → IsConsistent m
    → Keeps (route t m socket parsed)
unfolding route
route-Keeps t m socket none h = Keeps-same m _ h
route-Keeps t m socket (some Json.null) h = Keeps-same m _ h
route-Keeps t m socket (some envelope) h = route_type-Keeps t m socket _ envelope h

-- The same of a result with the limiter beside it.
abbrev KeepsServer : Option (Server × Sent) → Type 0
KeepsServer o = (v : Server) (sent : Sent) → o ≡ some (v, sent) → IsConsistent v.sessions

server_keeps : (v : Server) (sent : Sent) → IsConsistent v.sessions → KeepsServer (some (v, sent))
server_keeps v sent h v' sent' e =
    subst (λ w. IsConsistent w.sessions) (ap (λ q. q.0) (some-injective _ _ e)) h

with_limiter-KeepsServer :
    (limiter : RateLimiter) (o : Option (SessionManager × Sent))
    → Keeps o
    → KeepsServer (with_limiter limiter o)
unfolding with_limiter
with_limiter-KeepsServer limiter none k = λ v sent e. cc
with_limiter-KeepsServer limiter (some (m, told)) k = server_keeps _ told (k m told refl)

if-KeepsServer :
    (b : Bool) (x y : Option (Server × Sent))
    → KeepsServer x
    → KeepsServer y
    → KeepsServer (if b then x else y)
if-KeepsServer true x y p q = p
if-KeepsServer false x y p q = q

module _ (parse : List ℕ → Option Json) where
  step-KeepsServer :
      (t : Moment) (v : Server) (e : Event parse)
      → IsConsistent v.sessions
      → KeepsServer (step parse t v e)
  unfolding step handle_message
  step-KeepsServer t v (message socket ip is_binary raw) h =
      if-KeepsServer is_binary _ _ (server_keeps v _ h) (
        if-KeepsServer (ltb max_signaling_message_bytes (length raw)) _ _ (server_keeps v _ h) (
          if-KeepsServer (check v.rate_limiter ip t.limiter_now).1 _ _
            (with_limiter-KeepsServer _ _ (route-Keeps t v.sessions socket (parse raw) h))
            (server_keeps _ _ h)))
  step-KeepsServer t v (close socket) h =
      server_keeps _ _ (handle_disconnect-IsConsistent t v.sessions socket h)
  step-KeepsServer t v sweep h =
      server_keeps _ _ (sweep_expired-IsConsistent t.is_open t.change_now v.sessions h)

  -- The states of a server that began empty, after events at any moments.
  pub data Reached : Server → Type 0 where
    fresh :
        (window_ms max_hits : ℕ)
        → Reached
            (record { sessions = Sessions.new; rate_limiter = RateLimiter.new window_ms max_hits })
    later :
        {v : Server}
        → Reached v
        → (t : Moment) (e : Event parse) (v' : Server) (sent : Sent)
        → step parse t v e ≡ some (v', sent)
        → Reached v'

  -- After any events, in any order and with any sockets open or closed: every session stands under
  -- its own id, its pairing code leads to that id, every pairing code leads to a session that has
  -- it, a session that has a receiver is consumed, and no id stands twice.
  pub reached-IsConsistent : {v : Server} → Reached v → IsConsistent v.sessions
  reached-IsConsistent (fresh window_ms max_hits) = new-IsConsistent
  reached-IsConsistent (later {v} r t e v' sent p) =
      step-KeepsServer t v e (reached-IsConsistent r) v' sent p
