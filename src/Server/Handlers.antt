-- ===== src/Server/Handlers.antt =====
-- server/src/signaling/relay.ts: the handlers of a parsed message and of a closed socket. A handler
-- returns the new session manager and what it sends. The texts of the error messages and the log are
-- left out. The clock is read at several places of a handler: a `Moment` holds each reading.
pub mod Agreement
pub mod Scope
pub mod Admission
use file_share_app.Base.{
  ℕ, ◌<◌, Bool, true, false, not, ◌&&◌, ◌||◌, List, [], ◌∷◌, ◌++◌, length, Option, none, some, eqb,
  ltb, Utf16, utf16_eq, units, ◌==◌, if◌then◌else◌,
}
use file_share_app.Shared.Constants.{max_signaling_message_bytes, default_session_timeout_seconds}
use file_share_app.Shared.Json.{Json, null, string, property, is_falsy}
use file_share_app.Shared.Schemas.{
  CreateSessionPayload, create_session_payload, JoinSessionPayload, join_session_payload,
  SdpPayload, sdp_payload, IceCandidatePayload, ice_candidate_payload, is_truthy,
}
use file_share_app.Server.RateLimiter.{RateLimiter, check}
use file_share_app.Server.Sessions.{
  PeerConnection, Session, SessionManager, Draws, create_session, get_by_id, resolve_pairing_code,
  is_expired, join_as_receiver, Role, sender, receiver, find_session_by_socket, destroy, update,
  sweep_expired,
}

pub data ErrorCode : Type 0 where
  invalid_message message_too_large invalid_json internal_error unknown_type : ErrorCode
  invalid_payload invalid_token session_already_joined not_in_session peer_not_connected : ErrorCode

pub data Message : Type 0 where
  error : ErrorCode → Message
  rate_limited session_not_found : Message
  session_created : Utf16 → Utf16 → Utf16 → ℕ → Message
  session_expired peer_left : Utf16 → Message
  session_joined peer_joined : Utf16 → Utf16 → Message
  sdp : Utf16 → Utf16 → SdpPayload → Message
  ice_candidate : Utf16 → IceCandidatePayload → Message

-- What is sent to which socket.
abbrev pub Sent : Type 0
Sent = List (ℕ × Message)

pub record Moment : Type 0 where
  pub is_open : ℕ → Bool
  pub limiter_now : ℕ
  pub lookup_now : ℕ
  pub test_now : ℕ
  pub change_now : ℕ
  pub draws : Draws
  -- For how many draws `createSession` is followed.
  pub draw_limit : ℕ

-- `send`
unfoldable pub send : Moment → ℕ → Message → Sent
send t socket message = if t.is_open socket then (socket, message) ∷ [] else []

abbrev timeout_or_default : Option ℕ → ℕ
timeout_or_default none = default_session_timeout_seconds
timeout_or_default (some seconds) = seconds

created_reply : Moment → ℕ → Option (SessionManager × Session) → Option (SessionManager × Sent)
unfolding send
created_reply t socket none = none
created_reply t socket (some (m, s)) =
    some (m, send t socket (session_created s.id s.token s.pairing_code s.expires_at))

create_with :
    Moment → SessionManager → ℕ → Option CreateSessionPayload → Option (SessionManager × Sent)
unfolding send created_reply
create_with t m socket none = some (m, send t socket (error invalid_payload))
create_with t m socket (some p) = created_reply t socket (
    create_session t.draw_limit t.draws m socket p.display_name
      (timeout_or_default p.timeout_seconds) t.change_now)

-- `none`: `createSession` still draws.
unfoldable pub handle_create_session :
    Moment → SessionManager → ℕ → Option Json → Option (SessionManager × Sent)
unfolding create_with
handle_create_session t m socket payload = create_with t m socket (create_session_payload payload)

abbrev text : Option Utf16 → Utf16
text none = []
text (some s) = s

-- `pairingCode ? resolvePairingCode(pairingCode) : sessionId ? getById(sessionId) : undefined`
unfoldable pub lookup :
    Moment → SessionManager → JoinSessionPayload → SessionManager × Option Session
lookup t m p =
    if is_truthy p.pairing_code
    then resolve_pairing_code m (text p.pairing_code) t.lookup_now
    else if is_truthy p.session_id
    then get_by_id m (text p.session_id) t.lookup_now
    else (m, none)

abbrev name_of : Option PeerConnection → Utf16
name_of none = units "Unknown device"
name_of (some p) = p.display_name

to_peer : Moment → Option PeerConnection → Message → Sent
unfolding send
to_peer t none message = []
to_peer t (some p) message = send t p.socket message

-- `sessionId && token && session.token !== token`
unfoldable pub wrong_token : JoinSessionPayload → Session → Bool
wrong_token p s = is_truthy p.session_id && (is_truthy p.token && not (s.token == text p.token))

join_found :
    Moment → ℕ → JoinSessionPayload → SessionManager × Option Session → SessionManager × Sent
unfolding send to_peer wrong_token
join_found t socket p (m, none) = (m, send t socket session_not_found)
join_found t socket p (m, some s) =
    if is_expired t.test_now s
    then (m, send t socket (session_expired s.id))
    else if wrong_token p s
    then (m, send t socket (error invalid_token))
    else if s.consumed
    then (m, send t socket (error session_already_joined))
    else (
      join_as_receiver m s socket p.display_name t.change_now,
      send t socket (session_joined s.id (name_of s.sender))
          ++ to_peer t s.sender (peer_joined s.id p.display_name),
    )

join_with : Moment → SessionManager → ℕ → Option JoinSessionPayload → SessionManager × Sent
unfolding send join_found lookup
join_with t m socket none = (m, send t socket (error invalid_payload))
join_with t m socket (some p) = join_found t socket p (lookup t m p)

unfoldable pub handle_join_session :
    Moment → SessionManager → ℕ → Option Json → SessionManager × Sent
unfolding join_with
handle_join_session t m socket payload = join_with t m socket (join_session_payload payload)

-- `found.role === "sender" ? found.session.receiver : found.session.sender`
unfoldable pub other_peer : Session → Role → Option PeerConnection
other_peer s sender = s.receiver
other_peer s receiver = s.sender

-- `found.session.id !== envelope.sessionId` for any value of the latter.
abbrev pub is_id : Utf16 → Option Json → Bool
is_id id (some (string s)) = id == s
is_id id _ = false

-- `missing` is what is sent when the other peer is not there.
relay_to : Moment → Sent → Message → Option PeerConnection → Sent
unfolding send
relay_to t missing message none = missing
relay_to t missing message (some p) = send t p.socket message

relay_found : Moment → ℕ → Option Json → Sent → (Utf16 → Message) → Option (Session × Role) → Sent
unfolding send relay_to other_peer
relay_found t socket session_id missing message none = send t socket (error not_in_session)
relay_found t socket session_id missing message (some (s, role)) =
    if is_id s.id session_id
    then relay_to t missing (message s.id) (other_peer s role)
    else send t socket (error not_in_session)

relay_sdp : Moment → SessionManager → ℕ → Utf16 → Option Json → Option SdpPayload → Sent
unfolding send relay_found
relay_sdp t m socket kind session_id none = send t socket (error invalid_payload)
relay_sdp t m socket kind session_id (some p) =
    if is_falsy session_id
    then send t socket (error invalid_payload)
    else relay_found t socket session_id (send t socket (error peer_not_connected))
        (λ id. sdp kind id p) (find_session_by_socket m socket)

unfoldable pub handle_sdp_relay :
    Moment → SessionManager → ℕ → Utf16 → Option Json → Option Json → Sent
unfolding relay_sdp
handle_sdp_relay t m socket kind session_id payload =
    relay_sdp t m socket kind session_id (sdp_payload payload)

relay_ice : Moment → SessionManager → ℕ → Option Json → Option IceCandidatePayload → Sent
unfolding send relay_found
relay_ice t m socket session_id none = send t socket (error invalid_payload)
relay_ice t m socket session_id (some p) =
    if is_falsy session_id
    then send t socket (error invalid_payload)
    else relay_found t socket session_id [] (λ id. ice_candidate id p)
        (find_session_by_socket m socket)

unfoldable pub handle_ice_relay : Moment → SessionManager → ℕ → Option Json → Option Json → Sent
unfolding relay_ice
handle_ice_relay t m socket session_id payload =
    relay_ice t m socket session_id (ice_candidate_payload payload)

-- `sender = null` and `destroy`, or `receiver = null` and `consumed = false`.
leave : SessionManager → Session → Role → SessionManager
leave m s sender = destroy (update m (record s { sender = none })) s.id
leave m s receiver = update m (record s { receiver = none; consumed = false })

leave_found : Moment → SessionManager → Option (Session × Role) → SessionManager × Sent
unfolding leave to_peer other_peer
leave_found t m none = (m, [])
leave_found t m (some (s, role)) = (leave m s role, to_peer t (other_peer s role) (peer_left s.id))

unfoldable pub handle_disconnect : Moment → SessionManager → ℕ → SessionManager × Sent
unfolding leave_found
handle_disconnect t m socket = leave_found t m (find_session_by_socket m socket)
