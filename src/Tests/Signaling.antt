-- ===== src/Tests/Signaling.antt =====
-- The signaling server at concrete inputs: a sender with socket 1 and a receiver with socket 2.
use file_share_app.Base.{
  ℕ, ◌≡◌, refl, inl, true, false, List, [], ◌∷◌, Option, none, some, utf16_eq, utf16_beq, units,
  arith,
}
use file_share_app.Base.Dict.{get, set, delete}
use file_share_app.Shared.Json.{Json, nil, field, string, object, get_field, property, is_falsy}
use file_share_app.Shared.Schemas.{
  JoinSessionPayload, join_session_payload, sdp_payload, create_session_payload, bounded_string,
  bounded_number, optional, sdp_type, has_credentials,
}
use file_share_app.Server.Ids.{generate_session_id, generate_pairing_code}
use file_share_app.Server.RateLimiter
use file_share_app.Server.Sessions
use file_share_app.Server.Sessions.{
  Session, SessionManager, Draws, created, create_session, get_by_id, resolve_pairing_code,
  is_expired, join_as_receiver, sweep_expired, find_by_socket, update, destroy,
}
use file_share_app.Server.Sessions.Consistent.{IsConsistent}
use file_share_app.Server.Sessions.Created.{create_session-resolve}
use file_share_app.Server.Sessions.Swept.{if_live, told, owed, sweep_expired_lem}
use file_share_app.Server.Handlers.{
  Moment, Sent, session_created, send, handle_create_session, handle_join_session, handle_sdp_relay,
  lookup, wrong_token,
}
use file_share_app.Server.Handlers.Agreement.{handle_join_session-IsConsistent}
use file_share_app.Server.Handlers.Admission.{Knows, handle_join_session-joined}
use file_share_app.Server.Handlers.Scope.{ArePeers, handle_sdp_relay-ArePeers}
use file_share_app.Server.Relay.{Server, message, step, handle_message, route, route_type}
use file_share_app.Server.Relay.Reachable.{Reached, reached-IsConsistent}

signaling : Unit {0}
unfolding step handle_message route route_type handle_create_session handle_join_session
    handle_sdp_relay lookup wrong_token send get set delete utf16_beq get_field property is_falsy
    join_session_payload sdp_payload create_session_payload bounded_string bounded_number optional
    sdp_type has_credentials generate_session_id generate_pairing_code create_session get_by_id
    resolve_pairing_code is_expired join_as_receiver update destroy find_by_socket RateLimiter.check
signaling = tt

abbrev draws : Draws
draws = record {
  id_bytes = λ n. n ∷ 1 ∷ [];
  code_bytes = λ n. n ∷ 2 ∷ 3 ∷ 4 ∷ [];
  token = units "abcdefghijklmnop";
}

abbrev moment : Moment
moment = record {
  is_open = λ socket. true;
  limiter_now = 5;
  lookup_now = 6;
  test_now = 7;
  change_now = 8;
  draws = draws;
  draw_limit = 3;
}

abbrev create_message : Json
create_message = object (
    field (units "type") (string (units "CREATE_SESSION"))
      (field (units "payload") (object (field (units "displayName") (string (units "A")) nil)) nil))

abbrev join_payload : Option Json
join_payload = some (
    object (
      field (units "pairingCode") (string (units "0234"))
        (field (units "displayName") (string (units "B")) nil)))

abbrev first_session : Session
first_session = created 1 (units "A") 1800 8 (units "abcdefghijklmnop") (units "AB") (units "0234")

abbrev parse : List ℕ → Option Json
parse raw = some create_message

abbrev empty_server : Server
empty_server = record { sessions = Sessions.new; rate_limiter = RateLimiter.new 10000 100 }

abbrev one_session : SessionManager
one_session = record {
  sessions_by_id = (units "AB", first_session) ∷ [];
  session_id_by_pairing_code = (units "0234", units "AB") ∷ [];
}

abbrev server_with_session : Server
server_with_session = record {
  sessions = one_session;
  rate_limiter = record { hits = (units "ip", 5 ∷ []) ∷ []; window_ms = 10000; max_hits = 100 };
}

abbrev created_sent : Sent
created_sent =
    (1, session_created (units "AB") (units "abcdefghijklmnop") (units "0234") 1800008) ∷ []

first_step :
    step parse moment empty_server (message 1 (units "ip") false (0 ∷ []))
    ≡ some (server_with_session, created_sent)
unfolding signaling
first_step = refl

first_Reached : Reached parse server_with_session
first_Reached =
    Reached.later (Reached.fresh 10000 100) moment (message 1 (units "ip") false (0 ∷ []))
      server_with_session created_sent first_step

reached-IsConsistent_example : IsConsistent one_session
reached-IsConsistent_example = reached-IsConsistent parse first_Reached

one_session-IsConsistent : IsConsistent one_session
one_session-IsConsistent = reached-IsConsistent parse first_Reached

create_session-resolve_example :
    (m : SessionManager) × (s : Session) × (create_session 3 draws one_session 3 (units "C") 600 100
      ≡ some (m, s))
    × IsConsistent m
    × (get_by_id m s.id 200 ≡ (m, some s))
    × (resolve_pairing_code m s.pairing_code 200 ≡ (m, some s))
unfolding signaling
create_session-resolve_example =
    create_session-resolve 3 draws one_session 3 (units "C") 600 100 1 2 200
      one_session-IsConsistent (λ n. omega arith) (omega arith) (omega arith) refl refl
      (omega arith)

abbrev sessions_of : Option (SessionManager × Session) → SessionManager
sessions_of none = Sessions.new
sessions_of (some (m, s)) = m

-- The first draws of an id and of a code were taken.
second_session :
    get
      (units "BB")
      (sessions_of (create_session 3 draws one_session 3 (units "C") 600 100)).sessions_by_id
    ≡ some (created 3 (units "C") 600 100 (units "abcdefghijklmnop") (units "BB") (units "1234"))
unfolding signaling
second_session = refl

-- Socket 1 is the sender of the only session, which expires at 1800008.
sweep_expired_lem_example :
    (get (units "AB") (sweep_expired (λ socket. true) 1800009 one_session).0.sessions_by_id
      ≡ if_live 1800009 (get (units "AB") one_session.sessions_by_id))
    × (told 1 (units "AB") (sweep_expired (λ socket. true) 1800009 one_session).1
        ≡ owed (λ socket. true) 1800009 1 (get (units "AB") one_session.sessions_by_id))
sweep_expired_lem_example =
    sweep_expired_lem (λ socket. true) 1800009 one_session (units "AB") 1 one_session-IsConsistent

owed_once : owed (λ socket. true) 1800009 1 (get (units "AB") one_session.sessions_by_id) ≡ 1
unfolding get utf16_beq
owed_once = refl

handle_join_session-joined_example :
    (p : JoinSessionPayload) × (s : Session) × (join_session_payload join_payload ≡ some p)
    × (get (units "AB") one_session.sessions_by_id ≡ some s)
    × (s.consumed ≡ false)
    × (is_expired 7 s ≡ false)
    × Knows p s
    × ((handle_join_session moment one_session 2 join_payload).0
        ≡ join_as_receiver one_session s 2 p.display_name 8)
unfolding signaling
handle_join_session-joined_example =
    handle_join_session-joined moment one_session 2 2 join_payload (units "AB") (units "A")
      one_session-IsConsistent (inl refl)

abbrev joined : SessionManager
joined = record one_session {
  sessions_by_id =
      (
        units "AB",
        record first_session {
          consumed = true;
          receiver = some (record { socket = 2; display_name = units "B"; joined_at = 8 });
        },
      )
      ∷ [];
}

joined-IsConsistent : IsConsistent joined
unfolding signaling
joined-IsConsistent =
    handle_join_session-IsConsistent moment one_session 2 join_payload one_session-IsConsistent

abbrev offer_payload : Option Json
offer_payload =
    some (
      object (field (units "sdp") (object (field (units "type") (string (units "offer")) nil)) nil))

handle_sdp_relay-ArePeers_example :
    ArePeers joined (some (string (units "AB"))) 1 2
    × (sdp_payload offer_payload ≡ some (record { kind = units "offer"; sdp = none }))
    × (units "OFFER" ≡ units "OFFER")
    × (◌≡◌ {A = Option Json} (some (string (units "AB"))) (some (string (units "AB"))))
unfolding signaling
handle_sdp_relay-ArePeers_example =
    handle_sdp_relay-ArePeers moment joined 1 2 (units "OFFER") (units "OFFER") (units "AB")
      (some (string (units "AB"))) offer_payload (record { kind = units "offer"; sdp = none })
      joined-IsConsistent (inl refl)
