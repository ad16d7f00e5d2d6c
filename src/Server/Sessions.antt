-- ===== src/Server/Sessions.antt =====
-- server/src/sessions/sessionManager.ts. Sockets are numbers and stand for the objects; a session
-- that a caller changes in place is the entry of its id, which is set anew. `Date.now()` is the
-- argument `now`; the log is left out.
pub mod Consistent
pub mod Created
pub mod Swept
pub mod Found
use file_share_app.Base.{
  ℕ, zero, suc, ◌+◌, ◌*◌, Bool, true, false, not, ◌&&◌, List, [], ◌∷◌, ◌++◌, map, length, Option,
  none, some, eqb, ltb, Utf16, utf16_eq, if◌then◌else◌,
}
use file_share_app.Base.Dict.{Dict, get, set, delete, has, values}
use file_share_app.Server.Ids.{generate_session_id, generate_pairing_code}

pub record PeerConnection : Type 0 where
  pub socket : ℕ
  pub display_name : Utf16
  pub joined_at : ℕ

pub record Session : Type 0 where
  pub id : Utf16
  pub token : Utf16
  pub pairing_code : Utf16
  pub created_at : ℕ
  pub expires_at : ℕ
  pub consumed : Bool
  pub sender : Option PeerConnection
  pub receiver : Option PeerConnection

pub record SessionManager : Type 0 where
  pub sessions_by_id : Dict Utf16 Session
  pub session_id_by_pairing_code : Dict Utf16 Utf16

abbrev pub new : SessionManager
new = record { sessions_by_id = []; session_id_by_pairing_code = [] }

-- What the random source gives to one call of `createSession`: the bytes of each draw of an id and
-- of a pairing code, and the token.
pub record Draws : Type 0 where
  pub id_bytes : ℕ → List ℕ
  pub code_bytes : ℕ → List ℕ
  pub token : Utf16

-- `let x = draw(); while (taken(x)) x = draw()`, for at most so many draws.
pub draw_free : ℕ → (Utf16 → Bool) → (ℕ → Utf16) → ℕ → Option Utf16
draw_free zero taken draw i = none
draw_free (suc draws) taken draw i =
    let later = draw_free draws taken draw (suc i) in
    if taken (draw i) then later else some (draw i)

-- The session of `createSession`, put into both maps.
pub add_session : SessionManager → Session → SessionManager
add_session m s = record {
  sessions_by_id = set s.id s m.sessions_by_id;
  session_id_by_pairing_code = set s.pairing_code s.id m.session_id_by_pairing_code;
}

abbrev pub created : ℕ → Utf16 → ℕ → ℕ → Utf16 → Utf16 → Utf16 → Session
created sender display_name timeout_seconds now token id pairing_code = record {
  id = id;
  token = token;
  pairing_code = pairing_code;
  created_at = now;
  expires_at = now + timeout_seconds * 1000;
  consumed = false;
  sender = some (record { socket = sender; display_name = display_name; joined_at = now });
  receiver = none;
}

add_drawn :
    SessionManager
    → (Utf16 → Utf16 → Session)
    → Option Utf16
    → Option Utf16
    → Option (SessionManager × Session)
unfolding add_session
add_drawn m make (some id) (some code) = some (add_session m (make id code), make id code)
add_drawn m make _ _ = none

-- `none`: still drawing after so many draws.
unfoldable pub create_session :
    ℕ → Draws → SessionManager → ℕ → Utf16 → ℕ → ℕ → Option (SessionManager × Session)
unfolding draw_free add_drawn
create_session draws d m sender display_name timeout_seconds now =
    add_drawn m (created sender display_name timeout_seconds now d.token)
      (draw_free draws (λ id. has id m.sessions_by_id) (λ i. generate_session_id (d.id_bytes i)) 0)
      (draw_free draws (λ code. has code m.session_id_by_pairing_code)
        (λ i. generate_pairing_code (d.code_bytes i)) 0)

unfoldable pub is_expired : ℕ → Session → Bool
is_expired now s = ltb s.expires_at now

destroy_found : SessionManager → Utf16 → Option Session → SessionManager
destroy_found m id none = m
destroy_found m id (some s) = record {
  sessions_by_id = delete id m.sessions_by_id;
  session_id_by_pairing_code = delete s.pairing_code m.session_id_by_pairing_code;
}

unfoldable pub destroy : SessionManager → Utf16 → SessionManager
unfolding destroy_found
destroy m id = destroy_found m id (get id m.sessions_by_id)

get_unexpired : SessionManager → ℕ → Option Session → SessionManager × Option Session
unfolding is_expired
get_unexpired m now none = (m, none)
get_unexpired m now (some s) = if is_expired now s then (destroy m s.id, none) else (m, some s)

unfoldable pub get_by_id : SessionManager → Utf16 → ℕ → SessionManager × Option Session
unfolding get_unexpired
get_by_id m id now = get_unexpired m now (get id m.sessions_by_id)

-- `if (!id) return undefined`: an empty id is none.
get_by_code : SessionManager → ℕ → Option Utf16 → SessionManager × Option Session
get_by_code m now none = (m, none)
get_by_code m now (some []) = (m, none)
get_by_code m now (some (u ∷ id)) = get_by_id m (u ∷ id) now

unfoldable pub resolve_pairing_code : SessionManager → Utf16 → ℕ → SessionManager × Option Session
unfolding get_by_code
resolve_pairing_code m code now = get_by_code m now (get code m.session_id_by_pairing_code)

-- An entry changed in place.
unfoldable pub update : SessionManager → Session → SessionManager
update m s = record m { sessions_by_id = set s.id s m.sessions_by_id }

unfoldable pub join_as_receiver : SessionManager → Session → ℕ → Utf16 → ℕ → SessionManager
unfolding update
join_as_receiver m s socket display_name now = update m (record s {
  receiver = some (record { socket = socket; display_name = display_name; joined_at = now });
  consumed = true;
})

pub data Role : Type 0 where
  sender receiver : Role

abbrev pub is_socket : ℕ → Option PeerConnection → Bool
is_socket socket none = false
is_socket socket (some p) = eqb p.socket socket

unfoldable pub find_by_socket : Dict Utf16 Session → ℕ → Option (Session × Role)
find_by_socket [] socket = none
find_by_socket ((id, s) ∷ rest) socket =
    if is_socket socket s.sender
    then some (s, sender)
    else if is_socket socket s.receiver
    then some (s, receiver)
    else find_by_socket rest socket

abbrev pub find_session_by_socket : SessionManager → ℕ → Option (Session × Role)
find_session_by_socket m socket = find_by_socket m.sessions_by_id socket

-- The peer that is told, when its socket is open.
abbrev pub open_peer : (ℕ → Bool) → Option PeerConnection → List ℕ
open_peer is_open none = []
open_peer is_open (some p) = if is_open p.socket then p.socket ∷ [] else []

-- The sockets that get SESSION_EXPIRED with this id.
abbrev pub notify_expired : (ℕ → Bool) → Session → List (ℕ × Utf16)
notify_expired is_open s =
    map (λ socket. (socket, s.id)) (open_peer is_open s.sender ++ open_peer is_open s.receiver)

-- The loop over the sessions; the one it stands at may be deleted.
pub sweep_sessions :
    (ℕ → Bool) → ℕ → SessionManager → List Session → SessionManager × List (ℕ × Utf16)
unfolding is_expired destroy
sweep_sessions is_open now m [] = (m, [])
sweep_sessions is_open now m (s ∷ rest) =
    let m' = if is_expired now s then destroy m s.id else m in
    let (left, told) = sweep_sessions is_open now m' rest in
    (left, (if is_expired now s then notify_expired is_open s else []) ++ told)

unfoldable pub sweep_expired : (ℕ → Bool) → ℕ → SessionManager → SessionManager × List (ℕ × Utf16)
unfolding sweep_sessions
sweep_expired is_open now m = sweep_sessions is_open now m (values m.sessions_by_id)
