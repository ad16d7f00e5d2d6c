-- ===== src/Server/Sessions/Found.antt =====
-- What the lookups of the session manager find is the entry of its id.
use file_share_app.Base.{
  ℕ, ◌≡◌, refl, ap, ◌∙◌, true, [], ◌∷◌, Option, none, some, Utf16, utf16_eq, utf16_beq_iff, arith,
}
use file_share_app.Base.Dict.{Dict, get, Distinct}
use file_share_app.Server.Sessions.{
  Session, SessionManager, Role, sender, receiver, find_by_socket, get_by_id, get_unexpired,
  resolve_pairing_code, get_by_code, is_socket, PeerConnection,
}
use file_share_app.Server.Sessions.Consistent.{IsConsistent}

-- The peer of a session in a role.
abbrev pub side : Session → Role → Option PeerConnection
side s sender = s.sender
side s receiver = s.receiver

-- A session that was looked up has not expired, and nothing was destroyed.
pub get_by_id-found :
    (m : SessionManager) (id : Utf16) (now : ℕ) (s : Session)
    → IsConsistent m
    → (get_by_id m id now).1 ≡ some s
    → ((get_by_id m id now).0 ≡ m) × (get id m.sessions_by_id ≡ some s) × (s.id ≡ id)
unfolding get_by_id get_unexpired
get_by_id-found m id now s h e = unexpired (get id m.sessions_by_id) refl e
  where
    unexpired :
        (o : Option Session)
        → get id m.sessions_by_id ≡ o
        → (get_unexpired m now o).1 ≡ some s
        → ((get_unexpired m now o).0 ≡ m) × (get id m.sessions_by_id ≡ some s) × (s.id ≡ id)
    unexpired none p q = cc
    unexpired (some t) p q = ground (arith, h.own_id id t)

pub resolve-found :
    (m : SessionManager) (code : Utf16) (now : ℕ) (s : Session)
    → IsConsistent m
    → (resolve_pairing_code m code now).1 ≡ some s
    → ((resolve_pairing_code m code now).0 ≡ m)
      × (get s.id m.sessions_by_id ≡ some s)
      × (s.pairing_code ≡ code)
unfolding resolve_pairing_code get_by_code
resolve-found m code now s h e = by_code (get code m.session_id_by_pairing_code) refl e
  where
    by_code :
        (o : Option Utf16)
        → get code m.session_id_by_pairing_code ≡ o
        → (get_by_code m now o).1 ≡ some s
        → ((get_by_code m now o).0 ≡ m)
          × (get s.id m.sessions_by_id ≡ some s)
          × (s.pairing_code ≡ code)
    by_code none p q = cc
    by_code (some []) p q = cc
    by_code (some (u ∷ id)) p q =
        let (same, entry, own) = get_by_id-found m (u ∷ id) now s h q in
        (
          same,
          ap (λ i. get i m.sessions_by_id) own ∙ entry,
          ground (arith, h.leads code (u ∷ id) p),
        )

pub find_by_socket-found :
    (d : Dict Utf16 Session) (socket : ℕ) (s : Session) (role : Role)
    → Distinct d
    → ((id : Utf16) (t : Session) → get id d ≡ some t → t.id ≡ id)
    → find_by_socket d socket ≡ some (s, role)
    → get s.id d ≡ some s
unfolding find_by_socket get
find_by_socket-found [] socket s role h own e = cc
find_by_socket-found ((j, t) ∷ d) socket s role (fresh, h) own e =
    let rest =
      find_by_socket-found d socket s role h
        (λ i u g. own i u (ground (arith, utf16_beq_iff j i))) in
    ground (arith, rest, own j t, utf16_beq_iff j j, utf16_beq_iff j s.id)

-- The socket stands on the side of the role that is found.
pub find_by_socket-role :
    (d : Dict Utf16 Session) (socket : ℕ) (s : Session) (role : Role)
    → find_by_socket d socket ≡ some (s, role)
    → is_socket socket (side s role) ≡ true
unfolding find_by_socket
find_by_socket-role [] socket s role e = cc
find_by_socket-role ((j, t) ∷ d) socket s sender e =
    ground (arith, find_by_socket-role d socket s sender)
find_by_socket-role ((j, t) ∷ d) socket s receiver e =
    ground (arith, find_by_socket-role d socket s receiver)
