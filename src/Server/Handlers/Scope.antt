-- ===== src/Server/Handlers/Scope.antt =====
-- Whom a relayed description or candidate reaches, and who may join.
use file_share_app.Base.{
  ℕ, ◌≡◌, refl, sym, ◌∙◌, ap, ◌⊎◌, inl, inr, true, [], ◌∷◌, Option, none, some, Utf16, utf16_eq,
  utf16_beq_iff, arith, Bool-cases,
}
use file_share_app.Base.Dict.{get}
use file_share_app.Shared.Json.{Json, string, is_falsy}
use file_share_app.Shared.Schemas.{SdpPayload, sdp_payload}
use file_share_app.Server.Sessions.{
  PeerConnection, Session, SessionManager, Role, find_session_by_socket, is_socket,
}
use file_share_app.Server.Sessions.{sender, receiver}
use file_share_app.Server.Sessions.Consistent.{IsConsistent}
use file_share_app.Server.Sessions.Found.{side, find_by_socket-found, find_by_socket-role}
use file_share_app.Server.Handlers.{
  Moment, Message, Sent, error, sdp, send, relay_to, relay_found, relay_sdp, handle_sdp_relay,
  other_peer, is_id, not_in_session,
}

-- A message that is sent.
abbrev pub IsSent : ℕ × Message → Sent → Type 0
IsSent x [] = ⊥
IsSent x (y ∷ ys) = (x ≡ y) ⊎ IsSent x ys

pub IsSent-send :
    (t : Moment) (socket a : ℕ) (message msg : Message)
    → IsSent (a, msg) (send t socket message)
    → (a ≡ socket) × (msg ≡ message)
unfolding send
IsSent-send t socket a message msg h = ground arith

relay_to-peer :
    (t : Moment) (missing : Sent) (message msg : Message) (a : ℕ) (peer : Option PeerConnection)
    → IsSent (a, msg) (relay_to t missing message peer)
    → IsSent (a, msg) missing ⊎ ((is_socket a peer ≡ true) × (msg ≡ message))
unfolding relay_to
relay_to-peer t missing message msg a none h = inl h
relay_to-peer t missing message msg a (some p) h =
    let (same, e) = IsSent-send t p.socket a message msg h in inr (ground arith, e)

is_id-string : (id : Utf16) (v : Option Json) → is_id id v ≡ true → v ≡ some (string id)
is_id-string id none h = cc
is_id-string id (some (string s)) h =
    ap (λ r. some (string r))
      ((utf16_beq_iff s id).0 (ground (arith, utf16_beq_iff s id, utf16_beq_iff id s)))
is_id-string id (some Json.null) h = cc
is_id-string id (some (Json.array items)) h = cc
is_id-string id (some Json.fraction) h = cc
is_id-string id (some (Json.boolean b)) h = cc
is_id-string id (some (Json.number n)) h = cc
is_id-string id (some (Json.negative n)) h = cc
is_id-string id (some (Json.object fields)) h = cc

relay_found-peer :
    (t : Moment) (socket : ℕ) (session_id : Option Json) (missing : Sent)
    (message : Utf16 → Message) (found : Option (Session × Role)) (a : ℕ) (msg : Message)
    → IsSent (a, msg) (relay_found t socket session_id missing message found)
    → IsSent (a, msg) missing
      ⊎ ((msg ≡ error not_in_session)
          ⊎ ((s : Session) × (role : Role) × (found ≡ some (s, role))
              × (session_id ≡ some (string s.id))
              × (is_socket a (other_peer s role) ≡ true)
              × (msg ≡ message s.id)))
unfolding relay_found
relay_found-peer t socket session_id missing message none a msg h =
    inr (inl (IsSent-send t socket a _ msg h).1)
relay_found-peer t socket session_id missing message (some (s, role)) a msg h =
    elim (Bool-cases (is_id s.id session_id)) [
      | inl e ↦
          elim (relay_to-peer t missing (message s.id) msg a (other_peer s role) (rw e at h)) [
            | inl m ↦ inl m
            | inr (p, q) ↦ inr (inr (s, role, refl, is_id-string s.id session_id e, p, q))
          ]
      | inr e ↦ inr (inl (IsSent-send t socket a _ msg (rw e at h)).1)
    ]

abbrev pub opposite : Role → Role
opposite sender = receiver
opposite receiver = sender

other_peer-side : (s : Session) (role : Role) → other_peer s role ≡ side s (opposite role)
unfolding other_peer
other_peer-side s sender = refl
other_peer-side s receiver = refl

-- Two sockets are the two peers of a session that stands in the manager under the id that the
-- message names.
pub record ArePeers (m : SessionManager) (session_id : Option Json) (from to : ℕ) : Type 0 where
  pub session : Session
  pub role : Role
  pub stands : get session.id m.sessions_by_id ≡ some session
  pub named : session_id ≡ some (string session.id)
  pub sends : is_socket from (side session role) ≡ true
  pub receives : is_socket to (side session (opposite role)) ≡ true

peers_of_found :
    (m : SessionManager) (session_id : Option Json) (socket a : ℕ) (s : Session) (role : Role)
    → IsConsistent m
    → find_session_by_socket m socket ≡ some (s, role)
    → session_id ≡ some (string s.id)
    → is_socket a (other_peer s role) ≡ true
    → ArePeers m session_id socket a
peers_of_found m session_id socket a s role h f e o = record {
  session = s;
  role = role;
  stands = find_by_socket-found m.sessions_by_id socket s role h.distinct h.own_id f;
  named = e;
  sends = find_by_socket-role m.sessions_by_id socket s role f;
  receives = ap (is_socket a) (sym (other_peer-side s role)) ∙ o;
}

relay_sdp-peers :
    (t : Moment) (m : SessionManager) (socket a : ℕ) (kind kind' id : Utf16)
    (session_id : Option Json) (o : Option SdpPayload) (p : SdpPayload)
    → IsConsistent m
    → IsSent (a, sdp kind' id p) (relay_sdp t m socket kind session_id o)
    → ArePeers m session_id socket a
      × (o ≡ some p)
      × (kind' ≡ kind)
      × (session_id ≡ some (string id))
unfolding relay_sdp
relay_sdp-peers t m socket a kind kind' id session_id none p h i =
    absurd (let e = (IsSent-send t socket a _ _ i).1 in cc e)
relay_sdp-peers t m socket a kind kind' id session_id (some q) p h i =
    elim (Bool-cases (is_falsy session_id)) [
      | inl e ↦ absurd (let f = (IsSent-send t socket a _ _ (rw e at i)).1 in cc f)
      | inr e ↦
          elim (relay_found-peer t socket session_id _ (λ id. sdp kind id q)
            (find_session_by_socket m socket) a _ (rw e at i)) [
              | inl missing ↦ absurd (let f = (IsSent-send t socket a _ _ missing).1 in cc f)
              | inr (inl f) ↦ absurd (cc f)
              | inr (inr (s, role, f, named, o, same)) ↦ (
                peers_of_found m session_id socket a s role h f named o,
                cc same,
                cc same,
                cc (same, named),
              )
            ]
    ]

-- When the two maps agree: a session description that `handleSdpRelay` sends goes from one peer of a
-- session to the other peer of it, under the session's id, with the type of the message that came
-- in, and it is what the schema made of that message's payload.
pub handle_sdp_relay-ArePeers :
    (t : Moment) (m : SessionManager) (socket a : ℕ) (kind kind' id : Utf16)
    (session_id payload : Option Json) (p : SdpPayload)
    → IsConsistent m
    → IsSent (a, sdp kind' id p) (handle_sdp_relay t m socket kind session_id payload)
    → ArePeers m session_id socket a
      × (sdp_payload payload ≡ some p)
      × (kind' ≡ kind)
      × (session_id ≡ some (string id))
unfolding handle_sdp_relay
handle_sdp_relay-ArePeers t m socket a kind kind' id session_id payload p =
    relay_sdp-peers t m socket a kind kind' id session_id (sdp_payload payload) p
