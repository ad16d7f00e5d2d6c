-- ===== src/Server/Sessions/Swept.antt =====
-- `sweepExpired` against the sessions that have expired.
use file_share_app.Base.{
  ℕ, suc, ◌+◌, eqb, ltb, eqb_iff, ◌≡◌, refl, ◌∙◌, Bool, false, ◌&&◌, ◌||◌, List, [], ◌∷◌, ◌++◌, map,
  map-append, Option, none, some, Utf16, utf16_eq, utf16_beq_iff, ◌==◌, if◌then◌else◌, arith,
  Bool-cases, inl, inr,
}
use file_share_app.Base.Dict.{Dict, get, get-delete, Distinct, values}
use file_share_app.Server.Sessions.{
  PeerConnection, open_peer, Session, SessionManager, destroy, destroy_found, is_expired,
  notify_expired, sweep_sessions, sweep_expired,
}
use file_share_app.Server.Sessions.Consistent.{IsConsistent}

-- What a sweep leaves of an entry.
abbrev pub if_live : ℕ → Option Session → Option Session
if_live now none = none
if_live now (some s) = if ltb s.expires_at now then none else some s

-- How often a socket is sent SESSION_EXPIRED with an id.
abbrev pub told : ℕ → Utf16 → List (ℕ × Utf16) → ℕ
told socket id [] = 0
told socket id ((v, i) ∷ sent) =
    if eqb v socket && i == id then suc (told socket id sent) else told socket id sent

abbrev seat : ℕ → Option PeerConnection → ℕ
seat socket none = 0
seat socket (some p) = if eqb p.socket socket then 1 else 0

-- How often it should be: once for each place that it has in the session, if that has expired and
-- the socket is open.
abbrev pub owed : (ℕ → Bool) → ℕ → ℕ → Option Session → ℕ
owed is_open now socket none = 0
owed is_open now socket (some s) =
    if ltb s.expires_at now && is_open socket
    then seat socket s.sender + seat socket s.receiver
    else 0

-- Whether a sweep of the sessions destroys the id.
due : ℕ → Utf16 → List Session → Bool
due now id [] = false
due now id (s ∷ rest) = is_expired now s && s.id == id || due now id rest

get-destroy :
    (m : SessionManager) (id id' : Utf16)
    → get id' (destroy m id).sessions_by_id ≡ (if id == id' then none else get id' m.sessions_by_id)
unfolding destroy destroy_found
get-destroy m id id' = found (get id m.sessions_by_id) refl
  where
    found :
        (o : Option Session)
        → get id m.sessions_by_id ≡ o
        → get id' (destroy_found m id o).sessions_by_id
          ≡ (if id == id' then none else get id' m.sessions_by_id)
    found none e = ground (arith, utf16_beq_iff id id')
    found (some s) e = get-delete id id' m.sessions_by_id

get-sweep_sessions :
    (is_open : ℕ → Bool) (now : ℕ) (m : SessionManager) (ss : List Session) (id : Utf16)
    → get id (sweep_sessions is_open now m ss).0.sessions_by_id
      ≡ (if due now id ss then none else get id m.sessions_by_id)
unfolding sweep_sessions due
get-sweep_sessions is_open now m [] id = refl
get-sweep_sessions is_open now m (s ∷ rest) id = elim (Bool-cases (is_expired now s)) [
  | inl e ↦ rw e (
      get-sweep_sessions is_open now (destroy m s.id) rest id
      ∙ rw (get-destroy m s.id id) (ground arith))
  | inr e ↦ rw e (get-sweep_sessions is_open now m rest id)
]

abbrev expired_at : ℕ → Option Session → Bool
expired_at now none = false
expired_at now (some s) = is_expired now s

due_iff :
    (now : ℕ) (id : Utf16) (d : Dict Utf16 Session)
    → Distinct d
    → ((j : Utf16) (s : Session) → get j d ≡ some s → s.id ≡ j)
    → due now id (values d) ≡ expired_at now (get id d)
unfolding due get
due_iff now id [] h own = refl
due_iff now id ((j, s) ∷ d) (fresh, h) own =
    let rest = due_iff now id d h (λ i t e. own i t (ground (arith, utf16_beq_iff j i))) in
    ground (arith, rest, own j s, utf16_beq_iff j j, utf16_beq_iff j id, utf16_beq_iff s.id id)

told-append :
    (socket : ℕ) (id : Utf16) (a b : List (ℕ × Utf16))
    → told socket id (a ++ b) ≡ told socket id a + told socket id b
told-append socket id [] b = ground arith
told-append socket id ((v, i) ∷ a) b = ground (arith, told-append socket id a b)

told-open_peer :
    (is_open : ℕ → Bool) (socket : ℕ) (id i : Utf16) (o : Option PeerConnection)
    → told socket id (map (λ v. (v, i)) (open_peer is_open o))
      ≡ (if i == id && is_open socket then seat socket o else 0)
told-open_peer is_open socket id i none = ground arith
told-open_peer is_open socket id i (some p) = elim (Bool-cases (eqb p.socket socket)) [
  | inl same ↦ rw (same, (eqb_iff p.socket socket).0 same) (ground arith)
  | inr other ↦ rw other (ground arith)
]

told-notify_expired :
    (is_open : ℕ → Bool) (socket : ℕ) (id : Utf16) (s : Session)
    → told socket id (notify_expired is_open s)
      ≡ (if s.id == id && is_open socket then seat socket s.sender + seat socket s.receiver else 0)
told-notify_expired is_open socket id s =
    rw
      (
        map-append {B = ℕ × Utf16} (λ v. (v, s.id)) (open_peer is_open s.sender)
            (open_peer is_open s.receiver),
        told-append socket id (map (λ v. (v, s.id)) (open_peer is_open s.sender))
            (map (λ v. (v, s.id)) (open_peer is_open s.receiver)),
        told-open_peer is_open socket id s.id s.sender,
        told-open_peer is_open socket id s.id s.receiver,
      )
      (ground arith)

-- What a sweep of the sessions owes to a socket for an id.
due_to : (ℕ → Bool) → ℕ → ℕ → Utf16 → List Session → ℕ
due_to is_open now socket id [] = 0
due_to is_open now socket id (s ∷ rest) =
    (if s.id == id then owed is_open now socket (some s) else 0) + due_to is_open now socket id rest

told-sweep_sessions :
    (is_open : ℕ → Bool) (now : ℕ) (m : SessionManager) (ss : List Session) (socket : ℕ)
    (id : Utf16)
    → told socket id (sweep_sessions is_open now m ss).1 ≡ due_to is_open now socket id ss
unfolding sweep_sessions due_to is_expired
told-sweep_sessions is_open now m [] socket id = refl
told-sweep_sessions is_open now m (s ∷ rest) socket id =
    let expired = is_expired now s in
    let m' = if expired then destroy m s.id else m in
    ground (
      arith,
      told-append socket id (if expired then notify_expired is_open s else [])
          (sweep_sessions is_open now m' rest).1,
      told-notify_expired is_open socket id s,
      told-sweep_sessions is_open now m' rest socket id,
    )

due_to-unknown :
    (is_open : ℕ → Bool) (now socket : ℕ) (id : Utf16) (d : Dict Utf16 Session)
    → ((j : Utf16) (s : Session) → get j d ≡ some s → s.id ≡ j)
    → Distinct d
    → get id d ≡ none
    → due_to is_open now socket id (values d) ≡ 0
unfolding due_to get
due_to-unknown is_open now socket id [] own h e = refl
due_to-unknown is_open now socket id ((j, s) ∷ d) own (fresh, h) e =
    let rest =
      due_to-unknown is_open now socket id d (λ i t e'. own i t (ground (arith, utf16_beq_iff j i)))
        h in
    ground (arith, rest, own j s, utf16_beq_iff j j, utf16_beq_iff j id, utf16_beq_iff s.id id)

due_to-owed :
    (is_open : ℕ → Bool) (now socket : ℕ) (id : Utf16) (d : Dict Utf16 Session)
    → ((j : Utf16) (s : Session) → get j d ≡ some s → s.id ≡ j)
    → Distinct d
    → due_to is_open now socket id (values d) ≡ owed is_open now socket (get id d)
unfolding due_to get
due_to-owed is_open now socket id [] own h = refl
due_to-owed is_open now socket id ((j, s) ∷ d) own (fresh, h) =
    let own' : (i : Utf16) (t : Session) → get i d ≡ some t → t.id ≡ i =
      λ i t e'. own i t (ground (arith, utf16_beq_iff j i)) in
    ground (
      arith,
      due_to-owed is_open now socket id d own' h,
      due_to-unknown is_open now socket j d own' h fresh,
      own j s,
      utf16_beq_iff j j,
      utf16_beq_iff j id,
      utf16_beq_iff s.id id,
    )

-- When the two maps agree: a sweep removes the entry of an id exactly when the current time is past
-- the time at which its session expires, and leaves it as it is otherwise; and it sends
-- SESSION_EXPIRED with an id to a socket once for each place, sender or receiver, that the socket
-- has in the session of the id, when that session expires and the socket is open, and not at all
-- otherwise.
pub sweep_expired_lem :
    (is_open : ℕ → Bool) (now : ℕ) (m : SessionManager) (id : Utf16) (socket : ℕ)
    → IsConsistent m
    → (get id (sweep_expired is_open now m).0.sessions_by_id
        ≡ if_live now (get id m.sessions_by_id))
      × (told socket id (sweep_expired is_open now m).1
          ≡ owed is_open now socket (get id m.sessions_by_id))
unfolding sweep_expired is_expired
sweep_expired_lem is_open now m id socket h = (
  get-sweep_sessions is_open now m (values m.sessions_by_id) id
      ∙ rw (due_iff now id m.sessions_by_id h.distinct h.own_id) (live (get id m.sessions_by_id)),
  told-sweep_sessions is_open now m (values m.sessions_by_id) socket id
      ∙ due_to-owed is_open now socket id m.sessions_by_id h.own_id h.distinct,
)
  where
    live : (o : Option Session) → (if expired_at now o then none else o) ≡ if_live now o
    live none = refl
    live (some s) = refl
