-- ===== src/Server/Handlers/Agreement.antt =====
-- The handlers keep the two maps of the session manager in agreement.
use mathlib.Core.Option.{some-injective}
use file_share_app.Base.{
  ℕ, ◌≡◌, refl, ap, ◌∙◌, subst, Option, none, some, utf16_eq, arith, Bool-cases, inl, inr,
}
use file_share_app.Base.Dict.{get}
use file_share_app.Shared.Json.{Json}
use file_share_app.Shared.Schemas.{
  CreateSessionPayload, create_session_payload, JoinSessionPayload, join_session_payload, is_truthy,
}
use file_share_app.Server.Sessions.{
  Session, SessionManager, Role, sender, receiver, find_session_by_socket, is_expired,
  join_as_receiver,
}
use file_share_app.Server.Sessions.Consistent.{
  IsConsistent, update-IsConsistent, destroy-IsConsistent, get_by_id-IsConsistent,
  resolve_pairing_code-IsConsistent,
}
use file_share_app.Server.Sessions.Found.{get_by_id-found, resolve-found, find_by_socket-found}
use file_share_app.Server.Sessions.Created.{create_session-IsConsistent}
use file_share_app.Server.Handlers.{
  Moment, Sent, handle_create_session, create_with, created_reply, lookup, join_found, join_with,
  handle_join_session, leave, leave_found, handle_disconnect, wrong_token, text,
}

created_reply-IsConsistent :
    (t : Moment) (socket : ℕ) (o : Option (SessionManager × Session)) (m' : SessionManager)
    (sent : Sent)
    → ((m : SessionManager) (s : Session) → o ≡ some (m, s) → IsConsistent m)
    → created_reply t socket o ≡ some (m', sent)
    → IsConsistent m'
unfolding created_reply
created_reply-IsConsistent t socket none m' sent f e = cc
created_reply-IsConsistent t socket (some (m, s)) m' sent f e =
    subst IsConsistent (ap (λ q. q.0) (some-injective _ _ e)) (f m s refl)

create_with-IsConsistent :
    (t : Moment) (m m' : SessionManager) (socket : ℕ) (p : Option CreateSessionPayload)
    (sent : Sent)
    → IsConsistent m
    → create_with t m socket p ≡ some (m', sent)
    → IsConsistent m'
unfolding create_with
create_with-IsConsistent t m m' socket none sent h e =
    subst IsConsistent (ap (λ q. q.0) (some-injective _ _ e)) h
create_with-IsConsistent t m m' socket (some p) sent h e =
    created_reply-IsConsistent t socket _ m' sent
      (λ m'' s e'. create_session-IsConsistent t.draw_limit t.draws m m'' s socket _ _ _ h e') e

pub handle_create_session-IsConsistent :
    (t : Moment) (m m' : SessionManager) (socket : ℕ) (payload : Option Json) (sent : Sent)
    → IsConsistent m
    → handle_create_session t m socket payload ≡ some (m', sent)
    → IsConsistent m'
unfolding handle_create_session
handle_create_session-IsConsistent t m m' socket payload sent =
    create_with-IsConsistent t m m' socket (create_session_payload payload) sent

pub lookup-IsConsistent :
    (t : Moment) (m : SessionManager) (p : JoinSessionPayload)
    → IsConsistent m
    → IsConsistent (lookup t m p).0
unfolding lookup
lookup-IsConsistent t m p h = elim (Bool-cases (is_truthy p.pairing_code)) [
  | inl e ↦ rw e (resolve_pairing_code-IsConsistent m _ t.lookup_now h)
  | inr e ↦ rw e (elim (Bool-cases (is_truthy p.session_id)) [
    | inl f ↦ rw f (get_by_id-IsConsistent m _ t.lookup_now h)
    | inr f ↦ rw f h
  ])
]

pub lookup-found :
    (t : Moment) (m : SessionManager) (p : JoinSessionPayload) (s : Session)
    → IsConsistent m
    → (lookup t m p).1 ≡ some s
    → ((lookup t m p).0 ≡ m) × (get s.id m.sessions_by_id ≡ some s)
unfolding lookup
lookup-found t m p s h e = ground (
  arith,
  resolve-found m (text p.pairing_code) t.lookup_now s h,
  get_by_id-found m (text p.session_id) t.lookup_now s h,
)

join_found-IsConsistent :
    (t : Moment) (socket : ℕ) (p : JoinSessionPayload) (m : SessionManager) (o : Option Session)
    → IsConsistent m
    → ((s : Session) → o ≡ some s → get s.id m.sessions_by_id ≡ some s)
    → IsConsistent (join_found t socket p (m, o)).0
unfolding join_found join_as_receiver
join_found-IsConsistent t socket p m none h f = h
join_found-IsConsistent t socket p m (some s) h f = elim (Bool-cases (is_expired t.test_now s)) [
  | inl e ↦ rw e h
  | inr e ↦ rw e (elim (Bool-cases (wrong_token p s)) [
    | inl w ↦ rw w h
    | inr w ↦ rw w (elim (Bool-cases s.consumed) [
      | inl c ↦ rw c h
      | inr c ↦ rw c (update-IsConsistent m s _ h (f s refl) refl (λ r. refl))
    ])
  ])
]

leave_found-IsConsistent :
    (t : Moment) (m : SessionManager) (o : Option (Session × Role))
    → IsConsistent m
    → ((s : Session) (role : Role) → o ≡ some (s, role) → get s.id m.sessions_by_id ≡ some s)
    → IsConsistent (leave_found t m o).0
unfolding leave_found leave
leave_found-IsConsistent t m none h f = h
leave_found-IsConsistent t m (some (s, sender)) h f =
    destroy-IsConsistent _ s.id
      (update-IsConsistent m s _ h (f s sender refl) refl (h.joined s.id s (f s sender refl)))
leave_found-IsConsistent t m (some (s, receiver)) h f =
    update-IsConsistent m s _ h (f s receiver refl) refl (λ r. r)

pub handle_disconnect-IsConsistent :
    (t : Moment) (m : SessionManager) (socket : ℕ)
    → IsConsistent m
    → IsConsistent (handle_disconnect t m socket).0
unfolding handle_disconnect
handle_disconnect-IsConsistent t m socket h =
    leave_found-IsConsistent t m (find_session_by_socket m socket) h
      (λ s role e. find_by_socket-found m.sessions_by_id socket s role h.distinct h.own_id e)

pub handle_join_session-IsConsistent :
    (t : Moment) (m : SessionManager) (socket : ℕ) (payload : Option Json)
    → IsConsistent m
    → IsConsistent (handle_join_session t m socket payload).0
unfolding handle_join_session join_with
handle_join_session-IsConsistent t m socket payload h = joined (join_session_payload payload)
  where
    joined : (p : Option JoinSessionPayload) → IsConsistent (join_with t m socket p).0
    joined none = h
    joined (some p) =
        join_found-IsConsistent t socket p (lookup t m p).0 (lookup t m p).1
          (lookup-IsConsistent t m p h)
          (λ s e.
            let (same, entry) = lookup-found t m p s h e in
            ap (λ v. get s.id v.sessions_by_id) same ∙ entry)
