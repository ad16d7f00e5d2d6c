-- ===== src/Server/Handlers/Admission.antt =====
-- Whom `handleJoinSession` admits to a session.
use file_share_app.Base.{
  ℕ, ◌≡◌, refl, sym, ap, ◌∙◌, ◌⊎◌, inl, inr, true, false, [], ◌∷◌, ◌++◌, Option, none, some, Utf16,
  utf16_eq, utf16_beq_iff, arith, Bool-cases,
}
use file_share_app.Base.Dict.{get}
use file_share_app.Shared.Json.{Json}
use file_share_app.Shared.Schemas.{
  JoinSessionPayload, join_session_payload, is_truthy, has_credentials,
  join_session_payload-has_credentials,
}
use file_share_app.Server.Sessions.{
  PeerConnection, Session, SessionManager, is_expired, join_as_receiver,
}
use file_share_app.Server.Sessions.Consistent.{IsConsistent}
use file_share_app.Server.Sessions.Found.{get_by_id-found, resolve-found}
use file_share_app.Server.Handlers.{
  Moment, Message, Sent, session_joined, lookup, join_found, join_with, handle_join_session,
  wrong_token, text, name_of, peer_joined, to_peer, send,
}
use file_share_app.Server.Handlers.Scope.{IsSent, IsSent-send}

-- The pairing code of the session, or its id and its token.
abbrev pub Knows : JoinSessionPayload → Session → Type 0
Knows p s =
    ((is_truthy p.pairing_code ≡ true) × (s.pairing_code ≡ text p.pairing_code))
    ⊎ ((s.id ≡ text p.session_id) × (s.token ≡ text p.token))

lookup-Knows :
    (t : Moment) (m : SessionManager) (p : JoinSessionPayload) (s : Session)
    → IsConsistent m
    → has_credentials p ≡ true
    → (lookup t m p).1 ≡ some s
    → wrong_token p s ≡ false
    → ((lookup t m p).0 ≡ m) × (get s.id m.sessions_by_id ≡ some s) × Knows p s
unfolding lookup wrong_token has_credentials
lookup-Knows t m p s h c e w = ground (
  arith,
  resolve-found m (text p.pairing_code) t.lookup_now s h,
  get_by_id-found m (text p.session_id) t.lookup_now s h,
  utf16_beq_iff s.token (text p.token),
)

IsSent-append : (x : ℕ × Message) (xs ys : Sent) → IsSent x (xs ++ ys) → IsSent x xs ⊎ IsSent x ys
IsSent-append x [] ys h = inr h
IsSent-append x (y ∷ xs) ys (inl e) = inl (inl e)
IsSent-append x (y ∷ xs) ys (inr h) = elim (IsSent-append x xs ys h) [
  | inl l ↦ inl (inr l)
  | inr r ↦ inr r
]

IsSent-to_peer :
    (t : Moment) (peer : Option PeerConnection) (a : ℕ) (message msg : Message)
    → IsSent (a, msg) (to_peer t peer message)
    → msg ≡ message
unfolding to_peer
IsSent-to_peer t none a message msg h = absurd h
IsSent-to_peer t (some p) a message msg h = (IsSent-send t p.socket a message msg h).1

joined_id :
    (t : Moment) (socket : ℕ) (p : JoinSessionPayload) (s : Session) (a : ℕ) (id name : Utf16)
    → IsSent
        (a, session_joined id name)
        (send t socket (session_joined s.id (name_of s.sender))
          ++ to_peer t s.sender (peer_joined s.id p.display_name))
    → s.id ≡ id
joined_id t socket p s a id name h = elim (IsSent-append _ (send t socket _) _ h) [
  | inl q ↦ let e = (IsSent-send t socket a _ _ q).1 in cc e
  | inr q ↦ absurd (let e = IsSent-to_peer t s.sender a _ _ q in cc e)
]

join_found-joined :
    (t : Moment) (socket : ℕ) (p : JoinSessionPayload) (m : SessionManager) (o : Option Session)
    (a : ℕ) (id name : Utf16)
    → IsSent (a, session_joined id name) (join_found t socket p (m, o)).1
    → (s : Session) × (o ≡ some s)
      × (is_expired t.test_now s ≡ false)
      × (wrong_token p s ≡ false)
      × (s.consumed ≡ false)
      × (s.id ≡ id)
      × ((join_found t socket p (m, o)).0 ≡ join_as_receiver m s socket p.display_name t.change_now)
unfolding join_found
join_found-joined t socket p m none a id name h =
    absurd (let e = (IsSent-send t socket a _ _ h).1 in cc e)
join_found-joined t socket p m (some s) a id name h = elim (Bool-cases (is_expired t.test_now s)) [
  | inl e ↦ absurd (let q = (IsSent-send t socket a _ _ (rw e at h)).1 in cc q)
  | inr e ↦ elim (Bool-cases (wrong_token p s)) [
    | inl w ↦ absurd (let q = (IsSent-send t socket a _ _ (rw (e, w) at h)).1 in cc q)
    | inr w ↦ elim (Bool-cases s.consumed) [
      | inl c ↦ absurd (let q = (IsSent-send t socket a _ _ (rw (e, w, c) at h)).1 in cc q)
      | inr c ↦ (
        s,
        refl,
        e,
        w,
        c,
        joined_id t socket p s a id name (rw (e, w, c) at h),
        rw (e, w, c) refl,
      )
    ]
  ]
]

-- When the two maps agree and `handleJoinSession` reports to anyone that a session was joined: the
-- payload passed its schema, the session stands in the manager, had no receiver and had not expired,
-- whoever joins knew its pairing code or its id and its token, and the handler has done nothing but
-- make that socket the receiver.
pub handle_join_session-joined :
    (t : Moment) (m : SessionManager) (socket a : ℕ) (payload : Option Json) (id name : Utf16)
    → IsConsistent m
    → IsSent (a, session_joined id name) (handle_join_session t m socket payload).1
    → (p : JoinSessionPayload) × (s : Session) × (join_session_payload payload ≡ some p)
      × (get id m.sessions_by_id ≡ some s)
      × (s.consumed ≡ false)
      × (is_expired t.test_now s ≡ false)
      × Knows p s
      × ((handle_join_session t m socket payload).0
          ≡ join_as_receiver m s socket p.display_name t.change_now)
unfolding handle_join_session join_with
handle_join_session-joined t m socket a payload id name h i =
    parsed (join_session_payload payload) refl i
  where
    parsed :
        (o : Option JoinSessionPayload)
        → join_session_payload payload ≡ o
        → IsSent (a, session_joined id name) (join_with t m socket o).1
        → (p : JoinSessionPayload) × (s : Session) × (o ≡ some p)
          × (get id m.sessions_by_id ≡ some s)
          × (s.consumed ≡ false)
          × (is_expired t.test_now s ≡ false)
          × Knows p s
          × ((join_with t m socket o).0 ≡ join_as_receiver m s socket p.display_name t.change_now)
    parsed none e i = absurd (let q = (IsSent-send t socket a _ _ i).1 in cc q)
    parsed (some p) e i =
        let (s, found, live, right, alone, named, result) =
          join_found-joined t socket p (lookup t m p).0 (lookup t m p).1 a id name i in
        let (same, stands, knows) =
          lookup-Knows t m p s h (join_session_payload-has_credentials payload p e) found right in
        (
          p,
          s,
          refl,
          ap (λ k. get k m.sessions_by_id) (sym named) ∙ stands,
          alone,
          live,
          knows,
          result ∙ ap (λ n. join_as_receiver n s socket p.display_name t.change_now) same,
        )
