-- ===== src/Server/Sessions/Consistent.antt =====
-- The two maps of the session manager agree, whatever it does.
use file_share_app.Base.{
  ℕ, ◌≡◌, refl, Bool, true, List, [], ◌∷◌, Option, none, some, Utf16, utf16_eq, utf16_beq_iff,
  arith, Bool-cases, is_some, inl, inr,
}
use file_share_app.Base.Dict.{
  values, get, get-set, get-delete, Distinct, set-Distinct, delete-Distinct,
}
use file_share_app.Server.Sessions.{
  Session, SessionManager, new, add_session, destroy, destroy_found, update, get_by_id,
  get_unexpired, is_expired, sweep_sessions, sweep_expired, resolve_pairing_code, get_by_code,
}

abbrev pub code_of : Option Session → Option Utf16
code_of none = none
code_of (some s) = some s.pairing_code

-- Each session stands under its own id, its pairing code leads to that id, and every pairing code
-- leads to a session that has it; a session that has a receiver is consumed.
pub record IsConsistent (m : SessionManager) : Type 0 where
  pub own_id : (id : Utf16) (s : Session) → get id m.sessions_by_id ≡ some s → s.id ≡ id
  pub coded :
      (id : Utf16) (s : Session)
      → get id m.sessions_by_id ≡ some s
      → get s.pairing_code m.session_id_by_pairing_code ≡ some id
  pub leads :
      (code id : Utf16)
      → get code m.session_id_by_pairing_code ≡ some id
      → code_of (get id m.sessions_by_id) ≡ some code
  pub joined :
      (id : Utf16) (s : Session)
      → get id m.sessions_by_id ≡ some s
      → is_some s.receiver ≡ true
      → s.consumed ≡ true
  pub distinct : Distinct m.sessions_by_id

pub add_session-IsConsistent :
    (m : SessionManager) (s : Session)
    → IsConsistent m
    → get s.id m.sessions_by_id ≡ none
    → get s.pairing_code m.session_id_by_pairing_code ≡ none
    → (is_some s.receiver ≡ true → s.consumed ≡ true)
    → IsConsistent (add_session m s)
unfolding add_session
add_session-IsConsistent m s h new_id new_code alone = record {
  own_id = λ id t e.
      ground (arith, get-set s.id id s m.sessions_by_id, utf16_beq_iff s.id id, h.own_id id t);
  coded = λ id t e. ground (
    arith,
    get-set s.id id s m.sessions_by_id,
    get-set s.pairing_code t.pairing_code s.id m.session_id_by_pairing_code,
    utf16_beq_iff s.id id,
    utf16_beq_iff s.pairing_code t.pairing_code,
    h.coded id t,
  );
  leads = λ code id e. ground (
    arith,
    get-set s.id id s m.sessions_by_id,
    get-set s.pairing_code code s.id m.session_id_by_pairing_code,
    utf16_beq_iff s.id id,
    utf16_beq_iff s.pairing_code code,
    h.leads code id,
  );
  joined = λ id t e' r.
      ground (arith, get-set s.id id s m.sessions_by_id, utf16_beq_iff s.id id, h.joined id t);
  distinct = set-Distinct s.id s m.sessions_by_id h.distinct;
}

destroy_found-IsConsistent :
    (m : SessionManager) (id : Utf16) (o : Option Session)
    → IsConsistent m
    → get id m.sessions_by_id ≡ o
    → IsConsistent (destroy_found m id o)
unfolding destroy_found
destroy_found-IsConsistent m id none h e = h
destroy_found-IsConsistent m id (some s) h e = record {
  own_id = λ id' t e'. ground (arith, get-delete id id' m.sessions_by_id, h.own_id id' t);
  coded = λ id' t e'. ground (
    arith,
    get-delete id id' m.sessions_by_id,
    get-delete s.pairing_code t.pairing_code m.session_id_by_pairing_code,
    utf16_beq_iff id id',
    utf16_beq_iff s.pairing_code t.pairing_code,
    h.coded id' t,
    h.coded id s,
  );
  leads = λ code id' e'. ground (
    arith,
    get-delete id id' m.sessions_by_id,
    get-delete s.pairing_code code m.session_id_by_pairing_code,
    utf16_beq_iff id id',
    utf16_beq_iff s.pairing_code code,
    h.leads code id',
  );
  joined = λ id' t e' r. ground (arith, get-delete id id' m.sessions_by_id, h.joined id' t);
  distinct = delete-Distinct id m.sessions_by_id h.distinct;
}

pub destroy-IsConsistent :
    (m : SessionManager) (id : Utf16) → IsConsistent m → IsConsistent (destroy m id)
unfolding destroy
destroy-IsConsistent m id h = destroy_found-IsConsistent m id (get id m.sessions_by_id) h refl

pub update-IsConsistent :
    (m : SessionManager) (old s : Session)
    → IsConsistent m
    → get s.id m.sessions_by_id ≡ some old
    → s.pairing_code ≡ old.pairing_code
    → (is_some s.receiver ≡ true → s.consumed ≡ true)
    → IsConsistent (update m s)
unfolding update
update-IsConsistent m old s h e p both = record {
  own_id = λ id t e'.
      ground (arith, get-set s.id id s m.sessions_by_id, utf16_beq_iff s.id id, h.own_id id t);
  coded = λ id t e'. ground (
    arith,
    get-set s.id id s m.sessions_by_id,
    utf16_beq_iff s.id id,
    h.coded id t,
    h.coded id old,
  );
  leads = λ code id e'.
      ground (arith, get-set s.id id s m.sessions_by_id, utf16_beq_iff s.id id, h.leads code id);
  joined = λ id t e' r.
      ground (arith, get-set s.id id s m.sessions_by_id, utf16_beq_iff s.id id, h.joined id t);
  distinct = set-Distinct s.id s m.sessions_by_id h.distinct;
}

pub get_by_id-IsConsistent :
    (m : SessionManager) (id : Utf16) (now : ℕ)
    → IsConsistent m
    → IsConsistent (get_by_id m id now).0
unfolding get_by_id get_unexpired
get_by_id-IsConsistent m id now h = unexpired (get id m.sessions_by_id)
  where
    unexpired : (o : Option Session) → IsConsistent (get_unexpired m now o).0
    unexpired none = h
    unexpired (some s) = elim (Bool-cases (is_expired now s)) [
      | inl e ↦ rw e (destroy-IsConsistent m s.id h)
      | inr e ↦ rw e h
    ]

pub resolve_pairing_code-IsConsistent :
    (m : SessionManager) (code : Utf16) (now : ℕ)
    → IsConsistent m
    → IsConsistent (resolve_pairing_code m code now).0
unfolding resolve_pairing_code get_by_code
resolve_pairing_code-IsConsistent m code now h = by_code (get code m.session_id_by_pairing_code)
  where
    by_code : (o : Option Utf16) → IsConsistent (get_by_code m now o).0
    by_code none = h
    by_code (some []) = h
    by_code (some (u ∷ id)) = get_by_id-IsConsistent m (u ∷ id) now h

pub sweep_sessions-IsConsistent :
    (is_open : ℕ → Bool) (now : ℕ) (m : SessionManager) (ss : List Session)
    → IsConsistent m
    → IsConsistent (sweep_sessions is_open now m ss).0
unfolding sweep_sessions
sweep_sessions-IsConsistent is_open now m [] h = h
sweep_sessions-IsConsistent is_open now m (s ∷ rest) h = elim (Bool-cases (is_expired now s)) [
  | inl e ↦ rw e (
      sweep_sessions-IsConsistent is_open now (destroy m s.id) rest (destroy-IsConsistent m s.id h))
  | inr e ↦ rw e (sweep_sessions-IsConsistent is_open now m rest h)
]

pub sweep_expired-IsConsistent :
    (is_open : ℕ → Bool) (now : ℕ) (m : SessionManager)
    → IsConsistent m
    → IsConsistent (sweep_expired is_open now m).0
unfolding sweep_expired
sweep_expired-IsConsistent is_open now m h =
    sweep_sessions-IsConsistent is_open now m (values m.sessions_by_id) h

pub new-IsConsistent : IsConsistent new
unfolding get
new-IsConsistent = record {
  own_id = λ id s e. cc;
  coded = λ id s e. cc;
  leads = λ code id e. cc;
  joined = λ id s e r. cc;
  distinct = tt;
}
