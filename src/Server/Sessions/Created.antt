-- ===== src/Server/Sessions/Created.antt =====
-- `createSession`: its draws end, and the session can be found under its id and its pairing code.
use file_share_app.Base.{
  ℕ, zero, suc, subst, is_some, ◌+◌, ◌*◌, ◌%◌, ◌≤◌, ◌<◌, ◌≡◌, refl, ap, Bool, true, false, List, [],
  ◌∷◌, length, Option, none, some, Utf16, utf16_eq, utf16_beq_iff, arith, Bool-cases, inl, inr,
  get_elem?,
}
use mathlib.Core.Option.{some-injective}
use file_share_app.Base.Dict.{has, get-set}
use file_share_app.Server.Ids.{generate_session_id, generate_pairing_code, session_id_alphabet}
use file_share_app.Server.Sessions.{
  Session, SessionManager, Draws, draw_free, add_session, add_drawn, created, create_session,
  get_by_id, get_unexpired, is_expired, resolve_pairing_code, get_by_code,
}
use file_share_app.Server.Sessions.Consistent.{IsConsistent, add_session-IsConsistent}

-- A draw that is free ends the loop, whatever came before it, with a value that is free.
draw_free_ends :
    (draws : ℕ) (taken : Utf16 → Bool) (draw : ℕ → Utf16) (i n : ℕ)
    → taken (draw (i + n)) ≡ false
    → n < draws
    → (k : ℕ) × (draw_free draws taken draw i ≡ some (draw k)) × (taken (draw k) ≡ false)
unfolding draw_free
draw_free_ends zero taken draw i n free h = absurd (omega arith)
draw_free_ends (suc draws) taken draw i zero free h =
    let here = subst (λ j. taken (draw j) ≡ false) {x = i + 0} {y = i} (omega arith) free in
    rw here (i, refl, here)
draw_free_ends (suc draws) taken draw i (suc n) free h = elim (Bool-cases (taken (draw i))) [
  | inl e ↦ rw e (
      draw_free_ends draws taken draw (suc i) n
        (subst (λ j. taken (draw j) ≡ false) {x = i + suc n} {y = suc i + n} (omega arith) free)
        (omega arith))
  | inr e ↦ rw e (i, refl, e)
]

first_draw_ends :
    (draws : ℕ) (taken : Utf16 → Bool) (draw : ℕ → Utf16) (n : ℕ)
    → taken (draw n) ≡ false
    → n < draws
    → (k : ℕ) × (draw_free draws taken draw 0 ≡ some (draw k)) × (taken (draw k) ≡ false)
first_draw_ends draws taken draw n free h =
    draw_free_ends draws taken draw 0 n
      (subst (λ j. taken (draw j) ≡ false) {x = n} {y = 0 + n} (omega arith) free) h

get_elem?_in : (us : Utf16) (i : ℕ) → i < length us → (u : ℕ) × (get_elem? us i ≡ some u)
get_elem?_in [] i h = absurd (omega arith)
get_elem?_in (u ∷ us) zero h = (u, refl)
get_elem?_in (u ∷ us) (suc i) h = get_elem?_in us i (omega arith)

-- An id of at least one byte is not the empty string.
generate_session_id_nonempty :
    (bytes : List ℕ)
    → 0 < length bytes
    → (u : ℕ) × (rest : Utf16) × (generate_session_id bytes ≡ u ∷ rest)
unfolding generate_session_id
generate_session_id_nonempty [] h = absurd (omega arith)
generate_session_id_nonempty (b ∷ bytes) h =
    let (u, e) = get_elem?_in session_id_alphabet (b % 32) (omega arith) in
    (u, generate_session_id bytes, rw e refl)

get_by_id-add_session :
    (m : SessionManager) (s : Session) (later : ℕ)
    → later ≤ s.expires_at
    → get_by_id (add_session m s) s.id later ≡ (add_session m s, some s)
unfolding get_by_id get_unexpired is_expired add_session
get_by_id-add_session m s later le =
    rw (get-set s.id s.id s m.sessions_by_id, (utf16_beq_iff s.id s.id).1 refl) (ground arith)

resolve-add_session :
    (m : SessionManager) (s : Session) (later u : ℕ) (rest : Utf16)
    → later ≤ s.expires_at
    → s.id ≡ u ∷ rest
    → resolve_pairing_code (add_session m s) s.pairing_code later ≡ (add_session m s, some s)
unfolding resolve_pairing_code add_session get_by_code
resolve-add_session m s later u rest le e =
    rw
      (
        get-set s.pairing_code s.pairing_code s.id m.session_id_by_pairing_code,
        (utf16_beq_iff s.pairing_code s.pairing_code).1 refl,
        e,
      )
      (rw (← e) (get_by_id-add_session m s later le))

-- Two maps that agree, ids of at least one byte, and among the first `draws` draws of an id and of
-- a pairing code at least one that is free: then `createSession` ends with a session, the maps still
-- agree, and until the session expires both `getById` with its id and `resolvePairingCode` with its
-- code find it and change nothing.
pub create_session-resolve :
    (draws : ℕ) (d : Draws) (m : SessionManager) (sender : ℕ) (display_name : Utf16)
    (timeout_seconds now i j later : ℕ)
    → IsConsistent m
    → ((n : ℕ) → 0 < length (d.id_bytes n))
    → i < draws
    → j < draws
    → has (generate_session_id (d.id_bytes i)) m.sessions_by_id ≡ false
    → has (generate_pairing_code (d.code_bytes j)) m.session_id_by_pairing_code ≡ false
    → later ≤ now + timeout_seconds * 1000
    → (m' : SessionManager) × (s : Session) × (create_session draws d m sender display_name
          timeout_seconds now
        ≡ some (m', s))
      × IsConsistent m'
      × (get_by_id m' s.id later ≡ (m', some s))
      × (resolve_pairing_code m' s.pairing_code later ≡ (m', some s))
unfolding create_session
create_session-resolve draws d m sender display_name timeout_seconds now i j later h bytes li lj fi
      fj le =
    let make = created sender display_name timeout_seconds now d.token in
    let (a, ea, free_id) =
      first_draw_ends draws (λ id. has id m.sessions_by_id)
        (λ n. generate_session_id (d.id_bytes n)) i fi li in
    let (b, eb, free_code) =
      first_draw_ends draws (λ code. has code m.session_id_by_pairing_code)
        (λ n. generate_pairing_code (d.code_bytes n)) j fj lj in
    let (u, rest, e) = generate_session_id_nonempty (d.id_bytes a) (bytes a) in
    let s = make (generate_session_id (d.id_bytes a)) (generate_pairing_code (d.code_bytes b)) in
    (
      add_session m s,
      s,
      rw (ea, eb, add_drawn) refl,
      add_session-IsConsistent m s h (ground arith) (ground arith) (λ r. r),
      get_by_id-add_session m s later le,
      resolve-add_session m s later u rest le e,
    )

-- Whatever the draws, `createSession` keeps the two maps in agreement.
draw_free_is_free :
    (draws : ℕ) (taken : Utf16 → Bool) (draw : ℕ → Utf16) (i : ℕ) (x : Utf16)
    → draw_free draws taken draw i ≡ some x
    → taken x ≡ false
unfolding draw_free
draw_free_is_free zero taken draw i x e = cc
draw_free_is_free (suc draws) taken draw i x e =
    ground (arith, draw_free_is_free draws taken draw (suc i) x)

add_drawn-IsConsistent :
    (m : SessionManager) (make : Utf16 → Utf16 → Session) (a b : Option Utf16) (m' : SessionManager)
    (s : Session)
    → IsConsistent m
    → ((id code : Utf16) → (make id code).id ≡ id)
    → ((id code : Utf16) → (make id code).pairing_code ≡ code)
    → ((id code : Utf16) → is_some (make id code).receiver ≡ true → (make id code).consumed ≡ true)
    → ((id : Utf16) → a ≡ some id → has id m.sessions_by_id ≡ false)
    → ((code : Utf16) → b ≡ some code → has code m.session_id_by_pairing_code ≡ false)
    → add_drawn m make a b ≡ some (m', s)
    → IsConsistent m'
unfolding add_drawn
add_drawn-IsConsistent m make none b m' s h i c j fa fb e = cc
add_drawn-IsConsistent m make (some id) none m' s h i c j fa fb e = cc
add_drawn-IsConsistent m make (some id) (some code) m' s h i c j fa fb e =
    let kept =
      add_session-IsConsistent m (make id code) h (rw (i id code) (ground (arith, fa id refl)))
        (rw (c id code) (ground (arith, fb code refl))) (j id code) in
    subst IsConsistent (ap (λ p. p.0) (some-injective _ _ e)) kept

pub create_session-IsConsistent :
    (draws : ℕ) (d : Draws) (m m' : SessionManager) (s : Session) (sender : ℕ)
    (display_name : Utf16) (timeout_seconds now : ℕ)
    → IsConsistent m
    → create_session draws d m sender display_name timeout_seconds now ≡ some (m', s)
    → IsConsistent m'
unfolding create_session
create_session-IsConsistent draws d m m' s sender display_name timeout_seconds now h e =
    add_drawn-IsConsistent m (created sender display_name timeout_seconds now d.token) _ _ m' s h
      (λ id code. refl) (λ id code. refl) (λ id code r. r) (λ id. draw_free_is_free draws _ _ 0 id)
      (λ code. draw_free_is_free draws _ _ 0 code) e
