-- ===== src/Server/Startup/Heartbeat.antt =====
-- The heartbeat terminates the connections that do not answer, and no others.
use file_share_app.Base.{
  not, ℕ, ◌≡◌, refl, sym, ap, ◌∙◌, Bool, true, false, ◌||◌, List, [], ◌∷◌, Option, none, some, eqb,
  eqb_iff, nat_eq, All, arith, Bool-cases, inl, inr,
}
use file_share_app.Base.Dict.{
  Dict, get, Distinct, get-set, get-delete, set-Distinct, delete-Distinct,
}
use file_share_app.Server.Startup.{
  Effect, terminates, pings, beat, pong, Event, connects, pongs, closes, step, run,
}

abbrev pub terminated : ℕ → List Effect → Bool
terminated ws [] = false
terminated ws (terminates v ∷ es) = eqb v ws || terminated ws es
terminated ws (pings v ∷ es) = terminated ws es

abbrev is_dead : Option Bool → Bool
is_dead (some false) = true
is_dead _ = false

-- A PONG of the socket.
abbrev pub answered : ℕ → List Event → Bool
answered ws [] = false
answered ws (pongs v ∷ es) = eqb v ws || answered ws es
answered ws (e ∷ es) = answered ws es

-- The socket neither closes nor connects.
abbrev pub Stays : ℕ → Event → Type 0
Stays ws (closes v) = eqb v ws ≡ false
Stays ws (connects v) = eqb v ws ≡ false
Stays ws (pongs v) = Unit

beat_unknown : (ws : ℕ) (d : Dict ℕ Bool) → get ws d ≡ none → get ws (beat d).0 ≡ none
unfolding beat get
beat_unknown ws [] h = refl
beat_unknown ws ((v, true) ∷ d) h = ground (arith, beat_unknown ws d)
beat_unknown ws ((v, false) ∷ d) h = ground (arith, beat_unknown ws d)

beat-Distinct : (d : Dict ℕ Bool) → Distinct d → Distinct (beat d).0
unfolding beat
beat-Distinct [] h = tt
beat-Distinct ((v, true) ∷ d) (new, h) = (beat_unknown v d new, beat-Distinct d h)
beat-Distinct ((v, false) ∷ d) (new, h) = (beat_unknown v d new, beat-Distinct d h)

beat-get :
    (ws : ℕ) (d : Dict ℕ Bool) (alive : Bool)
    → get ws d ≡ some alive
    → get ws (beat d).0 ≡ some false
unfolding beat get
beat-get ws [] alive h = cc
beat-get ws ((v, true) ∷ d) alive h = ground (arith, beat-get ws d alive)
beat-get ws ((v, false) ∷ d) alive h = ground (arith, beat-get ws d alive)

unknown_spared : (ws : ℕ) (d : Dict ℕ Bool) → get ws d ≡ none → terminated ws (beat d).1 ≡ false
unfolding beat get
unknown_spared ws [] h = refl
unknown_spared ws ((v, true) ∷ d) h = ground (arith, unknown_spared ws d)
unknown_spared ws ((v, false) ∷ d) h = ground (arith, unknown_spared ws d)

beat-terminated :
    (ws : ℕ) (d : Dict ℕ Bool) → Distinct d → terminated ws (beat d).1 ≡ is_dead (get ws d)
unfolding beat get
beat-terminated ws [] h = refl
beat-terminated ws ((v, true) ∷ d) (new, h) = elim (Bool-cases (eqb v ws)) [
  | inl same ↦ rw (same, sym ((eqb_iff v ws).0 same)) (unknown_spared v d new)
  | inr other ↦ rw other (beat-terminated ws d h)
]
beat-terminated ws ((v, false) ∷ d) (new, h) = elim (Bool-cases (eqb v ws)) [
  | inl same ↦ rw same refl
  | inr other ↦ rw other (beat-terminated ws d h)
]

step-Distinct : (d : Dict ℕ Bool) (e : Event) → Distinct d → Distinct (step d e)
unfolding step pong
step-Distinct d (connects v) h = set-Distinct v true d h
step-Distinct d (closes v) h = delete-Distinct v d h
step-Distinct d (pongs v) h = ground (arith, set-Distinct v true d h)

run-Distinct : (d : Dict ℕ Bool) (es : List Event) → Distinct d → Distinct (run d es)
unfolding run
run-Distinct d [] h = h
run-Distinct d (e ∷ es) h = run-Distinct (step d e) es (step-Distinct d e h)

pongs-get :
    (ws v : ℕ) (d : Dict ℕ Bool) (alive : Bool)
    → get ws d ≡ some alive
    → get ws (step d (pongs v)) ≡ some (alive || eqb v ws)
unfolding step pong
pongs-get ws v d alive h = ground (arith, get-set v ws true d)

or_assoc : (a b c : Bool) → ((a || b) || c) ≡ (a || (b || c))
or_assoc true b c = refl
or_assoc false b c = refl

run-get :
    (ws : ℕ) (d : Dict ℕ Bool) (alive : Bool) (es : List Event)
    → get ws d ≡ some alive
    → All (Stays ws) es
    → get ws (run d es) ≡ some (alive || answered ws es)
unfolding run step
run-get ws d true [] h _ = h
run-get ws d false [] h _ = h
run-get ws d alive (connects v ∷ es) h (stays, all) =
    run-get ws (step d (connects v)) alive es (get-set v ws true d ∙ rw stays h) all
run-get ws d alive (pongs v ∷ es) h (_, all) =
    run-get ws (step d (pongs v)) (alive || eqb v ws) es (pongs-get ws v d alive h) all
    ∙ ap some (or_assoc alive _ _)
run-get ws d alive (closes v ∷ es) h (stays, all) =
    run-get ws (step d (closes v)) alive es (get-delete v ws d ∙ rw stays h) all

is_dead-some : (b : Bool) → is_dead (some b) ≡ not b
is_dead-some true = refl
is_dead-some false = refl

-- Where each socket of the clients stands once and a socket is one of them, alive or not: when it
-- stays one of them after a round of the heartbeat, whatever connects, answers and closes beside it,
-- the next round terminates it exactly when it has not answered since the first.
pub beat-answered :
    (ws : ℕ) (d : Dict ℕ Bool) (alive : Bool) (es : List Event)
    → Distinct d
    → get ws d ≡ some alive
    → All (Stays ws) es
    → terminated ws (beat (run (beat d).0 es)).1 ≡ not (answered ws es)
beat-answered ws d alive es distinct here stays =
    beat-terminated ws (run (beat d).0 es) (run-Distinct _ es (beat-Distinct d distinct))
    ∙ ap is_dead (run-get ws _ false es (beat-get ws d alive here) stays)
    ∙ is_dead-some (answered ws es)
