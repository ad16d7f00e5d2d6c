-- ===== src/Transfer/StateMachine/Paths.antt =====
-- The walks that the transition table allows.
use file_share_app.Base.{
  Bool, true, List, [], ◌∷◌, Option, none, some, ◌≡◌, refl, ◌⊎◌, inl, inr, arith, ◌&&◌, All, subst,
  Bool-cases,
}
use file_share_app.Transfer.StateMachine.{
  TransferState, idle, preparing, waiting_for_peer, connecting, awaiting_acceptance, transferring,
  completed, cancelled, failed, expired, interrupted, can_transition, transition, includes, Change,
  TransferState-discrete,
}

abbrev log_change : Option Change → List Change → List Change
log_change none log = log
log_change (some c) log = c ∷ log

-- The state after a list of requests, and what the listeners were told, the newest first.
unfoldable pub run : TransferState → List Change → List TransferState → TransferState × List Change
run s log [] = (s, log)
run s log (to ∷ requests) =
    let (s', told) = transition s to in run s' (log_change told log) requests

abbrev pub IsTerminal : TransferState → Type 0
IsTerminal s = (s ≡ completed) ⊎ ((s ≡ cancelled) ⊎ ((s ≡ failed) ⊎ (s ≡ expired)))

transition_of_IsTerminal : (s to : TransferState) → IsTerminal s → transition s to ≡ (s, none)
unfolding transition
transition_of_IsTerminal s to h = ground arith

-- Once the transfer is completed, cancelled, failed or expired, no list of requests moves the
-- machine or notifies a listener.
pub run_of_IsTerminal :
    (s : TransferState) (log : List Change) (requests : List TransferState)
    → IsTerminal s
    → run s log requests ≡ (s, log)
unfolding run
run_of_IsTerminal s log [] h = refl
run_of_IsTerminal s log (to ∷ requests) h =
    rw (transition_of_IsTerminal s to h) (run_of_IsTerminal s log requests h)

-- A walk in the table from `s`, as the listeners saw it, the newest change first, ends in `t`.
pub data Walk (s : TransferState) : List Change → TransferState → Type 0 where
  here : Walk s [] s
  then :
      {log : List Change} {t : TransferState}
      → Walk s log t
      → (u : TransferState) → can_transition t u ≡ true
      → Walk s (record { to = u; previous = t } ∷ log) u

transition_cases :
    (s to : TransferState)
    → ((can_transition s to ≡ true)
        × (transition s to ≡ (to, some (record { to = to; previous = s }))))
      ⊎ (transition s to ≡ (s, none))
unfolding transition
transition_cases s to = elim (Bool-cases (can_transition s to)) [
  | inl e ↦ inl (e, rw (e, transition))
  | inr e ↦ inr (rw (e, transition))
]

-- Whatever is requested, the listeners see an unbroken walk in the table that ends in the current
-- state.
pub run-Walk :
    (start s : TransferState) (log : List Change) (requests : List TransferState)
    → Walk start log s
    → Walk start (run s log requests).1 (run s log requests).0
unfolding run
run-Walk start s log [] w = w
run-Walk start s log (to ∷ requests) w = elim (transition_cases s to) [
  | inl (e, p) ↦ rw (p, run) (run-Walk start to _ requests (Walk.then w to e))
  | inr p ↦ rw (p, run) (run-Walk start s log requests w)
]

-- The states that a machine must have entered, from `idle`, to stand in the given one.
abbrev pub required : TransferState → List TransferState
required idle = []
required preparing = preparing ∷ []
required waiting_for_peer = preparing ∷ waiting_for_peer ∷ []
required connecting = preparing ∷ waiting_for_peer ∷ connecting ∷ []
required interrupted = preparing ∷ waiting_for_peer ∷ connecting ∷ []
required awaiting_acceptance = preparing ∷ waiting_for_peer ∷ connecting ∷ awaiting_acceptance ∷ []
required cancelled = preparing ∷ []
required failed = preparing ∷ []
required expired = preparing ∷ waiting_for_peer ∷ []
required _ = preparing ∷ waiting_for_peer ∷ connecting ∷ awaiting_acceptance ∷ transferring ∷ []

abbrev pub Entered : List Change → TransferState → Type 0
Entered [] s = ⊥
Entered (c ∷ log) s = (c.to ≡ s) ⊎ Entered log s

abbrev subset_or : TransferState → List TransferState → List TransferState → Bool
subset_or u xs [] = true
subset_or u xs (y ∷ ys) = includes (u ∷ xs) y && subset_or u xs ys

Entered-of_includes :
    (log : List Change) (t : TransferState) (xs : List TransferState) (y : TransferState)
    → All (Entered log) xs
    → includes xs y ≡ true
    → Entered log y
unfolding includes
Entered-of_includes log t [] y h e = cc
Entered-of_includes log t (x ∷ xs) y h e = elim (TransferState-discrete x y) [
  | yes p ↦ subst (Entered log) p h.0
  | no n ↦ Entered-of_includes log t xs y h.1 (ground arith)
]

All-Entered :
    (log : List Change) (c : Change) (xs ys : List TransferState)
    → All (Entered log) xs
    → subset_or c.to xs ys ≡ true
    → All (Entered (c ∷ log)) ys
unfolding includes
All-Entered log c xs [] h e = tt
All-Entered log c xs (y ∷ ys) h e = (
  elim (TransferState-discrete c.to y) [
    | yes p ↦ inl p
    | no n ↦ inr (Entered-of_includes log y xs y h (ground arith))
  ],
  All-Entered log c xs ys h (ground arith),
)

edge_required :
    (t u : TransferState) → can_transition t u ≡ true → subset_or u (required t) (required u) ≡ true
unfolding can_transition TransferState-discrete
edge_required idle u h = ground arith
edge_required _ u h = ground arith

-- Every state of a machine that started in `idle` was reached through all that it requires: a
-- transfer is completed only after it was prepared, waited, connected, accepted and transferring.
pub Walk-required :
    {log : List Change} {t : TransferState} → Walk idle log t → All (Entered log) (required t)
Walk-required here = tt
Walk-required (Walk.then {log} {t} w u e) =
    All-Entered log (record { to = u; previous = t }) (required t) (required u) (Walk-required w)
      (edge_required t u e)
