-- ===== src/Transfer/StateMachine.antt =====
-- client/src/services/transfer/stateMachine.ts, with the states of shared/src/types.ts. Every
-- listener is called with the new and the former state: `transition` returns that pair, if any.
pub mod Paths
use mathlib.Core.Logic.{ite}
use file_share_app.Base.{Bool, true, false, List, [], ◌∷◌, Option, none, some, if◌then◌else◌}

pub data TransferState : Type 0 where
  idle preparing waiting_for_peer connecting awaiting_acceptance transferring paused : TransferState
  verifying completed cancelled failed expired interrupted : TransferState

unfoldable pub TransferState-discrete : Discrete TransferState
TransferState-discrete = hlevel

unfoldable pub transitions : TransferState → List TransferState
transitions idle = preparing ∷ []
transitions preparing = waiting_for_peer ∷ failed ∷ cancelled ∷ []
transitions waiting_for_peer = connecting ∷ expired ∷ cancelled ∷ failed ∷ []
transitions connecting = awaiting_acceptance ∷ failed ∷ interrupted ∷ cancelled ∷ []
transitions awaiting_acceptance = transferring ∷ cancelled ∷ failed ∷ interrupted ∷ []
transitions transferring = paused ∷ verifying ∷ completed ∷ interrupted ∷ cancelled ∷ failed ∷ []
transitions paused = transferring ∷ cancelled ∷ failed ∷ interrupted ∷ []
transitions verifying = completed ∷ failed ∷ []
transitions interrupted = connecting ∷ failed ∷ cancelled ∷ expired ∷ []
transitions completed = []
transitions cancelled = []
transitions failed = []
transitions expired = []

pub includes : List TransferState → TransferState → Bool
includes [] s = false
includes (x ∷ xs) s = ite (TransferState-discrete x s) true (includes xs s)

unfoldable pub can_transition : TransferState → TransferState → Bool
unfolding includes transitions
can_transition current to = includes (transitions current) to

pub record Change : Type 0 where
  pub to : TransferState
  pub previous : TransferState

-- The new current state, and what the listeners are told; `none` is the result `false`.
unfoldable pub transition : TransferState → TransferState → TransferState × Option Change
unfolding can_transition
transition current to =
    if can_transition current to
    then (to, some (record { to = to; previous = current }))
    else (current, none)
