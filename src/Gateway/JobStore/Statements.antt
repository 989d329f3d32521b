-- ===== src/Gateway/JobStore/Statements.antt =====
-- The statements of the gateway's workers keep the rows and the log in agreement.
use denyra.Base.{ℕ, List, [], ◌∷◌, Result, ok, err}
use denyra.Base.Text.{Str}
use denyra.Base.Time.{Time}
use denyra.Gateway.Job.{Transition}
use denyra.Gateway.JobStore.{Store, Error}
use denyra.Gateway.JobStore.Updates.{
  TransitionCommand, update_state, restart_acquisition_cycle, revise_selected_release,
}
use denyra.Gateway.JobStore.Context.{
  set_search_context, set_initial_search_context, set_search_command_id, set_grace_deadline,
}

-- What the gateway's workers ask of the store for jobs that are there.
pub data Statement : Type 0 where
  updates : TransitionCommand → Statement
  restarts : Str → ℕ → Time → Time → Statement
  revises : Str → ℕ → Str → Time → Statement
  sets_search : Str → ℕ → Str → Str → Str → Time → Time → Statement
  sets_initial_search : Str → ℕ → Str → Str → Time → Time → Time → Statement
  sets_command_id : Str → ℕ → Str → Time → Statement
  sets_grace_deadline : Str → ℕ → Time → Time → Statement

abbrev without_event : Result Error (Store × Transition) → Result Error Store
without_event (ok p) = ok p.0
without_event (err e) = err e

abbrev pub execute : Statement → Store → Result Error Store
execute (updates command) store = without_event (update_state command store)
execute (restarts k n next at) store = without_event (restart_acquisition_cycle k n next at store)
execute (revises k n selected at) store = revise_selected_release k n selected at store
execute (sets_search k n queue history command started deadline) store =
    set_search_context k n queue history command started deadline store
execute (sets_initial_search k n queue history started deadline recovery) store =
    set_initial_search_context k n queue history started deadline recovery store
execute (sets_command_id k n command at) store = set_search_command_id k n command at store
execute (sets_grace_deadline k n deadline at) store = set_grace_deadline k n deadline at store

-- `WithinTx` of internal/platform/sqlite/tx.go: the store after a transaction, undone with an error.
abbrev within_tx : Store → Result Error Store → Store
within_tx store (ok store') = store'
within_tx store (err e) = store

abbrev pub execute_all : Store → List Statement → Store
execute_all store [] = store
execute_all store (s ∷ ss) = execute_all (within_tx store (execute s store)) ss
