-- ===== src/Gateway/ArbitrationStore/Transactions.antt =====
-- arbitration.go: RecordApproval and LockWinnerWithEffects, each one transaction.
use denyra.Base.{
  ℕ, Bool, true, false, not, ◌&&◌, ◌||◌, Option, none, some, List, [], ◌∷◌, ◌==◌, if◌then◌else◌,
  any, Result, ok, ◌>>=◌, ◌>>◌, reject_if,
}
use denyra.Base.Int.{ℤ}
use denyra.Base.Text.{Str, codes, same, str_ltb}
use denyra.Base.Time.{Time, utc}
use denyra.Base.TimeText.{format_time}
use denyra.Base.Sort.{sort_stable}
use denyra.Gateway.State.{
  State, arbitrating, primary_active, dual_candidate, winner_locked, same_state,
}
use denyra.Gateway.Job.{Job, bump, transition}
use denyra.Gateway.JobStore as JobStore
use denyra.Gateway.JobStore.{Row, find_row, job_query}
use denyra.Gateway.JobStore.Updates.{commit, or_job_error}
use denyra.Gateway.CandidateStore as CandidateStore
use denyra.Gateway.CandidateStore.{find_candidate}
use denyra.Gateway.EffectStore.{Effect, put_effect}
use denyra.Gateway.IdempotencyStore.{Record, Begun, proceeds, replays, begin_idempotency}
use denyra.Gateway.ArbitrationStore.{
  Approval, ApprovalRow, Lock, ArbitrationRow, Store, Error, idempotency_conflict,
  constraint_failed, stale_arbitration, Recorded, replayed, recorded, or_not_found, or_store_error,
  or_effect_error, or_idempotency_error, find_approval, find_arbitration, update_arbitration,
  check_identity, add_approval, add_arbitration,
}

-- The columns that `updateJobTransitionTx` sets.
unfoldable pub moved_on : Job → Row → Row
moved_on j r = record r {
  job = record r.job {
    state = j.state;
    revision = j.revision;
    next_retry_at = none;
    updated_at = utc j.updated_at;
  };
}

-- A transition of the job with `updateJobTransitionTx`.
unfoldable pub move_job :
    Str → State → Str → Str → Time → JobStore.Store → Result JobStore.Error JobStore.Store
move_job job_id to actor reason at jobs = do
  r ← job_query job_id jobs
  p ← or_job_error (transition r.job r.job.revision to actor reason at)
  ok (commit jobs r.job.id p.1.previous_revision (moved_on p.0) p.1)

-- The move of `RecordApproval`, which leaves a job alone that is not waiting for candidates.
unfoldable pub start_arbitration :
    Str → Time → JobStore.Store → Result JobStore.Error JobStore.Store
start_arbitration job_id at jobs = do
  r ← job_query job_id jobs
  if same_state r.job.state primary_active || same_state r.job.state dual_candidate
      then move_job job_id arbitrating (codes "pipeline-quality-callback")
          (codes "candidate reached APPROVED") at jobs
      else ok jobs

-- `ORDER BY a.approved_at,a.candidate_id`, on the texts of the times
unfoldable pub approved_before : Approval → Approval → Bool
approved_before a b =
    let s = format_time a.approved_at in
    let t = format_time b.approved_at in
    str_ltb s t || (same s t && str_ltb a.candidate_id b.candidate_id)

abbrev approval_of : Str → ApprovalRow → Approval
approval_of job_id row = record {
  candidate_id = row.candidate_id;
  job_id = job_id;
  config_snapshot_id = row.config_snapshot_id;
  musicbrainz_release_id = row.musicbrainz_release_id;
  source = row.source;
  approved_at = row.approved_at;
  completion_at = row.completion_at;
  quality = row.quality;
  warnings = row.warnings;
  pipeline_state_revision = row.pipeline_state_revision;
}

-- The approvals of the candidates of a job.
unfoldable pub joined : Str → List CandidateStore.Row → List ApprovalRow → List Approval
joined job_id candidates [] = []
joined job_id candidates (row ∷ rows) =
    let rest = joined job_id candidates rows in
    elim (find_candidate row.candidate_id candidates) [
      | none ↦ rest
      | some c ↦ if same c.job_id job_id then approval_of c.job_id row ∷ rest else rest
    ]

-- `approvalsInTx`
unfoldable pub approvals_of : Str → Store → List Approval
approvals_of job_id store =
    sort_stable approved_before (joined job_id store.candidates store.approvals)

-- What `RecordApproval` does for a request that has not been answered.
unfoldable pub record_new :
    Approval → ℤ → Str → Str → Time → List Record → Store → Result Error (Store × Recorded)
record_new approval window hash body at idempotency store = do
  c ← or_not_found (find_candidate approval.candidate_id store.candidates)
  r ← or_not_found (find_row c.job_id store.jobs.jobs)
  check_identity approval c r
  approvals ←
      add_approval approval hash at store.approvals
        (find_approval approval.candidate_id store.approvals)
  let arbitrations =
      add_arbitration approval window body at store.arbitrations
        (find_arbitration approval.job_id store.arbitrations)
  jobs ← or_store_error (start_arbitration approval.job_id at store.jobs)
  let store' = record store {
    jobs = jobs;
    approvals = approvals;
    arbitrations = arbitrations;
    idempotency = idempotency;
  }
  a ← or_not_found (find_arbitration approval.job_id arbitrations)
  ok (store', recorded a (approvals_of approval.job_id store'))

unfoldable pub record_begun :
    Approval → ℤ → Str → Str → Time → Store → Begun × List Record → Result Error (Store × Recorded)
record_begun approval window hash body at store (replays status text, idempotency) =
    ok (record store { idempotency = idempotency }, replayed status text)
record_begun approval window hash body at store (proceeds, idempotency) =
    record_new approval window hash body at idempotency store

-- `RecordApproval`
unfoldable pub record_approval :
    Approval → ℤ → Str → Str → Str → Time → Store → Result Error (Store × Recorded)
record_approval approval window key hash body at store = do
  b ←
      or_idempotency_error
        (begin_idempotency key (codes "candidate-approval") hash body at store.idempotency)
  record_begun approval window hash body at store b

-- `WinnerLock`
pub record WinnerLock : Type 0 where
  pub job_id : Str
  pub candidate_id : Str
  pub reason : Str
  pub expected_revision : ℕ
  pub evidence : Str
  pub effects : List (Str × Effect)
  pub locked_at : Time

abbrev pub locked : WinnerLock → ArbitrationRow → ArbitrationRow
locked lock row = record row {
  lock = some (record {
    winner_candidate_id = lock.candidate_id;
    locked_at = utc lock.locked_at;
    reason = lock.reason;
  });
  evidence = lock.evidence;
  state_revision = bump row.state_revision;
  updated_at = utc lock.locked_at;
}

-- The winner is a candidate, and of no other job.
unfoldable pub is_winner : Str → ArbitrationRow → Bool
is_winner id row = elim row.lock [ none ↦ false | some l ↦ same l.winner_candidate_id id ]

abbrev is_missing : Option CandidateStore.Row → Bool
is_missing none = true
is_missing (some c) = false

-- The effects, each with the token for its identifier.
unfoldable pub put_effects : List (Str × Effect) → List Effect → Result Error (List Effect)
put_effects [] rows = ok rows
put_effects ((token, effect) ∷ effects) rows = do
  rows' ← or_effect_error (put_effect token effect rows)
  put_effects effects rows'

unfoldable pub lock_open : WinnerLock → ArbitrationRow → Store → Result Error (Store × Bool)
lock_open lock a store = do
  reject_if (not (a.state_revision == lock.expected_revision))
      (stale_arbitration lock.expected_revision a.state_revision)
  reject_if
      (any (is_winner lock.candidate_id) store.arbitrations
        || is_missing (find_candidate lock.candidate_id store.candidates))
      constraint_failed
  jobs ← or_store_error (
      move_job lock.job_id winner_locked (codes "gateway-arbitration") lock.reason lock.locked_at
        store.jobs)
  effects ← put_effects lock.effects store.effects
  ok (
    record store {
      jobs = jobs;
      arbitrations = update_arbitration lock.job_id (locked lock) store.arbitrations;
      effects = effects;
    },
    true,
  )

unfoldable pub lock_from :
    WinnerLock → ArbitrationRow → Option Lock → Store → Result Error (Store × Bool)
lock_from lock a none store = lock_open lock a store
lock_from lock a (some l) store = do
  reject_if (not (same l.winner_candidate_id lock.candidate_id)) idempotency_conflict
  ok (store, false)

-- `LockWinnerWithEffects`
unfoldable pub lock_winner : WinnerLock → Store → Result Error (Store × Bool)
lock_winner lock store = do
  a ← or_not_found (find_arbitration lock.job_id store.arbitrations)
  lock_from lock a a.lock store
