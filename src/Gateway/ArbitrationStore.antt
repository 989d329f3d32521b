-- ===== src/Gateway/ArbitrationStore.antt =====
-- internal/gateway/persistence/arbitration.go: the approvals of the candidates of a job and the
-- choice of one of them, in transactions on the rows of the jobs, candidates, effects and kept
-- answers. The failures of the database itself, the JSON of the columns and the references between
-- the tables that the statements do not read are left out.
pub mod Transactions
pub mod Inversion
pub mod Locks
pub mod Final
pub mod Consistency
pub mod Starts
pub mod Earliest
pub mod Replay
use denyra.Base.{
  ℕ, Bool, true, false, not, ◌&&◌, ◌||◌, Option, none, some, List, [], ◌∷◌, ◌++◌, ◌==◌,
  if◌then◌else◌, any, map, keep, Result, ok, err, ◌>>=◌, ◌>>◌, reject_if,
}
use denyra.Base.Int.{ℤ}
use denyra.Base.Text.{Str, codes, same, is_empty, str_ltb}
use denyra.Base.Table as Table
use denyra.Base.Time.{Time, before, same_instant, add_duration, utc}
use denyra.Base.TimeText.{format_time}
use denyra.Base.Sort.{sort_stable}
use denyra.Gateway.State.{State, arbitrating, primary_active, dual_candidate, same_state}
use denyra.Gateway.Job as Job
use denyra.Gateway.Job.{Job, Transition, bump, transition}
use denyra.Gateway.Arbitration.{Quality, CandidateSource, slskd, spotiflac, other}
use denyra.Gateway.JobStore as JobStore
use denyra.Gateway.JobStore.{Row, find_row, job_query}
use denyra.Gateway.JobStore.Updates.{commit, or_job_error}
use denyra.Gateway.CandidateStore as CandidateStore
use denyra.Gateway.CandidateStore.{find_candidate}
use denyra.Gateway.EffectStore as EffectStore
use denyra.Gateway.EffectStore.{Effect}
use denyra.Gateway.IdempotencyStore as IdempotencyStore
use denyra.Gateway.IdempotencyStore.{Record, Begun, proceeds, replays, begin_idempotency}

pub data WarningClass : Type 0 where
  quality_warning non_blocking_warning : WarningClass
  other_class : Str → WarningClass

pub record Warning : Type 0 where
  pub class : WarningClass
  pub code : Str
  pub message : Str

-- `Approval`
pub record Approval : Type 0 where
  pub candidate_id : Str
  pub job_id : Str
  pub config_snapshot_id : Str
  pub musicbrainz_release_id : Str
  pub source : CandidateSource
  pub approved_at : Time
  pub completion_at : Time
  pub quality : Quality
  pub warnings : List Warning
  pub pipeline_state_revision : ℕ

-- A row of candidate_approvals: the columns of the approval but its job, which is its candidate's,
-- and the checksum of the request.
pub record ApprovalRow : Type 0 where
  pub candidate_id : Str
  pub config_snapshot_id : Str
  pub musicbrainz_release_id : Str
  pub source : CandidateSource
  pub approved_at : Time
  pub completion_at : Time
  pub quality : Quality
  pub warnings : List Warning
  pub pipeline_state_revision : ℕ
  pub request_sha256 : Str
  pub created_at : Time

-- A row of arbitrations. The winner is NULL, or stands with the time and the reason of its lock.
pub record Lock : Type 0 where
  pub winner_candidate_id : Str
  pub locked_at : Time
  pub reason : Str

pub record ArbitrationRow : Type 0 where
  pub job_id : Str
  pub first_approved_at : Time
  pub deadline : Time
  pub lock : Option Lock
  pub evidence : Str
  pub state_revision : ℕ
  pub created_at : Time
  pub updated_at : Time

pub record Store : Type 0 where
  pub jobs : JobStore.Store
  pub candidates : List CandidateStore.Row
  pub approvals : List ApprovalRow
  pub arbitrations : List ArbitrationRow
  pub effects : List Effect
  pub idempotency : List Record

pub data Error : Type 0 where
  not_found identity_mismatch completion_mismatch idempotency_conflict constraint_failed : Error
  stale_arbitration : ℕ → ℕ → Error
  store_error : JobStore.Error → Error
  effect_error : EffectStore.Error → Error
  idempotency_error : IdempotencyStore.Error → Error

-- `ApprovalRecordResult`
pub data Recorded : Type 0 where
  replayed : ℤ → Str → Recorded
  recorded : ArbitrationRow → List Approval → Recorded

module _ {ℓ} {A : Type ℓ} where
  abbrev pub or_not_found : Option A → Result Error A
  or_not_found none = err not_found
  or_not_found (some a) = ok a

  abbrev pub or_store_error : Result JobStore.Error A → Result Error A
  or_store_error (ok a) = ok a
  or_store_error (err e) = err (store_error e)

  abbrev pub or_effect_error : Result EffectStore.Error A → Result Error A
  or_effect_error (ok a) = ok a
  or_effect_error (err e) = err (effect_error e)

  abbrev pub or_idempotency_error : Result IdempotencyStore.Error A → Result Error A
  or_idempotency_error (ok a) = ok a
  or_idempotency_error (err e) = err (idempotency_error e)

unfoldable pub source_text : CandidateSource → Str
source_text slskd = codes "slskd"
source_text spotiflac = codes "spotiflac"
source_text (other s) = s

abbrev pub find_approval : Str → List ApprovalRow → Option ApprovalRow
find_approval id rows = Table.find (λ row. row.candidate_id) id rows

abbrev pub find_arbitration : Str → List ArbitrationRow → Option ArbitrationRow
find_arbitration job_id rows = Table.find (λ row. row.job_id) job_id rows

-- `UPDATE arbitrations SET ... WHERE job_id=? ...` of a row that was read
abbrev pub update_arbitration :
    Str → (ArbitrationRow → ArbitrationRow) → List ArbitrationRow → List ArbitrationRow
update_arbitration job_id f rows = Table.update (λ row. row.job_id) job_id f rows

-- Whether the approval is of the candidate that was acquired for the job's release.
unfoldable pub check_identity : Approval → CandidateStore.Row → Row → Result Error (Unit {0})
check_identity approval c r = do
  reject_if
      (not (same c.job_id approval.job_id)
        || not (same c.source (source_text approval.source))
        || not (same r.job.selected_release_mbid approval.musicbrainz_release_id))
      identity_mismatch
  reject_if (not (same_instant c.completed_at approval.completion_at)) completion_mismatch

unfoldable pub add_approval :
    Approval → Str → Time → List ApprovalRow → Option ApprovalRow → Result Error (List ApprovalRow)
add_approval approval hash at rows (some row) = do
  reject_if (not (same row.request_sha256 hash)) idempotency_conflict
  ok rows
add_approval approval hash at rows none = ok (
    (record {
      candidate_id = approval.candidate_id;
      config_snapshot_id = approval.config_snapshot_id;
      musicbrainz_release_id = approval.musicbrainz_release_id;
      source = approval.source;
      approved_at = utc approval.approved_at;
      completion_at = utc approval.completion_at;
      quality = approval.quality;
      warnings = approval.warnings;
      pipeline_state_revision = approval.pipeline_state_revision;
      request_sha256 = hash;
      created_at = utc at;
    })
    ∷ rows)

-- The row of a job's first approval.
abbrev pub opened : Approval → ℤ → Str → Time → ArbitrationRow
opened approval window body at = record {
  job_id = approval.job_id;
  first_approved_at = utc approval.approved_at;
  deadline = utc (add_duration approval.approved_at window);
  lock = none;
  evidence = body;
  state_revision = 0;
  created_at = utc at;
  updated_at = utc at;
}

-- An approval that is earlier than the first, while no winner is locked.
abbrev pub advanced : Approval → ℤ → Str → Time → ArbitrationRow → ArbitrationRow
advanced approval window body at row = record row {
  first_approved_at = utc approval.approved_at;
  deadline = utc (add_duration approval.approved_at window);
  evidence = body;
  state_revision = bump row.state_revision;
  updated_at = utc at;
}

abbrev pub is_unlocked : ArbitrationRow → Bool
is_unlocked row = elim row.lock [ none ↦ true | some l ↦ false ]

unfoldable pub add_arbitration :
    Approval → ℤ → Str → Time → List ArbitrationRow → Option ArbitrationRow → List ArbitrationRow
add_arbitration approval window body at rows none = opened approval window body at ∷ rows
add_arbitration approval window body at rows (some row) =
    if is_unlocked row && before approval.approved_at row.first_approved_at
    then update_arbitration approval.job_id (advanced approval window body at) rows
    else rows
