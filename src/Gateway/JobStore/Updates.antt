-- ===== src/Gateway/JobStore/Updates.antt =====
-- jobs.go: the transactions that move a job and log the transition.
use denyra.Base.{
  ℕ, Bool, not, ◌&&◌, Option, none, some, ◌∷◌, ◌==◌, if◌then◌else◌, Result, ok, err, ◌>>=◌, ◌>>◌,
  reject_if,
}
use denyra.Base.Int.{ℤ, pos, ◌+ℤ◌}
use denyra.Base.Text.{Str, codes, is_empty}
use denyra.Base.Time.{Time, utc}
use denyra.Gateway.State.{State, discovered, primary_retryable_error}
use denyra.Gateway.Job as Job
use denyra.Gateway.Job.{Job, Transition, bump, transition}
use denyra.Gateway.JobStore.{Row, Store, Error, job_error, update_rows, job_query}

-- The row without the context of its search.
abbrev reset_search : Row → Row
reset_search r = record r {
  job = record r.job { overall_deadline = none };
  queue_watermark = none;
  history_watermark = none;
  command_id = none;
  correlation_started_at = none;
  command_deadline = none;
  grace_deadline = none;
}

-- A transaction that changes a row that it has read and logs the transition. The row that was
-- read has the revision of the statement, so that the statement affects it.
abbrev pub commit : Store → Str → ℕ → (Row → Row) → Transition → Store
commit store id expected f event = record store {
  jobs = update_rows id expected f store.jobs;
  state_transitions = event ∷ store.state_transitions;
}

unfoldable pub or_job_error : Result Job.Error (Job × Transition) → Result Error (Job × Transition)
or_job_error (ok p) = ok p
or_job_error (err e) = err (job_error e)

pub record TransitionCommand : Type 0 where
  pub job_id : Str
  pub expected : ℕ
  pub to : State
  pub actor : Str
  pub reason : Str
  pub next_retry_at : Option Time
  pub increment_primary_attempt : Bool
  pub increment_fallback_attempt : Bool
  pub occurred_at : Time

abbrev utc_option : Option Time → Option Time
utc_option none = none
utc_option (some t) = some (utc t)

abbrev increment : Bool → ℤ
increment b = if b then pos 1 else pos 0

-- The columns that `UpdateState` sets.
unfoldable pub updated : TransitionCommand → Job → Row → Row
updated command j r = record r {
  job = record r.job {
    state = j.state;
    revision = j.revision;
    primary_attempt = r.job.primary_attempt +ℤ increment command.increment_primary_attempt;
    fallback_attempt = r.job.fallback_attempt +ℤ increment command.increment_fallback_attempt;
    next_retry_at = utc_option command.next_retry_at;
    updated_at = utc j.updated_at;
  };
}

-- `UpdateState`
unfoldable pub update_state : TransitionCommand → Store → Result Error (Store × Transition)
update_state command store = do
  r ← job_query command.job_id store
  p ← or_job_error (
      transition r.job command.expected command.to command.actor command.reason command.occurred_at)
  ok (commit store command.job_id command.expected (updated command p.0) p.1, p.1)

-- The columns that `RestartAcquisitionCycle` sets.
unfoldable pub restarted : Transition → Time → Time → Row → Row
restarted event next_retry_at at r =
    let s = reset_search r in
    record s {
      job = record s.job {
        state = primary_retryable_error;
        revision = event.revision;
        primary_attempt = r.job.primary_attempt +ℤ pos 1;
        fallback_attempt = pos 0;
        next_retry_at = some (utc next_retry_at);
        updated_at = utc at;
      };
    }

-- `RestartAcquisitionCycle`
unfoldable pub restart_acquisition_cycle :
    Str → ℕ → Time → Time → Store → Result Error (Store × Transition)
restart_acquisition_cycle job_id expected next_retry_at at store = do
  r ← job_query job_id store
  p ← or_job_error (
      transition r.job expected primary_retryable_error (codes "gateway-fallback")
        (codes "fallback acquisition cycle deadline expired") at)
  ok (commit store job_id expected (restarted p.1 next_retry_at at) p.1, p.1)

-- Whether `ReviseSelectedRelease` only fills in a release that was not selected yet.
unfoldable pub is_backfill : Job → Str → Bool
is_backfill j selected = is_empty j.selected_release_mbid && not (is_empty selected)

-- The columns that `ReviseSelectedRelease` sets. It starts a job with another release again from
-- DISCOVERED, whatever its state: the table of the transitions is not asked.
unfoldable pub revised : Bool → Str → Time → Row → Row
revised backfill selected at r =
    let s = if backfill then r else reset_search r in
    let j = s.job in
    record s {
      job = record j {
        selected_release_mbid = selected;
        selected_release_revision = bump j.selected_release_revision;
        state = if backfill then j.state else discovered;
        revision = bump j.revision;
        primary_attempt = if backfill then j.primary_attempt else pos 0;
        fallback_attempt = if backfill then j.fallback_attempt else pos 0;
        next_retry_at = if backfill then j.next_retry_at else none;
        updated_at = utc at;
      };
    }

unfoldable pub revision_event : Bool → Job → Time → Transition
revision_event backfill j at = record {
  job_id = j.id;
  actor = codes "gateway-reconciliation";
  reason =
      if backfill
      then codes "selected MusicBrainz release backfilled from monitored Lidarr release"
      else codes "selected MusicBrainz release changed";
  previous = j.state;
  next = if backfill then j.state else discovered;
  previous_revision = j.revision;
  revision = bump j.revision;
  occurred_at = utc at;
}

-- `ReviseSelectedRelease`
unfoldable pub revise_selected_release : Str → ℕ → Str → Time → Store → Result Error Store
revise_selected_release job_id expected selected at store = do
  r ← job_query job_id store
  reject_if (not (r.job.revision == expected))
      (job_error (Job.stale_revision expected r.job.revision r.job.state))
  ok (
      commit store job_id expected (revised (is_backfill r.job selected) selected at)
        (revision_event (is_backfill r.job selected) r.job at))
