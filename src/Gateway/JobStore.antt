-- ===== src/Gateway/JobStore.antt =====
-- internal/gateway/persistence/jobs.go: the rows of acquisition_jobs, acquisition_wanted_cycles and
-- state_transitions, and the statements on them. A transaction is one step: with an error the store
-- is as it was. The failures of the database itself, the times' text format and the random
-- identifiers of the transitions' rows are left out.
pub mod Updates
pub mod Context
pub mod Rows
pub mod Agreement
pub mod Statements
use denyra.Base.{
  ℕ, ◌+◌, Bool, true, false, not, ◌&&◌, ◌||◌, Option, none, some, List, [], ◌∷◌, ◌==◌,
  if◌then◌else◌, any, map, Result, ok, err, ◌>>=◌, ◌>>◌, reject_if,
}
use denyra.Base.Int.{ℤ, pos, ◌+ℤ◌, leb_ℤ, same_ℤ}
use denyra.Base.Text.{Str, codes, same, is_empty}
use denyra.Base.Time.{Time, utc}
use denyra.Gateway.State.{
  State, discovered, primary_retryable_error, handed_off, cancelled, unknown, same_state,
}
use denyra.Gateway.Job as Job
use denyra.Gateway.Job.{Job, Transition, bump, transition}

-- A row of acquisition_jobs: what `jobQuery` reads, and the context of the search.
pub record Row : Type 0 where
  pub job : Job
  pub queue_watermark : Option Str
  pub history_watermark : Option Str
  pub command_id : Option Str
  pub correlation_started_at : Option Time
  pub command_deadline : Option Time
  pub grace_deadline : Option Time

pub record WantedCycle : Type 0 where
  pub job_id : Str
  pub lidarr_album_id : ℤ
  pub release_group_mbid : Str
  pub opened_at : Time
  pub closed_at : Option Time

-- The tables, the last transition first.
pub record Store : Type 0 where
  pub jobs : List Row
  pub wanted_cycles : List WantedCycle
  pub state_transitions : List Transition

pub data Error : Type 0 where
  not_found unparsable_state constraint_failed stale_context : Error
  job_error : Job.Error → Error

abbrev pub row_id : Row → Str
row_id r = r.job.id

unfoldable pub find_row : Str → List Row → Option Row
find_row id [] = none
find_row id (r ∷ rs) = let rest = find_row id rs in if same id (row_id r) then some r else rest

-- `UPDATE acquisition_jobs SET ... WHERE id=? AND state_revision=?`, and the rows it affects.
unfoldable pub has_revision : Str → ℕ → Row → Bool
has_revision id expected r = same id (row_id r) && r.job.revision == expected

unfoldable pub update_row : Str → ℕ → (Row → Row) → Row → Row
update_row id expected f r = if has_revision id expected r then f r else r

unfoldable pub update_rows : Str → ℕ → (Row → Row) → List Row → List Row
update_rows id expected f [] = []
update_rows id expected f (r ∷ rs) = update_row id expected f r ∷ update_rows id expected f rs

unfoldable pub is_parsable : State → Bool
is_parsable (unknown s) = false
is_parsable _ = true

unfoldable pub parsed : Option Row → Result Error Row
parsed none = err not_found
parsed (some r) = if is_parsable r.job.state then ok r else err unparsable_state

-- `jobQuery`
unfoldable pub job_query : Str → Store → Result Error Row
job_query id store = parsed (find_row id store.jobs)

-- The unique index on active jobs, by the states that it leaves out.
unfoldable pub is_active : State → Bool
is_active s = not (same_state s handed_off) && not (same_state s cancelled)

unfoldable pub conflicts : Job → Row → Bool
conflicts job r =
    same job.id (row_id r)
    || (is_active job.state
        && is_active r.job.state
        && same_ℤ job.lidarr_album_id r.job.lidarr_album_id
        && same job.release_group_mbid r.job.release_group_mbid)

-- A column that is NULL.
abbrev pub is_null : Option Time → Bool
is_null none = true
is_null (some t) = false

unfoldable pub cycle_conflicts : Job → WantedCycle → Bool
cycle_conflicts job c =
    same job.id c.job_id
    || (is_null c.closed_at
        && same_ℤ job.lidarr_album_id c.lidarr_album_id
        && same job.release_group_mbid c.release_group_mbid)

-- The row that `CreateJob` inserts; the columns that it does not name have their defaults.
unfoldable pub inserted : Job → Row
inserted job = record {
  job = record job {
    selected_release_revision = 0;
    primary_attempt = pos 0;
    fallback_attempt = pos 0;
    next_retry_at = none;
    overall_deadline = none;
    created_at = utc job.created_at;
    updated_at = utc job.updated_at;
  };
  queue_watermark = none;
  history_watermark = none;
  command_id = none;
  correlation_started_at = none;
  command_deadline = none;
  grace_deadline = none;
}

-- `CreateJob`
unfoldable pub create_job : Job → Store → Result Error Store
create_job job store = do
  reject_if (leb_ℤ job.lidarr_album_id (pos 0) || any (conflicts job) store.jobs) constraint_failed
  reject_if (any (cycle_conflicts job) store.wanted_cycles) constraint_failed
  ok (record store {
    jobs = inserted job ∷ store.jobs;
    wanted_cycles =
        (record {
          job_id = job.id;
          lidarr_album_id = job.lidarr_album_id;
          release_group_mbid = job.release_group_mbid;
          opened_at = utc job.created_at;
          closed_at = none;
        })
        ∷ store.wanted_cycles;
  })

-- `FindActiveJob`, by the open cycle of an album.
unfoldable open_cycle : ℤ → Str → List WantedCycle → Option Str
open_cycle album_id release_group [] = none
open_cycle album_id release_group (c ∷ cs) =
    let rest = open_cycle album_id release_group cs in
    if same_ℤ c.lidarr_album_id album_id
      && same c.release_group_mbid release_group
      && is_null c.closed_at
    then some c.job_id
    else rest

unfoldable find_active_job : ℤ → Str → Store → Result Error Row
find_active_job album_id release_group store =
    elim (open_cycle album_id release_group store.wanted_cycles) [
      | none ↦ err not_found
      | some id ↦ job_query id store
    ]
