-- ===== src/Gateway/JobStore/Context.antt =====
-- jobs.go: the statements on the context of a job's search.
use denyra.Base.{
  ℕ, not, ◌&&◌, none, some, List, [], ◌∷◌, if◌then◌else◌, any, Result, ok, err, ◌>>=◌, ◌>>◌,
  reject_if,
}
use denyra.Base.Text.{Str, codes}
use denyra.Base.Time.{Time, utc}
use denyra.Gateway.Job.{Job}
use denyra.Gateway.JobStore.{Row, Store, Error, stale_context, has_revision, update_rows, is_null}

-- The statements on the search context change one row of the revision, or nothing.
unfoldable pub set_context : Str → ℕ → (Row → Row) → Store → Result Error Store
set_context job_id expected f store = do
  reject_if (not (any (has_revision job_id expected) store.jobs)) stale_context
  ok (record store { jobs = update_rows job_id expected f store.jobs })

abbrev touched : Time → Job → Job
touched at j = record j { updated_at = utc at }

-- `SetSearchContext`
unfoldable pub set_search_context :
    Str → ℕ → Str → Str → Str → Time → Time → Store → Result Error Store
set_search_context job_id expected queue history command started deadline =
    set_context job_id expected (λ r. record r {
      job = touched started r.job;
      queue_watermark = some queue;
      history_watermark = some history;
      command_id = some command;
      correlation_started_at = some (utc started);
      command_deadline = some (utc deadline);
      grace_deadline = none;
    })

-- `SetInitialSearchContext`
unfoldable pub set_initial_search_context :
    Str → ℕ → Str → Str → Time → Time → Time → Store → Result Error Store
set_initial_search_context job_id expected queue history started deadline recovery =
    set_context job_id expected (λ r. record r {
      job = touched started r.job;
      queue_watermark = some queue;
      history_watermark = some history;
      command_id = some (codes "UNKNOWN");
      correlation_started_at = some (utc started);
      command_deadline = some (utc deadline);
      grace_deadline = some (utc recovery);
    })

-- `SetSearchCommandID` and `SetGraceDeadline`
unfoldable pub set_search_command_id : Str → ℕ → Str → Time → Store → Result Error Store
set_search_command_id job_id expected command at =
    set_context job_id expected
      (λ r. record r { job = touched at r.job; command_id = some command })

unfoldable pub set_grace_deadline : Str → ℕ → Time → Time → Store → Result Error Store
set_grace_deadline job_id expected deadline at =
    set_context job_id expected
      (λ r. record r { job = touched at r.job; grace_deadline = some (utc deadline) })

-- `SetOverallDeadline`: the first deadline that is set for a revision stays, and is returned.
unfoldable stored_deadline : List Row → Str → ℕ → Result Error Time
stored_deadline [] job_id expected = err stale_context
stored_deadline (r ∷ rs) job_id expected =
    let rest = stored_deadline rs job_id expected in
    if has_revision job_id expected r
    then elim r.job.overall_deadline [ some t ↦ ok t | none ↦ err stale_context ]
    else rest

unfoldable with_deadline : Time → Time → Row → Row
with_deadline deadline at r =
    if is_null r.job.overall_deadline
    then record r { job = record (touched at r.job) { overall_deadline = some (utc deadline) } }
    else r

unfoldable set_overall_deadline : Str → ℕ → Time → Time → Store → Result Error (Store × Time)
set_overall_deadline job_id expected deadline at store =
    if any (λ r. has_revision job_id expected r && is_null r.job.overall_deadline) store.jobs
    then ok (
      record store { jobs = update_rows job_id expected (with_deadline deadline at) store.jobs },
      utc deadline,
    )
    else stored_deadline store.jobs job_id expected >>= λ t. ok (store, t)
