-- ===== src/Examples/Stores.antt =====
-- Runs of internal/gateway/persistence/jobs.go.
use denyra.Gateway.JobStore.Updates.{or_job_error}
use denyra.Gateway.JobStore.{is_parsable}
use denyra.Gateway.JobStore.{find_row}
use denyra.Gateway.JobStore.{parsed}
use denyra.Gateway.JobStore.{job_query}
use denyra.Gateway.JobStore.{conflicts}
use denyra.Base.{◌≡◌, refl, true, false, none, [], ◌∷◌, ok, err}
use denyra.Base.Int.{pos}
use denyra.Base.Text.{codes}
use denyra.Base.Time.{at_instant}
use denyra.Gateway.State.{discovered, primary_search_requested}
use denyra.Gateway.Job as Job
use denyra.Gateway.Job.{Job}
use denyra.Gateway.JobStore.{Store, inserted, create_job, constraint_failed, job_error}
use denyra.Gateway.JobStore.Updates.{TransitionCommand, update_state}

abbrev fresh : Job
fresh = record {
  id = codes "job";
  lidarr_album_id = pos 7;
  release_group_mbid = codes "group";
  selected_release_mbid = [];
  selected_release_revision = 0;
  state = discovered;
  revision = 0;
  primary_attempt = pos 0;
  fallback_attempt = pos 0;
  config_snapshot_id = codes "config";
  next_retry_at = none;
  overall_deadline = none;
  created_at = at_instant 5;
  updated_at = at_instant 5;
}

abbrev empty : Store
empty = record { jobs = []; wanted_cycles = []; state_transitions = [] }

abbrev one_job : Store
one_job = record {
  jobs = inserted fresh ∷ [];
  wanted_cycles =
      (record {
        job_id = codes "job";
        lidarr_album_id = pos 7;
        release_group_mbid = codes "group";
        opened_at = at_instant 5;
        closed_at = none;
      })
      ∷ [];
  state_transitions = [];
}

creates : create_job fresh empty ≡ ok one_job
unfolding create_job
creates = refl

second_refused : create_job fresh one_job ≡ err constraint_failed
unfolding create_job conflicts inserted
second_refused = refl

abbrev searches : TransitionCommand
searches = record {
  job_id = codes "job";
  expected = 0;
  to = primary_search_requested;
  actor = codes "worker";
  reason = codes "search";
  next_retry_at = none;
  increment_primary_attempt = true;
  increment_fallback_attempt = false;
  occurred_at = at_instant 6;
}

stale_refused :
    update_state (record searches { expected = 1 }) one_job
    ≡ err (job_error (Job.stale_revision 1 0 discovered))
unfolding update_state job_query parsed find_row inserted is_parsable or_job_error Job.transition
stale_refused = refl
