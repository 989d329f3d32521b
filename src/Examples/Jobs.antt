-- ===== src/Examples/Jobs.antt =====
-- Runs of internal/gateway/domain/job.go and state.go.
use denyra.Gateway.Job.Audit.{call}
use denyra.Gateway.Identity.{is_mbid}
use denyra.Base.{◌≡◌, refl, ◌≢◌, ◌↔◌, true, false, List, [], ◌∷◌, none, some, ok, err}
use denyra.Base.Int.{pos}
use denyra.Base.Text.{Str, codes}
use denyra.Base.Time.{at_instant}
use denyra.Gateway.State.{
  discovered, primary_search_requested, arbitrating, winner_locked, handed_off, cancelled, terminal,
  can_transition, parse_state,
}
use denyra.Gateway.State.Paths.{Reach, here, next, cancellable_iff, Reach-handed_off}
use denyra.Gateway.Job.{Job, Transition, transition, new_job, incomplete_identity}
use denyra.Gateway.Job.Audit.{Call, Chain, run, log, log-Chain}

abbrev group : Str
group = codes "11111111-2222-4333-8444-555555555555"

abbrev fresh : Job
fresh = record {
  id = codes "job";
  lidarr_album_id = pos 7;
  release_group_mbid = group;
  selected_release_mbid = [];
  selected_release_revision = 0;
  state = discovered;
  revision = 0;
  primary_attempt = pos 0;
  fallback_attempt = pos 0;
  config_snapshot_id = codes "config";
  next_retry_at = none;
  overall_deadline = none;
  created_at = at_instant 5;
  updated_at = at_instant 5;
}

new_job-fresh : new_job (codes "job") (pos 7) group (codes "config") (at_instant 5) ≡ ok fresh
unfolding new_job is_mbid
new_job-fresh = refl

new_job_unnamed : new_job [] (pos 7) group (codes "config") (at_instant 5) ≡ err incomplete_identity
unfolding new_job
new_job_unnamed = refl

abbrev asked : Job
asked = record fresh { state = primary_search_requested; revision = 1; updated_at = at_instant 9 }

abbrev asked_event : Transition
asked_event = record {
  job_id = codes "job";
  actor = codes "worker";
  reason = codes "search";
  previous = discovered;
  next = primary_search_requested;
  previous_revision = 0;
  revision = 1;
  occurred_at = at_instant 9;
}

asks :
    transition fresh 0 primary_search_requested (codes "worker") (codes "search") (at_instant 9)
    ≡ ok (asked, asked_event)
unfolding transition can_transition
asks = refl

abbrev calls : List Call
calls =
    (record {
      expected = 0;
      to = primary_search_requested;
      actor = codes "worker";
      reason = codes "search";
      at = at_instant 9;
    })
    ∷ (record {
      expected = 0;
      to = cancelled;
      actor = codes "admin";
      reason = codes "stop";
      at = at_instant 9;
    })
    ∷ []

log_of_two : log fresh calls ≡ asked_event ∷ []
unfolding log transition call can_transition
log_of_two = refl

log-Chain_example :
    Chain discovered 0 (log fresh calls) (run fresh calls).state (run fresh calls).revision
log-Chain_example = log-Chain fresh calls

parse_state_samples : parse_state (codes "ARBITRATING") ≡ some arbitrating
unfolding parse_state
parse_state_samples = refl

cancellable_iff_example :
    (can_transition arbitrating cancelled ≡ true)
    ↔ ((terminal arbitrating ≡ false) × (arbitrating ≢ winner_locked))
cancellable_iff_example = cancellable_iff arbitrating tt

locked_walk : Reach winner_locked handed_off
unfolding can_transition
locked_walk = next handed_off here refl

Reach-handed_off_example : Reach discovered handed_off
Reach-handed_off_example = Reach-handed_off discovered tt (λ e. cc)
