-- ===== src/Gateway/Job.antt =====
-- internal/gateway/domain/job.go: an acquisition job and its audited transitions.
pub mod Audit
use denyra.Base.{
  ℕ, zero, ◌+◌, ◌%◌, ◌^◌, Bool, true, false, not, ◌&&◌, ◌||◌, Option, none, some, ◌==◌, List, [],
  if◌then◌else◌, Result, ok, err, ◌>>=◌, ◌>>◌, reject_if,
}
use denyra.Base.Int.{ℤ, pos, leb_ℤ}
use denyra.Base.Text.{Str, is_empty}
use denyra.Base.Time.{Time, is_zero, utc}
use denyra.Gateway.Identity.{canonical_mbid, is_mbid}
use denyra.Gateway.State.{State, discovered, can_transition}

pub record Job : Type 0 where
  pub id : Str
  pub lidarr_album_id : ℤ
  pub release_group_mbid : Str
  pub selected_release_mbid : Str
  pub selected_release_revision : ℕ  -- uint64
  pub state : State
  pub revision : ℕ  -- uint64
  pub primary_attempt : ℤ
  pub fallback_attempt : ℤ
  pub config_snapshot_id : Str
  pub next_retry_at : Option Time
  pub overall_deadline : Option Time
  pub created_at : Time
  pub updated_at : Time

pub record Transition : Type 0 where
  pub job_id : Str
  pub actor : Str
  pub reason : Str
  pub previous : State
  pub next : State
  pub previous_revision : ℕ
  pub revision : ℕ
  pub occurred_at : Time

-- The errors, the stale revision with its `Expected`, `Current` and `State`.
pub data Error : Type 0 where
  incomplete_identity invalid_release_group audit_fields_required : Error
  stale_revision : ℕ → ℕ → State → Error
  illegal_transition : State → State → Error

-- `revision + 1` on a uint64
abbrev pub bump : ℕ → ℕ
bump n = (n + 1) % 2 ^ 64

-- `NewJob`
unfoldable pub new_job : Str → ℤ → Str → Str → Time → Result Error Job
new_job id album_id release_group config_id now = do
  reject_if (is_empty id || leb_ℤ album_id (pos 0) || is_empty config_id) incomplete_identity
  reject_if (not (is_mbid release_group)) invalid_release_group
  ok (record {
    id = id;
    lidarr_album_id = album_id;
    release_group_mbid = release_group;
    selected_release_mbid = [];
    selected_release_revision = 0;
    state = discovered;
    revision = 0;
    primary_attempt = pos 0;
    fallback_attempt = pos 0;
    config_snapshot_id = config_id;
    next_retry_at = none;
    overall_deadline = none;
    created_at = utc now;
    updated_at = utc now;
  })

-- `Job.Transition`: the changed job with its event. An error leaves the job as it was.
unfoldable pub transition : Job → ℕ → State → Str → Str → Time → Result Error (Job × Transition)
transition j expected to actor reason at = do
  reject_if (not (expected == j.revision)) (stale_revision expected j.revision j.state)
  reject_if (is_empty actor || is_empty reason || is_zero at) audit_fields_required
  reject_if (not (can_transition j.state to)) (illegal_transition j.state to)
  ok (
    record j { state = to; revision = bump j.revision; updated_at = utc at },
    record {
      job_id = j.id;
      actor = actor;
      reason = reason;
      previous = j.state;
      next = to;
      previous_revision = j.revision;
      revision = bump j.revision;
      occurred_at = utc at;
    },
  )
