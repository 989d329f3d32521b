-- ===== src/Pipeline/Candidate.antt =====
-- internal/pipeline/domain/candidate.go and the transition of internal/pipeline/domain/transition.go,
-- with the errors of internal/pipeline/domain/errors.go.
pub mod Creation
pub mod History
use denyra.Base.{
  ℕ, ◌+◌, ◌%◌, ◌^◌, Bool, true, false, not, ◌&&◌, ◌||◌, List, [], ◌∷◌, ◌==◌, leb, if◌then◌else◌,
  length, any, Result, ok, err, ◌>>=◌, ◌>>◌, reject_if,
}
use denyra.Base.Text.{Str, codes, same, is_empty, is_blank, trim_space}
use denyra.Base.Time.{Time, is_zero, before}
use denyra.Base.FilePath.{is_abs, clean}
use denyra.Pipeline.State.{State, received, valid, can_transition}

pub data Source : Type 0 where
  slskd spotiflac other manual : Source
  unknown : Str → Source

-- `Source.Valid`
unfoldable pub valid_source : Source → Bool
valid_source (unknown s) = false
valid_source _ = true

pub record Candidate : Type 0 where
  pub id : Str
  pub source : Source
  pub release_directory : Str
  pub config_snapshot_id : Str
  pub acquisition_evidence_id : Str
  pub gateway_job_id : Str
  pub state : State
  pub state_revision : ℕ  -- uint64
  pub created_at : Time
  pub updated_at : Time

pub record NewCandidate : Type 0 where
  pub id : Str
  pub source : Source
  pub release_directory : Str
  pub config_snapshot_id : Str
  pub acquisition_evidence_id : Str
  pub gateway_job_id : Str
  pub now : Time

pub record TransitionEvent : Type 0 where
  pub candidate_id : Str
  pub actor : Str
  pub reason : Str
  pub previous_state : State
  pub new_state : State
  pub previous_revision : ℕ
  pub revision : ℕ
  pub occurred_at : Time

pub data Error : Type 0 where
  invalid_id missing_evidence unknown_source unsafe_directory timestamp_not_utc : Error
  actor_or_reason_missing timestamp_not_monotonic : Error
  stale_revision : ℕ → ℕ → State → Error
  illegal_transition : State → State → Error

-- The class `[A-Za-z0-9_-]`
abbrev pub is_url_safe : ℕ → Bool
is_url_safe c =
    (leb b'A' c && leb c b'Z')
    || (leb b'a' c && leb c b'z')
    || (leb b'0' c && leb c b'9')
    || c == b'_'
    || c == b'-'

-- `ValidateCandidateID`: a match of `^[A-Za-z0-9_-]{1,128}$`
unfoldable pub validate_candidate_id : Str → Result Error (Unit {0})
validate_candidate_id value =
    if leb 1 (length value) && leb (length value) 128 && not (any (λ c. not (is_url_safe c)) value)
    then ok tt
    else err invalid_id

-- The candidate that `CreateCandidate` returns.
unfoldable pub created : NewCandidate → Candidate
created input = record {
  id = input.id;
  source = input.source;
  release_directory = input.release_directory;
  config_snapshot_id = input.config_snapshot_id;
  acquisition_evidence_id = input.acquisition_evidence_id;
  gateway_job_id = input.gateway_job_id;
  state = received;
  state_revision = 0;
  created_at = input.now;
  updated_at = input.now;
}

-- `CreateCandidate`
unfoldable pub create_candidate : NewCandidate → Result Error Candidate
create_candidate input = do
  validate_candidate_id input.id
  reject_if (is_blank input.config_snapshot_id || is_blank input.acquisition_evidence_id)
      missing_evidence
  reject_if (not (valid_source input.source)) unknown_source
  reject_if
      (not (is_abs input.release_directory)
        || not (same (clean input.release_directory) input.release_directory))
      unsafe_directory
  reject_if (is_zero input.now || not input.now.in_utc) timestamp_not_utc
  ok (created input)

-- `revision + 1` on a uint64
abbrev pub bump : ℕ → ℕ
bump n = (n + 1) % 2 ^ 64

-- `Candidate.Transition`: the changed candidate with its event. An error changes nothing.
unfoldable pub transition :
    Candidate → ℕ → State → Str → Str → Time → Result Error (Candidate × TransitionEvent)
transition c expected to actor reason now = do
  reject_if (not (expected == c.state_revision)) (stale_revision expected c.state_revision c.state)
  reject_if (not (valid c.state) || not (valid to) || not (can_transition c.state to))
      (illegal_transition c.state to)
  reject_if (is_blank actor || is_blank reason) actor_or_reason_missing
  reject_if (is_zero now || not now.in_utc || before now c.updated_at) timestamp_not_monotonic
  ok (
    record c { state = to; state_revision = bump c.state_revision; updated_at = now },
    record {
      candidate_id = c.id;
      actor = trim_space actor;
      reason = trim_space reason;
      previous_state = c.state;
      new_state = to;
      previous_revision = c.state_revision;
      revision = bump c.state_revision;
      occurred_at = now;
    },
  )
