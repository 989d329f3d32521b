-- ===== src/Gateway/ArbitrationMessages.antt =====
-- internal/contracts/candidate.go and internal/gateway/application/arbitration.go: what the gateway
-- and the pipeline tell each other of a candidate. The encodings in JSON, SHA-256 and the tokens are
-- parameters; a value that cannot be encoded is left out.
use denyra.Base.{ℕ, List}
use denyra.Base.Text.{Str, codes}
use denyra.Base.Time.{Time}
use denyra.Gateway.Arbitration.{
  Quality, ApprovedCandidate, DecisionReason, quality_vector, provenance_priority, completion_time,
  candidate_id, deadline_expired,
}
use denyra.Gateway.EffectStore.{Effect}
use denyra.Gateway.ArbitrationStore.{Warning}

-- `contracts.CandidateApproved`, `CandidateWinner` and `CandidateSuperseded`
pub record CandidateApproved : Type 0 where
  pub request_id : Str
  pub job_id : Str
  pub candidate_id : Str
  pub config_snapshot_id : Str
  pub musicbrainz_release_id : Str
  pub approved_at : Time
  pub quality : Quality
  pub warnings : List Warning
  pub state_revision : ℕ

pub record CandidateWinner : Type 0 where
  pub request_id : Str
  pub job_id : Str
  pub candidate_id : Str
  pub config_snapshot_id : Str
  pub winner_locked_at : Time
  pub reason : Str
  pub quality : Quality
  pub state_revision : ℕ

pub record CandidateSuperseded : Type 0 where
  pub request_id : Str
  pub job_id : Str
  pub candidate_id : Str
  pub config_snapshot_id : Str
  pub winner_candidate_id : Str
  pub reason : Str
  pub superseded_at : Time
  pub state_revision : ℕ

pub record IncompleteCancellation : Type 0 where
  pub job_id : Str
  pub candidate_id : Str
  pub source : Str
  pub source_locator : Str
  pub download_id : Str
  pub reason : Str
  pub cancelled_at : Time

pub record Evidence : Type 0 where
  pub winner : Str
  pub reason : DecisionReason
  pub deadline : Time
  pub approvals : List ApprovedCandidate

pub record ApprovalResponse : Type 0 where
  pub job_id : Str
  pub candidate_id : Str
  pub state : Str
  pub arbitration_ends_at : Time
  pub winner_candidate_id : Str

-- json.Marshal of each type, SHA-256 in hexadecimal, and the token for an effect.
pub record Encoding : Type 0 where
  pub approved : CandidateApproved → Str
  pub winner : CandidateWinner → Str
  pub superseded : CandidateSuperseded → Str
  pub cancellation : IncompleteCancellation → Str
  pub evidence : Evidence → Str
  pub response : ApprovalResponse → Str
  pub sha256_hex : Str → Str
  pub token : Effect → Str

unfoldable pub reason_text : DecisionReason → Str
reason_text quality_vector = codes "QUALITY_VECTOR"
reason_text provenance_priority = codes "PROVENANCE_PRIORITY"
reason_text completion_time = codes "COMPLETION_TIMESTAMP"
reason_text candidate_id = codes "CANDIDATE_ID"
reason_text deadline_expired = codes "ARBITRATION_DEADLINE_EXPIRED"
