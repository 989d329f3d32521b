-- ===== src/Gateway/ArbitrationService.antt =====
-- internal/gateway/application/arbitration.go: what the gateway asks of the pipeline once a winner
-- is decided. The effects are written down with the lock.
pub mod Delivery
pub mod Requests
pub mod Handlers
pub mod Frame
pub mod Coming
pub mod Settling
pub mod Chosen
pub mod Locking
use denyra.Base.{
  ℕ, suc, Bool, true, false, not, ◌&&◌, ◌||◌, Option, none, some, List, [], ◌∷◌, ◌++◌,
  if◌then◌else◌, any, map, length, keep, Result, ok, err, ◌>>=◌, ◌>>◌, reject_if,
}
use denyra.Base.Int.{ℤ, pos, ltb_ℤ, leb_ℤ, same_ℤ}
use denyra.Base.Text.{Str, codes, same, is_empty}
use denyra.Base.Time.{Time, zero_time, is_zero, before, utc}
use denyra.Gateway.Identity.{is_mbid}
use denyra.Gateway.Arbitration.{
  Quality, CandidateSource, slskd, spotiflac, other, ApprovedCandidate, ArbitrationDecision,
  DecisionReason, quality_vector, provenance_priority, completion_time, candidate_id,
  deadline_expired,
}
use denyra.Gateway.JobStore as JobStore
use denyra.Gateway.CandidateStore.{PendingCandidate, incomplete_pending_candidates}
use denyra.Gateway.ArbitrationMessages.{
  CandidateApproved, CandidateWinner, CandidateSuperseded, IncompleteCancellation, Evidence,
  ApprovalResponse, Encoding, reason_text,
}
use denyra.Gateway.EffectStore.{Effect, intended}
use denyra.Gateway.ArbitrationStore as ArbitrationStore
use denyra.Gateway.ArbitrationStore.{
  WarningClass, quality_warning, non_blocking_warning, other_class, Warning, Approval,
  ArbitrationRow, Store,
}
use denyra.Gateway.ArbitrationStore.Transactions.{WinnerLock, lock_winner}

-- The errors.
pub data Error : Type 0 where
  not_configured identity_required invalid_release invalid_warning quality_mismatch : Error
  predates_completion delivery_failed unsupported_effect : Error
  store_error : ArbitrationStore.Error → Error
  job_error : JobStore.Error → Error

abbrev is_non_blocking : WarningClass → Bool
is_non_blocking non_blocking_warning = true
is_non_blocking _ = false

abbrev pub is_quality : WarningClass → Bool
is_quality quality_warning = true
is_quality _ = false

abbrev pub is_other_class : WarningClass → Bool
is_other_class (other_class s) = true
is_other_class _ = false

-- `toDomainApprovals`
abbrev pub to_domain_approval : Approval → ApprovedCandidate
to_domain_approval a = record {
  id = a.candidate_id;
  source = a.source;
  approved_at = a.approved_at;
  completion_at = a.completion_at;
  state_revision = a.pipeline_state_revision;
  quality = a.quality;
  non_blocking_warning_count =
      pos (length (keep (λ (w : Warning). is_non_blocking w.class) a.warnings));
}

abbrev pub to_domain_approvals : List Approval → List ApprovedCandidate
to_domain_approvals approvals = map to_domain_approval approvals

-- The zero value of an approval.
abbrev pub no_approval : Approval
no_approval = record {
  candidate_id = [];
  job_id = [];
  config_snapshot_id = [];
  musicbrainz_release_id = [];
  source = other [];
  approved_at = zero_time;
  completion_at = zero_time;
  quality = record {
    identity_rank = pos 0;
    edition_rank = pos 0;
    quality_warning_count = pos 0;
    source_confidence = pos 0;
    bit_depth = pos 0;
    sample_rate = pos 0;
  };
  warnings = [];
  pipeline_state_revision = 0;
}

-- `approvalByID`
unfoldable pub approval_by_id : List Approval → Str → Approval
approval_by_id [] id = no_approval
approval_by_id (a ∷ approvals) id =
    let rest = approval_by_id approvals id in if same a.candidate_id id then a else rest

-- `byID[id]`, where the last approval of an identifier is kept.
unfoldable pub by_id : List Approval → Str → Approval → Approval
by_id [] id found = found
by_id (a ∷ approvals) id found = by_id approvals id (if same a.candidate_id id then a else found)

-- `effectFor`
abbrev pub effect_for : Encoding → Str → Str → Str → Str → Time → Effect
effect_for encoding job_id kind key payload at = record {
  id = [];
  job_id = job_id;
  effect_type = kind;
  idempotency_key = key;
  request_hash = encoding.sha256_hex payload;
  request = payload;
  status = intended;
  response = none;
  response_hash = none;
  created_at = at;
  acknowledged_at = none;
}

unfoldable pub supersede_effect : Encoding → Str → Str → Approval → Time → Effect
supersede_effect encoding job_id winner a at =
    let key = codes "supersede-" ++ a.candidate_id in
    effect_for encoding job_id (codes "PIPELINE_SUPERSEDE") key
      (encoding.superseded (record {
        request_id = key;
        job_id = a.job_id;
        candidate_id = a.candidate_id;
        config_snapshot_id = a.config_snapshot_id;
        winner_candidate_id = winner;
        reason = codes "SUPERSEDED";
        superseded_at = at;
        state_revision = a.pipeline_state_revision;
      }))
      at

unfoldable pub winner_effect : Encoding → Approval → Str → Time → Effect
winner_effect encoding w reason at =
    let key = codes "winner-" ++ w.candidate_id in
    effect_for encoding w.job_id (codes "PIPELINE_WINNER") key
      (encoding.winner (record {
        request_id = key;
        job_id = w.job_id;
        candidate_id = w.candidate_id;
        config_snapshot_id = w.config_snapshot_id;
        winner_locked_at = at;
        reason = reason;
        quality = w.quality;
        state_revision = w.pipeline_state_revision;
      }))
      at

unfoldable pub cancel_effect : Encoding → Str → Time → PendingCandidate → Effect
cancel_effect encoding job_id at c =
    effect_for encoding job_id (codes "TRANSFER_CANCEL") (codes "cancel-" ++ c.id)
      (encoding.cancellation (record {
        job_id = job_id;
        candidate_id = c.id;
        source = c.source;
        source_locator = c.source_locator;
        download_id = c.download_id;
        reason = codes "SUPERSEDED_CANCELLED";
        cancelled_at = at;
      }))
      at

-- `decisionEffects`
unfoldable pub decision_effects :
    Encoding
    → Approval
    → List Approval
    → ArbitrationDecision
    → Str
    → Time
    → List PendingCandidate
    → List Effect
decision_effects encoding w approvals d reason at incomplete =
    winner_effect encoding w reason at
      ∷ map
          (λ loser.
            supersede_effect encoding w.job_id w.candidate_id (approval_by_id approvals loser.id)
              at)
          d.losers
    ++ map (cancel_effect encoding w.job_id at) incomplete

-- What `lockDecision` asks of the store.
unfoldable pub decision_lock :
    Encoding
    → Time
    → List PendingCandidate
    → ArbitrationRow
    → List Approval
    → ArbitrationDecision
    → Store
    → WinnerLock
decision_lock encoding at pending a approvals d store =
    let w = by_id approvals d.winner.id no_approval in
    let incomplete = incomplete_pending_candidates w.job_id store.candidates pending in
    record {
      job_id = a.job_id;
      candidate_id = w.candidate_id;
      reason = reason_text d.reason;
      expected_revision = a.state_revision;
      evidence = encoding.evidence (record {
        winner = w.candidate_id;
        reason = d.reason;
        deadline = a.deadline;
        approvals = to_domain_approvals approvals;
      });
      effects =
          map (λ e. (encoding.token e, e))
            (decision_effects encoding w approvals d (reason_text d.reason) at incomplete);
      locked_at = at;
    }

module _ {ℓ} {A : Type ℓ} where
  abbrev pub or_store_error : Result ArbitrationStore.Error A → Result Error A
  or_store_error (ok a) = ok a
  or_store_error (err e) = err (store_error e)

  abbrev pub or_job_error : Result JobStore.Error A → Result Error A
  or_job_error (ok a) = ok a
  or_job_error (err e) = err (job_error e)

-- `lockDecision`
unfoldable pub lock_decision :
    Encoding
    → Time
    → List PendingCandidate
    → ArbitrationRow
    → List Approval
    → ArbitrationDecision
    → Store
    → Result Error (Store × Bool)
lock_decision encoding at pending a approvals d store =
    or_store_error (lock_winner (decision_lock encoding at pending a approvals d store) store)
