-- ===== src/Gateway/ArbitrationService/Handlers.antt =====
-- arbitration.go: Approve, which the pipeline calls, and Evaluate, which the gateway's loop calls.
use denyra.Base.{
  not, Option, none, some, List, [], if◌then◌else◌, Result, ok, ◌>>=◌, ◌>>◌, reject_if,
}
use denyra.Base.Int.{ℤ, pos}
use denyra.Base.Text.{Str, codes, same, is_empty}
use denyra.Base.Time.{Time, before}
use denyra.Gateway.Arbitration.{
  CandidateSource, slskd, spotiflac, other, ArbitrationDecision, decide_arbitration,
}
use denyra.Gateway.CandidateStore as CandidateStore
use denyra.Gateway.CandidateStore.{PendingCandidate, find_candidate}
use denyra.Gateway.EffectStore.{put_effect}
use denyra.Gateway.IdempotencyStore.{complete_callback}
use denyra.Gateway.ArbitrationStore.{
  Approval, ArbitrationRow, Lock, Store, Recorded, replayed, recorded, find_arbitration,
  or_not_found, or_effect_error, or_idempotency_error,
}
use denyra.Gateway.ArbitrationStore.Transactions.{approvals_of, record_approval}
use denyra.Gateway.ArbitrationService.{
  Error, predates_completion, to_domain_approvals, supersede_effect, lock_decision, or_store_error,
}
use denyra.Gateway.ArbitrationMessages.{CandidateApproved, ApprovalResponse}
use denyra.Gateway.ArbitrationService.Delivery.{Service, Moments, deliver_effects}
use denyra.Gateway.ArbitrationService.Requests.{check_service, validate_request}

unfoldable pub source_of : Str → CandidateSource
source_of s =
    if same s (codes "slskd")
    then slskd
    else if same s (codes "spotiflac")
    then spotiflac
    else other s

abbrev pub approval_for : CandidateApproved → CandidateStore.Row → Approval
approval_for request candidate = record {
  candidate_id = request.candidate_id;
  job_id = request.job_id;
  config_snapshot_id = request.config_snapshot_id;
  musicbrainz_release_id = request.musicbrainz_release_id;
  source = source_of candidate.source;
  approved_at = request.approved_at;
  completion_at = candidate.completed_at;
  quality = request.quality;
  warnings = request.warnings;
  pipeline_state_revision = request.state_revision;
}

-- `ensureLateSuperseded`
unfoldable pub ensure_late_superseded : Service → Time → Str → Approval → Store → Result Error Store
ensure_late_superseded service at winner approval store = do
  let e = supersede_effect service.encoding approval.job_id winner approval at
  effects ← or_store_error (or_effect_error (put_effect (service.encoding.token e) e store.effects))
  ok (record store { effects = effects })

-- `completeResponse`
unfoldable pub complete_response :
    Service → Time → Str → ApprovalResponse → Store → Result Error (Store × ℤ × Str)
complete_response service at key response store = do
  let body = service.encoding.response response
  let status = if is_empty response.winner_candidate_id then pos 202 else pos 200
  rows ←
      or_store_error (or_idempotency_error (complete_callback key status body at store.idempotency))
  ok (record store { idempotency = rows }, status, body)

abbrev response_of : CandidateApproved → ArbitrationRow → Str → Str → ApprovalResponse
response_of request a state winner = record {
  job_id = request.job_id;
  candidate_id = request.candidate_id;
  state = state;
  arbitration_ends_at = a.deadline;
  winner_candidate_id = winner;
}

-- What `Approve` does after the winner was locked.
unfoldable pub approve_late :
    Service
    → Moments
    → Str
    → CandidateApproved
    → Approval
    → ArbitrationRow
    → Lock
    → Store
    → Result Error (Store × ℤ × Str)
approve_late service moments key request approval a l store = do
  superseded ←
      if not (same request.candidate_id l.winner_candidate_id)
      then ensure_late_superseded service moments.superseded l.winner_candidate_id approval store
      else ok store
  delivered ← deliver_effects service moments request.job_id superseded
  complete_response service moments.completed key
      (response_of request a (codes "WINNER_LOCKED") l.winner_candidate_id) delivered

unfoldable pub approve_decided :
    Service
    → Moments
    → List PendingCandidate
    → Str
    → CandidateApproved
    → ArbitrationRow
    → List Approval
    → Option ArbitrationDecision
    → Store
    → Result Error (Store × ℤ × Str)
approve_decided service moments pending key request a approvals none store =
    complete_response service moments.completed key (response_of request a (codes "ARBITRATING") [])
      store
approve_decided service moments pending key request a approvals (some d) store = do
  p ← lock_decision service.encoding moments.locked pending a approvals d store
  delivered ← deliver_effects service moments request.job_id p.0
  complete_response service moments.completed key
      (response_of request a (codes "WINNER_LOCKED") d.winner.id) delivered

unfoldable pub approve_from :
    Service
    → Moments
    → List PendingCandidate
    → Str
    → CandidateApproved
    → Approval
    → ArbitrationRow
    → Option Lock
    → List Approval
    → Store
    → Result Error (Store × ℤ × Str)
approve_from service moments pending key request approval a (some l) approvals store =
    approve_late service moments key request approval a l store
approve_from service moments pending key request approval a none approvals store =
    approve_decided service moments pending key request a approvals
      (decide_arbitration (to_domain_approvals approvals) a.deadline moments.decided) store

unfoldable pub approve_recorded :
    Service
    → Moments
    → List PendingCandidate
    → Str
    → CandidateApproved
    → Approval
    → Recorded
    → Store
    → Result Error (Store × ℤ × Str)
approve_recorded service moments pending key request approval (replayed status body) store =
    ok (store, status, body)
approve_recorded service moments pending key request approval (recorded a approvals) store =
    approve_from service moments pending key request approval a a.lock approvals store

-- `Approve`
unfoldable pub approve :
    Service
    → Moments
    → List PendingCandidate
    → Str
    → CandidateApproved
    → Store
    → Result Error (Store × ℤ × Str)
approve service moments pending key request store = do
  validate_request service key request
  let payload = service.encoding.approved request
  candidate ← or_store_error (or_not_found (find_candidate request.candidate_id store.candidates))
  reject_if (before request.approved_at candidate.completed_at) predates_completion
  let approval = approval_for request candidate
  p ← or_store_error (
      record_approval approval service.window key (service.encoding.sha256_hex payload) payload
        moments.received store)
  approve_recorded service moments pending key request approval p.1 p.0

unfoldable pub evaluate_open :
    Service
    → Moments
    → List PendingCandidate
    → Str
    → ArbitrationRow
    → List Approval
    → Option ArbitrationDecision
    → Store
    → Result Error Store
evaluate_open service moments pending job_id a approvals none store = ok store
evaluate_open service moments pending job_id a approvals (some d) store = do
  p ← lock_decision service.encoding moments.locked pending a approvals d store
  deliver_effects service moments job_id p.0

unfoldable pub evaluate_from :
    Service
    → Moments
    → List PendingCandidate
    → Str
    → ArbitrationRow
    → Option Lock
    → Store
    → Result Error Store
evaluate_from service moments pending job_id a (some l) store =
    deliver_effects service moments job_id store
evaluate_from service moments pending job_id a none store =
    let approvals = approvals_of job_id store in
    evaluate_open service moments pending job_id a approvals
      (decide_arbitration (to_domain_approvals approvals) a.deadline moments.decided) store

-- `Evaluate`
unfoldable pub evaluate :
    Service → Moments → List PendingCandidate → Str → Store → Result Error Store
evaluate service moments pending job_id store = do
  check_service service
  a ← or_store_error (or_not_found (find_arbitration job_id store.arbitrations))
  evaluate_from service moments pending job_id a a.lock store
