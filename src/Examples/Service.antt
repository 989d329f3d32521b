-- ===== src/Examples/Service.antt =====
-- Runs of internal/gateway/application/arbitration.go with two approved candidates.
use denyra.Base.{zero, suc, ◌≡◌, refl, true, false, none, some, [], ◌∷◌, ◌++◌, All, Result, ok, err}
use denyra.Base.Int.{ℤ, pos}
use denyra.Base.Text.{Str, codes}
use denyra.Base.Decimal.{decimal}
use denyra.Base.Time.{Time, at_instant}
use denyra.Gateway.Arbitration.{ArbitrationDecision, provenance_priority, decide_arbitration}
use denyra.Gateway.EffectStore.{Effect, is_open}
use denyra.Gateway.ArbitrationStore.{
  Approval, ArbitrationRow, Store, effect_error, find_arbitration,
}
use denyra.Gateway.ArbitrationStore.Transactions.{approvals_of}
use denyra.Gateway.ArbitrationStore.Final.{locks, serve, serve_all, winner_of}
use denyra.Gateway.ArbitrationService.{
  Error, decision_lock, store_error, to_domain_approval, to_domain_approvals,
}
use denyra.Gateway.ArbitrationMessages.{Encoding}
use denyra.Gateway.ArbitrationService.Delivery.{
  Service, Moments, Answer, retryable, responded, is_due, deliver_effects,
}
use denyra.Gateway.ArbitrationService.Handlers.{ensure_late_superseded, evaluate}
use denyra.Gateway.ArbitrationService.Settling.{deliver_effects-settles}
use denyra.Gateway.ArbitrationService.Locking.{lock_for, evaluate-winner}
use denyra.Base.Decimal as Decimal
use denyra.Base.Sort as Sort
use denyra.Base.TimeText as TimeText
use denyra.Base.Table as Table
use denyra.Gateway.State as State
use denyra.Gateway.Job as Job
use denyra.Gateway.JobStore as JobStore
use denyra.Gateway.JobStore.Updates as Updates
use denyra.Gateway.EffectStore as EffectStore
use denyra.Gateway.IdempotencyStore as IdempotencyStore
use denyra.Gateway.CandidateStore as CandidateStore
use denyra.Gateway.ArbitrationStore as ArbitrationStore
use denyra.Gateway.ArbitrationStore.Transactions as Transactions
use denyra.Gateway.ArbitrationMessages as ArbitrationMessages
use denyra.Gateway.ArbitrationService as ArbitrationService
use denyra.Gateway.ArbitrationService.Delivery as Delivery
use denyra.Gateway.ArbitrationService.Requests as Requests
use denyra.Gateway.ArbitrationService.Handlers as Handlers
use denyra.Gateway.Arbitration as Arbitration
use denyra.Base.Int as Int
use denyra.Examples.Acquisition.{before_approvals, approval, second_approval, requests}

abbrev text_of : Time → Str
text_of t = decimal t.instant

-- Encodings that tell the values of these runs apart.
abbrev encoding : Encoding
encoding = record {
  approved = λ r. r.candidate_id;
  winner = λ r. r.candidate_id ++ text_of r.winner_locked_at;
  superseded = λ r. r.candidate_id ++ text_of r.superseded_at;
  cancellation = λ r. r.candidate_id;
  evidence = λ r. r.winner;
  response = λ r. r.state;
  sha256_hex = λ s. s;
  token = λ e. e.idempotency_key;
}

-- The pipeline answers at the second attempt.
abbrev service : Service
service = record {
  pipeline = λ i e. elim i [ zero ↦ retryable | suc n ↦ responded (codes "{}") ];
  canceller = none;
  window = pos 10;
  replay_attempts = pos 2;
  encoding = encoding;
}

abbrev moments : Moments
moments = record {
  received = at_instant 10;
  decided = at_instant 12;
  locked = at_instant 13;
  superseded = at_instant 14;
  delivered = λ e. at_instant 15;
  handed_over = at_instant 16;
  completed = at_instant 17;
}

abbrev both_approved : Store
both_approved = serve_all requests before_approvals

abbrev store_of : Store → Result Error Store → Store
store_of store (ok store') = store'
store_of store (err e) = store

abbrev evaluated : Store
evaluated = store_of both_approved (evaluate service moments [] (codes "job") both_approved)

abbrev undecided : ArbitrationRow
undecided = record {
  job_id = codes "job";
  first_approved_at = at_instant 7;
  deadline = at_instant 17;
  lock = none;
  evidence = codes "b1";
  state_revision = 1;
  created_at = at_instant 10;
  updated_at = at_instant 11;
}

abbrev decision : ArbitrationDecision
decision = record {
  winner = to_domain_approval approval;
  losers = to_domain_approval second_approval ∷ [];
  reason = provenance_priority;
}

-- The store after a lock whose effects have not been delivered.
abbrev locked_only : Store
locked_only =
    serve
      (locks (
        decision_lock encoding (at_instant 13) [] undecided (approval ∷ second_approval ∷ [])
          decision both_approved))
      both_approved

abbrev delivered_again : Store
delivered_again = store_of locked_only (deliver_effects service moments (codes "job") locked_only)

-- Evaluate locks the winner and delivers; the arbitration that it reads and what is decided on it;
-- and a delivery after a lock. The last run is of a message to the loser that was written down with
-- the lock: when the loser's approval is answered later, the message has another time and so another
-- request under the same key.
service_runs :
    (evaluate service moments [] (codes "job") both_approved ≡ ok evaluated)
    × (find_arbitration (codes "job") both_approved.arbitrations ≡ some undecided)
    × (decide_arbitration
          (to_domain_approvals (approvals_of (codes "job") both_approved))
          undecided.deadline
          moments.decided
        ≡ some decision)
    × (deliver_effects service moments (codes "job") locked_only ≡ ok delivered_again)
    × (ensure_late_superseded service (at_instant 14) (codes "one") second_approval evaluated
        ≡ err (store_error (effect_error EffectStore.idempotency_conflict)))
unfolding Handlers.ensure_late_superseded Decimal.decimal Decimal.padded Sort.insert
    Sort.sort_stable TimeText.format_time Table.find State.same_state State.transitions
    State.can_transition Job.transition JobStore.find_row JobStore.has_revision JobStore.update_row
    JobStore.update_rows JobStore.is_parsable JobStore.parsed JobStore.job_query
    Updates.or_job_error Updates.updated Updates.update_state EffectStore.has_key
    EffectStore.differs EffectStore.put_from EffectStore.put_effect EffectStore.is_open
    EffectStore.check_answer EffectStore.acknowledge_effect EffectStore.created_before
    EffectStore.unresolved_effects EffectStore.or_not_found EffectStore.effect
    IdempotencyStore.has_key IdempotencyStore.is_other_request IdempotencyStore.begin_from
    IdempotencyStore.begin_idempotency IdempotencyStore.is_unanswered
    IdempotencyStore.check_response IdempotencyStore.complete_callback CandidateStore.pending_before
    CandidateStore.incomplete_pending_candidates ArbitrationStore.source_text
    ArbitrationStore.check_identity ArbitrationStore.add_approval ArbitrationStore.add_arbitration
    Transactions.moved_on Transactions.move_job Transactions.start_arbitration
    Transactions.approved_before Transactions.joined Transactions.approvals_of
    Transactions.record_new Transactions.record_begun Transactions.record_approval
    Transactions.is_winner Transactions.put_effects Transactions.lock_open Transactions.lock_from
    Transactions.lock_winner ArbitrationMessages.reason_text ArbitrationService.approval_by_id
    ArbitrationService.by_id ArbitrationService.supersede_effect ArbitrationService.winner_effect
    ArbitrationService.cancel_effect ArbitrationService.decision_effects
    ArbitrationService.decision_lock ArbitrationService.lock_decision Delivery.replay
    Delivery.cancel Delivery.deliver_effect Delivery.move_over Delivery.hand_over
    Delivery.mark_handed_off Delivery.mark_winner Delivery.deliver_due Delivery.deliver_each
    Delivery.deliver_effects Requests.check_service Handlers.evaluate_open Handlers.evaluate_from
    Handlers.evaluate Arbitration.negate Arbitration.compare_pairs Arbitration.compare_quality
    Arbitration.source_priority Arbitration.better_approved Arbitration.compare_approved
    Arbitration.decide_arbitration Int.int64 Int.quot_ℤ Int.rem_ℤ
service_runs = (refl, refl, refl, refl, refl)

evaluate-winner_example :
    winner_of (codes "job") evaluated ≡ some (lock_for (at_instant 13) decision)
evaluate-winner_example =
    evaluate-winner service moments [] (codes "job") both_approved evaluated undecided decision
      service_runs.1 refl service_runs.2 service_runs.0

deliver_effects-settles_example :
    All (λ e. is_due (codes "job") e ≡ true → is_open e ≡ false) delivered_again.effects
deliver_effects-settles_example =
    deliver_effects-settles service moments (codes "job") locked_only delivered_again service_runs.3
