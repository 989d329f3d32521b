-- ===== src/Gateway/ArbitrationService/Delivery.antt =====
-- arbitration.go: the effects of a job are delivered, and the job is handed over once the pipeline
-- has accepted its winner. The clients of the other services, which read the stored request, are
-- parameters.
use denyra.Base.{
  ℕ, zero, suc, Bool, false, not, ◌&&◌, ◌||◌, Option, none, some, List, [], ◌∷◌, ◌++◌,
  if◌then◌else◌, Result, ok, err, ◌>>=◌,
}
use denyra.Base.Int.{ℤ, pos_part}
use denyra.Base.Text.{Str, codes, same}
use denyra.Base.Time.{Time}
use denyra.Gateway.State.{winner_locked, handed_off, same_state}
use denyra.Gateway.Job.{Job}
use denyra.Gateway.JobStore.{job_query}
use denyra.Gateway.JobStore.Updates.{TransitionCommand, update_state}
use denyra.Gateway.EffectStore.{Effect, effect, is_open, acknowledge_effect, unresolved_effects}
use denyra.Gateway.ArbitrationStore.{Lock, Store, find_arbitration, or_not_found, or_effect_error}
use denyra.Gateway.ArbitrationService.{
  Error, delivery_failed, unsupported_effect, or_store_error, or_job_error,
}
use denyra.Gateway.ArbitrationMessages.{Encoding}

-- What a call of the pipeline gives: a body, an error that is worth another attempt, or another.
pub data Answer : Type 0 where
  responded : Str → Answer
  retryable failed : Answer

-- `ArbitrationService`. The pipeline is asked with the number of the attempt, and nothing is
-- assumed of it. A canceller need not be there.
pub record Service : Type 0 where
  pub pipeline : ℕ → Effect → Answer
  pub canceller : Option (Effect → Option Str)
  pub window : ℤ
  pub replay_attempts : ℤ
  pub encoding : Encoding

-- The times that `service.now` gives, for the calls of it that matter.
pub record Moments : Type 0 where
  pub received : Time
  pub decided : Time
  pub locked : Time
  pub superseded : Time
  pub delivered : Effect → Time
  pub handed_over : Time
  pub completed : Time

-- The loop over the attempts, with the number of those that are left.
unfoldable pub replay : (ℕ → Answer) → ℕ → ℕ → Result Error Str → Result Error Str
replay call i zero last = last
replay call i (suc n) last =
    let later = replay call (suc i) n (err delivery_failed) in
    elim (call i) [ responded body ↦ ok body | retryable ↦ later | failed ↦ err delivery_failed ]

unfoldable pub cancel : Option (Effect → Option Str) → Effect → Result Error Str
cancel none e = err delivery_failed
cancel (some canceller) e = elim (canceller e) [ none ↦ err delivery_failed | some body ↦ ok body ]

abbrev pub is_pipeline_effect : Effect → Bool
is_pipeline_effect e =
    same e.effect_type (codes "PIPELINE_WINNER") || same e.effect_type (codes "PIPELINE_SUPERSEDE")

-- `deliverEffect`
unfoldable pub deliver_effect : Service → Effect → Result Error Str
deliver_effect service e =
    if is_pipeline_effect e
    then replay (λ i. service.pipeline i e) 0 (pos_part service.replay_attempts) (ok [])
    else if same e.effect_type (codes "TRANSFER_CANCEL")
    then cancel service.canceller e
    else err unsupported_effect

abbrev pub handed_over_command : Job → Time → TransitionCommand
handed_over_command job at = record {
  job_id = job.id;
  expected = job.revision;
  to = handed_off;
  actor = codes "gateway-arbitration";
  reason = codes "winner durably accepted by media-pipeline";
  next_retry_at = none;
  increment_primary_attempt = false;
  increment_fallback_attempt = false;
  occurred_at = at;
}

unfoldable pub move_over : Job → Time → Store → Result Error Store
move_over job at store = do
  p ← or_job_error (update_state (handed_over_command job at) store.jobs)
  ok (record store { jobs = p.0 })

-- The move of `markHandedOffIfWinnerAccepted`, which leaves a job alone in another state.
unfoldable pub hand_over : Str → Time → Store → Result Error Store
hand_over job_id at store = do
  r ← or_job_error (job_query job_id store.jobs)
  if not (same_state r.job.state winner_locked) then ok store else move_over r.job at store

-- `markHandedOffIfWinnerAccepted`
unfoldable pub mark_handed_off : Str → Str → Time → Store → Result Error Store
mark_handed_off job_id key at store = do
  e ← or_store_error (or_effect_error (effect key store.effects))
  if is_open e then ok store else hand_over job_id at store

abbrev pub mark_lock : Str → Time → Option Lock → Store → Result Error Store
mark_lock job_id at none store = ok store
mark_lock job_id at (some l) store =
    mark_handed_off job_id (codes "winner-" ++ l.winner_candidate_id) at store

-- With the winner of the arbitration, if there is one.
unfoldable pub mark_winner : Str → Time → Store → Result Error Store
mark_winner job_id at store = do
  a ← or_store_error (or_not_found (find_arbitration job_id store.arbitrations))
  mark_lock job_id at a.lock store

-- The effects that the loop does not pass over.
abbrev pub is_due : Str → Effect → Bool
is_due job_id e =
    same e.job_id job_id && (is_pipeline_effect e || same e.effect_type (codes "TRANSFER_CANCEL"))

unfoldable pub deliver_due : Service → Moments → Str → Effect → Store → Result Error Store
deliver_due service moments job_id e store = do
  body ← deliver_effect service e
  effects ← or_store_error (
      or_effect_error (
        acknowledge_effect e.idempotency_key body (service.encoding.sha256_hex body)
          (moments.delivered e) store.effects))
  let store' = record store { effects = effects }
  if same e.effect_type (codes "PIPELINE_WINNER")
      then mark_handed_off job_id e.idempotency_key moments.handed_over store'
      else ok store'

unfoldable pub deliver_each : Service → Moments → Str → List Effect → Store → Result Error Store
deliver_each service moments job_id [] store = ok store
deliver_each service moments job_id (e ∷ es) store = do
  store' ← if is_due job_id e then deliver_due service moments job_id e store else ok store
  deliver_each service moments job_id es store'

-- `deliverEffects`
unfoldable pub deliver_effects : Service → Moments → Str → Store → Result Error Store
deliver_effects service moments job_id store = do
  marked ← mark_winner job_id moments.handed_over store
  delivered ← deliver_each service moments job_id (unresolved_effects [] marked.effects) marked
  mark_winner job_id moments.handed_over delivered
