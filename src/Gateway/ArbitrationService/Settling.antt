-- ===== src/Gateway/ArbitrationService/Settling.antt =====
-- A delivery that succeeds leaves nothing of the job to deliver.
use denyra.Base.{
  ◌≡◌, sym, ap, subst, true, false, List, [], ◌∷◌, All, All-mono, Result, ok, err, Bool-cases, inl,
  inr, ok-injective, >>=-eq-ok,
}
use denyra.Base.Text.{Str, codes, same}
use denyra.Gateway.EffectStore.{
  Effect, has_key, find_effect, is_open, answered, check_answer, acknowledge_effect, created_before,
  unresolved_effects,
}
use denyra.Gateway.EffectStore as EffectStore
use denyra.Gateway.ArbitrationStore.{Store, or_effect_error}
use denyra.Gateway.ArbitrationService.{or_store_error}
use denyra.Gateway.ArbitrationService.Delivery.{
  Service, Moments, is_due, deliver_effect, mark_winner, deliver_due, deliver_each, deliver_effects,
}
use denyra.Gateway.ArbitrationService.Frame.{
  Keeps, same_store, mark_handed_off-Keeps, mark_winner-Keeps,
}
use denyra.Gateway.ArbitrationService.Coming.{
  AreComing, acknowledge_effect-coming, passed-coming, unresolved_effects-coming,
}

or_errors-ok :
    (m : Result EffectStore.Error (List Effect)) {rows : List Effect}
    → or_store_error (or_effect_error m) ≡ ok rows
    → m ≡ ok rows
or_errors-ok (ok rows) h = ap ok (ok-injective h)
or_errors-ok (err e) h = absurd (cc)

deliver_due-coming :
    (service : Service) (moments : Moments) (job_id : Str) (e : Effect) (es : List Effect)
    (store : Store) {store' : Store}
    → deliver_due service moments job_id e store ≡ ok store'
    → AreComing job_id (e ∷ es) store.effects
    → AreComing job_id es store'.effects
unfolding deliver_due
deliver_due-coming service moments job_id e es store {store'} h c =
    let (body, _, k) = >>=-eq-ok (deliver_effect service e) _ h in
    let acknowledged =
      acknowledge_effect e.idempotency_key body (service.encoding.sha256_hex body)
        (moments.delivered e) store.effects in
    let (effects, read, done) = >>=-eq-ok (or_store_error (or_effect_error acknowledged)) _ k in
    let store₁ = record store { effects = effects } in
    let c' : AreComing job_id es effects =
      acknowledge_effect-coming job_id body (service.encoding.sha256_hex body) (moments.delivered e)
        e es store.effects effects (or_errors-ok acknowledged read) c in
    let kept : Keeps store₁ store' =
      elim (Bool-cases (same e.effect_type (codes "PIPELINE_WINNER"))) [
        | inl w ↦
            mark_handed_off-Keeps job_id e.idempotency_key moments.handed_over store₁ (rw w at done)
        | inr w ↦ same_store store₁ (rw w at done)
      ] in
    subst (AreComing job_id es) (sym kept.1) c'

deliver_each-coming :
    (service : Service) (moments : Moments) (job_id : Str) (es : List Effect) (store : Store)
    {store' : Store}
    → deliver_each service moments job_id es store ≡ ok store'
    → AreComing job_id es store.effects
    → AreComing job_id [] store'.effects
unfolding deliver_each
deliver_each-coming service moments job_id [] store h c =
    subst (AreComing job_id []) (sym (same_store store h).1) c
deliver_each-coming service moments job_id (e ∷ es) store h c =
    elim (Bool-cases (is_due job_id e)) [
      | inl d ↦
          let (store₁, done, rest) =
            >>=-eq-ok (deliver_due service moments job_id e store) _ (rw d at h) in
          deliver_each-coming service moments job_id es store₁ rest
            (deliver_due-coming service moments job_id e es store done c)
      | inr d ↦
          deliver_each-coming service moments job_id es store (rw d at h)
            (passed-coming job_id e es store.effects d c)
    ]

-- If the delivery of a job's effects succeeds, whatever the other services answered before, every
-- effect of the arbitration of this job has an answer: no winner is left untold, no loser without
-- its message, and no transfer without its cancellation.
pub deliver_effects-settles :
    (service : Service) (moments : Moments) (job_id : Str) (store store' : Store)
    → deliver_effects service moments job_id store ≡ ok store'
    → All (λ e. is_due job_id e ≡ true → is_open e ≡ false) store'.effects
unfolding deliver_effects
deliver_effects-settles service moments job_id store store' h =
    let (marked, first, k) = >>=-eq-ok (mark_winner job_id moments.handed_over store) _ h in
    let (delivered, done, last) =
      >>=-eq-ok (deliver_each service moments job_id (unresolved_effects [] marked.effects) marked)
        _ k in
    let settled : AreComing job_id [] delivered.effects =
      deliver_each-coming service moments job_id (unresolved_effects [] marked.effects) marked done
        (unresolved_effects-coming job_id marked.effects) in
    subst (All (λ e. is_due job_id e ≡ true → is_open e ≡ false))
      (sym (mark_winner-Keeps job_id moments.handed_over delivered last).1)
      (All-mono delivered.effects
        (λ e f due. elim (Bool-cases (is_open e)) [
          | inl o ↦ absurd (let no = f due o in cc)
          | inr o ↦ o
        ])
        settled)
