-- ===== src/Gateway/ArbitrationService/Frame.antt =====
-- The delivery of effects changes no arbitration.
use denyra.Base.{
  ◌≡◌, sym, ap, ◌∙◌, not, Option, none, some, List, [], ◌∷◌, ◌++◌, Result, ok, Bool-cases, inl, inr,
  ok-injective, >>=-eq-ok,
}
use denyra.Base.Text.{Str, codes, same}
use denyra.Base.Time.{Time}
use denyra.Gateway.State.{winner_locked, same_state}
use denyra.Gateway.Job.{Job}
use denyra.Gateway.JobStore.{job_query}
use denyra.Gateway.JobStore.Updates.{update_state}
use denyra.Gateway.EffectStore.{Effect, effect, is_open, acknowledge_effect, unresolved_effects}
use denyra.Gateway.ArbitrationStore.{Lock, Store, find_arbitration, or_not_found, or_effect_error}
use denyra.Gateway.ArbitrationService.{Error, or_store_error, or_job_error}
use denyra.Gateway.ArbitrationService.Delivery.{
  Service, Moments, handed_over_command, move_over, hand_over, mark_handed_off, mark_lock,
  mark_winner, is_due, deliver_effect, deliver_due, deliver_each, deliver_effects,
}

-- Two stores with the same arbitrations and effects.
abbrev pub Keeps : Store → Store → Type 0
Keeps store store' = (store'.arbitrations ≡ store.arbitrations) × (store'.effects ≡ store.effects)

abbrev pub as_result : Store → Result Error Store
as_result store = ok store

pub same_store :
    (store : Store) {store' : Store} → as_result store ≡ as_result store' → Keeps store store'
same_store store h =
    let e = sym (ok-injective h) in
    (ap (λ (s : Store). s.arbitrations) e, ap (λ (s : Store). s.effects) e)

move_over-Keeps :
    (job : Job) (at : Time) (store : Store) {store' : Store}
    → move_over job at store ≡ ok store'
    → Keeps store store'
unfolding move_over
move_over-Keeps job at store h =
    let (p, _, done) =
      >>=-eq-ok (or_job_error (update_state (handed_over_command job at) store.jobs)) _ h in
    same_store (record store { jobs = p.0 }) done

hand_over-Keeps :
    (job_id : Str) (at : Time) (store : Store) {store' : Store}
    → hand_over job_id at store ≡ ok store'
    → Keeps store store'
unfolding hand_over
hand_over-Keeps job_id at store h =
    let (r, _, k) = >>=-eq-ok (or_job_error (job_query job_id store.jobs)) _ h in
    elim (Bool-cases (not (same_state r.job.state winner_locked))) [
      | inl e ↦ same_store store (rw e at k)
      | inr e ↦ move_over-Keeps r.job at store (rw e at k)
    ]

pub mark_handed_off-Keeps :
    (job_id key : Str) (at : Time) (store : Store) {store' : Store}
    → mark_handed_off job_id key at store ≡ ok store'
    → Keeps store store'
unfolding mark_handed_off
mark_handed_off-Keeps job_id key at store h =
    let (e, _, k) = >>=-eq-ok (or_store_error (or_effect_error (effect key store.effects))) _ h in
    elim (Bool-cases (is_open e)) [
      | inl o ↦ same_store store (rw o at k)
      | inr o ↦ hand_over-Keeps job_id at store (rw o at k)
    ]

mark_lock-Keeps :
    (job_id : Str) (at : Time) (l : Option Lock) (store : Store) {store' : Store}
    → mark_lock job_id at l store ≡ ok store'
    → Keeps store store'
mark_lock-Keeps job_id at none store h = same_store store h
mark_lock-Keeps job_id at (some l) store h =
    mark_handed_off-Keeps job_id (codes "winner-" ++ l.winner_candidate_id) at store h

pub mark_winner-Keeps :
    (job_id : Str) (at : Time) (store : Store) {store' : Store}
    → mark_winner job_id at store ≡ ok store'
    → Keeps store store'
unfolding mark_winner
mark_winner-Keeps job_id at store h =
    let (a, _, k) =
      >>=-eq-ok (or_store_error (or_not_found (find_arbitration job_id store.arbitrations))) _ h in
    mark_lock-Keeps job_id at a.lock store k

deliver_due-arbitrations :
    (service : Service) (moments : Moments) (job_id : Str) (e : Effect) (store : Store)
    {store' : Store}
    → deliver_due service moments job_id e store ≡ ok store'
    → store'.arbitrations ≡ store.arbitrations
unfolding deliver_due
deliver_due-arbitrations service moments job_id e store h =
    let (body, _, k) = >>=-eq-ok (deliver_effect service e) _ h in
    let (effects, _, done) =
      >>=-eq-ok
        (or_store_error (
          or_effect_error (
            acknowledge_effect e.idempotency_key body (service.encoding.sha256_hex body)
              (moments.delivered e) store.effects)))
        _ k in
    let store₁ = record store { effects = effects } in
    elim (Bool-cases (same e.effect_type (codes "PIPELINE_WINNER"))) [
      | inl w ↦
          (mark_handed_off-Keeps job_id e.idempotency_key moments.handed_over store₁
            (rw w at done)).0
      | inr w ↦ (same_store store₁ (rw w at done)).0
    ]

deliver_each-arbitrations :
    (service : Service) (moments : Moments) (job_id : Str) (es : List Effect) (store : Store)
    {store' : Store}
    → deliver_each service moments job_id es store ≡ ok store'
    → store'.arbitrations ≡ store.arbitrations
unfolding deliver_each
deliver_each-arbitrations service moments job_id [] store h = (same_store store h).0
deliver_each-arbitrations service moments job_id (e ∷ es) store h =
    elim (Bool-cases (is_due job_id e)) [
      | inl d ↦
          let (store₁, done, rest) =
            >>=-eq-ok (deliver_due service moments job_id e store) _ (rw d at h) in
          deliver_each-arbitrations service moments job_id es store₁ rest
          ∙ deliver_due-arbitrations service moments job_id e store done
      | inr d ↦ deliver_each-arbitrations service moments job_id es store (rw d at h)
    ]

pub deliver_effects-arbitrations :
    (service : Service) (moments : Moments) (job_id : Str) (store : Store) {store' : Store}
    → deliver_effects service moments job_id store ≡ ok store'
    → store'.arbitrations ≡ store.arbitrations
unfolding deliver_effects
deliver_effects-arbitrations service moments job_id store h =
    let (marked, first, k) = >>=-eq-ok (mark_winner job_id moments.handed_over store) _ h in
    let (delivered, done, last) =
      >>=-eq-ok (deliver_each service moments job_id (unresolved_effects [] marked.effects) marked)
        _ k in
    (mark_winner-Keeps job_id moments.handed_over delivered last).0
    ∙ deliver_each-arbitrations service moments job_id (unresolved_effects [] marked.effects) marked
        done
    ∙ (mark_winner-Keeps job_id moments.handed_over store first).0
