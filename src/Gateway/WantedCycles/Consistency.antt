-- ===== src/Gateway/WantedCycles/Consistency.antt =====
-- ReconcileWantedCycles keeps the rows of jobs and their log in agreement.
use denyra.Base.{
  ℕ, ◌≡◌, refl, sym, ap, subst, arith, true, false, not, ◌==◌, some, List, [], ◌∷◌, any, map, ok,
  Bool-cases, inl, inr, ok-injective, guard-ok, negated, >>=-eq-ok,
}
use denyra.Base.Pigeonhole.{IsDistinct}
use denyra.Base.Text.{Str, same, same_iff}
use denyra.Base.Time.{Time, utc}
use denyra.Gateway.State.{cancelled, can_transition}
use denyra.Gateway.Job as Job
use denyra.Gateway.Job.{bump}
use denyra.Gateway.JobStore.{Row, Store, job_error, row_id, find_row, has_revision}
use denyra.Gateway.JobStore.Rows.{IsCommit}
use denyra.Gateway.JobStore.Agreement.{IsConsistent, commit-IsConsistent}
use denyra.Gateway.WantedCycles.{
  WantedKey, CycleJob, wanted_cycle_jobs, keys_of, cancelled_row, cancel_event, cancel_job,
  open_cycle, reconcile_wanted_cycles,
}
use denyra.Gateway.WantedCycles.Steps.{IsKept, groups-keep}

any-same :
    (k : Str) (n : ℕ) (rows : List Row)
    → any (has_revision k n) rows ≡ true
    → any (same k) (map row_id rows) ≡ true
unfolding has_revision
any-same k n [] h = absurd (cc)
any-same k n (r ∷ rows) h = elim (Bool-cases (same k (row_id r))) [
  | inl s ↦ rw s refl
  | inr s ↦ rw s (any-same k n rows (rw s at h))
]

-- The row that a statement with a revision affects.
find_revision :
    (k : Str) (n : ℕ) (rows : List Row)
    → IsDistinct same same_iff (map row_id rows)
    → any (has_revision k n) rows ≡ true
    → (r : Row) × (find_row k rows ≡ some r) × (r.job.revision ≡ n)
unfolding has_revision find_row
find_revision k n [] d h = absurd (cc)
find_revision k n (q ∷ rows) d h = elim (Bool-cases (same k (row_id q))) [
  | inl s ↦ elim (Bool-cases (q.job.revision == n)) [
    | inl e ↦ (q, rw s refl, ground (arith, e))
    | inr e ↦
        let later : any (same k) (map row_id rows) ≡ true = any-same k n rows (rw (s, e) at h) in
        let own : k ≡ row_id q = (same_iff k (row_id q)).0 s in
        let none_later : any (same k) (map row_id rows) ≡ false =
          subst (λ x. any (same x) (map row_id rows) ≡ false) (sym own) d.0 in
        absurd (cc)
  ]
  | inr s ↦ let (r, found, e) = find_revision k n rows d.1 (rw s at h) in (r, rw s found, e)
]

cancel_job-IsConsistent :
    (reason : Str) (at : Time) (item : CycleJob) (store store' : Store)
    → cancel_job reason at item store ≡ ok store'
    → IsConsistent store
    → IsConsistent store'
unfolding cancel_job cancelled_row cancel_event
cancel_job-IsConsistent reason at item store store' h i =
    let (_, h₁) =
      guard-ok (not (can_transition item.state cancelled))
        (job_error (Job.illegal_transition item.state cancelled)) _ h in
    let (there, h₂) =
      guard-ok (not (any (has_revision item.id item.revision) store.jobs))
        (job_error (Job.stale_revision item.revision item.revision item.state)) _ h₁ in
    let (r, found, e) = find_revision item.id item.revision store.jobs i.0 (negated _ there) in
    let c : IsCommit item.id item.revision (cancelled_row at) (cancel_event reason at item) r =
      record { reads = e; own = refl; keeps = refl; moves = (refl, ap bump (sym e)) } in
    subst IsConsistent (ok-injective h₂) (
      commit-IsConsistent store item.id item.revision (cancelled_row at)
        (cancel_event reason at item) r found c (λ q. refl) i)

open_cycle-IsConsistent :
    (at : Time) (item : CycleJob) (store store' : Store)
    → open_cycle at item store ≡ ok store'
    → IsConsistent store
    → IsConsistent store'
unfolding open_cycle
open_cycle-IsConsistent at item store store' h i =
    let (_, h₁) = guard-ok _ _ _ h in subst IsConsistent (ok-injective h₁) i

IsConsistent-IsKept : IsKept IsConsistent
IsConsistent-IsKept = record {
  cancels = cancel_job-IsConsistent;
  closes = λ id at store i. i;
  opens = open_cycle-IsConsistent;
}

-- Whatever is wanted, and in whatever order the groups are gone through, a reconciliation that
-- succeeds leaves every job in the state and at the revision of its last logged transition, and
-- identifiers unique.
pub reconcile-IsConsistent :
    (order : List WantedKey → List WantedKey) (wanted : List WantedKey) (at : Time)
    (store store' : Store) (n : ℕ)
    → reconcile_wanted_cycles order wanted at store ≡ ok (store', n)
    → IsConsistent store
    → IsConsistent store'
unfolding reconcile_wanted_cycles
reconcile-IsConsistent order wanted at store store' n h i =
    let (jobs, _, done) = >>=-eq-ok (wanted_cycle_jobs store) _ h in
    groups-keep IsConsistent-IsKept wanted (utc at) jobs (order (keys_of jobs)) (store, 0) done i
