-- ===== src/Gateway/ArbitrationStore/Consistency.antt =====
-- The moves of a job by the arbitration keep its row and the log in agreement.
use denyra.Base.{
  ◌≡◌, refl, sym, ap, subst, ◌∙◌, some, ◌||◌, Bool, List, [], ◌∷◌, Result, ok, err, Bool-cases, inl,
  inr, >>=-eq-ok, ok-injective,
}
use denyra.Base.Int.{ℤ}
use denyra.Base.Text.{Str, codes}
use denyra.Base.Time.{Time}
use denyra.Gateway.State.{
  State, arbitrating, winner_locked, primary_active, dual_candidate, same_state,
}
use denyra.Gateway.Job.{transition}
use denyra.Gateway.Job.Audit.{IsAudited, transition-IsAudited}
use denyra.Gateway.JobStore as JobStore
use denyra.Gateway.JobStore.{Row, row_id, find_row, job_query}
use denyra.Gateway.JobStore.Rows.{IsCommit, find_row-id}
use denyra.Gateway.JobStore.Updates.{or_job_error}
use denyra.Gateway.JobStore.Agreement.{
  IsConsistent, commit-IsConsistent, job_query-ok, or_job_error-ok, audited-IsCommit,
}
use denyra.Gateway.IdempotencyStore.{Record}
use denyra.Gateway.ArbitrationStore.{Approval, Store, Error, Recorded}
use denyra.Gateway.ArbitrationStore.Transactions.{
  moved_on, move_job, start_arbitration, record_approval, WinnerLock, lock_winner,
}
use denyra.Gateway.ArbitrationStore.Inversion.{record_approval-ok}
use denyra.Gateway.ArbitrationStore.Locks.{lock_winner-ok}
use denyra.Gateway.ArbitrationStore.Final.{
  Request, approves, locks, completes, state_after, with_records, serve, serve_all,
}

move_job-IsConsistent :
    (k : Str) (to : State) (actor reason : Str) (at : Time) (jobs jobs' : JobStore.Store)
    → move_job k to actor reason at jobs ≡ ok jobs'
    → IsConsistent jobs
    → IsConsistent jobs'
unfolding move_job moved_on
move_job-IsConsistent k to actor reason at jobs jobs' h i =
    let (r, read, h₁) = >>=-eq-ok (job_query k jobs) _ h in
    let (p, made, h₂) =
      >>=-eq-ok (or_job_error (transition r.job r.job.revision to actor reason at)) _ h₁ in
    let found = job_query-ok k jobs read in
    let own : row_id r ≡ k = find_row-id k jobs.jobs found in
    let found' : find_row r.job.id jobs.jobs ≡ some r =
      ap (λ x. find_row x jobs.jobs) own ∙ found in
    let a : IsAudited r.job r.job.revision to p.0 p.1 =
      transition-IsAudited r.job r.job.revision to actor reason at (or_job_error-ok _ made) in
    subst IsConsistent (ok-injective h₂) (
      commit-IsConsistent jobs r.job.id p.1.previous_revision (moved_on p.0) p.1 r found'
        (subst (λ n. IsCommit r.job.id n (moved_on p.0) p.1 r) (sym a.numbered.1)
          (audited-IsCommit jobs r.job.id r.job.revision to (moved_on p.0) r p.0 p.1 found' a refl
            a.moved.0 (sym a.numbered.2)))
        (λ q. refl) i)

start_arbitration-IsConsistent :
    (k : Str) (at : Time) (jobs jobs' : JobStore.Store)
    → start_arbitration k at jobs ≡ ok jobs'
    → IsConsistent jobs
    → IsConsistent jobs'
unfolding start_arbitration
start_arbitration-IsConsistent k at jobs jobs' h i =
    let (r, read, h₁) = >>=-eq-ok (job_query k jobs) _ h in
    elim (Bool-cases
      (same_state r.job.state primary_active || same_state r.job.state dual_candidate)) [
        | inl e ↦ move_job-IsConsistent k arbitrating _ _ at jobs jobs' (rw e at h₁) i
        | inr e ↦ subst IsConsistent (ok-injective (rw e at h₁)) i
      ]

approval-IsConsistent :
    (approval : Approval) (window : ℤ) (key hash body : Str) (at : Time) (store : Store)
    (m : Result Error (Store × Recorded))
    → record_approval approval window key hash body at store ≡ m
    → IsConsistent store.jobs
    → IsConsistent (state_after store m).jobs
approval-IsConsistent approval window key hash body at store (err e) h i = i
approval-IsConsistent approval window key hash body at store (ok (store', result)) h i =
    elim (record_approval-ok approval window key hash body at store h).2 [
      | inl r ↦ subst IsConsistent (sym r.same_jobs) i
      | inr r ↦
          subst IsConsistent (sym r.stored_jobs)
            (start_arbitration-IsConsistent approval.job_id at store.jobs r.jobs r.started i)
    ]

lock-IsConsistent :
    (lock : WinnerLock) (store : Store) (m : Result Error (Store × Bool))
    → lock_winner lock store ≡ m
    → IsConsistent store.jobs
    → IsConsistent (state_after store m).jobs
lock-IsConsistent lock store (err e) h i = i
lock-IsConsistent lock store (ok (store', b)) h i = elim (lock_winner-ok lock store h) [
  | inl e ↦ subst (λ (s : Store). IsConsistent s.jobs) (sym e) i
  | inr r ↦ subst IsConsistent (sym r.stored_jobs) (
      move_job-IsConsistent lock.job_id winner_locked (codes "gateway-arbitration") lock.reason
        lock.locked_at store.jobs r.jobs r.moved i)
]

records-IsConsistent :
    (store : Store) (m : Result Error (List Record))
    → IsConsistent store.jobs
    → IsConsistent (with_records store m).jobs
records-IsConsistent store (ok rows) i = i
records-IsConsistent store (err e) i = i

serve-IsConsistent :
    (q : Request) (store : Store) → IsConsistent store.jobs → IsConsistent (serve q store).jobs
serve-IsConsistent (approves approval window key hash body at) store i =
    approval-IsConsistent approval window key hash body at store _ refl i
serve-IsConsistent (locks lock) store i = lock-IsConsistent lock store _ refl i
serve-IsConsistent (completes key status body at) store i = records-IsConsistent store _ i

-- The arbitration of jobs keeps what the other statements on jobs keep: after any sequence of
-- approvals, locks and answers, every job is in the state and at the revision of its last logged
-- transition, and identifiers are unique.
pub serve_all-IsConsistent :
    (qs : List Request) (store : Store)
    → IsConsistent store.jobs
    → IsConsistent (serve_all qs store).jobs
serve_all-IsConsistent [] store i = i
serve_all-IsConsistent (q ∷ qs) store i =
    serve_all-IsConsistent qs (serve q store) (serve-IsConsistent q store i)
