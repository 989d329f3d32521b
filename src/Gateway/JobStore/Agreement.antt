-- ===== src/Gateway/JobStore/Agreement.antt =====
-- The row of a job and the log of its transitions agree.
use denyra.Base.{
  ℕ, ◌≡◌, refl, sym, ap, subst, ◌∙◌, arith, Bool, true, false, not, Option, none, some, ◌==◌, map,
  any, All, Bool-cases, inl, inr, Result, ok, err, >>=-eq-ok, guard-ok, ok-injective,
}
use denyra.Base.Pigeonhole.{IsDistinct}
use denyra.Base.Text.{Str, codes, same, same_iff}
use denyra.Base.Time.{Time}
use denyra.Gateway.State.{State, primary_retryable_error}
use denyra.Gateway.Job as Job
use denyra.Gateway.Job.{Job, Transition, transition}
use denyra.Gateway.Job.Audit.{IsAudited, transition-IsAudited}
use denyra.Gateway.JobStore.{
  Row, Store, row_id, find_row, parsed, is_parsable, job_query, job_error, stale_context,
  has_revision,
}
use denyra.Gateway.JobStore.Updates.{
  TransitionCommand, or_job_error, commit, updated, update_state, restarted,
  restart_acquisition_cycle, is_backfill, revised, revision_event, revise_selected_release,
}
use denyra.Gateway.JobStore.Context.{set_context}
use denyra.Gateway.JobStore.Rows.{
  IsLogged, IsCommit, commit-IsLogged, find_row-id, update_rows-ids, KeepsState, context-IsLogged,
}

-- Identifiers are unique, and every job is in the state and at the revision of its last logged
-- transition, or DISCOVERED at revision 0 if there is none.
abbrev pub IsConsistent : Store → Type 0
IsConsistent store =
    IsDistinct same same_iff (map row_id store.jobs)
    × All (IsLogged store.state_transitions) store.jobs

pub commit-IsConsistent :
    (store : Store) (k : Str) (n : ℕ) (f : Row → Row) (e : Transition) (r : Row)
    → find_row k store.jobs ≡ some r
    → IsCommit k n f e r
    → ((q : Row) → row_id (f q) ≡ row_id q)
    → IsConsistent store
    → IsConsistent (commit store k n f e)
commit-IsConsistent store k n f e r found c keeps i = (
  subst (IsDistinct same same_iff) (sym (update_rows-ids k n f store.jobs keeps)) i.0,
  commit-IsLogged k n f e store.state_transitions store.jobs i.0 found c i.1,
)

parsed-ok : (o : Option Row) {r : Row} → parsed o ≡ ok r → o ≡ some r
unfolding parsed
parsed-ok none h = cc
parsed-ok (some q) h = elim (Bool-cases (is_parsable q.job.state)) [
  | inl e ↦ ap some (ok-injective (rw e at h))
  | inr e ↦ let impossible = rw e at h in cc
]

pub job_query-ok :
    (k : Str) (store : Store) {r : Row} → job_query k store ≡ ok r → find_row k store.jobs ≡ some r
unfolding job_query
job_query-ok k store h = parsed-ok _ h

pub or_job_error-ok :
    (m : Result Job.Error (Job × Transition)) {p : Job × Transition}
    → or_job_error m ≡ ok p
    → m ≡ ok p
unfolding or_job_error
or_job_error-ok (ok q) h = ap ok (ok-injective h)
or_job_error-ok (err e) h = cc

-- A transition of the row that was read is one that can be committed.
pub audited-IsCommit :
    (store : Store) (k : Str) (n : ℕ) (to : State) (f : Row → Row) (r : Row) (j : Job)
    (e : Transition)
    → find_row k store.jobs ≡ some r
    → IsAudited r.job n to j e
    → row_id (f r) ≡ row_id r
    → (f r).job.state ≡ to
    → (f r).job.revision ≡ e.revision
    → IsCommit k n f e r
audited-IsCommit store k n to f r j e found a keeps s m = record {
  reads = sym a.current;
  own = a.same_job.0 ∙ find_row-id k store.jobs found;
  keeps = keeps;
  moves = (a.moved.2 ∙ sym s, sym m);
}

pub update_state-IsConsistent :
    (command : TransitionCommand) (store : Store) (store' : Store) (e : Transition)
    → update_state command store ≡ ok (store', e)
    → IsConsistent store
    → IsConsistent store'
unfolding update_state updated
update_state-IsConsistent command store store' e h i =
    let (r, read, h₁) = >>=-eq-ok (job_query command.job_id store) _ h in
    let (p, made, h₂) =
      >>=-eq-ok
        (or_job_error (
          transition r.job command.expected command.to command.actor command.reason
            command.occurred_at))
        _ h₁ in
    let found = job_query-ok command.job_id store read in
    let a : IsAudited r.job command.expected command.to p.0 p.1 =
      transition-IsAudited r.job command.expected command.to command.actor command.reason
        command.occurred_at (or_job_error-ok _ made) in
    subst (λ (q : Store × Transition). IsConsistent q.0) (ok-injective h₂)
      (commit-IsConsistent store command.job_id command.expected (updated command p.0) p.1 r found
        (audited-IsCommit store command.job_id command.expected command.to (updated command p.0) r
          p.0 p.1 found a refl a.moved.0 (sym a.numbered.2))
        (λ q. refl) i)

pub restart-IsConsistent :
    (k : Str) (n : ℕ) (next_retry_at at : Time) (store store' : Store) (e : Transition)
    → restart_acquisition_cycle k n next_retry_at at store ≡ ok (store', e)
    → IsConsistent store
    → IsConsistent store'
unfolding restart_acquisition_cycle restarted
restart-IsConsistent k n next_retry_at at store store' e h i =
    let (r, read, h₁) = >>=-eq-ok (job_query k store) _ h in
    let (p, made, h₂) =
      >>=-eq-ok
        (or_job_error (
          transition r.job n primary_retryable_error (codes "gateway-fallback")
            (codes "fallback acquisition cycle deadline expired") at))
        _ h₁ in
    let found = job_query-ok k store read in
    let a : IsAudited r.job n primary_retryable_error p.0 p.1 =
      transition-IsAudited r.job n primary_retryable_error (codes "gateway-fallback")
        (codes "fallback acquisition cycle deadline expired") at (or_job_error-ok _ made) in
    subst (λ (q : Store × Transition). IsConsistent q.0) (ok-injective h₂)
      (commit-IsConsistent store k n (restarted p.1 next_retry_at at) p.1 r found
        (audited-IsCommit store k n primary_retryable_error (restarted p.1 next_retry_at at) r p.0
          p.1 found a refl refl refl)
        (λ q. refl) i)

revised-IsCommit :
    (store : Store) (k : Str) (n : ℕ) (selected : Str) (at : Time) (r : Row)
    → find_row k store.jobs ≡ some r
    → r.job.revision ≡ n
    → (b : Bool) → IsCommit k n (revised b selected at) (revision_event b r.job at) r
unfolding revised revision_event
revised-IsCommit store k n selected at r found e true = record {
  reads = e;
  own = find_row-id k store.jobs found;
  keeps = refl;
  moves = (refl, refl);
}
revised-IsCommit store k n selected at r found e false = record {
  reads = e;
  own = find_row-id k store.jobs found;
  keeps = refl;
  moves = (refl, refl);
}

revised-id :
    (b : Bool) (selected : Str) (at : Time) (q : Row) → row_id (revised b selected at q) ≡ row_id q
unfolding revised
revised-id true selected at q = refl
revised-id false selected at q = refl

pub revise-IsConsistent :
    (k : Str) (n : ℕ) (selected : Str) (at : Time) (store store' : Store)
    → revise_selected_release k n selected at store ≡ ok store'
    → IsConsistent store
    → IsConsistent store'
unfolding revise_selected_release
revise-IsConsistent k n selected at store store' h i =
    let (r, read, h₁) = >>=-eq-ok (job_query k store) _ h in
    let (current, h₂) =
      guard-ok (not (r.job.revision == n))
        (job_error (Job.stale_revision n r.job.revision r.job.state)) _ h₁ in
    let found = job_query-ok k store read in
    let reads : r.job.revision ≡ n = ground arith in
    let backfill = is_backfill r.job selected in
    subst IsConsistent (ok-injective h₂) (
      commit-IsConsistent store k n (revised backfill selected at)
        (revision_event backfill r.job at) r found
        (revised-IsCommit store k n selected at r found reads backfill)
        (revised-id backfill selected at) i)

pub set_context-IsConsistent :
    (k : Str) (n : ℕ) (f : Row → Row) (store store' : Store)
    → KeepsState f
    → set_context k n f store ≡ ok store'
    → IsConsistent store
    → IsConsistent store'
unfolding set_context
set_context-IsConsistent k n f store store' keeps h i =
    let (_, h₁) = guard-ok (not (any (has_revision k n) store.jobs)) stale_context _ h in
    subst IsConsistent (ok-injective h₁) (
      subst (IsDistinct same same_iff) (sym (update_rows-ids k n f store.jobs (λ r. (keeps r).0)))
          i.0,
      context-IsLogged k n f store.state_transitions store.jobs keeps i.1,
    )
