-- ===== src/Gateway/ArbitrationStore/Inversion.antt =====
-- What the recording of an approval has done when it succeeds.
use denyra.Base.{
  ◌≡◌, ◌⊎◌, sym, ap, Option, none, some, List, Result, ok, err, inl, inr, ok-injective, >>=-eq-ok,
}
use denyra.Base.Int.{ℤ}
use denyra.Base.Text.{Str, codes}
use denyra.Base.Time.{Time}
use denyra.Gateway.JobStore as JobStore
use denyra.Gateway.JobStore.{Row, find_row}
use denyra.Gateway.CandidateStore as CandidateStore
use denyra.Gateway.CandidateStore.{find_candidate}
use denyra.Gateway.IdempotencyStore as IdempotencyStore
use denyra.Gateway.IdempotencyStore.{Record, Begun, proceeds, replays, begin_idempotency}
use denyra.Gateway.ArbitrationStore.{
  Approval, ApprovalRow, Store, Recorded, or_not_found, or_store_error, or_idempotency_error,
  find_approval, find_arbitration, check_identity, add_approval, add_arbitration,
}
use denyra.Gateway.ArbitrationStore.Transactions.{
  start_arbitration, record_new, record_begun, record_approval,
}

pub or_not_found-ok {ℓ} : {A : Type ℓ} (o : Option A) {a : A} → or_not_found o ≡ ok a → o ≡ some a
or_not_found-ok none h = cc
or_not_found-ok (some b) h = ap (λ x. some x) (ok-injective h)

pub or_store_error-ok {ℓ} :
    {A : Type ℓ} (m : Result JobStore.Error A) {a : A} → or_store_error m ≡ ok a → m ≡ ok a
or_store_error-ok (ok b) h = ap (λ x. ok x) (ok-injective h)
or_store_error-ok (err e) h = cc

pub or_idempotency_error-ok {ℓ} :
    {A : Type ℓ} (m : Result IdempotencyStore.Error A) {a : A}
    → or_idempotency_error m ≡ ok a
    → m ≡ ok a
or_idempotency_error-ok (ok b) h = ap (λ x. ok x) (ok-injective h)
or_idempotency_error-ok (err e) h = cc

-- The parts of a recorded approval.
pub record IsRecorded (approval : Approval) (window : ℤ) (hash body : Str) (at : Time)
    (records : List Record) (store store' : Store) : Type 0 where
  pub candidate : CandidateStore.Row
  pub row : Row
  pub approvals : List ApprovalRow
  pub jobs : JobStore.Store
  pub found : find_candidate approval.candidate_id store.candidates ≡ some candidate
  pub identified : check_identity approval candidate row ≡ ok tt
  pub approved :
      add_approval approval hash at store.approvals
        (find_approval approval.candidate_id store.approvals)
      ≡ ok approvals
  pub started : start_arbitration approval.job_id at store.jobs ≡ ok jobs
  pub stored_jobs : store'.jobs ≡ jobs
  pub stored_approvals : store'.approvals ≡ approvals
  pub same_candidates : store'.candidates ≡ store.candidates
  pub stored_arbitrations :
      store'.arbitrations
      ≡ add_arbitration approval window body at store.arbitrations
          (find_arbitration approval.job_id store.arbitrations)
  pub stored_records : store'.idempotency ≡ records

record_new-ok :
    (approval : Approval) (window : ℤ) (hash body : Str) (at : Time) (idempotency : List Record)
    (store : Store) {store' : Store} {result : Recorded}
    → record_new approval window hash body at idempotency store ≡ ok (store', result)
    → IsRecorded approval window hash body at idempotency store store'
unfolding record_new
record_new-ok approval window hash body at idempotency store {store'} h =
    let (c, h₁, k₁) =
      >>=-eq-ok (or_not_found (find_candidate approval.candidate_id store.candidates)) _ h in
    let (r, h₂, k₂) = >>=-eq-ok (or_not_found (find_row c.job_id store.jobs.jobs)) _ k₁ in
    let (u, h₃, k₃) = >>=-eq-ok (check_identity approval c r) _ k₂ in
    let (approvals, h₄, k₄) =
      >>=-eq-ok
        (add_approval approval hash at store.approvals
          (find_approval approval.candidate_id store.approvals))
        _ k₃ in
    let (jobs, h₅, k₅) =
      >>=-eq-ok (or_store_error (start_arbitration approval.job_id at store.jobs)) _ k₄ in
    let (a, h₆, k₆) =
      >>=-eq-ok
        (or_not_found (
          find_arbitration approval.job_id (
            add_arbitration approval window body at store.arbitrations
              (find_arbitration approval.job_id store.arbitrations))))
        _ k₅ in
    let same = ap (λ (p : Store × Recorded). p.0) (ok-injective (sym k₆)) in
    record {
      candidate = c;
      row = r;
      approvals = approvals;
      jobs = jobs;
      found = or_not_found-ok _ h₁;
      identified = h₃;
      approved = h₄;
      started = or_store_error-ok _ h₅;
      stored_jobs = ap (λ (s : Store). s.jobs) same;
      stored_approvals = ap (λ (s : Store). s.approvals) same;
      same_candidates = ap (λ (s : Store). s.candidates) same;
      stored_arbitrations = ap (λ (s : Store). s.arbitrations) same;
      stored_records = ap (λ (s : Store). s.idempotency) same;
    }

-- A replay: the tables but the kept answers are as they were.
pub record IsReplay (records : List Record) (store store' : Store) : Type 0 where
  pub same_jobs : store'.jobs ≡ store.jobs
  pub same_candidates : store'.candidates ≡ store.candidates
  pub same_approvals : store'.approvals ≡ store.approvals
  pub same_arbitrations : store'.arbitrations ≡ store.arbitrations
  pub stored_records : store'.idempotency ≡ records

record_begun-ok :
    (approval : Approval) (window : ℤ) (hash body : Str) (at : Time) (store : Store)
    (b : Begun × List Record) {store' : Store} {result : Recorded}
    → record_begun approval window hash body at store b ≡ ok (store', result)
    → IsReplay b.1 store store' ⊎ IsRecorded approval window hash body at b.1 store store'
unfolding record_begun
record_begun-ok approval window hash body at store (replays status text, idempotency) h =
    let same = ap (λ (p : Store × Recorded). p.0) (ok-injective (sym h)) in
    inl (record {
      same_jobs = ap (λ (s : Store). s.jobs) same;
      same_candidates = ap (λ (s : Store). s.candidates) same;
      same_approvals = ap (λ (s : Store). s.approvals) same;
      same_arbitrations = ap (λ (s : Store). s.arbitrations) same;
      stored_records = ap (λ (s : Store). s.idempotency) same;
    })
record_begun-ok approval window hash body at store (proceeds, idempotency) h =
    inr (record_new-ok approval window hash body at idempotency store h)

pub record_approval-ok :
    (approval : Approval) (window : ℤ) (key hash body : Str) (at : Time) (store : Store)
    {store' : Store} {result : Recorded}
    → record_approval approval window key hash body at store ≡ ok (store', result)
    → (b : Begun × List Record) × (begin_idempotency key
          (codes "candidate-approval")
          hash
          body
          at
          store.idempotency
        ≡ ok b)
      × (IsReplay b.1 store store' ⊎ IsRecorded approval window hash body at b.1 store store')
unfolding record_approval
record_approval-ok approval window key hash body at store h =
    let (b, began, k) =
      >>=-eq-ok
        (or_idempotency_error
          (begin_idempotency key (codes "candidate-approval") hash body at store.idempotency))
        _ h in
    (b, or_idempotency_error-ok _ began, record_begun-ok approval window hash body at store b k)
