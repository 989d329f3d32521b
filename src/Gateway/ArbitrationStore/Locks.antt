-- ===== src/Gateway/ArbitrationStore/Locks.antt =====
-- What the locking of a winner has done when it succeeds.
use denyra.Base.{
  ◌≡◌, ◌⊎◌, refl, sym, ap, arith, Bool, not, Option, none, some, ◌==◌, ok, inl, inr, ok-injective,
  guard-ok, >>=-eq-ok,
}
use denyra.Base.Text.{codes, same}
use denyra.Gateway.State.{winner_locked}
use denyra.Gateway.JobStore as JobStore
use denyra.Gateway.JobStore.{Row, find_row}
use denyra.Gateway.ArbitrationStore.{
  Lock, ArbitrationRow, Store, stale_arbitration, constraint_failed, idempotency_conflict,
  or_not_found, or_store_error, find_arbitration, update_arbitration,
}
use denyra.Gateway.ArbitrationStore.Transactions.{
  move_job, WinnerLock, locked, put_effects, lock_open, lock_from, lock_winner,
}
use denyra.Gateway.ArbitrationStore.Inversion.{or_not_found-ok, or_store_error-ok}

-- A lock of the winner.
pub record IsLocked (lock : WinnerLock) (store store' : Store) : Type 0 where
  pub row : ArbitrationRow
  pub jobs : JobStore.Store
  pub found : find_arbitration lock.job_id store.arbitrations ≡ some row
  pub unlocked : row.lock ≡ none
  pub current : row.state_revision ≡ lock.expected_revision
  pub moved :
      move_job lock.job_id winner_locked
        (codes "gateway-arbitration")
        lock.reason
        lock.locked_at
        store.jobs
      ≡ ok jobs
  pub stored_jobs : store'.jobs ≡ jobs
  pub same_candidates : store'.candidates ≡ store.candidates
  pub same_approvals : store'.approvals ≡ store.approvals
  pub same_records : store'.idempotency ≡ store.idempotency
  pub stored_arbitrations :
      store'.arbitrations ≡ update_arbitration lock.job_id (locked lock) store.arbitrations

pub lock_open-ok :
    (lock : WinnerLock) (a : ArbitrationRow) (store : Store) {store' : Store} {b : Bool}
    → find_arbitration lock.job_id store.arbitrations ≡ some a
    → a.lock ≡ none
    → lock_open lock a store ≡ ok (store', b)
    → IsLocked lock store store'
unfolding lock_open
lock_open-ok lock a store found free h =
    let (current, k₁) =
      guard-ok (not (a.state_revision == lock.expected_revision))
        (stale_arbitration lock.expected_revision a.state_revision) _ h in
    let (_, k₂) = guard-ok _ constraint_failed _ k₁ in
    let (jobs, h₃, k₃) =
      >>=-eq-ok
        (or_store_error (
          move_job lock.job_id winner_locked (codes "gateway-arbitration") lock.reason
            lock.locked_at store.jobs))
        _ k₂ in
    let (effects, h₄, k₄) = >>=-eq-ok (put_effects lock.effects store.effects) _ k₃ in
    let same = ap (λ (p : Store × Bool). p.0) (ok-injective (sym k₄)) in
    record {
      row = a;
      jobs = jobs;
      found = found;
      unlocked = free;
      current = ground arith;
      moved = or_store_error-ok _ h₃;
      stored_jobs = ap (λ (s : Store). s.jobs) same;
      same_candidates = ap (λ (s : Store). s.candidates) same;
      same_approvals = ap (λ (s : Store). s.approvals) same;
      same_records = ap (λ (s : Store). s.idempotency) same;
      stored_arbitrations = ap (λ (s : Store). s.arbitrations) same;
    }

lock_from-ok :
    (lock : WinnerLock) (a : ArbitrationRow) (store : Store) (l : Option Lock) {store' : Store}
    {b : Bool}
    → find_arbitration lock.job_id store.arbitrations ≡ some a
    → a.lock ≡ l
    → lock_from lock a l store ≡ ok (store', b)
    → (store' ≡ store) ⊎ IsLocked lock store store'
unfolding lock_from
lock_from-ok lock a store none found free h = inr (lock_open-ok lock a store found free h)
lock_from-ok lock a store (some l) found taken h =
    let (_, k) =
      guard-ok (not (same l.winner_candidate_id lock.candidate_id)) idempotency_conflict _ h in
    inl (ap (λ (p : Store × Bool). p.0) (ok-injective (sym k)))

pub lock_winner-ok :
    (lock : WinnerLock) (store : Store) {store' : Store} {b : Bool}
    → lock_winner lock store ≡ ok (store', b)
    → (store' ≡ store) ⊎ IsLocked lock store store'
unfolding lock_winner
lock_winner-ok lock store h =
    let (a, found, k) =
      >>=-eq-ok (or_not_found (find_arbitration lock.job_id store.arbitrations)) _ h in
    lock_from-ok lock a store a.lock (or_not_found-ok _ found) refl k
