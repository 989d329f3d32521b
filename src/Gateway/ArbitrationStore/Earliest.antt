-- ===== src/Gateway/ArbitrationStore/Earliest.antt =====
-- The window of an arbitration starts with the earliest approval.
use denyra.Base.{
  ◌≡◌, ◌⊎◌, refl, sym, ap, subst, ◌∙◌, arith, Bool, true, not, Option, none, some, List, [], ◌∷◌,
  All, All-mono, Result, ok, err, inl, inr, ok-injective, guard-ok,
}
use denyra.Base.Int.{ℤ}
use denyra.Base.Text.{Str, same, same_iff}
use denyra.Base.Time.{Time, before, utc}
use denyra.Gateway.JobStore.{Row}
use denyra.Gateway.CandidateStore as CandidateStore
use denyra.Gateway.CandidateStore.{find_candidate}
use denyra.Gateway.IdempotencyStore.{Record}
use denyra.Gateway.ArbitrationStore.{
  Approval, ApprovalRow, ArbitrationRow, Store, Error, Recorded, idempotency_conflict,
  find_approval, find_arbitration, update_arbitration, check_identity, add_approval,
  add_arbitration,
}
use denyra.Gateway.ArbitrationStore.Transactions.{record_approval, WinnerLock, locked, lock_winner}
use denyra.Gateway.ArbitrationStore.Inversion.{IsRecorded, record_approval-ok}
use denyra.Gateway.ArbitrationStore.Locks.{lock_winner-ok}
use denyra.Gateway.ArbitrationStore.Starts.{
  IsCovered, HasWindow, StartsBy, update-HasWindow, add_arbitration-StartsBy,
  add_arbitration-covers, add_arbitration-HasWindow, lock-StartsBy,
}
use denyra.Gateway.ArbitrationStore.Final.{
  Request, approves, locks, completes, state_after, with_records, serve, serve_all,
}

abbrev pub IsEarliest : ℤ → Store → Type 0
IsEarliest window store =
    All (IsCovered store.candidates store.arbitrations) store.approvals
    × All (HasWindow window) store.arbitrations

check_identity-job :
    (approval : Approval) (c : CandidateStore.Row) (r : Row)
    → check_identity approval c r ≡ ok tt
    → c.job_id ≡ approval.job_id
unfolding check_identity
check_identity-job approval c r h =
    let s : same c.job_id approval.job_id ≡ true = ground arith in
    (same_iff c.job_id approval.job_id).0 s

-- The rows of the approvals afterwards: the same, or one more of this approval.
add_approval-ok :
    (approval : Approval) (hash : Str) (at : Time) (rows : List ApprovalRow)
    (found : Option ApprovalRow) {rows' : List ApprovalRow}
    → add_approval approval hash at rows found ≡ ok rows'
    → (rows' ≡ rows)
      ⊎ ((row : ApprovalRow) × (rows' ≡ row ∷ rows)
          × (row.candidate_id ≡ approval.candidate_id)
          × (row.approved_at ≡ utc approval.approved_at))
unfolding add_approval
add_approval-ok approval hash at rows none h = inr (_, ok-injective (sym h), refl, refl)
add_approval-ok approval hash at rows (some row) h =
    let (_, k) = guard-ok (not (same row.request_sha256 hash)) idempotency_conflict _ h in
    inl (ok-injective (sym k))

-- A change of the arbitrations that keeps every job's start.
IsCovered-after :
    (candidates : List CandidateStore.Row) (rows rows' : List ArbitrationRow) (row : ApprovalRow)
    → ((k : Str) → StartsBy row.approved_at k rows → StartsBy row.approved_at k rows')
    → IsCovered candidates rows row
    → IsCovered candidates rows' row
IsCovered-after candidates rows rows' row keeps (c, a, found, e, starts) =
    let (a', e', starts') = keeps c.job_id (a, e, starts) in (c, a', found, e', starts')

recorded-IsEarliest :
    (approval : Approval) (window : ℤ) (hash body : Str) (at : Time) (records : List Record)
    (store store' : Store)
    → IsRecorded approval window hash body at records store store'
    → IsEarliest window store
    → IsEarliest window store'
recorded-IsEarliest approval window hash body at records store store' r (covered, windows) =
    let rows' =
      add_arbitration approval window body at store.arbitrations
        (find_arbitration approval.job_id store.arbitrations) in
    let own : r.candidate.job_id ≡ approval.job_id =
      check_identity-job approval r.candidate r.row r.identified in
    let old : All (IsCovered store.candidates rows') store.approvals =
      All-mono store.approvals
        (λ row. IsCovered-after store.candidates store.arbitrations rows' row (λ k.
          add_arbitration-StartsBy approval window body at row.approved_at k store.arbitrations
            (find_arbitration approval.job_id store.arbitrations) refl))
        covered in
    let now : All (IsCovered store.candidates rows') r.approvals =
      elim (add_approval-ok approval hash at store.approvals
        (find_approval approval.candidate_id store.approvals) r.approved) [
          | inl e ↦ subst (All (IsCovered store.candidates rows')) (sym e) old
          | inr (row, e, named, dated) ↦
              let (a, f, starts) =
                add_arbitration-covers approval window body at store.arbitrations
                  (find_arbitration approval.job_id store.arbitrations) refl in
              subst (All (IsCovered store.candidates rows')) (sym e) (
                (
                  r.candidate,
                  a,
                  ap (λ x. find_candidate x store.candidates) named ∙ r.found,
                  ap (λ x. find_arbitration x rows') own ∙ f,
                  λ u. ap (λ (t : Time). before t a.first_approved_at) dated ∙ starts u,
                ),
                old,
              )
        ] in
    rw (r.same_candidates, r.stored_arbitrations, r.stored_approvals)
      (
        now,
        add_arbitration-HasWindow approval window body at store.arbitrations
            (find_arbitration approval.job_id store.arbitrations) windows,
      )

approval-IsEarliest :
    (approval : Approval) (window : ℤ) (key hash body : Str) (at : Time) (store : Store)
    (m : Result Error (Store × Recorded))
    → record_approval approval window key hash body at store ≡ m
    → IsEarliest window store
    → IsEarliest window (state_after store m)
approval-IsEarliest approval window key hash body at store (err e) h i = i
approval-IsEarliest approval window key hash body at store (ok (store', result)) h i =
    elim (record_approval-ok approval window key hash body at store h).2 [
      | inl r ↦ rw (r.same_candidates, r.same_arbitrations, r.same_approvals) i
      | inr r ↦ recorded-IsEarliest approval window hash body at _ store store' r i
    ]

lock-IsEarliest :
    (window : ℤ) (lock : WinnerLock) (store : Store) (m : Result Error (Store × Bool))
    → lock_winner lock store ≡ m
    → IsEarliest window store
    → IsEarliest window (state_after store m)
lock-IsEarliest window lock store (err e) h i = i
lock-IsEarliest window lock store (ok (store', b)) h (covered, windows) =
    elim (lock_winner-ok lock store h) [
      | inl e ↦ subst (IsEarliest window) (sym e) (covered, windows)
      | inr r ↦
          let rows' = update_arbitration lock.job_id (locked lock) store.arbitrations in
          let covered' : All (IsCovered store.candidates rows') store.approvals =
            All-mono store.approvals
              (λ row.
                IsCovered-after store.candidates store.arbitrations rows' row
                  (λ k. lock-StartsBy lock row.approved_at k store.arbitrations r.found))
              covered in
          rw (r.same_candidates, r.stored_arbitrations, r.same_approvals)
            (
              covered',
              update-HasWindow lock.job_id (locked lock) window store.arbitrations (λ x w. w)
                  windows,
            )
    ]

records-IsEarliest :
    (window : ℤ) (store : Store) (m : Result Error (List Record))
    → IsEarliest window store
    → IsEarliest window (with_records store m)
records-IsEarliest window store (ok rows) i = i
records-IsEarliest window store (err e) i = i

-- The window with which a request records an approval.
abbrev pub IsTimed : ℤ → Request → Type 0
IsTimed window (approves approval w key hash body at) = w ≡ window
IsTimed window (locks lock) = Unit
IsTimed window (completes key status body at) = Unit

serve-IsEarliest :
    (window : ℤ) (q : Request) (store : Store)
    → IsTimed window q
    → IsEarliest window store
    → IsEarliest window (serve q store)
serve-IsEarliest window (approves approval w key hash body at) store timed i =
    subst (λ v. IsEarliest window (serve (approves approval v key hash body at) store)) (sym timed)
      (approval-IsEarliest approval window key hash body at store _ refl i)
serve-IsEarliest window (locks lock) store timed i = lock-IsEarliest window lock store _ refl i
serve-IsEarliest window (completes key status body at) store timed i =
    records-IsEarliest window store _ i

-- After any sequence of approvals, locks and answers with one window: of the recorded approvals of
-- a job, in whatever order they arrived, none is earlier than the start of the job's arbitration
-- while it is undecided, and the deadline of every arbitration is the window after its start.
pub serve_all-IsEarliest :
    (window : ℤ) (qs : List Request) (store : Store)
    → All (IsTimed window) qs
    → IsEarliest window store
    → IsEarliest window (serve_all qs store)
serve_all-IsEarliest window [] store timed i = i
serve_all-IsEarliest window (q ∷ qs) store timed i =
    serve_all-IsEarliest window qs (serve q store) timed.1
      (serve-IsEarliest window q store timed.0 i)
