-- ===== src/Gateway/ArbitrationService/Locking.antt =====
-- The winner that the service locks is the one that is decided.
use denyra.Base.{
  ◌≡◌, refl, sym, ap, subst, ◌∙◌, Bool, none, some, List, Result, ok, err, ok-injective,
  some-injective, >>=-eq-ok,
}
use denyra.Base.Text.{Str}
use denyra.Base.Table as Table
use denyra.Base.Time.{Time, utc}
use denyra.Gateway.Arbitration.{ArbitrationDecision, decide_arbitration}
use denyra.Gateway.CandidateStore.{PendingCandidate}
use denyra.Gateway.ArbitrationStore.{
  Approval, ArbitrationRow, Lock, Store, find_arbitration, or_not_found,
}
use denyra.Gateway.ArbitrationStore.Transactions.{
  WinnerLock, locked, lock_winner, lock_from, approvals_of,
}
use denyra.Gateway.ArbitrationStore.Inversion.{or_not_found-ok}
use denyra.Gateway.ArbitrationStore.Locks.{lock_open-ok}
use denyra.Gateway.ArbitrationStore.Final.{lock_of, winner_of}
use denyra.Gateway.ArbitrationStore as ArbitrationStore
use denyra.Gateway.ArbitrationService.Delivery.{Service, Moments}
use denyra.Gateway.ArbitrationService.Requests.{check_service}
use denyra.Gateway.ArbitrationService.Handlers.{evaluate, evaluate_from, evaluate_open}
use denyra.Gateway.ArbitrationService.Frame.{deliver_effects-arbitrations}
use denyra.Gateway.ArbitrationService.{
  no_approval, to_domain_approvals, by_id, decision_lock, lock_decision, or_store_error,
}
use denyra.Gateway.ArbitrationMessages.{Encoding, reason_text}
use denyra.Gateway.ArbitrationService.Chosen.{by_id-listed, winner-IsListed}

abbrev column : ArbitrationRow → Str
column row = row.job_id

-- A lock of an undecided arbitration.
lock_winner-winner :
    (lock : WinnerLock) (store : Store) (a : ArbitrationRow) {p : Store × Bool}
    → find_arbitration lock.job_id store.arbitrations ≡ some a
    → a.lock ≡ none
    → lock_winner lock store ≡ ok p
    → winner_of lock.job_id p.0
      ≡ some (record {
        winner_candidate_id = lock.candidate_id;
        locked_at = utc lock.locked_at;
        reason = lock.reason;
      })
unfolding lock_winner lock_from
lock_winner-winner lock store a {p} found free h =
    let (a', read, k) =
      >>=-eq-ok (or_not_found (find_arbitration lock.job_id store.arbitrations)) _ h in
    let own : a' ≡ a = some-injective (sym (or_not_found-ok _ read) ∙ found) in
    let k' : lock_from lock a a.lock store ≡ ok p =
      subst (λ (x : ArbitrationRow). lock_from lock x x.lock store ≡ ok p) own k in
    let opened : lock_from lock a none store ≡ ok p =
      subst (λ l. lock_from lock a l store ≡ ok p) free k' in
    let r = lock_open-ok lock a store {store' = p.0} {b = p.1} found free opened in
    ap lock_of (
      ap (find_arbitration lock.job_id) r.stored_arbitrations
      ∙ Table.find-update_own column (locked lock) (λ x. refl) lock.job_id store.arbitrations found)

or_store_error-ok {ℓ} :
    {A : Type ℓ} (m : Result ArbitrationStore.Error A) {a : A} → or_store_error m ≡ ok a → m ≡ ok a
or_store_error-ok (ok a) h = ap ok (ok-injective h)
or_store_error-ok (err e) h = absurd (cc)

-- The lock of a decision.
abbrev pub lock_for : Time → ArbitrationDecision → Lock
lock_for at d = record {
  winner_candidate_id = d.winner.id;
  locked_at = utc at;
  reason = reason_text d.reason;
}

lock_decision-winner :
    (encoding : Encoding) (at now : Time) (pending : List PendingCandidate) (a : ArbitrationRow)
    (approvals : List Approval) (d : ArbitrationDecision) (store : Store) {p : Store × Bool}
    → find_arbitration a.job_id store.arbitrations ≡ some a
    → a.lock ≡ none
    → decide_arbitration (to_domain_approvals approvals) a.deadline now ≡ some d
    → lock_decision encoding at pending a approvals d store ≡ ok p
    → winner_of a.job_id p.0 ≡ some (lock_for at d)
unfolding lock_decision decision_lock
lock_decision-winner encoding at now pending a approvals d store {p} found free decided h =
    let lock = decision_lock encoding at pending a approvals d store in
    let own : (by_id approvals d.winner.id no_approval).candidate_id ≡ d.winner.id =
      by_id-listed approvals d.winner no_approval
        (winner-IsListed approvals a.deadline now d decided) in
    lock_winner-winner lock store a found free (or_store_error-ok (lock_winner lock store) h)
    ∙ ap
        (λ id.
          some (record {
            winner_candidate_id = id;
            locked_at = utc at;
            reason = reason_text d.reason;
          }))
        own

-- The arbitration that is read.
evaluate-reads :
    (service : Service) (moments : Moments) (pending : List PendingCandidate) (job_id : Str)
    (store store' : Store) (a : ArbitrationRow)
    → find_arbitration job_id store.arbitrations ≡ some a
    → evaluate service moments pending job_id store ≡ ok store'
    → evaluate_from service moments pending job_id a a.lock store ≡ ok store'
unfolding evaluate
evaluate-reads service moments pending job_id store store' a found h =
    let (_, _, h₁) = >>=-eq-ok (check_service service) _ h in
    let (a', read, h₂) =
      >>=-eq-ok (or_store_error (or_not_found (find_arbitration job_id store.arbitrations))) _ h₁ in
    let own : a' ≡ a =
      some-injective (sym (or_not_found-ok _ (or_store_error-ok _ read)) ∙ found) in
    subst
      (λ (x : ArbitrationRow).
        evaluate_from service moments pending job_id x x.lock store ≡ ok store')
      own h₂

evaluate_open-winner :
    (service : Service) (moments : Moments) (pending : List PendingCandidate) (job_id : Str)
    (a : ArbitrationRow) (approvals : List Approval) (d : ArbitrationDecision) (store : Store)
    {store' : Store}
    → find_arbitration a.job_id store.arbitrations ≡ some a
    → a.lock ≡ none
    → decide_arbitration (to_domain_approvals approvals) a.deadline moments.decided ≡ some d
    → evaluate_open service moments pending job_id a approvals (some d) store ≡ ok store'
    → winner_of a.job_id store' ≡ some (lock_for moments.locked d)
unfolding evaluate_open
evaluate_open-winner service moments pending job_id a approvals d store found free decided h =
    let (p, done, rest) =
      >>=-eq-ok (lock_decision service.encoding moments.locked pending a approvals d store) _ h in
    ap (λ rows. lock_of (find_arbitration a.job_id rows))
      (deliver_effects-arbitrations service moments job_id p.0 rest)
    ∙ lock_decision-winner service.encoding moments.locked moments.decided pending a approvals d
        store found free decided done

-- If Evaluate succeeds on an undecided arbitration for which DecideArbitration decides, the job's
-- winner is locked, and it is the winner that is decided on the approvals that are stored, with the
-- reason of the decision.
pub evaluate-winner :
    (service : Service) (moments : Moments) (pending : List PendingCandidate) (job_id : Str)
    (store store' : Store) (a : ArbitrationRow) (d : ArbitrationDecision)
    → find_arbitration job_id store.arbitrations ≡ some a
    → a.lock ≡ none
    → decide_arbitration
        (to_domain_approvals (approvals_of job_id store))
        a.deadline
        moments.decided
      ≡ some d
    → evaluate service moments pending job_id store ≡ ok store'
    → winner_of job_id store' ≡ some (lock_for moments.locked d)
unfolding evaluate_from
evaluate-winner service moments pending job_id store store' a d found free decided h =
    let own : job_id ≡ a.job_id = Table.find-key column job_id store.arbitrations found in
    let found' : find_arbitration a.job_id store.arbitrations ≡ some a =
      ap (λ k. find_arbitration k store.arbitrations) (sym own) ∙ found in
    let read = evaluate-reads service moments pending job_id store store' a found h in
    let opened : evaluate_from service moments pending job_id a none store ≡ ok store' =
      subst (λ l. evaluate_from service moments pending job_id a l store ≡ ok store') free read in
    let chosen =
      subst
        (λ o.
          evaluate_open service moments pending job_id a (approvals_of job_id store) o store
          ≡ ok store')
        decided opened in
    ap (λ k. winner_of k store') own
    ∙ evaluate_open-winner service moments pending job_id a (approvals_of job_id store) d store
        found' free decided chosen
