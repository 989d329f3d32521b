-- ===== src/Examples/Winners.antt =====
-- Runs of internal/gateway/persistence/arbitration.go: two candidates of a job are approved, the
-- earlier approval arrives last, and a winner is locked.
use denyra.Base.{◌≡◌, ◌≢◌, refl, none, some, List, ◌∷◌, inl, ok, err}
use denyra.Base.Int.{pos}
use denyra.Base.Text.{codes}
use denyra.Base.Time.{at_instant}
use denyra.Base.Table as Table
use denyra.Base.Decimal.{decimal, padded}
use denyra.Base.Sort.{insert, sort_stable}
use denyra.Base.TimeText.{format_time}
use denyra.Gateway.State.{same_state, can_transition, transitions}
use denyra.Gateway.Job.{transition}
use denyra.Gateway.JobStore.{
  find_row, job_query, parsed, is_parsable, has_revision, update_row, update_rows,
}
use denyra.Gateway.JobStore.Updates.{or_job_error}
use denyra.Gateway.EffectStore.{put_from}
use denyra.Gateway.IdempotencyStore.{
  complete_callback, begin_idempotency, begin_from, check_response, has_key, is_other_request,
  is_unanswered,
}
use denyra.Gateway.ArbitrationStore.{check_identity, source_text, add_approval, add_arbitration}
use denyra.Gateway.ArbitrationStore.Transactions.{
  lock_winner, lock_from, lock_open, is_winner, put_effects, record_begun, record_new,
  start_arbitration, move_job, approvals_of, approved_before, joined, moved_on,
}
use denyra.Gateway.JobStore.Agreement.{IsConsistent}
use denyra.Gateway.EffectStore.{put_effect}
use denyra.Gateway.IdempotencyStore.{idempotency_conflict}
use denyra.Gateway.ArbitrationStore.{Lock, Store, idempotency_error, replayed}
use denyra.Gateway.ArbitrationStore.Transactions.{record_approval}
use denyra.Gateway.ArbitrationStore.Final.{
  Request, locks, serve, serve_all, winner_of, winner_of-serve_all,
}
use denyra.Gateway.ArbitrationStore.Consistency.{serve_all-IsConsistent}
use denyra.Gateway.ArbitrationStore.Earliest.{IsEarliest, serve_all-IsEarliest}
use denyra.Gateway.ArbitrationStore.Replay.{
  IsKept, record_approval-replays, record_approval-refuses,
}
use denyra.Examples.Acquisition.{before_approvals, approval, requests, wins}

abbrev approved_both : Store
approved_both = serve_all requests before_approvals

abbrev decided : Store
decided = serve (locks (wins 1 (codes "two"))) approved_both

abbrev lock_of_two : Lock
lock_of_two = record {
  winner_candidate_id = codes "two";
  locked_at = at_instant 20;
  reason = codes "QUALITY";
}

-- The start of the arbitration moved back, and so its revision to 1: a lock that has read 0 is stale.
stale_lock_refused :
    winner_of (codes "job") (serve (locks (wins 0 (codes "one"))) approved_both) ≡ none
unfolding Table.find lock_winner lock_from lock_open is_winner put_effects put_effect put_from
    complete_callback record_approval begin_idempotency begin_from record_begun record_new find_row
    check_identity source_text add_approval start_arbitration job_query parsed is_parsable
    same_state move_job decimal padded insert sort_stable format_time approvals_of approved_before
    joined moved_on add_arbitration check_response has_key is_other_request is_unanswered transition
    or_job_error has_revision update_row update_rows can_transition transitions
stale_lock_refused = refl

decided_winner : winner_of (codes "job") decided ≡ some lock_of_two
unfolding Table.find lock_winner lock_from lock_open is_winner put_effects put_effect put_from
    complete_callback record_approval begin_idempotency begin_from record_begun record_new find_row
    check_identity source_text add_approval start_arbitration job_query parsed is_parsable
    same_state move_job decimal padded insert sort_stable format_time approvals_of approved_before
    joined moved_on add_arbitration check_response has_key is_other_request is_unanswered transition
    or_job_error has_revision update_row update_rows can_transition transitions
decided_winner = refl

abbrev more_requests : List Request
more_requests = locks (wins 1 (codes "one")) ∷ locks (wins 2 (codes "two")) ∷ requests

winner_of-serve_all_example :
    winner_of (codes "job") (serve_all more_requests decided) ≡ some lock_of_two
winner_of-serve_all_example = winner_of-serve_all (codes "job") more_requests decided decided_winner

before_approvals-IsConsistent : IsConsistent before_approvals.jobs
before_approvals-IsConsistent = ((refl, tt), ((refl, refl), tt))

serve_all-IsConsistent_example :
    IsConsistent (serve_all more_requests (serve_all requests before_approvals)).jobs
serve_all-IsConsistent_example =
    serve_all-IsConsistent more_requests (serve_all requests before_approvals)
      (serve_all-IsConsistent requests before_approvals before_approvals-IsConsistent)

serve_all-IsEarliest_example : IsEarliest (pos 10) (serve_all requests before_approvals)
serve_all-IsEarliest_example =
    serve_all-IsEarliest (pos 10) requests before_approvals (refl, (refl, (tt, tt))) (tt, tt)

answered_first : IsKept (codes "k1") (codes "h1") (codes "b1") (pos 200) (codes "{}") approved_both
unfolding Table.find lock_winner lock_from lock_open is_winner put_effects put_effect put_from
    complete_callback record_approval begin_idempotency begin_from record_begun record_new find_row
    check_identity source_text add_approval start_arbitration job_query parsed is_parsable
    same_state move_job decimal padded insert sort_stable format_time approvals_of approved_before
    joined moved_on add_arbitration check_response has_key is_other_request is_unanswered transition
    or_job_error has_revision update_row update_rows can_transition transitions
answered_first = record { row = _; found = refl; same_request = refl; answer = refl }

record_approval-replays_example :
    record_approval approval
      (pos 10)
      (codes "k1")
      (codes "h1")
      (codes "b1")
      (at_instant 30)
      (serve_all more_requests approved_both)
    ≡ ok (serve_all more_requests approved_both, replayed (pos 200) (codes "{}"))
record_approval-replays_example =
    record_approval-replays approval (pos 10) (codes "k1") (codes "h1") (codes "b1") (pos 200)
      (codes "{}") (at_instant 30) more_requests approved_both refl answered_first

codes_differ : codes "h9" ≢ codes "h1"
codes_differ = λ e. cc

record_approval-refuses_example :
    record_approval approval
      (pos 10)
      (codes "k1")
      (codes "h9")
      (codes "b1")
      (at_instant 30)
      (serve_all more_requests approved_both)
    ≡ err (idempotency_error idempotency_conflict)
record_approval-refuses_example =
    record_approval-refuses approval (pos 10) (codes "k1") (codes "h1") (codes "b1") (codes "h9")
      (codes "b1") (pos 200) (codes "{}") (at_instant 30) more_requests approved_both refl
      answered_first (inl (λ e. absurd (codes_differ e)))
