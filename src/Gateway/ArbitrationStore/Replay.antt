-- ===== src/Gateway/ArbitrationStore/Replay.antt =====
-- A repeated approval is answered as the first time.
use denyra.Base.{
  ◌≡◌, ◌≢◌, ◌⊎◌, refl, sym, subst, true, false, List, [], ◌∷◌, Bool, Result, ok, err, inl, inr,
}
use denyra.Base.Int.{ℤ}
use denyra.Base.Text.{Str, codes, is_empty}
use denyra.Base.Time.{Time}
use denyra.Gateway.IdempotencyStore.{
  Record, is_other_request, idempotency_conflict, begin_idempotency, begin_from, complete_callback,
}
use denyra.Gateway.IdempotencyStore.Replay.{
  IsAnswered, begin_answered, other_request, begin-IsAnswered, complete-IsAnswered,
}
use denyra.Gateway.ArbitrationStore.{
  Approval, Store, Error, idempotency_error, Recorded, replayed, or_idempotency_error,
}
use denyra.Gateway.ArbitrationStore.Transactions.{
  record_begun, record_approval, WinnerLock, lock_winner,
}
use denyra.Gateway.ArbitrationStore.Inversion.{record_approval-ok, or_idempotency_error-ok}
use denyra.Gateway.ArbitrationStore.Locks.{lock_winner-ok}
use denyra.Gateway.ArbitrationStore.Final.{
  Request, approves, locks, completes, state_after, with_records, serve, serve_all,
}

-- The answer to an approval that has been kept under its key.
abbrev pub IsKept : Str → Str → Str → ℤ → Str → Store → Type 0
IsKept key hash body status text store =
    IsAnswered key (codes "candidate-approval") hash body status text store.idempotency

module _ (key hash body : Str) (status : ℤ) (text : Str) where
  approval-IsKept :
      (approval : Approval) (window : ℤ) (key' hash' body' : Str) (at : Time) (store : Store)
      (m : Result Error (Store × Recorded))
      → record_approval approval window key' hash' body' at store ≡ m
      → IsKept key hash body status text store
      → IsKept key hash body status text (state_after store m)
  approval-IsKept approval window key' hash' body' at store (err e) h a = a
  approval-IsKept approval window key' hash' body' at store (ok (store', result)) h a =
      let (b, began, done) = record_approval-ok approval window key' hash' body' at store h in
      let a' =
        begin-IsAnswered key (codes "candidate-approval") hash body status text key'
          (codes "candidate-approval") hash' body' at store.idempotency began a in
      elim done [ inl r ↦ rw r.stored_records a' | inr r ↦ rw r.stored_records a' ]

  lock-IsKept :
      (lock : WinnerLock) (store : Store) (m : Result Error (Store × Bool))
      → lock_winner lock store ≡ m
      → IsKept key hash body status text store
      → IsKept key hash body status text (state_after store m)
  lock-IsKept lock store (err e) h a = a
  lock-IsKept lock store (ok (store', b)) h a = elim (lock_winner-ok lock store h) [
    | inl e ↦ subst (IsKept key hash body status text) (sym e) a
    | inr r ↦ rw r.same_records a
  ]

  records-IsKept :
      (key' : Str) (status' : ℤ) (text' : Str) (at : Time) (store : Store)
      (m : Result Error (List Record))
      → or_idempotency_error (complete_callback key' status' text' at store.idempotency) ≡ m
      → IsKept key hash body status text store
      → IsKept key hash body status text (with_records store m)
  records-IsKept key' status' text' at store (err e) h a = a
  records-IsKept key' status' text' at store (ok rows) h a =
      complete-IsAnswered key (codes "candidate-approval") hash body status text key' status' text'
        at store.idempotency (or_idempotency_error-ok _ h) a

  serve-IsKept :
      (q : Request) (store : Store)
      → IsKept key hash body status text store
      → IsKept key hash body status text (serve q store)
  serve-IsKept (approves approval window key' hash' body' at) store a =
      approval-IsKept approval window key' hash' body' at store _ refl a
  serve-IsKept (locks lock) store a = lock-IsKept lock store _ refl a
  serve-IsKept (completes key' status' text' at) store a =
      records-IsKept key' status' text' at store _ refl a

  serve_all-IsKept :
      (qs : List Request) (store : Store)
      → IsKept key hash body status text store
      → IsKept key hash body status text (serve_all qs store)
  serve_all-IsKept [] store a = a
  serve_all-IsKept (q ∷ qs) store a = serve_all-IsKept qs (serve q store) (serve-IsKept q store a)

-- An approval that has been answered is answered alike whenever it is sent again under its key,
-- whatever has happened since, and changes nothing.
pub record_approval-replays :
    (approval : Approval) (window : ℤ) (key hash body : Str) (status : ℤ) (text : Str) (at : Time)
    (qs : List Request) (store : Store)
    → is_empty key ≡ false
    → IsKept key hash body status text store
    → record_approval approval window key hash body at (serve_all qs store)
      ≡ ok (serve_all qs store, replayed status text)
unfolding record_approval record_begun
record_approval-replays approval window key hash body status text at qs store named a =
    let again =
      begin_answered key (codes "candidate-approval") hash body at status text
        (serve_all qs store).idempotency named
        (serve_all-IsKept key hash body status text qs store a) in
    rw again refl

-- Another request under the key of a kept answer is refused, whatever has happened since.
pub record_approval-refuses :
    (approval : Approval) (window : ℤ) (key hash body hash' body' : Str) (status : ℤ) (text : Str)
    (at : Time) (qs : List Request) (store : Store)
    → is_empty key ≡ false
    → IsKept key hash body status text store
    → (hash' ≢ hash) ⊎ (body' ≢ body)
    → record_approval approval window key hash' body' at (serve_all qs store)
      ≡ err (idempotency_error idempotency_conflict)
unfolding record_approval begin_idempotency begin_from
record_approval-refuses approval window key hash body hash' body' status text at qs store named a
      differs =
    let k = serve_all-IsKept key hash body status text qs store a in
    let conflict : is_other_request (codes "candidate-approval") hash' body' k.row ≡ true =
      other_request (codes "candidate-approval") hash body hash' body' k.row k.same_request
        differs in
    rw (named, k.found, conflict) refl
