-- ===== src/Gateway/ArbitrationStore/Final.antt =====
-- A winner that has been locked is never changed.
use denyra.Base.{
  ◌≡◌, refl, sym, ap, subst, ◌∙◌, Bool, Option, none, some, List, [], ◌∷◌, Result, ok, err,
  Bool-cases, Option-cases, inl, inr, some-injective,
}
use denyra.Base.Int.{ℤ}
use denyra.Base.Text.{Str, same}
use denyra.Base.Table as Table
use denyra.Base.Time.{Time, before}
use denyra.Gateway.ArbitrationStore.Inversion.{record_approval-ok}
use denyra.Gateway.ArbitrationStore.Locks.{lock_winner-ok}
use denyra.Gateway.IdempotencyStore.{Record, complete_callback}
use denyra.Gateway.ArbitrationStore.{
  Approval, Lock, ArbitrationRow, Store, Error, Recorded, or_idempotency_error, find_arbitration,
  update_arbitration, add_arbitration, opened, advanced,
}
use denyra.Gateway.ArbitrationStore.Transactions.{record_approval, WinnerLock, locked, lock_winner}

-- What the gateway asks of the arbitration of its jobs.
pub data Request : Type 0 where
  approves : Approval → ℤ → Str → Str → Str → Time → Request
  locks : WinnerLock → Request
  completes : Str → ℤ → Str → Time → Request

abbrev pub state_after {ℓ} : {A : Type ℓ} → Store → Result Error (Store × A) → Store
state_after store (ok p) = p.0
state_after store (err e) = store

abbrev pub with_records : Store → Result Error (List Record) → Store
with_records store (ok rows) = record store { idempotency = rows }
with_records store (err e) = store

-- The store after a request, which an error leaves as it was.
abbrev pub serve : Request → Store → Store
serve (approves approval window key hash body at) store =
    state_after store (record_approval approval window key hash body at store)
serve (locks lock) store = state_after store (lock_winner lock store)
serve (completes key status body at) store =
    with_records store
      (or_idempotency_error (complete_callback key status body at store.idempotency))

abbrev pub serve_all : List Request → Store → Store
serve_all [] store = store
serve_all (q ∷ qs) store = serve_all qs (serve q store)

abbrev pub lock_of : Option ArbitrationRow → Option Lock
lock_of none = none
lock_of (some a) = a.lock

-- The winner of a job, with the time and the reason of its lock.
abbrev pub winner_of : Str → Store → Option Lock
winner_of job_id store = lock_of (find_arbitration job_id store.arbitrations)

abbrev column : ArbitrationRow → Str
column row = row.job_id

-- The row of a job is locked by this winner.
abbrev IsWon : Str → Lock → List ArbitrationRow → Type 0
IsWon k l rows = (a : ArbitrationRow) × (find_arbitration k rows ≡ some a) × (a.lock ≡ some l)

winner_of-IsWon :
    (k : Str) (l : Lock) (store : Store) → winner_of k store ≡ some l → IsWon k l store.arbitrations
winner_of-IsWon k l store h = elim (Option-cases (find_arbitration k store.arbitrations)) [
  | inl n ↦ let impossible : none ≡ some l = sym (ap lock_of n) ∙ h in cc
  | inr (a, e) ↦ (a, e, sym (ap lock_of e) ∙ h)
]

-- An update of an unlocked row is of another job.
update-IsWon :
    (k j : Str) (l : Lock) (f : ArbitrationRow → ArbitrationRow) (rows : List ArbitrationRow)
    {row : ArbitrationRow}
    → ((r : ArbitrationRow) → (f r).job_id ≡ r.job_id)
    → find_arbitration j rows ≡ some row
    → row.lock ≡ none
    → IsWon k l rows
    → IsWon k l (update_arbitration j f rows)
update-IsWon k j l f rows {row} keeps found unlocked (a, e, won) = elim (Bool-cases (same k j)) [
  | inl s ↦
      let is : some a ≡ some row = sym e ∙ Table.find-same column k j rows s ∙ found in
      let lock_is : a.lock ≡ row.lock = ap (λ (r : ArbitrationRow). r.lock) (some-injective is) in
      absurd (cc)
  | inr s ↦ (a, Table.find-update_other column f keeps k j rows s ∙ e, won)
]

add_arbitration-IsWon :
    (k : Str) (l : Lock) (approval : Approval) (window : ℤ) (body : Str) (at : Time)
    (rows : List ArbitrationRow) (found : Option ArbitrationRow)
    → find_arbitration approval.job_id rows ≡ found
    → IsWon k l rows
    → IsWon k l (add_arbitration approval window body at rows found)
unfolding add_arbitration
add_arbitration-IsWon k l approval window body at rows none e (a, f, won) =
    elim (Bool-cases (same k approval.job_id)) [
      | inl s ↦
          let free = Table.find-same column k approval.job_id rows s ∙ e in
          let impossible : some a ≡ none = sym f ∙ free in cc
      | inr s ↦ (a, Table.find-other column k (opened approval window body at) rows s ∙ f, won)
    ]
add_arbitration-IsWon k l approval window body at rows (some row) e w =
    elim (Option-cases row.lock) [
      | inl unlocked ↦ elim (Bool-cases (before approval.approved_at row.first_approved_at)) [
        | inl b ↦
            rw (unlocked, b)
              (update-IsWon k approval.job_id l (advanced approval window body at) rows (λ r. refl)
                e unlocked w)
        | inr b ↦ rw (unlocked, b) w
      ]
      | inr (x, taken) ↦ rw taken w
    ]

approval-IsWon :
    (k : Str) (l : Lock) (approval : Approval) (window : ℤ) (key hash body : Str) (at : Time)
    (store : Store) (m : Result Error (Store × Recorded))
    → record_approval approval window key hash body at store ≡ m
    → IsWon k l store.arbitrations
    → IsWon k l (state_after store m).arbitrations
approval-IsWon k l approval window key hash body at store (err e) h w = w
approval-IsWon k l approval window key hash body at store (ok (store', result)) h w =
    elim (record_approval-ok approval window key hash body at store h).2 [
      | inl r ↦ subst (IsWon k l) (sym r.same_arbitrations) w
      | inr r ↦ subst (IsWon k l) (sym r.stored_arbitrations) (
          add_arbitration-IsWon k l approval window body at store.arbitrations
            (find_arbitration approval.job_id store.arbitrations) refl w)
    ]

lock-IsWon :
    (k : Str) (l : Lock) (lock : WinnerLock) (store : Store) (m : Result Error (Store × Bool))
    → lock_winner lock store ≡ m
    → IsWon k l store.arbitrations
    → IsWon k l (state_after store m).arbitrations
lock-IsWon k l lock store (err e) h w = w
lock-IsWon k l lock store (ok (store', b)) h w = elim (lock_winner-ok lock store h) [
  | inl e ↦ subst (λ (s : Store). IsWon k l s.arbitrations) (sym e) w
  | inr r ↦ subst (IsWon k l) (sym r.stored_arbitrations) (
      update-IsWon k lock.job_id l (locked lock) store.arbitrations (λ x. refl) r.found r.unlocked
        w)
]

records-IsWon :
    (k : Str) (l : Lock) (store : Store) (m : Result Error (List Record))
    → IsWon k l store.arbitrations
    → IsWon k l (with_records store m).arbitrations
records-IsWon k l store (ok rows) w = w
records-IsWon k l store (err e) w = w

serve-IsWon :
    (k : Str) (l : Lock) (q : Request) (store : Store)
    → IsWon k l store.arbitrations
    → IsWon k l (serve q store).arbitrations
serve-IsWon k l (approves approval window key hash body at) store w =
    approval-IsWon k l approval window key hash body at store _ refl w
serve-IsWon k l (locks lock) store w = lock-IsWon k l lock store _ refl w
serve-IsWon k l (completes key status body at) store w = records-IsWon k l store _ w

serve_all-IsWon :
    (k : Str) (l : Lock) (qs : List Request) (store : Store)
    → IsWon k l store.arbitrations
    → IsWon k l (serve_all qs store).arbitrations
serve_all-IsWon k l [] store w = w
serve_all-IsWon k l (q ∷ qs) store w =
    serve_all-IsWon k l qs (serve q store) (serve-IsWon k l q store w)

-- Once a job has a winner, no sequence of approvals, locks and answers changes the winner, the time
-- or the reason of its lock, whatever revisions and candidates they name.
pub winner_of-serve_all :
    (k : Str) (qs : List Request) (store : Store) {l : Lock}
    → winner_of k store ≡ some l
    → winner_of k (serve_all qs store) ≡ some l
winner_of-serve_all k qs store {l} h =
    let (a, e, won) = serve_all-IsWon k l qs store (winner_of-IsWon k l store h) in
    ap lock_of e ∙ won
