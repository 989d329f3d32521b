-- ===== src/Gateway/ArbitrationStore/Starts.antt =====
-- The start of a job's arbitration, as approvals and a lock change it.
use denyra.Base.{
  ◌≡◌, refl, sym, ap, subst, ◌∙◌, arith, true, false, ◌&&◌, Option, none, some, List, [], ◌∷◌, All,
  Bool-cases, Option-cases, inl, inr, some-injective,
}
use denyra.Base.Int.{ℤ}
use denyra.Base.Text.{Str, same, same_iff}
use denyra.Base.Table as Table
use denyra.Base.Time.{Time, before, add_duration, utc}
use denyra.Gateway.CandidateStore as CandidateStore
use denyra.Gateway.CandidateStore.{find_candidate}
use denyra.Gateway.ArbitrationStore.{
  Approval, ApprovalRow, ArbitrationRow, find_arbitration, update_arbitration, add_arbitration,
  opened, advanced, is_unlocked,
}
use denyra.Gateway.ArbitrationStore.Transactions.{WinnerLock, locked}

-- The job of an approval has an arbitration, which has not started later while it is undecided.
abbrev pub IsCovered : List CandidateStore.Row → List ArbitrationRow → ApprovalRow → Type 0
IsCovered candidates arbitrations row =
    (c : CandidateStore.Row) × (a : ArbitrationRow) × (find_candidate row.candidate_id candidates
      ≡ some c)
    × (find_arbitration c.job_id arbitrations ≡ some a)
    × (a.lock ≡ none → before row.approved_at a.first_approved_at ≡ false)

-- Its deadline is the window later.
abbrev pub HasWindow : ℤ → ArbitrationRow → Type 0
HasWindow window a = a.deadline ≡ utc (add_duration a.first_approved_at window)

abbrev column : ArbitrationRow → Str
column row = row.job_id

-- What an approval at a time finds afterwards.
abbrev pub StartsBy : Time → Str → List ArbitrationRow → Type 0
StartsBy t k rows =
    (a : ArbitrationRow) × (find_arbitration k rows ≡ some a)
    × (a.lock ≡ none → before t a.first_approved_at ≡ false)

-- An earlier start is not later than what the start before was not later than.
earlier_start : (t s r : Time) → before t r ≡ false → before s r ≡ true → before t s ≡ false
earlier_start t s r h k = ground arith

not_before_self : (t : Time) → before t (utc t) ≡ false
not_before_self t = ground arith

pub update-HasWindow :
    (k : Str) (f : ArbitrationRow → ArbitrationRow) (window : ℤ) (rows : List ArbitrationRow)
    → ((row : ArbitrationRow) → HasWindow window row → HasWindow window (f row))
    → All (HasWindow window) rows
    → All (HasWindow window) (update_arbitration k f rows)
update-HasWindow k f window [] keeps h = tt
update-HasWindow k f window (row ∷ rows) keeps h = elim (Bool-cases (same k row.job_id)) [
  | inl s ↦ rw s (keeps row h.0, update-HasWindow k f window rows keeps h.1)
  | inr s ↦ rw s (h.0, update-HasWindow k f window rows keeps h.1)
]

module _ (approval : Approval) (window : ℤ) (body : Str) (at : Time) where
  advance-StartsBy :
      (t : Time) (k : Str) (rows : List ArbitrationRow) {row : ArbitrationRow}
      → find_arbitration approval.job_id rows ≡ some row
      → before approval.approved_at row.first_approved_at ≡ true
      → row.lock ≡ none
      → StartsBy t k rows
      → StartsBy t k (update_arbitration approval.job_id (advanced approval window body at) rows)
  advance-StartsBy t k rows {row} found b unlocked (a, e, starts) =
      elim (Bool-cases (same k approval.job_id)) [
        | inl s ↦
            let is : some a ≡ some row =
              sym e ∙ Table.find-same column k approval.job_id rows s ∙ found in
            let same_row : a ≡ row = some-injective is in
            let starts' : before t row.first_approved_at ≡ false =
              subst (λ (x : ArbitrationRow). before t x.first_approved_at ≡ false) same_row
                (starts (ap (λ (x : ArbitrationRow). x.lock) same_row ∙ unlocked)) in
            (
              advanced approval window body at row,
              Table.find-same column k approval.job_id _ s
                  ∙ Table.find-update_own column (advanced approval window body at) (λ x. refl)
                      approval.job_id rows found,
              λ u. earlier_start t (utc approval.approved_at) row.first_approved_at starts' b,
            )
        | inr s ↦ (
          a,
          Table.find-update_other column (advanced approval window body at) (λ x. refl) k
                approval.job_id rows s
              ∙ e,
          starts,
        )
      ]

  -- The approvals that are there stay covered.
  pub add_arbitration-StartsBy :
      (t : Time) (k : Str) (rows : List ArbitrationRow) (found : Option ArbitrationRow)
      → find_arbitration approval.job_id rows ≡ found
      → StartsBy t k rows
      → StartsBy t k (add_arbitration approval window body at rows found)
  unfolding add_arbitration
  add_arbitration-StartsBy t k rows none e (a, f, starts) =
      elim (Bool-cases (same k approval.job_id)) [
        | inl s ↦
            let impossible : some a ≡ none =
              sym f ∙ (Table.find-same column k approval.job_id rows s ∙ e) in
            absurd (cc)
        | inr s ↦ (a, Table.find-other column k (opened approval window body at) rows s ∙ f, starts)
      ]
  add_arbitration-StartsBy t k rows (some row) e w = elim (Option-cases row.lock) [
    | inl u ↦ elim (Bool-cases (before approval.approved_at row.first_approved_at)) [
      | inl b ↦ rw (u, b) (advance-StartsBy t k rows e b u w)
      | inr b ↦ rw (u, b) w
    ]
    | inr (l, u) ↦ rw u w
  ]

  -- The new approval is covered.
  pub add_arbitration-covers :
      (rows : List ArbitrationRow) (found : Option ArbitrationRow)
      → find_arbitration approval.job_id rows ≡ found
      → StartsBy approval.approved_at approval.job_id
          (add_arbitration approval window body at rows found)
  unfolding add_arbitration
  add_arbitration-covers rows none e = (
    opened approval window body at,
    Table.find-own column approval.job_id (opened approval window body at) rows
        ((same_iff approval.job_id approval.job_id).1 refl),
    λ u. not_before_self approval.approved_at,
  )
  add_arbitration-covers rows (some row) e = elim (Option-cases row.lock) [
    | inl u ↦ elim (Bool-cases (before approval.approved_at row.first_approved_at)) [
      | inl b ↦
          rw (u, b)
            (
              advanced approval window body at row,
              Table.find-update_own column (advanced approval window body at) (λ x. refl)
                  approval.job_id rows e,
              λ v. not_before_self approval.approved_at,
            )
      | inr b ↦ rw (u, b) (row, e, λ v. b)
    ]
    | inr (l, u) ↦ rw u (row, e, λ v. absurd (cc))
  ]

  pub add_arbitration-HasWindow :
      (rows : List ArbitrationRow) (found : Option ArbitrationRow)
      → All (HasWindow window) rows
      → All (HasWindow window) (add_arbitration approval window body at rows found)
  unfolding add_arbitration
  add_arbitration-HasWindow rows none h = (refl, h)
  add_arbitration-HasWindow rows (some row) h =
      elim (Bool-cases (is_unlocked row && before approval.approved_at row.first_approved_at)) [
        | inl e ↦ rw e (
            update-HasWindow approval.job_id (advanced approval window body at) window rows
              (λ x w. refl) h)
        | inr e ↦ rw e h
      ]

-- A lock decides one job.
pub lock-StartsBy :
    (lock : WinnerLock) (t : Time) (k : Str) (rows : List ArbitrationRow) {row : ArbitrationRow}
    → find_arbitration lock.job_id rows ≡ some row
    → StartsBy t k rows
    → StartsBy t k (update_arbitration lock.job_id (locked lock) rows)
lock-StartsBy lock t k rows {row} found (a, e, starts) = elim (Bool-cases (same k lock.job_id)) [
  | inl s ↦ (
    locked lock row,
    Table.find-same column k lock.job_id _ s
        ∙ Table.find-update_own column (locked lock) (λ x. refl) lock.job_id rows found,
    λ u. absurd (cc),
  )
  | inr s ↦
      (a, Table.find-update_other column (locked lock) (λ x. refl) k lock.job_id rows s ∙ e, starts)
]
