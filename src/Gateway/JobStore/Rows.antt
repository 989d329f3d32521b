-- ===== src/Gateway/JobStore/Rows.antt =====
-- What a statement does to the rows of the jobs and to the log of their transitions.
use denyra.Base.{
  ℕ, ◌≡◌, refl, sym, ap, subst, ◌∙◌, ◌⊎◌, arith, true, false, some, List, [], ◌∷◌, ◌==◌, map, any,
  All, keep, Bool-cases, inl, inr, neither, some-injective,
}
use denyra.Base.Pigeonhole.{IsDistinct}
use denyra.Base.Text.{Str, same, same_iff}
use denyra.Gateway.State.{State, discovered}
use denyra.Gateway.Job.{Transition}
use denyra.Gateway.JobStore.{Row, row_id, find_row, has_revision, update_row, update_rows}

-- The transitions of one job.
abbrev events_of : Str → List Transition → List Transition
events_of id log = keep (λ e. same id e.job_id) log

-- The state and revision that a log ends in, the last transition first.
abbrev EndsAt : State → ℕ → List Transition → Type 0
EndsAt s n [] = (s ≡ discovered) × (n ≡ 0)
EndsAt s n (e ∷ es) = (e.next ≡ s) × (e.revision ≡ n)

abbrev pub IsLogged : List Transition → Row → Type 0
IsLogged log r = EndsAt r.job.state r.job.revision (events_of (row_id r) log)

-- A new transition of a job leaves the other jobs' logs alone.
IsLogged-other :
    (log : List Transition) (e : Transition) (r : Row)
    → same (row_id r) e.job_id ≡ false
    → IsLogged log r
    → IsLogged (e ∷ log) r
IsLogged-other log e r other l = rw other l

IsLogged-new :
    (log : List Transition) (e : Transition) (r : Row)
    → e.job_id ≡ row_id r
    → e.next ≡ r.job.state
    → e.revision ≡ r.job.revision
    → IsLogged (e ∷ log) r
IsLogged-new log e r k s n =
    let own : same (row_id r) e.job_id ≡ true = (same_iff (row_id r) e.job_id).1 (sym k) in
    rw own (s, n)

flip_same : (a b : Str) → same a b ≡ false → same b a ≡ false
flip_same a b h = elim (Bool-cases (same b a)) [
  | inl e ↦ let turned : same a b ≡ true = (same_iff a b).1 (sym ((same_iff b a).0 e)) in cc
  | inr e ↦ e
]

update_row-other :
    (k : Str) (n : ℕ) (f : Row → Row) (r : Row) → same k (row_id r) ≡ false → update_row k n f r ≡ r
unfolding update_row has_revision
update_row-other k n f r h = rw h refl

update_row-own :
    (k : Str) (n : ℕ) (f : Row → Row) (r : Row)
    → same k (row_id r) ≡ true
    → r.job.revision ≡ n
    → update_row k n f r ≡ f r
unfolding update_row has_revision
update_row-own k n f r h e =
    let fits : (r.job.revision == n) ≡ true = ground arith in rw (h, fits) refl

-- Rows of other jobs are left alone, and their logs too.
others-IsLogged :
    (k : Str) (n : ℕ) (f : Row → Row) (e : Transition) (log : List Transition) (rs : List Row)
    → e.job_id ≡ k
    → any (same k) (map row_id rs) ≡ false
    → All (IsLogged log) rs
    → All (IsLogged (e ∷ log)) (update_rows k n f rs)
unfolding update_rows
others-IsLogged k n f e log [] own none_there h = tt
others-IsLogged k n f e log (r ∷ rs) own none_there h =
    let (other, rest) = neither (same k (row_id r)) (any (same k) (map row_id rs)) none_there in
    (
      subst (IsLogged (e ∷ log)) (sym (update_row-other k n f r other))
          (IsLogged-other log e r (rw own (flip_same k (row_id r) other)) h.0),
      others-IsLogged k n f e log rs own rest h.1,
    )

-- What a commit must do to the row that it has read.
pub record IsCommit (k : Str) (n : ℕ) (f : Row → Row) (e : Transition) (r : Row) : Type 0 where
  pub reads : r.job.revision ≡ n
  pub own : e.job_id ≡ k
  pub keeps : row_id (f r) ≡ row_id r
  pub moves : (e.next ≡ (f r).job.state) × (e.revision ≡ (f r).job.revision)

-- A commit keeps the log of every job in step with its row.
pub commit-IsLogged :
    (k : Str) (n : ℕ) (f : Row → Row) (e : Transition) (log : List Transition) (rs : List Row)
    {r : Row}
    → IsDistinct same same_iff (map row_id rs)
    → find_row k rs ≡ some r
    → IsCommit k n f e r
    → All (IsLogged log) rs
    → All (IsLogged (e ∷ log)) (update_rows k n f rs)
unfolding update_rows find_row
commit-IsLogged k n f e log [] d found c h = cc
commit-IsLogged k n f e log (q ∷ rs) {r} d found c h = elim (Bool-cases (same k (row_id q))) [
  | inl s ↦
      let is : q ≡ r = some-injective (rw s at found) in
      let id : k ≡ row_id q = (same_iff k (row_id q)).0 s in
      let c' : IsCommit k n f e q = subst (IsCommit k n f e) (sym is) c in
      (
        subst (IsLogged (e ∷ log)) (sym (update_row-own k n f q s c'.reads))
            (IsLogged-new log e (f q) (c'.own ∙ id ∙ sym c'.keeps) c'.moves.0 c'.moves.1),
        others-IsLogged k n f e log rs c'.own
            (subst (λ x. any (same x) (map row_id rs) ≡ false) (sym id) d.0) h.1,
      )
  | inr s ↦ (
    subst (IsLogged (e ∷ log)) (sym (update_row-other k n f q s))
        (IsLogged-other log e q (rw c.own (flip_same k (row_id q) s)) h.0),
    commit-IsLogged k n f e log rs d.1 (rw s at found) c h.1,
  )
]

pub find_row-id : (k : Str) (rs : List Row) {r : Row} → find_row k rs ≡ some r → row_id r ≡ k
unfolding find_row
find_row-id k [] h = cc
find_row-id k (q ∷ rs) h = elim (Bool-cases (same k (row_id q))) [
  | inl s ↦ ap row_id (sym (some-injective (rw s at h))) ∙ sym ((same_iff k (row_id q)).0 s)
  | inr s ↦ find_row-id k rs (rw s at h)
]

pub update_rows-ids :
    (k : Str) (n : ℕ) (f : Row → Row) (rs : List Row)
    → ((r : Row) → row_id (f r) ≡ row_id r)
    → map row_id (update_rows k n f rs) ≡ map row_id rs
unfolding update_rows update_row
update_rows-ids k n f [] keeps = refl
update_rows-ids k n f (r ∷ rs) keeps = elim (Bool-cases (has_revision k n r)) [
  | inl s ↦ rw s (
      ap (λ l. row_id (f r) ∷ l) (update_rows-ids k n f rs keeps)
      ∙ ap (λ i. i ∷ map row_id rs) (keeps r))
  | inr s ↦ rw s (ap (λ l. row_id r ∷ l) (update_rows-ids k n f rs keeps))
]

-- A change of the columns that the log does not speak of.
abbrev pub KeepsState : (Row → Row) → Type 0
KeepsState f =
    (r : Row)
    → (row_id (f r) ≡ row_id r)
      × (r.job.state ≡ (f r).job.state)
      × (r.job.revision ≡ (f r).job.revision)

kept-IsLogged :
    (f : Row → Row) (log : List Transition) (r : Row)
    → KeepsState f
    → IsLogged log r
    → IsLogged log (f r)
kept-IsLogged f log r keeps l = let (i, s, n) = keeps r in rw (i, ← s, ← n) l

update_row-cases :
    (k : Str) (n : ℕ) (f : Row → Row) (r : Row)
    → (update_row k n f r ≡ f r) ⊎ (update_row k n f r ≡ r)
unfolding update_row
update_row-cases k n f r = elim (Bool-cases (has_revision k n r)) [
  | inl e ↦ inl (rw e refl)
  | inr e ↦ inr (rw e refl)
]

pub context-IsLogged :
    (k : Str) (n : ℕ) (f : Row → Row) (log : List Transition) (rs : List Row)
    → KeepsState f
    → All (IsLogged log) rs
    → All (IsLogged log) (update_rows k n f rs)
unfolding update_rows
context-IsLogged k n f log [] keeps h = tt
context-IsLogged k n f log (r ∷ rs) keeps h = (
  elim (update_row-cases k n f r) [
    | inl e ↦ subst (IsLogged log) (sym e) (kept-IsLogged f log r keeps h.0)
    | inr e ↦ subst (IsLogged log) (sym e) h.0
  ],
  context-IsLogged k n f log rs keeps h.1,
)
