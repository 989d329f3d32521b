-- ===== src/Gateway/WantedCycles/Cycles.antt =====
-- The cycle of a job, as the changes of ReconcileWantedCycles leave it.
use denyra.Base.{
  ◌≡◌, refl, sym, ap, subst, ◌∙◌, arith, true, false, not, ◌&&◌, ◌||◌, some, List, [], ◌∷◌, any, ok,
  Bool-cases, inl, inr, ok-injective, guard-ok, neither,
}
use mathlib.Core.Option
use denyra.Base.Int.{pos, leb_ℤ}
use denyra.Base.Text.{Str, same, same_iff}
use denyra.Base.Table as Table
use denyra.Base.Time.{Time}
use denyra.Gateway.State.{cancelled, can_transition}
use denyra.Gateway.Job as Job
use denyra.Gateway.JobStore.{
  WantedCycle, Store, constraint_failed, job_error, has_revision, is_null,
}
use denyra.Gateway.WantedCycles.{
  CycleJob, find_cycle, cancel_job, close_row, close_cycle, is_taken, open_cycle,
}
use denyra.Gateway.WantedCycles.Steps.{IsKept}

abbrev pub HasCycle : Str → Store → Type 0
HasCycle k store = (c : WantedCycle) × (find_cycle k store.wanted_cycles ≡ some c)

-- The job has a cycle, which is closed.
abbrev pub IsClosed : Str → Store → Type 0
IsClosed k store =
    (c : WantedCycle) × (find_cycle k store.wanted_cycles ≡ some c) × (is_null c.closed_at ≡ false)

abbrev column : WantedCycle → Str
column c = c.job_id

close_row-key : (id : Str) (at : Time) (c : WantedCycle) → (close_row id at c).job_id ≡ c.job_id
close_row-key id at c = elim (Bool-cases (same id c.job_id && is_null c.closed_at)) [
  | inl e ↦ rw e refl
  | inr e ↦ rw e refl
]

close_cycle-found :
    (k id : Str) (at : Time) (store : Store) {c : WantedCycle}
    → find_cycle k store.wanted_cycles ≡ some c
    → find_cycle k (close_cycle id at store).wanted_cycles ≡ some (close_row id at c)
close_cycle-found k id at store e =
    Table.find-map column (close_row id at) (close_row-key id at) k store.wanted_cycles
    ∙ ap (Option.map (close_row id at)) e

-- A cancellation changes no cycle.
cancel_job-cycles :
    (reason : Str) (at : Time) (item : CycleJob) (store store' : Store)
    → cancel_job reason at item store ≡ ok store'
    → store'.wanted_cycles ≡ store.wanted_cycles
unfolding cancel_job
cancel_job-cycles reason at item store store' h =
    let (_, h₁) =
      guard-ok (not (can_transition item.state cancelled))
        (job_error (Job.illegal_transition item.state cancelled)) _ h in
    let (_, h₂) =
      guard-ok (not (any (has_revision item.id item.revision) store.jobs))
        (job_error (Job.stale_revision item.revision item.revision item.state)) _ h₁ in
    ap (λ (s : Store). s.wanted_cycles) (sym (ok-injective h₂))

taken_own :
    (item : CycleJob) (cycles : List WantedCycle) {c : WantedCycle}
    → find_cycle item.id cycles ≡ some c
    → any (is_taken item) cycles ≡ true
unfolding is_taken Table.find
taken_own item [] h = absurd (cc)
taken_own item (c ∷ cycles) h = elim (Bool-cases (same item.id c.job_id)) [
  | inl s ↦ rw s refl
  | inr s ↦ let rest = taken_own item cycles (rw s at h) in ground (arith, rest)
]

-- A job that has a cycle is not given another one.
open_cycle-found :
    (k : Str) (at : Time) (item : CycleJob) (store store' : Store) {c : WantedCycle}
    → open_cycle at item store ≡ ok store'
    → find_cycle k store.wanted_cycles ≡ some c
    → find_cycle k store'.wanted_cycles ≡ some c
unfolding open_cycle
open_cycle-found k at item store store' {c} h e =
    let (free, h₁) =
      guard-ok (leb_ℤ item.album_id (pos 0) || any (is_taken item) store.wanted_cycles)
        constraint_failed _ h in
    let (_, untaken) = neither (leb_ℤ item.album_id (pos 0)) _ free in
    subst (λ (s : Store). find_cycle k s.wanted_cycles ≡ some c) (ok-injective h₁)
      (elim (Bool-cases (same k item.id)) [
        | inl s ↦
            let own : find_cycle item.id store.wanted_cycles ≡ some c =
              sym (Table.find-same column k item.id store.wanted_cycles s) ∙ e in
            let taken = taken_own item store.wanted_cycles own in absurd (cc)
        | inr s ↦ Table.find-other column k _ store.wanted_cycles s ∙ e
      ])

pub HasCycle-IsKept : (k : Str) → IsKept (HasCycle k)
HasCycle-IsKept k = record {
  cancels = λ reason at item store store' h p.
      (p.0, ap (find_cycle k) (cancel_job-cycles reason at item store store' h) ∙ p.1);
  closes = λ id at store p. (close_row id at p.0, close_cycle-found k id at store p.1);
  opens = λ at item store store' h p. (p.0, open_cycle-found k at item store store' h p.1);
}

close_row-closed :
    (id : Str) (at : Time) (c : WantedCycle)
    → is_null c.closed_at ≡ false
    → is_null (close_row id at c).closed_at ≡ false
close_row-closed id at c h = elim (Bool-cases (same id c.job_id)) [
  | inl e ↦ rw (e, h) h
  | inr e ↦ rw e h
]

pub IsClosed-IsKept : (k : Str) → IsKept (IsClosed k)
IsClosed-IsKept k = record {
  cancels = λ reason at item store store' h p.
      (p.0, ap (find_cycle k) (cancel_job-cycles reason at item store store' h) ∙ p.1, p.2);
  closes = λ id at store p.
      (close_row id at p.0, close_cycle-found k id at store p.1, close_row-closed id at p.0 p.2);
  opens = λ at item store store' h p. (p.0, open_cycle-found k at item store store' h p.1, p.2);
}

own_closed :
    (id : Str) (at : Time) (c : WantedCycle)
    → id ≡ c.job_id
    → is_null (close_row id at c).closed_at ≡ false
own_closed id at c own =
    let s : same id c.job_id ≡ true = (same_iff id c.job_id).1 own in
    elim (Bool-cases (is_null c.closed_at)) [ inl e ↦ rw (s, e) refl | inr e ↦ rw (s, e) e ]

pub close_cycle-IsClosed :
    (id : Str) (at : Time) (store : Store)
    → HasCycle id store
    → IsClosed id (close_cycle id at store)
close_cycle-IsClosed id at store (c, e) = (
  close_row id at c,
  close_cycle-found id id at store e,
  own_closed id at c (Table.find-key column id store.wanted_cycles e),
)
