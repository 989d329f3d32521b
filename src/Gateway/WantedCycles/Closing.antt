-- ===== src/Gateway/WantedCycles/Closing.antt =====
-- The cycles of what is not wanted are closed.
use denyra.Base.{
  ℕ, ◌≡◌, ap, subst, arith, Bool, true, false, not, ◌&&◌, ◌||◌, List, [], ◌∷◌, any, map, All,
  All-mono, All-intro, All-both, All-kept, ok, Bool-cases, Option-cases, inl, inr, ok-injective,
  guard-ok, >>=-eq-ok,
}
use denyra.Base.Time.{Time, utc}
use denyra.Base.Sort.{sort_stable}
use denyra.Gateway.State.{cancelled, terminal, can_transition}
use denyra.Gateway.JobStore.{Row, Store, unparsable_state, is_parsable}
use denyra.Gateway.WantedCycles.{
  WantedKey, CycleJob, key_of, same_key, find_cycle, with_cycle, read_before, wanted_cycle_jobs,
  keys_of, group_of, close_cycle, leave_item, leave_items, reconcile_group, reconcile_groups,
  reconcile_wanted_cycles,
}
use denyra.Gateway.WantedCycles.Cycles.{
  HasCycle, IsClosed, HasCycle-IsKept, IsClosed-IsKept, close_cycle-IsClosed,
}
use denyra.Gateway.WantedCycles.Keys.{same_key-equal, keys_of-covers}
use denyra.Gateway.WantedCycles.Steps.{
  counted-ok, leave_item-keeps, leave_items-keeps, group-keeps, groups-keep,
}

-- Whether a reconciliation can close the cycle of a job: a job is done with, or can be cancelled.
abbrev pub is_closable : CycleJob → Bool
is_closable item = terminal item.state || can_transition item.state cancelled

-- The cycle of a job of a group that is left.
leave_item-IsClosed :
    (at : Time) (item : CycleJob) (store : Store) (n : ℕ) {s : Store × ℕ}
    → leave_item at item store n ≡ ok s
    → item.cycle_open ≡ true
    → is_closable item ≡ true
    → HasCycle item.id store
    → IsClosed item.id s.0
unfolding leave_item
leave_item-IsClosed at item store n {s} h o closable has =
    let passes : not (terminal item.state) && not (can_transition item.state cancelled) ≡ false =
      ground arith in
    let opened : not item.cycle_open ≡ false = ap not o in
    let closed = close_cycle-IsClosed item.id at store has in
    elim (Bool-cases (not (terminal item.state))) [
      | inl c ↦
          (IsClosed-IsKept item.id).cancels _ at item (close_cycle item.id at store) s.0
            (counted-ok n _ (rw (opened, passes, c) at h)) closed
      | inr c ↦
          subst (λ (q : Store × ℕ). IsClosed item.id q.0)
            (ok-injective (rw (opened, passes, c) at h)) closed
    ]

leave_items-IsClosed :
    (at : Time) (items : List CycleJob) (s : Store × ℕ) {s' : Store × ℕ}
    → leave_items at items s ≡ ok s'
    → All
        (λ item.
          item.cycle_open ≡ true
          → is_closable item ≡ true
          → HasCycle item.id s.0
          → IsClosed item.id s'.0)
        items
unfolding leave_items
leave_items-IsClosed at [] s h = tt
leave_items-IsClosed at (item ∷ items) s h =
    let (s₁, left, rest) = >>=-eq-ok (leave_item at item s.0 s.1) _ h in
    (
      λ o c p.
          leave_items-keeps (IsClosed-IsKept item.id) at items s₁ rest
            (leave_item-IsClosed at item s.0 s.1 left o c p),
      All-mono items
          (λ q f o c p. f o c (leave_item-keeps (HasCycle-IsKept q.id) at item s.0 s.1 left p))
          (leave_items-IsClosed at items s₁ rest),
    )

-- An open cycle that is to be closed, of a key that is not wanted.
abbrev pub IsLeft : List WantedKey → CycleJob → Type 0
IsLeft wanted item =
    (any (same_key (key_of item)) wanted ≡ false)
    × (item.cycle_open ≡ true)
    × (is_closable item ≡ true)

group-IsClosed :
    (wanted : List WantedKey) (at : Time) (key : WantedKey) (jobs : List CycleJob) (s : Store × ℕ)
    {s' : Store × ℕ}
    → reconcile_group wanted at key (group_of key jobs) s ≡ ok s'
    → All
        (λ item.
          same_key (key_of item) key ≡ true
          → IsLeft wanted item
          → HasCycle item.id s.0
          → IsClosed item.id s'.0)
        jobs
unfolding reconcile_group group_of
group-IsClosed wanted at key jobs s {s'} h = elim (Bool-cases (any (same_key key) wanted)) [
  | inl w ↦ All-intro jobs (λ item e l p.
      let unwanted : any (same_key key) wanted ≡ false =
        subst (λ k. any (same_key k) wanted ≡ false) (same_key-equal (key_of item) key e) l.0 in
      absurd (cc))
  | inr w ↦
      All-mono jobs (λ item f e l p. f e l.1 l.2 p)
        (All-kept
          (λ item.
            item.cycle_open ≡ true
            → is_closable item ≡ true
            → HasCycle item.id s.0
            → IsClosed item.id s'.0)
          (λ item. same_key (key_of item) key) jobs
          (leave_items-IsClosed at (group_of key jobs) s (rw w at h)))
]

groups-IsClosed :
    (wanted : List WantedKey) (at : Time) (jobs : List CycleJob) (keys : List WantedKey)
    (s : Store × ℕ) {s' : Store × ℕ}
    → reconcile_groups wanted at jobs keys s ≡ ok s'
    → All
        (λ item.
          any (same_key (key_of item)) keys ≡ true
          → IsLeft wanted item
          → HasCycle item.id s.0
          → IsClosed item.id s'.0)
        jobs
unfolding reconcile_groups
groups-IsClosed wanted at jobs [] s h = All-intro jobs (λ item e. absurd (cc))
groups-IsClosed wanted at jobs (key ∷ keys) s {s'} h =
    let (s₁, done, rest) = >>=-eq-ok (reconcile_group wanted at key (group_of key jobs) s) _ h in
    All-mono jobs
      (λ item f e l p. elim (Bool-cases (same_key (key_of item) key)) [
        | inl own ↦ groups-keep (IsClosed-IsKept item.id) wanted at jobs keys s₁ rest (f.0 own l p)
        | inr other ↦
            f.1 (rw other at e) l
              (group-keeps (HasCycle-IsKept item.id) wanted at key (group_of key jobs) s done p)
      ])
      (All-both _ _ jobs (group-IsClosed wanted at key jobs s done)
        (groups-IsClosed wanted at jobs keys s₁ rest))

open-HasCycle :
    (store : Store) (r : Row)
    → (with_cycle r (find_cycle r.job.id store.wanted_cycles)).cycle_open ≡ true
    → HasCycle r.job.id store
open-HasCycle store r h = elim (Option-cases (find_cycle r.job.id store.wanted_cycles)) [
  | inl n ↦ let impossible = rw n at h in absurd (cc)
  | inr (c, e) ↦ (c, e)
]

rows-HasCycle :
    (store : Store) (rows : List Row)
    → All
        (λ item. item.cycle_open ≡ true → HasCycle item.id store)
        (map (λ r. with_cycle r (find_cycle r.job.id store.wanted_cycles)) rows)
rows-HasCycle store [] = tt
rows-HasCycle store (r ∷ rows) = (open-HasCycle store r, rows-HasCycle store rows)

jobs-HasCycle :
    (store : Store) (jobs : List CycleJob)
    → wanted_cycle_jobs store ≡ ok jobs
    → All (λ item. item.cycle_open ≡ true → HasCycle item.id store) jobs
unfolding wanted_cycle_jobs
jobs-HasCycle store jobs h =
    let (_, h₁) =
      guard-ok (any (λ r. not (is_parsable r.job.state)) store.jobs) unparsable_state _ h in
    subst (All (λ item. item.cycle_open ≡ true → HasCycle item.id store)) (ok-injective h₁)
      (rows-HasCycle store (sort_stable read_before store.jobs))

-- After a reconciliation that succeeds, every job that had an open cycle for an album that is no
-- longer wanted has its cycle closed, unless the job is past the point where it can be cancelled;
-- the order in which the groups are gone through does not matter, as long as it leaves none out.
pub reconcile-IsClosed :
    (order : List WantedKey → List WantedKey) (wanted : List WantedKey) (at : Time)
    (store store' : Store) (jobs : List CycleJob) (n : ℕ)
    → ((key : WantedKey) (keys : List WantedKey)
        → any (same_key key) keys ≡ true
        → any (same_key key) (order keys) ≡ true)
    → wanted_cycle_jobs store ≡ ok jobs
    → reconcile_wanted_cycles order wanted at store ≡ ok (store', n)
    → All (λ item. IsLeft wanted item → IsClosed item.id store') jobs
unfolding reconcile_wanted_cycles
reconcile-IsClosed order wanted at store store' jobs n visits read h =
    All-mono jobs (λ item f l. f.0.0 (visits (key_of item) (keys_of jobs) f.0.1) l (f.1 l.1))
      (All-both _ _ jobs
        (All-both _ _ jobs
          (groups-IsClosed wanted (utc at) jobs (order (keys_of jobs)) (store, 0) (rw read at h))
          (keys_of-covers jobs))
        (jobs-HasCycle store jobs read))
