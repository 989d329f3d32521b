-- ===== src/Gateway/WantedCycles/Steps.antt =====
-- What every change of ReconcileWantedCycles keeps, the whole keeps.
use denyra.Base.{
  ℕ, suc, ◌≡◌, ap, subst, not, ◌&&◌, ◌||◌, ◌==◌, Option, none, some, List, [], ◌∷◌, any, Result, ok,
  err, Bool-cases, inl, inr, ok-injective, >>=-eq-ok,
}
use denyra.Base.Text.{Str}
use denyra.Base.Time.{Time}
use denyra.Gateway.State.{cancelled, terminal, can_transition}
use denyra.Gateway.JobStore.{Store, Error}
use denyra.Gateway.WantedCycles.{
  WantedKey, CycleJob, same_key, group_of, cancel_job, close_cycle, open_cycle, counted, leave_item,
  leave_items, keeper, coalesce, keep_items, reconcile_group, reconcile_groups,
}

pub counted-ok : (n : ℕ) (m : Result Error Store) {s : Store × ℕ} → counted n m ≡ ok s → m ≡ ok s.0
counted-ok n (ok store) h = ap (λ (p : Store × ℕ). ok p.0) (ok-injective h)
counted-ok n (err e) h = absurd (cc)

-- A predicate on stores that the three changes of a row keep.
pub record IsKept (P : Store → Type 0) : Type 0 where
  pub cancels :
      (reason : Str) (at : Time) (item : CycleJob) (store store' : Store)
      → cancel_job reason at item store ≡ ok store'
      → P store
      → P store'
  pub closes : (id : Str) (at : Time) (store : Store) → P store → P (close_cycle id at store)
  pub opens :
      (at : Time) (item : CycleJob) (store store' : Store)
      → open_cycle at item store ≡ ok store'
      → P store
      → P store'

module _ {P : Store → Type 0} (kept : IsKept P) where
  pub leave_item-keeps :
      (at : Time) (item : CycleJob) (store : Store) (n : ℕ) {s : Store × ℕ}
      → leave_item at item store n ≡ ok s
      → P store
      → P s.0
  unfolding leave_item
  leave_item-keeps at item store n {s} h p = elim (Bool-cases (not item.cycle_open)) [
    | inl a ↦
        elim (Bool-cases (
          not item.has_cycle && not (terminal item.state) && can_transition item.state cancelled)) [
            | inl b ↦ kept.cancels _ at item store s.0 (counted-ok n _ (rw (a, b) at h)) p
            | inr b ↦ subst (λ (q : Store × ℕ). P q.0) (ok-injective (rw (a, b) at h)) p
          ]
    | inr a ↦
        elim (Bool-cases (not (terminal item.state) && not (can_transition item.state cancelled))) [
          | inl b ↦ subst (λ (q : Store × ℕ). P q.0) (ok-injective (rw (a, b) at h)) p
          | inr b ↦
              let closed = kept.closes item.id at store p in
              elim (Bool-cases (not (terminal item.state))) [
                | inl c ↦
                    kept.cancels _ at item (close_cycle item.id at store) s.0
                      (counted-ok n _ (rw (a, b, c) at h)) closed
                | inr c ↦ subst (λ (q : Store × ℕ). P q.0) (ok-injective (rw (a, b, c) at h)) closed
              ]
        ]
  ]

  pub leave_items-keeps :
      (at : Time) (items : List CycleJob) (s : Store × ℕ) {s' : Store × ℕ}
      → leave_items at items s ≡ ok s'
      → P s.0
      → P s'.0
  unfolding leave_items
  leave_items-keeps at [] s h p = subst (λ (q : Store × ℕ). P q.0) (ok-injective h) p
  leave_items-keeps at (item ∷ items) s h p =
      let (s₁, left, rest) = >>=-eq-ok (leave_item at item s.0 s.1) _ h in
      leave_items-keeps at items s₁ rest (leave_item-keeps at item s.0 s.1 left p)

  coalesce-keeps :
      (at : Time) (k i : ℕ) (items : List CycleJob) (s : Store × ℕ) {s' : Store × ℕ}
      → coalesce at k i items s ≡ ok s'
      → P s.0
      → P s'.0
  unfolding coalesce
  coalesce-keeps at k i [] s h p = subst (λ (q : Store × ℕ). P q.0) (ok-injective h) p
  coalesce-keeps at k i (item ∷ items) s h p =
      elim (Bool-cases (
        i == k
        || item.has_cycle
        || terminal item.state
        || not (can_transition item.state cancelled))) [
          | inl e ↦ coalesce-keeps at k (suc i) items s (rw e at h) p
          | inr e ↦
              let (s₁, done, rest) =
                >>=-eq-ok (counted s.1 (cancel_job _ at item s.0)) _ (rw e at h) in
              coalesce-keeps at k (suc i) items s₁ rest
                (kept.cancels _ at item s.0 s₁.0 (counted-ok s.1 _ done) p)
        ]

  keep_items-keeps :
      (at : Time) (items : List CycleJob) (found : Option (ℕ × CycleJob)) (s : Store × ℕ)
      {s' : Store × ℕ}
      → keep_items at items found s ≡ ok s'
      → P s.0
      → P s'.0
  unfolding keep_items
  keep_items-keeps at items none s h p = subst (λ (q : Store × ℕ). P q.0) (ok-injective h) p
  keep_items-keeps at items (some (k, item)) s h p = elim (Bool-cases (not item.cycle_open)) [
    | inl e ↦
        let (opened, done, rest) = >>=-eq-ok (open_cycle at item s.0) _ (rw e at h) in
        coalesce-keeps at k 0 items (opened, s.1) rest (kept.opens at item s.0 opened done p)
    | inr e ↦ coalesce-keeps at k 0 items s (rw e at h) p
  ]

  pub group-keeps :
      (wanted : List WantedKey) (at : Time) (key : WantedKey) (items : List CycleJob)
      (s : Store × ℕ) {s' : Store × ℕ}
      → reconcile_group wanted at key items s ≡ ok s'
      → P s.0
      → P s'.0
  unfolding reconcile_group
  group-keeps wanted at key items s h p = elim (Bool-cases (any (same_key key) wanted)) [
    | inl e ↦ keep_items-keeps at items (keeper items) s (rw e at h) p
    | inr e ↦ leave_items-keeps at items s (rw e at h) p
  ]

  pub groups-keep :
      (wanted : List WantedKey) (at : Time) (jobs : List CycleJob) (keys : List WantedKey)
      (s : Store × ℕ) {s' : Store × ℕ}
      → reconcile_groups wanted at jobs keys s ≡ ok s'
      → P s.0
      → P s'.0
  unfolding reconcile_groups
  groups-keep wanted at jobs [] s h p = subst (λ (q : Store × ℕ). P q.0) (ok-injective h) p
  groups-keep wanted at jobs (key ∷ keys) s h p =
      let (s₁, done, rest) = >>=-eq-ok (reconcile_group wanted at key (group_of key jobs) s) _ h in
      groups-keep wanted at jobs keys s₁ rest
        (group-keeps wanted at key (group_of key jobs) s done p)
