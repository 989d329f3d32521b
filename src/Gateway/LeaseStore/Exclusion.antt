-- ===== src/Gateway/LeaseStore/Exclusion.antt =====
-- A lease keeps its resource from the other workers until it expires.
use denyra.Base.{
  ℕ, ◌≡◌, refl, sym, ap, subst, ◌∙◌, inl, inr, arith, Bool, true, false, not, Option, none, some,
  List, [], ◌∷◌, any, All, Bool-cases, ok, ok-injective, guard-ok,
}
use denyra.Base.Text.{Str, same}
use denyra.Base.Time.{Time, before}
use denyra.Gateway.LeaseStore.{
  Lease, lease_held, lease_needs_reconciliation, is_resource, find_lease, stored, taken_over,
  acquire_from, acquire_lease, is_own, is_renewable, renew_lease, release_lease, with_tx,
}
use denyra.Gateway.LeaseStore.Rows.{
  is_resource-own, is_resource_refl, find_lease-own, find-update, find-keep, find-take_over,
}

-- What workers ask of the table.
pub data Request : Type 0 where
  acquires : Lease → Bool → Request
  renews : Str → Str → Str → ℕ → Time → Request
  releases : Str → Str → Str → Request

abbrev pub handle : Request → List Lease → List Lease
handle (acquires lease reconciled) rows = with_tx rows (acquire_lease lease reconciled rows)
handle (renews type id owner expected at) rows =
    with_tx rows (renew_lease type id owner expected at rows)
handle (releases type id owner) rows = release_lease type id owner rows

abbrev pub handle_all : List Request → List Lease → List Lease
handle_all [] rows = rows
handle_all (q ∷ qs) rows = handle_all qs (handle q rows)

-- A request of another worker than the holder of a lease; to acquire, one made before it expires.
abbrev IsForeign : Lease → Request → Type 0
IsForeign held (acquires lease reconciled) = before lease.acquired_at held.expires_at ≡ true
IsForeign held (renews type id owner expected at) = same owner held.owner_id ≡ false
IsForeign held (releases type id owner) = same owner held.owner_id ≡ false

is_own-other : (t i o : Str) (row : Lease) → same o row.owner_id ≡ false → is_own t i o row ≡ false
unfolding is_own
is_own-other t i o row h = ground arith

is_renewable-other :
    (t i o : Str) (n : ℕ) (row : Lease)
    → same o row.owner_id ≡ false
    → is_renewable t i o n row ≡ false
unfolding is_renewable
is_renewable-other t i o n row h = let own = is_own-other t i o row h in rw own refl

renew_lease-Keeps :
    (t i : Str) (type id owner : Str) (expected : ℕ) (at : Time) (rows : List Lease) {held : Lease}
    → same owner held.owner_id ≡ false
    → find_lease t i rows ≡ some held
    → find_lease t i (with_tx rows (renew_lease type id owner expected at rows)) ≡ some held
unfolding renew_lease is_resource
renew_lease-Keeps t i type id owner expected at rows {held} other h =
    elim (Bool-cases (any (is_renewable type id owner expected) rows)) [
      | inl m ↦ rw m (
          find-update t i (is_renewable type id owner expected) _ rows (λ row. refl)
            (is_renewable-other type id owner expected held other) h)
      | inr m ↦ rw m h
    ]

release_lease-Keeps :
    (t i : Str) (type id owner : Str) (rows : List Lease) {held : Lease}
    → same owner held.owner_id ≡ false
    → find_lease t i rows ≡ some held
    → find_lease t i (release_lease type id owner rows) ≡ some held
unfolding release_lease
release_lease-Keeps t i type id owner rows {held} other h =
    let foreign = is_own-other type id owner held other in
    find-keep t i (λ row. not (is_own type id owner row)) rows (ap not foreign) h

-- The resource of an unexpired lease is refused.
refused-Keeps :
    (t i : Str) (lease : Lease) (reconciled : Bool) (rows : List Lease) {held : Lease}
    → before lease.acquired_at held.expires_at ≡ true
    → find_lease t i rows ≡ some held
    → find_lease t i (with_tx rows (acquire_from lease reconciled rows (some held))) ≡ some held
unfolding acquire_from
refused-Keeps t i lease reconciled rows early h = rw early h

-- An acquisition that has found the row of another resource, or none.
acquire_from-Keeps :
    (t i : Str) (lease : Lease) (reconciled : Bool) (rows : List Lease) (found : Option Lease)
    {held : Lease}
    → is_resource lease.resource_type lease.resource_id held ≡ false
    → (found ≡ none → is_resource t i lease ≡ false)
    → find_lease t i rows ≡ some held
    → find_lease t i (with_tx rows (acquire_from lease reconciled rows found)) ≡ some held
unfolding acquire_from is_resource find_lease
acquire_from-Keeps t i lease reconciled rows none other new h = rw (new refl) h
acquire_from-Keeps t i lease reconciled rows (some row) other new h =
    elim (Bool-cases (before lease.acquired_at row.expires_at)) [
      | inl early ↦ rw early h
      | inr late ↦ elim (Bool-cases reconciled) [
        | inl r ↦
            rw (late, r)
              (find-update t i (is_resource lease.resource_type lease.resource_id)
                (taken_over lease) rows (λ row. refl) other h)
        | inr r ↦ rw (late, r) h
      ]
    ]

acquire_lease-Keeps :
    (t i : Str) (lease : Lease) (reconciled : Bool) (rows : List Lease) {held : Lease}
    → before lease.acquired_at held.expires_at ≡ true
    → find_lease t i rows ≡ some held
    → find_lease t i (with_tx rows (acquire_lease lease reconciled rows)) ≡ some held
unfolding acquire_lease
acquire_lease-Keeps t i lease reconciled rows {held} early h =
    elim (Bool-cases (is_resource lease.resource_type lease.resource_id held)) [
      | inl s ↦
          let (a, b) = is_resource-own lease.resource_type lease.resource_id held s in
          let (c, d) = find_lease-own t i rows h in
          let found : find_lease lease.resource_type lease.resource_id rows ≡ some held =
            rw (a ∙ sym c, b ∙ sym d) h in
          rw found (refused-Keeps t i lease reconciled rows early h)
      | inr s ↦
          acquire_from-Keeps t i lease reconciled rows
            (find_lease lease.resource_type lease.resource_id rows) s
            (λ n. elim (Bool-cases (is_resource t i lease)) [
              | inl own ↦
                  let (a, b) = is_resource-own t i lease own in
                  let none_found : find_lease t i rows ≡ none = rw (a, b) n in cc
              | inr new ↦ new
            ])
            h
    ]

handle-Keeps :
    (t i : Str) (q : Request) (rows : List Lease) {held : Lease}
    → IsForeign held q
    → find_lease t i rows ≡ some held
    → find_lease t i (handle q rows) ≡ some held
handle-Keeps t i (acquires lease reconciled) rows f h =
    acquire_lease-Keeps t i lease reconciled rows f h
handle-Keeps t i (renews type id owner expected at) rows f h =
    renew_lease-Keeps t i type id owner expected at rows f h
handle-Keeps t i (releases type id owner) rows f h = release_lease-Keeps t i type id owner rows f h

handle_all-Keeps :
    (t i : Str) (qs : List Request) (rows : List Lease) {held : Lease}
    → All (IsForeign held) qs
    → find_lease t i rows ≡ some held
    → find_lease t i (handle_all qs rows) ≡ some held
handle_all-Keeps t i [] rows f h = h
handle_all-Keeps t i (q ∷ qs) rows f h =
    handle_all-Keeps t i qs (handle q rows) f.1 (handle-Keeps t i q rows f.0 h)

acquire_from-Holds :
    (lease : Lease) (reconciled : Bool) (rows : List Lease) (found : Option Lease)
    {rows' : List Lease}
    → find_lease lease.resource_type lease.resource_id rows ≡ found
    → acquire_from lease reconciled rows found ≡ ok rows'
    → find_lease lease.resource_type lease.resource_id rows' ≡ some (stored lease)
unfolding acquire_from find_lease
acquire_from-Holds lease reconciled rows none e h =
    let own : is_resource lease.resource_type lease.resource_id (stored lease) ≡ true =
      is_resource_refl _ _ _ refl refl in
    rw (sym (ok-injective h), own) refl
acquire_from-Holds lease reconciled rows (some row) e h =
    let r = guard-ok (before lease.acquired_at row.expires_at) lease_held _ h in
    let q = guard-ok (not reconciled) lease_needs_reconciliation _ r.1 in
    subst (λ x. find_lease lease.resource_type lease.resource_id x ≡ some (stored lease))
      (ok-injective q.1) (find-take_over lease rows e)

-- Once a worker has acquired a lease, its row stays in the table as it was acquired, whatever is
-- asked of the table, in any order, as long as renewals and releases are by other owners, and
-- leases to acquire start before this one expires, with or without having reconciled.
pub acquire_lease-Excludes :
    (lease : Lease) (reconciled : Bool) (rows rows' : List Lease) (qs : List Request)
    → acquire_lease lease reconciled rows ≡ ok rows'
    → All (IsForeign (stored lease)) qs
    → find_lease lease.resource_type lease.resource_id (handle_all qs rows') ≡ some (stored lease)
unfolding acquire_lease
acquire_lease-Excludes lease reconciled rows rows' qs h foreign =
    handle_all-Keeps lease.resource_type lease.resource_id qs rows' foreign (
      acquire_from-Holds lease reconciled rows
        (find_lease lease.resource_type lease.resource_id rows) refl h)
