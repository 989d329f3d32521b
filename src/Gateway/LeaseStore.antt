-- ===== src/Gateway/LeaseStore.antt =====
-- internal/gateway/persistence/leases.go, and ReleaseLease of runtime.go: the rows of the table
-- leases and the statements on them. The table's key is the type and identifier of the resource.
-- The failures of the database itself, the times' text format and the reference to the snapshot of
-- the configuration are left out.
pub mod Rows
pub mod Exclusion
use denyra.Base.{
  ℕ, Bool, true, false, not, ◌&&◌, Option, none, some, List, [], ◌∷◌, ◌==◌, if◌then◌else◌, map, any,
  keep, Result, ok, err, ◌>>=◌, ◌>>◌, reject_if,
}
use denyra.Base.Text.{Str, same}
use denyra.Base.Time.{Time, before, utc}

pub record Lease : Type 0 where
  pub resource_type : Str
  pub resource_id : Str
  pub owner_id : Str
  pub config_snapshot_id : Str
  pub acquired_at : Time
  pub expires_at : Time
  pub resource_revision : ℕ

-- `ErrLeaseHeld` and `ErrLeaseNeedsReconciliation`
pub data Error : Type 0 where
  lease_held lease_needs_reconciliation : Error

-- `WHERE resource_type=? AND resource_id=?`
unfoldable pub is_resource : Str → Str → Lease → Bool
is_resource type id row = same type row.resource_type && same id row.resource_id

unfoldable pub find_lease : Str → Str → List Lease → Option Lease
find_lease type id [] = none
find_lease type id (row ∷ rows) =
    let rest = find_lease type id rows in if is_resource type id row then some row else rest

-- `UPDATE leases SET ... WHERE ...`
unfoldable pub update_leases : (Lease → Bool) → (Lease → Lease) → List Lease → List Lease
update_leases matches f rows = map (λ row. if matches row then f row else row) rows

-- The row of a lease: the times are stored in UTC.
abbrev pub stored : Lease → Lease
stored lease = record lease {
  acquired_at = utc lease.acquired_at;
  expires_at = utc lease.expires_at;
}

abbrev pub taken_over : Lease → Lease → Lease
taken_over lease row = record (stored lease) {
  resource_type = row.resource_type;
  resource_id = row.resource_id;
}

-- What `AcquireLease` does with the row that it has found.
unfoldable pub acquire_from : Lease → Bool → List Lease → Option Lease → Result Error (List Lease)
acquire_from lease reconciled rows none = ok (stored lease ∷ rows)
acquire_from lease reconciled rows (some held) = do
  reject_if (before lease.acquired_at held.expires_at) lease_held
  reject_if (not reconciled) lease_needs_reconciliation
  ok (update_leases (is_resource lease.resource_type lease.resource_id) (taken_over lease) rows)

-- `AcquireLease`
unfoldable pub acquire_lease : Lease → Bool → List Lease → Result Error (List Lease)
acquire_lease lease reconciled rows =
    acquire_from lease reconciled rows (find_lease lease.resource_type lease.resource_id rows)

unfoldable pub is_own : Str → Str → Str → Lease → Bool
is_own type id owner row = is_resource type id row && same owner row.owner_id

unfoldable pub is_renewable : Str → Str → Str → ℕ → Lease → Bool
is_renewable type id owner expected row =
    is_own type id owner row && row.resource_revision == expected

-- `RenewLease`
unfoldable pub renew_lease : Str → Str → Str → ℕ → Time → List Lease → Result Error (List Lease)
renew_lease type id owner expected expires_at rows = do
  reject_if (not (any (is_renewable type id owner expected) rows)) lease_held
  ok (
      update_leases (is_renewable type id owner expected)
        (λ row. record row { expires_at = utc expires_at }) rows)

-- `ReleaseLease`
unfoldable pub release_lease : Str → Str → Str → List Lease → List Lease
release_lease type id owner rows = keep (λ row. not (is_own type id owner row)) rows

-- `withTx`: the rows after a transaction, which an error rolls back.
abbrev pub with_tx : List Lease → Result Error (List Lease) → List Lease
with_tx rows (ok rows') = rows'
with_tx rows (err e) = rows
