-- ===== src/Examples/Leases.antt =====
-- Runs of internal/gateway/persistence/leases.go.
use denyra.Gateway.LeaseStore.{is_own}
use denyra.Gateway.LeaseStore.{is_renewable}
use denyra.Gateway.LeaseStore.{update_leases}
use denyra.Gateway.LeaseStore.{is_resource}
use denyra.Gateway.LeaseStore.{acquire_from}
use denyra.Base.{◌≡◌, refl, true, false, some, [], ◌∷◌, ok, err}
use denyra.Base.Text.{codes}
use denyra.Base.Time.{at_instant}
use denyra.Gateway.LeaseStore.{
  Lease, find_lease, acquire_lease, lease_held, lease_needs_reconciliation, renew_lease,
  release_lease,
}
use denyra.Gateway.LeaseStore.Exclusion.{
  acquires, renews, releases, handle_all, acquire_lease-Excludes,
}

abbrev first_lease : Lease
first_lease = record {
  resource_type = codes "job";
  resource_id = codes "1";
  owner_id = codes "a";
  config_snapshot_id = codes "config";
  acquired_at = at_instant 10;
  expires_at = at_instant 20;
  resource_revision = 0;
}

abbrev second_lease : Lease
second_lease = record first_lease {
  owner_id = codes "b";
  acquired_at = at_instant 15;
  expires_at = at_instant 25;
}

abbrev late_lease : Lease
late_lease = record second_lease { acquired_at = at_instant 20; expires_at = at_instant 30 }

first_acquires : acquire_lease first_lease false [] ≡ ok (first_lease ∷ [])
unfolding acquire_lease acquire_from find_lease
first_acquires = refl

second_waits : acquire_lease second_lease true (first_lease ∷ []) ≡ err lease_held
unfolding acquire_lease acquire_from find_lease is_resource
second_waits = refl

late_must_reconcile :
    acquire_lease late_lease false (first_lease ∷ []) ≡ err lease_needs_reconciliation
unfolding acquire_lease acquire_from find_lease is_resource
late_must_reconcile = refl

late_takes_over : acquire_lease late_lease true (first_lease ∷ []) ≡ ok (late_lease ∷ [])
unfolding acquire_lease acquire_from find_lease is_resource update_leases
late_takes_over = refl

renewed :
    renew_lease (codes "job") (codes "1") (codes "b") 0 (at_instant 40) (first_lease ∷ [])
    ≡ err lease_held
unfolding renew_lease is_renewable is_own is_resource
renewed = refl

released : release_lease (codes "job") (codes "1") (codes "a") (first_lease ∷ []) ≡ []
unfolding release_lease is_own is_resource
released = refl

acquire_lease-Excludes_example :
    find_lease (codes "job") (codes "1") (
      handle_all
        (acquires second_lease true
          ∷ renews (codes "job") (codes "1") (codes "b") 0 (at_instant 40)
          ∷ releases (codes "job") (codes "1") (codes "b")
          ∷ [])
        (first_lease ∷ []))
    ≡ some first_lease
acquire_lease-Excludes_example =
    acquire_lease-Excludes first_lease false [] (first_lease ∷ [])
      (acquires second_lease true
        ∷ renews (codes "job") (codes "1") (codes "b") 0 (at_instant 40)
        ∷ releases (codes "job") (codes "1") (codes "b")
        ∷ [])
      first_acquires (refl, (refl, (refl, tt)))
