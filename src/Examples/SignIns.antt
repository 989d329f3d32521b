-- ===== src/Examples/SignIns.antt =====
-- Runs of internal/pipeline/adminui/handlers/login_throttle.go.
use denyra.AdminUi.LoginThrottle.{counted}
use denyra.AdminUi.LoginThrottle.{put}
use denyra.Base.Int.{◌+ℤ◌}
use denyra.Base.Int.{int64}
use denyra.AdminUi.LoginThrottle.{reports}
use denyra.AdminUi.LoginThrottle.{has_expired}
use denyra.AdminUi.LoginThrottle.{expire}
use denyra.AdminUi.LoginThrottle.{find}
use Prim.Native.Nat.{min}
use denyra.Base.{◌*◌, ◌^◌, ◌≡◌, refl, true, [], ◌∷◌, arith}
use denyra.Base.Int.{pos, int64, ◌+ℤ◌}
use denyra.Base.Text.{codes}
use denyra.Base.Time.{at_instant}
use denyra.AdminUi.LoginThrottle.{
  Entry, LoginThrottle, no_entry, new_login_throttle, delay_for, failure, find, expire,
}
use denyra.AdminUi.LoginThrottle.Delay.{delay_for-doubles}
use denyra.AdminUi.LoginThrottle.Capacity.{
  IsBounded, asks, fails, succeeds, serve_all, serve_all-IsBounded,
}

-- Two failures within 1000 block for 10, doubled up to 60; one key is remembered.
abbrev empty : LoginThrottle
empty = record {
  entries = [];
  failures = pos 2;
  capacity = pos 1;
  window = pos 1000;
  base_delay = pos 10;
  maximum_delay = pos 60;
}

abbrev failed_once : Entry
failed_once = record no_entry {
  failures = pos 1;
  first_failure = at_instant 5;
  last_seen = at_instant 5;
}

abbrev after_one : LoginThrottle
after_one = record empty { entries = (codes "k", failed_once) ∷ [] }

starts_empty : new_login_throttle (pos 2) (pos 1000) (pos 10) (pos 60) (pos 1) ≡ empty
unfolding new_login_throttle
starts_empty = refl

delay_for-doubles_example : delay_for empty (pos 2) ≡ pos (min (10 * 2 ^ 2) 60)
delay_for-doubles_example = delay_for-doubles empty 10 60 2 refl refl (omega arith)

serve_all-IsBounded_example : IsBounded 1 (
    serve_all empty (
      fails (codes "k") (at_instant 5)
      ∷ fails (codes "j") (at_instant 6)
      ∷ asks (codes "k") (at_instant 7)
      ∷ succeeds (codes "j")
      ∷ []))
serve_all-IsBounded_example =
    serve_all-IsBounded 1 empty
      (fails (codes "k") (at_instant 5)
        ∷ fails (codes "j") (at_instant 6)
        ∷ asks (codes "k") (at_instant 7)
        ∷ succeeds (codes "j")
        ∷ [])
      (omega arith) (refl, omega arith)

reported : (failure (codes "k") (at_instant 6) after_one).1 ≡ true
unfolding failure find expire has_expired reports int64 ◌+ℤ◌
reported = refl

kept :
    find
      (codes "k")
      (expire (at_instant 10) (failure (codes "k") (at_instant 6) after_one).0).entries
    ≡ find (codes "k") (failure (codes "k") (at_instant 6) after_one).0.entries
unfolding failure expire find has_expired put counted int64 ◌+ℤ◌
kept = refl
