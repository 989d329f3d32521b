-- ===== src/Config/Sections.antt =====
-- A valid configuration passes the checks of every section.
use denyra.Base.{◌≡◌, refl, ◌>>◌, guard-ok, any, false, Result, ok, err, []}
use denyra.Base.Text.{codes}
use denyra.Config.Types.{Config}
use denyra.Config.Validate.{
  Error, duration_not_positive, not_positive, positive_durations, validate_throttle, managed_paths,
  check_paths, validate, validate_limits, validate_retry, validate_sessions, validate_thresholds,
}

pub record Sections (c : Config) : Type 0 where
  pub limits : validate_limits c ≡ ok tt
  pub durations : any not_positive (positive_durations c) ≡ false
  pub primary : validate_retry (codes "primary") c.acquisition.primary_retry ≡ ok tt
  pub fallback : validate_retry (codes "fallback") c.acquisition.fallback_retry ≡ ok tt
  pub sessions : validate_sessions c ≡ ok tt
  pub throttle : validate_throttle c.sessions.login_throttle ≡ ok tt
  pub thresholds : validate_thresholds c.validation ≡ ok tt
  pub paths : check_paths c.filesystem.data_root [] (managed_paths c.filesystem) ≡ ok tt

-- A check that passed, and the rest.
after_ok : (a b : Result Error (Unit {0})) → (a >> b) ≡ ok tt → (a ≡ ok tt) × (b ≡ ok tt)
after_ok (ok tt) b h = (refl, h)
after_ok (err e) b h = absurd (cc)

pub validate-Sections : (c : Config) → validate c ≡ ok tt → Sections c
unfolding validate
validate-Sections c h =
    let (limits, h₁) = after_ok (validate_limits c) _ h in
    let (durations, h₂) =
      guard-ok (any not_positive (positive_durations c)) duration_not_positive _ h₁ in
    let (primary, h₃) =
      after_ok (validate_retry (codes "primary") c.acquisition.primary_retry) _ h₂ in
    let (fallback, h₄) =
      after_ok (validate_retry (codes "fallback") c.acquisition.fallback_retry) _ h₃ in
    let (sessions, h₅) = after_ok (validate_sessions c) _ h₄ in
    let (throttle, h₆) = after_ok (validate_throttle c.sessions.login_throttle) _ h₅ in
    let (thresholds, paths) = after_ok (validate_thresholds c.validation) _ h₆ in
    record {
      limits = limits;
      durations = durations;
      primary = primary;
      fallback = fallback;
      sessions = sessions;
      throttle = throttle;
      thresholds = thresholds;
      paths = paths;
    }
