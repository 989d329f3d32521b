-- ===== src/Config/Policies.antt =====
-- The policies that the commands build from the configuration (cmd/acquisition-gateway/main.go and
-- cmd/media-pipeline/main.go, and application/uploads.go of the pipeline), and what a valid
-- configuration makes of them.
use denyra.Base.{
  ◌≡◌, ◌<◌, refl, sym, subst, arith, false, List, any, length, ok, guard-ok, reject_if-ok,
}
use denyra.Base.Int.{ℤ, pos, negsuc, ◌≤ℤ◌, pos_part, leb_ℤ, ltb_ℤ}
use denyra.Gateway.Retry as Retry
use denyra.Gateway.Retry.{RetryPolicy}
use denyra.Pipeline.Duration as Duration
use denyra.Pipeline.Duration.{DurationPolicy}
use denyra.AdminUi.LoginThrottle.{LoginThrottle, new_login_throttle}
use denyra.AdminUi.LoginThrottle.Capacity.{Request, serve_all, IsBounded, serve_all-IsBounded}
use denyra.Config.Types.{Config, ValidationConfig, LoginThrottleConfig}
use denyra.Config.Schedules.{validate_retry_iff}
use denyra.Config.Sections.{validate-Sections}
use denyra.Config.Validate.{
  not_positive, positive_durations, validation_values, is_inverted, validate, validate_throttle,
  throttle_failures_not_positive, throttle_capacity_too_low, threshold_not_positive,
  manual_below_auto, validate_thresholds,
}

-- The gateway's policy, of cmd/acquisition-gateway/main.go.
unfoldable pub retry_policy : Config → RetryPolicy
retry_policy c = record {
  primary = c.acquisition.primary_retry;
  fallback = c.acquisition.fallback_retry;
  no_candidate = c.acquisition.no_candidate_retry;
}

-- `durationPolicy`, of cmd/media-pipeline/main.go.
unfoldable pub duration_policy : ValidationConfig → DurationPolicy
duration_policy v = record {
  track_auto_floor_ms = v.track_auto_floor_ms;
  track_auto_percent_basis_points = v.track_auto_percent_basis_points;
  track_manual_floor_ms = v.track_manual_floor_ms;
  track_manual_percent_basis_points = v.track_manual_percent_basis_points;
  release_auto_floor_ms = v.release_auto_floor_ms;
  release_auto_percent_basis_points = v.release_auto_percent_basis_points;
  release_manual_floor_ms = v.release_manual_floor_ms;
  release_manual_percent_basis_points = v.release_manual_percent_basis_points;
}

-- `loginThrottle`, of cmd/media-pipeline/main.go.
unfoldable pub login_throttle : LoginThrottleConfig → LoginThrottle
login_throttle t = new_login_throttle t.failures t.window t.base_delay t.max_delay t.capacity

no_candidate_positive :
    (c : Config)
    → any not_positive (positive_durations c) ≡ false
    → leb_ℤ c.acquisition.no_candidate_retry (pos 0) ≡ false
unfolding positive_durations
no_candidate_positive c h = ground arith

thresholds_accepted :
    (v : ValidationConfig)
    → validate_thresholds v ≡ ok tt
    → Duration.validate (duration_policy v) ≡ ok tt
unfolding validate_thresholds validation_values is_inverted Duration.validate duration_policy
thresholds_accepted v h =
    let (positive, h₁) =
      guard-ok (any not_positive (validation_values v)) threshold_not_positive _ h in
    let ordered = reject_if-ok (is_inverted v) manual_below_auto h₁ in rw (positive, ordered) refl

-- The policies that the two services build from a valid configuration pass their own validation.
pub policies_accepted :
    (c : Config)
    → validate c ≡ ok tt
    → (Retry.validate (retry_policy c) ≡ ok tt)
      × (Duration.validate (duration_policy c.validation) ≡ ok tt)
unfolding Retry.validate retry_policy
policies_accepted c h =
    let s = validate-Sections c h in
    let primary = (validate_retry_iff _ c.acquisition.primary_retry).0 s.primary in
    let fallback = (validate_retry_iff _ c.acquisition.fallback_retry).0 s.fallback in
    (
      rw (primary, fallback, no_candidate_positive c s.durations) refl,
      thresholds_accepted c.validation s.thresholds,
    )

large : (z : ℤ) → ltb_ℤ z (pos 128) ≡ false → (z ≡ pos (pos_part z)) × (0 < pos_part z)
large (pos n) h = (refl, ground arith)
large (negsuc n) h = absurd (ground arith)

capacity_positive :
    (t : LoginThrottleConfig)
    → validate_throttle t ≡ ok tt
    → (t.capacity ≡ pos (pos_part t.capacity)) × (0 < pos_part t.capacity)
unfolding validate_throttle
capacity_positive t h =
    let (_, h₁) = guard-ok (not_positive t.failures) throttle_failures_not_positive _ h in
    let (enough, _) = guard-ok (ltb_ℤ t.capacity (pos 128)) throttle_capacity_too_low _ h₁ in
    large t.capacity enough

-- Under a valid configuration the sign-in throttle never holds more keys than the capacity that is
-- configured, whatever requests it serves.
pub throttle_IsBounded :
    (c : Config) (rs : List Request)
    → validate c ≡ ok tt
    → (pos (length (serve_all (login_throttle c.sessions.login_throttle) rs).entries)
        ≤ℤ c.sessions.login_throttle.capacity)
unfolding login_throttle new_login_throttle
throttle_IsBounded c rs h =
    let t = c.sessions.login_throttle in
    let (whole, positive) = capacity_positive t (validate-Sections c h).throttle in
    let fresh : IsBounded (pos_part t.capacity) (login_throttle t) = (whole, omega arith) in
    let (_, bounded) =
      serve_all-IsBounded (pos_part t.capacity) (login_throttle t) rs positive fresh in
    subst (λ z. pos (length (serve_all (login_throttle t) rs).entries) ≤ℤ z) (sym whole)
      (omega (arith, bounded))
