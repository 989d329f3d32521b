-- ===== src/Examples/Settings.antt =====
-- Runs of internal/config on the defaults.
use denyra.Base.FilePath.{is_abs}
use denyra.Base.{◌≡◌, ◌↔◌, refl, true, List, [], ◌∷◌, map, All, length, ok}
use denyra.Base.Pigeonhole.{IsDistinct}
use denyra.Base.Int.{pos, ◌≤ℤ◌}
use denyra.Base.Text.{codes, same, same_iff, trim_space}
use denyra.Base.Time.{at_instant}
use denyra.Base.FilePath.{clean, is_abs, join_slash, push_char, split_slash}
use denyra.Gateway.Retry as Retry
use denyra.Pipeline.Duration as Duration
use denyra.AdminUi.LoginThrottle.Capacity.{Request, asks, fails, succeeds, serve_all}
use denyra.Config.Types.{nan}
use denyra.Config.Defaults.{defaults}
use denyra.Config.Validate.{
  managed_paths, is_outside, validate, validate_retry, validate_limits, lacks_address,
  is_upload_refused, service_urls, is_no_url, positive_durations, check_retry, validate_sessions,
  validate_throttle, validate_thresholds, validation_values, is_inverted, check_paths,
}
use denyra.Config.Schedules.{validate_retry_iff}
use denyra.Config.Layout.{IsInside, validate-IsInside}
use denyra.Config.Policies.{
  retry_policy, duration_policy, login_throttle, policies_accepted, throttle_IsBounded,
}

defaults_valid : validate defaults ≡ ok tt
unfolding validate validate_limits lacks_address trim_space defaults is_upload_refused service_urls
    is_no_url positive_durations validate_retry check_retry validate_sessions validate_throttle
    validate_thresholds validation_values is_inverted check_paths clean is_abs join_slash push_char
    split_slash is_outside managed_paths
defaults_valid = refl

-- A NaN is neither below 0 nor above 100.
nan_percent_valid :
    validate (record defaults { storage = record defaults.storage { minimum_free_percent = nan } })
    ≡ ok tt
unfolding validate validate_limits lacks_address trim_space defaults is_upload_refused service_urls
    is_no_url positive_durations validate_retry check_retry validate_sessions validate_throttle
    validate_thresholds validation_values is_inverted check_paths clean is_abs join_slash push_char
    split_slash is_outside managed_paths
nan_percent_valid = refl

-- Below the root directory is a prefix with two slashes.
root_slash_refused : is_outside (codes "/") (codes "/library") ≡ true
unfolding is_outside is_abs clean
root_slash_refused = refl

validate_retry_iff_example :
    (validate_retry (codes "primary") (pos 1 ∷ pos 3 ∷ pos 2 ∷ []) ≡ ok tt)
    ↔ (Retry.validate_schedule (pos 1 ∷ pos 3 ∷ pos 2 ∷ []) ≡ ok tt)
validate_retry_iff_example = validate_retry_iff (codes "primary") (pos 1 ∷ pos 3 ∷ pos 2 ∷ [])

validate-IsInside_example :
    All (IsInside defaults.filesystem.data_root) (managed_paths defaults.filesystem)
    × IsDistinct same same_iff (map clean (managed_paths defaults.filesystem))
validate-IsInside_example = validate-IsInside defaults defaults_valid

policies_accepted_example :
    (Retry.validate (retry_policy defaults) ≡ ok tt)
    × (Duration.validate (duration_policy defaults.validation) ≡ ok tt)
policies_accepted_example = policies_accepted defaults defaults_valid

abbrev sign_ins : List Request
sign_ins =
    asks (codes "a") (at_instant 1)
    ∷ fails (codes "a") (at_instant 2)
    ∷ fails (codes "b") (at_instant 3)
    ∷ succeeds (codes "a")
    ∷ []

throttle_IsBounded_example :
    pos (length (serve_all (login_throttle defaults.sessions.login_throttle) sign_ins).entries)
    ≤ℤ defaults.sessions.login_throttle.capacity
throttle_IsBounded_example = throttle_IsBounded defaults sign_ins defaults_valid
