-- ===== src/Config/Validate.antt =====
-- internal/config/validate.go: Config.Validate. A loop over a map looks at its values in an order
-- that Go leaves open; it decides only which of the values is named, which is left out.
use Prim.Native.Nat.{◌*◌, ◌^◌}
use denyra.Base.{
  Bool, true, false, not, ◌&&◌, ◌||◌, Option, none, some, List, [], ◌∷◌, ◌++◌, any, Result, ok,
  ◌>>◌, reject_if,
}
use denyra.Base.Int.{ℤ, pos, ltb_ℤ, leb_ℤ}
use denyra.Base.Text.{Str, codes, same, is_blank}
use denyra.Base.FilePath.{slash, clean, is_abs, has_prefix}
use denyra.Config.Types.{
  Float64, nan, infinity, negative_infinity, finite, Config, HttpConfig, ServicesConfig,
  FilesystemConfig, ValidationConfig, UploadConfig, LoginThrottleConfig,
}

-- The errors. A retry schedule is named, and a path is told.
pub data Error : Type 0 where
  addresses_required limit_not_positive external_response_limit_not_positive : Error
  internal_replay_attempts_not_positive lidarr_page_size_not_positive : Error
  process_output_limit_not_positive process_output_limit_too_high : Error
  max_inline_transitions_not_positive max_open_conns_not_positive : Error
  concurrency_not_pinned concurrency_not_positive upload_limits not_an_http_url : Error
  duration_not_positive free_bytes_negative free_percent_out_of_range : Error
  password_length_too_low username_required : Error
  throttle_failures_not_positive throttle_capacity_too_low throttle_delays_inverted : Error
  threshold_not_positive manual_below_auto : Error
  retry_empty retry_not_positive retry_decreasing : Str → Error
  outside_data_root paths_not_distinct : Str → Error

abbrev pub not_positive : ℤ → Bool
not_positive v = leb_ℤ v (pos 0)

-- `value < 0` and `value > 100`, which a NaN is not.
abbrev below_zero : Float64 → Bool
below_zero nan = false
below_zero infinity = false
below_zero negative_infinity = true
below_zero (finite n) = ltb_ℤ n (pos 0)

abbrev above_100 : Float64 → Bool
above_100 nan = false
above_100 infinity = true
above_100 negative_infinity = false
above_100 (finite n) = ltb_ℤ (pos (100 * 2 ^ 1074)) n

-- `positiveDurations`
unfoldable pub positive_durations : Config → List ℤ
positive_durations c =
    c.database.busy_timeout ∷ c.database.idempotency_ttl ∷ c.acquisition.album_search_timeout
    ∷ c.acquisition.reconciliation_poll ∷ c.acquisition.reconciliation_safety
    ∷ c.acquisition.primary_grace_window ∷ c.acquisition.provider_timeout
    ∷ c.acquisition.overall_timeout ∷ c.acquisition.process_poll_interval
    ∷ c.acquisition.process_terminate_grace ∷ c.acquisition.lease_duration
    ∷ c.acquisition.no_candidate_retry ∷ c.arbitration.window ∷ c.sessions.absolute_expiry
    ∷ c.sessions.login_throttle.window ∷ c.sessions.login_throttle.base_delay
    ∷ c.sessions.login_throttle.max_delay ∷ c.scanners.recovery_interval
    ∷ c.scanners.stability_interval ∷ c.scanners.navidrome_schedule ∷ c.scanners.navidrome_watcher
    ∷ c.http.external_request_timeout ∷ c.http.read_header_timeout ∷ c.http.server_idle_timeout
    ∷ c.http.shutdown_timeout ∷ c.http.healthcheck_timeout ∷ c.validation.ffprobe_timeout
    ∷ c.validation.flac_test_timeout ∷ c.validation.metaflac_timeout ∷ c.validation.beets_timeout
    ∷ c.validation.musicbrainz_rate_interval ∷ []

-- `validationValues`
unfoldable pub validation_values : ValidationConfig → List ℤ
validation_values v =
    v.track_auto_floor_ms ∷ v.track_auto_percent_basis_points ∷ v.track_manual_floor_ms
    ∷ v.track_manual_percent_basis_points ∷ v.release_auto_floor_ms
    ∷ v.release_auto_percent_basis_points ∷ v.release_manual_floor_ms
    ∷ v.release_manual_percent_basis_points ∷ []

unfoldable pub is_inverted : ValidationConfig → Bool
is_inverted v =
    ltb_ℤ v.track_manual_floor_ms v.track_auto_floor_ms
    || ltb_ℤ v.track_manual_percent_basis_points v.track_auto_percent_basis_points
    || ltb_ℤ v.release_manual_floor_ms v.release_auto_floor_ms
    || ltb_ℤ v.release_manual_percent_basis_points v.release_auto_percent_basis_points

unfoldable pub lacks_address : HttpConfig → Bool
lacks_address h =
    is_blank h.admin_address || is_blank h.internal_address || is_blank h.acquisition_event_address

unfoldable pub is_upload_refused : UploadConfig → Bool
is_upload_refused u =
    not_positive u.max_file_bytes
    || not_positive u.max_session_bytes
    || ltb_ℤ u.max_session_bytes u.max_file_bytes
    || not_positive u.max_entries
    || not_positive u.browser_concurrency
    || not_positive u.image_max_bytes
    || not_positive u.image_max_pixels

unfoldable pub is_no_url : Str → Bool
is_no_url s = not (has_prefix s (codes "http://")) && not (has_prefix s (codes "https://"))

unfoldable pub service_urls : ServicesConfig → List Str
service_urls s =
    s.lidarr_url ∷ s.gateway_url ∷ s.pipeline_url ∷ s.navidrome_url ∷ s.musicbrainz_url
    ∷ s.lrclib_url ∷ s.spotify_oembed_url ∷ s.cover_art_url ∷ []

unfoldable pub managed_paths : FilesystemConfig → List Str
managed_paths f =
    f.downloads_slskd ∷ f.downloads_spotiflac ∷ f.downloads_other ∷ f.incoming_manual
    ∷ f.incoming_uploading ∷ f.work ∷ f.approved ∷ f.quarantine ∷ f.library ∷ f.library_unmanaged
    ∷ []

abbrev is_nil : List ℤ → Bool
is_nil [] = true
is_nil (v ∷ vs) = false

-- The loop of `validateRetry`; `previous` is none at the first value.
unfoldable pub check_retry : Str → Option ℤ → List ℤ → Result Error (Unit {0})
check_retry name previous [] = ok tt
check_retry name none (v ∷ vs) = do
  reject_if (not_positive v) (retry_not_positive name)
  check_retry name (some v) vs
check_retry name (some u) (v ∷ vs) = do
  reject_if (not_positive v) (retry_not_positive name)
  reject_if (ltb_ℤ v u) (retry_decreasing name)
  check_retry name (some v) vs

-- `validateRetry`
unfoldable pub validate_retry : Str → List ℤ → Result Error (Unit {0})
validate_retry name schedule = do
  reject_if (is_nil schedule) (retry_empty name)
  check_retry name none schedule

-- Whether a clean path is neither the root as it is written nor below the root.
unfoldable pub is_outside : Str → Str → Bool
is_outside root path =
    not (is_abs path) || (not (same path root) && not (has_prefix path (clean root ++ slash ∷ [])))

-- The loop over the paths, with the clean paths so far.
unfoldable pub check_paths : Str → List Str → List Str → Result Error (Unit {0})
check_paths root cleaned [] = ok tt
check_paths root cleaned (path ∷ paths) = do
  reject_if (is_outside root (clean path)) (outside_data_root path)
  reject_if (any (same (clean path)) cleaned) (paths_not_distinct (clean path))
  check_paths root (clean path ∷ cleaned) paths

-- The sections in the order of the source: listeners, limits and services,
unfoldable pub validate_limits : Config → Result Error (Unit {0})
validate_limits c = do
  reject_if (lacks_address c.http) addresses_required
  reject_if (not_positive c.http.internal_body_limit || not_positive c.http.admin_mutation_limit)
      limit_not_positive
  reject_if (not_positive c.http.external_response_limit) external_response_limit_not_positive
  reject_if (not_positive c.http.internal_replay_attempts) internal_replay_attempts_not_positive
  reject_if (not_positive c.acquisition.lidarr_page_size) lidarr_page_size_not_positive
  reject_if (not_positive c.acquisition.process_output_limit) process_output_limit_not_positive
  reject_if (ltb_ℤ (pos 65536) c.acquisition.process_output_limit) process_output_limit_too_high
  reject_if (not_positive c.acquisition.max_inline_transitions) max_inline_transitions_not_positive
  reject_if (not_positive c.database.max_open_conns) max_open_conns_not_positive
  reject_if (ltb_ℤ c.concurrency.acquisition (pos 2) || ltb_ℤ (pos 2) c.concurrency.acquisition)
      concurrency_not_pinned
  reject_if
      (not_positive c.concurrency.validation
        || not_positive c.concurrency.import
        || not_positive c.concurrency.migration_check)
      concurrency_not_positive
  reject_if (is_upload_refused c.uploads) upload_limits
  reject_if (any is_no_url (service_urls c.services)) not_an_http_url

-- storage and sessions,
unfoldable pub validate_sessions : Config → Result Error (Unit {0})
validate_sessions c = do
  reject_if (ltb_ℤ c.storage.minimum_free_bytes (pos 0)) free_bytes_negative
  reject_if (below_zero c.storage.minimum_free_percent || above_100 c.storage.minimum_free_percent)
      free_percent_out_of_range
  reject_if (ltb_ℤ c.sessions.password_min_length (pos 8)) password_length_too_low
  reject_if (is_blank c.sessions.bootstrap_username) username_required

-- the sign-in throttle,
unfoldable pub validate_throttle : LoginThrottleConfig → Result Error (Unit {0})
validate_throttle t = do
  reject_if (not_positive t.failures) throttle_failures_not_positive
  reject_if (ltb_ℤ t.capacity (pos 128)) throttle_capacity_too_low
  reject_if (ltb_ℤ t.max_delay t.base_delay) throttle_delays_inverted

-- and thresholds.
unfoldable pub validate_thresholds : ValidationConfig → Result Error (Unit {0})
validate_thresholds v = do
  reject_if (any not_positive (validation_values v)) threshold_not_positive
  reject_if (is_inverted v) manual_below_auto

-- `Config.Validate`
unfoldable pub validate : Config → Result Error (Unit {0})
validate c = do
  validate_limits c
  reject_if (any not_positive (positive_durations c)) duration_not_positive
  validate_retry (codes "primary") c.acquisition.primary_retry
  validate_retry (codes "fallback") c.acquisition.fallback_retry
  validate_sessions c
  validate_throttle c.sessions.login_throttle
  validate_thresholds c.validation
  check_paths c.filesystem.data_root [] (managed_paths c.filesystem)
