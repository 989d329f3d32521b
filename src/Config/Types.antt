-- ===== src/Config/Types.antt =====
-- internal/config/types.go: the policy that both services read. A Duration is a number of
-- nanoseconds; the tags that name a field in TOML and in JSON are its name here.
use denyra.Base.{List}
use denyra.Base.Int.{ℤ}
use denyra.Base.Text.{Str}

-- A float64. `finite n` is n * 2 ^ -1074; the two zeros are one.
pub data Float64 : Type 0 where
  nan infinity negative_infinity : Float64
  finite : ℤ → Float64

pub record LoginThrottleConfig : Type 0 where
  pub failures : ℤ
  pub window : ℤ
  pub base_delay : ℤ
  pub max_delay : ℤ
  pub capacity : ℤ

pub record SecretRef : Type 0 where
  pub source : Str
  pub name : Str
  pub value : Str

pub record HttpConfig : Type 0 where
  pub admin_address : Str
  pub internal_address : Str
  pub acquisition_event_address : Str
  pub internal_body_limit : ℤ
  pub admin_mutation_limit : ℤ
  pub external_request_timeout : ℤ
  pub external_response_limit : ℤ
  pub internal_replay_attempts : ℤ
  pub read_header_timeout : ℤ
  pub server_idle_timeout : ℤ
  pub shutdown_timeout : ℤ
  pub healthcheck_timeout : ℤ

pub record ServicesConfig : Type 0 where
  pub lidarr_url : Str
  pub gateway_url : Str
  pub pipeline_url : Str
  pub navidrome_url : Str
  pub musicbrainz_url : Str
  pub lrclib_url : Str
  pub spotify_oembed_url : Str
  pub cover_art_url : Str

pub record DatabaseConfig : Type 0 where
  pub gateway_path : Str
  pub pipeline_path : Str
  pub busy_timeout : ℤ
  pub max_open_conns : ℤ
  pub idempotency_ttl : ℤ

pub record FilesystemConfig : Type 0 where
  pub data_root : Str
  pub downloads_slskd : Str
  pub downloads_spotiflac : Str
  pub downloads_other : Str
  pub incoming_manual : Str
  pub incoming_uploading : Str
  pub work : Str
  pub approved : Str
  pub quarantine : Str
  pub library : Str
  pub library_unmanaged : Str

pub record AcquisitionConfig : Type 0 where
  pub lidarr_page_size : ℤ
  pub album_search_timeout : ℤ
  pub reconciliation_poll : ℤ
  pub reconciliation_safety : ℤ
  pub primary_grace_window : ℤ
  pub provider_timeout : ℤ
  pub overall_timeout : ℤ
  pub process_poll_interval : ℤ
  pub process_terminate_grace : ℤ
  pub lease_duration : ℤ
  pub process_output_limit : ℤ
  pub max_inline_transitions : ℤ
  pub no_candidate_retry : ℤ
  pub primary_retry : List ℤ
  pub fallback_retry : List ℤ

pub record ValidationConfig : Type 0 where
  pub ffprobe_timeout : ℤ
  pub flac_test_timeout : ℤ
  pub metaflac_timeout : ℤ
  pub beets_timeout : ℤ
  pub musicbrainz_rate_interval : ℤ
  pub track_auto_floor_ms : ℤ
  pub track_auto_percent_basis_points : ℤ
  pub track_manual_floor_ms : ℤ
  pub track_manual_percent_basis_points : ℤ
  pub release_auto_floor_ms : ℤ
  pub release_auto_percent_basis_points : ℤ
  pub release_manual_floor_ms : ℤ
  pub release_manual_percent_basis_points : ℤ

pub record ArbitrationConfig : Type 0 where
  pub window : ℤ

pub record SessionConfig : Type 0 where
  pub absolute_expiry : ℤ
  pub password_min_length : ℤ
  pub bootstrap_username : Str
  pub login_throttle : LoginThrottleConfig

pub record ScannerConfig : Type 0 where
  pub recovery_interval : ℤ
  pub stability_interval : ℤ
  pub navidrome_schedule : ℤ
  pub navidrome_watcher : ℤ

pub record StorageConfig : Type 0 where
  pub minimum_free_bytes : ℤ
  pub minimum_free_percent : Float64

pub record ConcurrencyConfig : Type 0 where
  pub acquisition : ℤ
  pub validation : ℤ
  pub import : ℤ
  pub migration_check : ℤ

pub record UploadConfig : Type 0 where
  pub max_file_bytes : ℤ
  pub max_session_bytes : ℤ
  pub max_entries : ℤ
  pub browser_concurrency : ℤ
  pub image_max_bytes : ℤ
  pub image_max_pixels : ℤ

pub record SecretsConfig : Type 0 where
  pub internal_bearer : SecretRef
  pub audit_key : SecretRef
  pub lidarr_api_key : SecretRef
  pub bootstrap_admin : SecretRef
  pub navidrome_admin : SecretRef

pub record Config : Type 0 where
  pub http : HttpConfig
  pub database : DatabaseConfig
  pub filesystem : FilesystemConfig
  pub acquisition : AcquisitionConfig
  pub validation : ValidationConfig
  pub arbitration : ArbitrationConfig
  pub sessions : SessionConfig
  pub scanners : ScannerConfig
  pub storage : StorageConfig
  pub concurrency : ConcurrencyConfig
  pub uploads : UploadConfig
  pub services : ServicesConfig
  pub secrets : SecretsConfig

pub record Policy : Type 0 where
  pub scanner_recovery_interval : ℤ
  pub stability_interval : ℤ
  pub album_search_timeout : ℤ
  pub reconciliation_poll : ℤ
  pub primary_grace_window : ℤ
  pub arbitration_window : ℤ
  pub session_absolute_expiry : ℤ
  pub acquisition_lease_duration : ℤ
  pub minimum_free_bytes : ℤ
  pub minimum_free_percent : Float64
  pub primary_retry : List ℤ
  pub fallback_retry : List ℤ

-- `Config.Policy`; a copy of a slice has the same values.
unfoldable pub policy : Config → Policy
policy c = record {
  scanner_recovery_interval = c.scanners.recovery_interval;
  stability_interval = c.scanners.stability_interval;
  album_search_timeout = c.acquisition.album_search_timeout;
  reconciliation_poll = c.acquisition.reconciliation_poll;
  primary_grace_window = c.acquisition.primary_grace_window;
  arbitration_window = c.arbitration.window;
  session_absolute_expiry = c.sessions.absolute_expiry;
  acquisition_lease_duration = c.acquisition.lease_duration;
  minimum_free_bytes = c.storage.minimum_free_bytes;
  minimum_free_percent = c.storage.minimum_free_percent;
  primary_retry = c.acquisition.primary_retry;
  fallback_retry = c.acquisition.fallback_retry;
}
