-- ===== src/Config/Defaults.antt =====
-- internal/config/defaults.go
use Prim.Native.Nat.{◌*◌, ◌^◌}
use denyra.Base.{[], ◌∷◌}
use denyra.Base.Int.{pos}
use denyra.Base.Text.{codes}
use denyra.Config.Types.{Config, finite}

-- `Defaults`
unfoldable pub defaults : Config
defaults = record {
  http = (record {
    admin_address = codes "0.0.0.0:8090";
    internal_address = codes "0.0.0.0:8081";
    acquisition_event_address = codes "0.0.0.0:8082";
    internal_body_limit = pos 1048576;
    admin_mutation_limit = pos 262144;
    external_request_timeout = pos 30000000000;
    external_response_limit = pos 8388608;
    internal_replay_attempts = pos 2;
    read_header_timeout = pos 5000000000;
    server_idle_timeout = pos 30000000000;
    shutdown_timeout = pos 10000000000;
    healthcheck_timeout = pos 5000000000;
  });
  database = (record {
    gateway_path = codes "/data/state/gateway/denyra.db";
    pipeline_path = codes "/data/state/pipeline/denyra.db";
    busy_timeout = pos 5000000000;
    max_open_conns = pos 4;
    idempotency_ttl = pos 2592000000000000;
  });
  filesystem = (record {
    data_root = codes "/data";
    downloads_slskd = codes "/data/downloads/slskd";
    downloads_spotiflac = codes "/data/downloads/spotiflac";
    downloads_other = codes "/data/downloads/other";
    incoming_manual = codes "/data/incoming/manual";
    incoming_uploading = codes "/data/incoming/uploading";
    work = codes "/data/processing/work";
    approved = codes "/data/processing/approved";
    quarantine = codes "/data/quarantine";
    library = codes "/data/library";
    library_unmanaged = codes "/data/library-unmanaged";
  });
  acquisition = (record {
    lidarr_page_size = pos 100;
    album_search_timeout = pos 600000000000;
    reconciliation_poll = pos 2000000000;
    reconciliation_safety = pos 30000000000;
    primary_grace_window = pos 60000000000;
    provider_timeout = pos 180000000000;
    overall_timeout = pos 21600000000000;
    process_poll_interval = pos 250000000;
    process_terminate_grace = pos 5000000000;
    lease_duration = pos 900000000000;
    process_output_limit = pos 65536;
    max_inline_transitions = pos 8;
    no_candidate_retry = pos 86400000000000;
    primary_retry =
        pos 60000000000
        ∷ pos 300000000000
        ∷ pos 900000000000
        ∷ pos 3600000000000
        ∷ pos 21600000000000
        ∷ [];
    fallback_retry =
        pos 300000000000 ∷ pos 900000000000 ∷ pos 3600000000000 ∷ pos 21600000000000 ∷ [];
  });
  validation = (record {
    ffprobe_timeout = pos 30000000000;
    flac_test_timeout = pos 120000000000;
    metaflac_timeout = pos 60000000000;
    beets_timeout = pos 300000000000;
    musicbrainz_rate_interval = pos 1000000000;
    track_auto_floor_ms = pos 5000;
    track_auto_percent_basis_points = pos 200;
    track_manual_floor_ms = pos 15000;
    track_manual_percent_basis_points = pos 500;
    release_auto_floor_ms = pos 30000;
    release_auto_percent_basis_points = pos 100;
    release_manual_floor_ms = pos 90000;
    release_manual_percent_basis_points = pos 300;
  });
  arbitration = (record { window = pos 1800000000000 });
  sessions = (record {
    absolute_expiry = pos 2592000000000000;
    password_min_length = pos 8;
    bootstrap_username = codes "admin";
    login_throttle = (record {
      failures = pos 5;
      window = pos 900000000000;
      base_delay = pos 1000000000;
      max_delay = pos 60000000000;
      capacity = pos 4096;
    });
  });
  scanners = (record {
    recovery_interval = pos 30000000000;
    stability_interval = pos 10000000000;
    navidrome_schedule = pos 60000000000;
    navidrome_watcher = pos 5000000000;
  });
  storage = (record {
    minimum_free_bytes = pos 21474836480;
    minimum_free_percent = finite (pos (5 * 2 ^ 1074));
  });
  concurrency = (record {
    acquisition = pos 2;
    validation = pos 2;
    import = pos 1;
    migration_check = pos 3;
  });
  uploads = (record {
    max_file_bytes = pos 8589934592;
    max_session_bytes = pos 107374182400;
    max_entries = pos 1000;
    browser_concurrency = pos 3;
    image_max_bytes = pos 20971520;
    image_max_pixels = pos 40000000;
  });
  services = (record {
    lidarr_url = codes "http://lidarr:8686";
    gateway_url = codes "http://acquisition-gateway:8081";
    pipeline_url = codes "http://media-pipeline:8081";
    navidrome_url = codes "http://navidrome:4533";
    musicbrainz_url = codes "https://musicbrainz.org";
    lrclib_url = codes "https://lrclib.net";
    spotify_oembed_url = codes "https://open.spotify.com";
    cover_art_url = codes "https://coverartarchive.org";
  });
  secrets = (record {
    internal_bearer = (record {
      source = codes "file";
      name = codes "internal-bearer";
      value = [];
    });
    audit_key = (record { source = codes "file"; name = codes "audit-key"; value = [] });
    lidarr_api_key = (record { source = codes "file"; name = codes "lidarr-api-key"; value = [] });
    bootstrap_admin = (record {
      source = codes "file";
      name = codes "bootstrap-admin";
      value = [];
    });
    navidrome_admin = (record {
      source = codes "file";
      name = codes "/run/secrets/navidrome_admin";
      value = [];
    });
  });
}
