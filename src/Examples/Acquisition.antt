-- ===== src/Examples/Acquisition.antt =====
-- A job with two candidates, their approvals and the locks of a winner, for runs of
-- internal/gateway/persistence/arbitration.go and application/arbitration.go.
use denyra.Base.{ℕ, none, List, [], ◌∷◌}
use denyra.Base.Int.{pos}
use denyra.Base.Text.{Str, codes}
use denyra.Base.Time.{at_instant}
use denyra.Gateway.State.{primary_active}
use denyra.Gateway.Job.{Job, Transition}
use denyra.Gateway.Arbitration.{spotiflac, slskd}
use denyra.Gateway.CandidateStore as CandidateStore
use denyra.Gateway.CandidateStore.{Candidate, insert_candidate}
use denyra.Gateway.ArbitrationStore.{Approval, Store}
use denyra.Gateway.ArbitrationStore.Transactions.{WinnerLock}
use denyra.Gateway.ArbitrationStore.Final.{Request, approves, completes}
use denyra.Examples.Effects.{put_request}

abbrev pub waiting : Job
waiting = record {
  id = codes "job";
  lidarr_album_id = pos 7;
  release_group_mbid = codes "group";
  selected_release_mbid = codes "release";
  selected_release_revision = 1;
  state = primary_active;
  revision = 0;
  primary_attempt = pos 1;
  fallback_attempt = pos 0;
  config_snapshot_id = codes "config";
  next_retry_at = none;
  overall_deadline = none;
  created_at = at_instant 5;
  updated_at = at_instant 5;
}

abbrev pub began : Transition
began = record {
  job_id = codes "job";
  actor = codes "worker";
  reason = codes "search";
  previous = primary_active;
  next = primary_active;
  previous_revision = 0;
  revision = 0;
  occurred_at = at_instant 5;
}

abbrev pub fetched_row : Str → Str → CandidateStore.Row
fetched_row id source = record {
  candidate_id = id;
  job_id = codes "job";
  source = source;
  source_locator = id;
  download_id = id;
  completed_at = at_instant 5;
  provenance = codes "{}";
  provenance_sha256 = codes "p";
  created_at = at_instant 6;
}

abbrev pub before_approvals : Store
before_approvals = record {
  jobs = record {
    jobs =
        (record {
          job = waiting;
          queue_watermark = none;
          history_watermark = none;
          command_id = none;
          correlation_started_at = none;
          command_deadline = none;
          grace_deadline = none;
        })
        ∷ [];
    wanted_cycles = [];
    state_transitions = began ∷ [];
  };
  candidates =
      fetched_row (codes "one") (codes "slskd")
      ∷ fetched_row (codes "two") (codes "spotiflac")
      ∷ [];
  approvals = [];
  arbitrations = [];
  effects = [];
  idempotency = [];
}

abbrev pub approval : Approval
approval = record {
  candidate_id = codes "one";
  job_id = codes "job";
  config_snapshot_id = codes "config";
  musicbrainz_release_id = codes "release";
  source = slskd;
  approved_at = at_instant 7;
  completion_at = at_instant 5;
  quality = record {
    identity_rank = pos 1;
    edition_rank = pos 1;
    quality_warning_count = pos 0;
    source_confidence = pos 1;
    bit_depth = pos 16;
    sample_rate = pos 44100;
  };
  warnings = [];
  pipeline_state_revision = 3;
}

abbrev pub second_approval : Approval
second_approval = record approval {
  candidate_id = codes "two";
  source = spotiflac;
  approved_at = at_instant 9;
}

-- The later approval arrives first, the other one is answered, and a candidate is locked.
abbrev pub requests : List Request
requests =
    approves second_approval (pos 10) (codes "k2") (codes "h2") (codes "b2") (at_instant 10)
    ∷ approves approval (pos 10) (codes "k1") (codes "h1") (codes "b1") (at_instant 11)
    ∷ completes (codes "k1") (pos 200) (codes "{}") (at_instant 12)
    ∷ []

abbrev pub wins : ℕ → Str → WinnerLock
wins n id = record {
  job_id = codes "job";
  candidate_id = id;
  reason = codes "QUALITY";
  expected_revision = n;
  evidence = codes "{}";
  effects = (codes "t4", put_request) ∷ [];
  locked_at = at_instant 20;
}
