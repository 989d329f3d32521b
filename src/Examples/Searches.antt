-- ===== src/Examples/Searches.antt =====
-- Runs of internal/gateway/domain/retry.go, outcome.go and correlation.go.
use denyra.Base.Text.{trim_space}
use denyra.Base.{◌≡◌, refl, ◌≢◌, ◌↔◌, [], ◌∷◌, All, ok, err, arith}
use denyra.Base.Int.{pos}
use denyra.Base.Text.{codes}
use denyra.Base.Time.{at_instant}
use denyra.Gateway.Retry as Retry
use denyra.Gateway.Retry.{
  RetryPolicy, validate, primary_deadline, fallback_deadline, no_candidate_deadline,
}
use denyra.Gateway.Retry.Deadlines.{IsBackoff, deadlines-IsBackoff}
use denyra.Gateway.State.{arbitrating, no_candidate}
use denyra.Gateway.Outcome.{ProviderResult, candidate, legitimate_no_result, classify_fallback}
use denyra.Gateway.Outcome.Classification.{FoundNothing, no_candidate_iff}
use denyra.Gateway.Correlation.{
  CorrelationRequest, CorrelationObservation, queue, matches, watermark_not_advanced,
}

abbrev policy : RetryPolicy
policy = record { primary = pos 5 ∷ pos 10 ∷ []; fallback = pos 7 ∷ []; no_candidate = pos 30 }

policy_valid : validate policy ≡ ok tt
unfolding validate
policy_valid = refl

last_value_stays : primary_deadline policy (at_instant 100) (pos 9) ≡ ok (at_instant 110)
unfolding primary_deadline Retry.deadline
last_value_stays = refl

no_candidate_waits : no_candidate_deadline policy (at_instant 100) ≡ ok (at_instant 130)
unfolding no_candidate_deadline validate
no_candidate_waits = refl

deadlines-IsBackoff_example :
    IsBackoff
      (at_instant 100)
      0
      9
      (primary_deadline policy (at_instant 100) (pos 0))
      (primary_deadline policy (at_instant 100) (pos 9))
    × IsBackoff
        (at_instant 100)
        0
        9
        (fallback_deadline policy (at_instant 100) (pos 0))
        (fallback_deadline policy (at_instant 100) (pos 9))
deadlines-IsBackoff_example =
    deadlines-IsBackoff policy (at_instant 100) 0 9 policy_valid (omega arith)

abbrev nothing : ProviderResult
nothing = record {
  provider = codes "tidal";
  outcome = legitimate_no_result;
  evidence = codes "evidence";
}

abbrev hit : ProviderResult
hit = record { provider = codes "qobuz"; outcome = candidate; evidence = codes "evidence" }

round_hits : classify_fallback (nothing ∷ hit ∷ []) ≡ ok arbitrating
unfolding classify_fallback
round_hits = refl

no_candidate_iff_example :
    (classify_fallback (nothing ∷ []) ≡ ok no_candidate)
    ↔ (((nothing ∷ []) ≢ []) × All FoundNothing (nothing ∷ []))
no_candidate_iff_example = no_candidate_iff (nothing ∷ [])

abbrev request : CorrelationRequest
request = record {
  album_id = pos 7;
  release_group_mbid = codes "group";
  release_mbid = [];
  command_id = codes "9";
  queue_watermark = pos 40;
  history_watermark = pos 80;
  started_at = at_instant 10;
  deadline = at_instant 20;
}

abbrev observation : CorrelationObservation
observation = record {
  source = queue;
  record_id = pos 41;
  album_id = pos 7;
  release_group_mbid = codes "group";
  release_mbid = codes "release";
  command_id = [];
  download_id = codes "download";
  event_type = [];
  observed_at = at_instant 15;
}

observed : matches request observation ≡ ok tt
unfolding matches trim_space
observed = refl

old_record_refused :
    matches request (record observation { record_id = pos 40 }) ≡ err watermark_not_advanced
unfolding matches
old_record_refused = refl
