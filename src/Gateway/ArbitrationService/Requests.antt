-- ===== src/Gateway/ArbitrationService/Requests.antt =====
-- arbitration.go: the checks that a request of the pipeline passes before it is looked at.
use denyra.Base.{Bool, not, ◌||◌, List, ◌==◌, any, keep, length, Result, ◌>>◌, reject_if}
use denyra.Base.Int.{pos, ltb_ℤ, leb_ℤ, same_ℤ}
use denyra.Base.Text.{Str, is_empty}
use denyra.Base.Time.{is_zero}
use denyra.Gateway.Identity.{is_mbid}
use denyra.Gateway.Arbitration.{Quality}
use denyra.Gateway.ArbitrationStore.{Warning}
use denyra.Gateway.ArbitrationService.{
  Error, not_configured, identity_required, invalid_release, invalid_warning, quality_mismatch,
  is_quality, is_other_class,
}
use denyra.Gateway.ArbitrationMessages.{CandidateApproved}
use denyra.Gateway.ArbitrationService.Delivery.{Service}

-- `validate`, of a service with its store and client.
unfoldable pub check_service : Service → Result Error (Unit {0})
check_service service =
    reject_if (leb_ℤ service.window (pos 0) || leb_ℤ service.replay_attempts (pos 0)) not_configured

unfoldable pub is_warning_refused : Warning → Bool
is_warning_refused w = is_empty w.code || is_empty w.message || is_other_class w.class

unfoldable pub is_quality_refused : Quality → List Warning → Bool
is_quality_refused q warnings =
    not (
      same_ℤ q.quality_warning_count
        (pos (length (keep (λ (w : Warning). is_quality w.class) warnings))))
    || ltb_ℤ q.identity_rank (pos 0)
    || ltb_ℤ q.edition_rank (pos 0)
    || ltb_ℤ q.source_confidence (pos 0)
    || ltb_ℤ q.bit_depth (pos 0)
    || leb_ℤ q.sample_rate (pos 0)

-- `validateRequest`
unfoldable pub validate_request : Service → Str → CandidateApproved → Result Error (Unit {0})
validate_request service key request = do
  check_service service
  reject_if
      (is_empty key
        || is_empty request.request_id
        || is_empty request.job_id
        || is_empty request.candidate_id
        || is_empty request.config_snapshot_id
        || is_zero request.approved_at
        || not request.approved_at.in_utc
        || request.state_revision == 0)
      identity_required
  reject_if (not (is_mbid request.musicbrainz_release_id)) invalid_release
  reject_if (any is_warning_refused request.warnings) invalid_warning
  reject_if (is_quality_refused request.quality request.warnings) quality_mismatch
