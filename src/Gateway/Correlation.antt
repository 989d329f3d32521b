-- ===== src/Gateway/Correlation.antt =====
-- internal/gateway/domain/correlation.go: does an observed record belong to a primary search?
pub mod Evidence
use denyra.Base.{
  ℕ, Bool, true, false, not, ◌&&◌, ◌||◌, List, [], if◌then◌else◌, Result, ok, err, ◌>>=◌, ◌>>◌,
  reject_if,
}
use denyra.Base.Int.{ℤ, pos, leb_ℤ, same_ℤ}
use denyra.Base.Text.{Str, codes, same, is_empty, is_blank, to_lower}
use denyra.Base.Time.{Time, is_zero, before}

pub data CorrelationSource : Type 0 where
  queue history : CorrelationSource
  other : Str → CorrelationSource

pub record CorrelationRequest : Type 0 where
  pub album_id : ℤ
  pub release_group_mbid : Str
  pub release_mbid : Str
  pub command_id : Str
  pub queue_watermark : ℤ
  pub history_watermark : ℤ
  pub started_at : Time
  pub deadline : Time

pub record CorrelationObservation : Type 0 where
  pub source : CorrelationSource
  pub record_id : ℤ
  pub album_id : ℤ
  pub release_group_mbid : Str
  pub release_mbid : Str
  pub command_id : Str
  pub download_id : Str
  pub event_type : Str
  pub observed_at : Time

-- The reasons of a match that fails.
pub data Mismatch : Type 0 where
  incomplete_request invalid_window outside_window unknown_source watermark_not_advanced : Mismatch
  identity_mismatch release_mismatch command_mismatch no_download_identity not_a_grab : Mismatch

-- `strings.EqualFold(s, "grabbed")`: no letter of that word folds to a letter outside ASCII.
unfoldable pub is_grabbed : Str → Bool
is_grabbed s = same (to_lower s) (codes "grabbed")

-- `CorrelationRequest.Validate`
unfoldable pub validate : CorrelationRequest → Result Mismatch (Unit {0})
validate r = do
  reject_if (leb_ℤ r.album_id (pos 0) || is_empty r.release_group_mbid || is_empty r.command_id)
      incomplete_request
  reject_if (is_zero r.started_at || not (before r.started_at r.deadline)) invalid_window

-- The watermark of the observation's source.
unfoldable pub watermark_of : CorrelationRequest → CorrelationSource → Result Mismatch ℤ
watermark_of r queue = ok r.queue_watermark
watermark_of r history = ok r.history_watermark
watermark_of r (other s) = err unknown_source

-- The last switch of `Match`.
unfoldable pub check_source :
    CorrelationObservation → CorrelationSource → Result Mismatch (Unit {0})
check_source o queue = reject_if (is_blank o.download_id) no_download_identity
check_source o history = reject_if (not (is_grabbed o.event_type)) not_a_grab
check_source o (other s) = ok tt

-- `CorrelationRequest.Match`: `ok` is a correlated match, an error its reason otherwise.
unfoldable pub matches : CorrelationRequest → CorrelationObservation → Result Mismatch (Unit {0})
unfolding validate watermark_of check_source
matches r o = do
  validate r
  reject_if (before o.observed_at r.started_at || before r.deadline o.observed_at) outside_window
  watermark ← watermark_of r o.source
  reject_if (leb_ℤ o.record_id watermark) watermark_not_advanced
  reject_if
      (not (same_ℤ o.album_id r.album_id) || not (same o.release_group_mbid r.release_group_mbid))
      identity_mismatch
  reject_if (not (is_empty r.release_mbid) && not (same o.release_mbid r.release_mbid))
      release_mismatch
  reject_if
      (not (same r.command_id (codes "UNKNOWN"))
        && not (is_empty o.command_id)
        && not (same o.command_id r.command_id))
      command_mismatch
  check_source o o.source
