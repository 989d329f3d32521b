-- ===== src/Pipeline/Metadata.antt =====
-- internal/pipeline/domain/unmanaged.go: what an administrator decides about a submission, and its
-- validation. The layout of the files is not modelled.
pub mod Discs
use denyra.Base.{
  ℕ, zero, suc, ◌+◌, Bool, true, false, not, ◌&&◌, ◌||◌, List, [], ◌∷◌, ◌==◌, if◌then◌else◌, length,
  any, keep, map, Result, ok, err, ◌>>=◌, ◌>>◌, reject_if,
}
use denyra.Base.Int.{ℤ, pos, pos_part, ltb_ℤ, leb_ℤ, same_ℤ, ◌+ℤ◌}
use denyra.Base.Sort.{sort_stable}
use denyra.Base.Text.{Str, same, is_empty, is_blank}
use denyra.Gateway.Identity.{is_mbid}

pub data Destination : Type 0 where
  managed unmanaged : Destination
  unknown : Str → Destination

pub record TrackMetadata : Type 0 where
  pub relative_path : Str
  pub title : Str
  pub artist : Str
  pub track : ℤ
  pub disc : ℤ
  pub duration_ms : ℤ
  pub isrcs : List Str

pub record MetadataPlan : Type 0 where
  pub album_artist : Str
  pub album : Str
  pub date : Str
  pub edition : Str
  pub tracks : List TrackMetadata
  pub disc_total : ℤ
  pub track_total : ℤ
  pub preserved : List (Str × List (Str × List Str))

pub data ArtworkSource : Type 0 where
  no_artwork embedded sidecar spotify_explicit identifier_exact admin_upload : ArtworkSource

pub record ArtworkSelection : Type 0 where
  pub source : ArtworkSource
  pub path : Str
  pub mime : Str
  pub sha256 : Str
  pub source_url : Str
  pub width : ℤ
  pub height : ℤ

pub record SubmissionDecision : Type 0 where
  pub preview_fingerprint : Str
  pub destination : Destination
  pub release_mbid : Str
  pub metadata : MetadataPlan
  pub artwork : ArtworkSelection

pub data Error : Type 0 where
  names_required totals_inconsistent : Error
  track_incomplete duplicate_path : Str → Error
  disc_empty disc_not_contiguous : ℤ → Error
  fingerprint_required unmanaged_with_mbid managed_mbid unknown_destination : Error

-- The test of one track on its own.
unfoldable pub is_incomplete : ℤ → TrackMetadata → Bool
is_incomplete disc_total t =
    is_blank t.relative_path
    || is_blank t.title
    || is_blank t.artist
    || leb_ℤ t.track (pos 0)
    || leb_ℤ t.disc (pos 0)
    || ltb_ℤ disc_total t.disc
    || leb_ℤ t.duration_ms (pos 0)

-- One turn of the loop over the tracks.
unfoldable pub check_track : ℤ → List Str → TrackMetadata → Result Error (Unit {0})
check_track disc_total paths t = do
  reject_if (is_incomplete disc_total t) (track_incomplete t.relative_path)
  reject_if (any (same t.relative_path) paths) (duplicate_path t.relative_path)

unfoldable pub check_tracks : ℤ → List Str → List TrackMetadata → Result Error (Unit {0})
check_tracks disc_total paths [] = ok tt
check_tracks disc_total paths (t ∷ ts) = do
  check_track disc_total paths t
  check_tracks disc_total (t.relative_path ∷ paths) ts

-- `positions[disc]`, in the order in which the loop over the tracks appends.
unfoldable pub positions : ℤ → List TrackMetadata → List ℤ
positions disc ts = map (λ t. t.track) (keep (λ t. same_ℤ t.disc disc) ts)

-- `position != index+1` for none of the sorted positions.
unfoldable pub is_contiguous_from : ℕ → List ℤ → Bool
is_contiguous_from index [] = true
is_contiguous_from index (p ∷ ps) = same_ℤ p (pos (index + 1)) && is_contiguous_from (index + 1) ps

-- `sort.Ints`
unfoldable pub sort_ints : List ℤ → List ℤ
sort_ints = sort_stable (λ a b. ltb_ℤ a b)

-- One turn of the loop over the discs.
unfoldable pub check_disc : List TrackMetadata → ℤ → Result Error (Unit {0})
check_disc ts disc = do
  reject_if (length (positions disc ts) == 0) (disc_empty disc)
  reject_if (not (is_contiguous_from 0 (sort_ints (positions disc ts)))) (disc_not_contiguous disc)

-- The loop over the discs, from `disc` on, for as many as are left.
unfoldable pub check_discs : List TrackMetadata → ℕ → ℕ → Result Error (Unit {0})
check_discs ts zero disc = ok tt
check_discs ts (suc left) disc = do check_disc ts (pos disc); check_discs ts left (disc + 1)

-- The tests before the loops.
unfoldable pub check_totals : MetadataPlan → Result Error (Unit {0})
check_totals plan = do
  reject_if (is_blank plan.album_artist || is_blank plan.album) names_required
  reject_if
      (length plan.tracks == 0
        || not (same_ℤ plan.track_total (pos (length plan.tracks)))
        || leb_ℤ plan.disc_total (pos 0))
      totals_inconsistent

-- `ValidateMetadataPlan`
unfoldable pub validate_metadata_plan : MetadataPlan → Result Error (Unit {0})
validate_metadata_plan plan = do
  check_totals plan
  check_tracks plan.disc_total [] plan.tracks
  check_discs plan.tracks (pos_part plan.disc_total) 1

-- The switch of `ValidateSubmissionDecision`.
unfoldable check_destination : Destination → Str → Result Error (Unit {0})
check_destination unmanaged release_mbid =
    reject_if (not (is_empty release_mbid)) unmanaged_with_mbid
check_destination managed release_mbid = reject_if (not (is_mbid release_mbid)) managed_mbid
check_destination (unknown s) release_mbid = err unknown_destination

-- `ValidateSubmissionDecision`
unfoldable validate_submission_decision : SubmissionDecision → Result Error (Unit {0})
validate_submission_decision decision = do
  reject_if (is_blank decision.preview_fingerprint) fingerprint_required
  validate_metadata_plan decision.metadata
  check_destination decision.destination decision.release_mbid
