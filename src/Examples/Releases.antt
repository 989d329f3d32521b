-- ===== src/Examples/Releases.antt =====
-- Runs of internal/pipeline/domain/release_match.go.
use denyra.Pipeline.ReleaseMatch.{check_counts}
use denyra.Gateway.Identity.{is_mbid}
use denyra.Pipeline.ReleaseMatch.{check_identity}
use denyra.Base.{ℕ, ◌≡◌, refl, true, none, some, List, [], ◌∷◌, map, All, Option, ok, err}
use denyra.Base.Int.{ℤ, pos, negsuc, int64, ◌-ℤ◌, quot_ℤ, rem_ℤ, ◌*ℤ◌, ◌+ℤ◌}
use denyra.Base.Text.{Str, codes}
use denyra.Pipeline.Duration.{
  DurationPolicy, DurationResult, auto_approve, manual_review, strictest_duration_status,
  evaluate_track_duration, validate, evaluate_duration, absolute_difference, ceil_10000,
  duration_rank, evaluate_against, evaluate_release_duration, status_of, strictest_from,
  threshold_ms,
}
use denyra.Gateway.Identity.{is_mbid, canonical_mbid}
use denyra.Pipeline.ReleaseMatch.{
  CanonicalTrack, CanonicalRelease, CandidateTrack, ReleaseMatch, position, match_release,
  check_identity, check_counts, match_tracks, index_tracks, check_track, same_position,
  match_candidates, match_candidate, found_track, track_at, or_duration_error, add_reference,
  matched, with_total, track_count, duplicate_candidate, reference_overflow,
}
use denyra.Pipeline.ReleaseMatch.Matching.{has_file}
use denyra.Pipeline.ReleaseMatch.Assignment.{IsInPlace, match_release-Pairs}

abbrev mbid : Str
mbid = codes "11111111-2222-4333-8444-555555555555"

abbrev policy : DurationPolicy
policy = record {
  track_auto_floor_ms = pos 2000;
  track_auto_percent_basis_points = pos 100;
  track_manual_floor_ms = pos 5000;
  track_manual_percent_basis_points = pos 200;
  release_auto_floor_ms = pos 2000;
  release_auto_percent_basis_points = pos 100;
  release_manual_floor_ms = pos 5000;
  release_manual_percent_basis_points = pos 200;
}

abbrev canonical : ℕ → Option ℤ → CanonicalTrack
canonical n duration = record {
  release_track_mbid = mbid;
  recording_mbid = mbid;
  title = codes "Title";
  disc = pos 1;
  track = pos n;
  number = codes "1";
  duration_ms = duration;
  artist_credits = [];
  isrcs = [];
}

abbrev release_of : List CanonicalTrack → CanonicalRelease
release_of tracks = record {
  release_mbid = mbid;
  release_group_mbid = mbid;
  title = codes "Title";
  date = [];
  release_status = [];
  artist_credits = [];
  tracks = tracks;
}

abbrev release : CanonicalRelease
release = release_of (canonical 1 (some (pos 180000)) ∷ canonical 2 none ∷ [])

abbrev file : ℕ → ℕ → CandidateTrack
file n duration = record {
  relative_path = codes "a.flac";
  disc = pos 1;
  track = pos n;
  duration_ms = pos duration;
}

abbrev files : List CandidateTrack
files = file 2 200000 ∷ file 1 181000 ∷ []

abbrev reviewed : DurationResult
reviewed = record {
  reference_ms = none;
  observed_ms = pos 200000;
  difference_ms = pos 0;
  auto_threshold_ms = pos 0;
  review_threshold_ms = pos 0;
  status = manual_review;
}

abbrev approved : DurationResult
approved = record {
  reference_ms = some (pos 180000);
  observed_ms = pos 181000;
  difference_ms = pos 1000;
  auto_threshold_ms = pos 2000;
  review_threshold_ms = pos 5000;
  status = auto_approve;
}

abbrev matched_up : ReleaseMatch
matched_up = record {
  release = release;
  tracks =
      (record { candidate = file 2 200000; canonical = canonical 2 none; duration = reviewed })
      ∷ (record {
        candidate = file 1 181000;
        canonical = canonical 1 (some (pos 180000));
        duration = approved;
      })
      ∷ [];
  total_duration = none;
  status = manual_review;
}

matches_up : match_release policy mbid release files ≡ ok matched_up
unfolding match_release check_identity is_mbid canonical_mbid check_counts match_tracks index_tracks
    check_track same_position match_candidates match_candidate found_track track_at
    or_duration_error evaluate_track_duration validate evaluate_duration int64 ◌-ℤ◌ quot_ℤ rem_ℤ
    ◌*ℤ◌ ◌+ℤ◌ absolute_difference ceil_10000 duration_rank evaluate_against
    evaluate_release_duration status_of strictest_duration_status strictest_from threshold_ms
    add_reference matched with_total
matches_up = refl

twice_refused :
    match_release policy mbid release (file 1 180000 ∷ file 1 180000 ∷ []) ≡ err duplicate_candidate
unfolding match_release check_identity is_mbid canonical_mbid check_counts match_tracks index_tracks
    check_track same_position match_candidates match_candidate found_track track_at
    or_duration_error evaluate_track_duration validate evaluate_duration int64 ◌-ℤ◌ quot_ℤ rem_ℤ
    ◌*ℤ◌ ◌+ℤ◌ absolute_difference ceil_10000 duration_rank evaluate_against
    evaluate_release_duration status_of strictest_duration_status strictest_from threshold_ms
    add_reference matched with_total
twice_refused = refl

one_missing : match_release policy mbid release (file 1 180000 ∷ []) ≡ err track_count
unfolding match_release check_identity is_mbid canonical_mbid check_counts match_tracks index_tracks
    check_track same_position match_candidates match_candidate found_track track_at
    or_duration_error evaluate_track_duration validate evaluate_duration int64 ◌-ℤ◌ quot_ℤ rem_ℤ
    ◌*ℤ◌ ◌+ℤ◌ absolute_difference ceil_10000 duration_rank evaluate_against
    evaluate_release_duration status_of strictest_duration_status strictest_from threshold_ms
    add_reference matched with_total
one_missing = refl

-- The test for an overflow takes the total from the largest int64; below zero the difference
-- wraps around, so that a length that fits is refused as an overflow.
negative_total_refused :
    match_release policy mbid
      (release_of (canonical 1 (some (negsuc 0)) ∷ canonical 2 (some (pos 180000)) ∷ []))
      (file 1 180000 ∷ file 2 180000 ∷ [])
    ≡ err reference_overflow
unfolding match_release check_identity is_mbid canonical_mbid check_counts match_tracks index_tracks
    check_track same_position match_candidates match_candidate found_track track_at
    or_duration_error evaluate_track_duration validate evaluate_duration int64 ◌-ℤ◌ quot_ℤ rem_ℤ
    ◌*ℤ◌ ◌+ℤ◌ absolute_difference ceil_10000 duration_rank evaluate_against
    evaluate_release_duration status_of strictest_duration_status strictest_from threshold_ms
    add_reference matched with_total
negative_total_refused = refl

match_release-Pairs_example :
    (map (λ x. x.candidate) matched_up.tracks ≡ files)
    × All (IsInPlace release) matched_up.tracks
    × All (λ t. has_file (position t) matched_up.tracks ≡ true) release.tracks
match_release-Pairs_example = match_release-Pairs policy mbid release files matched_up matches_up
