-- ===== src/Examples/Plans.antt =====
-- Runs of the validation in internal/pipeline/domain/unmanaged.go.
use denyra.Base.Sort.{sort_stable}
use denyra.Pipeline.Metadata.{sort_ints}
use denyra.Pipeline.Metadata.{is_contiguous_from}
use denyra.Pipeline.Metadata.{positions}
use denyra.Pipeline.Metadata.{check_disc}
use denyra.Pipeline.Metadata.{check_discs}
use denyra.Pipeline.Metadata.{is_incomplete}
use denyra.Pipeline.Metadata.{check_track}
use denyra.Pipeline.Metadata.{check_tracks}
use denyra.Base.Text.{trim_space}
use denyra.Pipeline.Metadata.{check_totals}
use denyra.Base.{ℕ, ◌≡◌, refl, List, [], ◌∷◌, length, ok, err, arith}
use denyra.Base.Int.{pos}
use denyra.Base.Text.{Str, codes}
use denyra.Pipeline.Metadata.{
  TrackMetadata, MetadataPlan, validate_metadata_plan, disc_not_contiguous,
}
use denyra.Pipeline.Metadata.Discs.{IsNumbered, validate_metadata_plan-IsNumbered}

abbrev track_at_place : Str → ℕ → ℕ → TrackMetadata
track_at_place path disc track = record {
  relative_path = path;
  title = codes "Title";
  artist = codes "Artist";
  track = pos track;
  disc = pos disc;
  duration_ms = pos 180000;
  isrcs = [];
}

abbrev plan_of : List TrackMetadata → MetadataPlan
plan_of tracks = record {
  album_artist = codes "Artist";
  album = codes "Album";
  date = codes "2020";
  edition = [];
  tracks = tracks;
  disc_total = pos 2;
  track_total = pos (length tracks);
  preserved = [];
}

abbrev plan : MetadataPlan
plan = plan_of (
    track_at_place (codes "b.flac") 1 2
    ∷ track_at_place (codes "c.flac") 2 1
    ∷ track_at_place (codes "a.flac") 1 1
    ∷ [])

plan_valid : validate_metadata_plan plan ≡ ok tt
unfolding validate_metadata_plan check_totals trim_space check_tracks check_track is_incomplete
    check_discs check_disc positions is_contiguous_from sort_ints sort_stable
plan_valid = refl

gap_refused :
    validate_metadata_plan
      (plan_of (track_at_place (codes "a") 1 1 ∷ track_at_place (codes "b") 2 2 ∷ []))
    ≡ err (disc_not_contiguous (pos 2))
unfolding validate_metadata_plan check_totals trim_space check_tracks check_track is_incomplete
    check_discs check_disc positions is_contiguous_from sort_ints sort_stable
gap_refused = refl

validate_metadata_plan-IsNumbered_example : IsNumbered plan.tracks (pos 1)
validate_metadata_plan-IsNumbered_example =
    validate_metadata_plan-IsNumbered plan 1 plan_valid (omega arith) (omega arith)
