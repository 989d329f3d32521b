-- ===== src/Pipeline/ReleaseMatch.antt =====
-- internal/pipeline/domain/release_match.go: the files of a candidate against the tracks of the
-- release that MusicBrainz describes. An int and an int64 are both 64 bits wide.
pub mod Turns
pub mod Matching
pub mod Assignment
pub mod Strictness
use denyra.Base.{
  Bool, true, false, not, ◌&&◌, ◌||◌, Option, none, some, List, [], ◌∷◌, ◌++◌, ◌==◌, if◌then◌else◌,
  length, any, Result, ok, err, ◌>>=◌, ◌>>◌, reject_if,
}
use denyra.Base.Int.{ℤ, pos, ◌+ℤ◌, ◌-ℤ◌, int64, max_int64, ltb_ℤ, leb_ℤ, same_ℤ}
use denyra.Base.Text.{Str, same}
use denyra.Gateway.Identity.{canonical_mbid, is_mbid}
use denyra.Pipeline.Duration.{
  DurationStatus, auto_approve, DurationResult, DurationPolicy, evaluate_track_duration,
  evaluate_release_duration, strictest_duration_status,
}
use denyra.Pipeline.Duration as Duration

pub record ArtistCredit : Type 0 where
  pub name : Str
  pub artist_mbid : Str
  pub join_phrase : Str

pub record CanonicalTrack : Type 0 where
  pub release_track_mbid : Str
  pub recording_mbid : Str
  pub title : Str
  pub disc : ℤ
  pub track : ℤ
  pub number : Str
  pub duration_ms : Option ℤ
  pub artist_credits : List ArtistCredit
  pub isrcs : List Str

pub record CanonicalRelease : Type 0 where
  pub release_mbid : Str
  pub release_group_mbid : Str
  pub title : Str
  pub date : Str
  pub release_status : Str
  pub artist_credits : List ArtistCredit
  pub tracks : List CanonicalTrack

pub record CandidateTrack : Type 0 where
  pub relative_path : Str
  pub disc : ℤ
  pub track : ℤ
  pub duration_ms : ℤ

pub record TrackMatch : Type 0 where
  pub candidate : CandidateTrack
  pub canonical : CanonicalTrack
  pub duration : DurationResult

pub record ReleaseMatch : Type 0 where
  pub release : CanonicalRelease
  pub tracks : List TrackMatch
  pub total_duration : Option DurationResult
  pub status : DurationStatus

pub data Error : Type 0 where
  explicit_mbid release_differs track_count : Error
  canonical_position duplicate_canonical recording_mbid release_track_mbid : Error
  duplicate_candidate no_canonical_track observed_overflow reference_overflow : Error
  duration_error : Duration.Error → Error

-- The keys of the maps.
abbrev pub Position : Type 0
Position = ℤ × ℤ

unfoldable pub same_position : Position → Position → Bool
same_position p q = same_ℤ p.0 q.0 && same_ℤ p.1 q.1

abbrev pub position : CanonicalTrack → Position
position t = (t.disc, t.track)

abbrev pub candidate_position : CandidateTrack → Position
candidate_position c = (c.disc, c.track)

-- `byPosition[key]`
unfoldable pub track_at : Position → List CanonicalTrack → Option CanonicalTrack
track_at key [] = none
track_at key (t ∷ ts) =
    let rest = track_at key ts in if same_position key (position t) then some t else rest

-- What `byPosition` asks of a track before it is stored.
unfoldable pub check_track : List CanonicalTrack → CanonicalTrack → Result Error (Unit {0})
check_track by_position t = do
  reject_if (leb_ℤ t.disc (pos 0) || leb_ℤ t.track (pos 0)) canonical_position
  reject_if (any (λ u. same_position (position t) (position u)) by_position) duplicate_canonical
  reject_if (not (is_mbid t.recording_mbid)) recording_mbid
  reject_if (not (is_mbid t.release_track_mbid)) release_track_mbid

-- The loop that fills `byPosition`.
unfoldable pub index_tracks :
    List CanonicalTrack → List CanonicalTrack → Result Error (List CanonicalTrack)
index_tracks by_position [] = ok by_position
index_tracks by_position (t ∷ ts) = do check_track by_position t; index_tracks (t ∷ by_position) ts

-- An error of the duration check is passed on.
unfoldable pub or_duration_error :
    Result Duration.Error DurationResult → Result Error DurationResult
or_duration_error (ok d) = ok d
or_duration_error (err e) = err (duration_error e)

-- The variables of the loop over the candidates.
pub record Progress : Type 0 where
  pub seen : List Position
  pub tracks : List TrackMatch
  pub status : DurationStatus
  pub observed_total : ℤ
  pub reference_total : ℤ
  pub all_references : Bool

abbrev pub start : Progress
start = record {
  seen = [];
  tracks = [];
  status = auto_approve;
  observed_total = pos 0;
  reference_total = pos 0;
  all_references = true;
}

-- The test of a sum of int64 numbers before it is made.
abbrev pub overflows : ℤ → ℤ → Bool
overflows total value = ltb_ℤ (int64 (pos max_int64 -ℤ total)) value

unfoldable pub add_reference : Option ℤ → Progress → Result Error Progress
add_reference none s = ok (record s { all_references = false })
add_reference (some value) s = do
  reject_if (overflows s.reference_total value) reference_overflow
  ok (record s { reference_total = int64 (s.reference_total +ℤ value) })

-- The progress with one more match.
unfoldable pub matched : CandidateTrack → CanonicalTrack → DurationResult → Progress → Progress
matched c t d s = record s {
  seen = candidate_position c ∷ s.seen;
  tracks = s.tracks ++ (record { candidate = c; canonical = t; duration = d }) ∷ [];
  status = strictest_duration_status (s.status ∷ d.status ∷ []);
  observed_total = int64 (s.observed_total +ℤ c.duration_ms);
}

unfoldable pub found_track : Option CanonicalTrack → Result Error CanonicalTrack
found_track none = err no_canonical_track
found_track (some t) = ok t

-- One turn of the loop.
unfoldable pub match_candidate :
    DurationPolicy → List CanonicalTrack → CandidateTrack → Progress → Result Error Progress
match_candidate policy by_position c s = do
  reject_if (any (same_position (candidate_position c)) s.seen) duplicate_candidate
  t ← found_track (track_at (candidate_position c) by_position)
  d ← or_duration_error (evaluate_track_duration policy t.duration_ms c.duration_ms)
  reject_if (overflows s.observed_total c.duration_ms) observed_overflow
  add_reference t.duration_ms (matched c t d s)

unfoldable pub match_candidates :
    DurationPolicy → List CanonicalTrack → List CandidateTrack → Progress → Result Error Progress
match_candidates policy by_position [] s = ok s
match_candidates policy by_position (c ∷ cs) s = do
  s' ← match_candidate policy by_position c s
  match_candidates policy by_position cs s'

-- The end of `MatchRelease`: the length of the release counts when every track's is known.
unfoldable pub with_total : DurationPolicy → CanonicalRelease → Progress → Result Error ReleaseMatch
with_total policy release s =
    if s.all_references
    then (or_duration_error
          (evaluate_release_duration policy (some s.reference_total) s.observed_total)
        >>= λ d. ok (record {
          release = release;
          tracks = s.tracks;
          total_duration = some d;
          status = strictest_duration_status (s.status ∷ d.status ∷ []);
        }))
    else ok
        (record { release = release; tracks = s.tracks; total_duration = none; status = s.status })

-- The loops of `MatchRelease` and its end.
unfoldable pub match_tracks :
    DurationPolicy → CanonicalRelease → List CandidateTrack → Result Error ReleaseMatch
match_tracks policy release candidates = do
  by_position ← index_tracks [] release.tracks
  s ← match_candidates policy by_position candidates start
  with_total policy release s

-- The checks at the start of `MatchRelease`: the release is the one that was asked for, and there
-- are as many files as tracks.
unfoldable pub check_identity : Str → CanonicalRelease → Result Error (Unit {0})
check_identity explicit_release_mbid release = do
  reject_if (not (is_mbid explicit_release_mbid)) explicit_mbid
  reject_if
      (not (is_mbid release.release_mbid) || not (same release.release_mbid explicit_release_mbid))
      release_differs

unfoldable pub check_counts : CanonicalRelease → List CandidateTrack → Result Error (Unit {0})
check_counts release candidates =
    reject_if (not (length candidates == length release.tracks) || length candidates == 0)
      track_count

-- `MatchRelease`
unfoldable pub match_release :
    DurationPolicy → Str → CanonicalRelease → List CandidateTrack → Result Error ReleaseMatch
match_release policy explicit_release_mbid release candidates = do
  check_identity explicit_release_mbid release
  check_counts release candidates
  match_tracks policy release candidates
