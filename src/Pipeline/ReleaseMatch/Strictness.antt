-- ===== src/Pipeline/ReleaseMatch/Strictness.antt =====
-- The status of a match sums up the verdicts on all durations.
use denyra.Base.{◌≡◌, Option, none, some, List, [], ◌∷◌, ◌++◌, map, All, ok}
use denyra.Pipeline.Duration.{
  DurationStatus, DurationResult, DurationPolicy, evaluate_track_duration,
  strictest_duration_status,
}
use denyra.Pipeline.ReleaseMatch.{TrackMatch, ReleaseMatch}

-- The verdict in an entry is the one on its two durations.
abbrev pub IsJudged : DurationPolicy → TrackMatch → Type 0
IsJudged policy m =
    evaluate_track_duration policy m.canonical.duration_ms m.candidate.duration_ms ≡ ok m.duration

abbrev pub verdict : TrackMatch → DurationStatus
verdict m = m.duration.status

abbrev pub total_verdict : Option DurationResult → List DurationStatus
total_verdict none = []
total_verdict (some d) = d.status ∷ []

abbrev IsSummedUp : DurationPolicy → DurationStatus → List TrackMatch → Type 0
IsSummedUp policy status tracks =
    (status ≡ strictest_duration_status (map verdict tracks)) × All (IsJudged policy) tracks

module _ (policy : DurationPolicy) where
  -- The status and the entries of a result.
  abbrev IsStrictest : ReleaseMatch → Type 0
  IsStrictest m =
      (m.status
        ≡ strictest_duration_status (map verdict m.tracks ++ total_verdict m.total_duration))
      × All (IsJudged policy) m.tracks
