-- ===== src/Pipeline/Duration.antt =====
-- internal/pipeline/domain/duration.go: how far an observed duration may be off its reference.
pub mod Threshold
pub mod Verdict
use denyra.Base.{
  ℕ, ◌+◌, Bool, true, false, not, ◌&&◌, ◌||◌, Option, none, some, List, [], ◌∷◌, ltb, if◌then◌else◌,
  any, Result, ok, err, ◌>>=◌, ◌>>◌, reject_if,
}
use denyra.Base.Int.{ℤ, pos, ◌+ℤ◌, ◌-ℤ◌, ◌*ℤ◌, quot_ℤ, rem_ℤ, int64, max_int64, ltb_ℤ, leb_ℤ}

pub data DurationStatus : Type 0 where
  auto_approve manual_review reject : DurationStatus

pub record DurationResult : Type 0 where
  pub reference_ms : Option ℤ
  pub observed_ms : ℤ
  pub difference_ms : ℤ
  pub auto_threshold_ms : ℤ
  pub review_threshold_ms : ℤ
  pub status : DurationStatus

pub record DurationPolicy : Type 0 where
  pub track_auto_floor_ms : ℤ
  pub track_auto_percent_basis_points : ℤ
  pub track_manual_floor_ms : ℤ
  pub track_manual_percent_basis_points : ℤ
  pub release_auto_floor_ms : ℤ
  pub release_auto_percent_basis_points : ℤ
  pub release_manual_floor_ms : ℤ
  pub release_manual_percent_basis_points : ℤ

pub data Error : Type 0 where
  policy_not_positive manual_below_auto observed_negative : Error
  threshold_input_negative threshold_overflow : Error

-- `DurationPolicy.Validate`
unfoldable pub validate : DurationPolicy → Result Error (Unit {0})
validate p = do
  reject_if
      (any (λ v. leb_ℤ v (pos 0))
        (p.track_auto_floor_ms ∷ p.track_auto_percent_basis_points ∷ p.track_manual_floor_ms
          ∷ p.track_manual_percent_basis_points ∷ p.release_auto_floor_ms
          ∷ p.release_auto_percent_basis_points ∷ p.release_manual_floor_ms
          ∷ p.release_manual_percent_basis_points ∷ []))
      policy_not_positive
  reject_if
      (ltb_ℤ p.track_manual_floor_ms p.track_auto_floor_ms
        || ltb_ℤ p.track_manual_percent_basis_points p.track_auto_percent_basis_points
        || ltb_ℤ p.release_manual_floor_ms p.release_auto_floor_ms
        || ltb_ℤ p.release_manual_percent_basis_points p.release_auto_percent_basis_points)
      manual_below_auto

-- `a == 0` on int64
abbrev pub is_zero_ℤ : ℤ → Bool
is_zero_ℤ a = leb_ℤ a (pos 0) && leb_ℤ (pos 0) a

-- `remainderProduct / 10_000`, rounded up
unfoldable pub ceil_10000 : ℤ → ℤ
ceil_10000 n =
    let low = quot_ℤ n (pos 10000) in
    if is_zero_ℤ (rem_ℤ n (pos 10000)) then low else int64 (low +ℤ pos 1)

-- `thresholdMS`: the percentage of the reference, rounded up, but at least the floor.
unfoldable pub threshold_ms : ℤ → ℤ → ℤ → Result Error ℤ
threshold_ms reference floor basis_points = do
  reject_if (ltb_ℤ reference (pos 0) || ltb_ℤ floor (pos 0) || ltb_ℤ basis_points (pos 0))
      threshold_input_negative
  let whole = quot_ℤ reference (pos 10000)
  let remainder = rem_ℤ reference (pos 10000)
  reject_if (not (is_zero_ℤ basis_points) && ltb_ℤ (quot_ℤ (pos max_int64) basis_points) whole)
      threshold_overflow
  let percent = int64 (whole *ℤ basis_points)
  reject_if (not (is_zero_ℤ remainder) && ltb_ℤ (quot_ℤ (pos max_int64) remainder) basis_points)
      threshold_overflow
  let remainder_ceil = ceil_10000 (int64 (remainder *ℤ basis_points))
  reject_if (ltb_ℤ (int64 (pos max_int64 -ℤ remainder_ceil)) percent) threshold_overflow
  let total = int64 (percent +ℤ remainder_ceil)
  if ltb_ℤ floor total then ok total else ok floor

-- `absoluteDifference`
unfoldable pub absolute_difference : ℤ → ℤ → ℤ
absolute_difference left right =
    if leb_ℤ right left then int64 (left -ℤ right) else int64 (right -ℤ left)

-- The switch of `evaluateDuration`.
unfoldable pub status_of : ℤ → ℤ → ℤ → DurationStatus
status_of difference auto_threshold review_threshold =
    if leb_ℤ difference auto_threshold
    then auto_approve
    else if leb_ℤ difference review_threshold
    then manual_review
    else reject

-- The part of `evaluateDuration` behind the check of the reference.
unfoldable pub evaluate_against : ℤ → ℤ → ℤ → ℤ → ℤ → ℤ → Result Error DurationResult
evaluate_against reference observed auto_floor auto_points review_floor review_points = do
  auto_threshold ← threshold_ms reference auto_floor auto_points
  review_threshold ← threshold_ms reference review_floor review_points
  let difference = absolute_difference reference observed
  ok (record {
    reference_ms = some reference;
    observed_ms = observed;
    difference_ms = difference;
    auto_threshold_ms = auto_threshold;
    review_threshold_ms = review_threshold;
    status = status_of difference auto_threshold review_threshold;
  })

-- The result for a reference that is missing or not positive.
abbrev unreferenced : Option ℤ → ℤ → DurationResult
unreferenced reference observed = record {
  reference_ms = reference;
  observed_ms = observed;
  difference_ms = pos 0;
  auto_threshold_ms = pos 0;
  review_threshold_ms = pos 0;
  status = manual_review;
}

-- `evaluateDuration`
unfoldable pub evaluate_duration : Option ℤ → ℤ → ℤ → ℤ → ℤ → ℤ → Result Error DurationResult
evaluate_duration reference observed auto_floor auto_points review_floor review_points = do
  reject_if (ltb_ℤ observed (pos 0)) observed_negative
  elim reference [
    | none ↦ ok (unreferenced none observed)
    | some r ↦
        if leb_ℤ r (pos 0)
        then ok (unreferenced (some r) observed)
        else evaluate_against r observed auto_floor auto_points review_floor review_points
  ]

-- `EvaluateTrackDuration`
unfoldable pub evaluate_track_duration : DurationPolicy → Option ℤ → ℤ → Result Error DurationResult
evaluate_track_duration p reference observed = do
  validate p
  evaluate_duration reference observed p.track_auto_floor_ms p.track_auto_percent_basis_points
      p.track_manual_floor_ms p.track_manual_percent_basis_points

-- `EvaluateReleaseDuration`
unfoldable pub evaluate_release_duration :
    DurationPolicy → Option ℤ → ℤ → Result Error DurationResult
evaluate_release_duration p reference observed = do
  validate p
  evaluate_duration reference observed p.release_auto_floor_ms p.release_auto_percent_basis_points
      p.release_manual_floor_ms p.release_manual_percent_basis_points

-- `durationRank`
unfoldable pub duration_rank : DurationStatus → ℕ
duration_rank reject = 2
duration_rank manual_review = 1
duration_rank auto_approve = 0

unfoldable pub strictest_from : DurationStatus → List DurationStatus → DurationStatus
unfolding duration_rank
strictest_from strictest [] = strictest
strictest_from strictest (v ∷ vs) =
    strictest_from (if ltb (duration_rank strictest) (duration_rank v) then v else strictest) vs

-- `StrictestDurationStatus`
unfoldable pub strictest_duration_status : List DurationStatus → DurationStatus
unfolding strictest_from
strictest_duration_status values = strictest_from auto_approve values
