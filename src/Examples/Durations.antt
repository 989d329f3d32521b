-- ===== src/Examples/Durations.antt =====
-- Runs of internal/pipeline/domain/duration.go.
use denyra.Base.Int.{◌+ℤ◌}
use denyra.Base.Int.{◌*ℤ◌}
use denyra.Pipeline.Duration.{ceil_10000}
use denyra.Base.Int.{◌-ℤ◌}
use denyra.Base.Int.{int64}
use denyra.Base.Int.{rem_ℤ}
use denyra.Base.Int.{quot_ℤ}
use Prim.Native.Nat.{max}
use denyra.Base.{◌*◌, ◌≡◌, refl, [], ◌∷◌, none, some, ok, err, arith, if◌then◌else◌, leb}
use denyra.Base.Int.{pos, max_int64}
use denyra.Pipeline.Duration.{
  auto_approve, manual_review, reject, threshold_ms, threshold_overflow, evaluate_duration,
  strictest_duration_status, duration_rank,
}
use denyra.Pipeline.Duration.Threshold.{ceil_div, fits, threshold_ms_exact}
use denyra.Pipeline.Duration.Verdict.{
  distance, share, worst, evaluate_duration-verdict, strictest_duration_status-rank,
}

threshold_ms_exact_example : threshold_ms (pos 180001) (pos 2000) (pos 200) ≡ (
    if fits 180001 200
    then ok (pos (max 2000 (ceil_div (180001 * 200))))
    else err threshold_overflow)
threshold_ms_exact_example =
    threshold_ms_exact 180001 2000 200 (omega arith) (omega arith) (omega arith)

rounds_up : threshold_ms (pos 180001) (pos 2000) (pos 200) ≡ ok (pos 3601)
unfolding threshold_ms quot_ℤ rem_ℤ int64 ◌-ℤ◌ ceil_10000 ◌*ℤ◌ ◌+ℤ◌
rounds_up = refl

overflow_refused : threshold_ms (pos max_int64) (pos 1) (pos max_int64) ≡ err threshold_overflow
unfolding threshold_ms quot_ℤ
overflow_refused = refl

evaluate_duration-verdict_example :
    evaluate_duration (some (pos 200000)) (pos 203000) (pos 2000) (pos 100) (pos 5000) (pos 200)
    ≡ ok (record {
      reference_ms = some (pos 200000);
      observed_ms = pos 203000;
      difference_ms = pos (distance 200000 203000);
      auto_threshold_ms = pos (share 200000 2000 100);
      review_threshold_ms = pos (share 200000 5000 200);
      status =
          if leb (distance 200000 203000) (share 200000 2000 100)
          then auto_approve
          else if leb (distance 200000 203000) (share 200000 5000 200)
          then manual_review
          else reject;
    })
evaluate_duration-verdict_example =
    evaluate_duration-verdict 200000 203000 2000 100 5000 200 (omega arith) (omega arith)
      (omega arith) (omega arith) (omega arith) (omega arith) (omega arith) refl

missing_reference_is_reviewed :
    evaluate_duration none (pos 203000) (pos 2000) (pos 100) (pos 5000) (pos 200)
    ≡ ok (record {
      reference_ms = none;
      observed_ms = pos 203000;
      difference_ms = pos 0;
      auto_threshold_ms = pos 0;
      review_threshold_ms = pos 0;
      status = manual_review;
    })
unfolding evaluate_duration
missing_reference_is_reviewed = refl

strictest_duration_status-rank_example :
    duration_rank (strictest_duration_status (auto_approve ∷ reject ∷ []))
    ≡ worst (auto_approve ∷ reject ∷ [])
strictest_duration_status-rank_example = strictest_duration_status-rank (auto_approve ∷ reject ∷ [])
