-- ===== src/Pipeline/Duration/Verdict.antt =====
-- The verdict on a duration, and the strictest verdict of several.
use Prim.Native.Nat.{max}
use native.Mathlib.Nat.{mul-le-mul_left}
use denyra.Base.{
  ℕ, ◌+◌, ◌-◌, ◌*◌, ◌/◌, ◌%◌, ◌≤◌, ◌<◌, ◌≡◌, refl, true, arith, leb, if◌then◌else◌, some, List, [],
  ◌∷◌, ◌++◌, ok,
}
use denyra.Base.Int.{pos, max_int64, int64-pos, -ℤ-pos}
use denyra.Pipeline.Duration.{
  DurationStatus, auto_approve, manual_review, reject, absolute_difference, evaluate_against,
  evaluate_duration, status_of, duration_rank, strictest_duration_status, strictest_from,
}
use denyra.Pipeline.Duration.Threshold.{ceil_div, fits, threshold_ms_exact}

-- The distance of two numbers.
abbrev pub distance : ℕ → ℕ → ℕ
distance a b = (a - b) + (b - a)

absolute_difference-pos :
    (a b : ℕ)
    → a ≤ max_int64
    → b ≤ max_int64
    → absolute_difference (pos a) (pos b) ≡ pos (distance a b)
unfolding absolute_difference
absolute_difference-pos a b ha hb =
    ground (arith, -ℤ-pos a b, -ℤ-pos b a, int64-pos (a - b), int64-pos (b - a))

-- A smaller share fits when a larger one does.
fits_below : (r b c : ℕ) → b ≤ c → fits r c ≡ true → fits r b ≡ true
fits_below r b c h hc =
    ground
      (arith, mul-le-mul_left (r / 10000) h, mul-le-mul_left (r % 10000) h, mul-le-mul_left r h)

-- What the verdict promises, over numbers.
abbrev pub share : ℕ → ℕ → ℕ → ℕ
share r floor points = max floor (ceil_div (r * points))

evaluate_duration-positive :
    (r o af ab rf rb : ℕ)
    → 0 < r
    → evaluate_duration (some (pos r)) (pos o) (pos af) (pos ab) (pos rf) (pos rb)
      ≡ evaluate_against (pos r) (pos o) (pos af) (pos ab) (pos rf) (pos rb)
unfolding evaluate_duration
evaluate_duration-positive r o af ab rf rb hr = ground arith

status_of-pos :
    (d t u : ℕ)
    → status_of (pos d) (pos t) (pos u)
      ≡ (if leb d t then auto_approve else if leb d u then manual_review else reject)
unfolding status_of
status_of-pos d t u = ground arith

-- For a positive reference, an observation and thresholds whose larger share fits in an int64,
-- the evaluation succeeds: the difference is the distance of the two, both thresholds are exact,
-- and the status is approved, up for review or rejected as the distance is within the first,
-- within the second or beyond both.
pub evaluate_duration-verdict :
    (r o af ab rf rb : ℕ)
    → 0 < r
    → r ≤ max_int64
    → o ≤ max_int64
    → af ≤ rf
    → rf ≤ max_int64
    → ab ≤ rb
    → rb ≤ max_int64
    → fits r rb ≡ true
    → evaluate_duration (some (pos r)) (pos o) (pos af) (pos ab) (pos rf) (pos rb)
      ≡ ok (record {
        reference_ms = some (pos r);
        observed_ms = pos o;
        difference_ms = pos (distance r o);
        auto_threshold_ms = pos (share r af ab);
        review_threshold_ms = pos (share r rf rb);
        status =
            if leb (distance r o) (share r af ab)
            then auto_approve
            else if leb (distance r o) (share r rf rb)
            then manual_review
            else reject;
      })
unfolding evaluate_against
evaluate_duration-verdict r o af ab rf rb hr mr mo hf mf hb mb fit =
    let low = fits_below r ab rb hb fit in
    rw
      (
        evaluate_duration-positive r o af ab rf rb hr,
        threshold_ms_exact r af ab mr (omega arith) (omega arith),
        threshold_ms_exact r rf rb mr mf mb,
        low,
        fit,
        absolute_difference-pos r o mr mo,
        status_of-pos (distance r o) (share r af ab) (share r rf rb),
      )
      refl

-- The larger of two ranks, over a list.
abbrev pub worst : List DurationStatus → ℕ
worst [] = 0
worst (v ∷ vs) = max (duration_rank v) (worst vs)

strictest_from-rank :
    (v : DurationStatus) (vs : List DurationStatus)
    → duration_rank (strictest_from v vs) ≡ max (duration_rank v) (worst vs)
unfolding strictest_from
strictest_from-rank v [] = ground arith
strictest_from-rank v (w ∷ vs) = ground (arith, strictest_from-rank v vs, strictest_from-rank w vs)

-- The strictest status has the largest rank of all, and the mildest rank of none.
pub strictest_duration_status-rank :
    (vs : List DurationStatus) → duration_rank (strictest_duration_status vs) ≡ worst vs
unfolding strictest_duration_status duration_rank
strictest_duration_status-rank vs = omega (arith, strictest_from-rank auto_approve vs)

rank_injective : (a b : DurationStatus) → duration_rank a ≡ duration_rank b → a ≡ b
unfolding duration_rank
rank_injective a b h = ground arith

worst-append : (vs ws : List DurationStatus) → worst (vs ++ ws) ≡ max (worst vs) (worst ws)
worst-append [] ws = ground arith
worst-append (v ∷ vs) ws = ground (arith, worst-append vs ws)

-- The strictest status of two lists is the strictest of their strictest ones, so that it can be
-- kept up to date one status at a time.
strictest_duration_status-append :
    (vs ws : List DurationStatus)
    → strictest_duration_status (vs ++ ws)
      ≡ strictest_duration_status (strictest_duration_status vs ∷ strictest_duration_status ws ∷ [])
strictest_duration_status-append vs ws = rank_injective _ _ (
    ground (
      arith,
      strictest_duration_status-rank (vs ++ ws),
      worst-append vs ws,
      strictest_duration_status-rank vs,
      strictest_duration_status-rank ws,
      strictest_duration_status-rank
          (strictest_duration_status vs ∷ strictest_duration_status ws ∷ []),
    ))

-- One status more is the strictest of the strictest so far and the new one.
pub strictest_duration_status-snoc :
    (vs : List DurationStatus) (d : DurationStatus)
    → strictest_duration_status (vs ++ d ∷ [])
      ≡ strictest_duration_status (strictest_duration_status vs ∷ d ∷ [])
strictest_duration_status-snoc vs d = rank_injective _ _ (
    ground (
      arith,
      strictest_duration_status-rank (vs ++ d ∷ []),
      worst-append vs (d ∷ []),
      strictest_duration_status-rank vs,
      strictest_duration_status-rank (strictest_duration_status vs ∷ d ∷ []),
    ))
