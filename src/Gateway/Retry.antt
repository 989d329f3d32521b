-- ===== src/Gateway/Retry.antt =====
-- internal/gateway/domain/retry.go: retry schedules and the deadlines that they give.
pub mod Deadlines
use denyra.Base.{
  ℕ, zero, suc, ◌-◌, Bool, true, false, ◌&&◌, ◌||◌, Option, none, some, List, [], ◌∷◌, leb,
  if◌then◌else◌, length, get_elem?, Result, ok, err, ◌>>=◌, ◌>>◌, reject_if,
}
use denyra.Base.Int.{ℤ, pos, negsuc, pos_part, ltb_ℤ, leb_ℤ}
use denyra.Base.Time.{Time, utc, add_duration}

pub record RetryPolicy : Type 0 where
  pub primary : List ℤ
  pub fallback : List ℤ
  pub no_candidate : ℤ

pub data Error : Type 0 where
  empty_schedule invalid_schedule no_candidate_not_positive : Error
  invalid_attempt duration_not_positive index_out_of_range : Error

-- `len(values) == 0`
abbrev is_nil : List ℤ → Bool
is_nil [] = true
is_nil (v ∷ vs) = false

-- Each value is positive and not below the one before it; `previous` is none at the first.
unfoldable pub is_schedule : Option ℤ → List ℤ → Bool
is_schedule previous [] = true
is_schedule none (v ∷ vs) =
    let rest = is_schedule (some v) vs in if leb_ℤ v (pos 0) then false else rest
is_schedule (some u) (v ∷ vs) =
    let rest = is_schedule (some v) vs in if leb_ℤ v (pos 0) || ltb_ℤ v u then false else rest

unfoldable pub validate_schedule : List ℤ → Result Error (Unit {0})
unfolding is_schedule
validate_schedule values = do
  reject_if (is_nil values) empty_schedule
  if is_schedule none values then ok tt else err invalid_schedule

-- `RetryPolicy.Validate`. The source goes through a map of the two schedules, in any order; the
-- order decides only which of two bad schedules is named.
unfoldable pub validate : RetryPolicy → Result Error (Unit {0})
unfolding validate_schedule
validate p = do
  validate_schedule p.primary
  validate_schedule p.fallback
  reject_if (leb_ℤ p.no_candidate (pos 0)) no_candidate_not_positive

-- The attempt, or the last index of the schedule if that is smaller.
unfoldable pub schedule_index : ℕ → List ℤ → ℕ
schedule_index attempt schedule =
    if leb (length schedule) attempt then length schedule - 1 else attempt

-- `schedule[index]`; the source would panic on an index out of range.
at_index : List ℤ → ℕ → Result Error ℤ
at_index schedule index = elim (get_elem? schedule index) [
  | some d ↦ ok d
  | none ↦ err index_out_of_range
]

-- `Deadline`
unfoldable pub deadline : Time → ℤ → List ℤ → Result Error Time
unfolding schedule_index at_index
deadline now attempt schedule = do
  reject_if (ltb_ℤ attempt (pos 0) || is_nil schedule) invalid_attempt
  d ← at_index schedule (schedule_index (pos_part attempt) schedule)
  reject_if (leb_ℤ d (pos 0)) duration_not_positive
  ok (add_duration (utc now) d)

-- `PrimaryDeadline`, `FallbackDeadline` and `NoCandidateDeadline`
unfoldable pub primary_deadline : RetryPolicy → Time → ℤ → Result Error Time
primary_deadline p now attempt = deadline now attempt p.primary

unfoldable pub fallback_deadline : RetryPolicy → Time → ℤ → Result Error Time
fallback_deadline p now attempt = deadline now attempt p.fallback

unfoldable pub no_candidate_deadline : RetryPolicy → Time → Result Error Time
no_candidate_deadline p now = do validate p; ok (add_duration (utc now) p.no_candidate)
