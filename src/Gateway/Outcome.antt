-- ===== src/Gateway/Outcome.antt =====
-- internal/gateway/domain/outcome.go: what the results of the fallback providers mean for a job.
pub mod Classification
use denyra.Base.{Bool, true, false, ◌||◌, List, [], ◌∷◌, if◌then◌else◌, Result, ok, err}
use denyra.Base.Text.{Str, is_empty}
use denyra.Gateway.State.{State, arbitrating, no_candidate, fallback_retryable_error}

pub data ProviderOutcome : Type 0 where
  candidate legitimate_no_result retryable_error : ProviderOutcome
  other : Str → ProviderOutcome

pub record ProviderResult : Type 0 where
  pub provider : Str
  pub outcome : ProviderOutcome
  pub evidence : Str

pub data Error : Type 0 where
  no_results incomplete_evidence : Error
  unknown_outcome : Str → Error

-- The loop of `ClassifyFallback`, with `allNoResult`.
unfoldable pub classify_from : Bool → List ProviderResult → Result Error State
classify_from all_no_result [] =
    if all_no_result then ok no_candidate else ok fallback_retryable_error
classify_from all_no_result (r ∷ rs) =
    let after_error = classify_from false rs in
    let after_none = classify_from all_no_result rs in
    if is_empty r.provider || is_empty r.evidence then err incomplete_evidence else elim r.outcome [
      | candidate ↦ ok arbitrating
      | retryable_error ↦ after_error
      | legitimate_no_result ↦ after_none
      | other s ↦ err (unknown_outcome s)
    ]

unfoldable pub classify_fallback : List ProviderResult → Result Error State
unfolding classify_from
classify_fallback [] = err no_results
classify_fallback (r ∷ rs) = classify_from true (r ∷ rs)
