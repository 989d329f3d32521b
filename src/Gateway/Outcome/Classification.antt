-- ===== src/Gateway/Outcome/Classification.antt =====
-- When a round of fallback providers ends in which state.
use denyra.Base.{
  ◌≡◌, refl, ◌≢◌, ◌↔◌, ◌⊎◌, inl, inr, Bool, true, false, List, [], ◌∷◌, arith, ok, All,
}
use denyra.Gateway.State.{
  State, arbitrating, no_candidate, fallback_retryable_error, fallback_running, can_transition,
}
use denyra.Gateway.Outcome.{
  ProviderResult, ProviderOutcome, candidate, legitimate_no_result, retryable_error, classify_from,
  classify_fallback,
}

-- A result with a provider and evidence.
abbrev pub IsComplete : ProviderResult → Type 0
IsComplete r = (r.provider ≢ []) × (r.evidence ≢ [])

-- A complete result that found nothing.
abbrev pub FoundNothing : ProviderResult → Type 0
FoundNothing r = IsComplete r × (r.outcome ≡ legitimate_no_result)

no_candidate_from :
    (a : Bool) (rs : List ProviderResult)
    → classify_from a rs ≡ ok no_candidate
    → (a ≡ true) × All FoundNothing rs
unfolding classify_from
no_candidate_from a [] h = ground arith
no_candidate_from a (r ∷ rs) h = ground (arith, no_candidate_from a rs, no_candidate_from false rs)

no_candidate-All :
    (rs : List ProviderResult) → All FoundNothing rs → classify_from true rs ≡ ok no_candidate
unfolding classify_from
no_candidate-All [] h = refl
no_candidate-All (r ∷ rs) h = ground (arith, no_candidate-All rs)

-- A job is given up as NO_CANDIDATE exactly when there are results and each of them is complete
-- and found nothing: one error among them is never taken for an empty result.
pub no_candidate_iff :
    (rs : List ProviderResult)
    → (classify_fallback rs ≡ ok no_candidate) ↔ ((rs ≢ []) × All FoundNothing rs)
unfolding classify_fallback
no_candidate_iff [] = (λ h. absurd (cc), λ h. absurd (h.0 refl))
no_candidate_iff (r ∷ rs) =
    (λ h. (λ e. cc, (no_candidate_from true (r ∷ rs) h).1), λ h. no_candidate-All (r ∷ rs) h.1)

-- A complete result that does not decide.
abbrev IsUndecided : ProviderResult → Type 0
IsUndecided r = IsComplete r × ((r.outcome ≡ legitimate_no_result) ⊎ (r.outcome ≡ retryable_error))

-- The first result that is not undecided is a complete candidate.
pub data FindsCandidate : List ProviderResult → Type 0 where
  found :
      (r : ProviderResult) (rs : List ProviderResult)
      → IsComplete r
      → r.outcome ≡ candidate
      → FindsCandidate (r ∷ rs)
  skip :
      (r : ProviderResult) {rs : List ProviderResult}
      → IsUndecided r
      → FindsCandidate rs
      → FindsCandidate (r ∷ rs)

no_find : FindsCandidate [] → ⊥
no_find f = elim f [ ]

abbrev flag_after : Bool → ProviderOutcome → Bool
flag_after a retryable_error = false
flag_after a _ = a

outcome_cases :
    (a : Bool) (r : ProviderResult) (rs : List ProviderResult)
    → classify_from a (r ∷ rs) ≡ ok arbitrating
    → (IsComplete r × (r.outcome ≡ candidate))
      ⊎ (IsUndecided r × (classify_from (flag_after a r.outcome) rs ≡ ok arbitrating))
unfolding classify_from
outcome_cases a r rs h = ground arith

finds_from :
    (a : Bool) (rs : List ProviderResult) → classify_from a rs ≡ ok arbitrating → FindsCandidate rs
unfolding classify_from
finds_from a [] h = absurd (ground arith)
finds_from a (r ∷ rs) h = elim (outcome_cases a r rs h) [
  | inl f ↦ found r rs f.0 f.1
  | inr (u, g) ↦ skip r u (finds_from (flag_after a r.outcome) rs g)
]

from_finds :
    (a : Bool) {rs : List ProviderResult} → FindsCandidate rs → classify_from a rs ≡ ok arbitrating
unfolding classify_from
from_finds a (found r rs c o) = ground arith
from_finds a (skip r {rs = rs} u f) = ground (arith, from_finds a f, from_finds false f)

-- The candidates go to arbitration exactly when a complete result has one and every result before
-- it is complete and known; results behind it are not looked at.
arbitrating_iff :
    (rs : List ProviderResult) → (classify_fallback rs ≡ ok arbitrating) ↔ FindsCandidate rs
unfolding classify_fallback
arbitrating_iff [] = (λ h. absurd (cc), λ h. absurd (no_find h))
arbitrating_iff (r ∷ rs) = (finds_from true (r ∷ rs), λ h. from_finds true h)

IsRoundEnd : State → Type 0
IsRoundEnd s = (s ≡ arbitrating) ⊎ ((s ≡ no_candidate) ⊎ (s ≡ fallback_retryable_error))

round_end :
    (a : Bool) (rs : List ProviderResult) (s : State) → classify_from a rs ≡ ok s → IsRoundEnd s
unfolding classify_from IsRoundEnd
round_end a [] s h = ground arith
round_end a (r ∷ rs) s h = ground (arith, round_end false rs s, round_end a rs s)

round_end_allowed : (s : State) → IsRoundEnd s → can_transition fallback_running s ≡ true
unfolding can_transition IsRoundEnd
round_end_allowed s (inl e) = rw e
round_end_allowed s (inr (inl e)) = rw e
round_end_allowed s (inr (inr e)) = rw e

-- Whatever the providers return, the state that a round ends in may follow FALLBACK_RUNNING.
classify_fallback_allowed :
    (rs : List ProviderResult) {s : State}
    → classify_fallback rs ≡ ok s
    → can_transition fallback_running s ≡ true
unfolding classify_fallback
classify_fallback_allowed [] {s} h = absurd (cc)
classify_fallback_allowed (r ∷ rs) {s} h = round_end_allowed s (round_end true (r ∷ rs) s h)
