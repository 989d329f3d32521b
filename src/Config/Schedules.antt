-- ===== src/Config/Schedules.antt =====
-- The retry schedules are validated twice, when the configuration is read and when a policy is
-- used, by two functions that agree.
use denyra.Base.{◌≡◌, ◌↔◌, refl, true, Option, none, some, List, [], ◌∷◌, ok, Bool-cases, inl, inr}
use denyra.Base.Int.{ℤ, pos, leb_ℤ, ltb_ℤ}
use denyra.Base.Text.{Str}
use denyra.Gateway.Retry as Retry
use denyra.Config.Validate.{check_retry, validate_retry}

check_retry-schedule :
    (name : Str) (previous : Option ℤ) (vs : List ℤ)
    → check_retry name previous vs ≡ ok tt
    → Retry.is_schedule previous vs ≡ true
unfolding check_retry Retry.is_schedule
check_retry-schedule name previous [] h = refl
check_retry-schedule name none (v ∷ vs) h = elim (Bool-cases (leb_ℤ v (pos 0))) [
  | inl e ↦ let impossible = rw e at h in absurd (cc)
  | inr e ↦ rw e (check_retry-schedule name (some v) vs (rw e at h))
]
check_retry-schedule name (some u) (v ∷ vs) h = elim (Bool-cases (leb_ℤ v (pos 0))) [
  | inl e ↦ let impossible = rw e at h in absurd (cc)
  | inr e ↦ elim (Bool-cases (ltb_ℤ v u)) [
    | inl f ↦ let impossible = rw (e, f) at h in absurd (cc)
    | inr f ↦ rw (e, f) (check_retry-schedule name (some v) vs (rw (e, f) at h))
  ]
]

schedule-check_retry :
    (name : Str) (previous : Option ℤ) (vs : List ℤ)
    → Retry.is_schedule previous vs ≡ true
    → check_retry name previous vs ≡ ok tt
unfolding check_retry Retry.is_schedule
schedule-check_retry name previous [] h = refl
schedule-check_retry name none (v ∷ vs) h = elim (Bool-cases (leb_ℤ v (pos 0))) [
  | inl e ↦ let impossible = rw e at h in absurd (cc)
  | inr e ↦ rw e (schedule-check_retry name (some v) vs (rw e at h))
]
schedule-check_retry name (some u) (v ∷ vs) h = elim (Bool-cases (leb_ℤ v (pos 0))) [
  | inl e ↦ let impossible = rw e at h in absurd (cc)
  | inr e ↦ elim (Bool-cases (ltb_ℤ v u)) [
    | inl f ↦ let impossible = rw (e, f) at h in absurd (cc)
    | inr f ↦ rw (e, f) (schedule-check_retry name (some v) vs (rw (e, f) at h))
  ]
]

-- The configuration accepts a retry schedule, under either name, exactly when the retry policy of
-- the gateway does.
pub validate_retry_iff :
    (name : Str) (vs : List ℤ)
    → (validate_retry name vs ≡ ok tt) ↔ (Retry.validate_schedule vs ≡ ok tt)
unfolding validate_retry Retry.validate_schedule
validate_retry_iff name [] = (λ h. absurd (cc), λ h. absurd (cc))
validate_retry_iff name (v ∷ vs) = (
  λ h. rw (check_retry-schedule name none (v ∷ vs) h) refl,
  λ h. elim (Bool-cases (Retry.is_schedule none (v ∷ vs))) [
    | inl e ↦ schedule-check_retry name none (v ∷ vs) e
    | inr e ↦ let impossible = rw e at h in absurd (cc)
  ],
)
