-- ===== src/Gateway/State/Paths.antt =====
-- What the transition table of state.go allows over any number of steps.
use denyra.Base.{◌≡◌, refl, ◌≢◌, ◌↔◌, ◌⊎◌, inl, inr, true, false, ◌||◌}
use denyra.Gateway.State.{
  State, discovered, primary_search_requested, primary_search_running, primary_reconciling,
  primary_active, primary_retryable_error, fallback_running, fallback_retryable_error, no_candidate,
  dual_candidate, arbitrating, winner_locked, handed_off, cancelled, unknown, same_state, terminal,
  can_transition,
}

-- The states that can be reached by allowed transitions.
pub data Reach (s : State) : State → Type 0 where
  here : Reach s s
  next : {t : State} (u : State) → Reach s t → can_transition t u ≡ true → Reach s u

abbrev IsKnown : State → Type 0
IsKnown (unknown s) = ⊥
IsKnown _ = Unit

-- A state that the program declares is terminal exactly when no transition leaves it.
terminal_iff_stuck :
    (s : State) → IsKnown s → (terminal s ≡ true) ↔ ((t : State) → can_transition s t ≡ false)
unfolding terminal can_transition
terminal_iff_stuck handed_off k = (λ h t. refl, λ h. refl)
terminal_iff_stuck cancelled k = (λ h t. refl, λ h. refl)
terminal_iff_stuck winner_locked k = (λ h t. cc, λ h. cc (h handed_off))
terminal_iff_stuck (unknown s) k = absurd k
terminal_iff_stuck _ k = (λ h t. cc, λ h. cc (h cancelled))

-- A declared state can be cancelled exactly when it is not terminal and no winner is locked.
pub cancellable_iff :
    (s : State)
    → IsKnown s
    → (can_transition s cancelled ≡ true) ↔ ((terminal s ≡ false) × (s ≢ winner_locked))
unfolding terminal can_transition
cancellable_iff winner_locked k = (λ h. cc, λ h. absurd (h.1 refl))
cancellable_iff handed_off k = (λ h. cc, λ h. cc (h.0))
cancellable_iff cancelled k = (λ h. cc, λ h. cc (h.0))
cancellable_iff (unknown s) k = absurd k
cancellable_iff _ k = (λ h. (refl, λ e. cc), λ h. refl)

winner_next : (t : State) → can_transition winner_locked t ≡ true → t ≡ handed_off
unfolding can_transition
winner_next handed_off h = refl
winner_next _ h = cc

stuck_handed_off : {P : Type 0} (t : State) → can_transition handed_off t ≡ true → P
unfolding can_transition
stuck_handed_off t h = cc

-- Once a winner is locked, only the hand-over can follow: a locked job is never cancelled.
winner_locked_final : {t : State} → Reach winner_locked t → (t ≡ winner_locked) ⊎ (t ≡ handed_off)
winner_locked_final here = inl refl
winner_locked_final (next u r h) = elim (winner_locked_final r) [
  | inl e ↦ inr (winner_next u (rw e at h))
  | inr e ↦ stuck_handed_off u (rw e at h)
]

-- A winner can be locked from arbitration and from no other state, and a job can be handed over
-- with a locked winner, straight from the primary search, and from no other state.
entry_guards :
    (s : State)
    → (can_transition s winner_locked ≡ same_state s arbitrating)
      × (can_transition s handed_off ≡ same_state s winner_locked || same_state s primary_active)
unfolding can_transition same_state
entry_guards arbitrating = (refl, refl)
entry_guards winner_locked = (refl, refl)
entry_guards primary_active = (refl, refl)
entry_guards _ = (refl, refl)

step_to : {s : State} (t : State) → can_transition s t ≡ true → Reach s t
step_to t h = next t here h

-- No declared state but `cancelled` is a dead end: each can still lead to a hand-over.
pub Reach-handed_off : (s : State) → IsKnown s → s ≢ cancelled → Reach s handed_off
unfolding can_transition
Reach-handed_off cancelled k n = absurd (n refl)
Reach-handed_off (unknown s) k n = absurd k
Reach-handed_off discovered k n =
    next handed_off (next primary_active (step_to primary_search_requested refl) refl) refl
Reach-handed_off primary_search_requested k n = next handed_off (step_to primary_active refl) refl
Reach-handed_off primary_search_running k n =
    next handed_off (next primary_active (step_to primary_reconciling refl) refl) refl
Reach-handed_off primary_reconciling k n = next handed_off (step_to primary_active refl) refl
Reach-handed_off primary_active k n = step_to handed_off refl
Reach-handed_off primary_retryable_error k n =
    next handed_off (next primary_active (step_to primary_search_requested refl) refl) refl
Reach-handed_off fallback_running k n = next handed_off (step_to primary_active refl) refl
Reach-handed_off fallback_retryable_error k n = next handed_off (step_to primary_active refl) refl
Reach-handed_off no_candidate k n = next handed_off (step_to primary_active refl) refl
Reach-handed_off dual_candidate k n =
    next handed_off (next winner_locked (step_to arbitrating refl) refl) refl
Reach-handed_off arbitrating k n = next handed_off (step_to winner_locked refl) refl
Reach-handed_off winner_locked k n = step_to handed_off refl
Reach-handed_off handed_off k n = here
