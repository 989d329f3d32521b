-- ===== src/Pipeline/State/Paths.antt =====
-- What the transition table of a candidate allows over any number of steps.
use denyra.Base.{◌≡◌, refl, ◌↔◌, ◌⊎◌, Bool, true, false, List, [], ◌∷◌}
use denyra.Pipeline.State.{
  State, received, release_matching, enriching, approved, arbitration_pending, import_ready,
  import_submitted, import_reconciling, imported, rejected, superseded, cancelled, unmanaged_ready,
  unmanaged_importing, unmanaged_imported, unknown, valid, terminal, can_transition,
}

-- The allowed walks between two states, with the states that they pass through, the last first.
pub data Walk (s : State) : List State → State → Type 0 where
  here : Walk s (s ∷ []) s
  step :
      {t : State} {visited : List State} (u : State)
      → Walk s visited t
      → can_transition t u ≡ true
      → Walk s (u ∷ visited) u

-- A declared state is terminal exactly when no transition leaves it.
pub valid-terminal_iff_stuck :
    (s : State) → valid s ≡ true → (terminal s ≡ true) ↔ ((t : State) → can_transition s t ≡ false)
unfolding valid terminal can_transition
valid-terminal_iff_stuck imported v = (λ h t. refl, λ h. refl)
valid-terminal_iff_stuck unmanaged_imported v = (λ h t. refl, λ h. refl)
valid-terminal_iff_stuck rejected v = (λ h t. refl, λ h. refl)
valid-terminal_iff_stuck superseded v = (λ h t. refl, λ h. refl)
valid-terminal_iff_stuck cancelled v = (λ h t. refl, λ h. refl)
valid-terminal_iff_stuck import_submitted v = (λ h t. cc, λ h. cc (h import_reconciling))
valid-terminal_iff_stuck import_reconciling v = (λ h t. cc, λ h. cc (h imported))
valid-terminal_iff_stuck unmanaged_ready v = (λ h t. cc, λ h. cc (h unmanaged_importing))
valid-terminal_iff_stuck unmanaged_importing v = (λ h t. cc, λ h. cc (h unmanaged_imported))
valid-terminal_iff_stuck (unknown s) v = absurd (cc)
valid-terminal_iff_stuck _ v = (λ h t. cc, λ h. cc (h cancelled))

-- The states in which files may be on their way into the managed library.
abbrev pub is_handing_over : State → Bool
is_handing_over import_submitted = true
is_handing_over import_reconciling = true
is_handing_over imported = true
is_handing_over _ = false

hand_over_step :
    (s t : State) → is_handing_over s ≡ true → can_transition s t ≡ true → is_handing_over t ≡ true
unfolding can_transition
hand_over_step import_submitted import_reconciling h e = refl
hand_over_step import_submitted _ h e = cc
hand_over_step import_reconciling imported h e = refl
hand_over_step import_reconciling import_submitted h e = refl
hand_over_step import_reconciling _ h e = cc
hand_over_step _ t h e = cc

-- Once an import is submitted a candidate can only be submitted again, reconciled and imported:
-- it is never cancelled, superseded, rejected or quarantined.
pub hand_over_final :
    {s t : State} {visited : List State}
    → Walk s visited t
    → is_handing_over s ≡ true
    → is_handing_over t ≡ true
hand_over_final here h = h
hand_over_final (step u w e) h = hand_over_step _ u (hand_over_final w h) e

-- The states behind the approval of a managed release.
abbrev is_behind_approval : State → Bool
is_behind_approval arbitration_pending = true
is_behind_approval import_ready = true
is_behind_approval superseded = true
is_behind_approval s = is_handing_over s

-- A set of states that the first state is not in, and that is entered from one gate only.
record IsGate (gate : State) (P : State → Bool) : Type 0 where
  outside : P received ≡ false
  entry : (s t : State) → can_transition s t ≡ true → P t ≡ true → (s ≡ gate) ⊎ (P s ≡ true)

abbrev is_from_approval : State → Bool
is_from_approval approved = true
is_from_approval s = is_behind_approval s

abbrev is_from_enriching : State → Bool
is_from_enriching enriching = true
is_from_enriching s = is_from_approval s

abbrev is_from_matching : State → Bool
is_from_matching release_matching = true
is_from_matching s = is_from_enriching s

-- No declared state is a dead end that is not terminal: each leads to a terminal state.
Walk-terminal :
    (s : State)
    → valid s ≡ true
    → (t : State) × (visited : List State) × Walk s visited t × (terminal t ≡ true)
unfolding can_transition terminal valid
Walk-terminal imported v = (imported, _, here, refl)
Walk-terminal unmanaged_imported v = (unmanaged_imported, _, here, refl)
Walk-terminal rejected v = (rejected, _, here, refl)
Walk-terminal superseded v = (superseded, _, here, refl)
Walk-terminal cancelled v = (cancelled, _, here, refl)
Walk-terminal import_submitted v =
    (imported, _, step imported (step import_reconciling here refl) refl, refl)
Walk-terminal import_reconciling v = (imported, _, step imported here refl, refl)
Walk-terminal unmanaged_ready v =
    (unmanaged_imported, _, step unmanaged_imported (step unmanaged_importing here refl) refl, refl)
Walk-terminal unmanaged_importing v =
    (unmanaged_imported, _, step unmanaged_imported here refl, refl)
Walk-terminal (unknown s) v = absurd (cc)
Walk-terminal _ v = (cancelled, _, step cancelled here refl, refl)
