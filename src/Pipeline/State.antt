-- ===== src/Pipeline/State.antt =====
-- internal/pipeline/domain/state.go and the table of internal/pipeline/domain/transition.go: the
-- states of a candidate.
pub mod Paths
use denyra.Base.{
  ℕ, Bool, true, false, ◌&&◌, Option, none, some, List, [], ◌∷◌, ◌==◌, leb, if◌then◌else◌, any,
}
use denyra.Base.Text.{Str, codes, same}

-- `unknown` is a string that is none of the constants.
pub data State : Type 0 where
  received claimed stabilizing waiting_resubmit working technical_validation : State
  release_matching review_required enriching approved arbitration_pending import_ready : State
  import_submitted import_reconciling imported quarantined rejected superseded cancelled : State
  unmanaged_review unmanaged_ready unmanaged_importing unmanaged_imported : State
  unknown : Str → State

tag : State → ℕ
tag received = 0
tag claimed = 1
tag stabilizing = 2
tag waiting_resubmit = 3
tag working = 4
tag technical_validation = 5
tag release_matching = 6
tag review_required = 7
tag enriching = 8
tag approved = 9
tag arbitration_pending = 10
tag import_ready = 11
tag import_submitted = 12
tag import_reconciling = 13
tag imported = 14
tag quarantined = 15
tag rejected = 16
tag superseded = 17
tag cancelled = 18
tag unmanaged_review = 19
tag unmanaged_ready = 20
tag unmanaged_importing = 21
tag unmanaged_imported = 22
tag (unknown s) = 23

spelling : State → Str
spelling (unknown s) = s
spelling _ = []

-- `a == b`
unfoldable pub same_state : State → State → Bool
unfolding tag spelling
same_state a b = tag a == tag b && same (spelling a) (spelling b)

-- The map `allStates`, by the constants' strings.
abbrev all_states : List (Str × State)
all_states =
    (codes "RECEIVED", received)
    ∷ (codes "CLAIMED", claimed)
    ∷ (codes "STABILIZING", stabilizing)
    ∷ (codes "WAITING_RESUBMIT", waiting_resubmit)
    ∷ (codes "WORKING", working)
    ∷ (codes "TECHNICAL_VALIDATION", technical_validation)
    ∷ (codes "RELEASE_MATCHING", release_matching)
    ∷ (codes "REVIEW_REQUIRED", review_required)
    ∷ (codes "ENRICHING", enriching)
    ∷ (codes "APPROVED", approved)
    ∷ (codes "ARBITRATION_PENDING", arbitration_pending)
    ∷ (codes "IMPORT_READY", import_ready)
    ∷ (codes "IMPORT_SUBMITTED", import_submitted)
    ∷ (codes "IMPORT_RECONCILING", import_reconciling)
    ∷ (codes "IMPORTED", imported)
    ∷ (codes "QUARANTINED", quarantined)
    ∷ (codes "REJECTED", rejected)
    ∷ (codes "SUPERSEDED", superseded)
    ∷ (codes "CANCELLED", cancelled)
    ∷ (codes "UNMANAGED_REVIEW", unmanaged_review)
    ∷ (codes "UNMANAGED_READY", unmanaged_ready)
    ∷ (codes "UNMANAGED_IMPORTING", unmanaged_importing)
    ∷ (codes "UNMANAGED_IMPORTED", unmanaged_imported)
    ∷ []

find_state : Str → List (Str × State) → Option State
find_state value [] = none
find_state value ((name, s) ∷ rest) = if same name value then some s else find_state value rest

-- `ParseState`
unfoldable pub parse_state : Str → Option State
unfolding find_state
parse_state value = find_state value all_states

-- `State.Valid`
unfoldable pub valid : State → Bool
valid (unknown s) = false
valid _ = true

-- `State.Terminal`
unfoldable pub terminal : State → Bool
terminal imported = true
terminal unmanaged_imported = true
terminal rejected = true
terminal superseded = true
terminal cancelled = true
terminal _ = false

-- The map `allowedTransitions`; a state that is no key has no successors.
unfoldable allowed_transitions : State → List State
allowed_transitions received = claimed ∷ cancelled ∷ []
allowed_transitions claimed = stabilizing ∷ cancelled ∷ []
allowed_transitions stabilizing = working ∷ waiting_resubmit ∷ quarantined ∷ cancelled ∷ []
allowed_transitions waiting_resubmit = received ∷ cancelled ∷ []
allowed_transitions working = technical_validation ∷ quarantined ∷ cancelled ∷ []
allowed_transitions technical_validation =
    release_matching ∷ quarantined ∷ rejected ∷ cancelled ∷ []
allowed_transitions release_matching =
    review_required ∷ enriching ∷ unmanaged_review ∷ unmanaged_ready ∷ quarantined ∷ rejected
    ∷ cancelled ∷ []
allowed_transitions review_required = working ∷ rejected ∷ cancelled ∷ []
allowed_transitions enriching = approved ∷ quarantined ∷ cancelled ∷ []
allowed_transitions approved = arbitration_pending ∷ import_ready ∷ superseded ∷ cancelled ∷ []
allowed_transitions arbitration_pending = import_ready ∷ superseded ∷ cancelled ∷ []
allowed_transitions import_ready = import_submitted ∷ superseded ∷ cancelled ∷ []
allowed_transitions import_submitted = import_reconciling ∷ []
allowed_transitions import_reconciling = imported ∷ import_submitted ∷ []
allowed_transitions quarantined = working ∷ review_required ∷ rejected ∷ cancelled ∷ []
allowed_transitions unmanaged_review = unmanaged_ready ∷ rejected ∷ cancelled ∷ []
allowed_transitions unmanaged_ready = unmanaged_importing ∷ []
allowed_transitions unmanaged_importing = unmanaged_imported ∷ unmanaged_review ∷ []
allowed_transitions _ = []

-- `CanTransition`
unfoldable pub can_transition : State → State → Bool
unfolding allowed_transitions same_state
can_transition from to = any (same_state to) (allowed_transitions from)
