-- ===== src/Gateway/State.antt =====
-- internal/gateway/domain/state.go: the states of an acquisition job and its transition table.
pub mod Paths
use denyra.Base.{
  ℕ, Bool, true, false, ◌&&◌, ◌||◌, Option, none, some, List, [], ◌∷◌, ◌==◌, if◌then◌else◌, any,
}
use denyra.Base.Text.{Str, codes, same}

-- `unknown` is a string that is none of the constants.
pub data State : Type 0 where
  discovered primary_search_requested primary_search_running primary_reconciling : State
  primary_active primary_retryable_error fallback_running fallback_retryable_error : State
  no_candidate dual_candidate arbitrating winner_locked handed_off cancelled : State
  unknown : Str → State

tag : State → ℕ
tag discovered = 0
tag primary_search_requested = 1
tag primary_search_running = 2
tag primary_reconciling = 3
tag primary_active = 4
tag primary_retryable_error = 5
tag fallback_running = 6
tag fallback_retryable_error = 7
tag no_candidate = 8
tag dual_candidate = 9
tag arbitrating = 10
tag winner_locked = 11
tag handed_off = 12
tag cancelled = 13
tag (unknown s) = 14

spelling : State → Str
spelling (unknown s) = s
spelling _ = []

-- `a == b`
unfoldable pub same_state : State → State → Bool
unfolding tag spelling
same_state a b = tag a == tag b && same (spelling a) (spelling b)

-- The map `states`, by the constants' strings.
abbrev pub states : List (Str × State)
states =
    (codes "DISCOVERED", discovered)
    ∷ (codes "PRIMARY_SEARCH_REQUESTED", primary_search_requested)
    ∷ (codes "PRIMARY_SEARCH_RUNNING", primary_search_running)
    ∷ (codes "PRIMARY_RECONCILING", primary_reconciling)
    ∷ (codes "PRIMARY_ACTIVE", primary_active)
    ∷ (codes "PRIMARY_RETRYABLE_ERROR", primary_retryable_error)
    ∷ (codes "FALLBACK_RUNNING", fallback_running)
    ∷ (codes "FALLBACK_RETRYABLE_ERROR", fallback_retryable_error)
    ∷ (codes "NO_CANDIDATE", no_candidate)
    ∷ (codes "DUAL_CANDIDATE", dual_candidate)
    ∷ (codes "ARBITRATING", arbitrating)
    ∷ (codes "WINNER_LOCKED", winner_locked)
    ∷ (codes "HANDED_OFF", handed_off)
    ∷ (codes "CANCELLED", cancelled)
    ∷ []

find_state : Str → List (Str × State) → Option State
find_state value [] = none
find_state value ((name, s) ∷ rest) = if same name value then some s else find_state value rest

-- `ParseState`
unfoldable pub parse_state : Str → Option State
unfolding find_state
parse_state value = find_state value states

-- `State.Terminal`
unfoldable pub terminal : State → Bool
unfolding same_state
terminal s = same_state s handed_off || same_state s cancelled

-- The map `transitions`; a state that is no key has no successors.
unfoldable pub transitions : State → List State
transitions discovered = primary_search_requested ∷ cancelled ∷ []
transitions primary_search_requested =
    primary_search_running ∷ primary_active ∷ primary_retryable_error ∷ cancelled ∷ []
transitions primary_search_running = primary_reconciling ∷ primary_retryable_error ∷ cancelled ∷ []
transitions primary_reconciling =
    primary_active ∷ fallback_running ∷ primary_retryable_error ∷ cancelled ∷ []
transitions primary_active = dual_candidate ∷ arbitrating ∷ handed_off ∷ cancelled ∷ []
transitions primary_retryable_error = primary_search_requested ∷ cancelled ∷ []
transitions fallback_running =
    primary_active ∷ primary_retryable_error ∷ dual_candidate ∷ arbitrating
    ∷ fallback_retryable_error ∷ no_candidate ∷ cancelled ∷ []
transitions fallback_retryable_error =
    fallback_running ∷ primary_retryable_error ∷ primary_search_requested ∷ primary_active
    ∷ cancelled ∷ []
transitions no_candidate = primary_search_requested ∷ primary_active ∷ cancelled ∷ []
transitions dual_candidate = arbitrating ∷ cancelled ∷ []
transitions arbitrating = dual_candidate ∷ winner_locked ∷ cancelled ∷ []
transitions winner_locked = handed_off ∷ []
transitions _ = []

-- `CanTransition`
unfoldable pub can_transition : State → State → Bool
unfolding transitions same_state
can_transition from to = any (same_state to) (transitions from)
