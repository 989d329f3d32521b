-- ===== src/Pipeline/Migration/Resuming.antt =====
-- A migration that failed goes on where it failed.
use denyra.Base.{
  ◌≡◌, refl, true, false, Option, none, some, arith, ok, guard-ok, negated, ok-injective, subst, ap,
  ◌∙◌,
}
use denyra.Base.Text.{same_iff}
use denyra.Base.Time.{Time}
use denyra.Pipeline.Migration.{
  MigrationState, check_pending, checking, confirmed, lidarr_catalog_ready, reconciling,
  failed_retryable, unknown, same_state, allowed_between, resume_between, MigrationItem,
  allowed_migration_transition, moved_to, transition_migration,
}

-- The states that a migration can fail in.
abbrev CanFail : MigrationState → Type 0
CanFail checking = Unit
CanFail confirmed = Unit
CanFail lidarr_catalog_ready = Unit
CanFail reconciling = Unit
CanFail _ = ⊥

-- A failed item remembers a state that can fail, and any other item remembers none.
abbrev pub Remembers : MigrationState → Option MigrationState → Type 0
Remembers failed_retryable none = ⊥
Remembers failed_retryable (some r) = CanFail r
Remembers s r = r ≡ none

abbrev pub IsWellFormed : MigrationItem → Type 0
IsWellFormed item = Remembers item.state item.resume_state

same_state-eq : (a b : MigrationState) → same_state a b ≡ true → a ≡ b
unfolding same_state
same_state-eq (unknown s) (unknown t) h = ap unknown ((same_iff s t).0 (ground arith))
same_state-eq a b h = ground arith

Remembers-step :
    (s : MigrationState) (r : Option MigrationState) (to : MigrationState)
    → Remembers s r
    → allowed_between s r to ≡ true
    → Remembers to (resume_between s r to)
unfolding allowed_between resume_between
Remembers-step failed_retryable none to w h = absurd w
Remembers-step failed_retryable (some checking) to w h = ground arith
Remembers-step failed_retryable (some confirmed) to w h = ground arith
Remembers-step failed_retryable (some lidarr_catalog_ready) to w h = ground arith
Remembers-step failed_retryable (some reconciling) to w h = ground arith
Remembers-step failed_retryable (some _) to w h = absurd w
Remembers-step s r failed_retryable w h = ground arith
Remembers-step s r to w h = ground arith

transition_made :
    (item : MigrationItem) (to : MigrationState) (at : Time) {item' : MigrationItem}
    → transition_migration item to at ≡ ok item'
    → (allowed_migration_transition item to ≡ true) × (moved_to item to at ≡ item')
unfolding transition_migration
transition_made item to at h =
    let (_, h₁) = guard-ok _ _ _ h in
    let (allowed, made) = guard-ok _ _ _ h₁ in (negated _ allowed, ok-injective made)

-- What a transition that is made reads and writes of the state and the resume state.
pub record IsStep (item : MigrationItem) (to : MigrationState) (item' : MigrationItem)
    : Type 0 where
  pub allowed : allowed_between item.state item.resume_state to ≡ true
  pub state : item'.state ≡ to
  pub resume : item'.resume_state ≡ resume_between item.state item.resume_state to

pub transition-IsStep :
    (item : MigrationItem) (to : MigrationState) (at : Time) {item' : MigrationItem}
    → transition_migration item to at ≡ ok item'
    → IsStep item to item'
transition-IsStep item to at h =
    let (allowed, made) = transition_made item to at h in
    subst (IsStep item to) made (
      unfold allowed_migration_transition moved_to in
      record { allowed = allowed; state = refl; resume = refl })

-- Every transition keeps the resume state of a well-formed item in step with its state: it is
-- set, to a state that can fail, exactly while the item has failed.
pub transition_migration-IsWellFormed :
    (item : MigrationItem) (to : MigrationState) (at : Time) {item' : MigrationItem}
    → IsWellFormed item
    → transition_migration item to at ≡ ok item'
    → IsWellFormed item'
transition_migration-IsWellFormed item to at w h =
    let s : IsStep item to _ = transition-IsStep item to at h in
    rw (s.state, s.resume) (Remembers-step item.state item.resume_state to w s.allowed)

same_state_refl : (s : MigrationState) → same_state s s ≡ true
unfolding same_state
same_state_refl (unknown s) = ground (arith, (same_iff s s).1 refl)
same_state_refl check_pending = refl
same_state_refl _ = refl

resume_allowed :
    (item item' : MigrationItem) (to : MigrationState)
    → item'.state ≡ failed_retryable
    → item'.resume_state ≡ some item.state
    → allowed_migration_transition item' to ≡ same_state to item.state
unfolding allowed_migration_transition
resume_allowed item item' to s r = rw (s, r) refl

fail_resume :
    (item : MigrationItem)
    → resume_between item.state item.resume_state failed_retryable ≡ some item.state
unfolding resume_between
fail_resume item = refl

resume_clears :
    (s t : MigrationState)
    → same_state t failed_retryable ≡ false
    → resume_between failed_retryable (some s) t ≡ none
unfolding resume_between
resume_clears s t h = ground arith

fail_from :
    (s : MigrationState) (r : Option MigrationState)
    → Remembers s r
    → allowed_between s r failed_retryable ≡ true
    → (same_state s failed_retryable ≡ false) × (r ≡ none)
unfolding allowed_between
fail_from failed_retryable (some checking) w h = absurd (cc)
fail_from failed_retryable (some confirmed) w h = absurd (cc)
fail_from failed_retryable (some lidarr_catalog_ready) w h = absurd (cc)
fail_from failed_retryable (some reconciling) w h = absurd (cc)
fail_from failed_retryable (some _) w h = absurd w
fail_from failed_retryable none w h = absurd w
fail_from s r w h = ground arith

-- A failed migration can only go back to the state that it failed in, and doing so restores that
-- state with no resume state: a retry neither skips nor repeats another step.
pub fail_then_resume :
    (item : MigrationItem) (at at' : Time) {failed resumed : MigrationItem}
    → IsWellFormed item
    → transition_migration item failed_retryable at ≡ ok failed
    → transition_migration failed item.state at' ≡ ok resumed
    → ((to : MigrationState) → allowed_migration_transition failed to ≡ same_state to item.state)
      × (resumed.state ≡ item.state)
      × (resumed.resume_state ≡ item.resume_state)
fail_then_resume item at at' {failed} {resumed} w h k =
    let f : IsStep item failed_retryable failed = transition-IsStep item failed_retryable at h in
    let remembered : failed.resume_state ≡ some item.state = f.resume ∙ fail_resume item in
    let (alive, empty) = fail_from item.state item.resume_state w f.allowed in
    let s : IsStep failed item.state resumed = transition-IsStep failed item.state at' k in
    (
      λ to. resume_allowed item failed to f.state remembered,
      s.state,
      s.resume ∙ rw (f.state, remembered, empty) (resume_clears item.state item.state alive),
    )
