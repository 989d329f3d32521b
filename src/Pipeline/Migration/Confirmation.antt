-- ===== src/Pipeline/Migration/Confirmation.antt =====
-- No album is moved without a catalogue match and a confirmation.
use mathlib.Core.List.{Memᴰ}
use denyra.Base.{
  ◌≡◌, refl, ◌⊎◌, inl, inr, Bool, true, false, Option, none, some, List, [], ◌∷◌, arith, ok, subst,
}
use denyra.Base.Time.{Time}
use denyra.Pipeline.Migration.{
  MigrationState, check_pending, checking, exact_match, confirmed, lidarr_catalog_ready,
  import_submitted, reconciling, migrated, failed_retryable, allowed_between, resume_between,
  MigrationItem, transition_migration,
}
use denyra.Pipeline.Migration.Resuming.{
  Remembers, IsWellFormed, IsStep, transition-IsStep, transition_migration-IsWellFormed,
}

-- What has happened to a migration since it was queued: the states it was in, the last first.
pub data History : List MigrationState → MigrationItem → Type 0 where
  queued :
      (item : MigrationItem)
      → item.state ≡ check_pending
      → item.resume_state ≡ none
      → History (check_pending ∷ []) item
  moved :
      {visited : List MigrationState} {item : MigrationItem} (to : MigrationState) (at : Time)
      (item' : MigrationItem)
      → History visited item
      → transition_migration item to at ≡ ok item'
      → History (to ∷ visited) item'

-- The states in which the album's files may have left the unmanaged library.
abbrev is_moving : MigrationState → Bool
is_moving lidarr_catalog_ready = true
is_moving import_submitted = true
is_moving reconciling = true
is_moving migrated = true
is_moving _ = false

-- The same of the state, or of the state to resume.
abbrev is_under_way : MigrationState → Option MigrationState → Bool
is_under_way failed_retryable (some r) = is_moving r
is_under_way s r = is_moving s

abbrev is_confirmed : MigrationState → Option MigrationState → Bool
is_confirmed confirmed r = true
is_confirmed failed_retryable (some confirmed) = true
is_confirmed s r = is_under_way s r

under_way_entry :
    (s : MigrationState) (r : Option MigrationState) (to : MigrationState)
    → Remembers s r
    → allowed_between s r to ≡ true
    → is_under_way to (resume_between s r to) ≡ true
    → (s ≡ confirmed) ⊎ (is_under_way s r ≡ true)
unfolding allowed_between resume_between
under_way_entry confirmed r to w h u = inl refl
under_way_entry failed_retryable none to w h u = absurd w
under_way_entry failed_retryable (some checking) to w h u = ground arith
under_way_entry failed_retryable (some confirmed) to w h u = ground arith
under_way_entry failed_retryable (some lidarr_catalog_ready) to w h u = ground arith
under_way_entry failed_retryable (some reconciling) to w h u = ground arith
under_way_entry failed_retryable (some _) to w h u = absurd w
under_way_entry s r to w h u = ground arith

confirmed_entry :
    (s : MigrationState) (r : Option MigrationState) (to : MigrationState)
    → Remembers s r
    → allowed_between s r to ≡ true
    → is_confirmed to (resume_between s r to) ≡ true
    → (s ≡ exact_match) ⊎ (is_confirmed s r ≡ true)
unfolding allowed_between resume_between
confirmed_entry exact_match r to w h u = inl refl
confirmed_entry failed_retryable none to w h u = absurd w
confirmed_entry failed_retryable (some checking) to w h u = ground arith
confirmed_entry failed_retryable (some confirmed) to w h u = ground arith
confirmed_entry failed_retryable (some lidarr_catalog_ready) to w h u = ground arith
confirmed_entry failed_retryable (some reconciling) to w h u = ground arith
confirmed_entry failed_retryable (some _) to w h u = absurd w
confirmed_entry s r to w h u = ground arith

History-IsWellFormed :
    {visited : List MigrationState} {item : MigrationItem}
    → History visited item
    → IsWellFormed item
History-IsWellFormed (queued item s r) = rw (s, r) refl
History-IsWellFormed (moved {item = item} to at item' h t) =
    transition_migration-IsWellFormed item to at (History-IsWellFormed h) t

last_visited :
    (visited : List MigrationState) (item : MigrationItem)
    → History visited item
    → Memᴰ item.state visited
last_visited _ item (queued _ s r) = Memᴰ.head s
last_visited _ item' (moved {item = item} to at _ h t) =
    Memᴰ.head (transition-IsStep item to at t).state

-- A property of state and resume state that is entered from one state only.
module _ {gate : MigrationState} (P : MigrationState → Option MigrationState → Bool)
    (outside : P check_pending none ≡ false)
    (entry : (s : MigrationState) (r : Option MigrationState) (to : MigrationState)
      → Remembers s r
      → allowed_between s r to ≡ true
      → P to (resume_between s r to) ≡ true
      → (s ≡ gate) ⊎ (P s r ≡ true)) where
  history_through :
      (visited : List MigrationState) (item : MigrationItem)
      → History visited item
      → P item.state item.resume_state ≡ true
      → Memᴰ gate visited
  history_through _ _ (queued item s r) u = absurd (cc (s, r, u, outside))
  history_through _ _ (moved {visited = before} {item = item} to at item' h t) u =
      let s : IsStep item to item' = transition-IsStep item to at t in
      elim (entry item.state item.resume_state to (History-IsWellFormed h) s.allowed
        (rw (s.state, s.resume) at u)) [
          | inl g ↦ Memᴰ.tail (subst (λ x. Memᴰ x before) g (last_visited before item h))
          | inr p ↦ Memᴰ.tail (history_through before item h p)
        ]

is_confirmed_of_under_way :
    (s : MigrationState) (r : Option MigrationState)
    → is_under_way s r ≡ true
    → is_confirmed s r ≡ true
is_confirmed_of_under_way s r h = ground arith

-- An album is on its way into the managed library, or there, or stopped by a failure on that way,
-- only if its migration has been in EXACT_MATCH and in CONFIRMED, whatever failures and retries
-- came between.
pub moving_needs_confirmation :
    {visited : List MigrationState} {item : MigrationItem}
    → History visited item
    → is_under_way item.state item.resume_state ≡ true
    → Memᴰ exact_match visited × Memᴰ confirmed visited
moving_needs_confirmation {visited} {item} h u = (
  history_through is_confirmed refl confirmed_entry visited item h
      (is_confirmed_of_under_way item.state item.resume_state u),
  history_through is_under_way refl under_way_entry visited item h u,
)
