-- ===== src/Pipeline/Migration.antt =====
-- internal/pipeline/domain/migration.go: the move of an unmanaged album into the managed library.
pub mod Resuming
pub mod Confirmation
use denyra.Base.{
  ℕ, ◌+◌, ◌%◌, ◌^◌, Bool, true, false, not, ◌&&◌, ◌||◌, Option, none, some, List, [], ◌∷◌, ◌==◌,
  if◌then◌else◌, Result, ok, err, ◌>>=◌, ◌>>◌, reject_if,
}
use denyra.Base.Text.{Str, same, is_empty}
use denyra.Base.Time.{Time, utc}

-- `unknown` is a string that is none of the constants, nor empty.
pub data MigrationState : Type 0 where
  check_pending checking no_match ambiguous exact_match confirmed lidarr_catalog_ready :
      MigrationState
  import_submitted reconciling migrated failed_retryable : MigrationState
  unknown : Str → MigrationState

tag : MigrationState → ℕ
tag check_pending = 0
tag checking = 1
tag no_match = 2
tag ambiguous = 3
tag exact_match = 4
tag confirmed = 5
tag lidarr_catalog_ready = 6
tag import_submitted = 7
tag reconciling = 8
tag migrated = 9
tag failed_retryable = 10
tag (unknown s) = 11

spelling : MigrationState → Str
spelling (unknown s) = s
spelling _ = []

-- `a == b`
unfoldable pub same_state : MigrationState → MigrationState → Bool
unfolding tag spelling
same_state a b = tag a == tag b && same (spelling a) (spelling b)

-- The resume state is none where the source has the empty string.
pub record MigrationItem : Type 0 where
  pub id : Str
  pub batch_id : Str
  pub unmanaged_candidate_id : Str
  pub state : MigrationState
  pub state_revision : ℕ  -- uint64
  pub resume_state : Option MigrationState
  pub approved_release_mbid : Str
  pub request_evidence : Str
  pub response_evidence : Str
  pub migration_evidence : Str
  pub idempotency_key : Str
  pub created_at : Time
  pub updated_at : Time

pub data Error : Type 0 where
  id_required : Error
  invalid_transition : MigrationState → MigrationState → Error

-- The switch of `allowedMigrationTransition`.
allowed_from : MigrationState → MigrationState → Bool
unfolding same_state
allowed_from check_pending to = same_state to checking
allowed_from checking to =
    same_state to no_match
    || same_state to ambiguous
    || same_state to exact_match
    || same_state to failed_retryable
allowed_from exact_match to = same_state to confirmed
allowed_from confirmed to = same_state to lidarr_catalog_ready || same_state to failed_retryable
allowed_from lidarr_catalog_ready to =
    same_state to import_submitted || same_state to failed_retryable
allowed_from import_submitted to = same_state to reconciling
allowed_from reconciling to = same_state to migrated || same_state to failed_retryable
allowed_from _ to = false

-- `item.ResumeState != "" && to == item.ResumeState`
resumes : Option MigrationState → MigrationState → Bool
resumes none to = false
resumes (some s) to = same_state to s

-- `allowedMigrationTransition`, by the item's state and resume state.
unfoldable pub allowed_between : MigrationState → Option MigrationState → MigrationState → Bool
unfolding allowed_from resumes same_state
allowed_between state resume to =
    if same_state state failed_retryable then resumes resume to else allowed_from state to

unfoldable pub allowed_migration_transition : MigrationItem → MigrationState → Bool
unfolding allowed_between
allowed_migration_transition item to = allowed_between item.state item.resume_state to

-- The resume state that `TransitionMigration` sets.
unfoldable pub resume_between :
    MigrationState → Option MigrationState → MigrationState → Option MigrationState
unfolding same_state
resume_between state resume to =
    if same_state to failed_retryable
    then some state
    else if same_state state failed_retryable
    then none
    else resume

-- `revision + 1` on a uint64
abbrev pub bump : ℕ → ℕ
bump n = (n + 1) % 2 ^ 64

-- The item that `TransitionMigration` returns when it allows the transition.
unfoldable pub moved_to : MigrationItem → MigrationState → Time → MigrationItem
unfolding resume_between
moved_to item to at = record item {
  resume_state = resume_between item.state item.resume_state to;
  state = to;
  state_revision = bump item.state_revision;
  updated_at = utc at;
}

-- `TransitionMigration`; with an error the source returns the item as it was.
unfoldable pub transition_migration :
    MigrationItem → MigrationState → Time → Result Error MigrationItem
transition_migration item to at = do
  reject_if (is_empty item.id) id_required
  reject_if (not (allowed_migration_transition item to)) (invalid_transition item.state to)
  ok (moved_to item to at)

-- `MigrationState.CheckTerminal`
unfoldable check_terminal : MigrationState → Bool
unfolding same_state
check_terminal s = same_state s no_match || same_state s ambiguous || same_state s exact_match
