-- ===== src/Examples/Migrations.antt =====
-- Runs of internal/pipeline/domain/migration.go.
use denyra.Pipeline.Migration.{moved_to}
use mathlib.Core.List.{Memᴰ}
use denyra.Base.{◌≡◌, refl, ◌+◌, none, some, List, [], ◌∷◌, ok, err}
use denyra.Base.Text.{codes}
use denyra.Base.Time.{at_instant}
use denyra.Pipeline.Migration.{
  MigrationState, MigrationItem, check_pending, checking, exact_match, confirmed,
  lidarr_catalog_ready, failed_retryable, migrated, same_state, allowed_migration_transition,
  transition_migration, invalid_transition,
}
use denyra.Pipeline.Migration.Resuming.{
  IsWellFormed, transition_migration-IsWellFormed, fail_then_resume,
}
use denyra.Pipeline.Migration.Confirmation.{History, queued, moved, moving_needs_confirmation}

abbrev at_state : MigrationState → MigrationItem
at_state s = record {
  id = codes "m";
  batch_id = codes "batch";
  unmanaged_candidate_id = codes "c";
  state = s;
  state_revision = 1;
  resume_state = none;
  approved_release_mbid = [];
  request_evidence = [];
  response_evidence = [];
  migration_evidence = [];
  idempotency_key = codes "key";
  created_at = at_instant 5;
  updated_at = at_instant 5;
}

abbrev moved_on : MigrationItem → MigrationState → MigrationItem
moved_on item s = record item {
  state = s;
  state_revision = item.state_revision + 1;
  updated_at = at_instant 6;
}

abbrev at_confirmed : MigrationItem
at_confirmed = at_state confirmed

abbrev failed : MigrationItem
failed = record (moved_on at_confirmed failed_retryable) { resume_state = some confirmed }

abbrev resumed : MigrationItem
resumed = record (moved_on failed confirmed) { resume_state = none }

fails : transition_migration at_confirmed failed_retryable (at_instant 6) ≡ ok failed
unfolding transition_migration allowed_migration_transition moved_to
fails = refl

resumes_again : transition_migration failed confirmed (at_instant 6) ≡ ok resumed
unfolding transition_migration allowed_migration_transition moved_to
resumes_again = refl

skip_refused :
    transition_migration failed migrated (at_instant 6)
    ≡ err (invalid_transition failed_retryable migrated)
unfolding transition_migration allowed_migration_transition
skip_refused = refl

transition_migration-IsWellFormed_example : IsWellFormed failed
transition_migration-IsWellFormed_example =
    transition_migration-IsWellFormed at_confirmed failed_retryable (at_instant 6) refl fails

fail_then_resume_example :
    ((to : MigrationState) → allowed_migration_transition failed to ≡ same_state to confirmed)
    × (resumed.state ≡ confirmed)
    × (resumed.resume_state ≡ none)
fail_then_resume_example =
    fail_then_resume at_confirmed (at_instant 6) (at_instant 6) {failed = failed}
      {resumed = resumed} refl fails resumes_again

abbrev start : MigrationItem
start = at_state check_pending

abbrev second : MigrationItem
second = moved_on start checking

abbrev third : MigrationItem
third = moved_on second exact_match

abbrev fourth : MigrationItem
fourth = moved_on third confirmed

abbrev fifth : MigrationItem
fifth = moved_on fourth lidarr_catalog_ready

to_second : transition_migration start checking (at_instant 6) ≡ ok second
unfolding transition_migration allowed_migration_transition moved_to
to_second = refl

to_third : transition_migration second exact_match (at_instant 6) ≡ ok third
unfolding transition_migration allowed_migration_transition moved_to
to_third = refl

to_fourth : transition_migration third confirmed (at_instant 6) ≡ ok fourth
unfolding transition_migration allowed_migration_transition moved_to
to_fourth = refl

to_fifth : transition_migration fourth lidarr_catalog_ready (at_instant 6) ≡ ok fifth
unfolding transition_migration allowed_migration_transition moved_to
to_fifth = refl

abbrev states_to_catalog : List MigrationState
states_to_catalog = lidarr_catalog_ready ∷ confirmed ∷ exact_match ∷ checking ∷ check_pending ∷ []

History-to_catalog : History states_to_catalog fifth
History-to_catalog =
    moved lidarr_catalog_ready (at_instant 6) fifth
      (moved confirmed (at_instant 6) fourth
        (moved exact_match (at_instant 6) third
          (moved checking (at_instant 6) second (queued start refl refl) to_second) to_third)
        to_fourth)
      to_fifth

moving_needs_confirmation_example :
    Memᴰ exact_match states_to_catalog × Memᴰ confirmed states_to_catalog
moving_needs_confirmation_example = moving_needs_confirmation History-to_catalog refl
