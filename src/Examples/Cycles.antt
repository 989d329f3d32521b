-- ===== src/Examples/Cycles.antt =====
-- Runs of internal/gateway/persistence/wanted_cycles.go: album 7 is no longer wanted, album 8 is.
use denyra.Base.Decimal.{decimal}
use denyra.Base.Decimal.{padded}
use denyra.Base.Sort.{insert}
use denyra.Base.TimeText.{format_time}
use denyra.Base.Table.{find}
use denyra.Gateway.WantedCycles.{read_before}
use denyra.Base.Sort.{sort_stable}
use denyra.Gateway.JobStore.{is_parsable}
use denyra.Base.{◌≡◌, refl, true, none, some, List, [], ◌∷◌, All, ok}
use denyra.Base.Int.{ℤ, pos}
use denyra.Base.Text.{Str, codes}
use denyra.Base.Time.{at_instant}
use denyra.Gateway.State.{
  same_state, transitions, terminal, can_transition, State, primary_active, discovered, cancelled,
}
use denyra.Gateway.Job.{Job, Transition}
use denyra.Gateway.JobStore.{has_revision, update_row, update_rows, Row, Store, WantedCycle}
use denyra.Gateway.JobStore.Agreement.{IsConsistent}
use denyra.Gateway.WantedCycles.{
  reconcile_groups, keys_of, reconcile_group, leave_items, group_of, leave_item, cancel_job,
  keep_items, cancel_event, cancelled_row, coalesce, is_taken, keeper, open_cycle, WantedKey,
  CycleJob, wanted_cycle_jobs, reconcile_wanted_cycles,
}
use denyra.Gateway.WantedCycles.Consistency.{reconcile-IsConsistent}
use denyra.Gateway.WantedCycles.Cycles.{IsClosed}
use denyra.Gateway.WantedCycles.Closing.{IsLeft, reconcile-IsClosed}

abbrev job_of : Str → ℤ → State → Job
job_of id album state = record {
  id = id;
  lidarr_album_id = album;
  release_group_mbid = codes "group";
  selected_release_mbid = codes "release";
  selected_release_revision = 1;
  state = state;
  revision = 0;
  primary_attempt = pos 1;
  fallback_attempt = pos 0;
  config_snapshot_id = codes "config";
  next_retry_at = none;
  overall_deadline = none;
  created_at = at_instant 5;
  updated_at = at_instant 5;
}

abbrev row_of : Job → Row
row_of job = record {
  job = job;
  queue_watermark = none;
  history_watermark = none;
  command_id = none;
  correlation_started_at = none;
  command_deadline = none;
  grace_deadline = none;
}

abbrev cycle_of : Str → ℤ → WantedCycle
cycle_of id album = record {
  job_id = id;
  lidarr_album_id = album;
  release_group_mbid = codes "group";
  opened_at = at_instant 5;
  closed_at = none;
}

abbrev event_of : Str → State → Transition
event_of id state = record {
  job_id = id;
  actor = codes "worker";
  reason = codes "search";
  previous = state;
  next = state;
  previous_revision = 0;
  revision = 0;
  occurred_at = at_instant 5;
}

abbrev open_cycles : Store
open_cycles = record {
  jobs =
      row_of (job_of (codes "one") (pos 7) primary_active)
      ∷ row_of (job_of (codes "two") (pos 8) discovered)
      ∷ [];
  wanted_cycles = cycle_of (codes "one") (pos 7) ∷ cycle_of (codes "two") (pos 8) ∷ [];
  state_transitions = event_of (codes "one") primary_active ∷ [];
}

abbrev wanted : List WantedKey
wanted = (record { album_id = pos 8; release_group_mbid = codes "group" }) ∷ []

abbrev read_jobs : List CycleJob
read_jobs =
    (record {
      id = codes "one";
      album_id = pos 7;
      release_group_mbid = codes "group";
      state = primary_active;
      revision = 0;
      has_cycle = true;
      cycle_open = true;
    })
    ∷ (record {
      id = codes "two";
      album_id = pos 8;
      release_group_mbid = codes "group";
      state = discovered;
      revision = 0;
      has_cycle = true;
      cycle_open = true;
    })
    ∷ []

are_read : wanted_cycle_jobs open_cycles ≡ ok read_jobs
unfolding wanted_cycle_jobs is_parsable sort_stable read_before find
are_read = refl

abbrev reconciled : Store
reconciled = record open_cycles {
  jobs =
      row_of (record (job_of (codes "one") (pos 7) cancelled) {
        revision = 1;
        updated_at = at_instant 9;
      })
      ∷ row_of (job_of (codes "two") (pos 8) discovered)
      ∷ [];
  wanted_cycles =
      record (cycle_of (codes "one") (pos 7)) { closed_at = some (at_instant 9) }
      ∷ cycle_of (codes "two") (pos 8)
      ∷ [];
  state_transitions =
      (record {
        job_id = codes "one";
        actor = codes "gateway-wanted-reconciliation";
        reason = codes "target left Lidarr Wanted/Missing";
        previous = primary_active;
        next = cancelled;
        previous_revision = 0;
        revision = 1;
        occurred_at = at_instant 9;
      })
      ∷ event_of (codes "one") primary_active
      ∷ [];
}

abbrev as_listed : List WantedKey → List WantedKey
as_listed keys = keys

are_reconciled :
    reconcile_wanted_cycles as_listed wanted (at_instant 9) open_cycles ≡ ok (reconciled, 1)
unfolding reconcile_wanted_cycles wanted_cycle_jobs is_parsable reconcile_groups keys_of insert
    sort_stable read_before reconcile_group leave_items group_of leave_item find terminal
    can_transition cancel_job has_revision keep_items decimal padded format_time update_row
    update_rows same_state transitions cancel_event cancelled_row coalesce is_taken keeper
    open_cycle
are_reconciled = refl

open_cycles-IsConsistent : IsConsistent open_cycles
open_cycles-IsConsistent = ((refl, (refl, tt)), ((refl, refl), ((refl, refl), tt)))

reconcile-IsConsistent_example : IsConsistent reconciled
reconcile-IsConsistent_example =
    reconcile-IsConsistent as_listed wanted (at_instant 9) open_cycles reconciled 1 are_reconciled
      open_cycles-IsConsistent

reconcile-IsClosed_example :
    All (λ item. IsLeft wanted item → IsClosed item.id reconciled) read_jobs
reconcile-IsClosed_example =
    reconcile-IsClosed as_listed wanted (at_instant 9) open_cycles reconciled read_jobs 1
      (λ key keys h. h) are_read are_reconciled
