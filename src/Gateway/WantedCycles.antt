-- ===== src/Gateway/WantedCycles.antt =====
-- internal/gateway/persistence/wanted_cycles.go: ReconcileWantedCycles, one transaction on the
-- tables of jobs, wanted cycles and transitions. Go leaves the order in which a map is gone through
-- open: `order` puts the keys of the groups in that order.
pub mod Steps
pub mod Consistency
pub mod Cycles
pub mod Keys
pub mod Closing
use denyra.Base.{
  ℕ, zero, suc, ◌+◌, Bool, true, false, not, ◌&&◌, ◌||◌, Option, none, some, List, [], ◌∷◌, ◌==◌,
  if◌then◌else◌, any, map, keep, Result, ok, err, ◌>>=◌, ◌>>◌, reject_if,
}
use denyra.Base.Int.{ℤ, pos, ltb_ℤ, leb_ℤ, same_ℤ}
use denyra.Base.Text.{Str, codes, same, str_ltb}
use denyra.Base.Table as Table
use denyra.Base.Time.{Time, utc}
use denyra.Base.TimeText.{format_time}
use denyra.Base.Sort.{sort_stable}
use denyra.Gateway.State.{State, cancelled, handed_off, terminal, same_state, can_transition}
use denyra.Gateway.Job as Job
use denyra.Gateway.Job.{Transition, bump}
use denyra.Gateway.JobStore.{
  Row, WantedCycle, Store, Error, unparsable_state, constraint_failed, job_error, row_id,
  has_revision, is_parsable, is_null,
}
use denyra.Gateway.JobStore.Updates.{commit}

pub record WantedKey : Type 0 where
  pub album_id : ℤ
  pub release_group_mbid : Str

-- `wantedCycleJob`
pub record CycleJob : Type 0 where
  pub id : Str
  pub album_id : ℤ
  pub release_group_mbid : Str
  pub state : State
  pub revision : ℕ
  pub has_cycle : Bool
  pub cycle_open : Bool

abbrev pub key_of : CycleJob → WantedKey
key_of item = record { album_id = item.album_id; release_group_mbid = item.release_group_mbid }

abbrev pub same_key : WantedKey → WantedKey → Bool
same_key a b = same_ℤ a.album_id b.album_id && same a.release_group_mbid b.release_group_mbid

abbrev pub find_cycle : Str → List WantedCycle → Option WantedCycle
find_cycle id cycles = Table.find (λ c. c.job_id) id cycles

-- A row of the query, with the cycle that is joined.
abbrev pub with_cycle : Row → Option WantedCycle → CycleJob
with_cycle r cycle = record {
  id = r.job.id;
  album_id = r.job.lidarr_album_id;
  release_group_mbid = r.job.release_group_mbid;
  state = r.job.state;
  revision = r.job.revision;
  has_cycle = elim cycle [ none ↦ false | some c ↦ true ];
  cycle_open = elim cycle [ none ↦ false | some c ↦ is_null c.closed_at ];
}

-- `ORDER BY`: the album, the release group, handed-off jobs first, the text of the time and the id.
unfoldable pub read_before : Row → Row → Bool
read_before a b =
    let s = format_time a.job.created_at in
    let t = format_time b.job.created_at in
    let first = same_state a.job.state handed_off in
    let second = same_state b.job.state handed_off in
    if not (same_ℤ a.job.lidarr_album_id b.job.lidarr_album_id)
    then ltb_ℤ a.job.lidarr_album_id b.job.lidarr_album_id
    else if not (same a.job.release_group_mbid b.job.release_group_mbid)
    then str_ltb a.job.release_group_mbid b.job.release_group_mbid
    else (first && not second)
      || ((first && second || not first && not second)
          && (str_ltb s t || (same s t && str_ltb a.job.id b.job.id)))

-- `wantedCycleJobs`
unfoldable pub wanted_cycle_jobs : Store → Result Error (List CycleJob)
wanted_cycle_jobs store = do
  reject_if (any (λ r. not (is_parsable r.job.state)) store.jobs) unparsable_state
  ok (
      map (λ r. with_cycle r (find_cycle r.job.id store.wanted_cycles))
        (sort_stable read_before store.jobs))

-- The keys of `groups`, and the group of a key.
unfoldable pub keys_of : List CycleJob → List WantedKey
keys_of [] = []
keys_of (item ∷ items) =
    let rest = keys_of items in
    if any (same_key (key_of item)) rest then rest else key_of item ∷ rest

unfoldable pub group_of : WantedKey → List CycleJob → List CycleJob
group_of key items = keep (λ item. same_key (key_of item) key) items

-- The columns that `cancelWantedCycleJob` sets, and what it logs.
unfoldable pub cancelled_row : Time → Row → Row
cancelled_row at r = record r {
  job = record r.job {
    state = cancelled;
    revision = bump r.job.revision;
    next_retry_at = none;
    updated_at = at;
  };
}

unfoldable pub cancel_event : Str → Time → CycleJob → Transition
cancel_event reason at item = record {
  job_id = item.id;
  actor = codes "gateway-wanted-reconciliation";
  reason = reason;
  previous = item.state;
  next = cancelled;
  previous_revision = item.revision;
  revision = bump item.revision;
  occurred_at = at;
}

-- `cancelWantedCycleJob`
unfoldable pub cancel_job : Str → Time → CycleJob → Store → Result Error Store
cancel_job reason at item store = do
  reject_if (not (can_transition item.state cancelled))
      (job_error (Job.illegal_transition item.state cancelled))
  reject_if (not (any (has_revision item.id item.revision) store.jobs))
      (job_error (Job.stale_revision item.revision item.revision item.state))
  ok (commit store item.id item.revision (cancelled_row at) (cancel_event reason at item))

-- `UPDATE acquisition_wanted_cycles SET closed_at=? WHERE job_id=? AND closed_at IS NULL`
abbrev pub close_row : Str → Time → WantedCycle → WantedCycle
close_row id at c =
    if same id c.job_id && is_null c.closed_at then record c { closed_at = some at } else c

abbrev pub close_cycle : Str → Time → Store → Store
close_cycle id at store = record store { wanted_cycles = map (close_row id at) store.wanted_cycles }

-- The constraints of the table of cycles.
unfoldable pub is_taken : CycleJob → WantedCycle → Bool
is_taken item c =
    same item.id c.job_id
    || (is_null c.closed_at
        && same_ℤ item.album_id c.lidarr_album_id
        && same item.release_group_mbid c.release_group_mbid)

-- The insert of a cycle.
unfoldable pub open_cycle : Time → CycleJob → Store → Result Error Store
open_cycle at item store = do
  reject_if (leb_ℤ item.album_id (pos 0) || any (is_taken item) store.wanted_cycles)
      constraint_failed
  ok (record store {
    wanted_cycles =
        (record {
          job_id = item.id;
          lidarr_album_id = item.album_id;
          release_group_mbid = item.release_group_mbid;
          opened_at = at;
          closed_at = none;
        })
        ∷ store.wanted_cycles;
  })

-- A job of a group that is not wanted. The number counts the jobs that are cancelled.
abbrev pub counted : ℕ → Result Error Store → Result Error (Store × ℕ)
counted n m = m >>= λ store. ok (store, suc n)

unfoldable pub leave_item : Time → CycleJob → Store → ℕ → Result Error (Store × ℕ)
leave_item at item store n =
    if not item.cycle_open
    then (if not item.has_cycle && not (terminal item.state) && can_transition item.state cancelled
        then counted n (
            cancel_job (codes "legacy acquisition target left Lidarr Wanted/Missing") at item store)
        else ok (store, n))
    else if not (terminal item.state) && not (can_transition item.state cancelled)
    then ok (store, n)
    else if not (terminal item.state)
    then counted n (
        cancel_job (codes "target left Lidarr Wanted/Missing") at item
          (close_cycle item.id at store))
    else ok (close_cycle item.id at store, n)

unfoldable pub leave_items : Time → List CycleJob → Store × ℕ → Result Error (Store × ℕ)
leave_items at [] s = ok s
leave_items at (item ∷ items) s = do s' ← leave_item at item s.0 s.1; leave_items at items s'

-- The first job that passes a test, with its index.
abbrev pub first_at : (CycleJob → Bool) → ℕ → List CycleJob → Option (ℕ × CycleJob)
first_at p i [] = none
first_at p i (item ∷ items) =
    let rest = first_at p (suc i) items in if p item then some (i, item) else rest

abbrev or_else {ℓ} : {A : Type ℓ} → Option A → Option A → Option A
or_else none b = b
or_else (some a) b = some a

-- `keeper`
unfoldable pub keeper : List CycleJob → Option (ℕ × CycleJob)
keeper items = or_else (first_at (λ item. item.cycle_open) 0 items) (
    or_else (first_at (λ item. not item.has_cycle && same_state item.state handed_off) 0 items)
      (first_at (λ item. not item.has_cycle && not (same_state item.state cancelled)) 0 items))

-- The other jobs of a group that is wanted.
unfoldable pub coalesce : Time → ℕ → ℕ → List CycleJob → Store × ℕ → Result Error (Store × ℕ)
coalesce at kept i [] s = ok s
coalesce at kept i (item ∷ items) s = do
  s' ←
      if i == kept
        || item.has_cycle
        || terminal item.state
        || not (can_transition item.state cancelled)
      then ok s
      else counted s.1
          (cancel_job (codes "duplicate Wanted cycle coalesced behind durable handoff") at item s.0)
  coalesce at kept (suc i) items s'

unfoldable pub keep_items :
    Time → List CycleJob → Option (ℕ × CycleJob) → Store × ℕ → Result Error (Store × ℕ)
keep_items at items none s = ok s
keep_items at items (some (kept, item)) s = do
  opened ← if not item.cycle_open then open_cycle at item s.0 else ok s.0
  coalesce at kept 0 items (opened, s.1)

unfoldable pub reconcile_group :
    List WantedKey → Time → WantedKey → List CycleJob → Store × ℕ → Result Error (Store × ℕ)
reconcile_group wanted at key items s =
    if any (same_key key) wanted
    then keep_items at items (keeper items) s
    else leave_items at items s

unfoldable pub reconcile_groups :
    List WantedKey → Time → List CycleJob → List WantedKey → Store × ℕ → Result Error (Store × ℕ)
reconcile_groups wanted at jobs [] s = ok s
reconcile_groups wanted at jobs (key ∷ keys) s = do
  s' ← reconcile_group wanted at key (group_of key jobs) s
  reconcile_groups wanted at jobs keys s'

-- `ReconcileWantedCycles`
unfoldable pub reconcile_wanted_cycles :
    (List WantedKey → List WantedKey) → List WantedKey → Time → Store → Result Error (Store × ℕ)
reconcile_wanted_cycles order wanted at store = do
  jobs ← wanted_cycle_jobs store
  reconcile_groups wanted (utc at) jobs (order (keys_of jobs)) (store, 0)
