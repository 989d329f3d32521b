-- ===== src/AdminUi/LoginThrottle.antt =====
-- internal/pipeline/adminui/handlers/login_throttle.go: failed sign-ins are counted for each key,
-- and a key with too many of them is blocked for a while. The map is an association list in the
-- order of its iteration, which Go leaves open: what is proved holds for every order. The mutex
-- makes each operation one step; a nil throttle, which admits all, is left to its callers.
pub mod Map
pub mod Delay
pub mod Capacity
pub mod Blocking
use denyra.Base.{
  ℕ, zero, suc, Bool, true, false, not, ◌&&◌, ◌||◌, Option, none, some, List, [], ◌∷◌,
  if◌then◌else◌, keep, leb, ltb, length,
}
use denyra.Base.Int.{ℤ, pos, pos_part, ◌+ℤ◌, ◌-ℤ◌, ◌*ℤ◌, quot_ℤ, int64, ltb_ℤ, leb_ℤ}
use denyra.Base.Text.{Str, same}
use denyra.Base.Time.{Time, zero_time, is_zero, before, add_duration, sub_time}

-- `loginThrottleEntry`
pub record Entry : Type 0 where
  pub failures : ℤ
  pub first_failure : Time
  pub last_seen : Time
  pub blocked_until : Time
  pub audited : Bool

-- The zero value that a missing key reads as.
abbrev pub no_entry : Entry
no_entry = record {
  failures = pos 0;
  first_failure = zero_time;
  last_seen = zero_time;
  blocked_until = zero_time;
  audited = false;
}

abbrev pub Entries : Type 0
Entries = List (Str × Entry)

pub record LoginThrottle : Type 0 where
  pub entries : Entries
  pub failures : ℤ
  pub capacity : ℤ
  pub window : ℤ
  pub base_delay : ℤ
  pub maximum_delay : ℤ

-- `NewLoginThrottle`
unfoldable pub new_login_throttle : ℤ → ℤ → ℤ → ℤ → ℤ → LoginThrottle
new_login_throttle failures window base_delay maximum_delay capacity = record {
  entries = [];
  failures = failures;
  capacity = capacity;
  window = window;
  base_delay = base_delay;
  maximum_delay = maximum_delay;
}

-- `entries[key]`, `entries[key] = entry` and `delete(entries, key)`
unfoldable pub find : Str → Entries → Option Entry
find k [] = none
find k ((j, e) ∷ es) = let rest = find k es in if same k j then some e else rest

unfoldable pub put : Str → Entry → Entries → Entries
put k e [] = (k, e) ∷ []
put k e ((j, d) ∷ es) = let rest = put k e es in if same k j then (j, e) ∷ es else (j, d) ∷ rest

unfoldable pub delete : Str → Entries → Entries
delete k es = keep (λ p. not (same k p.0)) es

-- The loop of `delay`; its counter goes down to zero with every turn.
unfoldable pub delay_loop : ℤ → ℕ → ℤ → ℤ
delay_loop maximum zero delay = delay
delay_loop maximum (suc exponent) delay =
    let rest = delay_loop maximum exponent (int64 (delay *ℤ pos 2)) in
    if ltb_ℤ delay maximum
    then if ltb_ℤ (quot_ℤ maximum (pos 2)) delay then maximum else rest
    else delay

-- `delay`
unfoldable pub delay_for : LoginThrottle → ℤ → ℤ
delay_for t exponent =
    let delay = delay_loop t.maximum_delay (pos_part exponent) t.base_delay in
    if ltb_ℤ t.maximum_delay delay then t.maximum_delay else delay

-- The condition of `expire`.
unfoldable pub has_expired : ℤ → Time → Entry → Bool
has_expired window now e =
    not (is_zero e.first_failure)
    && not (before now (add_duration e.first_failure window))
    && not (before now e.blocked_until)

-- `expire`
unfoldable pub expire : Time → LoginThrottle → LoginThrottle
expire now t = record t { entries = keep (λ p. not (has_expired t.window now p.1)) t.entries }

-- The search of `makeRoom` for the entry seen the longest ago, with what it has found so far.
unfoldable pub oldest_from : Str → Time → Entries → Str
oldest_from key oldest [] = key
oldest_from key oldest ((j, e) ∷ es) =
    let newer = oldest_from key oldest es in
    let older = oldest_from j e.last_seen es in
    if is_zero oldest || before e.last_seen oldest then older else newer

-- `makeRoom`
unfoldable pub make_room : Time → LoginThrottle → LoginThrottle
make_room now t =
    let u = expire now t in
    if leb_ℤ u.capacity (pos 0) || ltb_ℤ (pos (length u.entries)) u.capacity
    then u
    else record u { entries = delete (oldest_from [] zero_time u.entries) u.entries }

-- `Allow`: the throttle afterwards, how long to wait, and whether the attempt may go on.
unfoldable pub allow : Str → Time → LoginThrottle → LoginThrottle × ℤ × Bool
allow key now t =
    let u = expire now t in
    elim (find key u.entries) [
      | none ↦ (u, pos 0, true)
      | some e ↦
          let v : LoginThrottle = record u {
            entries = put key (record e { last_seen = now }) u.entries;
          } in
          if before now e.blocked_until
          then (v, sub_time e.blocked_until now, false)
          else (v, pos 0, true)
    ]

-- `Failure` on the entry that is there, or on the one that is begun.
unfoldable pub counted : LoginThrottle → Time → Entry → Entry
counted t now e =
    let failures = int64 (e.failures +ℤ pos 1) in
    let until = add_duration now (delay_for t (int64 (failures -ℤ t.failures))) in
    if leb_ℤ t.failures failures
    then record e { failures = failures; last_seen = now; blocked_until = until; audited = true }
    else record e { failures = failures; last_seen = now }

-- Whether `Failure` reports the block, which it does once for each entry.
unfoldable pub reports : LoginThrottle → Entry → Bool
reports t e = leb_ℤ t.failures (int64 (e.failures +ℤ pos 1)) && not e.audited

-- `Failure`
unfoldable pub failure : Str → Time → LoginThrottle → LoginThrottle × Bool
failure key now t =
    let u = expire now t in
    elim (find key u.entries) [
      | none ↦
          let v = make_room now u in
          let e : Entry = record no_entry { first_failure = now } in
          (record v { entries = put key (counted v now e) v.entries }, reports v e)
      | some e ↦ (record u { entries = put key (counted u now e) u.entries }, reports u e)
    ]

-- `Success`
unfoldable pub success : Str → LoginThrottle → LoginThrottle
success key t = record t { entries = delete key t.entries }
