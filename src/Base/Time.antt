-- ===== src/Base/Time.antt =====
-- `time.Time` and `time.Duration`. An instant counts nanoseconds from Go's zero time, the first
-- of January of the year 1; earlier instants are not modelled. A location matters only where the
-- program asks whether it is UTC.
use Prim.Native.Nat.{ℕ, ◌+◌, ◌-◌, min}
use mathlib.Core.Bool.{Bool, true}
use denyra.Base.Tests.{leb, ltb, ◌==◌, if◌then◌else◌}
use denyra.Base.Int.{ℤ, pos, negsuc, max_int64, pos_part, neg_part}

pub record Time : Type 0 where
  pub instant : ℕ
  pub in_utc : Bool

-- `time.Time{}`
abbrev pub zero_time : Time
zero_time = record { instant = 0; in_utc = true }

abbrev pub at_instant : ℕ → Time
at_instant n = record { instant = n; in_utc = true }

abbrev pub is_zero : Time → Bool
is_zero t = t.instant == 0

-- `a.Before(b)`
abbrev pub before : Time → Time → Bool
before a b = ltb a.instant b.instant

-- `a.Equal(b)`
abbrev pub same_instant : Time → Time → Bool
same_instant a b = a.instant == b.instant

-- `t.UTC()`
abbrev pub utc : Time → Time
utc t = record t { in_utc = true }

-- `t.Add(d)`
abbrev pub add_duration : Time → ℤ → Time
add_duration t d = record t { instant = t.instant + pos_part d - neg_part d }

-- `a.Sub(b)`, which stays within an int64.
abbrev pub sub_time : Time → Time → ℤ
sub_time a b =
    if leb b.instant a.instant
    then pos (min (a.instant - b.instant) max_int64)
    else negsuc (min (b.instant - a.instant - 1) max_int64)
