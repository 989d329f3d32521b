-- ===== src/Base/TimeText.antt =====
-- `t.UTC().Format(time.RFC3339Nano)`: the text of a time. The trailing zeros of the fraction are
-- left out, and the whole fraction if it is zero.
use Prim.Native.Nat.{ℕ, ◌+◌, ◌-◌, ◌*◌, ◌/◌, ◌%◌}
use mathlib.Core.Path.{◌≡◌, refl}
use mathlib.Core.Bool.{Bool, true, not, ◌&&◌, ◌||◌}
use mathlib.Core.List.{List, [], ◌∷◌, ◌++◌, reverse}
use denyra.Base.Tests.{ltb, ◌==◌, if◌then◌else◌}
use denyra.Base.Text.{Str, codes, str_ltb}
use denyra.Base.Time.{Time, at_instant}
use denyra.Base.Decimal.{padded}

-- A year with the number of days of it that have passed, from the days since the year 1.
at_most_3 : ℕ → ℕ
at_most_3 n = if ltb n 4 then n else 3

year_day : ℕ → ℕ × ℕ
unfolding at_most_3
year_day days =
    let n400 = days / 146097 in
    let d400 = days % 146097 in
    let n100 = at_most_3 (d400 / 36524) in
    let d100 = d400 - 36524 * n100 in
    let n4 = d100 / 1461 in
    let d4 = d100 % 1461 in
    let n = at_most_3 (d4 / 365) in (400 * n400 + 100 * n100 + 4 * n4 + n + 1, d4 - 365 * n)

is_leap : ℕ → Bool
is_leap year = year % 4 == 0 && (not (year % 100 == 0) || year % 400 == 0)

months : Bool → List ℕ
months leap = 31 ∷ (if leap then 29 else 28) ∷ 31 ∷ 30 ∷ 31 ∷ 30 ∷ 31 ∷ 31 ∷ 30 ∷ 31 ∷ 30 ∷ 31 ∷ []

month_day : List ℕ → ℕ → ℕ → ℕ × ℕ
month_day [] month day = (month, day + 1)
month_day (n ∷ ns) month day =
    let later = month_day ns (month + 1) (day - n) in if ltb day n then (month, day + 1) else later

date_text : ℕ → Str
unfolding year_day is_leap months month_day padded
date_text days =
    let (year, passed) = year_day days in
    let (month, day) = month_day (months (is_leap year)) 1 passed in
    padded 4 year ++ (codes "-" ++ (padded 2 month ++ (codes "-" ++ padded 2 day)))

clock_text : ℕ → Str
unfolding padded
clock_text s =
    padded 2 (s / 3600)
    ++ (codes ":" ++ (padded 2 (s / 60 % 60) ++ (codes ":" ++ padded 2 (s % 60))))

without_zeros : Str → Str
without_zeros [] = []
without_zeros (c ∷ s) = let rest = without_zeros s in if c == 48 then rest else c ∷ s

fraction_text : ℕ → Str
unfolding without_zeros padded
fraction_text nanos =
    if nanos == 0 then [] else codes "." ++ reverse (without_zeros (reverse (padded 9 nanos)))

abbrev second : ℕ
second = 1000000000

abbrev seconds_per_day : ℕ
seconds_per_day = 86400

-- `formatTime` of the stores
unfoldable pub format_time : Time → Str
unfolding date_text clock_text fraction_text
format_time t =
    let s = t.instant / second in
    date_text (s / seconds_per_day)
    ++ (codes "T"
        ++ (clock_text (s % seconds_per_day) ++ (fraction_text (t.instant % second) ++ codes "Z")))

-- 31 December 2024 at 23:59:59.12, the last day of a leap year.
abbrev new_years_eve : Time
new_years_eve = at_instant ((739251 * seconds_per_day - 1) * second + 120000000)

format_sample : format_time new_years_eve ≡ codes "2024-12-31T23:59:59.12Z"
unfolding format_time
format_sample = refl

-- The texts are not in the order of the times: a fraction sorts before the whole second.
order_differs :
    str_ltb (format_time (at_instant (second + 500000000))) (format_time (at_instant second)) ≡ true
unfolding format_time
order_differs = refl
