-- ===== src/Base/Decimal.antt =====
-- `strconv.Itoa` of a number and `%0*d` of `fmt`: decimal digits, padded with zeros.
use Prim.Native.Nat.{ℕ, zero, suc, ◌+◌, ◌-◌, ◌/◌, ◌%◌}
use mathlib.Core.Path.{◌≡◌, refl}
use mathlib.Core.Bool.{true, false}
use mathlib.Core.List.{[], ◌∷◌}
use denyra.Base.Tests.{ltb}
use denyra.Base.Lists.{length}
use denyra.Base.Text.{Str, codes}

-- The digits before `rest`. A number has fewer digits than its size, which is the fuel.
digits_from : ℕ → ℕ → Str → Str
digits_from zero n rest = rest
digits_from (suc fuel) n rest = elim (ltb n 10) [
  | true ↦ (48 + n) ∷ rest
  | false ↦ digits_from fuel (n / 10) ((48 + n % 10) ∷ rest)
]

unfoldable pub decimal : ℕ → Str
unfolding digits_from
decimal n = digits_from (suc n) n []

zeros : ℕ → Str → Str
zeros zero s = s
zeros (suc n) s = 48 ∷ zeros n s

unfoldable pub padded : ℕ → ℕ → Str
unfolding decimal zeros
padded width n = zeros (width - length (decimal n)) (decimal n)

decimal_samples :
    (decimal 0 ≡ codes "0") × (decimal 120 ≡ codes "120") × (padded 4 12 ≡ codes "0012")
unfolding padded decimal
decimal_samples = (refl, refl, refl)
