-- ===== src/Pipeline/Duration/Threshold.antt =====
-- The threshold is exact: no step of its int64 arithmetic wraps around.
use Prim.Native.Nat.{max}
use native.Mathlib.Nat.{div-lt_iff_lt-mul, div-add-mod, mul-zero, mul_comm}
use denyra.Base.{
  ℕ, zero, suc, ◌+◌, ◌-◌, ◌*◌, ◌/◌, ◌%◌, ◌≤◌, ◌<◌, ◌≡◌, ap, Bool, not, ◌&&◌, arith, ltb, leb,
  if◌then◌else◌, ok, err,
}
use denyra.Base.Int.{
  pos, quot_ℤ, quot_ℤ-pos, rem_ℤ-pos, *ℤ-pos, +ℤ-pos, -ℤ-pos, int64-pos, max_int64, ltb_ℤ,
}
use denyra.Pipeline.Duration.{threshold_ms, ceil_10000, is_zero_ℤ, threshold_overflow}

-- n / 10000, rounded up.
abbrev pub ceil_div : ℕ → ℕ
ceil_div n = (n + 9999) / 10000

ceil_10000-pos : (n : ℕ) → n ≤ max_int64 → ceil_10000 (pos n) ≡ pos (ceil_div n)
unfolding ceil_10000
ceil_10000-pos n h =
    rw
      (
        quot_ℤ-pos n 10000,
        rem_ℤ-pos n 10000,
        +ℤ-pos (n / 10000) 1,
        int64-pos (n / 10000 + 1) (omega arith),
      )
      (ground arith)

-- The test before the product tells exactly whether it fits.
fits_iff : (a b : ℕ) → 0 < b → ltb (max_int64 / b) a ≡ ltb max_int64 (a * b)
fits_iff a b h = ground (
  arith,
  (div-lt_iff_lt-mul {x = max_int64} {y = a} h).0,
  (div-lt_iff_lt-mul {x = max_int64} {y = a} h).1,
)

product_guard :
    (a b : ℕ)
    → (not (is_zero_ℤ (pos b)) && ltb_ℤ (quot_ℤ (pos max_int64) (pos b)) (pos a))
      ≡ ltb max_int64 (a * b)
product_guard a zero = ground (arith, mul-zero a)
product_guard a (suc b) = rw (quot_ℤ-pos max_int64 (suc b)) (ground (arith, fits_iff a (suc b)))

ceil_split : (r b : ℕ) → ceil_div (r * b) ≡ (r / 10000) * b + ceil_div ((r % 10000) * b)
ceil_split r b = omega (arith, ap (λ (t : ℕ). t * b) (div-add-mod r 10000))

-- Every intermediate value fits in an int64.
abbrev pub fits : ℕ → ℕ → Bool
fits r b =
    leb ((r / 10000) * b) max_int64
    && leb ((r % 10000) * b) max_int64
    && leb (ceil_div (r * b)) max_int64

-- For inputs that are not negative the threshold is the larger of the floor and the exact share
-- of the reference in basis points, rounded up to a millisecond; it is refused as an overflow
-- exactly when one of the values that it is computed from does not fit in an int64.
pub threshold_ms_exact :
    (r f b : ℕ)
    → r ≤ max_int64
    → f ≤ max_int64
    → b ≤ max_int64
    → threshold_ms (pos r) (pos f) (pos b)
      ≡ (if fits r b then ok (pos (max f (ceil_div (r * b)))) else err threshold_overflow)
unfolding threshold_ms
threshold_ms_exact r f b hr hf hb =
    rw
      (
        quot_ℤ-pos r 10000,
        rem_ℤ-pos r 10000,
        product_guard (r / 10000) b,
        product_guard b (r % 10000),
        mul_comm b (r % 10000),
        *ℤ-pos (r / 10000) b,
        *ℤ-pos (r % 10000) b,
      )
      (ground (
        arith,
        int64-pos ((r / 10000) * b),
        int64-pos ((r % 10000) * b),
        ceil_10000-pos ((r % 10000) * b),
        -ℤ-pos max_int64 (ceil_div ((r % 10000) * b)),
        int64-pos (max_int64 - ceil_div ((r % 10000) * b)),
        +ℤ-pos ((r / 10000) * b) (ceil_div ((r % 10000) * b)),
        int64-pos ((r / 10000) * b + ceil_div ((r % 10000) * b)),
        ceil_split r b,
      ))
