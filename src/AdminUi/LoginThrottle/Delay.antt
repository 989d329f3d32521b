-- ===== src/AdminUi/LoginThrottle/Delay.antt =====
-- How long a block lasts: the base delay, doubled with every further failure, up to the maximum.
use Prim.Native.Nat.{min}
use native.Mathlib.Nat.{pow-suc, one-le-pow, mul-le-mul_left, mul_assoc, mul_comm}
use denyra.Base.{ℕ, zero, suc, ◌*◌, ◌/◌, ◌^◌, ◌≤◌, ◌≡◌, refl, arith, ap, ◌∙◌, sym}
use denyra.Base.Int.{pos, ◌*ℤ◌, *ℤ-pos, quot_ℤ-pos, int64, int64-pos, max_int64}
use denyra.AdminUi.LoginThrottle.{LoginThrottle, delay_loop, delay_for}

-- A doubled delay that stays within the maximum does not wrap.
doubled : (d : ℕ) → d ≤ max_int64 / 2 → int64 (pos d *ℤ pos 2) ≡ pos (d * 2)
doubled d h = rw (*ℤ-pos d 2) (int64-pos (d * 2) (omega arith))

grows : (d n : ℕ) → d ≤ d * 2 ^ n
grows d n = omega (arith, mul-le-mul_left d (one-le-pow n 2 (omega arith)))

pow_split : (d n : ℕ) → (d * 2) * 2 ^ n ≡ d * 2 ^ suc n
pow_split d n =
    mul_assoc d 2 (2 ^ n)
    ∙ ap (λ (t : ℕ). d * t) (mul_comm 2 (2 ^ n))
    ∙ ap (λ (t : ℕ). d * t) (sym (pow-suc 2 n))

delay_loop-min :
    (m n d : ℕ) → m ≤ max_int64 → d ≤ m → delay_loop (pos m) n (pos d) ≡ pos (min (d * 2 ^ n) m)
unfolding delay_loop
delay_loop-min m zero d hm hd = ground arith
delay_loop-min m (suc n) d hm hd =
    let turn : d ≤ m / 2
        → delay_loop (pos m) n (int64 (pos d *ℤ pos 2)) ≡ pos (min (d * 2 * 2 ^ n) m) =
      λ h. rw (doubled d (omega arith)) (delay_loop-min m n (d * 2) hm (omega arith)) in
    rw (quot_ℤ-pos m 2) (ground (arith, turn, pow_split d n, grows d (suc n), grows (d * 2) n))

-- A delay that is above the maximum already is not doubled.
delay_loop-above : (m n d : ℕ) → m ≤ d → delay_loop (pos m) n (pos d) ≡ pos d
unfolding delay_loop
delay_loop-above m zero d h = refl
delay_loop-above m (suc n) d h = ground arith

-- After `n` failures too many, the delay is the base delay times 2 ^ n, but at most the maximum;
-- this holds for every count of failures, since the doubling stops before it could overflow.
pub delay_for-doubles :
    (t : LoginThrottle) (b m n : ℕ)
    → t.base_delay ≡ pos b
    → t.maximum_delay ≡ pos m
    → m ≤ max_int64
    → delay_for t (pos n) ≡ pos (min (b * 2 ^ n) m)
unfolding delay_for
delay_for-doubles t b m n hb hm h =
    rw (hb, hm) (ground (arith, delay_loop-min m n b h, delay_loop-above m n b, grows b n))
