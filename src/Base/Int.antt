-- ===== src/Base/Int.antt =====
-- Go's signed integers: integers over the native numbers, and the wrap-around of int64.
-- Sums go through the two parts of an integer, which are numbers that `omega` reads.
use Prim.Native.Nat.{ℕ, suc, ◌+◌, ◌-◌, ◌*◌, ◌/◌, ◌%◌, ◌^◌, ◌≤◌, ◌<◌, compare, Ordering}
use mathlib.Core.Path.{◌≡◌, refl}
use mathlib.Core.Logic.{◌↔◌}
use mathlib.Core.Bool.{Bool, true, ◌&&◌}
use native.Mathlib.Omega.{arith}
use denyra.Base.Tests.{ltb, leb, if◌then◌else◌}

-- `negsuc n` is -(n + 1).
pub data ℤ : Type 0 where
  pos : ℕ → ℤ
  negsuc : ℕ → ℤ

abbrev pub pos_part : ℤ → ℕ
pos_part (pos n) = n
pos_part (negsuc n) = 0

abbrev pub neg_part : ℤ → ℕ
neg_part (pos n) = 0
neg_part (negsuc n) = suc n

-- a - b, as an integer.
abbrev sub_ℕ : ℕ → ℕ → ℤ
sub_ℕ a b = if leb b a then pos (a - b) else negsuc (b - a - 1)

infixl 65 ◌+ℤ◌ ◌-ℤ◌
infixl 70 ◌*ℤ◌
infix 50 ◌≤ℤ◌ ◌<ℤ◌
unfoldable pub ◌+ℤ◌ : ℤ → ℤ → ℤ
a +ℤ b = sub_ℕ (pos_part a + pos_part b) (neg_part a + neg_part b)

unfoldable pub ◌-ℤ◌ : ℤ → ℤ → ℤ
a -ℤ b = sub_ℕ (pos_part a + neg_part b) (neg_part a + pos_part b)

unfoldable pub ◌*ℤ◌ : ℤ → ℤ → ℤ
a *ℤ b =
    sub_ℕ (pos_part a * pos_part b + neg_part a * neg_part b)
      (pos_part a * neg_part b + neg_part a * pos_part b)

abbrev pub ◌≤ℤ◌ : ℤ → ℤ → Type 0
a ≤ℤ b = pos_part a + neg_part b ≤ pos_part b + neg_part a

abbrev pub ◌<ℤ◌ : ℤ → ℤ → Type 0
a <ℤ b = pos_part a + neg_part b < pos_part b + neg_part a

abbrev pub compare_ℤ : ℤ → ℤ → Ordering
compare_ℤ a b = compare (pos_part a + neg_part b) (pos_part b + neg_part a)

abbrev pub ltb_ℤ : ℤ → ℤ → Bool
ltb_ℤ a b = ltb (pos_part a + neg_part b) (pos_part b + neg_part a)

abbrev pub leb_ℤ : ℤ → ℤ → Bool
leb_ℤ a b = leb (pos_part a + neg_part b) (pos_part b + neg_part a)

-- `a == b`
abbrev pub same_ℤ : ℤ → ℤ → Bool
same_ℤ a b = leb_ℤ a b && leb_ℤ b a

-- The remainder of an integer in 0 .. 2^64 - 1.
residue : ℤ → ℕ
residue (pos n) = n % 2 ^ 64
residue (negsuc n) = 2 ^ 64 - 1 - n % 2 ^ 64

-- The int64 with the given bits: what a sum or product becomes when it is stored.
unfoldable pub int64 : ℤ → ℤ
unfolding residue
int64 z = if ltb (residue z) (2 ^ 63) then pos (residue z) else negsuc (2 ^ 64 - 1 - residue z)

abbrev pub max_int64 : ℕ
max_int64 = 9223372036854775807

-- A number that fits is stored as it is.
pub int64-pos : (n : ℕ) → n ≤ max_int64 → int64 (pos n) ≡ pos n
unfolding int64
int64-pos n h = ground arith

int64_wraps : int64 (pos (max_int64 + 1)) ≡ negsuc max_int64
unfolding int64
int64_wraps = refl

eq_of_compare_ℤ : (a b : ℤ) → compare_ℤ a b ≡ Ordering.eq → a ≡ b
eq_of_compare_ℤ a b h = ground arith

pub same_ℤ_iff : (a b : ℤ) → (same_ℤ a b ≡ true) ↔ (a ≡ b)
same_ℤ_iff a b = (λ h. ground arith, λ e. rw e (ground arith))

-- Go's `a / b` and `a % b`, which round towards zero; the program never divides by zero.
abbrev magnitude : ℤ → ℕ
magnitude z = pos_part z + neg_part z

abbrev negative : ℤ → ℕ
negative (pos n) = 0
negative (negsuc n) = 1

with_sign : ℕ → ℕ → ℤ
with_sign sign n = if leb 1 (sign % 2) then sub_ℕ 0 n else pos n

unfoldable pub quot_ℤ : ℤ → ℤ → ℤ
unfolding with_sign
quot_ℤ a b = with_sign (negative a + negative b) (magnitude a / magnitude b)

unfoldable pub rem_ℤ : ℤ → ℤ → ℤ
unfolding with_sign
rem_ℤ a b = with_sign (negative a) (magnitude a % magnitude b)

quot_samples : (quot_ℤ (negsuc 6) (pos 2) ≡ negsuc 2) × (rem_ℤ (negsuc 6) (pos 2) ≡ negsuc 0)
unfolding quot_ℤ rem_ℤ
quot_samples = (refl, refl)

pub quot_ℤ-pos : (a b : ℕ) → quot_ℤ (pos a) (pos b) ≡ pos (a / b)
unfolding quot_ℤ
quot_ℤ-pos a b = ground arith

pub rem_ℤ-pos : (a b : ℕ) → rem_ℤ (pos a) (pos b) ≡ pos (a % b)
unfolding rem_ℤ
rem_ℤ-pos a b = ground arith

pub *ℤ-pos : (a b : ℕ) → pos a *ℤ pos b ≡ pos (a * b)
unfolding ◌*ℤ◌
*ℤ-pos a b = ground arith

pub +ℤ-pos : (a b : ℕ) → pos a +ℤ pos b ≡ pos (a + b)
unfolding ◌+ℤ◌
+ℤ-pos a b = ground arith

pub -ℤ-pos : (a b : ℕ) → b ≤ a → pos a -ℤ pos b ≡ pos (a - b)
unfolding ◌-ℤ◌
-ℤ-pos a b h = ground arith
