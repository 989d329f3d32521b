-- ===== src/Base/Results.antt =====
-- Go's pair of a value and an error: exactly one of the two is meaningful.
use mathlib.Core.Path.{◌≡◌, refl}
use mathlib.Core.Option.{some}
use native.Mathlib.Omega.{arith}
use mathlib.Core.Bool.{Bool, true, false, not, ◌||◌}

pub data Result {ℓ κ} (E : Type ℓ) (A : Type κ) : Type (ℓ ⊔ κ) where
  ok : A → Result E A
  err : E → Result E A

module _ {ℓ κ μ} {E : Type ℓ} {A : Type κ} {B : Type μ} where
  infixl 5 ◌>>=◌
  -- The first error ends a chain of calls.
  abbrev pub ◌>>=◌ : Result E A → (A → Result E B) → Result E B
  (err stop) >>= rest = err stop
  (ok value) >>= rest = rest value

  -- A chain that succeeded went through all its calls.
  pub >>=-eq-ok :
      (call : Result E A) (rest : A → Result E B) {last : B}
      → (call >>= rest) ≡ ok last
      → (value : A) × (call ≡ ok value) × (rest value ≡ ok last)
  >>=-eq-ok (err stop) rest reached = cc
  >>=-eq-ok (ok value) rest reached = (value, refl, reached)

infixl 5 ◌>>◌
abbrev pub ◌>>◌ {ℓ κ} : {E : Type ℓ} {B : Type κ} → Result E (Unit {0}) → Result E B → Result E B
check >> rest = check >>= λ _. rest

-- `if bad { return error }`
abbrev pub reject_if {ℓ} : {E : Type ℓ} → Bool → E → Result E (Unit {0})
reject_if true e = err e
reject_if false e = ok tt

-- A guard that let the program go on was not met.
pub reject_if-ok {ℓ} :
    {E : Type ℓ} (b : Bool) (e : E) {x : Unit {0}} → reject_if b e ≡ ok x → b ≡ false
reject_if-ok true e h = cc
reject_if-ok false e h = refl

-- A program that went past a guard did not meet it, and its rest succeeded.
pub guard-ok {ℓ κ} :
    {E : Type ℓ} {B : Type κ} (b : Bool) (e : E) (k : Result E B) {x : B}
    → (reject_if b e >> k) ≡ ok x
    → (b ≡ false) × (k ≡ ok x)
guard-ok true e k h = cc
guard-ok false e k h = (refl, h)

pub ok-injective {ℓ κ} :
    {E : Type ℓ} {A : Type κ} {a b : A} → ◌≡◌ {A = Result E A} (ok a) (ok b) → a ≡ b
ok-injective h = cc

pub some-injective {ℓ} : {A : Type ℓ} {a b : A} → some a ≡ some b → a ≡ b
some-injective h = cc

pub negated : (b : Bool) → not b ≡ false → b ≡ true
negated b h = ground arith

pub negated_both : (a b : Bool) → not a || not b ≡ false → (a ≡ true) × (b ≡ true)
negated_both a b h = ground arith

pub neither : (a b : Bool) → a || b ≡ false → (a ≡ false) × (b ≡ false)
neither a b h = ground arith
