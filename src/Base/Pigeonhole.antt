-- ===== src/Base/Pigeonhole.antt =====
-- Lists without repetition by a Boolean equality, and the pigeonhole principle for them.
use Prim.Native.Nat.{suc, ◌≤◌}
use mathlib.Core.Path.{◌≡◌, refl, sym}
use mathlib.Core.Logic.{◌↔◌, inl, inr}
use mathlib.Core.Bool.{Bool, true, false}
use mathlib.Core.List.{List, [], ◌∷◌}
use native.Mathlib.Omega.{arith}
use denyra.Base.Tests.{Bool-cases, if◌then◌else◌}
use denyra.Base.Lists.{length, any, All}
use denyra.Base.Results.{neither}

module _ {ℓ} {A : Type ℓ} (eq : A → A → Bool) (eq_iff : (a b : A) → (eq a b ≡ true) ↔ (a ≡ b)) where
  abbrev pub IsDistinct : List A → Type 0
  IsDistinct [] = Unit
  IsDistinct (x ∷ xs) = (any (eq x) xs ≡ false) × IsDistinct xs

  -- An element that none of a list equals is not in it.
  pub apart :
      (k : A) (seen ks : List A)
      → All (λ j. any (eq j) (k ∷ seen) ≡ false) ks
      → any (eq k) ks ≡ false
  apart k seen [] h = refl
  apart k seen (j ∷ ks) h =
      let (differs, _) = neither (eq j k) (any (eq j) seen) h.0 in
      let back : eq k j ≡ false = elim (Bool-cases (eq k j)) [
        | inl e ↦ let turned : eq j k ≡ true = (eq_iff j k).1 (sym ((eq_iff k j).0 e)) in cc
        | inr e ↦ e
      ] in
      rw back (apart k seen ks h.1)

  pub unseen :
      (k : A) (seen ks : List A)
      → All (λ j. any (eq j) (k ∷ seen) ≡ false) ks
      → All (λ j. any (eq j) seen ≡ false) ks
  unseen k seen [] h = tt
  unseen k seen (j ∷ ks) h = ((neither (eq j k) (any (eq j) seen) h.0).1, unseen k seen ks h.1)

  abbrev remove : A → List A → List A
  remove x [] = []
  remove x (y ∷ ys) = let rest = remove x ys in if eq x y then ys else y ∷ rest

  length-remove :
      (x : A) (ys : List A) → any (eq x) ys ≡ true → suc (length (remove x ys)) ≡ length ys
  length-remove x [] h = cc
  length-remove x (y ∷ ys) h = elim (Bool-cases (eq x y)) [
    | inl e ↦ rw e refl
    | inr e ↦ rw e (omega (arith, length-remove x ys (rw e at h)))
  ]

  any-remove :
      (x z : A) (ys : List A)
      → eq z x ≡ false
      → any (eq z) ys ≡ true
      → any (eq z) (remove x ys) ≡ true
  any-remove x z [] d h = cc
  any-remove x z (y ∷ ys) d h = elim (Bool-cases (eq x y)) [
    | inl e ↦
        let same : x ≡ y = (eq_iff x y).0 e in
        let d' : eq z y ≡ false = rw same at d in rw e (rw d' at h)
    | inr e ↦ elim (Bool-cases (eq z y)) [
      | inl f ↦ rw (e, f) refl
      | inr f ↦ rw (e, f) (any-remove x z ys d (rw f at h))
    ]
  ]

  All-weaken :
      (x : A) (xs ys : List A)
      → All (λ y. any (eq y) xs ≡ true) ys
      → All (λ y. any (eq y) (x ∷ xs) ≡ true) ys
  All-weaken x xs [] h = tt
  All-weaken x xs (y ∷ ys) h = (ground (arith, h.0), All-weaken x xs ys h.1)

  All-restore :
      (x : A) (xs ys : List A)
      → All (λ y. any (eq y) xs ≡ true) (remove x ys)
      → All (λ y. any (eq y) (x ∷ xs) ≡ true) ys
  All-restore x xs [] h = tt
  All-restore x xs (y ∷ ys) h = elim (Bool-cases (eq x y)) [
    | inl e ↦
        let back : eq y x ≡ true = (eq_iff y x).1 (sym ((eq_iff x y).0 e)) in
        (rw back refl, All-weaken x xs ys (rw e at h))
    | inr e ↦ let k = rw e at h in (ground (arith, k.0), All-restore x xs ys k.1)
  ]

  All-remove :
      (x : A) (xs ys : List A)
      → any (eq x) xs ≡ false
      → All (λ z. any (eq z) ys ≡ true) xs
      → All (λ z. any (eq z) (remove x ys) ≡ true) xs
  All-remove x [] ys d h = tt
  All-remove x (z ∷ zs) ys d h =
      let (apart, d') = neither (eq x z) (any (eq x) zs) d in
      let differs : eq z x ≡ false = elim (Bool-cases (eq z x)) [
        | inl e ↦
            let same : z ≡ x = (eq_iff z x).0 e in
            let again : eq x z ≡ true = (eq_iff x z).1 (sym same) in cc
        | inr e ↦ e
      ] in
      (any-remove x z ys differs h.0, All-remove x zs ys d' h.1)

  -- As many different elements of a list as it is long are all that it has.
  pub pigeonhole :
      (xs ys : List A)
      → IsDistinct xs
      → All (λ x. any (eq x) ys ≡ true) xs
      → length ys ≤ length xs
      → All (λ y. any (eq y) xs ≡ true) ys
  pigeonhole [] [] d h l = tt
  pigeonhole [] (y ∷ ys) d h l = let impossible : ⊥ = omega arith in absurd impossible
  pigeonhole (x ∷ xs) ys d h l = All-restore x xs ys (
      pigeonhole xs (remove x ys) d.1 (All-remove x xs ys d.0 h.1)
        (omega (arith, length-remove x ys h.0)))
