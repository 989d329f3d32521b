-- ===== src/Base/Sort.antt =====
-- `sort.SliceStable`: the stable order that a `less` function asks for, by insertion. Whatever the
-- library's algorithm, a stable sort by a strict weak order has this one result.
use mathlib.Core.Path.{◌≡◌, refl, ap, ◌∙◌, sym, subst, subst₂}
use mathlib.Core.Logic.{◌≢◌, inl, inr, ∥∥₁_elim}
use mathlib.Core.Logic.Or
use mathlib.Core.Bool.{Bool, ◌||◌}
use mathlib.Core.List.{List, [], ◌∷◌, Perm, Permᴰ, Perm-prop, Mem, mem-cons, not-mem-nil}
use mathlib.Core.List.Perm
use Prim.Native.Nat.{lt, suc}
use native.Mathlib.Omega.{arith}
use denyra.Base.Tests.{if◌then◌else◌, Bool-cases}
use denyra.Base.Lists.{All, any, keep, length}
use denyra.Base.Order.{Compare, IsOrder, is_lt, not_gt_trans}

module _ {ℓ} {A : Type ℓ} (less : A → A → Bool) where
  unfoldable pub insert : A → List A → List A
  insert x [] = x ∷ []
  insert x (y ∷ ys) = let rest = insert x ys in if less y x then y ∷ rest else x ∷ y ∷ ys

  unfoldable pub sort_stable : List A → List A
  unfolding insert
  sort_stable [] = []
  sort_stable (x ∷ xs) = insert x (sort_stable xs)

  pub insert-perm : (x : A) (ys : List A) → Perm (insert x ys) (x ∷ ys)
  unfolding insert
  insert-perm x [] = Perm.refl _
  insert-perm x (y ∷ ys) = elim (Bool-cases (less y x)) [
    | inl e ↦ rw e (Perm.trans (Perm.cons y (insert-perm x ys)) (Perm.swap x y ys))
    | inr e ↦ rw e (Perm.refl _)
  ]

  -- Sorting only reorders.
  pub sort_stable-perm : (xs : List A) → Perm (sort_stable xs) xs
  unfolding sort_stable
  sort_stable-perm [] = Perm.refl _
  sort_stable-perm (x ∷ xs) = Perm.trans (insert-perm x _) (Perm.cons x (sort_stable-perm xs))

  any-insert : (p : A → Bool) (x : A) (ys : List A) → any p (insert x ys) ≡ (p x || any p ys)
  unfolding insert
  any-insert p x [] = refl
  any-insert p x (y ∷ ys) = elim (Bool-cases (less y x)) [
    | inl e ↦ rw e (let rest = any-insert p x ys in ground (arith, rest))
    | inr e ↦ rw e refl
  ]

  -- Sorting loses nothing.
  pub any-sort_stable : (p : A → Bool) (xs : List A) → any p (sort_stable xs) ≡ any p xs
  unfolding sort_stable
  any-sort_stable p [] = refl
  any-sort_stable p (x ∷ xs) =
      any-insert p x (sort_stable xs) ∙ ap (λ b. p x || b) (any-sort_stable p xs)

  length-insert : (x : A) (ys : List A) → length (insert x ys) ≡ suc (length ys)
  unfolding insert
  length-insert x [] = refl
  length-insert x (y ∷ ys) = ground (arith, length-insert x ys)

  pub length-sort_stable : (xs : List A) → length (sort_stable xs) ≡ length xs
  unfolding sort_stable
  length-sort_stable [] = refl
  length-sort_stable (x ∷ xs) = length-insert x (sort_stable xs) ∙ ap suc (length-sort_stable xs)

  pub All-insert {κ} : (P : A → Type κ) (x : A) (ys : List A) → P x → All P ys → All P (insert x ys)
  unfolding insert
  All-insert P x [] px pys = (px, tt)
  All-insert P x (y ∷ ys) px pys = elim (Bool-cases (less y x)) [
    | inl e ↦ rw e (pys.0, All-insert P x ys px pys.1)
    | inr e ↦ rw e (px, pys)
  ]

  pub All-sort_stable {κ} : (P : A → Type κ) (xs : List A) → All P xs → All P (sort_stable xs)
  unfolding sort_stable
  All-sort_stable P [] h = tt
  All-sort_stable P (x ∷ xs) h = All-insert P x _ h.0 (All-sort_stable P xs h.1)

-- No element stands above a later one.
abbrev pub IsSorted {ℓ} : {A : Type ℓ} → Compare A → List A → Type ℓ
IsSorted f [] = Unit
IsSorted f (x ∷ xs) = All (λ y. f y x ≢ lt) xs × IsSorted f xs

pub All-map {ℓ κ μ} :
    {A : Type ℓ} (P : A → Type κ) (Q : A → Type μ) (xs : List A)
    → ((x : A) → P x → Q x)
    → All P xs
    → All Q xs
All-map P Q [] f h = tt
All-map P Q (x ∷ xs) f h = (f x h.0, All-map P Q xs f h.1)

module _ {ℓ} {A : Type ℓ} {f : Compare A} (F : IsOrder f) (less : A → A → Bool)
    (agrees : (a b : A) → less a b ≡ is_lt (f a b)) where
  insert-IsSorted : (x : A) (ys : List A) → IsSorted f ys → IsSorted f (insert less x ys)
  unfolding insert
  insert-IsSorted x [] h = (tt, tt)
  insert-IsSorted x (y ∷ ys) h = elim (Bool-cases (less y x)) [
    | inl e ↦ rw e (
      All-insert less (λ z. f z y ≢ lt) x ys (λ p. ground (arith, agrees y x, F.swaps x y)) h.0,
      insert-IsSorted x ys h.1,
    )
    | inr e ↦
        let above : f y x ≢ lt = λ p. ground (arith, agrees y x) in
        rw e ((above, All-map _ _ ys (λ z q. not_gt_trans F x y z above q) h.0), h)
  ]

  pub sort_stable-IsSorted : (xs : List A) → IsSorted f (sort_stable less xs)
  unfolding sort_stable
  sort_stable-IsSorted [] = tt
  sort_stable-IsSorted (x ∷ xs) = insert-IsSorted x _ (sort_stable-IsSorted xs)

module _ {ℓ} {A : Type ℓ} where
  -- What holds of every element holds of a member.
  pub All-mem {κ} :
      {P : A → Type κ}
      → ((x : A) → IsProp (P x))
      → (xs : List A) {x : A} → All P xs
      → Mem x xs
      → P x
  All-mem p [] h m = absurd (not-mem-nil m)
  All-mem {P} p (y ∷ xs) h m =
      Or.elim (p _) (mem-cons.0 m) (λ e. subst P (sym e) h.0) (All-mem p xs h.1)

  keep-cons :
      (p : A → Bool) (x : A) (xs ys : List A)
      → Perm (keep p xs) (keep p ys)
      → Perm (keep p (x ∷ xs)) (keep p (x ∷ ys))
  keep-cons p x xs ys q = elim (Bool-cases (p x)) [ inl e ↦ rw e (Perm.cons x q) | inr e ↦ rw e q ]

  keep-swap : (p : A → Bool) (x y : A) (l : List A) → Perm (keep p (x ∷ y ∷ l)) (keep p (y ∷ x ∷ l))
  keep-swap p x y l = elim (Bool-cases (p x)) [
    | inl e ↦ elim (Bool-cases (p y)) [
      | inl f ↦ rw (e, f) (Perm.swap y x _)
      | inr f ↦ rw (e, f) (Perm.refl _)
    ]
    | inr e ↦ rw e (Perm.refl _)
  ]

  keep-Permᴰ : (p : A → Bool) {xs ys : List A} → Permᴰ xs ys → Perm (keep p xs) (keep p ys)
  keep-Permᴰ p Permᴰ.nil = Perm.refl _
  keep-Permᴰ p (Permᴰ.cons {a = x} {l₁ = xs} {l₂ = ys} same q) =
      subst (λ y. Perm (keep p (x ∷ xs)) (keep p (y ∷ ys))) same
        (keep-cons p x xs ys (keep-Permᴰ p q))
  keep-Permᴰ p (Permᴰ.swap {a = x} {b = y} {l = l} e f) =
      subst₂ (λ b' a'. Perm (keep p (x ∷ y ∷ l)) (keep p (a' ∷ b' ∷ l))) e f (keep-swap p x y l)
  keep-Permᴰ p (Permᴰ.trans q r) = Perm.trans (keep-Permᴰ p q) (keep-Permᴰ p r)

  pub keep-perm : (p : A → Bool) {xs ys : List A} → Perm xs ys → Perm (keep p xs) (keep p ys)
  keep-perm p q = ∥∥₁_elim q Perm-prop (keep-Permᴰ p)
