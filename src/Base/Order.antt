-- ===== src/Base/Order.antt =====
-- Three-way comparisons, their laws, and their lexicographic composition.
use Prim.Native.Nat.{ℕ, compare, Ordering, lt, eq, gt}
use mathlib.Core.Path.{◌≡◌, refl, ap}
use mathlib.Core.Logic.{◌≢◌}
use mathlib.Core.Bool.{Bool, true, false}
use mathlib.Core.List.{List, [], ◌∷◌}
use native.Mathlib.Omega.{arith}
use denyra.Base.Int.{compare_ℤ}

abbrev pub Compare {ℓ} : Type ℓ → Type ℓ
Compare A = A → A → Ordering

abbrev pub is_lt : Ordering → Bool
is_lt lt = true
is_lt _ = false

abbrev pub swap : Ordering → Ordering
swap lt = gt
swap eq = eq
swap gt = lt

-- A total preorder, given by its comparison.
pub record IsOrder {ℓ} {A : Type ℓ} (cmp : Compare A) : Type ℓ where
  pub swaps : (a b : A) → cmp b a ≡ swap (cmp a b)
  pub lt_trans : (a b c : A) → cmp a b ≡ lt → cmp b c ≡ lt → cmp a c ≡ lt
  pub eq_left : (a b c : A) → cmp a b ≡ eq → cmp a c ≡ cmp b c

-- The second comparison decides where the first finds no difference.
abbrev pub then_by : Ordering → Ordering → Ordering
then_by lt _ = lt
then_by gt _ = gt
then_by eq o = o

module _ {ℓ} {A : Type ℓ} where
  abbrev pub lex : Compare A → Compare A → Compare A
  lex f g a b = then_by (f a b) (g a b)

  abbrev pub flip : Compare A → Compare A
  flip f a b = f b a

  abbrev pub by {κ} : {B : Type κ} → (A → B) → Compare B → Compare A
  by key f a b = f (key a) (key b)

-- Byte strings in dictionary order.
abbrev pub compare_bytes : Compare (List ℕ)
compare_bytes [] [] = eq
compare_bytes [] (b ∷ bs) = lt
compare_bytes (a ∷ as') [] = gt
compare_bytes (a ∷ as') (b ∷ bs) = then_by (compare a b) (compare_bytes as' bs)

module _ {ℓ} {A : Type ℓ} {f g : Compare A} (F : IsOrder f) (G : IsOrder g) where
  pub lex-IsOrder : IsOrder (lex f g)
  lex-IsOrder = record {
    swaps = λ a b. ground (arith, F.swaps a b, G.swaps a b);
    lt_trans = λ a b c p q. ground (
      arith,
      F.lt_trans a b c,
      G.lt_trans a b c,
      F.eq_left a b c,
      F.eq_left b c a,
      F.eq_left c b a,
      F.swaps a b,
      F.swaps b c,
      F.swaps a c,
    );
    eq_left = λ a b c p. ground (arith, F.eq_left a b c, G.eq_left a b c);
  }

module _ {ℓ} {A : Type ℓ} {f : Compare A} (F : IsOrder f) where
  pub flip-IsOrder : IsOrder (flip f)
  flip-IsOrder = record {
    swaps = λ a b. F.swaps b a;
    lt_trans = λ a b c p q. F.lt_trans c b a q p;
    eq_left = λ a b c p. ground (arith, F.eq_left a b c, F.swaps a b, F.swaps a c, F.swaps b c);
  }

  pub by-IsOrder {κ} : {B : Type κ} (key : B → A) → IsOrder (by key f)
  by-IsOrder key = record {
    swaps = λ a b. F.swaps (key a) (key b);
    lt_trans = λ a b c p q. F.lt_trans (key a) (key b) (key c) p q;
    eq_left = λ a b c p. F.eq_left (key a) (key b) (key c) p;
  }

  pub eq_right : (a b c : A) → f b c ≡ eq → f a b ≡ f a c
  eq_right a b c h = ground (arith, F.eq_left b c a, F.swaps a b, F.swaps a c)

  -- "Not above" is transitive.
  pub not_gt_trans : (a b c : A) → f b a ≢ lt → f c b ≢ lt → f c a ≢ lt
  not_gt_trans a b c p q r = ground (
    arith,
    F.lt_trans c a b,
    F.lt_trans b c a,
    F.eq_left a b c,
    F.swaps a b,
    F.swaps b c,
    F.swaps a c,
  )

pub compare-IsOrder : IsOrder compare
compare-IsOrder = record {
  swaps = λ a b. ground arith;
  lt_trans = λ a b c p q. ground arith;
  eq_left = λ a b c p. ground arith;
}

pub compare_ℤ-IsOrder : IsOrder compare_ℤ
compare_ℤ-IsOrder = record {
  swaps = λ a b. ground arith;
  lt_trans = λ a b c p q. ground arith;
  eq_left = λ a b c p. ground arith;
}

bytes_swaps : (a b : List ℕ) → compare_bytes b a ≡ swap (compare_bytes a b)
bytes_swaps [] [] = refl
bytes_swaps [] (b ∷ bs) = refl
bytes_swaps (a ∷ as') [] = refl
bytes_swaps (a ∷ as') (b ∷ bs) = ground (arith, bytes_swaps as' bs)

pub eq_of_compare_bytes : (a b : List ℕ) → compare_bytes a b ≡ eq → a ≡ b
eq_of_compare_bytes [] [] h = refl
eq_of_compare_bytes [] (b ∷ bs) h = cc
eq_of_compare_bytes (a ∷ as') [] h = cc
eq_of_compare_bytes (a ∷ as') (b ∷ bs) h = ground (arith, eq_of_compare_bytes as' bs)

pub compare_bytes_refl : (a : List ℕ) → compare_bytes a a ≡ eq
compare_bytes_refl [] = refl
compare_bytes_refl (a ∷ as') = ground (arith, compare_bytes_refl as')

bytes_lt_trans :
    (a b c : List ℕ) → compare_bytes a b ≡ lt → compare_bytes b c ≡ lt → compare_bytes a c ≡ lt
bytes_lt_trans [] [] c p q = cc
bytes_lt_trans [] (b ∷ bs) [] p q = cc
bytes_lt_trans [] (b ∷ bs) (c ∷ cs) p q = refl
bytes_lt_trans (a ∷ as') [] c p q = cc
bytes_lt_trans (a ∷ as') (b ∷ bs) [] p q = cc
bytes_lt_trans (a ∷ as') (b ∷ bs) (c ∷ cs) p q = ground (arith, bytes_lt_trans as' bs cs)

pub compare_bytes-IsOrder : IsOrder compare_bytes
compare_bytes-IsOrder = record {
  swaps = bytes_swaps;
  lt_trans = bytes_lt_trans;
  eq_left = λ a b c p. ap (λ (x : List ℕ). compare_bytes x c) (eq_of_compare_bytes a b p);
}
