-- ===== src/Base/Table.antt =====
-- A table of a database, as the list of its rows, where a column holds a key: the row of a key, and
-- what an insertion and an update do to it.
use mathlib.Core.Path.{◌≡◌, refl, ap, sym, ◌∙◌}
use mathlib.Core.Logic.{inl, inr}
use mathlib.Core.Bool.{true, false}
use mathlib.Core.Option
use mathlib.Core.Option.{Option, none, some}
use mathlib.Core.List.{List, [], ◌∷◌, map}
use denyra.Base.Tests.{if◌then◌else◌, Bool-cases, Option-cases}
use denyra.Base.Lists.{any}
use denyra.Base.Results.{some-injective}
use denyra.Base.Pigeonhole.{IsDistinct}
use denyra.Base.Text.{Str, same, same_iff, same_comm}

module _ {ℓ} {A : Type ℓ} (key : A → Str) where
  -- `SELECT ... WHERE key=?`
  unfoldable pub find : Str → List A → Option A
  find k [] = none
  find k (row ∷ rows) = let rest = find k rows in if same k (key row) then some row else rest

  -- `UPDATE ... WHERE key=?`
  abbrev pub update : Str → (A → A) → List A → List A
  update k f rows = map (λ row. if same k (key row) then f row else row) rows

  abbrev pub IsKeyed : List A → Type 0
  IsKeyed rows = IsDistinct same same_iff (map key rows)

  pub find-own :
      (k : Str) (row : A) (rows : List A) → same k (key row) ≡ true → find k (row ∷ rows) ≡ some row
  unfolding find
  find-own k row rows s = rw s refl

  pub find-other :
      (k : Str) (row : A) (rows : List A)
      → same k (key row) ≡ false
      → find k (row ∷ rows) ≡ find k rows
  unfolding find
  find-other k row rows s = rw s refl

  -- The row that is found has the key.
  pub find-key : (k : Str) (rows : List A) {row : A} → find k rows ≡ some row → k ≡ key row
  unfolding find
  find-key k [] h = cc
  find-key k (q ∷ rows) {row} h = elim (Bool-cases (same k (key q))) [
    | inl s ↦ (same_iff k (key q)).0 s ∙ ap key (some-injective (rw s at h))
    | inr s ↦ find-key k rows (rw s at h)
  ]

  pub find-none :
      (k : Str) (rows : List A) → find k rows ≡ none → any (same k) (map key rows) ≡ false
  unfolding find
  find-none k [] h = refl
  find-none k (row ∷ rows) h = elim (Bool-cases (same k (key row))) [
    | inl s ↦ let impossible = rw s at h in cc
    | inr s ↦ rw s (find-none k rows (rw s at h))
  ]

  pub find-same : (k j : Str) (rows : List A) → same k j ≡ true → find k rows ≡ find j rows
  find-same k j rows s = ap (λ x. find x rows) ((same_iff k j).0 s)

  -- A change of the rows that leaves the keys alone.
  module _ (f : A → A) (keeps : (row : A) → key (f row) ≡ key row) where
    pub find-map : (k : Str) (rows : List A) → find k (map f rows) ≡ Option.map f (find k rows)
    unfolding find
    find-map k [] = refl
    find-map k (row ∷ rows) = elim (Bool-cases (same k (key row))) [
      | inl s ↦ let s' : same k (key (f row)) ≡ true = ap (same k) (keeps row) ∙ s in simp (s, s')
      | inr s ↦
          let s' : same k (key (f row)) ≡ false = ap (same k) (keeps row) ∙ s in
          simp (s, s', find-map k rows)
    ]

    pub keys-map : (rows : List A) → map key (map f rows) ≡ map key rows
    keys-map [] = refl
    keys-map (row ∷ rows) = simp (keeps row, keys-map rows)

    update_row-key : (j : Str) (row : A) → key (if same j (key row) then f row else row) ≡ key row
    update_row-key j row = elim (Bool-cases (same j (key row))) [
      | inl s ↦ rw s (keeps row)
      | inr s ↦ rw s refl
    ]

  -- An update of the row of a key.
  pub find-update_own :
      (f : A → A) (keeps : (row : A) → key (f row) ≡ key row) (k : Str) (rows : List A) {row : A}
      → find k rows ≡ some row
      → find k (update k f rows) ≡ some (f row)
  find-update_own f keeps k rows {row} h =
      let own : same k (key row) ≡ true = (same_iff k (key row)).1 (find-key k rows h) in
      find-map (λ row. if same k (key row) then f row else row) (update_row-key f keeps k) k rows
      ∙ ap (Option.map (λ row. if same k (key row) then f row else row)) h
      ∙ simp own

  pub find-update_other :
      (f : A → A) (keeps : (row : A) → key (f row) ≡ key row) (k j : Str) (rows : List A)
      → same k j ≡ false
      → find k (update j f rows) ≡ find k rows
  find-update_other f keeps k j rows other =
      find-map (λ row. if same j (key row) then f row else row) (update_row-key f keeps j) k rows
      ∙ (elim (Option-cases (find k rows)) [
        | inl n ↦ rw n refl
        | inr (row, e) ↦
            let apart : same j (key row) ≡ false =
              ap (same j) (sym (find-key k rows e)) ∙ same_comm j k ∙ other in
            rw e (simp apart)
      ])

  pub update-keys :
      (f : A → A) (keeps : (row : A) → key (f row) ≡ key row) (j : Str) (rows : List A)
      → map key (update j f rows) ≡ map key rows
  update-keys f keeps j rows =
      keys-map (λ row. if same j (key row) then f row else row) (update_row-key f keeps j) rows
