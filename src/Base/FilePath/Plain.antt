-- ===== src/Base/FilePath/Plain.antt =====
-- A path of plain names is its own shortest form.
use Prim.Native.Nat.{ℕ}
use mathlib.Core.Path.{◌≡◌, refl, ap, ◌∙◌}
use mathlib.Core.Logic.{inl, inr}
use mathlib.Core.Bool.{Bool, false, ◌||◌}
use mathlib.Core.List.{List, [], ◌∷◌, reverse_aux, reverse-reverse}
use native.Mathlib.Omega.{arith}
use denyra.Base.Tests.{◌==◌, Bool-cases}
use denyra.Base.Lists.{any}
use denyra.Base.Results.{neither}
use denyra.Base.Text.{Str, same, is_empty}
use denyra.Base.FilePath.{
  slash, push_char, split_slash, join_slash, is_abs, dot, dot_dot, clean_names, or_dot, clean,
}

-- A name that the shortest form leaves out or takes back.
abbrev pub is_special : Str → Bool
is_special s = is_empty s || same s dot || same s dot_dot

join_slash-empty : join_slash ([] ∷ []) ≡ []
unfolding join_slash
join_slash-empty = refl

join_slash-push_char : (c : ℕ) (xs : List Str) → join_slash (push_char c xs) ≡ c ∷ join_slash xs
unfolding join_slash push_char
join_slash-push_char c [] = refl
join_slash-push_char c (s ∷ []) = refl
join_slash-push_char c (s ∷ t ∷ rest) = refl

push_char-some : (c : ℕ) (xs : List Str) → (h : Str) × (t : List Str) × (push_char c xs ≡ h ∷ t)
unfolding push_char
push_char-some c [] = (c ∷ [], [], refl)
push_char-some c (s ∷ xs) = (c ∷ s, xs, refl)

split_slash-some : (s : Str) → (h : Str) × (t : List Str) × (split_slash s ≡ h ∷ t)
unfolding split_slash
split_slash-some [] = ([], [], refl)
split_slash-some (c ∷ s) = elim (Bool-cases (c == slash)) [
  | inl e ↦ rw e ([], split_slash s, refl)
  | inr e ↦ rw e (push_char-some c (split_slash s))
]

join_slash-after :
    (xs : List Str) (h : Str) (t : List Str)
    → xs ≡ h ∷ t
    → join_slash ([] ∷ xs) ≡ slash ∷ join_slash xs
unfolding join_slash
join_slash-after xs h t e = rw e refl

-- Joining what was split gives the string back.
join_slash-split_slash : (s : Str) → join_slash (split_slash s) ≡ s
unfolding split_slash
join_slash-split_slash [] = join_slash-empty
join_slash-split_slash (c ∷ s) = elim (Bool-cases (c == slash)) [
  | inl e ↦
      let (h, t, q) = split_slash-some s in
      let same : slash ≡ c = ground arith in
      rw e (
        join_slash-after _ h t q
        ∙ ap (λ l. slash ∷ l) (join_slash-split_slash s)
        ∙ ap (λ d. d ∷ s) same)
  | inr e ↦
      rw e (join_slash-push_char c (split_slash s) ∙ ap (λ l. c ∷ l) (join_slash-split_slash s))
]

-- Plain names are all kept.
clean_names-plain :
    (rooted : Bool) (kept names : List Str)
    → any is_special names ≡ false
    → clean_names rooted kept names ≡ reverse_aux names kept
unfolding clean_names
clean_names-plain rooted kept [] h = refl
clean_names-plain rooted kept (n ∷ names) h =
    let (plain, rest) = neither (is_special n) (any is_special names) h in
    let (a, b) = neither (is_empty n || same n dot) (same n dot_dot) plain in
    rw (a, b) (clean_names-plain rooted (n ∷ kept) names rest)

not_abs : (s : Str) → any is_special (split_slash s) ≡ false → is_abs s ≡ false
unfolding split_slash is_abs
not_abs [] h = refl
not_abs (c ∷ s) h = elim (Bool-cases (c == slash)) [ inl e ↦ let q = rw e at h in cc | inr e ↦ e ]

or_dot-plain : (s : Str) → any is_special (split_slash s) ≡ false → or_dot s ≡ s
unfolding or_dot split_slash
or_dot-plain [] h = cc
or_dot-plain (c ∷ s) h = refl

-- A path whose names are all plain is its own shortest form.
pub clean-plain : (s : Str) → any is_special (split_slash s) ≡ false → clean s ≡ s
unfolding clean
clean-plain s h =
    rw
      (
        not_abs s h,
        clean_names-plain false [] (split_slash s) h,
        reverse-reverse (split_slash s),
        join_slash-split_slash s,
      )
      (or_dot-plain s h)
