-- ===== src/Base/Text.antt =====
-- Go strings as their bytes, with the functions of `strings` that the program calls.
use Prim.Native.Nat.{ℕ, zero, suc, ◌+◌, Ordering, eq}
use Prim.Native.Char.{code}
use Prim.Native.String.{String}
use mathlib.Core.Path.{◌≡◌, refl, sym, ◌∙◌}
use mathlib.Core.Logic.{◌↔◌, inl, inr}
use mathlib.Core.Bool.{Bool, true, false, ◌&&◌, ◌||◌}
use mathlib.Core.Option.{Option, none, some}
use mathlib.Core.List.{List, [], ◌∷◌, map, reverse}
use native.Mathlib.Omega.{arith}
use denyra.Base.Tests.{Bool-cases, leb, ◌==◌, if◌then◌else◌}
use denyra.Base.Order.{compare_bytes, is_lt, eq_of_compare_bytes, compare_bytes_refl}

abbrev pub Str : Type 0
Str = List ℕ

-- The bytes of an ASCII literal.
abbrev pub codes : String → Str
codes String.[] = []
codes (String.◌∷◌ c s) = code c ∷ codes s

abbrev is_eq : Ordering → Bool
is_eq eq = true
is_eq _ = false

-- `a == b` and `a < b` on strings
abbrev pub same : Str → Str → Bool
same a b = is_eq (compare_bytes a b)

abbrev pub str_ltb : Str → Str → Bool
str_ltb a b = is_lt (compare_bytes a b)

pub same_iff : (a b : Str) → (same a b ≡ true) ↔ (a ≡ b)
same_iff a b =
    (λ h. eq_of_compare_bytes a b (ground arith), λ e. rw e (ground (arith, compare_bytes_refl b)))

pub same_comm : (a b : Str) → same a b ≡ same b a
same_comm a b = elim (Bool-cases (same a b)) [
  | inl e ↦ e ∙ sym ((same_iff b a).1 (sym ((same_iff a b).0 e)))
  | inr e ↦ elim (Bool-cases (same b a)) [
    | inl f ↦ let turned = (same_iff a b).1 (sym ((same_iff b a).0 f)) in cc
    | inr f ↦ e ∙ sym f
  ]
]

-- `s == ""`
abbrev pub is_empty : Str → Bool
is_empty [] = true
is_empty (c ∷ s) = false

abbrev is_ascii_space : ℕ → Bool
is_ascii_space c = c == 32 || (leb 9 c && leb c 13)

-- U+0085 and U+00A0
abbrev is_space_2 : ℕ → ℕ → Bool
is_space_2 a b = a == 0xc2 && (b == 0x85 || b == 0xa0)

-- U+1680, U+2000 to U+200A, U+2028, U+2029, U+202F, U+205F and U+3000
abbrev is_space_3 : ℕ → ℕ → ℕ → Bool
is_space_3 a b c =
    (a == 0xe1 && b == 0x9a && c == 0x80)
    || (a == 0xe2
        && b == 0x80
        && ((leb 0x80 c && leb c 0x8a) || c == 0xa8 || c == 0xa9 || c == 0xaf))
    || (a == 0xe2 && b == 0x81 && c == 0x9f)
    || (a == 0xe3 && b == 0x80 && c == 0x80)

-- The white space of `unicode.IsSpace`, in UTF-8, off the front. The two tests say which two and
-- three bytes form a space, in the order in which they are met.
trim_front : (ℕ → ℕ → Bool) → (ℕ → ℕ → ℕ → Bool) → Str → Str
trim_front two three [] = []
trim_front two three (a ∷ []) = if is_ascii_space a then [] else a ∷ []
trim_front two three (a ∷ b ∷ []) =
    let rest = trim_front two three (b ∷ []) in
    if is_ascii_space a then rest else if two a b then [] else a ∷ b ∷ []
trim_front two three (a ∷ b ∷ c ∷ s) =
    let after_1 = trim_front two three (b ∷ c ∷ s) in
    let after_2 = trim_front two three (c ∷ s) in
    let after_3 = trim_front two three s in
    if is_ascii_space a
    then after_1
    else if two a b
    then after_2
    else if three a b c
    then after_3
    else a ∷ b ∷ c ∷ s

trim_left : Str → Str
unfolding trim_front
trim_left s = trim_front is_space_2 is_space_3 s

trim_right : Str → Str
unfolding trim_front
trim_right s = reverse (trim_front (λ b a. is_space_2 a b) (λ c b a. is_space_3 a b c) (reverse s))

-- `strings.TrimSpace`
unfoldable pub trim_space : Str → Str
unfolding trim_left trim_right
trim_space s = trim_right (trim_left s)

trim_space_both : trim_space (codes " \tdenyra \n") ≡ codes "denyra"
unfolding trim_space
trim_space_both = refl

-- `strings.TrimSpace(s) == ""`
abbrev pub is_blank : Str → Bool
is_blank s = is_empty (trim_space s)

-- `strings.ToLower`, on ASCII letters.
abbrev pub lower : ℕ → ℕ
lower c = if leb b'A' c && leb c b'Z' then c + 32 else c

abbrev pub to_lower : Str → Str
to_lower = map lower

-- `unicode/utf8`: how many bytes follow a first byte, with the bounds of the next one.
utf8_lead : ℕ → Option (ℕ × ℕ × ℕ)
utf8_lead c =
    if leb c 0x7f
    then some (0, 0x80, 0xbf)
    else if leb c 0xc1
    then none
    else if leb c 0xdf
    then some (1, 0x80, 0xbf)
    else if c == 0xe0
    then some (2, 0xa0, 0xbf)
    else if c == 0xed
    then some (2, 0x80, 0x9f)
    else if leb c 0xef
    then some (2, 0x80, 0xbf)
    else if c == 0xf0
    then some (3, 0x90, 0xbf)
    else if leb c 0xf3
    then some (3, 0x80, 0xbf)
    else if c == 0xf4
    then some (3, 0x80, 0x8f)
    else none

utf8_from : ℕ → ℕ → ℕ → Str → Bool
unfolding utf8_lead
utf8_from zero low high [] = true
utf8_from (suc n) low high [] = false
utf8_from zero low high (c ∷ s) = elim (utf8_lead c) [
  | none ↦ false
  | some (n, l, h) ↦ utf8_from n l h s
]
utf8_from (suc n) low high (c ∷ s) =
    let rest = utf8_from n 0x80 0xbf s in leb low c && leb c high && rest

-- `utf8.ValidString`
unfoldable pub valid_utf8 : Str → Bool
unfolding utf8_from
valid_utf8 s = utf8_from 0 0 0 s

utf8_samples :
    (valid_utf8 (codes "denyra") ≡ true)
    × (valid_utf8 (0xc3 ∷ 0xa9 ∷ []) ≡ true)
    × (valid_utf8 (0xc3 ∷ []) ≡ false)
    × (valid_utf8 (0xed ∷ 0xa0 ∷ 0x80 ∷ []) ≡ false)
unfolding valid_utf8
utf8_samples = (refl, refl, refl, refl)

-- `strings.ContainsRune`, of an ASCII character
abbrev pub contains_byte : Str → ℕ → Bool
contains_byte [] c = false
contains_byte (d ∷ s) c = d == c || contains_byte s c
