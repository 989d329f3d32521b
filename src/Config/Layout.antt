-- ===== src/Config/Layout.antt =====
-- Where a valid configuration puts the files.
use denyra.Base.{
  ◌≡◌, ◌⊎◌, refl, ap, ◌∙◌, arith, true, false, not, List, [], ◌∷◌, ◌++◌, any, map, All, All-mono,
  ok, Bool-cases, inl, inr, neither, negated, guard-ok,
}
use denyra.Base.Pigeonhole.{IsDistinct}
use denyra.Base.Text.{Str, same, same_iff, same_comm}
use denyra.Base.FilePath.{slash, clean, is_abs, has_prefix}
use denyra.Config.Types.{Config}
use denyra.Config.Sections.{validate-Sections}
use denyra.Config.Validate.{
  managed_paths, is_outside, check_paths, outside_data_root, paths_not_distinct, validate,
}

-- A path is absolute, and the root or below it.
abbrev pub IsInside : Str → Str → Type 0
IsInside root path =
    (is_abs (clean path) ≡ true)
    × ((clean path ≡ root) ⊎ ((rest : Str) × (clean path ≡ clean root ++ slash ∷ rest)))

has_prefix-rest : (s p : Str) → has_prefix s p ≡ true → (rest : Str) × (s ≡ p ++ rest)
has_prefix-rest s [] h = (s, refl)
has_prefix-rest [] (c ∷ p) h = absurd (cc)
has_prefix-rest (d ∷ s) (c ∷ p) h =
    let first : d ≡ c = ground arith in
    let (rest, e) = has_prefix-rest s p (ground arith) in (rest, cc)

append-slash : (p rest : Str) → (p ++ slash ∷ []) ++ rest ≡ p ++ slash ∷ rest
append-slash [] rest = refl
append-slash (c ∷ p) rest = ap (λ x. c ∷ x) (append-slash p rest)

is_outside-IsInside : (root path : Str) → is_outside root (clean path) ≡ false → IsInside root path
unfolding is_outside
is_outside-IsInside root path h =
    let (absolute, near) = neither (not (is_abs (clean path))) _ h in
    let is_absolute = negated (is_abs (clean path)) absolute in
    elim (Bool-cases (same (clean path) root)) [
      | inl s ↦ (is_absolute, inl ((same_iff (clean path) root).0 s))
      | inr s ↦
          let (rest, e) =
            has_prefix-rest (clean path) (clean root ++ slash ∷ []) (ground (arith, near)) in
          (is_absolute, inr (rest, e ∙ append-slash (clean root) rest))
    ]

abbrev IsNew : List Str → Str → Type 0
IsNew cleaned path = any (same (clean path)) cleaned ≡ false

none_same :
    (path : Str) (paths : List Str)
    → All (λ q. same (clean q) (clean path) ≡ false) paths
    → any (same (clean path)) (map clean paths) ≡ false
none_same path [] h = refl
none_same path (q ∷ paths) h = rw (same_comm (clean path) (clean q), h.0) (none_same path paths h.1)

check_paths-ok :
    (root : Str) (cleaned paths : List Str)
    → check_paths root cleaned paths ≡ ok tt
    → All (IsInside root) paths
      × All (IsNew cleaned) paths
      × IsDistinct same same_iff (map clean paths)
unfolding check_paths
check_paths-ok root cleaned [] h = (tt, tt, tt)
check_paths-ok root cleaned (path ∷ paths) h =
    let (inside, h₁) = guard-ok (is_outside root (clean path)) (outside_data_root path) _ h in
    let (new, h₂) =
      guard-ok (any (same (clean path)) cleaned) (paths_not_distinct (clean path)) _ h₁ in
    let (insides, news, distinct) = check_paths-ok root (clean path ∷ cleaned) paths h₂ in
    let parts : All (λ q. (same (clean q) (clean path) ≡ false) × IsNew cleaned q) paths =
      All-mono paths (λ q. neither (same (clean q) (clean path)) (any (same (clean q)) cleaned))
        news in
    (
      (is_outside-IsInside root path inside, insides),
      (new, All-mono paths (λ q p. p.1) parts),
      (none_same path paths (All-mono paths (λ q p. p.0) parts), distinct),
    )

-- The ten directories of a valid configuration are absolute, each is the data root or below it,
-- and no two are the same directory, however they are written.
pub validate-IsInside :
    (c : Config)
    → validate c ≡ ok tt
    → All (IsInside c.filesystem.data_root) (managed_paths c.filesystem)
      × IsDistinct same same_iff (map clean (managed_paths c.filesystem))
validate-IsInside c h =
    let sections = validate-Sections c h in
    let (inside, _, distinct) =
      check_paths-ok c.filesystem.data_root [] (managed_paths c.filesystem) sections.paths in
    (inside, distinct)
