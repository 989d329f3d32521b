-- ===== src/Base/FilePath.antt =====
-- The lexical functions of Go's `path` and `path/filepath` on Unix.
pub mod Plain
use denyra.Base.Tests.{◌==◌, if◌then◌else◌}
use denyra.Base.Text.{Str, codes, same, is_empty}
use Prim.Native.Nat.{ℕ}
use mathlib.Core.Path.{◌≡◌, refl}
use mathlib.Core.Bool.{Bool, true, false, ◌||◌, ◌&&◌, not}
use mathlib.Core.List.{List, [], ◌∷◌, ◌++◌, reverse}

abbrev pub slash : ℕ
slash = b'/'

unfoldable pub push_char : ℕ → List Str → List Str
push_char c [] = (c ∷ []) ∷ []
push_char c (s ∷ rest) = (c ∷ s) ∷ rest

-- `strings.Split(s, "/")`
unfoldable pub split_slash : Str → List Str
unfolding push_char
split_slash [] = [] ∷ []
split_slash (c ∷ s) = let rest = split_slash s in if c == slash then [] ∷ rest else push_char c rest

-- `strings.Join(parts, "/")`
unfoldable pub join_slash : List Str → Str
join_slash [] = []
join_slash (s ∷ []) = s
join_slash (s ∷ t ∷ rest) = s ++ slash ∷ join_slash (t ∷ rest)

abbrev pub dot : Str
dot = codes "."

abbrev pub dot_dot : Str
dot_dot = codes ".."

-- `filepath.IsAbs`
unfoldable pub is_abs : Str → Bool
is_abs [] = false
is_abs (c ∷ s) = c == slash

-- A `..` takes back the last name that was kept; there is nothing above the root.
step_up : Bool → List Str → List Str
step_up rooted [] = if rooted then [] else dot_dot ∷ []
step_up rooted (top ∷ kept) = if same top dot_dot then dot_dot ∷ top ∷ kept else kept

-- The names of a path that are kept, the last one first.
clean_names : Bool → List Str → List Str → List Str
unfolding step_up
clean_names rooted kept [] = kept
clean_names rooted kept (name ∷ rest) =
    clean_names rooted
      (if is_empty name || same name dot
        then kept
        else if same name dot_dot
        then step_up rooted kept
        else name ∷ kept)
      rest

or_dot : Str → Str
or_dot [] = dot
or_dot (c ∷ s) = c ∷ s

-- `filepath.Clean`
unfoldable pub clean : Str → Str
unfolding split_slash join_slash is_abs clean_names or_dot
clean s =
    let names = join_slash (reverse (clean_names (is_abs s) [] (split_slash s))) in
    or_dot (if is_abs s then slash ∷ names else names)

clean_samples :
    (clean (codes "/a//b/./../c/") ≡ codes "/a/c")
    × (clean (codes "../a/../..") ≡ codes "../..")
    × (clean (codes "/..") ≡ codes "/")
    × (clean [] ≡ codes ".")
unfolding clean
clean_samples = (refl, refl, refl, refl)

-- `strings.HasPrefix(s, prefix)`
abbrev pub has_prefix : Str → Str → Bool
has_prefix s [] = true
has_prefix [] (c ∷ p) = false
has_prefix (d ∷ s) (c ∷ p) = d == c && has_prefix s p
