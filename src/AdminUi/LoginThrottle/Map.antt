-- ===== src/AdminUi/LoginThrottle/Map.antt =====
-- The laws of the map of entries.
use mathlib.Core.Path.{◌≡◌, refl}
use denyra.Base.{
  ◌+◌, ◌≤◌, ◌<◌, Bool, true, not, none, some, [], ◌∷◌, arith, keep, length, length-keep-le,
  Bool-cases, inl, inr, ◌≢◌,
}
use denyra.Base.Text.{Str, same, same_iff}
use denyra.AdminUi.LoginThrottle.{Entry, Entries, find, put, delete}

pub same_refl : (k : Str) → same k k ≡ true
same_refl k = (same_iff k k).1 refl

pub find-put : (k : Str) (e : Entry) (es : Entries) → find k (put k e es) ≡ some e
unfolding find put
find-put k e [] = rw (same_refl k) refl
find-put k e ((j, d) ∷ es) = elim (Bool-cases (same k j)) [
  | inl h ↦ rw (h, h) refl
  | inr h ↦ rw (h, h) (find-put k e es)
]

pub find-delete : (k : Str) (es : Entries) → find k (delete k es) ≡ none
unfolding find delete
find-delete k [] = refl
find-delete k ((j, d) ∷ es) = elim (Bool-cases (same k j)) [
  | inl h ↦ rw h (find-delete k es)
  | inr h ↦ rw (h, h) (find-delete k es)
]

-- An entry that passes the test is found again when the others are dropped.
pub find-keep :
    (p : Entry → Bool) (k : Str) (es : Entries) {e : Entry}
    → find k es ≡ some e
    → p e ≡ true
    → find k (keep (λ q. p q.1) es) ≡ some e
unfolding find
find-keep p k [] h t = cc
find-keep p k ((j, d) ∷ es) {e} h t = ground (arith, find-keep p k es {e = e})

-- An absent key stays absent.
pub find-keep-none :
    (p : Entry → Bool) (k : Str) (es : Entries)
    → find k es ≡ none
    → find k (keep (λ q. p q.1) es) ≡ none
unfolding find
find-keep-none p k [] h = refl
find-keep-none p k ((j, d) ∷ es) h = ground (arith, find-keep-none p k es)

-- Storing adds at most one entry, and none for a key that is there.
pub length-put-le : (k : Str) (e : Entry) (es : Entries) → length (put k e es) ≤ length es + 1
unfolding put
length-put-le k e [] = omega arith
length-put-le k e ((j, d) ∷ es) = ground (arith, length-put-le k e es)

pub length-put-found :
    (k : Str) (e d : Entry) (es : Entries) → find k es ≡ some d → length (put k e es) ≡ length es
unfolding put find
length-put-found k e d [] h = cc
length-put-found k e d ((j, c) ∷ es) h = ground (arith, length-put-found k e d es)

-- Deleting a key that is there makes room.
pub length-delete-lt :
    (k : Str) (es : Entries) → find k es ≢ none → length (delete k es) < length es
unfolding delete find
length-delete-lt k [] h = absurd (h refl)
length-delete-lt k ((j, d) ∷ es) h = elim (Bool-cases (same k j)) [
  | inl e ↦ rw e (omega (arith, length-keep-le (λ p. not (same k p.0)) es))
  | inr e ↦ rw e (omega (arith, length-delete-lt k es (rw e at h)))
]
