-- ===== src/Pipeline/Upload/SafePath.antt =====
-- Which upload paths are accepted, and under which key.
use denyra.Base.{
  ◌≡◌, refl, arith, Bool, true, false, not, ◌&&◌, List, [], ◌∷◌, any, if◌then◌else◌, Bool-cases,
  inl, inr, ok, err,
}
use denyra.Base.Text.{Str, codes, same, same_iff, is_empty, valid_utf8, contains_byte}
use denyra.Base.FilePath.{split_slash, push_char, dot, has_prefix}
use denyra.Base.FilePath.Plain.{is_special, clean-plain}
use denyra.Pipeline.Upload.{
  is_unsafe_text, is_unsafe_segment, is_not_clean, upload_path_key, unsafe_path,
}

-- A path that starts with a slash has an empty segment, and one that starts with `../` a `..`.
rooted_special : (v : Str) → has_prefix v (codes "/") ≡ true → any is_special (split_slash v) ≡ true
unfolding split_slash
rooted_special [] h = cc
rooted_special (c ∷ s) h = let e : c ≡ b'/' = ground arith in rw e refl

parent_special :
    (v : Str) → has_prefix v (codes "../") ≡ true → any is_special (split_slash v) ≡ true
unfolding split_slash push_char
parent_special [] h = cc
parent_special (a ∷ []) h = ground arith
parent_special (a ∷ b ∷ []) h = ground arith
parent_special (a ∷ b ∷ c ∷ s) h =
    let e : a ≡ b'.' = ground arith in
    let f : b ≡ b'.' = ground arith in let g : c ≡ b'/' = ground arith in rw (e, f, g) refl

dot_special : (v : Str) → same v dot ≡ true → any is_special (split_slash v) ≡ true
unfolding split_slash push_char
dot_special v h = let e : v ≡ dot = (same_iff v dot).0 h in rw e refl

empty_special : (v : Str) → is_empty v ≡ true → any is_special (split_slash v) ≡ true
unfolding split_slash
empty_special [] h = refl
empty_special (c ∷ s) h = cc

-- The last test of `UploadPathKey` refuses nothing that the one of the segments lets through.
plain-clean : (v : Str) → any is_special (split_slash v) ≡ false → is_not_clean v ≡ false
unfolding is_not_clean
plain-clean v h =
    rw (clean-plain v h) (ground (arith, h, (same_iff v v).1 refl, dot_special v, parent_special v))

segments_agree : (xs : List Str) → any is_unsafe_segment xs ≡ any is_special xs
unfolding is_unsafe_segment
segments_agree xs = refl

-- What an upload path must be.
abbrev pub is_plain_path : Str → Bool
is_plain_path v =
    valid_utf8 v
    && not (contains_byte v 0)
    && not (contains_byte v b'\\')
    && not (any is_special (split_slash v))

-- A path is accepted exactly when it is valid UTF-8 without NUL and backslash and none of its
-- segments is empty, `.` or `..`; its key is then the folded normal form, and otherwise it is
-- refused as unsafe. The tests for an empty path, a leading slash and `path.Clean` add nothing.
pub upload_path_key_iff :
    (fold nfc : Str → Str) (v : Str)
    → upload_path_key fold nfc v ≡ (if is_plain_path v then ok (fold (nfc v)) else err unsafe_path)
unfolding upload_path_key is_unsafe_text
upload_path_key_iff fold nfc v =
    let seg = segments_agree (split_slash v) in
    elim (Bool-cases (any is_special (split_slash v))) [
      | inl e ↦ rw (seg, e) (ground arith)
      | inr e ↦ rw (seg, e, plain-clean v e) (ground (arith, e, rooted_special v, empty_special v))
    ]
