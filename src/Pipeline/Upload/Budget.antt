-- ===== src/Pipeline/Upload/Budget.antt =====
-- What a manifest that was accepted promises: its bytes, its paths and its keys.
use Prim.Native.Nat.{ℕ, ◌+◌, ◌-◌, ◌≤◌}
use denyra.Base.{
  ◌≡◌, refl, sym, subst, ◌∙◌, arith, true, false, ◌||◌, List, [], ◌∷◌, map, any, All, Bool-cases,
  inl, inr, ok, >>=-eq-ok, guard-ok, reject_if-ok, ok-injective, length, ltb,
}
use denyra.Base.Int.{
  ℤ, pos, negsuc, pos_part, ◌-ℤ◌, ◌≤ℤ◌, int64, max_int64, int64-pos, +ℤ-pos, -ℤ-pos, ltb_ℤ,
}
use denyra.Base.Pigeonhole.{IsDistinct, apart, unseen}
use denyra.Base.Text.{Str, same, same_iff}
use denyra.Pipeline.Upload.{
  UploadFileSpec, UploadManifest, UploadLimits, upload_path_key, check_file, check_files,
  validate_upload_manifest, are_invalid, limits_invalid, manifest_empty, too_many_entries,
  paths_collide, file_policy, session_policy,
}
use denyra.Pipeline.Upload.SafePath.{is_plain_path, upload_path_key_iff}

-- The bytes of the files.
abbrev pub sum_sizes : List UploadFileSpec → ℕ
sum_sizes [] = 0
sum_sizes (f ∷ fs) = pos_part f.size_bytes + sum_sizes fs

-- The size of a file is not negative and within the limit.
abbrev pub IsAllowedSize : ℕ → UploadFileSpec → Type 0
IsAllowedSize max_file f = (pos 0 ≤ℤ f.size_bytes) × (f.size_bytes ≤ℤ pos max_file)

allowed_size :
    (z : ℤ) (m : ℕ) → (ltb_ℤ z (pos 0) || ltb_ℤ (pos m) z) ≡ false → (k : ℕ) × (z ≡ pos k) × (k ≤ m)
allowed_size (pos k) m h = (k, refl, ground (arith, h))
allowed_size (negsuc k) m h = let impossible : ⊥ = ground arith in absurd impossible

-- Before the sum is made it is known to fit.
room_left :
    (n k m : ℕ) → k ≤ m → m ≤ max_int64 → ltb_ℤ (int64 (pos m -ℤ pos k)) (pos n) ≡ false → n + k ≤ m
room_left n k m hk hm h =
    let e : int64 (pos m -ℤ pos k) ≡ pos (m - k) =
      rw (-ℤ-pos m k hk) (int64-pos (m - k) (omega arith)) in
    let q = rw e at h in ground arith

module _ (fold nfc : Str → Str) where
  abbrev key_of : UploadFileSpec → Str
  key_of f = fold (nfc f.relative_path)

  upload_path_key-ok :
      (v : Str) {k : Str}
      → upload_path_key fold nfc v ≡ ok k
      → (is_plain_path v ≡ true) × (fold (nfc v) ≡ k)
  upload_path_key-ok v {k} h = elim (Bool-cases (is_plain_path v)) [
    | inl e ↦ (e, ok-injective (rw e at (sym (upload_path_key_iff fold nfc v) ∙ h)))
    | inr e ↦ let q = rw e at (sym (upload_path_key_iff fold nfc v) ∙ h) in cc
  ]

  check_file-ok :
      (limits : UploadLimits) (m : ℕ) (seen : List Str) (total : ℤ) (key : Str) (f : UploadFileSpec)
      {u : Unit {0}}
      → limits.max_file_bytes ≡ pos m
      → check_file fold nfc limits seen total key f ≡ ok u
      → (any (same key) seen ≡ false)
        × (ltb_ℤ f.size_bytes (pos 0) || ltb_ℤ (pos m) f.size_bytes ≡ false)
        × (ltb_ℤ (int64 (limits.max_session_bytes -ℤ f.size_bytes)) total ≡ false)
  unfolding check_file
  check_file-ok limits m seen total key f hm h =
      let (a, h₁) = guard-ok (any (same key) seen) paths_collide _ h in
      let (b, h₂) =
        guard-ok (ltb_ℤ f.size_bytes (pos 0) || ltb_ℤ limits.max_file_bytes f.size_bytes)
          file_policy _ h₁ in
      (a, rw hm at b, reject_if-ok _ session_policy h₂)

  -- What the loop promises of the files that are left.
  abbrev IsAccepted : ℕ → ℕ → List Str → ℕ → List UploadFileSpec → Type 0
  IsAccepted max_file max_session seen total files =
      (total + sum_sizes files ≤ max_session)
      × All (IsAllowedSize max_file) files
      × All (λ f. is_plain_path f.relative_path ≡ true) files
      × All (λ k. any (same k) seen ≡ false) (map key_of files)
      × IsDistinct same same_iff (map key_of files)

  -- One more file at the front.
  IsAccepted-more :
      (m n : ℕ) (seen : List Str) (total k : ℕ) (f : UploadFileSpec) (fs : List UploadFileSpec)
      → f.size_bytes ≡ pos k
      → k ≤ m
      → is_plain_path f.relative_path ≡ true
      → any (same (key_of f)) seen ≡ false
      → IsAccepted m n (key_of f ∷ seen) (total + k) fs
      → IsAccepted m n seen total (f ∷ fs)
  IsAccepted-more m n seen total k f fs sized small plain fresh i = rw sized (
    omega (arith, i.0),
    ((omega arith, omega (arith, small)), i.1),
    (plain, i.2),
    (fresh, unseen same same_iff (key_of f) seen _ i.3),
    (apart same same_iff (key_of f) seen _ i.3, i.4),
  )

  check_files-IsAccepted :
      (limits : UploadLimits) (m n : ℕ) (seen : List Str) (total : ℕ) (files : List UploadFileSpec)
      {u : Unit {0}}
      → limits.max_file_bytes ≡ pos m
      → limits.max_session_bytes ≡ pos n
      → m ≤ n
      → n ≤ max_int64
      → total ≤ n
      → check_files fold nfc limits seen (pos total) files ≡ ok u
      → IsAccepted m n seen total files
  unfolding check_files
  check_files-IsAccepted limits m n seen total [] hm hn hl hx ht h = (omega arith, tt, tt, tt, tt)
  check_files-IsAccepted limits m n seen total (f ∷ fs) hm hn hl hx ht h =
      let (key, keyed, h₁) = >>=-eq-ok (upload_path_key fold nfc f.relative_path) _ h in
      let (_, checked, h₂) = >>=-eq-ok (check_file fold nfc limits seen (pos total) key f) _ h₁ in
      let (plain, is_key) = upload_path_key-ok f.relative_path keyed in
      let (fresh, allowed, room) = check_file-ok limits m seen (pos total) key f hm checked in
      let (k, sized, small) = allowed_size f.size_bytes m allowed in
      let fits = room_left total k n (omega arith) hx (rw (hn, sized) at room) in
      let rest = rw (sized, +ℤ-pos total k, int64-pos (total + k) (omega arith)) at h₂ in
      let i = check_files-IsAccepted limits m n (key ∷ seen) (total + k) fs hm hn hl hx fits rest in
      IsAccepted-more m n seen total k f fs sized small plain (rw (sym is_key) at fresh)
        (subst (λ j. IsAccepted m n (j ∷ seen) (total + k) fs) (sym is_key) i)

-- When a manifest is accepted under limits that fit in an int64, its files together are within
-- the limit of the session, each has a size from 0 to the limit of a file, the paths are plain,
-- and no two have the same key; none of the sums that are tested on the way wraps around.
pub validate_upload_manifest-IsWithinLimits :
    (fold nfc : Str → Str) (manifest : UploadManifest) (limits : UploadLimits) (m n : ℕ)
    → limits.max_file_bytes ≡ pos m
    → limits.max_session_bytes ≡ pos n
    → n ≤ max_int64
    → validate_upload_manifest fold nfc manifest limits ≡ ok tt
    → (sum_sizes manifest.files ≤ n)
      × All (IsAllowedSize m) manifest.files
      × All (λ f. is_plain_path f.relative_path ≡ true) manifest.files
      × IsDistinct same same_iff (map (λ f. fold (nfc f.relative_path)) manifest.files)
      × (pos (length manifest.files) ≤ℤ limits.max_entries)
unfolding validate_upload_manifest are_invalid
validate_upload_manifest-IsWithinLimits fold nfc manifest limits m n hm hn hx h =
    let (a, h₁) = guard-ok (are_invalid limits) limits_invalid _ h in
    let (_, h₂) = guard-ok (ltb (length manifest.files) 1) manifest_empty _ h₁ in
    let (b, h₃) =
      guard-ok (ltb_ℤ limits.max_entries (pos (length manifest.files))) too_many_entries _ h₂ in
    let q = rw (hm, hn) at a in
    let i =
      check_files-IsAccepted fold nfc limits m n [] 0 manifest.files hm hn (ground arith) hx
        (omega arith) h₃ in
    (omega (arith, i.0), i.1, i.2, i.4, ground arith)
