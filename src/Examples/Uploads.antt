-- ===== src/Examples/Uploads.antt =====
-- Runs of internal/pipeline/domain/upload.go, with a folding of ASCII letters.
use denyra.Base.Int.{◌+ℤ◌}
use denyra.Base.Int.{◌-ℤ◌}
use denyra.Base.Int.{int64}
use denyra.Pipeline.Upload.{check_file}
use denyra.Base.FilePath.{clean}
use denyra.Pipeline.Upload.{is_not_clean}
use denyra.Pipeline.Upload.{is_unsafe_segment}
use denyra.Base.FilePath.{split_slash}
use denyra.Base.Text.{valid_utf8}
use denyra.Pipeline.Upload.{is_unsafe_text}
use denyra.Pipeline.Upload.{check_files}
use denyra.Pipeline.Upload.{are_invalid}
use denyra.Base.{ℕ, ◌≡◌, refl, ◌≤◌, true, [], ◌∷◌, map, All, length, ok, err, arith, if◌then◌else◌}
use denyra.Base.Int.{pos, ◌≤ℤ◌}
use denyra.Base.Pigeonhole.{IsDistinct}
use denyra.Base.Text.{Str, codes, same, same_iff, to_lower}
use denyra.Pipeline.Upload.{
  UploadFileSpec, UploadManifest, UploadLimits, unsafe_path, paths_collide, session_policy,
  upload_path_key, validate_upload_manifest,
}
use denyra.Pipeline.Upload.SafePath.{is_plain_path, upload_path_key_iff}
use denyra.Pipeline.Upload.Budget.{
  sum_sizes, IsAllowedSize, validate_upload_manifest-IsWithinLimits,
}

abbrev as_is : Str → Str
as_is s = s

abbrev file : Str → ℕ → UploadFileSpec
file path size = record {
  id = codes "f";
  relative_path = path;
  media_type = codes "audio/flac";
  size_bytes = pos size;
  status = [];
}

abbrev limits : UploadLimits
limits = record { max_file_bytes = pos 100; max_session_bytes = pos 150; max_entries = pos 10 }

abbrev manifest : UploadManifest
manifest = record { files = file (codes "a/1.flac") 100 ∷ file (codes "a/2.flac") 50 ∷ [] }

manifest_accepted : validate_upload_manifest to_lower as_is manifest limits ≡ ok tt
unfolding validate_upload_manifest are_invalid check_files upload_path_key is_unsafe_text valid_utf8
    split_slash is_unsafe_segment is_not_clean clean check_file int64 ◌-ℤ◌ ◌+ℤ◌
manifest_accepted = refl

one_byte_too_many :
    validate_upload_manifest to_lower as_is
      (record { files = file (codes "a/1.flac") 100 ∷ file (codes "a/2.flac") 51 ∷ [] })
      limits
    ≡ err session_policy
unfolding validate_upload_manifest are_invalid check_files upload_path_key is_unsafe_text valid_utf8
    split_slash is_unsafe_segment is_not_clean clean check_file int64 ◌-ℤ◌ ◌+ℤ◌
one_byte_too_many = refl

case_collision :
    validate_upload_manifest to_lower as_is
      (record { files = file (codes "a/1.flac") 1 ∷ file (codes "A/1.FLAC") 1 ∷ [] })
      limits
    ≡ err paths_collide
unfolding validate_upload_manifest are_invalid check_files upload_path_key is_unsafe_text valid_utf8
    split_slash is_unsafe_segment is_not_clean clean check_file int64 ◌-ℤ◌
case_collision = refl

upload_path_key_iff_example : upload_path_key to_lower as_is (codes "a/../b") ≡ (
    if is_plain_path (codes "a/../b")
    then ok (to_lower (as_is (codes "a/../b")))
    else err unsafe_path)
upload_path_key_iff_example = upload_path_key_iff to_lower as_is (codes "a/../b")

validate_upload_manifest-IsWithinLimits_example :
    (sum_sizes manifest.files ≤ 150)
    × All (IsAllowedSize 100) manifest.files
    × All (λ f. is_plain_path f.relative_path ≡ true) manifest.files
    × IsDistinct same same_iff (map (λ f. to_lower (as_is f.relative_path)) manifest.files)
    × (pos (length manifest.files) ≤ℤ limits.max_entries)
validate_upload_manifest-IsWithinLimits_example =
    validate_upload_manifest-IsWithinLimits to_lower as_is manifest limits 100 150 refl refl
      (omega arith) manifest_accepted
