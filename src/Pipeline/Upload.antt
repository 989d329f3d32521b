-- ===== src/Pipeline/Upload.antt =====
-- internal/pipeline/domain/upload.go: the manifest of an upload and the paths in it. The case
-- folding and the normal form of golang.org/x/text are parameters.
pub mod SafePath
pub mod Budget
use denyra.Base.{
  ℕ, Bool, true, false, not, ◌&&◌, ◌||◌, List, [], ◌∷◌, if◌then◌else◌, ltb, length, any, Result, ok,
  err, ◌>>=◌, ◌>>◌, reject_if,
}
use denyra.Base.Int.{ℤ, pos, ◌+ℤ◌, ◌-ℤ◌, int64, ltb_ℤ, leb_ℤ}
use denyra.Base.Text.{Str, codes, same, is_empty, valid_utf8, contains_byte}
use denyra.Base.FilePath.{split_slash, clean, dot, dot_dot, has_prefix}

pub record UploadFileSpec : Type 0 where
  pub id : Str
  pub relative_path : Str
  pub media_type : Str
  pub size_bytes : ℤ
  pub status : Str

pub record UploadManifest : Type 0 where
  pub files : List UploadFileSpec

pub record UploadLimits : Type 0 where
  pub max_file_bytes : ℤ
  pub max_session_bytes : ℤ
  pub max_entries : ℤ

pub data Error : Type 0 where
  limits_invalid manifest_empty too_many_entries unsafe_path : Error
  paths_collide file_policy session_policy : Error

-- The test of one segment.
unfoldable pub is_unsafe_segment : Str → Bool
is_unsafe_segment s = is_empty s || same s dot || same s dot_dot

-- The tests before the path is split, and the one of its shortest form.
unfoldable pub is_unsafe_text : Str → Bool
is_unsafe_text value =
    is_empty value
    || not (valid_utf8 value)
    || contains_byte value 0
    || contains_byte value b'\\'
    || has_prefix value (codes "/")

unfoldable pub is_not_clean : Str → Bool
is_not_clean value =
    not (same (clean value) value)
    || same (clean value) dot
    || has_prefix (clean value) (codes "../")

-- The test of the limits.
unfoldable pub are_invalid : UploadLimits → Bool
are_invalid limits =
    leb_ℤ limits.max_file_bytes (pos 0)
    || leb_ℤ limits.max_session_bytes (pos 0)
    || leb_ℤ limits.max_entries (pos 0)
    || ltb_ℤ limits.max_session_bytes limits.max_file_bytes

module _ (fold nfc : Str → Str) where
  -- `UploadPathKey`
  unfoldable pub upload_path_key : Str → Result Error Str
  upload_path_key value = do
    reject_if (is_unsafe_text value) unsafe_path
    reject_if (any is_unsafe_segment (split_slash value)) unsafe_path
    reject_if (is_not_clean value) unsafe_path
    ok (fold (nfc value))

  -- The tests of the loop on one file, whose key is known.
  unfoldable pub check_file :
      UploadLimits → List Str → ℤ → Str → UploadFileSpec → Result Error (Unit {0})
  check_file limits seen total key file = do
    reject_if (any (same key) seen) paths_collide
    reject_if (ltb_ℤ file.size_bytes (pos 0) || ltb_ℤ limits.max_file_bytes file.size_bytes)
        file_policy
    reject_if (ltb_ℤ (int64 (limits.max_session_bytes -ℤ file.size_bytes)) total) session_policy

  -- The loop over the files.
  unfoldable pub check_files :
      UploadLimits → List Str → ℤ → List UploadFileSpec → Result Error (Unit {0})
  check_files limits seen total [] = ok tt
  check_files limits seen total (file ∷ files) = do
    key ← upload_path_key file.relative_path
    check_file limits seen total key file
    check_files limits (key ∷ seen) (int64 (total +ℤ file.size_bytes)) files

  -- `ValidateUploadManifest`
  unfoldable pub validate_upload_manifest : UploadManifest → UploadLimits → Result Error (Unit {0})
  validate_upload_manifest manifest limits = do
    reject_if (are_invalid limits) limits_invalid
    reject_if (ltb (length manifest.files) 1) manifest_empty
    reject_if (ltb_ℤ limits.max_entries (pos (length manifest.files))) too_many_entries
    check_files limits [] (pos 0) manifest.files
