-- ===== src/Gateway/CandidateStore.antt =====
-- internal/gateway/persistence/candidates.go: the acquired files that are offered for a job. A
-- pending candidate is being downloaded, a candidate is complete. The failures of the database
-- itself, the reference to the job and the checksum of the manifest are left out.
pub mod Evidence
use denyra.Base.{
  ℕ, Bool, true, false, not, ◌&&◌, ◌||◌, Option, none, some, List, [], ◌∷◌, ◌==◌, if◌then◌else◌,
  any, keep, length, Result, ok, err, ◌>>=◌, ◌>>◌, reject_if,
}
use denyra.Base.Text.{Str, codes, same, is_empty, str_ltb}
use denyra.Base.Table as Table
use denyra.Base.Time.{Time, utc}
use denyra.Base.TimeText.{format_time}
use denyra.Base.Sort.{sort_stable}

-- `Candidate`
pub record Candidate : Type 0 where
  pub id : Str
  pub job_id : Str
  pub source : Str
  pub source_locator : Str
  pub download_id : Str
  pub provenance_sha256 : Str
  pub completed_at : Option Time
  pub output_sha256 : Str
  pub output_manifest : Str
  pub provenance : Str
  pub created_at : Time

-- A row of candidates, without the columns that only a query for people reads.
pub record Row : Type 0 where
  pub candidate_id : Str
  pub job_id : Str
  pub source : Str
  pub source_locator : Str
  pub download_id : Str
  pub completed_at : Time
  pub provenance : Str
  pub provenance_sha256 : Str
  pub created_at : Time

-- A row of candidate_output_evidence.
pub record Output : Type 0 where
  pub candidate_id : Str
  pub output_sha256 : Str
  pub manifest : Str
  pub completed_at : Time
  pub created_at : Time

pub record Store : Type 0 where
  pub candidates : List Row
  pub outputs : List Output

pub data Error : Type 0 where
  incomplete_evidence constraint_failed idempotency_conflict not_found : Error

abbrev pub find_candidate : Str → List Row → Option Row
find_candidate id rows = Table.find (λ row. row.candidate_id) id rows

abbrev pub find_output : Str → List Output → Option Output
find_output id rows = Table.find (λ row. row.candidate_id) id rows

unfoldable pub has_output : Candidate → Bool
has_output c = not (is_empty c.output_sha256) || not (is_empty c.output_manifest)

-- The checks before the transaction, and the time of the completion.
unfoldable pub check_evidence : Candidate → Result Error Time
check_evidence c = elim c.completed_at [
  | none ↦ err incomplete_evidence
  | some completed ↦ do
    reject_if (has_output c && (not (length c.output_sha256 == 64) || is_empty c.output_manifest))
        incomplete_evidence
    reject_if (not (same c.source (codes "slskd")) && not (has_output c)) incomplete_evidence
    ok completed
]

-- The constraints of the table, beside its key.
unfoldable pub is_refused : Candidate → List Row → Bool
is_refused c rows =
    any
      (λ row.
        same row.job_id c.job_id
        && same row.source c.source
        && same row.source_locator c.source_locator)
      rows

unfoldable pub add_candidate : Candidate → Time → List Row → Option Row → Result Error (List Row)
add_candidate c completed rows (some row) = do
  reject_if (not (same row.provenance_sha256 c.provenance_sha256)) idempotency_conflict
  ok rows
add_candidate c completed rows none = do
  reject_if (is_refused c rows) constraint_failed
  ok (
      (record {
        candidate_id = c.id;
        job_id = c.job_id;
        source = c.source;
        source_locator = c.source_locator;
        download_id = c.download_id;
        completed_at = utc completed;
        provenance = c.provenance;
        provenance_sha256 = c.provenance_sha256;
        created_at = utc c.created_at;
      })
      ∷ rows)

unfoldable pub add_output :
    Candidate → Time → List Output → Option Output → Result Error (List Output)
add_output c completed rows (some row) = do
  reject_if (not (same row.output_sha256 c.output_sha256)) idempotency_conflict
  ok rows
add_output c completed rows none = ok (
    (record {
      candidate_id = c.id;
      output_sha256 = c.output_sha256;
      manifest = c.output_manifest;
      completed_at = utc completed;
      created_at = utc c.created_at;
    })
    ∷ rows)

-- `CHECK(source IN ('slskd','spotiflac'))`
unfoldable pub is_known_source : Str → Bool
is_known_source source = same source (codes "slskd") || same source (codes "spotiflac")

-- `InsertCandidate`
unfoldable pub insert_candidate : Candidate → Store → Result Error Store
insert_candidate c store = do
  completed ← check_evidence c
  reject_if (not (is_known_source c.source)) constraint_failed
  rows ← add_candidate c completed store.candidates (find_candidate c.id store.candidates)
  outputs ←
      if has_output c
      then add_output c completed store.outputs (find_output c.id store.outputs)
      else ok store.outputs
  ok (record { candidates = rows; outputs = outputs })

abbrev output_columns : Option Output → Str × Str
output_columns none = ([], [])
output_columns (some row) = (row.output_sha256, row.manifest)

abbrev with_output : Row → Str × Str → Candidate
with_output row (sha, manifest) = record {
  id = row.candidate_id;
  job_id = row.job_id;
  source = row.source;
  source_locator = row.source_locator;
  download_id = row.download_id;
  provenance_sha256 = row.provenance_sha256;
  completed_at = some row.completed_at;
  output_sha256 = sha;
  output_manifest = manifest;
  provenance = row.provenance;
  created_at = row.created_at;
}

-- `Candidate`, the query
unfoldable pub candidate : Str → Store → Result Error Candidate
candidate id store = elim (find_candidate id store.candidates) [
  | none ↦ err not_found
  | some row ↦ ok (with_output row (output_columns (find_output id store.outputs)))
]

-- `PendingCandidate`, and a row of pending_acquisition_candidates
pub record PendingCandidate : Type 0 where
  pub id : Str
  pub job_id : Str
  pub source : Str
  pub source_locator : Str
  pub download_id : Str
  pub provenance_sha256 : Str
  pub provenance : Str
  pub created_at : Time

abbrev pub find_pending : Str → List PendingCandidate → Option PendingCandidate
find_pending id rows = Table.find (λ row. row.id) id rows

unfoldable pub add_pending :
    PendingCandidate
    → List PendingCandidate
    → Option PendingCandidate
    → Result Error (List PendingCandidate)
add_pending c rows (some row) = do
  reject_if (not (same row.provenance_sha256 c.provenance_sha256)) idempotency_conflict
  ok rows
add_pending c rows none = do
  reject_if
      (any
        (λ row.
          same row.job_id c.job_id
          && same row.source c.source
          && same row.source_locator c.source_locator)
        rows)
      constraint_failed
  ok (record c { created_at = utc c.created_at } ∷ rows)

-- `InsertPendingCandidate`
unfoldable pub insert_pending_candidate :
    PendingCandidate → List PendingCandidate → Result Error (List PendingCandidate)
insert_pending_candidate c rows = do
  reject_if (not (is_known_source c.source)) constraint_failed
  add_pending c rows (find_pending c.id rows)

-- `PendingCandidate`, the query
unfoldable pub pending_candidate : Str → List PendingCandidate → Result Error PendingCandidate
pending_candidate id rows = elim (find_pending id rows) [ none ↦ err not_found | some row ↦ ok row ]

-- `ORDER BY p.created_at,p.candidate_id`, on the texts of the times
unfoldable pub pending_before : PendingCandidate → PendingCandidate → Bool
pending_before a b =
    let s = format_time a.created_at in
    let t = format_time b.created_at in str_ltb s t || (same s t && str_ltb a.id b.id)

abbrev is_missing : Option Row → Bool
is_missing none = true
is_missing (some row) = false

-- `IncompletePendingCandidates` of a job, and `IncompletePendingCandidatesBySource`
unfoldable pub incomplete_pending_candidates :
    Str → List Row → List PendingCandidate → List PendingCandidate
incomplete_pending_candidates job_id candidates rows =
    sort_stable pending_before
      (keep (λ row. same row.job_id job_id && is_missing (find_candidate row.id candidates)) rows)

unfoldable pub incomplete_pending_by_source :
    Str → List Row → List PendingCandidate → List PendingCandidate
incomplete_pending_by_source source candidates rows =
    sort_stable pending_before
      (keep (λ row. same row.source source && is_missing (find_candidate row.id candidates)) rows)
