-- ===== src/Examples/Offers.antt =====
-- Runs of internal/gateway/persistence/candidates.go.
use denyra.Base.{some, List, [], ◌∷◌}
use denyra.Base.Text.{Str, codes}
use denyra.Base.Time.{at_instant}
use denyra.Gateway.CandidateStore as CandidateStore
use denyra.Gateway.CandidateStore.{Candidate, insert_candidate}
use denyra.Gateway.CandidateStore.Evidence.{IsEvidenced, insert_all, insert_all-IsEvidenced}

abbrev fetched : Str → Str → Candidate
fetched id source = record {
  id = id;
  job_id = codes "job";
  source = source;
  source_locator = id;
  download_id = id;
  provenance_sha256 = codes "p";
  completed_at = some (at_instant 5);
  output_sha256 = codes "0123456789abcdef0123456789abcdef0123456789abcdef0123456789abcdef";
  output_manifest = codes "{}";
  provenance = codes "{}";
  created_at = at_instant 6;
}

abbrev candidates : List Candidate
candidates =
    fetched (codes "one") (codes "slskd")
    ∷ fetched (codes "two") (codes "spotiflac")
    ∷ record (fetched (codes "three") (codes "spotiflac")) { output_sha256 = codes "short" }
    ∷ []

abbrev no_candidates : CandidateStore.Store
no_candidates = record { candidates = []; outputs = [] }

insert_all-IsEvidenced_example : IsEvidenced (insert_all candidates no_candidates)
insert_all-IsEvidenced_example = insert_all-IsEvidenced candidates no_candidates (tt, tt)
