-- ===== src/Examples/Candidates.antt =====
-- Runs of internal/pipeline/domain/candidate.go, state.go and transition.go.
use denyra.Pipeline.Candidate.{created}
use denyra.Base.FilePath.{clean}
use denyra.Base.FilePath.{is_abs}
use denyra.Pipeline.Candidate.{valid_source}
use denyra.Base.Text.{trim_space}
use denyra.Pipeline.Candidate.{validate_candidate_id}
use denyra.Base.{◌≡◌, refl, true, List, [], ◌∷◌, ok, err}
use denyra.Base.Text.{codes}
use denyra.Base.Time.{at_instant}
use denyra.Pipeline.State.{
  State, received, claimed, stabilizing, working, technical_validation, release_matching, enriching,
  approved, import_ready, import_submitted, import_reconciling, imported, cancelled, rejected,
  valid, terminal, can_transition,
}
use denyra.Pipeline.State.Paths.{Walk, here, step, is_handing_over, hand_over_final}
use denyra.Pipeline.Candidate.{Candidate, NewCandidate, slskd, create_candidate, unsafe_directory}
use denyra.Pipeline.Candidate.History.{Call, EventChain, run, log, log-EventChain}

abbrev input : NewCandidate
input = record {
  id = codes "cand_1";
  source = slskd;
  release_directory = codes "/data/work/a";
  config_snapshot_id = codes "config";
  acquisition_evidence_id = codes "evidence";
  gateway_job_id = codes "job";
  now = at_instant 5;
}

abbrev fresh : Candidate
fresh = record {
  id = codes "cand_1";
  source = slskd;
  release_directory = codes "/data/work/a";
  config_snapshot_id = codes "config";
  acquisition_evidence_id = codes "evidence";
  gateway_job_id = codes "job";
  state = received;
  state_revision = 0;
  created_at = at_instant 5;
  updated_at = at_instant 5;
}

creates : create_candidate input ≡ ok fresh
unfolding create_candidate validate_candidate_id trim_space valid_source is_abs clean created
creates = refl

parent_refused :
    create_candidate (record input { release_directory = codes "/data/../a" })
    ≡ err unsafe_directory
unfolding create_candidate validate_candidate_id trim_space valid_source is_abs clean
parent_refused = refl

abbrev calls : List Call
calls =
    (record {
      expected = 0;
      to = claimed;
      actor = codes "worker";
      reason = codes "claim";
      now = at_instant 6;
    })
    ∷ (record {
      expected = 0;
      to = cancelled;
      actor = codes "admin";
      reason = codes "stop";
      now = at_instant 7;
    })
    ∷ []

log-EventChain_example :
    EventChain received 0
      (at_instant 5)
      (log fresh calls)
      (run fresh calls).state
      (run fresh calls).state_revision
      (run fresh calls).updated_at
log-EventChain_example = log-EventChain fresh calls

valid_rejected : valid rejected ≡ true
unfolding valid
valid_rejected = refl

terminal_rejected : terminal rejected ≡ true
unfolding terminal
terminal_rejected = refl

abbrev dropped : Candidate
dropped = record fresh { state = rejected; state_revision = 4 }

imports : Walk import_submitted (imported ∷ import_reconciling ∷ import_submitted ∷ []) imported
unfolding can_transition
imports = step imported (step import_reconciling here refl) refl

hand_over_final_example : is_handing_over imported ≡ true
hand_over_final_example = hand_over_final imports refl

abbrev states_to_import : List State
states_to_import =
    import_ready ∷ approved ∷ enriching ∷ release_matching ∷ technical_validation ∷ working
    ∷ stabilizing ∷ claimed ∷ received ∷ []
