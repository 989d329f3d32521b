-- ===== src/Examples/Effects.antt =====
-- Runs of internal/gateway/persistence/effects.go.
use denyra.Base.{◌≡◌, none, List, [], ◌∷◌}
use denyra.Base.Text.{codes}
use denyra.Base.Time.{at_instant}
use denyra.Gateway.EffectStore.{Effect, intended}
use denyra.Gateway.EffectStore.Ledger.{
  Call, puts, acknowledges, view, perform_all, complaints, verdicts, specified_all,
}
use denyra.Gateway.EffectStore.Refinement.{perform_all-refines}

abbrev pub put_request : Effect
put_request = record {
  id = [];
  job_id = codes "job";
  effect_type = codes "PIPELINE_IMPORT";
  idempotency_key = codes "import:job";
  request_hash = codes "hash";
  request = codes "{}";
  status = intended;
  response = none;
  response_hash = none;
  created_at = at_instant 20;
  acknowledged_at = none;
}

-- An intent, its repetition, a conflicting one, its answer, the answer again, and another answer.
abbrev calls : List Call
calls =
    puts (codes "t1") put_request
    ∷ puts (codes "t2") put_request
    ∷ puts (codes "t3") (record put_request { request = codes "[]" })
    ∷ acknowledges (codes "import:job") (codes "done") (codes "h1") (at_instant 21)
    ∷ acknowledges (codes "import:job") (codes "done") (codes "h1") (at_instant 22)
    ∷ acknowledges (codes "import:job") (codes "other") (codes "h2") (at_instant 23)
    ∷ acknowledges (codes "import:no") (codes "other") (codes "h2") (at_instant 24)
    ∷ []

perform_all-refines_example :
    (complaints calls [] ≡ verdicts calls (view []))
    × (view (perform_all calls []) ≡ specified_all calls (view []))
perform_all-refines_example = perform_all-refines calls [] tt
