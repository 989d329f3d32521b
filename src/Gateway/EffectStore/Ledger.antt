-- ===== src/Gateway/EffectStore/Ledger.antt =====
-- The table of the effects refines a map of registers that are written once: of a key the request,
-- and then the answer.
use denyra.Base.{
  Bool, false, ◌&&◌, Option, none, some, List, [], ◌∷◌, if◌then◌else◌, map, Result, ok, err,
}
use denyra.Base.Text.{Str, same}
use denyra.Base.Table as Table
use denyra.Base.Time.{Time}
use denyra.Gateway.EffectStore.{
  Effect, Error, idempotency_conflict, not_found, find_effect, put_effect, is_open,
  acknowledge_effect,
}

-- What an effect asks for.
pub record Claim : Type 0 where
  pub job_id : Str
  pub effect_type : Str
  pub request_hash : Str
  pub request : Str

abbrev pub claim_of : Effect → Claim
claim_of e = record {
  job_id = e.job_id;
  effect_type = e.effect_type;
  request_hash = e.request_hash;
  request = e.request;
}

-- The register of a key: nothing, a claim, or a claim with its answer and the answer's hash.
pub data Register : Type 0 where
  blank : Register
  claimed : Claim → Register
  settled : Claim → Option Str → Option Str → Register

abbrev pub same_claim : Claim → Claim → Bool
same_claim a b =
    same a.job_id b.job_id
    && same a.effect_type b.effect_type
    && same a.request_hash b.request_hash
    && same a.request b.request

pub data Call : Type 0 where
  puts : Str → Effect → Call
  acknowledges : Str → Str → Str → Time → Call

-- What a call does to the register of a key: of another key, nothing.
abbrev pub specified : Call → Str → Register → Register
specified (puts token effect) k blank =
    if same k effect.idempotency_key then claimed (claim_of effect) else blank
specified (acknowledges key response hash at) k (claimed c) =
    if same k key then settled c (some response) (some hash) else claimed c
specified _ k r = r

abbrev pub key_of : Call → Str
key_of (puts token effect) = effect.idempotency_key
key_of (acknowledges key response hash at) = key

abbrev pub is_hash : Str → Option Str → Bool
is_hash hash none = false
is_hash hash (some stored) = same stored hash

-- The error of a call, by the register of its key.
abbrev pub verdict : Call → Register → Option Error
verdict (puts token effect) blank = none
verdict (puts token effect) (claimed c) =
    if same_claim c (claim_of effect) then none else some idempotency_conflict
verdict (puts token effect) (settled c r h) =
    if same_claim c (claim_of effect) then none else some idempotency_conflict
verdict (acknowledges key response hash at) blank = some not_found
verdict (acknowledges key response hash at) (claimed c) = none
verdict (acknowledges key response hash at) (settled c r h) =
    if is_hash hash h then none else some idempotency_conflict

abbrev pub view_row : Option Effect → Register
view_row none = blank
view_row (some row) =
    if is_open row
    then claimed (claim_of row)
    else settled (claim_of row) row.response row.response_hash

-- The registers that a table stands for.
abbrev pub view : List Effect → Str → Register
view rows k = view_row (find_effect k rows)

abbrev pub call_result : Call → List Effect → Result Error (List Effect)
call_result (puts token effect) rows = put_effect token effect rows
call_result (acknowledges key response hash at) rows = acknowledge_effect key response hash at rows

abbrev pub rows_after : List Effect → Result Error (List Effect) → List Effect
rows_after rows (ok rows') = rows'
rows_after rows (err e) = rows

abbrev pub error_of : Result Error (List Effect) → Option Error
error_of (ok rows') = none
error_of (err e) = some e

abbrev pub perform : Call → List Effect → List Effect
perform c rows = rows_after rows (call_result c rows)

abbrev pub complaint : Call → List Effect → Option Error
complaint c rows = error_of (call_result c rows)

abbrev pub keys : List Effect → List Str
keys rows = map (λ row. row.idempotency_key) rows

abbrev pub IsKeyed : List Effect → Type 0
IsKeyed rows = Table.IsKeyed (λ row. row.idempotency_key) rows

-- The errors of a sequence of calls on the table, and on registers.
abbrev pub complaints : List Call → List Effect → List (Option Error)
complaints [] rows = []
complaints (c ∷ cs) rows = complaint c rows ∷ complaints cs (perform c rows)

abbrev pub perform_all : List Call → List Effect → List Effect
perform_all [] rows = rows
perform_all (c ∷ cs) rows = perform_all cs (perform c rows)

abbrev pub verdicts : List Call → (Str → Register) → List (Option Error)
verdicts [] m = []
verdicts (c ∷ cs) m = verdict c (m (key_of c)) ∷ verdicts cs (λ k. specified c k (m k))

abbrev pub specified_all : List Call → (Str → Register) → Str → Register
specified_all [] m = m
specified_all (c ∷ cs) m = specified_all cs (λ k. specified c k (m k))
