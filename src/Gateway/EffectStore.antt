-- ===== src/Gateway/EffectStore.antt =====
-- internal/gateway/persistence/effects.go, with insertEffectTx of arbitration.go: the table
-- external_effects, where a call of another service is written down before it is made, and its
-- answer after. The key of an effect is unique. The token is what ids.NewToken returns. The
-- failures of the database itself, the reference to the job and a token that is used already are
-- left out.
pub mod Ledger
pub mod Puts
pub mod Answers
pub mod Refinement
use denyra.Base.{
  Bool, true, false, not, ◌&&◌, ◌||◌, Option, none, some, List, [], ◌∷◌, if◌then◌else◌, any, map,
  keep, Result, ok, err, ◌>>◌, reject_if,
}
use denyra.Base.Text.{Str, same, is_empty, str_ltb}
use denyra.Base.Table as Table
use denyra.Base.Time.{Time, utc}
use denyra.Base.TimeText.{format_time}
use denyra.Base.Sort.{sort_stable}

pub data Status : Type 0 where
  intended acknowledged : Status

-- `Effect`, and a row of the table. A value that is put has no answer yet.
pub record Effect : Type 0 where
  pub id : Str
  pub job_id : Str
  pub effect_type : Str
  pub idempotency_key : Str
  pub request_hash : Str
  pub request : Str
  pub status : Status
  pub response : Option Str
  pub response_hash : Option Str
  pub created_at : Time
  pub acknowledged_at : Option Time

pub data Error : Type 0 where
  idempotency_conflict not_found : Error

unfoldable pub has_key : Str → Effect → Bool
has_key key row = same key row.idempotency_key

abbrev pub find_effect : Str → List Effect → Option Effect
find_effect key rows = Table.find (λ row. row.idempotency_key) key rows

-- The row that is inserted, `INTENDED`.
abbrev pub intent : Str → Effect → Effect
intent token effect = record effect {
  id = if is_empty effect.id then token else effect.id;
  status = intended;
  response = none;
  response_hash = none;
  created_at = utc effect.created_at;
  acknowledged_at = none;
}

unfoldable pub differs : Effect → Effect → Bool
differs row effect =
    not (same row.job_id effect.job_id)
    || not (same row.effect_type effect.effect_type)
    || not (same row.request_hash effect.request_hash)
    || not (same row.request effect.request)

unfoldable pub put_from : Str → Effect → List Effect → Option Effect → Result Error (List Effect)
put_from token effect rows none = ok (intent token effect ∷ rows)
put_from token effect rows (some row) = do
  reject_if (differs row effect) idempotency_conflict
  ok rows

-- `PutEffect` and `insertEffectTx`
unfoldable pub put_effect : Str → Effect → List Effect → Result Error (List Effect)
put_effect token effect rows = put_from token effect rows (find_effect effect.idempotency_key rows)

unfoldable pub is_open : Effect → Bool
is_open row = elim row.acknowledged_at [ none ↦ true | some t ↦ false ]

abbrev pub answered : Str → Str → Time → Effect → Effect
answered response hash at row = record row {
  status = acknowledged;
  response = some response;
  response_hash = some hash;
  acknowledged_at = some (utc at);
}

-- What `AcknowledgeEffect` does when its update has affected no row.
unfoldable pub check_answer : Str → List Effect → Option Effect → Result Error (List Effect)
check_answer hash rows none = err not_found
check_answer hash rows (some row) = do
  reject_if (elim row.response_hash [ none ↦ true | some stored ↦ not (same stored hash) ])
      idempotency_conflict
  ok rows

-- `AcknowledgeEffect`
unfoldable pub acknowledge_effect :
    Str → Str → Str → Time → List Effect → Result Error (List Effect)
acknowledge_effect key response hash at rows =
    if any (λ row. has_key key row && is_open row) rows
    then ok (
        map (λ row. if has_key key row && is_open row then answered response hash at row else row)
          rows)
    else check_answer hash rows (find_effect key rows)

-- `ORDER BY created_at,id`, on the texts of the times
unfoldable pub created_before : Effect → Effect → Bool
created_before a b =
    let s = format_time a.created_at in
    let t = format_time b.created_at in str_ltb s t || (same s t && str_ltb a.id b.id)

-- `UnresolvedEffects`
unfoldable pub unresolved_effects : Str → List Effect → List Effect
unresolved_effects kind rows =
    sort_stable created_before
      (keep (λ row. is_open row && (is_empty kind || same row.effect_type kind)) rows)

unfoldable pub or_not_found : Option Effect → Result Error Effect
or_not_found none = err not_found
or_not_found (some row) = ok row

-- `Effect`, the query
unfoldable pub effect : Str → List Effect → Result Error Effect
effect key rows = or_not_found (find_effect key rows)
