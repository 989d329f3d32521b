-- ===== src/Gateway/IdempotencyStore.antt =====
-- internal/gateway/persistence/arbitration.go: beginGatewayIdempotency and
-- CompleteApprovalCallback on the table idempotency_records, which keeps the answer to a request
-- under the key that its caller chose. The failures of the database itself are left out.
pub mod Replay
use denyra.Base.{
  Bool, true, false, not, ◌&&◌, ◌||◌, Option, none, some, List, [], ◌∷◌, if◌then◌else◌, any, map,
  Result, ok, err, ◌>>◌, reject_if,
}
use denyra.Base.Int.{ℤ, same_ℤ}
use denyra.Base.Text.{Str, same, is_empty}
use denyra.Base.Table as Table
use denyra.Base.Time.{Time, utc}

-- A row. The status and the body of the answer are set together.
pub record Record : Type 0 where
  pub key : Str
  pub scope : Str
  pub request_hash : Str
  pub request_body : Str
  pub response : Option (ℤ × Str)
  pub created_at : Time
  pub completed_at : Option Time

pub data Error : Type 0 where
  key_required idempotency_conflict not_found : Error

-- Whether a request has to be carried out, or has been answered.
pub data Begun : Type 0 where
  proceeds : Begun
  replays : ℤ → Str → Begun

unfoldable pub has_key : Str → Record → Bool
has_key key row = same key row.key

abbrev pub find_record : Str → List Record → Option Record
find_record key rows = Table.find (λ row. row.key) key rows

unfoldable pub is_other_request : Str → Str → Str → Record → Bool
is_other_request scope hash body row =
    not (same row.scope scope)
    || not (same row.request_hash hash)
    || not (same row.request_body body)

abbrev begun : Option (ℤ × Str) → Begun
begun none = proceeds
begun (some (status, body)) = replays status body

unfoldable pub begin_from :
    Str → Str → Str → Str → Time → List Record → Option Record → Result Error (Begun × List Record)
begin_from key scope hash body at rows none = ok (
  proceeds,
  (record {
    key = key;
    scope = scope;
    request_hash = hash;
    request_body = body;
    response = none;
    created_at = utc at;
    completed_at = none;
  })
      ∷ rows,
)
begin_from key scope hash body at rows (some row) = do
  reject_if (is_other_request scope hash body row) idempotency_conflict
  ok (begun row.response, rows)

-- `beginGatewayIdempotency`
unfoldable pub begin_idempotency :
    Str → Str → Str → Str → Time → List Record → Result Error (Begun × List Record)
begin_idempotency key scope hash body at rows = do
  reject_if (is_empty key) key_required
  begin_from key scope hash body at rows (find_record key rows)

unfoldable pub is_unanswered : Record → Bool
is_unanswered row = elim row.response [ none ↦ true | some r ↦ false ]

abbrev pub with_response : ℤ → Str → Time → Record → Record
with_response status body at row = record row {
  response = some (status, body);
  completed_at = some (utc at);
}

abbrev pub is_response : ℤ → Str → Option (ℤ × Str) → Bool
is_response status body none = false
is_response status body (some (stored, text)) = same_ℤ stored status && same text body

-- What `CompleteApprovalCallback` does when its update has affected no row.
unfoldable pub check_response : ℤ → Str → List Record → Option Record → Result Error (List Record)
check_response status body rows none = err not_found
check_response status body rows (some row) = do
  reject_if (not (is_response status body row.response)) idempotency_conflict
  ok rows

-- `CompleteApprovalCallback`
unfoldable pub complete_callback : Str → ℤ → Str → Time → List Record → Result Error (List Record)
complete_callback key status body at rows =
    if any (λ row. has_key key row && is_unanswered row) rows
    then ok (
        map
          (λ row.
            if has_key key row && is_unanswered row then with_response status body at row else row)
          rows)
    else check_response status body rows (find_record key rows)
