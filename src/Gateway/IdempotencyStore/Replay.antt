-- ===== src/Gateway/IdempotencyStore/Replay.antt =====
-- An answer that was kept is given again.
use denyra.Base.{
  ◌≡◌, ◌≢◌, ◌⊎◌, refl, sym, ap, subst, ◌∙◌, arith, true, false, not, ◌&&◌, Option, none, some, List,
  if◌then◌else◌, any, Bool-cases, inl, inr, ok, ok-injective, guard-ok,
}
use denyra.Base.Int.{ℤ}
use denyra.Base.Text.{Str, same, same_iff, is_empty}
use mathlib.Core.Option
use denyra.Base.Table as Table
use denyra.Base.Time.{Time}
use denyra.Gateway.IdempotencyStore.{
  Record, idempotency_conflict, key_required, Begun, replays, has_key, find_record,
  is_other_request, begin_from, begin_idempotency, is_unanswered, with_response, is_response,
  check_response, complete_callback,
}

-- The record of a key holds this request with this answer.
pub record IsAnswered (key scope hash body : Str) (status : ℤ) (text : Str) (rows : List Record)
    : Type 0 where
  pub row : Record
  pub found : find_record key rows ≡ some row
  pub same_request : is_other_request scope hash body row ≡ false
  pub answer : row.response ≡ some (status, text)

-- Another attempt at an answered request is answered alike and changes nothing, and another request
-- under its key is refused.
pub begin_answered :
    (key scope hash body : Str) (at : Time) (status : ℤ) (text : Str) (rows : List Record)
    → is_empty key ≡ false
    → IsAnswered key scope hash body status text rows
    → begin_idempotency key scope hash body at rows ≡ ok (replays status text, rows)
unfolding begin_idempotency begin_from
begin_answered key scope hash body at status text rows named a =
    rw (named, a.found, a.same_request, a.answer) refl

abbrev column : Record → Str
column row = row.key

-- Beginning a request adds a row of another key at most.
begin_from-IsAnswered :
    (k scope hash body : Str) (status : ℤ) (text : Str) (key scope' hash' body' : Str) (at : Time)
    (rows : List Record) (found : Option Record) {b : Begun} {rows' : List Record}
    → find_record key rows ≡ found
    → begin_from key scope' hash' body' at rows found ≡ ok (b, rows')
    → IsAnswered k scope hash body status text rows
    → IsAnswered k scope hash body status text rows'
unfolding begin_from
begin_from-IsAnswered k scope hash body status text key scope' hash' body' at rows none e h a =
    subst (IsAnswered k scope hash body status text)
      (ap (λ (p : Begun × List Record). p.1) (ok-injective h))
      (elim (Bool-cases (same k key)) [
        | inl s ↦
            let free = Table.find-same column k key rows s ∙ e in
            let impossible : some a.row ≡ none = sym a.found ∙ free in absurd (cc)
        | inr s ↦ record {
          row = a.row;
          found = Table.find-other column k _ rows s ∙ a.found;
          same_request = a.same_request;
          answer = a.answer;
        }
      ])
begin_from-IsAnswered k scope hash body status text key scope' hash' body' at rows (some row) e h
      a =
    let (_, h₁) = guard-ok (is_other_request scope' hash' body' row) idempotency_conflict _ h in
    subst (IsAnswered k scope hash body status text)
      (ap (λ (p : Begun × List Record). p.1) (ok-injective h₁)) a

pub begin-IsAnswered :
    (k scope hash body : Str) (status : ℤ) (text : Str) (key scope' hash' body' : Str) (at : Time)
    (rows : List Record) {b : Begun} {rows' : List Record}
    → begin_idempotency key scope' hash' body' at rows ≡ ok (b, rows')
    → IsAnswered k scope hash body status text rows
    → IsAnswered k scope hash body status text rows'
unfolding begin_idempotency
begin-IsAnswered k scope hash body status text key scope' hash' body' at rows h a =
    let (_, h₁) = guard-ok (is_empty key) key_required _ h in
    begin_from-IsAnswered k scope hash body status text key scope' hash' body' at rows
      (find_record key rows) refl h₁ a

abbrev answer_open : Str → ℤ → Str → Time → Record → Record
answer_open key status body at row =
    if has_key key row && is_unanswered row then with_response status body at row else row

answer_open-key :
    (key : Str) (status : ℤ) (body : Str) (at : Time) (row : Record)
    → (answer_open key status body at row).key ≡ row.key
answer_open-key key status body at row = elim (Bool-cases (has_key key row && is_unanswered row)) [
  | inl e ↦ rw e refl
  | inr e ↦ rw e refl
]

-- A row that is answered already is not changed.
answer_open-answered :
    (key : Str) (status : ℤ) (body : Str) (at : Time) (row : Record)
    → is_unanswered row ≡ false
    → answer_open key status body at row ≡ row
answer_open-answered key status body at row a = elim (Bool-cases (has_key key row)) [
  | inl h ↦ rw (h, a) refl
  | inr h ↦ rw h refl
]

check_response-ok :
    (status : ℤ) (text : Str) (rows : List Record) (found : Option Record) {rows' : List Record}
    → check_response status text rows found ≡ ok rows'
    → rows ≡ rows'
unfolding check_response
check_response-ok status text rows none h = absurd (cc)
check_response-ok status text rows (some row) h =
    ok-injective (guard-ok (not (is_response status text row.response)) idempotency_conflict _ h).1

-- Keeping an answer changes no other.
pub complete-IsAnswered :
    (k scope hash body : Str) (status : ℤ) (text : Str) (key : Str) (status' : ℤ) (text' : Str)
    (at : Time) (rows : List Record) {rows' : List Record}
    → complete_callback key status' text' at rows ≡ ok rows'
    → IsAnswered k scope hash body status text rows
    → IsAnswered k scope hash body status text rows'
unfolding complete_callback
complete-IsAnswered k scope hash body status text key status' text' at rows h a =
    let f = answer_open key status' text' at in
    let answered : is_unanswered a.row ≡ false = unfold is_unanswered in rw a.answer refl in
    let kept = answer_open-answered key status' text' at a.row answered in
    elim (Bool-cases (any (λ row. has_key key row && is_unanswered row) rows)) [
      | inl e ↦
          subst (IsAnswered k scope hash body status text) (ok-injective (rw e at h)) (record {
            row = a.row;
            found =
                Table.find-map column f (answer_open-key key status' text' at) k rows
                ∙ (ap (Option.map f) a.found ∙ ap (λ x. some x) kept);
            same_request = a.same_request;
            answer = a.answer;
          })
      | inr e ↦
          subst (IsAnswered k scope hash body status text)
            (check_response-ok status' text' rows (find_record key rows) (rw e at h)) a
    ]

same_request-parts :
    (scope hash body : Str) (row : Record)
    → is_other_request scope hash body row ≡ false
    → (row.request_hash ≡ hash) × (row.request_body ≡ body)
unfolding is_other_request
same_request-parts scope hash body row h =
    let s : same row.request_hash hash ≡ true = ground arith in
    let t : same row.request_body body ≡ true = ground arith in
    ((same_iff row.request_hash hash).0 s, (same_iff row.request_body body).0 t)

-- A request with another checksum or body than the one of a row is another request.
pub other_request :
    (scope hash body hash' body' : Str) (row : Record)
    → is_other_request scope hash body row ≡ false
    → (hash' ≢ hash) ⊎ (body' ≢ body)
    → is_other_request scope hash' body' row ≡ true
other_request scope hash body hash' body' row h differs =
    elim (Bool-cases (is_other_request scope hash' body' row)) [
      | inl e ↦ e
      | inr e ↦
          let (a, b) = same_request-parts scope hash body row h in
          let (a', b') = same_request-parts scope hash' body' row e in
          elim differs [ inl d ↦ absurd (d (sym a' ∙ a)) | inr d ↦ absurd (d (sym b' ∙ b)) ]
    ]
