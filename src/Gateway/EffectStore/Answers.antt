-- ===== src/Gateway/EffectStore/Answers.antt =====
-- AcknowledgeEffect on the registers that the table stands for.
use denyra.Base.{
  ◌≡◌, refl, sym, ap, subst, ◌∙◌, arith, Bool, true, false, ◌&&◌, Option, none, some, List, [], ◌∷◌,
  if◌then◌else◌, any, map, Bool-cases, Option-cases, inl, inr, some-injective, neither,
}
use denyra.Base.Text.{Str, same, same_iff, same_comm}
use denyra.Base.Table as Table
use denyra.Base.Time.{Time}
use denyra.Gateway.EffectStore.{Effect, has_key, find_effect, is_open, answered, check_answer}
use denyra.Gateway.EffectStore.Puts.{specified-other}
use denyra.Gateway.EffectStore.Ledger.{
  acknowledges, specified, verdict, view_row, view, rows_after, error_of, keys, IsKeyed,
}

abbrev key_column : Effect → Str
key_column row = row.idempotency_key

-- The rows that an acknowledgement changes.
abbrev pub open_at : Str → Effect → Bool
open_at key row = has_key key row && is_open row

any_open-none :
    (key : Str) (rows : List Effect)
    → any (same key) (keys rows) ≡ false
    → any (open_at key) rows ≡ false
unfolding has_key
any_open-none key [] h = refl
any_open-none key (row ∷ rows) h =
    let (other, rest) = neither (same key row.idempotency_key) (any (same key) (keys rows)) h in
    rw other (any_open-none key rows rest)

-- One row has the key.
pub any_open-some :
    (key : Str) (rows : List Effect) {row : Effect}
    → IsKeyed rows
    → find_effect key rows ≡ some row
    → any (open_at key) rows ≡ is_open row
unfolding Table.find has_key
any_open-some key [] d h = cc
any_open-some key (q ∷ rows) {row} d h = elim (Bool-cases (same key q.idempotency_key)) [
  | inl s ↦
      let is : q ≡ row = some-injective (rw s at h) in
      let own : key ≡ q.idempotency_key = (same_iff key q.idempotency_key).0 s in
      let only : any (open_at key) rows ≡ false =
        any_open-none key rows (subst (λ x. any (same x) (keys rows) ≡ false) (sym own) d.0) in
      let same_open : is_open q ≡ is_open row = ap is_open is in
      rw (s, only) (ground (arith, same_open))
  | inr s ↦ rw s (any_open-some key rows d.1 (rw s at h))
]

abbrev pub answer_open : Str → Str → Str → Time → Effect → Effect
answer_open key response hash at row =
    if has_key key row && is_open row then answered response hash at row else row

pub answer_open-key :
    (key response hash : Str) (at : Time) (row : Effect)
    → (answer_open key response hash at row).idempotency_key ≡ row.idempotency_key
answer_open-key key response hash at row = elim (Bool-cases (open_at key row)) [
  | inl o ↦ rw o refl
  | inr o ↦ rw o refl
]

answered_closed :
    (response hash : Str) (at : Time) (row : Effect)
    → is_open (answered response hash at row) ≡ false
unfolding is_open
answered_closed response hash at row = refl

has_key-own : (key k : Str) (row : Effect) → k ≡ row.idempotency_key → has_key key row ≡ same k key
unfolding has_key
has_key-own key k row own = ap (same key) (sym own) ∙ same_comm key k

-- A row that an acknowledgement meets, by its register.
answer_open-view :
    (key response hash : Str) (at : Time) (k : Str) (row : Effect)
    → k ≡ row.idempotency_key
    → view_row (some (answer_open key response hash at row))
      ≡ specified (acknowledges key response hash at) k (view_row (some row))
answer_open-view key response hash at k row own =
    let h = has_key-own key k row own in
    elim (Bool-cases (same k key)) [
      | inl s ↦ elim (Bool-cases (is_open row)) [
        | inl o ↦ rw (h, s, o, s, answered_closed response hash at row) refl
        | inr o ↦ rw (h, s, o, o) refl
      ]
      | inr s ↦ elim (Bool-cases (is_open row)) [
        | inl o ↦ rw (h, s, o, s) refl
        | inr o ↦ rw (h, s, o) refl
      ]
    ]

pub answered-view :
    (key response hash : Str) (at : Time) (k : Str) (rows : List Effect)
    → view (map (answer_open key response hash at) rows) k
      ≡ specified (acknowledges key response hash at) k (view rows k)
answered-view key response hash at k rows =
    let f = answer_open key response hash at in
    let found = Table.find-map key_column f (answer_open-key key response hash at) k rows in
    elim (Option-cases (find_effect k rows)) [
      | inl n ↦ rw (found, n) refl
      | inr (row, e) ↦
          rw (found, e)
            (answer_open-view key response hash at k row (Table.find-key key_column k rows e))
    ]

-- An acknowledgement that affects no row leaves the registers alone.
pub closed-specified :
    (key response hash : Str) (at : Time) (k : Str) (rows : List Effect)
    → IsKeyed rows
    → any (open_at key) rows ≡ false
    → view rows k ≡ specified (acknowledges key response hash at) k (view rows k)
closed-specified key response hash at k rows d h = elim (Bool-cases (same k key)) [
  | inl s ↦ elim (Option-cases (find_effect key rows)) [
    | inl n ↦ let free = Table.find-same key_column k key rows s ∙ n in rw free refl
    | inr (row, e) ↦
        let taken = Table.find-same key_column k key rows s ∙ e in
        let shut = sym (any_open-some key rows d e) ∙ h in rw (taken, shut) refl
  ]
  | inr s ↦ sym (specified-other (acknowledges key response hash at) k (view rows k) s)
]

pub check_answer_lem :
    (key response hash : Str) (at : Time) (rows : List Effect) (found : Option Effect)
    → ((row : Effect) → found ≡ some row → is_open row ≡ false)
    → (rows_after rows (check_answer hash rows found) ≡ rows)
      × (error_of (check_answer hash rows found)
          ≡ verdict (acknowledges key response hash at) (view_row found))
unfolding check_answer
check_answer_lem key response hash at rows none shut = (refl, refl)
check_answer_lem key response hash at rows (some row) shut =
    rw (shut row refl) (elim (Option-cases row.response_hash) [
      | inl n ↦ rw n (refl, refl)
      | inr (stored, e) ↦ elim (Bool-cases (same stored hash)) [
        | inl s ↦ rw (e, s) (refl, refl)
        | inr s ↦ rw (e, s) (refl, refl)
      ]
    ])

pub open_claimed :
    (key response hash : Str) (at : Time) (rows : List Effect)
    → IsKeyed rows
    → any (open_at key) rows ≡ true
    → verdict (acknowledges key response hash at) (view rows key) ≡ none
open_claimed key response hash at rows d h = elim (Option-cases (find_effect key rows)) [
  | inl n ↦ let none_open = any_open-none key rows (Table.find-none key_column key rows n) in cc
  | inr (row, e) ↦ let o = sym (any_open-some key rows d e) ∙ h in rw (e, o) refl
]
