-- ===== src/Gateway/EffectStore/Puts.antt =====
-- PutEffect on the registers that the table stands for.
use denyra.Base.{
  ◌≡◌, refl, sym, subst, ◌∙◌, arith, false, not, Option, none, some, List, Bool-cases, inl, inr,
}
use denyra.Base.Text.{Str, same}
use denyra.Base.Table as Table
use denyra.Gateway.EffectStore.{Effect, find_effect, differs, put_from, is_open}
use denyra.Gateway.EffectStore.Ledger.{
  claim_of, Register, blank, claimed, settled, same_claim, Call, puts, acknowledges, specified,
  key_of, verdict, view_row, view, rows_after, error_of, IsKeyed,
}

abbrev key_column : Effect → Str
key_column row = row.idempotency_key

differs-same_claim :
    (row effect : Effect) → differs row effect ≡ not (same_claim (claim_of row) (claim_of effect))
unfolding differs
differs-same_claim row effect = ground arith

-- A call leaves the registers of other keys alone.
pub specified-other :
    (c : Call) (k : Str) (r : Register) → same k (key_of c) ≡ false → specified c k r ≡ r
specified-other (puts token effect) k blank h = rw h refl
specified-other (puts token effect) k (claimed c) h = refl
specified-other (puts token effect) k (settled c r a) h = refl
specified-other (acknowledges key response hash at) k blank h = refl
specified-other (acknowledges key response hash at) k (claimed c) h = rw h refl
specified-other (acknowledges key response hash at) k (settled c r a) h = refl

-- A put of a key that is taken changes no register.
put_taken :
    (token k : Str) (effect row : Effect)
    → specified (puts token effect) k (view_row (some row)) ≡ view_row (some row)
put_taken token k effect row = elim (Bool-cases (is_open row)) [
  | inl o ↦ rw o refl
  | inr o ↦ rw o refl
]

put_verdict :
    (token : Str) (effect row : Effect) (rows : List Effect)
    → (rows_after rows (put_from token effect rows (some row)) ≡ rows)
      × (error_of (put_from token effect rows (some row))
          ≡ verdict (puts token effect) (view_row (some row)))
unfolding put_from
put_verdict token effect row rows =
    let d = differs-same_claim row effect in
    elim (Bool-cases (is_open row)) [
      | inl o ↦ elim (Bool-cases (same_claim (claim_of row) (claim_of effect))) [
        | inl s ↦ rw (d, o, s) (refl, refl)
        | inr s ↦ rw (d, o, s) (refl, refl)
      ]
      | inr o ↦ elim (Bool-cases (same_claim (claim_of row) (claim_of effect))) [
        | inl s ↦ rw (d, o, s) (refl, refl)
        | inr s ↦ rw (d, o, s) (refl, refl)
      ]
    ]

pub put_from-verdict :
    (token : Str) (effect : Effect) (rows : List Effect) (found : Option Effect)
    → error_of (put_from token effect rows found) ≡ verdict (puts token effect) (view_row found)
put_from-verdict token effect rows (some row) = (put_verdict token effect row rows).1
put_from-verdict token effect rows none = unfold put_from in refl

pub put_from-view :
    (token k : Str) (effect : Effect) (rows : List Effect) (found : Option Effect)
    → find_effect effect.idempotency_key rows ≡ found
    → view (rows_after rows (put_from token effect rows found)) k
      ≡ specified (puts token effect) k (view rows k)
unfolding put_from Table.find is_open
put_from-view token k effect rows none e = elim (Bool-cases (same k effect.idempotency_key)) [
  | inl s ↦
      let free = Table.find-same key_column k effect.idempotency_key rows s ∙ e in rw (free, s) refl
  | inr s ↦ rw (specified-other (puts token effect) k (view rows k) s, s) refl
]
put_from-view token k effect rows (some row) e =
    let (kept, _) = put_verdict token effect row rows in
    rw kept (elim (Bool-cases (same k effect.idempotency_key)) [
      | inl s ↦
          let taken = Table.find-same key_column k effect.idempotency_key rows s ∙ e in
          rw taken (sym (put_taken token k effect row))
      | inr s ↦ sym (specified-other (puts token effect) k (view rows k) s)
    ])

pub put_from-IsKeyed :
    (token : Str) (effect : Effect) (rows : List Effect) (found : Option Effect)
    → find_effect effect.idempotency_key rows ≡ found
    → IsKeyed rows
    → IsKeyed (rows_after rows (put_from token effect rows found))
put_from-IsKeyed token effect rows none e d =
    unfold put_from in (Table.find-none key_column effect.idempotency_key rows e, d)
put_from-IsKeyed token effect rows (some row) e d =
    subst IsKeyed (sym (put_verdict token effect row rows).0) d
