-- ===== src/Gateway/EffectStore/Refinement.antt =====
-- Every call on the table of the effects does what the registers specify.
use denyra.Base.{◌≡◌, refl, sym, subst, ◌∙◌, List, [], ◌∷◌, any, Bool-cases, inl, inr}
use mathlib.Core.Path.{fun_ext}
use denyra.Base.Pigeonhole.{IsDistinct}
use denyra.Base.Text.{Str, same, same_iff}
use denyra.Base.Table as Table
use denyra.Gateway.EffectStore.{Effect, find_effect, put_effect, acknowledge_effect}
use denyra.Gateway.EffectStore.Puts.{put_from-verdict, put_from-view, put_from-IsKeyed}
use denyra.Gateway.EffectStore.Answers.{
  open_at, answer_open, any_open-some, answer_open-key, answered-view, closed-specified,
  check_answer_lem, open_claimed,
}
use denyra.Gateway.EffectStore.Ledger.{
  Call, puts, acknowledges, specified, key_of, verdict, view, perform, complaint, complaints,
  perform_all, verdicts, specified_all, IsKeyed,
}

abbrev key_column : Effect → Str
key_column row = row.idempotency_key

-- One call: the registers, its error, and the keys.
pub perform-refines :
    (c : Call) (rows : List Effect)
    → IsKeyed rows
    → ((k : Str) → view (perform c rows) k ≡ specified c k (view rows k))
      × (complaint c rows ≡ verdict c (view rows (key_of c)))
unfolding put_effect acknowledge_effect
perform-refines (puts token effect) rows d =
    let key = effect.idempotency_key in
    (
      λ k. put_from-view token k effect rows (find_effect key rows) refl,
      put_from-verdict token effect rows (find_effect key rows),
    )
perform-refines (acknowledges key response hash at) rows d =
    elim (Bool-cases (any (open_at key) rows)) [
      | inl h ↦ rw h (
        λ k. answered-view key response hash at k rows,
        sym (open_claimed key response hash at rows d h),
      )
      | inr h ↦
          let (kept, same_error) =
            check_answer_lem key response hash at rows (find_effect key rows)
              (λ row e. sym (any_open-some key rows d e) ∙ h) in
          rw (h, kept) (λ k. closed-specified key response hash at k rows d h, same_error)
    ]

pub perform-IsKeyed : (c : Call) (rows : List Effect) → IsKeyed rows → IsKeyed (perform c rows)
unfolding put_effect acknowledge_effect
perform-IsKeyed (puts token effect) rows d =
    put_from-IsKeyed token effect rows (find_effect effect.idempotency_key rows) refl d
perform-IsKeyed (acknowledges key response hash at) rows d =
    let f = answer_open key response hash at in
    elim (Bool-cases (any (open_at key) rows)) [
      | inl h ↦ rw h (
          subst (IsDistinct same same_iff)
            (sym (Table.keys-map key_column f (answer_open-key key response hash at) rows)) d)
      | inr h ↦
          let (kept, _) =
            check_answer_lem key response hash at rows (find_effect key rows)
              (λ row e. sym (any_open-some key rows d e) ∙ h) in
          rw (h, kept) d
    ]

-- Any sequence of PutEffect and AcknowledgeEffect on a table with unique keys gives the errors, and
-- leaves the claims and answers, of a map of registers that are written once: a claim is never
-- changed, an answer neither, and a call that disagrees with either is refused.
pub perform_all-refines :
    (cs : List Call) (rows : List Effect)
    → IsKeyed rows
    → (complaints cs rows ≡ verdicts cs (view rows))
      × (view (perform_all cs rows) ≡ specified_all cs (view rows))
perform_all-refines [] rows d = (refl, refl)
perform_all-refines (c ∷ cs) rows d =
    let (registers, error) = perform-refines c rows d in
    let (errors, final) = perform_all-refines cs (perform c rows) (perform-IsKeyed c rows d) in
    let step : view (perform c rows) ≡ (λ k. specified c k (view rows k)) = fun_ext registers in
    (
      subst
          (λ m.
            complaint c rows ∷ complaints cs (perform c rows)
            ≡ verdict c (view rows (key_of c)) ∷ verdicts cs m)
          step (cc),
      subst (λ m. view (perform_all cs (perform c rows)) ≡ specified_all cs m) step final,
    )
