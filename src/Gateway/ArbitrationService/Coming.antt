-- ===== src/Gateway/ArbitrationService/Coming.antt =====
-- What is left to deliver: every unanswered effect of the job is still to come.
use denyra.Base.{
  ◌≡◌, refl, sym, subst, ◌∙◌, arith, Bool, true, false, not, ◌&&◌, ◌||◌, Option, none, some, List,
  [], ◌∷◌, any, map, keep, All, All-mono, ok, Bool-cases, inl, inr, ok-injective, guard-ok, neither,
}
use denyra.Base.Sort.{any-sort_stable}
use denyra.Base.Text.{Str, same, same_iff, same_comm, is_empty}
use denyra.Base.Time.{Time}
use denyra.Gateway.EffectStore.{
  Effect, has_key, find_effect, is_open, answered, check_answer, acknowledge_effect, created_before,
  unresolved_effects,
}
use denyra.Gateway.EffectStore as EffectStore
use denyra.Gateway.EffectStore.Answers.{open_at, answer_open}
use denyra.Gateway.ArbitrationService.Delivery.{is_due}

-- Whether one of the effects that are left is due and has a key.
abbrev comes : Str → Str → List Effect → Bool
comes job_id key es = any (λ e. is_due job_id e && same key e.idempotency_key) es

-- Every effect of the job that is not answered is still to come.
abbrev pub AreComing : Str → List Effect → List Effect → Type 0
AreComing job_id es rows =
    All (λ r. is_due job_id r ≡ true → is_open r ≡ true → comes job_id r.idempotency_key es ≡ true)
      rows

other-coming :
    (job_id : Str) (e : Effect) (es : List Effect) (r : Effect)
    → open_at e.idempotency_key r ≡ false
    → is_open r ≡ true
    → comes job_id r.idempotency_key (e ∷ es) ≡ true
    → comes job_id r.idempotency_key es ≡ true
unfolding has_key
other-coming job_id e es r q o c =
    let flip = same_comm e.idempotency_key r.idempotency_key in ground (arith, q, o, c, flip)

-- A row after an answer of a key is answered, or it was not of this key.
answered-coming :
    (job_id response hash : Str) (at : Time) (e : Effect) (es : List Effect) (r : Effect)
    → (is_due job_id r ≡ true → is_open r ≡ true → comes job_id r.idempotency_key (e ∷ es) ≡ true)
    → is_due job_id (answer_open e.idempotency_key response hash at r) ≡ true
    → is_open (answer_open e.idempotency_key response hash at r) ≡ true
    → comes job_id (answer_open e.idempotency_key response hash at r).idempotency_key es ≡ true
unfolding is_open
answered-coming job_id response hash at e es r f due o =
    elim (Bool-cases (open_at e.idempotency_key r)) [
      | inl q ↦ let impossible = rw q at o in absurd (cc)
      | inr q ↦
          let due' = rw q at due in
          let o' = rw q at o in rw q (other-coming job_id e es r q o' (f due' o'))
    ]

map-coming :
    (job_id response hash : Str) (at : Time) (e : Effect) (es rows : List Effect)
    → AreComing job_id (e ∷ es) rows
    → AreComing job_id es (map (answer_open e.idempotency_key response hash at) rows)
map-coming job_id response hash at e es [] h = tt
map-coming job_id response hash at e es (r ∷ rows) h = (
  answered-coming job_id response hash at e es r h.0,
  map-coming job_id response hash at e es rows h.1,
)

-- If no row of the key is open, the others are still to come.
none-coming :
    (job_id : Str) (e : Effect) (es rows : List Effect)
    → any (open_at e.idempotency_key) rows ≡ false
    → AreComing job_id (e ∷ es) rows
    → AreComing job_id es rows
none-coming job_id e es [] n h = tt
none-coming job_id e es (r ∷ rows) n h =
    let (own, rest) =
      neither (open_at e.idempotency_key r) (any (open_at e.idempotency_key) rows) n in
    (λ due o. other-coming job_id e es r own o (h.0 due o), none-coming job_id e es rows rest h.1)

check_answer-rows :
    (hash : Str) (rows : List Effect) (found : Option Effect) {rows' : List Effect}
    → check_answer hash rows found ≡ ok rows'
    → rows' ≡ rows
unfolding check_answer
check_answer-rows hash rows none h = absurd (cc)
check_answer-rows hash rows (some row) h =
    let (_, k) =
      guard-ok (elim row.response_hash [ none ↦ true | some stored ↦ not (same stored hash) ])
        EffectStore.idempotency_conflict _ h in
    sym (ok-injective k)

pub acknowledge_effect-coming :
    (job_id response hash : Str) (at : Time) (e : Effect) (es rows rows' : List Effect)
    → acknowledge_effect e.idempotency_key response hash at rows ≡ ok rows'
    → AreComing job_id (e ∷ es) rows
    → AreComing job_id es rows'
unfolding acknowledge_effect
acknowledge_effect-coming job_id response hash at e es rows rows' h c =
    elim (Bool-cases (any (open_at e.idempotency_key) rows)) [
      | inl q ↦
          subst (AreComing job_id es) (ok-injective (rw q at h))
            (map-coming job_id response hash at e es rows c)
      | inr q ↦
          subst (AreComing job_id es)
            (sym (check_answer-rows hash rows (find_effect e.idempotency_key rows) (rw q at h)))
            (none-coming job_id e es rows q c)
    ]

-- An effect that is passed over was not to come.
pub passed-coming :
    (job_id : Str) (e : Effect) (es rows : List Effect)
    → is_due job_id e ≡ false
    → AreComing job_id (e ∷ es) rows
    → AreComing job_id es rows
passed-coming job_id e es rows n c =
    All-mono rows (λ r f due o. let later = f due o in ground (arith, n, later)) c

rows-coming :
    (job_id : Str) (rows more : List Effect)
    → ((key : Str)
        → comes job_id key (keep (λ r. is_open r && (is_empty [] || same r.effect_type [])) rows)
          ≡ true
        → comes job_id key more ≡ true)
    → AreComing job_id more rows
rows-coming job_id [] more f = tt
rows-coming job_id (r ∷ rows) more f =
    let own : same r.idempotency_key r.idempotency_key ≡ true =
      (same_iff r.idempotency_key r.idempotency_key).1 refl in
    (
      λ due o. f r.idempotency_key (rw o (rw (due, own) refl)),
      rows-coming job_id rows more (λ key h.
          f key
            (elim (Bool-cases (is_open r)) [ inl o ↦ rw o (ground (arith, h)) | inr o ↦ rw o h ])),
    )

pub unresolved_effects-coming :
    (job_id : Str) (rows : List Effect) → AreComing job_id (unresolved_effects [] rows) rows
unfolding unresolved_effects
unresolved_effects-coming job_id rows = rows-coming job_id rows _ (λ key h.
    any-sort_stable created_before (λ e. is_due job_id e && same key e.idempotency_key) _ ∙ h)
