-- ===== src/Gateway/CandidateStore/Evidence.antt =====
-- Every candidate that was not downloaded by slskd has the checksum and manifest of its files.
use denyra.Base.{
  ◌≡◌, ◌⊎◌, refl, sym, ap, subst, ◌∙◌, arith, true, false, not, Option, none, some, List, [], ◌∷◌,
  if◌then◌else◌, All, All-mono, length, Result, ok, err, Bool-cases, Option-cases, inl, inr,
  some-injective, ok-injective, guard-ok, >>=-eq-ok,
}
use denyra.Base.Text.{Str, codes, same, same_iff, is_empty}
use denyra.Base.Table as Table
use denyra.Base.Time.{Time}
use denyra.Gateway.CandidateStore.{
  Candidate, Row, Output, Store, Error, constraint_failed, idempotency_conflict, find_candidate,
  find_output, has_output, check_evidence, is_refused, add_candidate, add_output, is_known_source,
  insert_candidate,
}

abbrev pub IsComplete : Output → Type 0
IsComplete o = (length o.output_sha256 ≡ 64) × (is_empty o.manifest ≡ false)

abbrev HasOutput : Str → List Output → Type 0
HasOutput id outputs = (o : Output) × (find_output id outputs ≡ some o)

abbrev pub IsBacked : List Output → Row → Type 0
IsBacked outputs row =
    (row.source ≡ codes "slskd")
    ⊎ ((o : Output) × (find_output row.candidate_id outputs ≡ some o) × IsComplete o)

abbrev pub IsEvidenced : Store → Type 0
IsEvidenced store = All (IsBacked store.outputs) store.candidates × All IsComplete store.outputs

abbrev column : Output → Str
column o = o.candidate_id

-- What the checks before the transaction say.
check_evidence-ok :
    (c : Candidate) {t : Time}
    → check_evidence c ≡ ok t
    → (has_output c ≡ true → (length c.output_sha256 ≡ 64) × (is_empty c.output_manifest ≡ false))
      × (has_output c ≡ false → c.source ≡ codes "slskd")
unfolding check_evidence
check_evidence-ok c h = elim (Option-cases c.completed_at) [
  | inl n ↦ let impossible = rw n at h in absurd (cc)
  | inr (t, e) ↦
      let h₁ = rw e at h in
      (
        λ o. ground arith,
        λ o.
            let s : same c.source (codes "slskd") ≡ true = ground arith in
            (same_iff c.source (codes "slskd")).0 s,
      )
]

find-IsComplete :
    (k : Str) (outputs : List Output) {o : Output}
    → find_output k outputs ≡ some o
    → All IsComplete outputs
    → IsComplete o
unfolding Table.find
find-IsComplete k [] h a = absurd (cc)
find-IsComplete k (q ∷ outputs) {o} h a = elim (Bool-cases (same k q.candidate_id)) [
  | inl s ↦ subst IsComplete (some-injective (rw s at h)) a.0
  | inr s ↦ find-IsComplete k outputs (rw s at h) a.1
]

-- The outputs are written once.
add_output-keeps :
    (c : Candidate) (t : Time) (outputs : List Output) (found : Option Output)
    {outputs' : List Output} (k : Str) {o : Output}
    → find_output c.id outputs ≡ found
    → add_output c t outputs found ≡ ok outputs'
    → find_output k outputs ≡ some o
    → find_output k outputs' ≡ some o
unfolding add_output
add_output-keeps c t outputs none k {o} e h f =
    subst (λ x. find_output k x ≡ some o) (ok-injective h)
      (elim (Bool-cases (same k c.id)) [
        | inl s ↦
            let impossible : some o ≡ none =
              sym f ∙ (Table.find-same column k c.id outputs s ∙ e) in
            absurd (cc)
        | inr s ↦ Table.find-other column k _ outputs s ∙ f
      ])
add_output-keeps c t outputs (some row) k {o} e h f =
    let (_, h₁) =
      guard-ok (not (same row.output_sha256 c.output_sha256)) idempotency_conflict _ h in
    subst (λ x. find_output k x ≡ some o) (ok-injective h₁) f

-- The candidate's own output is complete afterwards, and the others stay so.
add_output-completes :
    (c : Candidate) (t : Time) (outputs : List Output) (found : Option Output)
    {outputs' : List Output}
    → find_output c.id outputs ≡ found
    → add_output c t outputs found ≡ ok outputs'
    → (length c.output_sha256 ≡ 64) × (is_empty c.output_manifest ≡ false)
    → All IsComplete outputs
    → All IsComplete outputs' × ((o : Output) × (find_output c.id outputs' ≡ some o) × IsComplete o)
unfolding add_output
add_output-completes c t outputs none {outputs'} e h full a =
    subst (λ x. All IsComplete x × ((o : Output) × (find_output c.id x ≡ some o) × IsComplete o))
      (ok-injective h)
      ((full, a), (_, Table.find-own column c.id _ outputs ((same_iff c.id c.id).1 refl), full))
add_output-completes c t outputs (some row) {outputs'} e h full a =
    let (_, h₁) =
      guard-ok (not (same row.output_sha256 c.output_sha256)) idempotency_conflict _ h in
    subst (λ x. All IsComplete x × ((o : Output) × (find_output c.id x ≡ some o) × IsComplete o))
      (ok-injective h₁) (a, (row, e, find-IsComplete c.id outputs e a))

-- The rows afterwards: the same, or one more of this candidate.
add_candidate-ok :
    (c : Candidate) (t : Time) (rows : List Row) (found : Option Row) {rows' : List Row}
    → add_candidate c t rows found ≡ ok rows'
    → (rows' ≡ rows)
      ⊎ ((row : Row) × (rows' ≡ row ∷ rows) × (row.candidate_id ≡ c.id) × (row.source ≡ c.source))
unfolding add_candidate
add_candidate-ok c t rows none h =
    let (_, h₁) = guard-ok (is_refused c rows) constraint_failed _ h in
    inr (_, ok-injective (sym h₁), refl, refl)
add_candidate-ok c t rows (some row) h =
    let (_, h₁) =
      guard-ok (not (same row.provenance_sha256 c.provenance_sha256)) idempotency_conflict _ h in
    inl (ok-injective (sym h₁))

-- What an insertion leaves: the outputs that there were, and a complete one if it brings one.
abbrev IsExtended : Candidate → List Output → List Output → Type 0
IsExtended c outputs outputs' =
    ((k : Str) (o : Output) → find_output k outputs ≡ some o → find_output k outputs' ≡ some o)
    × All IsComplete outputs'
    × ((c.source ≡ codes "slskd")
        ⊎ ((o : Output) × (find_output c.id outputs' ≡ some o) × IsComplete o))

outputs-IsExtended :
    (c : Candidate) (t : Time) (outputs outputs' : List Output)
    → check_evidence c ≡ ok t
    → (if has_output c then add_output c t outputs (find_output c.id outputs) else ok outputs)
      ≡ ok outputs'
    → All IsComplete outputs
    → IsExtended c outputs outputs'
outputs-IsExtended c t outputs outputs' checked h a =
    let (full, plain) = check_evidence-ok c checked in
    elim (Bool-cases (has_output c)) [
      | inl b ↦
          let h₁ = rw b at h in
          let (a', own) =
            add_output-completes c t outputs (find_output c.id outputs) refl h₁ (full b) a in
          (
            λ k o f. add_output-keeps c t outputs (find_output c.id outputs) k refl h₁ f,
            a',
            inr own,
          )
      | inr b ↦
          let h₁ = rw b at h in
          subst (IsExtended c outputs) (ok-injective h₁) (λ k o f. f, a, inl (plain b))
    ]

IsBacked-extended :
    (c : Candidate) (outputs outputs' : List Output) (row : Row)
    → IsExtended c outputs outputs'
    → IsBacked outputs row
    → IsBacked outputs' row
IsBacked-extended c outputs outputs' row x (inl s) = inl s
IsBacked-extended c outputs outputs' row (keeps, _, _) (inr (o, f, full)) =
    inr (o, keeps row.candidate_id o f, full)

insert_candidate-IsEvidenced :
    (c : Candidate) (store store' : Store)
    → insert_candidate c store ≡ ok store'
    → IsEvidenced store
    → IsEvidenced store'
unfolding insert_candidate
insert_candidate-IsEvidenced c store store' h (backed, complete) =
    let (t, checked, h₁) = >>=-eq-ok (check_evidence c) _ h in
    let (_, h₂) = guard-ok (not (is_known_source c.source)) constraint_failed _ h₁ in
    let (rows, added, h₃) =
      >>=-eq-ok (add_candidate c t store.candidates (find_candidate c.id store.candidates)) _ h₂ in
    let (outputs, put, h₄) =
      >>=-eq-ok
        (if has_output c
          then add_output c t store.outputs (find_output c.id store.outputs)
          else ok store.outputs)
        _ h₃ in
    let x = outputs-IsExtended c t store.outputs outputs checked put complete in
    let old : All (IsBacked outputs) store.candidates =
      All-mono store.candidates (λ row. IsBacked-extended c store.outputs outputs row x) backed in
    let now : All (IsBacked outputs) rows =
      elim (add_candidate-ok c t store.candidates (find_candidate c.id store.candidates) added) [
        | inl e ↦ subst (All (IsBacked outputs)) (sym e) old
        | inr (row, e, named, from) ↦
            let own : IsBacked outputs row = elim x.2 [
              | inl s ↦ inl (from ∙ s)
              | inr (o, f, full) ↦ inr (o, ap (λ k. find_output k outputs) named ∙ f, full)
            ] in
            subst (All (IsBacked outputs)) (sym e) (own, old)
      ] in
    subst IsEvidenced (ok-injective h₄) (now, x.1)

abbrev after : Store → Result Error Store → Store
after store (ok store') = store'
after store (err e) = store

abbrev pub insert_all : List Candidate → Store → Store
insert_all [] store = store
insert_all (c ∷ cs) store = insert_all cs (after store (insert_candidate c store))

after-IsEvidenced :
    (c : Candidate) (store : Store) (m : Result Error Store)
    → insert_candidate c store ≡ m
    → IsEvidenced store
    → IsEvidenced (after store m)
after-IsEvidenced c store (ok store') h i = insert_candidate-IsEvidenced c store store' h i
after-IsEvidenced c store (err e) h i = i

-- Whatever candidates are inserted, again or with other data, every candidate in the table that is
-- not from slskd has a checksum of 64 characters and a manifest, and every stored output has.
pub insert_all-IsEvidenced :
    (cs : List Candidate) (store : Store) → IsEvidenced store → IsEvidenced (insert_all cs store)
insert_all-IsEvidenced [] store i = i
insert_all-IsEvidenced (c ∷ cs) store i =
    insert_all-IsEvidenced cs (after store (insert_candidate c store))
      (after-IsEvidenced c store (insert_candidate c store) refl i)
