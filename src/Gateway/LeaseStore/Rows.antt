-- ===== src/Gateway/LeaseStore/Rows.antt =====
-- How a lease is found in the table, before and after an update.
use denyra.Base.{
  ◌≡◌, refl, sym, ap, subst, ◌∙◌, inl, inr, arith, Bool, true, false, some, List, [], ◌∷◌, keep,
  Bool-cases, some-injective,
}
use denyra.Base.Text.{Str, same, same_iff}
use denyra.Gateway.LeaseStore.{Lease, is_resource, find_lease, update_leases, stored, taken_over}

pub is_resource-own :
    (t i : Str) (row : Lease)
    → is_resource t i row ≡ true
    → (t ≡ row.resource_type) × (i ≡ row.resource_id)
unfolding is_resource
is_resource-own t i row h =
    let a : same t row.resource_type ≡ true = ground arith in
    let b : same i row.resource_id ≡ true = ground arith in
    ((same_iff t row.resource_type).0 a, (same_iff i row.resource_id).0 b)

pub is_resource_refl :
    (t i : Str) (row : Lease)
    → t ≡ row.resource_type
    → i ≡ row.resource_id
    → is_resource t i row ≡ true
unfolding is_resource
is_resource_refl t i row a b =
    let x = (same_iff t row.resource_type).1 a in
    let y = (same_iff i row.resource_id).1 b in ground arith

pub find_lease-own :
    (t i : Str) (rows : List Lease) {held : Lease}
    → find_lease t i rows ≡ some held
    → (t ≡ held.resource_type) × (i ≡ held.resource_id)
unfolding find_lease
find_lease-own t i [] h = cc
find_lease-own t i (row ∷ rows) {held} h = elim (Bool-cases (is_resource t i row)) [
  | inl s ↦
      let e : row ≡ held = some-injective (rw s at h) in
      subst (λ x. (t ≡ x.resource_type) × (i ≡ x.resource_id)) e (is_resource-own t i row s)
  | inr s ↦ find_lease-own t i rows (rw s at h)
]

-- An update that leaves the keys alone and does not match the row that is found.
pub find-update :
    (t i : Str) (p : Lease → Bool) (f : Lease → Lease) (rows : List Lease) {held : Lease}
    → ((row : Lease) → is_resource t i (f row) ≡ is_resource t i row)
    → p held ≡ false
    → find_lease t i rows ≡ some held
    → find_lease t i (update_leases p f rows) ≡ some held
unfolding find_lease update_leases
find-update t i p f [] keeps out h = cc
find-update t i p f (row ∷ rows) {held} keeps out h = elim (Bool-cases (is_resource t i row)) [
  | inl s ↦
      let e : row ≡ held = some-injective (rw s at h) in
      let out' : p row ≡ false = subst (λ x. p x ≡ false) (sym e) out in
      rw (out', s) (ap (λ x. some x) e)
  | inr s ↦
      let rest = find-update t i p f rows keeps out (rw s at h) in
      elim (Bool-cases (p row)) [
        | inl m ↦ let k : is_resource t i (f row) ≡ false = keeps row ∙ s in rw (m, k) rest
        | inr m ↦ rw (m, s) rest
      ]
]

pub find-keep :
    (t i : Str) (p : Lease → Bool) (rows : List Lease) {held : Lease}
    → p held ≡ true
    → find_lease t i rows ≡ some held
    → find_lease t i (keep p rows) ≡ some held
unfolding find_lease
find-keep t i p [] stays h = cc
find-keep t i p (row ∷ rows) {held} stays h = elim (Bool-cases (is_resource t i row)) [
  | inl s ↦
      let e : row ≡ held = some-injective (rw s at h) in
      let stays' : p row ≡ true = subst (λ x. p x ≡ true) (sym e) stays in
      rw (stays', s) (ap (λ x. some x) e)
  | inr s ↦
      let rest = find-keep t i p rows stays (rw s at h) in
      elim (Bool-cases (p row)) [ inl m ↦ rw (m, s) rest | inr m ↦ rw m rest ]
]

pub find-take_over :
    (lease : Lease) (rows : List Lease) {row : Lease}
    → find_lease lease.resource_type lease.resource_id rows ≡ some row
    → find_lease lease.resource_type lease.resource_id
        (update_leases (is_resource lease.resource_type lease.resource_id) (taken_over lease) rows)
      ≡ some (stored lease)
unfolding find_lease update_leases
find-take_over lease [] h = cc
find-take_over lease (row ∷ rows) h =
    elim (Bool-cases (is_resource lease.resource_type lease.resource_id row)) [
      | inl s ↦
          let (a, b) = is_resource-own lease.resource_type lease.resource_id row s in
          let own : is_resource lease.resource_type lease.resource_id (taken_over lease row)
              ≡ true =
            is_resource_refl _ _ _ a b in
          rw (s, own, sym a, sym b) refl
      | inr s ↦ rw (s, s) (find-take_over lease rows (rw s at h))
    ]
