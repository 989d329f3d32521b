-- ===== src/Gateway/ArbitrationService/Chosen.antt =====
-- The approval that the service reads for a winner (`byID[id]` in
-- internal/gateway/application/arbitration.go) is the one of that identifier.
use denyra.Base.{
  All-passed, ◌≡◌, refl, sym, subst, arith, true, some, List, [], ◌∷◌, if◌then◌else◌, any, map,
  keep, All, Bool-cases, inl, inr,
}
use mathlib.Core.List.{Mem, mem-cons_self}
use mathlib.Core.List.Perm
use denyra.Base.Sort.{All-mem}
use denyra.Base.Text.{Str, same, same_iff}
use denyra.Base.Time.{Time}
use denyra.Gateway.Arbitration.{
  ApprovedCandidate, ArbitrationDecision, is_eligible, decide_arbitration,
}
use denyra.Gateway.Arbitration.Decision.{decide_arbitration-Ranks}
use denyra.Gateway.ArbitrationStore.{Approval}
use denyra.Gateway.ArbitrationService.{to_domain_approval, to_domain_approvals, by_id}

-- The approval of an identifier.
by_id-kept :
    (approvals : List Approval) (id : Str) (found : Approval)
    → found.candidate_id ≡ id
    → (by_id approvals id found).candidate_id ≡ id
unfolding by_id
by_id-kept [] id found h = h
by_id-kept (a ∷ approvals) id found h = elim (Bool-cases (same a.candidate_id id)) [
  | inl s ↦
      subst (λ b. (by_id approvals id (if b then a else found)).candidate_id ≡ id) (sym s)
        (by_id-kept approvals id a ((same_iff a.candidate_id id).0 s))
  | inr s ↦
      subst (λ b. (by_id approvals id (if b then a else found)).candidate_id ≡ id) (sym s)
        (by_id-kept approvals id found h)
]

abbrev IsListed : List Approval → ApprovedCandidate → Type 0
IsListed approvals c = any (λ (a : Approval). same a.candidate_id c.id) approvals ≡ true

pub by_id-listed :
    (approvals : List Approval) (c : ApprovedCandidate) (found : Approval)
    → IsListed approvals c
    → (by_id approvals c.id found).candidate_id ≡ c.id
unfolding by_id
by_id-listed [] c found h = absurd (cc)
by_id-listed (a ∷ approvals) c found h = elim (Bool-cases (same a.candidate_id c.id)) [
  | inl s ↦
      subst (λ b. (by_id approvals c.id (if b then a else found)).candidate_id ≡ c.id) (sym s)
        (by_id-kept approvals c.id a ((same_iff a.candidate_id c.id).0 s))
  | inr s ↦
      subst (λ b. (by_id approvals c.id (if b then a else found)).candidate_id ≡ c.id) (sym s)
        (by_id-listed approvals c found (rw s at h))
]

All-IsListed :
    (approvals more : List Approval)
    → ((c : ApprovedCandidate) → IsListed approvals c → IsListed more c)
    → All (IsListed more) (map to_domain_approval approvals)
All-IsListed [] more f = tt
All-IsListed (a ∷ approvals) more f =
    let s = (same_iff a.candidate_id a.candidate_id).1 refl in
    (
      f (to_domain_approval a) (rw s refl),
      All-IsListed approvals more (λ c h. f c (ground (arith, h))),
    )

-- The winner of a decision is one of the approvals.
pub winner-IsListed :
    (approvals : List Approval) (deadline now : Time) (d : ArbitrationDecision)
    → decide_arbitration (to_domain_approvals approvals) deadline now ≡ some d
    → IsListed approvals d.winner
winner-IsListed approvals deadline now d h =
    let cs = to_domain_approvals approvals in
    let (same_items, _) = decide_arbitration-Ranks cs deadline now h in
    let eligible : Mem d.winner (keep (is_eligible deadline) cs) =
      (Perm.mem_iff same_items).0 mem-cons_self in
    All-mem (λ c. hlevel) (keep (is_eligible deadline) cs)
      (All-passed (IsListed approvals) (is_eligible deadline) cs
        (All-IsListed approvals approvals (λ c l. l)))
      eligible
