-- ===== src/Gateway/Arbitration/Decision.antt =====
-- Who wins an arbitration, and when there is no decision yet.
use denyra.Base.{
  ◌≡◌, refl, subst, ◌≢◌, ◌↔◌, inl, inr, true, none, some, List, [], ◌∷◌, arith, keep, Bool-cases,
}
use mathlib.Core.List.{Perm}
use mathlib.Core.List.Perm
use denyra.Base.Sort.{sort_stable, sort_stable-perm, sort_stable-IsSorted, IsSorted}
use denyra.Base.Time.{Time, before}
use denyra.Gateway.Arbitration.{
  ApprovedCandidate, ArbitrationDecision, DecisionReason, deadline_expired, better_approved,
  approved_earlier, is_eligible, reason_of, decision_of, decide_eligible, decide_arbitration,
}
use denyra.Gateway.Arbitration.Ranking.{
  approved_order, approved_order-IsOrder, better_approved-order,
}

-- The list is the winner and then the losers.
decision_of-eq :
    (r : DecisionReason) (xs : List ApprovedCandidate) (d : ArbitrationDecision)
    → decision_of r xs ≡ some d
    → (xs ≡ d.winner ∷ d.losers) × (d.reason ≡ r)
unfolding decision_of
decision_of-eq r xs d h = ground arith

-- A decision ranks the eligible candidates: all of them, none above an earlier one.
abbrev RanksAs : List ApprovedCandidate → List ApprovedCandidate → Type 0
RanksAs es xs = Perm xs es × IsSorted approved_order xs

abbrev pub Ranks : ArbitrationDecision → List ApprovedCandidate → Type 0
Ranks d es = RanksAs es (d.winner ∷ d.losers)

Ranks-sorted :
    (es : List ApprovedCandidate) (r : DecisionReason) (d : ArbitrationDecision)
    → decision_of r (sort_stable better_approved (sort_stable approved_earlier es)) ≡ some d
    → Ranks d es
Ranks-sorted es r d h =
    let (e, _) = decision_of-eq r _ d h in
    subst (RanksAs es) e (
      Perm.trans (sort_stable-perm better_approved (sort_stable approved_earlier es))
          (sort_stable-perm approved_earlier es),
      sort_stable-IsSorted approved_order-IsOrder better_approved better_approved-order
          (sort_stable approved_earlier es),
    )

decide_eligible-Ranks :
    (es : List ApprovedCandidate) (deadline now : Time) (d : ArbitrationDecision)
    → decide_eligible es deadline now ≡ some d
    → Ranks d es
unfolding decide_eligible
decide_eligible-Ranks [] deadline now d h = absurd (cc)
decide_eligible-Ranks (c ∷ []) deadline now d h = elim (Bool-cases (before now deadline)) [
  | inl early ↦ absurd (cc (rw early at h))
  | inr late ↦
      let (e, _) = decision_of-eq deadline_expired (c ∷ []) d (rw late at h) in
      subst (RanksAs (c ∷ [])) e (Perm.refl _, (tt, tt))
]
decide_eligible-Ranks (c ∷ e ∷ rest) deadline now d h =
    Ranks-sorted (c ∷ e ∷ rest) (reason_of (sort_stable approved_earlier (c ∷ e ∷ rest))) d h

-- The candidates that were approved before the deadline.
abbrev pub eligible : List ApprovedCandidate → Time → List ApprovedCandidate
eligible cs deadline = keep (is_eligible deadline) cs

-- A decision lists every candidate that was approved before the deadline exactly once, as the
-- winner or as a loser, and nothing else; and it lists them best first: no candidate is better
-- than one above it, by quality, source, completion time and identifier in that order.
pub decide_arbitration-Ranks :
    (cs : List ApprovedCandidate) (deadline now : Time) {d : ArbitrationDecision}
    → decide_arbitration cs deadline now ≡ some d
    → Ranks d (eligible cs deadline)
unfolding decide_arbitration
decide_arbitration-Ranks cs deadline now {d} h =
    decide_eligible-Ranks (eligible cs deadline) deadline now d h

abbrev pub IsPending : List ApprovedCandidate → Time → Time → Type 0
IsPending [] deadline now = Unit
IsPending (c ∷ []) deadline now = before now deadline ≡ true
IsPending (c ∷ e ∷ rest) deadline now = ⊥

ne-nil : {c : ApprovedCandidate} {cs : List ApprovedCandidate} → Perm [] (c ∷ cs) → ⊥
ne-nil p = cc (Perm.nil-eq p)

decision_of-ne-none :
    (r : DecisionReason) (xs : List ApprovedCandidate) → decision_of r xs ≡ none → xs ≡ []
unfolding decision_of
decision_of-ne-none r xs h = ground arith

sorted-ne-nil :
    (c : ApprovedCandidate) (cs : List ApprovedCandidate)
    → sort_stable better_approved (sort_stable approved_earlier (c ∷ cs)) ≢ []
sorted-ne-nil c cs e = ne-nil (
    rw e at (
      Perm.trans (sort_stable-perm better_approved (sort_stable approved_earlier (c ∷ cs)))
        (sort_stable-perm approved_earlier (c ∷ cs))))

IsPending-iff :
    (es : List ApprovedCandidate) (deadline now : Time)
    → (decide_eligible es deadline now ≡ none) ↔ IsPending es deadline now
unfolding decide_eligible decision_of
IsPending-iff [] deadline now = (λ h. tt, λ h. refl)
IsPending-iff (c ∷ []) deadline now = (λ h. ground arith, λ h. rw h)
IsPending-iff (c ∷ e ∷ rest) deadline now =
    (λ h. sorted-ne-nil c (e ∷ rest) (decision_of-ne-none _ _ h), λ h. absurd h)

-- The arbitration waits exactly while no candidate, or one candidate before the deadline, was
-- approved in time; with two it decides at once, and after the deadline with one.
pub decide_arbitration_waits_iff :
    (cs : List ApprovedCandidate) (deadline now : Time)
    → (decide_arbitration cs deadline now ≡ none) ↔ IsPending (eligible cs deadline) deadline now
unfolding decide_arbitration
decide_arbitration_waits_iff cs deadline now = IsPending-iff (eligible cs deadline) deadline now
