-- ===== src/Gateway/Arbitration/Independence.antt =====
-- The winner does not depend on the order in which the approvals are read.
use Prim.Native.Nat.{lt, eq}
use mathlib.Core.List.{Perm, Mem, mem-cons_self}
use mathlib.Core.List.Perm
use denyra.Base.{
  ◌≡◌, refl, ◌≢◌, List, [], ◌∷◌, Option, some, arith, Bool-cases, inl, inr, if◌then◌else◌,
}
use denyra.Base.Sort.{All-mem, keep-perm, sort_stable}
use denyra.Base.Order.{compare_bytes, eq_of_compare_bytes}
use denyra.Base.Time.{Time}
use denyra.Gateway.Arbitration.{
  ApprovedCandidate, ArbitrationDecision, better_approved, compare_approved, is_eligible,
  decide_eligible, decision_of, approved_earlier, decide_arbitration,
}
use denyra.Gateway.Arbitration.Ranking.{
  approved_order, approved_order-IsOrder, quality_order-IsOrder, compare_quality-order,
}
use denyra.Gateway.Arbitration.Decision.{Ranks, eligible, decide_arbitration-Ranks}

abbrev NotAbove : ApprovedCandidate → ApprovedCandidate → Type 0
NotAbove w x = approved_order x w ≢ lt

NotAbove-self : (w : ApprovedCandidate) → NotAbove w w
NotAbove-self w h = ground (arith, approved_order-IsOrder.swaps w w)

-- No eligible candidate is above the winner.
winner_top :
    {es : List ApprovedCandidate} (d : ArbitrationDecision) (x : ApprovedCandidate)
    → Ranks d es
    → Mem x es
    → NotAbove d.winner x
winner_top d x r m =
    All-mem {P = NotAbove d.winner} (λ y. hlevel) (d.winner ∷ d.losers)
      (NotAbove-self d.winner, r.1.0) ((Perm.mem_iff r.0).1 m)

eq_of_NotAbove : (a b : ApprovedCandidate) → NotAbove a b → NotAbove b a → approved_order a b ≡ eq
eq_of_NotAbove a b p q = ground (arith, approved_order-IsOrder.swaps a b)

id_of_eq : (a b : ApprovedCandidate) → approved_order a b ≡ eq → compare_bytes a.id b.id ≡ eq
id_of_eq a b h = ground arith

-- Whatever the order of the same candidates, and whenever the decision is taken, the same
-- identifier wins.
pub decide_arbitration-perm :
    (cs cs' : List ApprovedCandidate) (deadline now now' : Time) {d d' : ArbitrationDecision}
    → Perm cs cs'
    → decide_arbitration cs deadline now ≡ some d
    → decide_arbitration cs' deadline now' ≡ some d'
    → d.winner.id ≡ d'.winner.id
decide_arbitration-perm cs cs' deadline now now' {d} {d'} p h h' =
    eq_of_compare_bytes d.winner.id d'.winner.id (id_of_eq d.winner d'.winner tie)
  where
    ranks : Ranks d (eligible cs deadline)
    ranks = decide_arbitration-Ranks cs deadline now h

    ranks' : Ranks d' (eligible cs' deadline)
    ranks' = decide_arbitration-Ranks cs' deadline now' h'

    same_items : Perm (eligible cs deadline) (eligible cs' deadline)
    same_items = keep-perm (is_eligible deadline) p

    tie : approved_order d.winner d'.winner ≡ eq
    tie =
        eq_of_NotAbove d.winner d'.winner
          (winner_top d d'.winner ranks
            ((Perm.mem_iff same_items).1 ((Perm.mem_iff ranks'.0).0 mem-cons_self)))
          (winner_top d' d.winner ranks'
            ((Perm.mem_iff same_items).0 ((Perm.mem_iff ranks.0).0 mem-cons_self)))

-- `compareApproved` does not depend on the order of its arguments.
compare_approved_comm : (a b : ApprovedCandidate) → compare_approved a b ≡ compare_approved b a
unfolding compare_approved
compare_approved_comm a b =
    rw (compare_quality-order a.quality b.quality, compare_quality-order b.quality a.quality)
      (ground (arith, quality_order-IsOrder.swaps a.quality b.quality))

-- A decision with one loser, whose reason is what sets the two apart.
abbrev pub SetsApart : Option ArbitrationDecision → Type 0
SetsApart o =
    (d : ArbitrationDecision) × (l : ApprovedCandidate) × (o ≡ some d)
    × (d.losers ≡ l ∷ [])
    × (d.reason ≡ compare_approved d.winner l)

sorted_two :
    (a b : ApprovedCandidate)
    → SetsApart (decision_of (compare_approved a b) (sort_stable better_approved (a ∷ b ∷ [])))
unfolding sort_stable decision_of
sorted_two a b = elim (Bool-cases (better_approved b a)) [
  | inl e ↦ rw e (decision b a, a, refl, refl, compare_approved_comm a b)
  | inr e ↦ rw e (decision a b, b, refl, refl, refl)
]
  where
    decision : ApprovedCandidate → ApprovedCandidate → ArbitrationDecision
    decision w l = record { winner = w; losers = l ∷ []; reason = compare_approved a b }

decide_two :
    (deadline now : Time) (a b : ApprovedCandidate)
    → SetsApart (decide_eligible (a ∷ b ∷ []) deadline now)
unfolding decide_eligible
decide_two deadline now a b = elim (Bool-cases (approved_earlier b a)) [
  | inl e ↦ rw (by_approval, e) (sorted_two b a)
  | inr e ↦ rw (by_approval, e) (sorted_two a b)
]
  where
    by_approval :
        sort_stable approved_earlier (a ∷ b ∷ [])
        ≡ (if approved_earlier b a then b ∷ a ∷ [] else a ∷ b ∷ [])
    by_approval = unfold sort_stable in refl

-- With two candidates approved in time there is a decision, with one loser, and its reason is the
-- first of quality, source, completion time and identifier in which winner and loser differ.
decide_arbitration_two :
    (cs : List ApprovedCandidate) (deadline now : Time) (a b : ApprovedCandidate)
    → eligible cs deadline ≡ a ∷ b ∷ []
    → SetsApart (decide_arbitration cs deadline now)
unfolding decide_arbitration
decide_arbitration_two cs deadline now a b h = rw h (decide_two deadline now a b)
