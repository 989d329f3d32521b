-- ===== src/Examples/Arbitrations.antt =====
-- Runs of internal/gateway/domain/arbitration.go.
use denyra.Gateway.Arbitration.{negate}
use denyra.Gateway.Arbitration.{compare_pairs}
use denyra.Gateway.Arbitration.{compare_quality}
use denyra.Base.Sort.{sort_stable}
use mathlib.Core.List.Perm
use denyra.Base.{◌≡◌, refl, ◌↔◌, none, some, [], ◌∷◌}
use denyra.Base.Int.{pos}
use denyra.Base.Text.{codes}
use denyra.Base.Time.{at_instant}
use denyra.Gateway.Arbitration.{
  Quality, slskd, spotiflac, ApprovedCandidate, ArbitrationDecision, provenance_priority,
  compare_approved, better_approved, decide_arbitration,
}
use denyra.Gateway.Arbitration.Decision.{
  Ranks, eligible, IsPending, decide_arbitration-Ranks, decide_arbitration_waits_iff,
}
use denyra.Gateway.Arbitration.Independence.{decide_arbitration-perm}
use denyra.Gateway.Arbitration.Ranking.{approved_order, better_approved-order}
use denyra.Base.Order.{is_lt}

abbrev plain_quality : Quality
plain_quality = record {
  identity_rank = pos 1;
  edition_rank = pos 1;
  quality_warning_count = pos 0;
  source_confidence = pos 1;
  bit_depth = pos 16;
  sample_rate = pos 44100;
}

abbrev first : ApprovedCandidate
first = record {
  id = codes "a";
  source = spotiflac;
  approved_at = at_instant 1;
  completion_at = at_instant 1;
  state_revision = 3;
  quality = plain_quality;
  non_blocking_warning_count = pos 0;
}

abbrev second : ApprovedCandidate
second = record first { id = codes "b"; source = slskd; approved_at = at_instant 2 }

abbrev third : ApprovedCandidate
third = record first {
  id = codes "c";
  approved_at = at_instant 3;
  quality = record plain_quality { bit_depth = pos 24 };
}

abbrev verdict : ArbitrationDecision
verdict = record { winner = second; losers = first ∷ []; reason = provenance_priority }

decides : decide_arbitration (first ∷ second ∷ []) (at_instant 10) (at_instant 5) ≡ some verdict
unfolding decide_arbitration sort_stable better_approved compare_quality compare_pairs negate
    compare_approved
decides = refl

decides_swapped :
    decide_arbitration (second ∷ first ∷ []) (at_instant 10) (at_instant 6) ≡ some verdict
unfolding decide_arbitration sort_stable better_approved compare_quality compare_pairs negate
    compare_approved
decides_swapped = refl

-- With a third candidate the reason is still what sets apart the two that were approved first,
-- although the winner beats both of them on quality.
reason_of_first_two :
    decide_arbitration (first ∷ second ∷ third ∷ []) (at_instant 10) (at_instant 5)
    ≡ some (record { winner = third; losers = second ∷ first ∷ []; reason = provenance_priority })
unfolding decide_arbitration sort_stable better_approved compare_quality compare_pairs negate
    compare_approved
reason_of_first_two = refl

decide_arbitration-Ranks_example : Ranks verdict (eligible (first ∷ second ∷ []) (at_instant 10))
decide_arbitration-Ranks_example =
    decide_arbitration-Ranks (first ∷ second ∷ []) (at_instant 10) (at_instant 5) decides

decide_arbitration_waits_iff_example :
    (decide_arbitration (first ∷ []) (at_instant 10) (at_instant 5) ≡ none)
    ↔ IsPending (eligible (first ∷ []) (at_instant 10)) (at_instant 10) (at_instant 5)
decide_arbitration_waits_iff_example =
    decide_arbitration_waits_iff (first ∷ []) (at_instant 10) (at_instant 5)

decide_arbitration-perm_example : verdict.winner.id ≡ verdict.winner.id
decide_arbitration-perm_example =
    decide_arbitration-perm (first ∷ second ∷ []) (second ∷ first ∷ []) (at_instant 10)
      (at_instant 5) (at_instant 6) {d = verdict} {d' = verdict} (Perm.swap second first []) decides
      decides_swapped

better_approved-order_example : better_approved first second ≡ is_lt (approved_order first second)
better_approved-order_example = better_approved-order first second
