-- ===== src/Gateway/Arbitration/Ranking.antt =====
-- The order behind `betterApproved`: the comparisons of its fields, one after the other.
use Prim.Native.Nat.{compare, lt, eq, gt, Ordering}
use denyra.Base.{◌≡◌, List, [], ◌∷◌, arith}
use denyra.Base.Int.{ℤ, pos, negsuc, compare_ℤ}
use denyra.Base.Order.{
  Compare, IsOrder, is_lt, then_by, lex, flip, by, lex-IsOrder, flip-IsOrder, by-IsOrder,
  compare-IsOrder, compare_ℤ-IsOrder, compare_bytes, compare_bytes-IsOrder,
}
use denyra.Gateway.Arbitration.{
  Quality, negate, compare_pairs, compare_quality, ApprovedCandidate, source_priority,
  better_approved,
}

-- Higher ranks first, fewer warnings first.
abbrev pub quality_order : Compare Quality
quality_order = lex (by (λ q. q.identity_rank) (flip compare_ℤ)) (
    lex (by (λ q. q.edition_rank) (flip compare_ℤ)) (
      lex (by (λ q. negate q.quality_warning_count) (flip compare_ℤ)) (
        lex (by (λ q. q.source_confidence) (flip compare_ℤ)) (
          lex (by (λ q. q.bit_depth) (flip compare_ℤ))
            (by (λ q. q.sample_rate) (flip compare_ℤ))))))

-- Higher values come first.
higher-IsOrder {ℓ} : {A : Type ℓ} (key : A → ℤ) → IsOrder (by key (flip compare_ℤ))
higher-IsOrder key = by-IsOrder (flip-IsOrder compare_ℤ-IsOrder) key

pub quality_order-IsOrder : IsOrder quality_order
quality_order-IsOrder = lex-IsOrder (higher-IsOrder (λ (q : Quality). q.identity_rank)) (
    lex-IsOrder (higher-IsOrder (λ (q : Quality). q.edition_rank)) (
      lex-IsOrder (higher-IsOrder (λ (q : Quality). negate q.quality_warning_count)) (
        lex-IsOrder (higher-IsOrder (λ (q : Quality). q.source_confidence)) (
          lex-IsOrder (higher-IsOrder (λ (q : Quality). q.bit_depth))
            (higher-IsOrder (λ (q : Quality). q.sample_rate))))))

abbrev pub sign : Ordering → ℤ
sign lt = pos 1
sign eq = pos 0
sign gt = negsuc 0

sign-pairs :
    (a b : ℤ) (rest : List (ℤ × ℤ)) (o : Ordering)
    → compare_pairs rest ≡ sign o
    → compare_pairs ((a, b) ∷ rest) ≡ sign (then_by (compare_ℤ b a) o)
unfolding compare_pairs
sign-pairs a b rest o h = ground arith

sign-last : (a b : ℤ) → compare_pairs ((a, b) ∷ []) ≡ sign (compare_ℤ b a)
unfolding compare_pairs
sign-last a b = ground arith

-- `CompareQuality` is 1, 0 or -1 as the first quality ranks above, with or below the second.
pub compare_quality-order : (l r : Quality) → compare_quality l r ≡ sign (quality_order l r)
unfolding compare_quality
compare_quality-order l r = sign-pairs _ _ _ _ (
    sign-pairs _ _ _ _
      (sign-pairs _ _ _ _ (sign-pairs _ _ _ _ (sign-pairs _ _ _ _ (sign-last _ _)))))

-- Quality, then the source's priority, then the earlier completion, then the identifier.
abbrev pub approved_order : Compare ApprovedCandidate
approved_order = lex (by (λ c. c.quality) quality_order) (
    lex (by (λ c. source_priority c.source) (flip compare))
      (lex (by (λ c. c.completion_at.instant) compare) (by (λ c. c.id) compare_bytes)))

pub approved_order-IsOrder : IsOrder approved_order
approved_order-IsOrder =
    lex-IsOrder (by-IsOrder quality_order-IsOrder (λ (c : ApprovedCandidate). c.quality)) (
      lex-IsOrder
        (by-IsOrder (flip-IsOrder compare-IsOrder)
          (λ (c : ApprovedCandidate). source_priority c.source))
        (lex-IsOrder
          (by-IsOrder compare-IsOrder (λ (c : ApprovedCandidate). c.completion_at.instant))
          (by-IsOrder compare_bytes-IsOrder (λ (c : ApprovedCandidate). c.id))))

-- `betterApproved` is the strict part of that order.
pub better_approved-order :
    (l r : ApprovedCandidate) → better_approved l r ≡ is_lt (approved_order l r)
unfolding better_approved
better_approved-order l r = rw (compare_quality-order l.quality r.quality) (ground arith)
