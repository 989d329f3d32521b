-- ===== src/Gateway/Arbitration.antt =====
-- internal/gateway/domain/arbitration.go: the choice between approved candidates of one job.
pub mod Ranking
pub mod Decision
pub mod Independence
use denyra.Base.{
  ℕ, ◌+◌, Bool, true, false, not, ◌||◌, Option, none, some, List, [], ◌∷◌, ◌==◌, if◌then◌else◌, ltb,
  keep,
}
use denyra.Base.Int.{ℤ, pos, negsuc, ◌-ℤ◌, int64, ltb_ℤ, compare_ℤ}
use denyra.Base.Text.{Str, str_ltb}
use denyra.Base.Time.{Time, before, same_instant}
use denyra.Base.Sort.{sort_stable}

pub record Quality : Type 0 where
  pub identity_rank : ℤ
  pub edition_rank : ℤ
  pub quality_warning_count : ℤ
  pub source_confidence : ℤ
  pub bit_depth : ℤ
  pub sample_rate : ℤ

pub data CandidateSource : Type 0 where
  slskd spotiflac : CandidateSource
  other : Str → CandidateSource

-- `-n` on an int
unfoldable pub negate : ℤ → ℤ
unfolding int64 ◌-ℤ◌
negate n = int64 (pos 0 -ℤ n)

-- The loop of `CompareQuality`.
unfoldable pub compare_pairs : List (ℤ × ℤ) → ℤ
compare_pairs [] = pos 0
compare_pairs ((left, right) ∷ rest) =
    let later = compare_pairs rest in
    if ltb_ℤ right left then pos 1 else if ltb_ℤ left right then negsuc 0 else later

-- `CompareQuality`: 1, -1 or 0.
unfoldable pub compare_quality : Quality → Quality → ℤ
compare_quality left right = compare_pairs (
    (left.identity_rank, right.identity_rank)
    ∷ (left.edition_rank, right.edition_rank)
    ∷ (negate left.quality_warning_count, negate right.quality_warning_count)
    ∷ (left.source_confidence, right.source_confidence)
    ∷ (left.bit_depth, right.bit_depth)
    ∷ (left.sample_rate, right.sample_rate)
    ∷ [])

pub record ApprovedCandidate : Type 0 where
  pub id : Str
  pub source : CandidateSource
  pub approved_at : Time
  pub completion_at : Time
  pub state_revision : ℕ
  pub quality : Quality
  pub non_blocking_warning_count : ℤ

pub data DecisionReason : Type 0 where
  quality_vector provenance_priority completion_time candidate_id deadline_expired : DecisionReason

pub record ArbitrationDecision : Type 0 where
  pub winner : ApprovedCandidate
  pub losers : List ApprovedCandidate
  pub reason : DecisionReason

unfoldable pub source_priority : CandidateSource → ℕ
source_priority slskd = 2
source_priority spotiflac = 1
source_priority (other s) = 0

-- `quality != 0` and `quality > 0` of a result of `compare_quality`
abbrev nonzero : ℤ → Bool
nonzero n = not (ltb_ℤ n (pos 1)) || ltb_ℤ n (pos 0)

unfoldable pub better_approved : ApprovedCandidate → ApprovedCandidate → Bool
unfolding source_priority
better_approved left right =
    let quality = compare_quality left.quality right.quality in
    let left_priority = source_priority left.source in
    let right_priority = source_priority right.source in
    if nonzero quality
    then ltb_ℤ (pos 0) quality
    else if not (left_priority == right_priority)
    then ltb right_priority left_priority
    else if not (same_instant left.completion_at right.completion_at)
    then before left.completion_at right.completion_at
    else str_ltb left.id right.id

unfoldable pub compare_approved : ApprovedCandidate → ApprovedCandidate → DecisionReason
unfolding source_priority
compare_approved left right =
    if nonzero (compare_quality left.quality right.quality)
    then quality_vector
    else if not (source_priority left.source == source_priority right.source)
    then provenance_priority
    else if not (same_instant left.completion_at right.completion_at)
    then completion_time
    else candidate_id

approved_earlier : ApprovedCandidate → ApprovedCandidate → Bool
approved_earlier a b = before a.approved_at b.approved_at

-- `candidate.ApprovedAt.Before(deadline)`
abbrev pub is_eligible : Time → ApprovedCandidate → Bool
is_eligible deadline c = before c.approved_at deadline

-- The reason compares the two candidates that were approved first.
reason_of : List ApprovedCandidate → DecisionReason
reason_of (first ∷ second ∷ rest) = compare_approved first second
reason_of _ = deadline_expired

-- The head of the sorted candidates wins; there is none only if there are no candidates.
decision_of : DecisionReason → List ApprovedCandidate → Option ArbitrationDecision
decision_of reason [] = none
decision_of reason (winner ∷ losers) =
    some (record { winner = winner; losers = losers; reason = reason })

decide_eligible : List ApprovedCandidate → Time → Time → Option ArbitrationDecision
unfolding approved_earlier reason_of decision_of
decide_eligible [] deadline now = none
decide_eligible (c ∷ []) deadline now =
    if before now deadline then none else decision_of deadline_expired (c ∷ [])
decide_eligible (c ∷ d ∷ rest) deadline now =
    let by_approval = sort_stable approved_earlier (c ∷ d ∷ rest) in
    decision_of (reason_of by_approval) (sort_stable better_approved by_approval)

-- `DecideArbitration`; `none` is its `false`.
unfoldable pub decide_arbitration :
    List ApprovedCandidate → Time → Time → Option ArbitrationDecision
unfolding decide_eligible
decide_arbitration candidates deadline now =
    decide_eligible (keep (is_eligible deadline) candidates) deadline now
