-- ===== src/Gateway/Correlation/Evidence.antt =====
-- What a correlated observation proves about the search that it is matched with.
use denyra.Base.{
  ◌≤◌, ◌≡◌, refl, ◌⊎◌, inl, inr, true, false, not, ◌&&◌, ◌||◌, [], arith, ok, >>=-eq-ok,
  reject_if-ok, guard-ok,
}
use denyra.Base.Int.{ℤ, leb_ℤ, ◌<ℤ◌, same_ℤ, same_ℤ_iff}
use denyra.Base.Text.{same, same_iff, is_empty, is_blank}
use denyra.Base.Time.{before}
use denyra.Gateway.Correlation.{
  CorrelationSource, queue, history, other, CorrelationRequest, CorrelationObservation, is_grabbed,
  validate, watermark_of, check_source, matches,
}

-- The record of this album and release group is newer than what the search started from, and was
-- seen between its start and its deadline.
pub record IsNewRecord (r : CorrelationRequest) (o : CorrelationObservation) : Type 0 where
  pub in_window :
      (r.started_at.instant ≤ o.observed_at.instant) × (o.observed_at.instant ≤ r.deadline.instant)
  pub newer :
      ((o.source ≡ queue) × (r.queue_watermark <ℤ o.record_id) × (is_blank o.download_id ≡ false))
      ⊎ ((o.source ≡ history)
          × (r.history_watermark <ℤ o.record_id)
          × (is_grabbed o.event_type ≡ true))
  pub same_group : (o.album_id ≡ r.album_id) × (o.release_group_mbid ≡ r.release_group_mbid)
  pub same_release : (r.release_mbid ≡ []) ⊎ (o.release_mbid ≡ r.release_mbid)

abbrev Guards : CorrelationRequest → CorrelationObservation → ℤ → Type 0
Guards r o w =
    (before o.observed_at r.started_at || before r.deadline o.observed_at ≡ false)
    × (watermark_of r o.source ≡ ok w)
    × (leb_ℤ o.record_id w ≡ false)
    × (not (same_ℤ o.album_id r.album_id) || not (same o.release_group_mbid r.release_group_mbid)
        ≡ false)
    × (not (is_empty r.release_mbid) && not (same o.release_mbid r.release_mbid) ≡ false)
    × (check_source o o.source ≡ ok tt)

-- The checks that a match has passed.
matches-Guards :
    (r : CorrelationRequest) (o : CorrelationObservation)
    → matches r o ≡ ok tt
    → (w : ℤ) × Guards r o w
unfolding matches
matches-Guards r o h =
    let (_, _, h₁) = >>=-eq-ok (validate r) _ h in
    let (g₁, h₂) = guard-ok _ _ _ h₁ in
    let (w, g₂, h₃) = >>=-eq-ok (watermark_of r o.source) _ h₂ in
    let (g₃, h₄) = guard-ok _ _ _ h₃ in
    let (g₄, h₅) = guard-ok _ _ _ h₄ in
    let (g₅, h₆) = guard-ok _ _ _ h₅ in
    let (_, h₇) = guard-ok _ _ _ h₆ in (w, (g₁, g₂, g₃, g₄, g₅, h₇))

watermark_newer :
    (r : CorrelationRequest) (o : CorrelationObservation) (s : CorrelationSource) (w : ℤ)
    → watermark_of r s ≡ ok w
    → leb_ℤ o.record_id w ≡ false
    → check_source o s ≡ ok tt
    → ((s ≡ queue) × (r.queue_watermark <ℤ o.record_id) × (is_blank o.download_id ≡ false))
      ⊎ ((s ≡ history) × (r.history_watermark <ℤ o.record_id) × (is_grabbed o.event_type ≡ true))
unfolding watermark_of check_source
watermark_newer r o queue w e h c = inl (refl, ground arith, reject_if-ok _ _ c)
watermark_newer r o history w e h c = inr (refl, ground arith, ground arith)
watermark_newer r o (other s) w e h c = absurd (cc)

-- A correlated observation is evidence of the search: it comes from the queue or the history, was
-- seen between the search's start and its deadline, is newer than the watermark of its source, has
-- the album, the release group and, if one is selected, the release of the request, and is a grab
-- if it is from the history, or has a download identity if it is from the queue.
matches-IsNewRecord :
    (r : CorrelationRequest) (o : CorrelationObservation) → matches r o ≡ ok tt → IsNewRecord r o
matches-IsNewRecord r o h =
    let (w, g) = matches-Guards r o h in
    record {
      in_window = ground arith;
      newer = watermark_newer r o o.source w g.1 g.2 g.5;
      same_group = ground (
        arith,
        (same_ℤ_iff o.album_id r.album_id).0,
        (same_iff o.release_group_mbid r.release_group_mbid).0,
      );
      same_release = ground (arith, (same_iff o.release_mbid r.release_mbid).0);
    }
