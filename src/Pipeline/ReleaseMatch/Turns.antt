-- ===== src/Pipeline/ReleaseMatch/Turns.antt =====
-- The loops of `MatchRelease`, undone turn by turn.
use denyra.Base.{
  ◌≡◌, refl, sym, ap, ◌↔◌, arith, true, false, Option, none, some, List, [], ◌∷◌, any, Result, ok,
  err, guard-ok, >>=-eq-ok, ok-injective,
}
use denyra.Base.Int.{ℤ, same_ℤ_iff}
use denyra.Pipeline.Duration.{DurationPolicy, DurationResult, evaluate_track_duration}
use denyra.Pipeline.Duration as Duration
use denyra.Pipeline.ReleaseMatch.{
  CanonicalTrack, CandidateTrack, TrackMatch, Position, same_position, candidate_position, track_at,
  check_track, index_tracks, found_track, Progress, matched, add_reference, match_candidate,
  or_duration_error,
}

pub same_position_iff : (p q : Position) → (same_position p q ≡ true) ↔ (p ≡ q)
unfolding same_position
same_position_iff p q = (
  λ h.
      let x : p.0 ≡ q.0 = (same_ℤ_iff p.0 q.0).0 (ground arith) in
      let y : p.1 ≡ q.1 = (same_ℤ_iff p.1 q.1).0 (ground arith) in cc,
  λ e. rw e (ground (arith, (same_ℤ_iff q.0 q.0).1 refl, (same_ℤ_iff q.1 q.1).1 refl)),
)

-- What the loop over the tracks stores: the tracks it is given, on top of those that are there.
abbrev pub onto : List CanonicalTrack → List CanonicalTrack → List CanonicalTrack
onto [] by_position = by_position
onto (t ∷ ts) by_position = onto ts (t ∷ by_position)

pub index_tracks-onto :
    (ts by_position : List CanonicalTrack) {r : List CanonicalTrack}
    → index_tracks by_position ts ≡ ok r
    → onto ts by_position ≡ r
unfolding index_tracks
index_tracks-onto [] by_position h = ok-injective h
index_tracks-onto (t ∷ ts) by_position h =
    let (_, _, h') =
      >>=-eq-ok (check_track by_position t) (λ x. index_tracks (t ∷ by_position) ts) h in
    index_tracks-onto ts (t ∷ by_position) h'

found_track-ok :
    (o : Option CanonicalTrack) {t : CanonicalTrack} → found_track o ≡ ok t → o ≡ some t
unfolding found_track
found_track-ok none h = cc
found_track-ok (some t) h = ap some (ok-injective h)

or_duration_error-ok :
    (r : Result Duration.Error DurationResult) {d : DurationResult}
    → or_duration_error r ≡ ok d
    → r ≡ ok d
unfolding or_duration_error
or_duration_error-ok (ok d) h = ap ok (ok-injective h)
or_duration_error-ok (err e) h = cc

-- One turn of the loop, undone.
pub match_candidate-ok :
    (policy : DurationPolicy) (by_position : List CanonicalTrack) (c : CandidateTrack)
    (s : Progress) {s' : Progress}
    → match_candidate policy by_position c s ≡ ok s'
    → (any (same_position (candidate_position c)) s.seen ≡ false)
      × (t : CanonicalTrack) × (d : DurationResult) × (track_at (candidate_position c) by_position
          ≡ some t)
      × (evaluate_track_duration policy t.duration_ms c.duration_ms ≡ ok d)
      × (add_reference t.duration_ms (matched c t d s) ≡ ok s')
unfolding match_candidate
match_candidate-ok policy by_position c s h =
    let (fresh, h₁) = guard-ok _ _ _ h in
    let (t, found, h₂) =
      >>=-eq-ok (found_track (track_at (candidate_position c) by_position)) _ h₁ in
    let (d, judged, h₃) =
      >>=-eq-ok (or_duration_error (evaluate_track_duration policy t.duration_ms c.duration_ms)) _
        h₂ in
    let (_, h₄) = guard-ok _ _ _ h₃ in
    (fresh, t, d, found_track-ok _ found, or_duration_error-ok _ judged, h₄)

-- What the loop keeps of its progress: each match is of a file and of the track at its position.
abbrev pub FitsTrack : List CanonicalTrack → TrackMatch → Type 0
FitsTrack by_position m = track_at (candidate_position m.candidate) by_position ≡ some m.canonical

-- The reference total aside, the progress is the one with the match.
pub add_reference-keeps :
    (o : Option ℤ) (s : Progress) {s' : Progress}
    → add_reference o s ≡ ok s'
    → (s'.seen ≡ s.seen)
      × (s'.tracks ≡ s.tracks)
      × (s'.status ≡ s.status)
      × (s'.observed_total ≡ s.observed_total)
unfolding add_reference
add_reference-keeps none s {s'} h =
    let e = ok-injective h in
    (
      ap (λ p. p.seen) (sym e),
      ap (λ p. p.tracks) (sym e),
      ap (λ p. p.status) (sym e),
      ap (λ p. p.observed_total) (sym e),
    )
add_reference-keeps (some v) s {s'} h =
    let (_, h₁) = guard-ok _ _ _ h in
    let e = ok-injective h₁ in
    (
      ap (λ p. p.seen) (sym e),
      ap (λ p. p.tracks) (sym e),
      ap (λ p. p.status) (sym e),
      ap (λ p. p.observed_total) (sym e),
    )
