-- ===== src/Pipeline/ReleaseMatch/Assignment.antt =====
-- A match pairs every file with its own track of the release.
use denyra.Base.{
  suc, ◌+◌, ◌≤◌, ◌≡◌, refl, sym, ap, subst, ◌∙◌, ◌⊎◌, arith, true, ◌||◌, some, List, [], ◌∷◌, map,
  not, ◌==◌, length, any, All, Bool-cases, inl, inr, ok, >>=-eq-ok, ok-injective, reject_if-ok,
  some-injective,
}
use denyra.Base.Pigeonhole.{pigeonhole}
use denyra.Base.Sort.{All-map}
use denyra.Base.Text.{Str}
use denyra.Pipeline.Duration.{DurationPolicy, evaluate_release_duration}
use denyra.Pipeline.ReleaseMatch.{
  CanonicalTrack, CanonicalRelease, CandidateTrack, TrackMatch, ReleaseMatch, Position,
  same_position, position, candidate_position, check_counts, check_identity, or_duration_error,
  match_tracks, track_at, index_tracks, Progress, start, match_candidates, with_total,
  match_release,
}
use denyra.Pipeline.ReleaseMatch.Matching.{has_file, IsMatching, match_candidates-IsMatching}
use denyra.Pipeline.ReleaseMatch.Turns.{same_position_iff, onto, index_tracks-onto, FitsTrack}

-- One of the tracks, as it stands in a list.
abbrev IsTrackOf : CanonicalTrack → List CanonicalTrack → Type 0
IsTrackOf t [] = ⊥
IsTrackOf t (u ∷ us) = (u ≡ t) ⊎ IsTrackOf t us

track_at_sound :
    (p : Position) (ts : List CanonicalTrack) {t : CanonicalTrack}
    → track_at p ts ≡ some t
    → IsTrackOf t ts × (position t ≡ p)
unfolding track_at
track_at_sound p [] h = cc
track_at_sound p (u ∷ ts) {t = t} h = elim (Bool-cases (same_position p (position u))) [
  | inl e ↦
      let q : u ≡ t = some-injective (rw e at h) in
      (inl q, ap position (sym q) ∙ sym ((same_position_iff p (position u)).0 e))
  | inr e ↦ let (i, q) = track_at_sound p ts (rw e at h) in (inr i, q)
]

IsTrackOf-onto :
    (t : CanonicalTrack) (ts us : List CanonicalTrack)
    → IsTrackOf t (onto ts us)
    → IsTrackOf t ts ⊎ IsTrackOf t us
IsTrackOf-onto t [] us h = inr h
IsTrackOf-onto t (x ∷ ts) us h = elim (IsTrackOf-onto t ts (x ∷ us) h) [
  | inl i ↦ inl (inr i)
  | inr (inl e) ↦ inl (inl e)
  | inr (inr i) ↦ inr i
]

All-onto :
    (P : Position → Type 0) (ts us : List CanonicalTrack)
    → All P (map position (onto ts us))
    → All (λ t. P (position t)) ts × All P (map position us)
All-onto P [] us h = (tt, h)
All-onto P (t ∷ ts) us h = let (a, b) = All-onto P ts (t ∷ us) h in ((b.0, a), b.1)

length-onto : (ts us : List CanonicalTrack) → length (onto ts us) ≡ length ts + length us
length-onto [] us = omega arith
length-onto (t ∷ ts) us = omega (arith, length-onto ts (t ∷ us))

with_total-tracks :
    (policy : DurationPolicy) (release : CanonicalRelease) (s : Progress) {m : ReleaseMatch}
    → with_total policy release s ≡ ok m
    → s.tracks ≡ m.tracks
unfolding with_total
with_total-tracks policy release s h = elim (Bool-cases s.all_references) [
  | inl e ↦
      let (d, _, q) =
        >>=-eq-ok
          (or_duration_error
            (evaluate_release_duration policy (some s.reference_total) s.observed_total))
          _ (rw e at h) in
      ap (λ m. m.tracks) (ok-injective q)
  | inr e ↦ ap (λ m. m.tracks) (ok-injective (rw e at h))
]

-- The track of a match is one of the release, and stands where the file says.
abbrev pub IsInPlace : CanonicalRelease → TrackMatch → Type 0
IsInPlace release m =
    IsTrackOf m.canonical release.tracks × (position m.canonical ≡ candidate_position m.candidate)

fits-IsInPlace :
    (release : CanonicalRelease) (ms : List TrackMatch)
    → All (FitsTrack (onto release.tracks [])) ms
    → All (IsInPlace release) ms
fits-IsInPlace release [] h = tt
fits-IsInPlace release (m ∷ ms) h =
    let (i, p) = track_at_sound (candidate_position m.candidate) _ h.0 in
    let from : IsTrackOf m.canonical release.tracks =
      elim (IsTrackOf-onto m.canonical release.tracks [] i) [ inl j ↦ j | inr j ↦ absurd j ] in
    ((from, p), fits-IsInPlace release ms h.1)

length-map : {A B : Type 0} (f : A → B) (xs : List A) → length (map f xs) ≡ length xs
length-map f [] = refl
length-map f (x ∷ xs) = ap suc (length-map f xs)

-- The entries pair the files with the tracks of the release.
abbrev IsPairing : CanonicalRelease → List CandidateTrack → List TrackMatch → Type 0
IsPairing release candidates ms =
    (map (λ x. x.candidate) ms ≡ candidates)
    × All (IsInPlace release) ms
    × All (λ t. has_file (position t) ms ≡ true) release.tracks

matching-IsPairing :
    (release : CanonicalRelease) (candidates : List CandidateTrack) (seen : List Position)
    (ms : List TrackMatch)
    → length candidates ≡ length release.tracks
    → map (λ x. x.candidate) ms ≡ candidates
    → IsMatching (onto release.tracks []) seen ms
    → IsPairing release candidates ms
matching-IsPairing release candidates seen ms counts pairs i =
    let by_position = onto release.tracks [] in
    let size : length (map position by_position) ≤ length seen = omega (
      arith,
      i.4,
      counts,
      length-map position by_position,
      length-onto release.tracks [],
      length-map (λ (m : TrackMatch). m.candidate) ms,
      ap (λ (l : List CandidateTrack). length l) pairs,
    ) in
    let all =
      pigeonhole same_position same_position_iff seen (map position by_position) i.0 i.1 size in
    let (tracks, _) = All-onto (λ p. any (same_position p) seen ≡ true) release.tracks [] all in
    (
      pairs,
      fits-IsInPlace release ms i.3,
      All-map _ _ release.tracks (λ t q. sym (i.2 (position t)) ∙ q) tracks,
    )

check_counts-ok :
    (release : CanonicalRelease) (candidates : List CandidateTrack) {u : Unit {0}}
    → check_counts release candidates ≡ ok u
    → length candidates ≡ length release.tracks
unfolding check_counts
check_counts-ok release candidates h =
    let e =
      reject_if-ok (not (length candidates == length release.tracks) || length candidates == 0) _
        h in
    ground arith

match_tracks-IsPairing :
    (policy : DurationPolicy) (release : CanonicalRelease) (candidates : List CandidateTrack)
    (m : ReleaseMatch)
    → length candidates ≡ length release.tracks
    → match_tracks policy release candidates ≡ ok m
    → IsPairing release candidates m.tracks
unfolding match_tracks
match_tracks-IsPairing policy release candidates m counts h =
    let (by_position, indexed, h₁) = >>=-eq-ok (index_tracks [] release.tracks) _ h in
    let (s, looped, h₂) = >>=-eq-ok (match_candidates policy by_position candidates start) _ h₁ in
    let listed = index_tracks-onto release.tracks [] indexed in
    let (i, pairs) =
      match_candidates-IsMatching policy by_position candidates start looped
        (tt, tt, λ p. refl, tt, refl) in
    let same_tracks = with_total-tracks policy release s h₂ in
    let i' = subst (λ b. IsMatching b s.seen s.tracks) (sym listed) i in
    subst (IsPairing release candidates) same_tracks
      (matching-IsPairing release candidates s.seen s.tracks counts pairs i')

-- A successful match has one entry for each file, in the order of the files; the track of an
-- entry is a track of the release at the file's disc and track number; and every track of the
-- release has a file at its place. So the files and the tracks correspond one to one.
pub match_release-Pairs :
    (policy : DurationPolicy) (mbid : Str) (release : CanonicalRelease)
    (candidates : List CandidateTrack) (m : ReleaseMatch)
    → match_release policy mbid release candidates ≡ ok m
    → (map (λ x. x.candidate) m.tracks ≡ candidates)
      × All (IsInPlace release) m.tracks
      × All (λ t. has_file (position t) m.tracks ≡ true) release.tracks
unfolding match_release
match_release-Pairs policy mbid release candidates m h =
    let (_, _, h₁) = >>=-eq-ok (check_identity mbid release) _ h in
    let (_, counted, h₂) = >>=-eq-ok (check_counts release candidates) _ h₁ in
    match_tracks-IsPairing policy release candidates m (check_counts-ok release candidates counted)
      h₂
