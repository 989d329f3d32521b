-- ===== src/Pipeline/ReleaseMatch/Matching.antt =====
-- What the loop of `MatchRelease` over the files keeps.
use denyra.Base.{
  ◌≡◌, refl, sym, ap, subst, ◌∙◌, arith, Bool, true, false, ◌||◌, some, List, [], ◌∷◌, ◌++◌, map,
  length, any, All, ok, >>=-eq-ok, length-append, ok-injective,
}
use mathlib.Core.List.{append-nil, append_assoc}
use denyra.Base.Pigeonhole.{IsDistinct}
use denyra.Pipeline.Duration.{DurationPolicy}
use denyra.Pipeline.ReleaseMatch.{
  CanonicalTrack, CandidateTrack, TrackMatch, Position, same_position, position, candidate_position,
  matched, track_at, Progress, match_candidate, match_candidates,
}
use denyra.Pipeline.ReleaseMatch.Turns.{
  same_position_iff, match_candidate-ok, FitsTrack, add_reference-keeps,
}

abbrev pub has_file : Position → List TrackMatch → Bool
has_file p ms = any (λ m. same_position p (candidate_position m.candidate)) ms

track_at-has_track :
    (p : Position) (ts : List CanonicalTrack) {t : CanonicalTrack}
    → track_at p ts ≡ some t
    → any (same_position p) (map position ts) ≡ true
unfolding track_at
track_at-has_track p [] h = cc
track_at-has_track p (t ∷ ts) {t = u} h = ground (arith, track_at-has_track p ts {t = u})

-- What every turn keeps.
abbrev pub IsMatching : List CanonicalTrack → List Position → List TrackMatch → Type 0
IsMatching by_position seen tracks =
    IsDistinct same_position same_position_iff seen
    × All (λ p. any (same_position p) (map position by_position) ≡ true) seen
    × ((p : Position) → any (same_position p) seen ≡ has_file p tracks)
    × All (FitsTrack by_position) tracks
    × (length seen ≡ length tracks)

any-snoc :
    {A : Type 0} (p : A → Bool) (xs : List A) (x : A) → any p (xs ++ x ∷ []) ≡ p x || any p xs
any-snoc p [] x = refl
any-snoc p (y ∷ xs) x = ground (arith, any-snoc p xs x)

pub All-snoc :
    {A : Type 0} (P : A → Type 0) (xs : List A) (x : A) → All P xs → P x → All P (xs ++ x ∷ [])
All-snoc P [] x h q = (q, tt)
All-snoc P (y ∷ xs) x h q = (h.0, All-snoc P xs x h.1 q)

pub map-snoc :
    {A B : Type 0} (f : A → B) (xs : List A) (x : A) → map f (xs ++ x ∷ []) ≡ map f xs ++ f x ∷ []
map-snoc f [] x = refl
map-snoc f (y ∷ xs) x = ap (λ l. f y ∷ l) (map-snoc f xs x)

-- One more match of a position that has not been seen.
one_more :
    (by_position : List CanonicalTrack) (seen : List Position) (tracks : List TrackMatch)
    (m : TrackMatch)
    → any (same_position (candidate_position m.candidate)) seen ≡ false
    → FitsTrack by_position m
    → IsMatching by_position seen tracks
    → IsMatching by_position (candidate_position m.candidate ∷ seen) (tracks ++ m ∷ [])
one_more by_position seen tracks m fresh fit i = (
  (fresh, i.0),
  (track_at-has_track (candidate_position m.candidate) by_position fit, i.1),
  λ p.
      let e = any-snoc (λ n. same_position p (candidate_position n.candidate)) tracks m in
      ground (arith, e, i.2 p),
  All-snoc (FitsTrack by_position) tracks m i.3 fit,
  omega (arith, i.4, length-append tracks (m ∷ [])),
)

match_candidate-IsMatching :
    (policy : DurationPolicy) (by_position : List CanonicalTrack) (c : CandidateTrack)
    (s : Progress) {s' : Progress}
    → match_candidate policy by_position c s ≡ ok s'
    → IsMatching by_position s.seen s.tracks
    → IsMatching by_position s'.seen s'.tracks
      × (map (λ m. m.candidate) s'.tracks ≡ map (λ m. m.candidate) s.tracks ++ c ∷ [])
unfolding matched
match_candidate-IsMatching policy by_position c s {s'} h i =
    let (fresh, t, d, found, _, added) = match_candidate-ok policy by_position c s h in
    let (seen, tracks, _, _) = add_reference-keeps t.duration_ms _ added in
    let m : TrackMatch = record { candidate = c; canonical = t; duration = d } in
    rw (seen, tracks)
      (one_more by_position s.seen s.tracks m fresh found i, map-snoc (λ m. m.candidate) s.tracks m)

pub match_candidates-IsMatching :
    (policy : DurationPolicy) (by_position : List CanonicalTrack) (cs : List CandidateTrack)
    (s : Progress) {s' : Progress}
    → match_candidates policy by_position cs s ≡ ok s'
    → IsMatching by_position s.seen s.tracks
    → IsMatching by_position s'.seen s'.tracks
      × (map (λ m. m.candidate) s'.tracks ≡ map (λ m. m.candidate) s.tracks ++ cs)
unfolding match_candidates
match_candidates-IsMatching policy by_position [] s h i =
    subst
      (λ q.
        IsMatching by_position q.seen q.tracks
        × (map (λ m. m.candidate) q.tracks ≡ map (λ m. m.candidate) s.tracks ++ []))
      (ok-injective h) (i, sym (append-nil _))
match_candidates-IsMatching policy by_position (c ∷ cs) s h i =
    let (s₁, turn, rest) =
      >>=-eq-ok (match_candidate policy by_position c s) (match_candidates policy by_position cs)
        h in
    let (i₁, e₁) = match_candidate-IsMatching policy by_position c s turn i in
    let (i₂, e₂) = match_candidates-IsMatching policy by_position cs s₁ rest i₁ in
    (i₂, e₂ ∙ ap (λ l. l ++ cs) e₁ ∙ append_assoc _ (c ∷ []) cs)
