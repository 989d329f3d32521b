-- ===== src/Pipeline/Metadata/Discs.antt =====
-- What a validated plan promises of its discs and tracks.
use mathlib.Core.List.{Perm}
use mathlib.Core.List.Perm
use denyra.Base.{
  ℕ, zero, suc, ◌+◌, ◌≤◌, ◌<◌, ◌≡◌, refl, subst, arith, true, false, not, ◌||◌, List, [], ◌∷◌, ◌==◌,
  any, All, length, map, ok, >>=-eq-ok, guard-ok, reject_if-ok, negated, Bool-cases, inl, inr,
}
use denyra.Base.Int.{ℤ, pos, pos_part, same_ℤ, same_ℤ_iff, leb_ℤ, ltb_ℤ, ◌≤ℤ◌}
use denyra.Base.Pigeonhole.{IsDistinct, apart, unseen}
use denyra.Base.Sort.{sort_stable-perm, length-sort_stable}
use denyra.Base.Text.{Str, same, same_iff, is_blank}
use denyra.Pipeline.Metadata.{
  TrackMetadata, MetadataPlan, is_incomplete, check_track, check_tracks, positions,
  is_contiguous_from, sort_ints, check_disc, check_discs, check_totals, validate_metadata_plan,
  track_incomplete, duplicate_path, disc_empty, disc_not_contiguous, totals_inconsistent,
  names_required,
}

-- index + 1, index + 2, and so on.
abbrev numbers_from : ℕ → ℕ → List ℤ
numbers_from index zero = []
numbers_from index (suc n) = pos (index + 1) ∷ numbers_from (index + 1) n

contiguous :
    (index : ℕ) (ps : List ℤ)
    → is_contiguous_from index ps ≡ true
    → ps ≡ numbers_from index (length ps)
unfolding is_contiguous_from
contiguous index [] h = refl
contiguous index (p ∷ ps) h =
    let e : p ≡ pos (index + 1) = (same_ℤ_iff p (pos (index + 1))).0 (ground arith) in
    let rest = contiguous (index + 1) ps (ground arith) in cc

-- The tracks of a disc are numbered 1, 2, and so on, in some order, and there is one at least.
abbrev pub IsNumbered : List TrackMetadata → ℤ → Type 0
IsNumbered ts disc = (n : ℕ) × (0 < n) × Perm (positions disc ts) (numbers_from 0 n)

check_disc-IsNumbered :
    (ts : List TrackMetadata) (disc : ℤ) {u : Unit {0}}
    → check_disc ts disc ≡ ok u
    → IsNumbered ts disc
unfolding check_disc sort_ints
check_disc-IsNumbered ts disc h =
    let (some_track, h₁) = guard-ok (length (positions disc ts) == 0) (disc_empty disc) _ h in
    let sorted = sort_ints (positions disc ts) in
    let e = contiguous 0 sorted (
      negated _ (reject_if-ok (not (is_contiguous_from 0 sorted)) (disc_not_contiguous disc) h₁)) in
    let same_tracks : Perm sorted (positions disc ts) =
      sort_stable-perm (λ a b. ltb_ℤ a b) (positions disc ts) in
    let count : length sorted ≡ length (positions disc ts) =
      length-sort_stable (λ a b. ltb_ℤ a b) (positions disc ts) in
    (
      length sorted,
      ground (arith, count, some_track),
      subst (Perm (positions disc ts)) e (Perm.symm same_tracks),
    )

check_discs-IsNumbered :
    (ts : List TrackMetadata) (left first d : ℕ) {u : Unit {0}}
    → check_discs ts left first ≡ ok u
    → first ≤ d
    → d < first + left
    → IsNumbered ts (pos d)
unfolding check_discs
check_discs-IsNumbered ts zero first d h lo hi =
    let impossible : ⊥ = omega arith in absurd impossible
check_discs-IsNumbered ts (suc left) first d h lo hi =
    let (_, one, rest) = >>=-eq-ok (check_disc ts (pos first)) _ h in
    elim (Bool-cases (d == first)) [
      | inl e ↦
          let same : first ≡ d = ground arith in
          subst (λ n. IsNumbered ts (pos n)) same (check_disc-IsNumbered ts (pos first) one)
      | inr e ↦ check_discs-IsNumbered ts left (first + 1) d rest (ground arith) (omega arith)
    ]

-- A track is complete: its disc exists, and its number and duration are positive.
abbrev pub IsOnDisc : ℤ → TrackMetadata → Type 0
IsOnDisc disc_total t =
    (pos 1 ≤ℤ t.disc) × (t.disc ≤ℤ disc_total) × (pos 1 ≤ℤ t.track) × (pos 1 ≤ℤ t.duration_ms)

is_incomplete-IsOnDisc : (n : ℤ) (t : TrackMetadata) → is_incomplete n t ≡ false → IsOnDisc n t
unfolding is_incomplete
is_incomplete-IsOnDisc n t h = (ground arith, ground arith, ground arith, ground arith)

check_track-ok :
    (n : ℤ) (paths : List Str) (t : TrackMetadata) {u : Unit {0}}
    → check_track n paths t ≡ ok u
    → IsOnDisc n t × (any (same t.relative_path) paths ≡ false)
unfolding check_track
check_track-ok n paths t h =
    let (complete, h₁) = guard-ok (is_incomplete n t) (track_incomplete t.relative_path) _ h in
    (is_incomplete-IsOnDisc n t complete, reject_if-ok _ (duplicate_path t.relative_path) h₁)

check_tracks-ok :
    (n : ℤ) (paths : List Str) (ts : List TrackMetadata) {u : Unit {0}}
    → check_tracks n paths ts ≡ ok u
    → All (IsOnDisc n) ts
      × All (λ p. any (same p) paths ≡ false) (map (λ t. t.relative_path) ts)
      × IsDistinct same same_iff (map (λ t. t.relative_path) ts)
unfolding check_tracks
check_tracks-ok n paths [] h = (tt, tt, tt)
check_tracks-ok n paths (t ∷ ts) h =
    let (_, one, rest) = >>=-eq-ok (check_track n paths t) _ h in
    let (complete, fresh) = check_track-ok n paths t one in
    let (a, b, c) = check_tracks-ok n (t.relative_path ∷ paths) ts rest in
    ((complete, a), (fresh, unseen same same_iff _ paths _ b), (apart same same_iff _ paths _ b, c))

totals_agree :
    (l : ℕ) (total discs : ℤ)
    → (l == 0 || not (same_ℤ total (pos l)) || leb_ℤ discs (pos 0)) ≡ false
    → (total ≡ pos l) × (pos 1 ≤ℤ discs)
totals_agree l total discs h = ((same_ℤ_iff total (pos l)).0 (ground arith), ground arith)

check_totals-ok :
    (plan : MetadataPlan) {u : Unit {0}}
    → check_totals plan ≡ ok u
    → (plan.track_total ≡ pos (length plan.tracks)) × (pos 1 ≤ℤ plan.disc_total)
unfolding check_totals
check_totals-ok plan h =
    let (_, h₁) = guard-ok (is_blank plan.album_artist || is_blank plan.album) names_required _ h in
    totals_agree (length plan.tracks) plan.track_total plan.disc_total
      (reject_if-ok _ totals_inconsistent h₁)

disc_in_range : (z : ℤ) (d : ℕ) → pos 1 ≤ℤ z → pos d ≤ℤ z → d < 1 + pos_part z
disc_in_range z d h k = ground arith

-- A validated plan counts its tracks correctly; every track has a positive number and duration
-- and stands on one of the discs; and no two tracks have the same path.
validate_metadata_plan-IsComplete :
    (plan : MetadataPlan)
    → validate_metadata_plan plan ≡ ok tt
    → (plan.track_total ≡ pos (length plan.tracks))
      × All (IsOnDisc plan.disc_total) plan.tracks
      × IsDistinct same same_iff (map (λ t. t.relative_path) plan.tracks)
unfolding validate_metadata_plan
validate_metadata_plan-IsComplete plan h =
    let (_, totals, h₁) = >>=-eq-ok (check_totals plan) _ h in
    let (_, tracks, _) = >>=-eq-ok (check_tracks plan.disc_total [] plan.tracks) _ h₁ in
    let (complete, _, distinct) = check_tracks-ok plan.disc_total [] plan.tracks tracks in
    ((check_totals-ok plan totals).0, complete, distinct)

-- On every disc of a validated plan, from the first to the last, there are tracks, and they are
-- numbered 1, 2 and so on without a gap or a repetition, in whatever order they are listed.
pub validate_metadata_plan-IsNumbered :
    (plan : MetadataPlan) (d : ℕ)
    → validate_metadata_plan plan ≡ ok tt
    → 1 ≤ d
    → pos d ≤ℤ plan.disc_total
    → IsNumbered plan.tracks (pos d)
unfolding validate_metadata_plan
validate_metadata_plan-IsNumbered plan d h lo hi =
    let (_, totals, h₁) = >>=-eq-ok (check_totals plan) _ h in
    let (_, _, discs) = >>=-eq-ok (check_tracks plan.disc_total [] plan.tracks) _ h₁ in
    check_discs-IsNumbered plan.tracks (pos_part plan.disc_total) 1 d discs lo
      (disc_in_range plan.disc_total d (check_totals-ok plan totals).1 hi)
