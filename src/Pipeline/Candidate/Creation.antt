-- ===== src/Pipeline/Candidate/Creation.antt =====
-- What a new candidate's identity and directory are safe for.
use denyra.Base.{
  ◌≤◌, ◌≡◌, refl, ap, ◌≢◌, true, false, not, ◌||◌, [], ◌∷◌, arith, length, any, All, ok, >>=-eq-ok,
  guard-ok, negated, negated_both, ok-injective, subst,
}
use denyra.Base.Text.{Str, same_iff}
use denyra.Base.Time.{Time, is_zero}
use denyra.Base.FilePath.{slash, split_slash, is_abs, clean, dot, dot_dot}
use denyra.Pipeline.State.{received}
use denyra.Pipeline.Candidate.{
  Candidate, NewCandidate, is_url_safe, valid_source, validate_candidate_id, created,
  create_candidate,
}

All-safe :
    (s : Str) → any (λ c. not (is_url_safe c)) s ≡ false → All (λ c. (c ≢ slash) × (c ≢ b'.')) s
All-safe [] h = tt
All-safe (c ∷ s) h = (ground arith, All-safe s (ground arith))

single_name : (s : Str) → s ≢ [] → All (λ c. (c ≢ slash) × (c ≢ b'.')) s → split_slash s ≡ s ∷ []
unfolding split_slash
single_name [] n h = absurd (n refl)
single_name (c ∷ []) n h = ground arith
single_name (c ∷ d ∷ s) n h = ground (arith, single_name (d ∷ s))

no_dot : (s : Str) → All (λ c. (c ≢ slash) × (c ≢ b'.')) s → (s ≢ dot) × (s ≢ dot_dot)
no_dot [] h = (λ e. cc, λ e. cc)
no_dot (c ∷ s) h = (λ e. h.0.1 (ground arith), λ e. h.0.1 (ground arith))

-- The identity names one directory entry, the directory is absolute and clean, and the candidate
-- starts in RECEIVED at revision 0 with one UTC timestamp.
pub record IsFresh (input : NewCandidate) (c : Candidate) : Type 0 where
  pub one_name : (split_slash c.id ≡ c.id ∷ []) × (c.id ≢ dot) × (c.id ≢ dot_dot)
  pub short : (1 ≤ length c.id) × (length c.id ≤ 128)
  pub known_source : valid_source c.source ≡ true
  pub safe_directory :
      (is_abs c.release_directory ≡ true) × (clean c.release_directory ≡ c.release_directory)
  pub start : (c.state ≡ received) × (c.state_revision ≡ 0)
  pub dated : (c.created_at ≡ input.now) × (c.updated_at ≡ input.now) × (input.now.in_utc ≡ true)
  pub copied : (c.id ≡ input.id) × (c.release_directory ≡ input.release_directory)

id_checked :
    (s : Str)
    → validate_candidate_id s ≡ ok tt
    → (1 ≤ length s) × (length s ≤ 128) × (any (λ c. not (is_url_safe c)) s ≡ false)
unfolding validate_candidate_id
id_checked s h = ground arith

dated : (t : Time) → is_zero t || not t.in_utc ≡ false → t.in_utc ≡ true
dated t h = ground arith

-- A candidate is created only with an identity that is safe as a single directory name, a known
-- source, an absolute clean release directory and an explicit UTC time.
create_candidate-IsFresh :
    (input : NewCandidate) {c : Candidate} → create_candidate input ≡ ok c → IsFresh input c
unfolding create_candidate created
create_candidate-IsFresh input {c} h =
    let (_, id_ok, h₁) = >>=-eq-ok (validate_candidate_id input.id) _ h in
    let (_, h₂) = guard-ok _ _ _ h₁ in
    let (source_ok, h₃) = guard-ok _ _ _ h₂ in
    let (path_ok, h₄) = guard-ok _ _ _ h₃ in
    let (time_ok, made) = guard-ok _ _ _ h₄ in
    let (low, high, chars) = id_checked input.id id_ok in
    let safe = All-safe input.id chars in
    subst (IsFresh input) (ok-injective made) (record {
      one_name = (
        single_name input.id (λ e. absurd (omega (arith, ap (λ (x : Str). length x) e))) safe,
        (no_dot input.id safe).0,
        (no_dot input.id safe).1,
      );
      short = (low, high);
      known_source = negated _ source_ok;
      safe_directory = (
        (negated_both _ _ path_ok).0,
        (same_iff (clean input.release_directory) input.release_directory).0
            (negated_both _ _ path_ok).1,
      );
      start = (refl, refl);
      dated = (refl, refl, dated input.now time_ok);
      copied = (refl, refl);
    })
