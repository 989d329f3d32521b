-- ===== src/Gateway/Retry/Deadlines.antt =====
-- The deadlines of a valid policy exist, lie in the future and never shrink with the attempts.
use denyra.Base.{
  ℕ, zero, suc, ◌≤◌, ◌<◌, ◌≡◌, refl, true, Option, none, some, List, [], ◌∷◌, arith, length,
  get_elem?, Result, ok,
}
use denyra.Base.Int.{ℤ, pos, negsuc, ◌≤ℤ◌}
use denyra.Base.Time.{Time, utc, add_duration}
use denyra.Gateway.Retry.{
  RetryPolicy, Error, is_schedule, validate_schedule, validate, schedule_index, deadline,
  primary_deadline, fallback_deadline,
}

abbrev Below : Option ℤ → ℤ → Type 0
Below none v = Unit
Below (some u) v = u ≤ℤ v

-- The n-th value of a schedule that starts above `previous`.
schedule_at :
    (previous : Option ℤ) (vs : List ℤ) (n : ℕ)
    → is_schedule previous vs ≡ true
    → n < length vs
    → (k : ℕ) × (get_elem? vs n ≡ some (pos (suc k))) × Below previous (pos (suc k))
unfolding is_schedule
schedule_at previous [] n v h = absurd (omega arith)
schedule_at none (pos (suc k) ∷ vs) zero v h = (k, refl, tt)
schedule_at (some u) (pos (suc k) ∷ vs) zero v h = (k, refl, ground arith)
schedule_at none (pos zero ∷ vs) zero v h = absurd (ground arith)
schedule_at none (negsuc k ∷ vs) zero v h = absurd (ground arith)
schedule_at (some u) (pos zero ∷ vs) zero v h = absurd (ground arith)
schedule_at (some u) (negsuc k ∷ vs) zero v h = absurd (ground arith)
schedule_at none (w ∷ vs) (suc n) v h =
    let (k, e, b) = schedule_at (some w) vs n (ground arith) (omega arith) in (k, e, tt)
schedule_at (some u) (w ∷ vs) (suc n) v h =
    let (k, e, b) = schedule_at (some w) vs n (ground arith) (omega arith) in (k, e, ground arith)

tail_valid :
    (previous : Option ℤ) (w : ℤ) (vs : List ℤ)
    → is_schedule previous (w ∷ vs) ≡ true
    → is_schedule (some w) vs ≡ true
unfolding is_schedule
tail_valid none w vs h = ground arith
tail_valid (some u) w vs h = ground arith

index_lt : (vs : List ℤ) (n : ℕ) {v : ℤ} → get_elem? vs n ≡ some v → n < length vs
index_lt [] n h = absurd (cc)
index_lt (w ∷ vs) zero h = omega arith
index_lt (w ∷ vs) (suc n) h = omega (arith, index_lt vs n h)

valid : (vs : List ℤ) → validate_schedule vs ≡ ok tt → is_schedule none vs ≡ true
unfolding validate_schedule
valid vs h = ground arith

schedule_mono :
    (previous : Option ℤ) (vs : List ℤ) (n m j k : ℕ)
    → is_schedule previous vs ≡ true
    → n ≤ m
    → get_elem? vs n ≡ some (pos j)
    → get_elem? vs m ≡ some (pos k)
    → j ≤ k
unfolding is_schedule
schedule_mono previous [] n m j k v h p q = absurd (cc)
schedule_mono previous (w ∷ vs) zero zero j k v h p q = ground arith
schedule_mono previous (w ∷ vs) zero (suc m) j k v h p q =
    let (i, e, b) = schedule_at (some w) vs m (tail_valid previous w vs v) (index_lt vs m q) in
    ground arith
schedule_mono previous (w ∷ vs) (suc n) (suc m) j k v h p q =
    schedule_mono (some w) vs n m j k (tail_valid previous w vs v) (omega arith) p q
schedule_mono previous (w ∷ vs) (suc n) zero j k v h p q = absurd (omega arith)

-- A deadline at a valid schedule's own duration.
abbrev At : Time → ℕ → List ℤ → Type 0
At now n vs =
    (k : ℕ) × (get_elem? vs (schedule_index n vs) ≡ some (pos (suc k)))
    × (deadline now (pos n) vs ≡ ok (add_duration (utc now) (pos (suc k))))

index_in_range : (n : ℕ) (w : ℤ) (vs : List ℤ) → schedule_index n (w ∷ vs) < length (w ∷ vs)
unfolding schedule_index
index_in_range n w vs = ground arith

deadline_value :
    (now : Time) (n : ℕ) (w : ℤ) (vs : List ℤ) (k : ℕ)
    → get_elem? (w ∷ vs) (schedule_index n (w ∷ vs)) ≡ some (pos (suc k))
    → deadline now (pos n) (w ∷ vs) ≡ ok (add_duration (utc now) (pos (suc k)))
unfolding deadline
deadline_value now n w vs k e = ground arith

deadline-At : (now : Time) (n : ℕ) (vs : List ℤ) → validate_schedule vs ≡ ok tt → At now n vs
deadline-At now n [] v = absurd (unfold validate_schedule in cc)
deadline-At now n (w ∷ vs) v =
    let (k, e, _) =
      schedule_at none (w ∷ vs) (schedule_index n (w ∷ vs)) (valid (w ∷ vs) v)
        (index_in_range n w vs) in
    (k, e, deadline_value now n w vs k e)

index_mono : (n m : ℕ) (vs : List ℤ) → n ≤ m → schedule_index n vs ≤ schedule_index m vs
unfolding schedule_index
index_mono n m vs h = ground arith

-- The bounds of a retry: it lies after `now`, and a later attempt never waits less.
pub record IsBackoff (now : Time) (n m : ℕ) (r s : Result Error Time) : Type 0 where
  pub first : Time
  pub later : Time
  pub returns : (r ≡ ok first) × (s ≡ ok later)
  pub future : now.instant < first.instant
  pub grows : first.instant ≤ later.instant

deadline-IsBackoff :
    (now : Time) (n m : ℕ) (vs : List ℤ)
    → validate_schedule vs ≡ ok tt
    → n ≤ m
    → IsBackoff now n m (deadline now (pos n) vs) (deadline now (pos m) vs)
deadline-IsBackoff now n m vs v h =
    let (j, e, p) = deadline-At now n vs v in
    let (k, f, q) = deadline-At now m vs v in
    record {
      first = add_duration (utc now) (pos (suc j));
      later = add_duration (utc now) (pos (suc k));
      returns = (p, q);
      future = omega arith;
      grows =
          omega (
            arith,
            schedule_mono none vs _ _ (suc j) (suc k) (valid vs v) (index_mono n m vs h) e f,
          );
    }

-- Under a valid policy every attempt, however large, has a primary and a fallback deadline; each
-- lies after now, and a later attempt is never due before an earlier one.
pub deadlines-IsBackoff :
    (p : RetryPolicy) (now : Time) (n m : ℕ)
    → validate p ≡ ok tt
    → n ≤ m
    → IsBackoff now n m (primary_deadline p now (pos n)) (primary_deadline p now (pos m))
      × IsBackoff now n m (fallback_deadline p now (pos n)) (fallback_deadline p now (pos m))
unfolding validate primary_deadline fallback_deadline
deadlines-IsBackoff p now n m v h = (
  deadline-IsBackoff now n m p.primary (ground arith) h,
  deadline-IsBackoff now n m p.fallback (ground arith) h,
)
