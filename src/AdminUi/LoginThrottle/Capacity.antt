-- ===== src/AdminUi/LoginThrottle/Capacity.antt =====
-- How many keys the throttle remembers.
use denyra.Base.{
  ℕ, ◌≤◌, ◌<◌, ◌≡◌, arith, ◌||◌, none, [], ◌∷◌, List, length, length-keep-le, All, Bool-cases,
  Option-cases, inl, inr, ◌≢◌,
}
use denyra.Base.Int.{pos, leb_ℤ, ltb_ℤ}
use denyra.Base.Sort.{All-map}
use denyra.Base.Text.{Str, same}
use denyra.Base.Time.{Time, zero_time, is_zero, before}
use denyra.AdminUi.LoginThrottle.{
  Entry, Entries, LoginThrottle, find, delete, oldest_from, expire, make_room, allow, failure,
  success,
}
use denyra.AdminUi.LoginThrottle.Map.{same_refl, length-put-le, length-put-found, length-delete-lt}

find-head : (k : Str) (e : Entry) (es : Entries) → find k ((k, e) ∷ es) ≢ none
unfolding find
find-head k e es h = ground (arith, same_refl k)

-- A key found further down is found.
find-tail : (k j : Str) (e : Entry) (es : Entries) → find k es ≢ none → find k ((j, e) ∷ es) ≢ none
unfolding find
find-tail k j e es h q = elim (Bool-cases (same k j)) [
  | inl s ↦ ground arith
  | inr s ↦ h (rw s at q)
]

All-found : (es : Entries) → All (λ p. find p.0 es ≢ none) es
All-found [] = tt
All-found ((j, e) ∷ es) =
    (find-head j e es, All-map _ _ es (λ p h. find-tail p.0 j e es h) (All-found es))

-- The key chosen is one of the map's.
oldest_from-found :
    (whole : Entries) (key : Str) (oldest : Time) (es : Entries)
    → All (λ p. find p.0 whole ≢ none) es
    → find key whole ≢ none
    → find (oldest_from key oldest es) whole ≢ none
unfolding oldest_from
oldest_from-found whole key oldest [] h k = k
oldest_from-found whole key oldest ((j, e) ∷ es) h k =
    elim (Bool-cases (is_zero oldest || before e.last_seen oldest)) [
      | inl b ↦ rw b (oldest_from-found whole j e.last_seen es h.1 h.0)
      | inr b ↦ rw b (oldest_from-found whole key oldest es h.1 k)
    ]

delete-oldest-lt :
    (es : Entries) → 0 < length es → length (delete (oldest_from [] zero_time es) es) < length es
unfolding oldest_from
delete-oldest-lt [] h = omega arith
delete-oldest-lt ((j, e) ∷ es) h =
    let found = All-found ((j, e) ∷ es) in
    length-delete-lt _ _ (oldest_from-found _ j e.last_seen es found.1 found.0)

-- Within the capacity.
abbrev pub IsBounded : ℕ → LoginThrottle → Type 0
IsBounded c t = (t.capacity ≡ pos c) × (length t.entries ≤ c)

expire-IsBounded :
    (c : ℕ) (now : Time) (t : LoginThrottle) → IsBounded c t → IsBounded c (expire now t)
unfolding expire
expire-IsBounded c now t h = (h.0, omega (arith, h.1, length-keep-le _ t.entries))

-- There is room for one more key.
make_room-lt :
    (c : ℕ) (now : Time) (t : LoginThrottle)
    → 0 < c
    → IsBounded c t
    → (make_room now t).capacity ≡ pos c × length (make_room now t).entries < c
unfolding make_room
make_room-lt c now t hc h =
    let u = expire now t in
    let b : IsBounded c u = expire-IsBounded c now t h in
    elim (Bool-cases (leb_ℤ u.capacity (pos 0) || ltb_ℤ (pos (length u.entries)) u.capacity)) [
      | inl q ↦ let p = rw b.0 at q in rw q (b.0, ground arith)
      | inr q ↦
          let p = rw b.0 at q in
          rw q (b.0, omega (arith, b.1, delete-oldest-lt u.entries (ground arith)))
    ]

allow-IsBounded :
    (c : ℕ) (k : Str) (now : Time) (t : LoginThrottle)
    → IsBounded c t
    → IsBounded c (allow k now t).0
unfolding allow
allow-IsBounded c k now t h =
    let u = expire now t in
    let b : IsBounded c u = expire-IsBounded c now t h in
    elim (Option-cases (find k u.entries)) [
      | inl n ↦ rw (n, allow) b
      | inr (e, f) ↦ elim (Bool-cases (before now e.blocked_until)) [
        | inl q ↦
            rw (f, q, allow)
              (
                b.0,
                omega (arith, b.1, length-put-found k (record e { last_seen = now }) e u.entries f),
              )
        | inr q ↦
            rw (f, q, allow)
              (
                b.0,
                omega (arith, b.1, length-put-found k (record e { last_seen = now }) e u.entries f),
              )
      ]
    ]

failure-IsBounded :
    (c : ℕ) (k : Str) (now : Time) (t : LoginThrottle)
    → 0 < c
    → IsBounded c t
    → IsBounded c (failure k now t).0
unfolding failure
failure-IsBounded c k now t hc h =
    let u = expire now t in
    let b : IsBounded c u = expire-IsBounded c now t h in
    let v = make_room-lt c now u hc b in
    elim (Option-cases (find k u.entries)) [
      | inl n ↦
          rw (n, failure) (v.0, omega (arith, v.1, length-put-le k _ (make_room now u).entries))
      | inr (e, f) ↦ rw (f, failure) (b.0, omega (arith, b.1, length-put-found k _ e u.entries f))
    ]

success-IsBounded :
    (c : ℕ) (k : Str) (t : LoginThrottle) → IsBounded c t → IsBounded c (success k t)
unfolding success delete
success-IsBounded c k t h = (h.0, omega (arith, h.1, length-keep-le _ t.entries))

-- What the handlers ask of the throttle, in the order in which the mutex lets them in.
pub data Request : Type 0 where
  asks fails : Str → Time → Request
  succeeds : Str → Request

abbrev pub serve : LoginThrottle → Request → LoginThrottle
serve t (asks k now) = (allow k now t).0
serve t (fails k now) = (failure k now t).0
serve t (succeeds k) = success k t

abbrev pub serve_all : LoginThrottle → List Request → LoginThrottle
serve_all t [] = t
serve_all t (r ∷ rs) = serve_all (serve t r) rs

serve-IsBounded :
    (c : ℕ) (t : LoginThrottle) (r : Request) → 0 < c → IsBounded c t → IsBounded c (serve t r)
serve-IsBounded c t (asks k now) hc h = allow-IsBounded c k now t h
serve-IsBounded c t (fails k now) hc h = failure-IsBounded c k now t hc h
serve-IsBounded c t (succeeds k) hc h = success-IsBounded c k t h

-- A throttle with a positive capacity that is within it stays within it, whatever is asked of it
-- and however the map is ordered: the keys of attackers cannot fill the memory.
pub serve_all-IsBounded :
    (c : ℕ) (t : LoginThrottle) (rs : List Request)
    → 0 < c
    → IsBounded c t
    → IsBounded c (serve_all t rs)
serve_all-IsBounded c t [] hc h = h
serve_all-IsBounded c t (r ∷ rs) hc h =
    serve_all-IsBounded c (serve t r) rs hc (serve-IsBounded c t r hc h)
