-- ===== src/Gateway/WantedCycles/Keys.antt =====
-- The keys that internal/gateway/persistence/wanted_cycles.go groups the jobs by.
use denyra.Base.{◌≡◌, refl, arith, true, List, [], ◌∷◌, any, All, All-mono, Bool-cases, inl, inr}
use denyra.Base.Int.{same_ℤ_iff}
use denyra.Base.Text.{same_iff}
use denyra.Gateway.WantedCycles.{WantedKey, CycleJob, key_of, same_key, keys_of}

pub same_key-equal : (a b : WantedKey) → same_key a b ≡ true → a ≡ b
same_key-equal a b h =
    let albums : a.album_id ≡ b.album_id = (same_ℤ_iff a.album_id b.album_id).0 (ground arith) in
    let groups : a.release_group_mbid ≡ b.release_group_mbid =
      (same_iff a.release_group_mbid b.release_group_mbid).0 (ground arith) in
    cc

pub same_key_refl : (a : WantedKey) → same_key a a ≡ true
same_key_refl a =
    let albums = (same_ℤ_iff a.album_id a.album_id).1 refl in
    let groups = (same_iff a.release_group_mbid a.release_group_mbid).1 refl in
    rw (albums, groups) refl

-- A job adds its key to the keys, and takes none away.
keys_of-own :
    (item : CycleJob) (jobs : List CycleJob)
    → any (same_key (key_of item)) (keys_of (item ∷ jobs)) ≡ true
unfolding keys_of
keys_of-own item jobs = elim (Bool-cases (any (same_key (key_of item)) (keys_of jobs))) [
  | inl e ↦ rw e e
  | inr e ↦ rw e (rw (same_key_refl (key_of item)) refl)
]

keys_of-grows :
    (item : CycleJob) (jobs : List CycleJob) (key : WantedKey)
    → any (same_key key) (keys_of jobs) ≡ true
    → any (same_key key) (keys_of (item ∷ jobs)) ≡ true
unfolding keys_of
keys_of-grows item jobs key h = elim (Bool-cases (any (same_key (key_of item)) (keys_of jobs))) [
  | inl e ↦ rw e h
  | inr e ↦ rw e (ground (arith, h))
]

pub keys_of-covers :
    (jobs : List CycleJob) → All (λ item. any (same_key (key_of item)) (keys_of jobs) ≡ true) jobs
keys_of-covers [] = tt
keys_of-covers (item ∷ jobs) = (
  keys_of-own item jobs,
  All-mono jobs (λ q. keys_of-grows item jobs (key_of q)) (keys_of-covers jobs),
)
