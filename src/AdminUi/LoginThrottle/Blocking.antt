-- ===== src/AdminUi/LoginThrottle/Blocking.antt =====
-- When a key is turned away, and when it is let in again.
use denyra.Base.{◌≡◌, refl, arith, true, false, not, some, Bool-cases, inl, inr, Option-cases, ◌∙◌}
use denyra.Base.Int.{pos, ◌+ℤ◌, ◌-ℤ◌, int64, leb_ℤ}
use denyra.Base.Text.{Str}
use denyra.Base.Time.{Time, add_duration}
use denyra.AdminUi.LoginThrottle.{
  Entry, no_entry, make_room, LoginThrottle, find, delay_for, has_expired, expire, allow, counted,
  failure, reports, success,
}
use denyra.AdminUi.LoginThrottle.Map.{find-put, find-delete, find-keep-none}

-- The end of the block that one more failed attempt on the entry begins.
abbrev pub block_end : LoginThrottle → Time → Entry → Time
block_end t now e =
    add_duration now (delay_for t (int64 (int64 (e.failures +ℤ pos 1) -ℤ t.failures)))

counted-audited :
    (t : LoginThrottle) (now : Time) (e : Entry)
    → reports t e ≡ true
    → (counted t now e).audited ≡ true
unfolding counted reports
counted-audited t now e r = elim (Bool-cases (leb_ℤ t.failures (int64 (e.failures +ℤ pos 1)))) [
  | inl l ↦ rw l refl
  | inr l ↦ let q = rw l at r in cc
]

failure-reports :
    (k : Str) (now : Time) (t : LoginThrottle) (e : Entry)
    → find k (expire now t).entries ≡ some e
    → (failure k now t).1 ≡ reports (expire now t) e
unfolding failure
failure-reports k now t e f = rw (failure, f) refl

reports-audited : (t : LoginThrottle) (e : Entry) → e.audited ≡ true → reports t e ≡ false
unfolding reports
reports-audited t e a = ground (arith, a)

-- The entry that is stored when a block is reported.
reported-audited :
    (k : Str) (now : Time) (t : LoginThrottle)
    → (failure k now t).1 ≡ true
    → (e : Entry) × (find k (failure k now t).0.entries ≡ some e) × (e.audited ≡ true)
unfolding failure
reported-audited k now t r = elim (Option-cases (find k (expire now t).entries)) [
  | inl n ↦
      let v = make_room now (expire now t) in
      let e : Entry = record no_entry { first_failure = now } in
      let q : reports v e ≡ true = rw (failure, n) at r in
      rw (failure, n) (counted v now e, find-put k _ _, counted-audited v now e q)
  | inr (e, f) ↦
      let u = expire now t in
      let q : reports u e ≡ true = rw (failure, f) at r in
      rw (failure, f) (counted u now e, find-put k _ _, counted-audited u now e q)
]

-- A failed attempt that reports a block marks the entry, and no later failure reports it again
-- while the entry is there.
failure-ReportsOnce :
    (k : Str) (now later : Time) (t : LoginThrottle)
    → (failure k now t).1 ≡ true
    → find k (expire later (failure k now t).0).entries ≡ find k (failure k now t).0.entries
    → (failure k later (failure k now t).0).1 ≡ false
failure-ReportsOnce k now later t r f =
    let (e, stored, marked) = reported-audited k now t r in
    failure-reports k later _ e (f ∙ stored) ∙ reports-audited _ e marked

-- After a successful sign-in the key is admitted at once, however long it was blocked for.
success-Admits :
    (k : Str) (now : Time) (t : LoginThrottle)
    → ((allow k now (success k t)).1 ≡ pos 0) × ((allow k now (success k t)).2 ≡ true)
unfolding success expire allow
success-Admits k now t =
    let g = find-keep-none (λ d. not (has_expired t.window now d)) k _ (find-delete k t.entries) in
    rw (allow, g) (refl, refl)
