-- ===== src/Gateway/Job/Audit.antt =====
-- What the transitions of a job record, and what they refuse.
use denyra.Base.{
  ℕ, ◌^◌, ◌<◌, ◌≡◌, refl, ◌≢◌, true, false, List, [], ◌∷◌, arith, ◌==◌, Result, ok, err,
}
use denyra.Base.Text.{Str}
use denyra.Base.Time.{Time}
use denyra.Gateway.State.{State, can_transition}
use denyra.Gateway.Job.{Job, Transition, Error, stale_revision, bump, transition}

-- An accepted transition: its guards held, and the job and the event tell the same story.
pub record IsAudited (j : Job) (expected : ℕ) (to : State) (j' : Job) (e : Transition)
    : Type 0 where
  pub allowed : can_transition j.state to ≡ true
  pub current : expected ≡ j.revision
  pub named : (e.actor ≢ []) × (e.reason ≢ [])
  pub moved : (j'.state ≡ to) × (e.previous ≡ j.state) × (e.next ≡ to)
  pub numbered :
      (j'.revision ≡ bump j.revision)
      × (e.previous_revision ≡ j.revision)
      × (e.revision ≡ j'.revision)
  pub dated : j'.updated_at ≡ e.occurred_at
  pub same_job : (e.job_id ≡ j.id) × (j'.id ≡ j.id)

-- An accepted transition had the current revision, an actor and a reason, and is allowed by the
-- table; the job has moved to the new state with the next revision, and the event names the same
-- job, the two states, the two revisions and the time that the job now carries.
pub transition-IsAudited :
    (j : Job) (expected : ℕ) (to : State) (actor reason : Str) (at : Time) {j' : Job}
    {e : Transition}
    → transition j expected to actor reason at ≡ ok (j', e)
    → IsAudited j expected to j' e
unfolding transition
transition-IsAudited j expected to actor reason at h = ground arith

-- A call of `Transition`, with its arguments.
pub record Call : Type 0 where
  pub expected : ℕ
  pub to : State
  pub actor : Str
  pub reason : Str
  pub at : Time

unfoldable pub call : Job → Call → Result Error (Job × Transition)
call j c = transition j c.expected c.to c.actor c.reason c.at

after : Job → Result Error (Job × Transition) → Job
after j (ok (j', e)) = j'
after j (err x) = j

recorded : List Transition → Result Error (Job × Transition) → List Transition
recorded es (ok (j', e)) = e ∷ es
recorded es (err x) = es

-- The job after a sequence of calls, refused ones included, and the events that they returned.
unfoldable pub run : Job → List Call → Job
unfolding after
run j [] = j
run j (c ∷ cs) = run (after j (call j c)) cs

unfoldable pub log : Job → List Call → List Transition
unfolding after recorded
log j [] = []
log j (c ∷ cs) = recorded (log (after j (call j c)) cs) (call j c)

-- The events lead from one state and revision to another, link by link, by allowed transitions.
pub data Chain : State → ℕ → List Transition → State → ℕ → Type 0 where
  done : {s : State} {r : ℕ} → Chain s r [] s r
  link :
      {t : State} {q : ℕ} (e : Transition) {es : List Transition}
      → can_transition e.previous e.next ≡ true
      → e.revision ≡ bump e.previous_revision
      → Chain e.next e.revision es t q
      → Chain e.previous e.previous_revision (e ∷ es) t q

Chain-of_call :
    (j : Job) (r : Result Error (Job × Transition)) (es : List Transition) (s : State) (q : ℕ)
    → ((j' : Job) (e : Transition) → r ≡ ok (j', e) → IsAudited j j.revision e.next j' e)
    → Chain (after j r).state (after j r).revision es s q
    → Chain j.state j.revision (recorded es r) s q
unfolding after recorded
Chain-of_call j (err x) es s q audited c = c
Chain-of_call j (ok (j', e)) es s q audited c =
    let a : IsAudited j j.revision e.next j' e = audited j' e refl in
    rw (← a.moved.1, ← a.numbered.1)
      (link e (rw a.moved.1 a.allowed) (ground arith) (rw (← a.moved.0, a.numbered.2) c))

call-IsAudited :
    (j : Job) (c : Call) (j' : Job) (e : Transition)
    → call j c ≡ ok (j', e)
    → IsAudited j j.revision e.next j' e
unfolding call
call-IsAudited j c j' e h =
    let a : IsAudited j c.expected c.to j' e =
      transition-IsAudited j c.expected c.to c.actor c.reason c.at h in
    ground arith

-- After any calls, whatever their order and however many are refused, the recorded events form a
-- gap-free chain of allowed transitions from the first state and revision to the last.
pub log-Chain :
    (j : Job) (cs : List Call)
    → Chain j.state j.revision (log j cs) (run j cs).state (run j cs).revision
unfolding run log
log-Chain j [] = done
log-Chain j (c ∷ cs) =
    Chain-of_call j (call j c) _ _ _ (call-IsAudited j c) (log-Chain (after j (call j c)) cs)

bump-ne : (n : ℕ) → n < 2 ^ 64 → (n == bump n) ≡ false
bump-ne n h = ground arith

-- Of two writers that read the same revision only the first succeeds: the second is refused as
-- stale, whatever it asks for, and is told the new revision and state.
transition_stale :
    (j : Job) (to to' : State) (actor actor' reason reason' : Str) (at at' : Time) {j' : Job}
    {e : Transition}
    → j.revision < 2 ^ 64
    → transition j j.revision to actor reason at ≡ ok (j', e)
    → transition j' j.revision to' actor' reason' at'
      ≡ err (stale_revision j.revision (bump j.revision) to)
unfolding transition
transition_stale j to to' actor actor' reason reason' at at' fits h =
    ground (arith, bump-ne j.revision)
