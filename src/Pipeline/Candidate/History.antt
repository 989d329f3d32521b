-- ===== src/Pipeline/Candidate/History.antt =====
-- The history of a candidate: the events of its transitions, in order.
use denyra.Base.{
  ℕ, ◌≤◌, ◌≡◌, refl, Bool, true, false, not, ◌||◌, List, [], ◌∷◌, arith, Result, ok, err, guard-ok,
  neither, ok-injective, subst,
}
use denyra.Base.Text.{Str, is_empty}
use denyra.Base.Time.{Time, is_zero, before}
use denyra.Pipeline.State.{State, valid, terminal, can_transition}
use denyra.Pipeline.State.Paths.{valid-terminal_iff_stuck}
use denyra.Pipeline.Candidate.{Candidate, TransitionEvent, Error, bump, transition}

-- A call of `Transition`, with its arguments.
pub record Call : Type 0 where
  pub expected : ℕ
  pub to : State
  pub actor : Str
  pub reason : Str
  pub now : Time

abbrev Reply : Type 0
Reply = Result Error (Candidate × TransitionEvent)

unfoldable pub call : Candidate → Call → Reply
call c a = transition c a.expected a.to a.actor a.reason a.now

after : Candidate → Reply → Candidate
after c (ok (c', e)) = c'
after c (err x) = c

recorded : List TransitionEvent → Reply → List TransitionEvent
recorded es (ok (c', e)) = e ∷ es
recorded es (err x) = es

-- The candidate after a sequence of calls, refused ones included, and the events returned.
unfoldable pub run : Candidate → List Call → Candidate
unfolding after
run c [] = c
run c (a ∷ as') = run (after c (call c a)) as'

unfoldable pub log : Candidate → List Call → List TransitionEvent
unfolding after recorded
log c [] = []
log c (a ∷ as') = recorded (log (after c (call c a)) as') (call c a)

-- The events lead from one state, revision and time to another, link by link: each follows an
-- allowed transition between declared states, names an actor and a reason, adds one to the
-- revision and is not dated before the one before it.
pub data EventChain : State → ℕ → Time → List TransitionEvent → State → ℕ → Time → Type 0 where
  done : {s : State} {r : ℕ} {t : Time} → EventChain s r t [] s r t
  link :
      {t : Time} {s' : State} {r' : ℕ} {t' : Time} (e : TransitionEvent) {es : List TransitionEvent}
      → (can_transition e.previous_state e.new_state ≡ true) × (valid e.new_state ≡ true)
      → (is_empty e.actor ≡ false) × (is_empty e.reason ≡ false)
      → e.revision ≡ bump e.previous_revision
      → t.instant ≤ e.occurred_at.instant
      → EventChain e.new_state e.revision e.occurred_at es s' r' t'
      → EventChain e.previous_state e.previous_revision t (e ∷ es) s' r' t'

record IsRecorded (c c' : Candidate) (e : TransitionEvent) : Type 0 where
  allowed : (can_transition e.previous_state e.new_state ≡ true) × (valid e.new_state ≡ true)
  named : (is_empty e.actor ≡ false) × (is_empty e.reason ≡ false)
  numbered : e.revision ≡ bump e.previous_revision
  later : c.updated_at.instant ≤ e.occurred_at.instant
  before' : (e.previous_state ≡ c.state) × (e.previous_revision ≡ c.state_revision)
  after' :
      (e.new_state ≡ c'.state) × (e.revision ≡ c'.state_revision) × (e.occurred_at ≡ c'.updated_at)

states_allowed :
    (a b c : Bool) → not a || not b || not c ≡ false → (a ≡ true) × ((c ≡ true) × (b ≡ true))
states_allowed a b c h = ground arith

not_earlier :
    (now t : Time) → is_zero now || not now.in_utc || before now t ≡ false → t.instant ≤ now.instant
not_earlier now t h = ground arith

call-IsRecorded :
    (c : Candidate) (a : Call) (c' : Candidate) (e : TransitionEvent)
    → call c a ≡ ok (c', e)
    → IsRecorded c c' e
unfolding call transition
call-IsRecorded c a c' e h =
    let (_, h₁) = guard-ok _ _ _ h in
    let (states, h₂) = guard-ok _ _ _ h₁ in
    let (names, h₃) = guard-ok _ _ _ h₂ in
    let (times, made) = guard-ok _ _ _ h₃ in
    subst (λ (p : Candidate × TransitionEvent). IsRecorded c p.0 p.1) (ok-injective made)
      (record {
        allowed = (states_allowed _ _ _ states).1;
        named = neither _ _ names;
        numbered = refl;
        later = not_earlier a.now c.updated_at times;
        before' = (refl, refl);
        after' = (refl, refl, refl);
      })

chain_of_call :
    (c : Candidate) (r : Reply) (es : List TransitionEvent) (s : State) (q : ℕ) (t : Time)
    → ((c' : Candidate) (e : TransitionEvent) → r ≡ ok (c', e) → IsRecorded c c' e)
    → EventChain (after c r).state (after c r).state_revision (after c r).updated_at es s q t
    → EventChain c.state c.state_revision c.updated_at (recorded es r) s q t
unfolding after recorded
chain_of_call c (err x) es s q t recorded' k = k
chain_of_call c (ok (c', e)) es s q t recorded' k =
    let i : IsRecorded c c' e = recorded' c' e refl in
    rw (← i.before'.0, ← i.before'.1)
      (link e i.allowed i.named i.numbered i.later (rw (i.after'.0, i.after'.1, i.after'.2) k))

-- After any calls, whatever their order and however many are refused, the recorded events form a
-- gap-free chain from the first state, revision and time to the last: every event is an allowed
-- transition with a named actor and reason, and time never runs backwards.
pub log-EventChain :
    (c : Candidate) (as' : List Call)
    → EventChain c.state c.state_revision c.updated_at
        (log c as')
        (run c as').state
        (run c as').state_revision
        (run c as').updated_at
unfolding run log
log-EventChain c [] = done
log-EventChain c (a ∷ as') =
    chain_of_call c (call c a) _ _ _ _ (call-IsRecorded c a)
      (log-EventChain (after c (call c a)) as')

terminal_refuses :
    (c : Candidate) (a : Call)
    → valid c.state ≡ true
    → terminal c.state ≡ true
    → after c (call c a) ≡ c
unfolding after call transition
terminal_refuses c a v h =
    let stuck : can_transition c.state a.to ≡ false =
      (valid-terminal_iff_stuck c.state v).0 h a.to in
    ground arith

-- A candidate in a terminal state never changes again, whatever calls are made.
run-terminal :
    (c : Candidate) (as' : List Call)
    → valid c.state ≡ true
    → terminal c.state ≡ true
    → run c as' ≡ c
unfolding run
run-terminal c [] v h = refl
run-terminal c (a ∷ as') v h = rw (terminal_refuses c a v h) (run-terminal c as' v h)
