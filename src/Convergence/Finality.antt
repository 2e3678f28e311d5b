-- ===== src/Convergence/Finality.antt =====
-- A cause that the tracker of scripts/runtime_contract/convergence.py has ended stays ended.
use cognitive_frame_works.Prelude.{
  ℕ, String, Option, some, List, [], ◌∷◌, Bool, true, false, ◌≡◌, refl, ap, ◌∙◌, arith, inl, inr,
  Bool-cases, ◌==◌, eq_iff, eq_refl,
}
use mathlib.Core.Option
use cognitive_frame_works.Prelude.Result.{Result, ok, err, value_error, guard, ◌>>◌}
use cognitive_frame_works.Prelude.Dict
use cognitive_frame_works.Convergence.Identity.{ConvergenceIdentity, identity_for, key}
use cognitive_frame_works.Convergence.State.{RetryState}
use cognitive_frame_works.Convergence.Transitions.{
  is_terminal, with_failure, classify_progress, goal_progress, workflow_progress,
  validation_evidence, support_progress, clear_failure, with_progress, with_action, with_recovery,
  with_rejection, with_termination, is_terminal-blocked,
}
use cognitive_frame_works.Convergence.Tracker.{Tracker, state_at, modify, terminate_cause}
use cognitive_frame_works.Convergence.Enforcer.{
  block, Attempt, with_delegation, approach_gate, evaluate,
}
use cognitive_frame_works.Convergence.Calls.{
  Call, progress, action, termination, retry, call, Request, about, terminate_all, request, after,
  run, tracker_of,
}
use cognitive_frame_works.Convergence.Effects.{
  Effect, call_effect, call-Effect, verdict, with_evaluation, is_exhausted, evaluate-Effect,
}
use cognitive_frame_works.Convergence.Histories.{terminate-eq-ok}
use cognitive_frame_works.Convergence.Gate.{evaluate_total}

-- The store holds a terminal state under the key.
pub record IsOver (t : Tracker) (k : String) : Type 0 where
  pub state : RetryState
  pub stored : Dict.get t.states k ≡ some state
  pub ended : is_terminal state.disposition ≡ true

-- A call that ends a cause names a terminal disposition.
abbrev EndsTerminal : Call → Type 0
EndsTerminal (termination d reason) = is_terminal d ≡ true
EndsTerminal _ = Unit {0}

module _ (failure_digest : String → String → Option String → Option String → String) where
  call-EndsTerminal :
      (t : Tracker) (c : String) (k : Call) {t' : Tracker}
      → call failure_digest t c k ≡ ok t'
      → EndsTerminal k
  unfolding call
  call-EndsTerminal t c (termination d reason) h = unfold terminate_cause in go (is_terminal d) h
    where
      go :
          (b : Bool) {t' : Tracker}
          → tracker_of (guard b value_error >> modify (with_termination d reason) t c) ≡ ok t'
          → b ≡ true
      go true h = refl
      go false h = cc
  call-EndsTerminal t c _ h = tt

  call_effect-terminal :
      (m : ℕ) (c : String) (k : Call) (s : RetryState)
      → EndsTerminal k
      → is_terminal s.disposition ≡ true
      → is_terminal (call_effect failure_digest m c k s).disposition ≡ true
  unfolding call_effect with_failure with_rejection with_termination with_action with_recovery
  call_effect-terminal m c (progress digest class e) s v h =
      unfold with_progress clear_failure classify_progress goal_progress workflow_progress
        validation_evidence support_progress in
      ground arith
  call_effect-terminal m c (action lane) s v h = ground arith
  call_effect-terminal m c (termination d reason) s v h = v
  call_effect-terminal m c (retry a) s v h =
      unfold with_evaluation with_delegation in ground (arith, is_terminal-blocked)
  call_effect-terminal m c _ s v h = h

  call-IsOver :
      (t : Tracker) (c : String) (k : Call) (j : String) {t' : Tracker}
      → IsOver t j
      → call failure_digest t c k ≡ ok t'
      → IsOver t' j
  call-IsOver t c k j {t'} o h = elim (Bool-cases (key e.of == j)) [
    | inl same ↦ record {
      state =
          call_effect failure_digest t.max_recovery_epochs_without_progress c k (state_at t e.of);
      stored = e.changes j ∙ rw same;
      ended =
          call_effect-terminal t.max_recovery_epochs_without_progress c k (state_at t e.of)
            (call-EndsTerminal t c k h)
            (unfold state_at in ground (arith, o.stored, o.ended, eq_iff (key e.of) j, same));
    }
    | inr other ↦ record {
      state = o.state;
      stored = e.changes j ∙ rw other o.stored;
      ended = o.ended;
    }
  ]
    where
      e : Effect t t' c (call_effect failure_digest t.max_recovery_epochs_without_progress c k)
      e = call-Effect failure_digest t c k h

  request-IsOver :
      (t : Tracker) (r : Request) (j : String) {t' : Tracker}
      → IsOver t j
      → request failure_digest t r ≡ ok t'
      → IsOver t' j × (t'.identity ≡ t.identity)
  unfolding request
  request-IsOver t (about c k) j o h =
      (call-IsOver t c k j o h, (call-Effect failure_digest t c k h).same_identity)
  request-IsOver t (terminate_all d reason) j o h =
      let (valid, same, _, gets) = terminate-eq-ok t d reason h in
      (
        record {
          state = with_termination d reason o.state;
          stored = gets j ∙ ap (Option.map (with_termination d reason)) o.stored;
          ended = unfold with_termination in valid;
        },
        same,
      )

  pub run-IsOver :
      (t : Tracker) (rs : List Request) (j : String)
      → IsOver t j
      → IsOver (run failure_digest t rs) j × ((run failure_digest t rs).identity ≡ t.identity)
  unfolding run
  run-IsOver t [] j o = (o, refl)
  run-IsOver t (r ∷ rs) j o =
      let now = step (request failure_digest t r) refl in
      let later = run-IsOver (after t (request failure_digest t r)) rs j now.0 in
      (later.0, later.1 ∙ now.1)
    where
      step :
          (x : Result Tracker)
          → request failure_digest t r ≡ x
          → IsOver (after t x) j × ((after t x).identity ≡ t.identity)
      step (ok t') h = request-IsOver t r j o h
      step (err x) h = (o, refl)

-- A block of `evaluate` leaves a terminal disposition.
verdict-block :
    (m n : ℕ) (a : Attempt) (s : RetryState)
    → block ≡ verdict m n a (with_delegation a s)
    → is_terminal (with_evaluation m a s).disposition ≡ true
unfolding verdict with_evaluation is_exhausted approach_gate with_termination
verdict-block m n a s h = ground (arith, is_terminal-blocked)

pub IsOver-blocks :
    (t : Tracker) (c : String) (a : Attempt) {i : ConvergenceIdentity}
    → identity_for t.identity c ≡ ok i
    → IsOver t (key i)
    → (v : Tracker) × (evaluate t c a ≡ ok (block, v))
unfolding verdict with_delegation
IsOver-blocks t c a {i} valid o =
    let (v, e) = evaluate_total t c a valid in
    let over : is_terminal (state_at t i).disposition ≡ true =
      unfold state_at in ground (arith, o.stored, o.ended) in
    (v, e ∙ ground (arith, over))

block-IsOver :
    (t : Tracker) (c : String) (a : Attempt) {u : Tracker}
    → evaluate t c a ≡ ok (block, u)
    → (i : ConvergenceIdentity) × (identity_for u.identity c ≡ ok i) × IsOver u (key i)
block-IsOver t c a {u} h =
    let (e, answer) = evaluate-Effect t c a h in
    (
      e.of,
      ap (λ b. identity_for b c) e.same_identity ∙ e.valid,
      record {
        state = with_evaluation t.max_recovery_epochs_without_progress a (state_at t e.of);
        stored = e.changes (key e.of) ∙ rw (eq_refl (key e.of));
        ended =
            verdict-block t.max_recovery_epochs_without_progress t.max_same_approach_retries a
              (state_at t e.of) answer;
      },
    )

-- Once `evaluate` has blocked a cause, it blocks every later attempt at that cause, whatever calls
-- about this or other causes come between.
pub block_is_final :
    (failure_digest : String → String → Option String → Option String → String) (t : Tracker)
    (c : String) (a : Attempt) {u : Tracker}
    → evaluate t c a ≡ ok (block, u)
    → (rs : List Request) (later : Attempt)
    → (v : Tracker) × (evaluate (run failure_digest u rs) c later ≡ ok (block, v))
block_is_final failure_digest t c a {u} h rs later =
    let (i, valid, over) = block-IsOver t c a h in
    let (o, same) = run-IsOver failure_digest u rs (key i) over in
    IsOver-blocks (run failure_digest u rs) c later (ap (λ b. identity_for b c) same ∙ valid) o
