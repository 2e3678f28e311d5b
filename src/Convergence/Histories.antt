-- ===== src/Convergence/Histories.antt =====
-- What any history of calls preserves in the tracker of
-- scripts/runtime_contract/convergence.py: the accounting invariant, the separation of causes and
-- the finality of a terminal disposition.
use cognitive_frame_works.Prelude.{
  ℕ, ◌+◌, ◌≤◌, String, Option, none, some, List, [], ◌∷◌, ◌++◌, true, ◌≡◌, refl, sym, ap, subst,
  ◌∙◌, arith, inl, inr, some_inj, update_cases, length, length-keep_last, ◌==◌, map,
}
use cognitive_frame_works.Prelude.Result.{Result, ok, err, value_error, guard-eq-ok}
use mathlib.Core.Option
use cognitive_frame_works.Prelude.Dict
use cognitive_frame_works.Convergence.Identity.{ConvergenceIdentity, SessionIdentity, key}
use cognitive_frame_works.Convergence.State.{RetryState, new_state}
use cognitive_frame_works.Convergence.Transitions.{
  is_terminal, with_failure, classify_progress, goal_progress, workflow_progress,
  validation_evidence, support_progress, clear_failure, with_progress, with_action, with_recovery,
  with_rejection, with_termination,
}
use cognitive_frame_works.Convergence.Tracker.{Tracker, state_at, new_tracker, terminate, or_new}
use cognitive_frame_works.Convergence.Enforcer.{Attempt, with_delegation}
use cognitive_frame_works.Convergence.Calls.{
  Call, failure, reinspection, progress, action, recovery, reanchor_query, rejection, termination,
  retry, call, Request, about, terminate_all, request, after, run,
}
use cognitive_frame_works.Convergence.Effects.{call_effect, call-Effect, with_evaluation}

-- The accounting of one cause: every sequence number lies in the past, every count since the last
-- goal progress is a count of past steps, the two counts of recovery epochs agree, and the
-- negative memory is bounded.
pub record IsAccounted (s : RetryState) : Type 0 where
  pub goal_past : s.last_goal_progress_seq ≤ s.progress_sequence
  pub support_past : s.last_support_progress_seq ≤ s.progress_sequence
  pub workflow_past : s.last_workflow_progress_seq ≤ s.progress_sequence
  pub evidence_past : s.last_evidence_progress_seq ≤ s.progress_sequence
  pub steps_past :
      s.support_actions_since_goal_progress + s.workflow_steps_since_goal_progress
        + s.evidence_facts_since_goal_progress
      ≤ s.progress_sequence
  pub actions_past : s.total_actions_since_goal_progress ≤ s.progress_sequence
  pub recoveries_agree : s.recovery_epochs ≡ s.recovery_epochs_since_goal_progress
  pub stalls_within : s.no_progress_epochs ≤ s.recovery_epochs
  pub memory_bounded : length s.rejected_paths ≤ 32

pub new_state-IsAccounted : (i : ConvergenceIdentity) → IsAccounted (new_state i)
unfolding new_state
new_state-IsAccounted i = omega arith

with_progress-IsAccounted :
    (digest c : String) (e : Option String) (s : RetryState)
    → IsAccounted s
    → IsAccounted (with_progress digest c e s)
unfolding with_progress clear_failure classify_progress goal_progress workflow_progress
    validation_evidence support_progress
with_progress-IsAccounted digest c e s v = ground arith

with_action-IsAccounted :
    (lane : String) (s : RetryState) → IsAccounted s → IsAccounted (with_action lane s)
unfolding with_action
with_action-IsAccounted lane s v = ground arith

with_recovery-IsAccounted : (s : RetryState) → IsAccounted s → IsAccounted (with_recovery s)
unfolding with_recovery
with_recovery-IsAccounted s v = ground arith

with_evaluation-IsAccounted :
    (m : ℕ) (a : Attempt) (s : RetryState) → IsAccounted s → IsAccounted (with_evaluation m a s)
unfolding with_evaluation with_delegation with_termination
with_evaluation-IsAccounted m a s v = ground arith

module _ (failure_digest : String → String → Option String → Option String → String) where
  pub call_effect-IsAccounted :
      (m : ℕ) (c : String) (k : Call) (s : RetryState)
      → IsAccounted s
      → IsAccounted (call_effect failure_digest m c k s)
  unfolding call_effect with_failure with_rejection with_termination
  call_effect-IsAccounted m c (failure a h e p) s v = ground arith
  call_effect-IsAccounted m c (reinspection revision) s v = ground arith
  call_effect-IsAccounted m c (progress digest class e) s v =
      with_progress-IsAccounted digest class e s v
  call_effect-IsAccounted m c (action lane) s v = with_action-IsAccounted lane s v
  call_effect-IsAccounted m c recovery s v = with_recovery-IsAccounted s v
  call_effect-IsAccounted m c (reanchor_query limit total) s v = v
  call_effect-IsAccounted m c (rejection a h e p at) s v = ground (
    arith,
    length-keep_last 32 (
        s.rejected_paths
        ++ record {
          cause_id = c;
          action_fingerprint = a;
          hypothesis_fingerprint = h;
          premise_digest = p;
          rejecting_evidence_ref = e;
          recorded_at = at;
        }
          ∷ []),
  )
  call_effect-IsAccounted m c (termination d reason) s v = ground arith
  call_effect-IsAccounted m c (retry a) s v = with_evaluation-IsAccounted m a s v

-- Every state in the store satisfies `P`.
abbrev pub Stored : (RetryState → Type 0) → Tracker → Type 0
Stored P t = (k : String) (s : RetryState) → Dict.get t.states k ≡ some s → P s

pub get-map :
    (f : RetryState → RetryState) (d : Dict.Dict RetryState) (k : String)
    → Dict.get (map (λ entry. (entry.0, f entry.1)) d) k ≡ Option.map f (Dict.get d k)
unfolding Dict.get
get-map f [] k = refl
get-map f ((j, s) ∷ d) k = ground (arith, get-map f d k)

pub terminate-eq-ok :
    (t : Tracker) (d reason : String) {t' : Tracker}
    → terminate t d reason ≡ ok t'
    → (is_terminal d ≡ true)
      × (t'.identity ≡ t.identity)
      × (t'.max_recovery_epochs_without_progress ≡ t.max_recovery_epochs_without_progress)
      × ((k : String)
          → Dict.get t'.states k ≡ Option.map (with_termination d reason) (Dict.get t.states k))
unfolding terminate
terminate-eq-ok t d reason {t'} h =
    let (valid, same) = guard-eq-ok (is_terminal d) value_error (ok _) h in
    let eq : t' ≡ record t {
      states = map (λ entry. (entry.0, with_termination d reason entry.1)) t.states;
    } =
      cc same in
    (
      valid,
      ap (λ (u : Tracker). u.identity) eq,
      ap (λ (u : Tracker). u.max_recovery_epochs_without_progress) eq,
      λ k.
          ap (λ (u : Tracker). Dict.get u.states k) eq
          ∙ get-map (with_termination d reason) t.states k,
    )

module _ (failure_digest : String → String → Option String → Option String → String)
    (P : RetryState → Type 0) (fresh : (i : ConvergenceIdentity) → P (new_state i))
    (kept : (m : ℕ) (c : String) (k : Call) (s : RetryState)
      → P s
      → P (call_effect failure_digest m c k s)) where
  or_new-holds :
      (i : ConvergenceIdentity) (o : Option RetryState)
      → ((s : RetryState) → o ≡ some s → P s)
      → P (or_new i o)
  or_new-holds i none h = fresh i
  or_new-holds i (some s) h = h s refl

  call-Stored :
      (t : Tracker) (c : String) (k : Call) {t' : Tracker}
      → Stored P t
      → call failure_digest t c k ≡ ok t'
      → Stored P t'
  call-Stored t c k h e j s g =
      let f = call-Effect failure_digest t c k e in
      elim (update_cases (key f.of == j) _ (Dict.get t.states j) _ s (f.changes j) g) [
        | inl (_, same) ↦ subst P same (
            kept t.max_recovery_epochs_without_progress c k (state_at t f.of)
              (unfold state_at in or_new-holds f.of (Dict.get t.states (key f.of)) (h (key f.of))))
        | inr (_, old) ↦ h j s old
      ]

  mapped-holds :
      (d reason : String) (o : Option RetryState) (s : RetryState)
      → ((s' : RetryState) → o ≡ some s' → P s')
      → Option.map (with_termination d reason) o ≡ some s
      → P s
  unfolding call_effect
  mapped-holds d reason none s h e = cc
  mapped-holds d reason (some s') s h e =
      subst P (some_inj e) (kept 0 "" (termination d reason) s' (h s' refl))

  request-Stored :
      (t : Tracker) (r : Request) {t' : Tracker}
      → Stored P t
      → request failure_digest t r ≡ ok t'
      → Stored P t'
  unfolding request
  request-Stored t (about c k) h e = call-Stored t c k h e
  request-Stored t (terminate_all d reason) h e = λ j s g.
      mapped-holds d reason (Dict.get t.states j) s (h j)
        (sym ((terminate-eq-ok t d reason e).3 j) ∙ g)

  -- A property of new states that every call keeps holds of every stored state, after any history.
  pub run-Stored :
      (t : Tracker) (rs : List Request) → Stored P t → Stored P (run failure_digest t rs)
  unfolding run
  run-Stored t [] h = h
  run-Stored t (r ∷ rs) h =
      run-Stored (after t (request failure_digest t r)) rs
        (after-Stored (request failure_digest t r) refl)
    where
      after-Stored : (o : Result Tracker) → request failure_digest t r ≡ o → Stored P (after t o)
      after-Stored (ok t') e = request-Stored t r h e
      after-Stored (err x) e = h

pub new_tracker-states :
    (base : SessionIdentity) (m n : ℕ) {t : Tracker} → new_tracker base m n ≡ ok t → t.states ≡ []
unfolding new_tracker
new_tracker-states base m n h = ground arith

pub no_states :
    (P : RetryState → Type 0) (base : SessionIdentity) (m n : ℕ) {t : Tracker}
    → new_tracker base m n ≡ ok t
    → Stored P t
unfolding Dict.get
no_states P base m n h k s g =
    absurd (cc (ap (λ d. Dict.get d k) (new_tracker-states base m n h), g))
