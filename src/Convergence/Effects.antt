-- ===== src/Convergence/Effects.antt =====
-- What one call of the tracker of scripts/runtime_contract/convergence.py does to the store: it
-- changes the state of its own cause by a function of that state, and nothing else.
use cognitive_frame_works.Prelude.{
  ℕ, String, Option, some, Bool, true, false, not, ◌&&◌, ◌⊎◌, ◌≡◌, ◌≢◌, refl, sym, ap, subst, ◌∙◌,
  arith, leb, inl, inr, ◌==◌, eq_iff, eq_refl, if◌then◌else◌, max,
}
use cognitive_frame_works.Prelude.Result.{
  Result, ok, err, value_error, guard, >>=-eq-ok, ok-pair, ◌>>=◌, ◌>>◌,
}
use cognitive_frame_works.Prelude.Dict
use cognitive_frame_works.Prelude.Dict.{get-put}
use cognitive_frame_works.Convergence.Identity.{ConvergenceIdentity, identity_for, key}
use cognitive_frame_works.Convergence.State.{RetryState}
use cognitive_frame_works.Convergence.Transitions.{
  is_terminal, with_failure, with_progress, with_action, with_recovery, with_rejection,
  with_termination, is_lane, is_progress_class,
}
use cognitive_frame_works.Convergence.Tracker.{
  Tracker, state_at, store, modify, state, record_failure, record_reinspection, record_progress,
  record_committed_action, record_recovery_epoch, needs_goal_reanchor, reject_path, terminate_cause,
}
use cognitive_frame_works.Convergence.Enforcer.{
  Attempt, Gate, block, goal_reanchor, with_delegation, approach_gate, judge, evaluate,
}
use cognitive_frame_works.Convergence.Calls.{
  Call, failure, reinspection, progress, action, recovery, reanchor_query, rejection, termination,
  retry, call, tracker_of,
}

pub state_at-store :
    (t : Tracker) (i j : ConvergenceIdentity) (s : RetryState)
    → state_at (store t i s) j ≡ (if key i == key j then s else state_at t j)
unfolding state_at store
state_at-store t i j s = rw (get-put t.states (key i) (key j) s) (ground arith)

pub state_at-store_self :
    (t : Tracker) (i : ConvergenceIdentity) (s : RetryState) → state_at (store t i s) i ≡ s
state_at-store_self t i s = simp (state_at-store, eq_refl)

-- The call about cause `c` that led from `t` to `t'` applied `f` to the cause's state.
pub record Effect (t t' : Tracker) (c : String) (f : RetryState → RetryState) : Type 0 where
  pub of : ConvergenceIdentity
  pub valid : identity_for t.identity c ≡ ok of
  pub changes :
      (k : String)
      → Dict.get t'.states k
        ≡ (if key of == k then some (f (state_at t of)) else Dict.get t.states k)
  pub same_identity : t'.identity ≡ t.identity
  pub same_recovery_limit :
      t'.max_recovery_epochs_without_progress ≡ t.max_recovery_epochs_without_progress
  pub same_retry_limit : t'.max_same_approach_retries ≡ t.max_same_approach_retries

store-Effect :
    (t : Tracker) (c : String) (i : ConvergenceIdentity) (f : RetryState → RetryState)
    → identity_for t.identity c ≡ ok i
    → Effect t (store t i (f (state_at t i))) c f
unfolding store
store-Effect t c i f h = record {
  of = i;
  valid = h;
  changes = λ k. get-put t.states (key i) k (f (state_at t i));
  same_identity = refl;
  same_recovery_limit = refl;
  same_retry_limit = refl;
}

-- The state of the cause after the call.
pub Effect-here :
    {t t' : Tracker} {c : String} {f : RetryState → RetryState} (e : Effect t t' c f)
    → state_at t' e.of ≡ f (state_at t e.of)
unfolding state_at
Effect-here e = rw (e.changes (key e.of), eq_refl (key e.of))

-- The state of another cause after the call.
pub Effect-elsewhere :
    {t t' : Tracker} {c : String} {f : RetryState → RetryState} (e : Effect t t' c f)
    (j : ConvergenceIdentity)
    → key e.of ≢ key j
    → state_at t' j ≡ state_at t j
unfolding state_at
Effect-elsewhere e j ne = ground (arith, e.changes (key j), eq_iff (key e.of) (key j), ne)

pub modify-eq-ok :
    (f : RetryState → RetryState) (t : Tracker) (c : String) {s : RetryState} {t' : Tracker}
    → modify f t c ≡ ok (s, t')
    → (i : ConvergenceIdentity) × (identity_for t.identity c ≡ ok i)
      × (s ≡ f (state_at t i))
      × (t' ≡ store t i (f (state_at t i)))
unfolding modify
modify-eq-ok f t c h =
    let (i, valid, same) = >>=-eq-ok (identity_for t.identity c) _ h in
    let (es, et) = ok-pair same in (i, valid, es, et)

pub modify-Effect :
    (f : RetryState → RetryState) (t : Tracker) (c : String) {s : RetryState} {t' : Tracker}
    → modify f t c ≡ ok (s, t')
    → Effect t t' c f
modify-Effect f t c h =
    let (i, valid, _, et) = modify-eq-ok f t c h in
    subst (λ u. Effect t u c f) (sym et) (store-Effect t c i f valid)

tracker_of-eq-ok {ℓ} :
    {A : Type ℓ} (r : Result (A × Tracker)) {t : Tracker}
    → tracker_of r ≡ ok t
    → (a : A) × (r ≡ ok (a, t))
tracker_of-eq-ok (ok (a, u)) h = (a, cc)
tracker_of-eq-ok (err e) h = cc

modified-Effect :
    (f : RetryState → RetryState) (t : Tracker) (c : String) {t' : Tracker}
    → tracker_of (modify f t c) ≡ ok t'
    → Effect t t' c f
modified-Effect f t c h = modify-Effect f t c (tracker_of-eq-ok (modify f t c) h).1

guarded-Effect :
    (b : Bool) (f : RetryState → RetryState) (t : Tracker) (c : String) {t' : Tracker}
    → tracker_of (guard b value_error >> modify f t c) ≡ ok t'
    → Effect t t' c f
guarded-Effect true f t c h = modified-Effect f t c h
guarded-Effect false f t c h = cc

terminate_cause-Effect :
    (t : Tracker) (c d reason : String) {t' : Tracker}
    → tracker_of (terminate_cause t c d reason) ≡ ok t'
    → Effect t t' c (with_termination d reason)
unfolding terminate_cause
terminate_cause-Effect t c d reason h =
    guarded-Effect (is_terminal d) (with_termination d reason) t c h

-- `evaluate` finds a running cause, with room for support actions, whose recovery budget is used.
unfoldable pub is_exhausted : ℕ → Attempt → RetryState → Bool
is_exhausted max_recovery a s =
    not (is_terminal s.disposition)
    && not (leb a.support_action_limit s.support_actions_since_goal_progress)
    && leb max_recovery s.recovery_epochs_since_goal_progress

-- What `evaluate` leaves of the cause's state.
unfoldable pub with_evaluation : ℕ → Attempt → RetryState → RetryState
with_evaluation max_recovery a s =
    let s' = with_delegation a s in
    if is_exhausted max_recovery a s'
    then with_termination "BLOCKED" "max_recovery_epochs_without_progress" s'
    else s'

-- The gate that `evaluate` answers with, from the state after the delegation is counted.
unfoldable pub verdict : ℕ → ℕ → Attempt → RetryState → Gate
verdict max_recovery max_retries a s =
    if is_terminal s.disposition
    then block
    else if leb a.support_action_limit s.support_actions_since_goal_progress
    then goal_reanchor
    else if leb max_recovery s.recovery_epochs_since_goal_progress
    then block
    else approach_gate max_retries a s

identity_for_unique :
    (t : Tracker) (c : String) {i j : ConvergenceIdentity}
    → identity_for t.identity c ≡ ok i
    → identity_for t.identity c ≡ ok j
    → i ≡ j
identity_for_unique t c h k = cc

Effect-trans :
    (t u v : Tracker) (c : String) {f g : RetryState → RetryState}
    → Effect t u c f
    → Effect u v c g
    → Effect t v c (λ s. g (f s))
Effect-trans t u v c {f} {g} e h = record {
  of = e.of;
  valid = e.valid;
  changes = λ k. h.changes k ∙ ground (arith, e.changes k, ap key same, state);
  same_identity = h.same_identity ∙ e.same_identity;
  same_recovery_limit = h.same_recovery_limit ∙ e.same_recovery_limit;
  same_retry_limit = h.same_retry_limit ∙ e.same_retry_limit;
}
  where
    same : e.of ≡ h.of
    same =
        identity_for_unique t c e.valid
          (subst (λ b. identity_for b c ≡ ok h.of) e.same_identity h.valid)

    state : state_at u h.of ≡ f (state_at t e.of)
    state = ap (state_at u) (sym same) ∙ Effect-here e

Effect-same :
    (t u : Tracker) (c : String) {f : RetryState → RetryState} (g : RetryState → RetryState)
    (e : Effect t u c f)
    → f (state_at t e.of) ≡ g (state_at t e.of)
    → Effect t u c g
Effect-same t u c g e h = record {
  of = e.of;
  valid = e.valid;
  changes = λ k. rw (← h) (e.changes k);
  same_identity = e.same_identity;
  same_recovery_limit = e.same_recovery_limit;
  same_retry_limit = e.same_retry_limit;
}

judge_cases :
    (u v : Tracker) (c : String) (a : Attempt) (s : RetryState) (g : Gate)
    → judge u c a s ≡ ok (g, v)
    → (g ≡ verdict u.max_recovery_epochs_without_progress u.max_same_approach_retries a s)
      × (((v ≡ u) × (is_exhausted u.max_recovery_epochs_without_progress a s ≡ false))
          ⊎ ((tracker_of (terminate_cause u c "BLOCKED" "max_recovery_epochs_without_progress")
                ≡ ok v)
              × (is_exhausted u.max_recovery_epochs_without_progress a s ≡ true)))
unfolding judge verdict is_exhausted
judge_cases u v c a s g h = ground arith

pub judge-Effect :
    (t u v : Tracker) (c : String) (a : Attempt) (s : RetryState) (g : Gate)
    (e : Effect t u c (with_delegation a))
    → s ≡ with_delegation a (state_at t e.of)
    → judge u c a s ≡ ok (g, v)
    → Effect t v c (with_evaluation t.max_recovery_epochs_without_progress a)
      × (g ≡ verdict t.max_recovery_epochs_without_progress t.max_same_approach_retries a s)
unfolding with_evaluation Effect-trans
judge-Effect t u v c a s g e es h =
    let (answer, cases) = judge_cases u v c a s g h in
    (
      elim cases [
        | inl (same, room) ↦
            subst (λ w. Effect t w c (with_evaluation t.max_recovery_epochs_without_progress a))
              (sym same)
              (Effect-same t u c (with_evaluation t.max_recovery_epochs_without_progress a) e
                (rw (moved false room)))
        | inr (ended, used) ↦
            Effect-same t v c (with_evaluation t.max_recovery_epochs_without_progress a)
              (Effect-trans t u v c e
                (terminate_cause-Effect u c "BLOCKED" "max_recovery_epochs_without_progress" ended))
              (rw (moved true used))
      ],
      cc (answer, e.same_recovery_limit, e.same_retry_limit),
    )
  where
    moved :
        (b : Bool)
        → is_exhausted u.max_recovery_epochs_without_progress a s ≡ b
        → is_exhausted t.max_recovery_epochs_without_progress a
            (with_delegation a (state_at t e.of))
          ≡ b
    moved b p = cc (p, e.same_recovery_limit, es)

-- `evaluate` answers by its verdict on the cause's state, and leaves what `with_evaluation` says.
pub evaluate-Effect :
    (t : Tracker) (c : String) (a : Attempt) {g : Gate} {v : Tracker}
    → evaluate t c a ≡ ok (g, v)
    → (e : Effect t v c (with_evaluation t.max_recovery_epochs_without_progress a)) × (g
        ≡ verdict t.max_recovery_epochs_without_progress t.max_same_approach_retries a
            (with_delegation a (state_at t e.of)))
unfolding evaluate
evaluate-Effect t c a {g} {v} h =
    let ((s, u), first, second) = >>=-eq-ok (modify (with_delegation a) t c) _ h in
    let (i, valid, es, et) = modify-eq-ok (with_delegation a) t c first in
    let e = modify-Effect (with_delegation a) t c first in
    let at = λ (j : ConvergenceIdentity) (w : identity_for t.identity c ≡ ok j).
      es ∙ ap (λ x. with_delegation a (state_at t x)) (identity_for_unique t c valid w) in
    let (eff, answer) = judge-Effect t u v c a s g e (at e.of e.valid) second in
    (
      eff,
      answer
          ∙ ap (verdict t.max_recovery_epochs_without_progress t.max_same_approach_retries a)
              (at eff.of eff.valid),
    )

tracker_of-map {ℓ κ} :
    {A : Type ℓ} {B : Type κ} (f : A → B) (m : Result (A × Tracker)) {t : Tracker}
    → tracker_of (m >>= λ p. ok (f p.0, p.1)) ≡ ok t
    → tracker_of m ≡ ok t
tracker_of-map f (ok p) h = h
tracker_of-map f (err e) h = cc

module _ (failure_digest : String → String → Option String → Option String → String) where
  -- What a call leaves of its cause's state.
  unfoldable pub call_effect : ℕ → String → Call → RetryState → RetryState
  call_effect m c (failure a h e p) = with_failure failure_digest a h e p
  call_effect m c (reinspection revision) =
      λ s. record s { last_reinspection_revision = max s.last_reinspection_revision revision }
  call_effect m c (progress digest class e) = with_progress digest class e
  call_effect m c (action lane) = with_action lane
  call_effect m c recovery = with_recovery
  call_effect m c (reanchor_query limit total) = λ s. s
  call_effect m c (rejection a h e p at) = with_rejection (record {
    cause_id = c;
    action_fingerprint = a;
    hypothesis_fingerprint = h;
    premise_digest = p;
    rejecting_evidence_ref = e;
    recorded_at = at;
  })
  call_effect m c (termination d reason) = with_termination d reason
  call_effect m c (retry a) = with_evaluation m a

  pub call-Effect :
      (t : Tracker) (c : String) (k : Call) {t' : Tracker}
      → call failure_digest t c k ≡ ok t'
      → Effect t t' c (call_effect t.max_recovery_epochs_without_progress c k)
  unfolding call call_effect state
  call-Effect t c (failure a h e p) r = unfold record_failure in modified-Effect _ t c r
  call-Effect t c (reinspection revision) r = unfold record_reinspection in modified-Effect _ t c r
  call-Effect t c (progress digest class e) r =
      unfold record_progress in guarded-Effect (is_progress_class class) _ t c r
  call-Effect t c (action lane) r =
      unfold record_committed_action in guarded-Effect (is_lane lane) _ t c r
  call-Effect t c recovery r = unfold record_recovery_epoch in modified-Effect _ t c r
  call-Effect t c (reanchor_query limit total) r =
      unfold needs_goal_reanchor in modified-Effect (λ s. s) t c (tracker_of-map _ (state t c) r)
  call-Effect t c (rejection a h e p at) r = unfold reject_path in modified-Effect _ t c r
  call-Effect t c (termination d reason) r = terminate_cause-Effect t c d reason r
  call-Effect t c (retry a) r = (evaluate-Effect t c a (tracker_of-eq-ok (evaluate t c a) r).1).0
