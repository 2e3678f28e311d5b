-- ===== src/Convergence/Budget.antt =====
-- The recovery budget of a cause in scripts/runtime_contract/convergence.py: recovery epochs are
-- paid for by progress towards the goal only.
use cognitive_frame_works.Prelude.{
  ℕ, ◌+◌, ◌≤◌, String, Option, none, some, List, [], ◌∷◌, false, ◌≡◌, ◌≢◌, ◌⊎◌, refl, ap, subst,
  ◌∙◌, arith, inl, inr, Bool-cases, ◌==◌, eq_iff, if◌then◌else◌,
}
use mathlib.Core.Option
use native.Mathlib.Nat.{zero-add}
use cognitive_frame_works.Prelude.Result.{Error, Result, ok, err}
use cognitive_frame_works.Prelude.Dict
use cognitive_frame_works.Convergence.Identity.{
  ConvergenceIdentity, identity_for, key, key-identity_for_ne,
}
use cognitive_frame_works.Convergence.State.{RetryState}
use cognitive_frame_works.Convergence.Transitions.{
  is_goal_class, with_failure, classify_progress, goal_progress, workflow_progress,
  validation_evidence, support_progress, clear_failure, with_progress, with_action, with_recovery,
  with_rejection, with_termination,
}
use cognitive_frame_works.Convergence.Tracker.{
  Tracker, state_at, or_new, terminate, record_recovery_epoch,
}
use cognitive_frame_works.Convergence.Enforcer.{allow, Attempt, with_delegation, evaluate}
use cognitive_frame_works.Convergence.Calls.{
  Call, progress, action, recovery, retry, call, Request, about, terminate_all, request, after, run,
  tracker_of,
}
use cognitive_frame_works.Convergence.Effects.{
  Effect, Effect-here, Effect-elsewhere, call_effect, call-Effect, with_evaluation,
}
use cognitive_frame_works.Convergence.Histories.{terminate-eq-ok}
use cognitive_frame_works.Convergence.Gate.{modify_total, evaluate-allow_iff}

-- The call reports no progress towards the goal.
abbrev pub NoGoalProgress : Call → Type 0
NoGoalProgress (progress digest class e) = is_goal_class class ≡ false
NoGoalProgress _ = Unit {0}

-- The history reports no progress of the cause towards the goal.
abbrev pub WithoutGoalProgress : String → List Request → Type 0
WithoutGoalProgress c [] = Unit {0}
WithoutGoalProgress c (about d k ∷ rs) = ((d ≢ c) ⊎ NoGoalProgress k) × WithoutGoalProgress c rs
WithoutGoalProgress c (terminate_all d reason ∷ rs) = WithoutGoalProgress c rs

abbrev pub one_if_recovery : Call → ℕ
one_if_recovery recovery = 1
one_if_recovery _ = 0

-- The recovery epochs that a history records for the cause.
abbrev pub recoveries : String → List Request → ℕ
recoveries c [] = 0
recoveries c (about d k ∷ rs) = (if d == c then one_if_recovery k else 0) + recoveries c rs
recoveries c (terminate_all d reason ∷ rs) = recoveries c rs

-- What the tracker has of the cause with identity `i`.
abbrev spent : Tracker → ConvergenceIdentity → ℕ
spent t i = (state_at t i).recovery_epochs_since_goal_progress

module _ (failure_digest : String → String → Option String → Option String → String) where
  call_effect-spends :
      (m : ℕ) (c : String) (k : Call) (s : RetryState)
      → NoGoalProgress k
      → s.recovery_epochs_since_goal_progress + one_if_recovery k
        ≤ (call_effect failure_digest m c k s).recovery_epochs_since_goal_progress
  unfolding call_effect with_failure with_rejection with_termination with_action with_recovery
  call_effect-spends m c (progress digest class e) s v =
      unfold with_progress clear_failure classify_progress goal_progress workflow_progress
        validation_evidence support_progress in
      ground arith
  call_effect-spends m c (action lane) s v = ground arith
  call_effect-spends m c (retry a) s v = unfold with_evaluation with_delegation in ground arith
  call_effect-spends m c _ s v = ground arith

  -- The facts about the next tracker that the induction on a history needs.
  record Spends (t u : Tracker) (i : ConvergenceIdentity) (n : ℕ) : Type 0 where
    grows : spent t i + n ≤ spent u i
    same_identity : u.identity ≡ t.identity
    same_limit : u.max_recovery_epochs_without_progress ≡ t.max_recovery_epochs_without_progress

  call-Spends :
      (t : Tracker) (c d : String) (k : Call) {i : ConvergenceIdentity} {t' : Tracker}
      → identity_for t.identity c ≡ ok i
      → ((d ≢ c) ⊎ NoGoalProgress k)
      → call failure_digest t d k ≡ ok t'
      → Spends t t' i (if d == c then one_if_recovery k else 0)
  call-Spends t c d k {i} {t'} valid spares h = record {
    grows = elim (Bool-cases (d == c)) [
      | inl same ↦ rw same (own ((eq_iff d c).0 same))
      | inr other ↦ rw other (foreign (λ p. cc ((eq_iff d c).1 p, other)))
    ];
    same_identity = e.same_identity;
    same_limit = e.same_recovery_limit;
  }
    where
      e : Effect t t' d (call_effect failure_digest t.max_recovery_epochs_without_progress d k)
      e = call-Effect failure_digest t d k h

      quiet : d ≡ c → NoGoalProgress k
      quiet same = elim spares [ inl ne ↦ absurd (ne same) | inr q ↦ q ]

      own : d ≡ c → spent t i + one_if_recovery k ≤ spent t' i
      own same =
          let at : e.of ≡ i = cc (e.valid, valid, same) in
          subst (λ x. spent t x + one_if_recovery k ≤ spent t' x) at
            (rw (Effect-here e, spent)
              (call_effect-spends t.max_recovery_epochs_without_progress d k (state_at t e.of)
                (quiet same)))

      foreign : d ≢ c → spent t i + 0 ≤ spent t' i
      foreign ne =
          let kept = Effect-elsewhere e i (key-identity_for_ne t.identity d c e.valid valid ne) in
          rw (kept, spent) (omega arith)

  -- For a valid cause the recovery call does not raise.
  failed_call_spends_nothing :
      (t : Tracker) (c d : String) (k : Call) {i : ConvergenceIdentity} {x : Error}
      → identity_for t.identity c ≡ ok i
      → call failure_digest t d k ≡ err x
      → (if d == c then one_if_recovery k else 0) ≡ 0
  unfolding call record_recovery_epoch
  failed_call_spends_nothing t c d recovery valid h = elim (Bool-cases (d == c)) [
    | inl same ↦
        let at : d ≡ c = (eq_iff d c).0 same in
        absurd (
          cc (
            ap tracker_of
                (modify_total with_recovery t d (ap (identity_for t.identity) at ∙ valid)),
            h,
          ))
    | inr other ↦ rw other
  ]
  failed_call_spends_nothing t c d _ valid h = ground arith

  after-Spends :
      (t : Tracker) (c d : String) (k : Call) {i : ConvergenceIdentity} (r : Result Tracker)
      → identity_for t.identity c ≡ ok i
      → ((d ≢ c) ⊎ NoGoalProgress k)
      → call failure_digest t d k ≡ r
      → Spends t (after t r) i (if d == c then one_if_recovery k else 0)
  after-Spends t c d k (ok t') valid spares h = call-Spends t c d k valid spares h
  after-Spends t c d k (err x) valid spares h = record {
    grows = rw (failed_call_spends_nothing t c d k valid h) (omega arith);
    same_identity = refl;
    same_limit = refl;
  }

  or_new-terminated :
      (d reason : String) (i : ConvergenceIdentity) (o : Option RetryState)
      → (or_new i (Option.map (with_termination d reason) o)).recovery_epochs_since_goal_progress
        ≡ (or_new i o).recovery_epochs_since_goal_progress
  unfolding with_termination
  or_new-terminated d reason i none = refl
  or_new-terminated d reason i (some s) = refl

  terminate-Spends :
      (t : Tracker) (d reason : String) (i : ConvergenceIdentity) (r : Result Tracker)
      → terminate t d reason ≡ r
      → Spends t (after t r) i 0
  unfolding state_at
  terminate-Spends t d reason i (ok t') h =
      let (_, same, limit, gets) = terminate-eq-ok t d reason h in
      record {
        grows =
            rw
              (
                spent,
                state_at,
                gets (key i),
                or_new-terminated d reason i (Dict.get t.states (key i)),
              )
              (omega arith);
        same_identity = same;
        same_limit = limit;
      }
  terminate-Spends t d reason i (err x) h = record {
    grows = omega arith;
    same_identity = refl;
    same_limit = refl;
  }

  Spends-trans :
      (t u v : Tracker) (i : ConvergenceIdentity) (m n : ℕ)
      → Spends t u i m
      → Spends u v i n
      → Spends t v i (m + n)
  Spends-trans t u v i m n s r = record {
    grows = omega (arith, s.grows, r.grows);
    same_identity = r.same_identity ∙ s.same_identity;
    same_limit = r.same_limit ∙ s.same_limit;
  }

  run-Spends :
      (t : Tracker) (c : String) (rs : List Request) {i : ConvergenceIdentity}
      → identity_for t.identity c ≡ ok i
      → WithoutGoalProgress c rs
      → Spends t (run failure_digest t rs) i (recoveries c rs)
  unfolding run request
  run-Spends t c [] valid w = record {
    grows = omega arith;
    same_identity = refl;
    same_limit = refl;
  }
  run-Spends t c (about d k ∷ rs) {i} valid w =
      let u = after t (call failure_digest t d k) in
      let now = after-Spends t c d k (call failure_digest t d k) valid w.0 refl in
      let later = run-Spends u c rs (ap (λ b. identity_for b c) now.same_identity ∙ valid) w.1 in
      Spends-trans t u (run failure_digest u rs) i (if d == c then one_if_recovery k else 0)
        (recoveries c rs) now later
  run-Spends t c (terminate_all d reason ∷ rs) {i} valid w =
      let u = after t (terminate t d reason) in
      let now = terminate-Spends t d reason i (terminate t d reason) refl in
      let later = run-Spends u c rs (ap (λ b. identity_for b c) now.same_identity ∙ valid) w in
      subst (Spends t (run failure_digest u rs) i) (zero-add (recoveries c rs))
        (Spends-trans t u (run failure_digest u rs) i 0 (recoveries c rs) now later)

  -- A history that reports no progress of a cause towards the goal, and records as many recovery
  -- epochs for it as the tracker allows, leaves no attempt at the cause that `evaluate` allows.
  pub recovery_budget_binds :
      (t : Tracker) (c : String) (rs : List Request) {i : ConvergenceIdentity}
      → identity_for t.identity c ≡ ok i
      → WithoutGoalProgress c rs
      → t.max_recovery_epochs_without_progress ≤ recoveries c rs
      → (a : Attempt) (v : Tracker) → evaluate (run failure_digest t rs) c a ≢ ok (allow, v)
  recovery_budget_binds t c rs {i} valid w enough a v h =
      let s = run-Spends t c rs valid w in
      let valid' = ap (λ b. identity_for b c) s.same_identity ∙ valid in
      let may = (evaluate-allow_iff (run failure_digest t rs) c a valid').0 (v, h) in
      omega (arith, may.recovering, s.grows, s.same_limit)
