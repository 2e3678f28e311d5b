-- ===== src/Convergence/Gate.antt =====
-- What `RetryBoundaryEnforcer.evaluate` of scripts/runtime_contract/convergence.py answers: it is
-- total on valid causes, and it allows exactly the attempts within every limit.
use cognitive_frame_works.Prelude.{◌<◌, String, false, ◌≡◌, ◌↔◌, ap, ◌∙◌, arith, if◌then◌else◌}
use cognitive_frame_works.Prelude.Result.{ok}
use cognitive_frame_works.Convergence.Identity.{ConvergenceIdentity, identity_for}
use cognitive_frame_works.Convergence.State.{RetryState}
use cognitive_frame_works.Convergence.Transitions.{
  is_terminal, same_approach, with_termination, is_terminal-blocked,
}
use cognitive_frame_works.Convergence.Tracker.{Tracker, state_at, store, modify, terminate_cause}
use cognitive_frame_works.Convergence.Enforcer.{
  allow, Attempt, unchanged, with_delegation, is_stalled, approach_gate, judge, evaluate,
}
use cognitive_frame_works.Convergence.Effects.{verdict, is_exhausted}

-- The attempt is within every limit that the state of its cause sets.
pub record MayRetry (t : Tracker) (a : Attempt) (s : RetryState) : Type 0 where
  pub running : is_terminal s.disposition ≡ false
  pub supported : s.support_actions_since_goal_progress < a.support_action_limit
  pub recovering : s.recovery_epochs_since_goal_progress < t.max_recovery_epochs_without_progress
  pub novel : unchanged a s ≡ false
  pub moving : is_stalled a s ≡ false
  pub few_failures : s.same_approach_retries < t.max_same_approach_retries

pub modify_total :
    (f : RetryState → RetryState) (t : Tracker) (c : String) {i : ConvergenceIdentity}
    → identity_for t.identity c ≡ ok i
    → modify f t c ≡ ok (f (state_at t i), store t i (f (state_at t i)))
unfolding modify
modify_total f t c h = rw h

-- The tracker after `evaluate`.
judged : Tracker → Attempt → ConvergenceIdentity → RetryState → Tracker
judged t a i s =
    if is_exhausted t.max_recovery_epochs_without_progress a s
    then store t i
        (with_termination "BLOCKED" "max_recovery_epochs_without_progress" (state_at t i))
    else t

judge_total :
    (t : Tracker) (c : String) (a : Attempt) (s : RetryState) {i : ConvergenceIdentity}
    → identity_for t.identity c ≡ ok i
    → judge t c a s
      ≡ ok (
        verdict t.max_recovery_epochs_without_progress t.max_same_approach_retries a s,
        judged t a i s,
      )
unfolding judge judged verdict is_exhausted terminate_cause
judge_total t c a s h = ground (
  arith,
  is_terminal-blocked,
  modify_total (with_termination "BLOCKED" "max_recovery_epochs_without_progress") t c h,
)

-- For a valid cause `evaluate` answers, and its answer is the verdict on the cause's state.
pub evaluate_total :
    (t : Tracker) (c : String) (a : Attempt) {i : ConvergenceIdentity}
    → identity_for t.identity c ≡ ok i
    → (v : Tracker) × (evaluate t c a
        ≡ ok (
          verdict t.max_recovery_epochs_without_progress t.max_same_approach_retries a
              (with_delegation a (state_at t i)),
          v,
        ))
unfolding evaluate store
evaluate_total t c a {i} h = (
  judged (store t i (with_delegation a (state_at t i))) a i (with_delegation a (state_at t i)),
  rw (modify_total (with_delegation a) t c h) (
      judge_total (store t i (with_delegation a (state_at t i))) c a
        (with_delegation a (state_at t i)) h),
)

verdict-allow :
    (a : Attempt) (t : Tracker) (s : RetryState)
    → (verdict t.max_recovery_epochs_without_progress t.max_same_approach_retries a
          (with_delegation a s)
        ≡ allow)
      ↔ MayRetry t a s
unfolding verdict with_delegation approach_gate same_approach is_stalled
verdict-allow a t s = (λ h. ground arith, λ h. ground arith)

-- For a valid cause, `evaluate` allows an attempt exactly if the cause is still running, its support
-- actions and recovery epochs are within their limits, the action, hypothesis and premise are not all
-- three the recorded ones, the retries of one approach are not used up, and either the attempt gives
-- no failure digest, or no progress digest but an empty one is recorded, or the recorded progress
-- digest is not the recorded failure digest. Whether the attempt is delegated makes no difference.
pub evaluate-allow_iff :
    (t : Tracker) (c : String) (a : Attempt) {i : ConvergenceIdentity}
    → identity_for t.identity c ≡ ok i
    → ((v : Tracker) × (evaluate t c a ≡ ok (allow, v))) ↔ MayRetry t a (state_at t i)
evaluate-allow_iff t c a {i} valid =
    let (v, e) = evaluate_total t c a valid in
    let iff = verdict-allow a t (state_at t i) in
    (λ p. iff.0 (cc (e, p.1)), λ may. (v, e ∙ ap (λ g. ok (g, v)) (iff.1 may)))
