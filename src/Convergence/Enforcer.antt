-- ===== src/Convergence/Enforcer.antt =====
-- scripts/runtime_contract/convergence.py: `RetryBoundaryEnforcer.evaluate`, the gate that an
-- intended retry passes.
use cognitive_frame_works.Prelude.{
  ℕ, ◌+◌, String, Option, none, some, Bool, true, false, ◌&&◌, not, leb, eqb, if◌then◌else◌,
}
use cognitive_frame_works.Prelude.Result.{Result, ok, ◌>>=◌}
use cognitive_frame_works.Convergence.State.{RetryState}
use cognitive_frame_works.Convergence.Transitions.{is_terminal, same_approach, option_eq, is_given}
use cognitive_frame_works.Convergence.Tracker.{Tracker, modify, terminate_cause}

-- The constants `GATE_*`; `allow` is Python's `None`.
pub data Gate : Type 0 where
  block reinspect changed_hypothesis goal_reanchor allow : Gate

-- The arguments of `evaluate` that describe the intended attempt.
pub record Attempt : Type 0 where
  pub action_fingerprint : String
  pub hypothesis_fingerprint : String
  pub premise_digest : Option String
  pub failure_digest : Option String
  pub delegated : Bool
  pub support_action_limit : ℕ

-- The state carries the attempt's own action, hypothesis and premise.
abbrev pub unchanged : Attempt → RetryState → Bool
unchanged a s = same_approach s a.action_fingerprint a.hypothesis_fingerprint a.premise_digest

unfoldable pub with_delegation : Attempt → RetryState → RetryState
with_delegation a s =
    if a.delegated && unchanged a s
    then record s { same_approach_retries = s.same_approach_retries + 1 }
    else s

abbrev pub is_some : Option String → Bool
is_some none = false
is_some (some s) = true

-- The attempt gives a failure digest, and the last recorded progress is the last recorded failure.
unfoldable pub is_stalled : Attempt → RetryState → Bool
is_stalled a s =
    is_some a.failure_digest
    && is_given s.last_progress_digest
    && option_eq s.last_progress_digest s.last_failure_digest

-- The part of `evaluate` below the recovery limit.
unfoldable pub approach_gate : ℕ → Attempt → RetryState → Gate
approach_gate max_retries a s =
    if unchanged a s
    then (if not (eqb s.last_reinspection_revision 0)
        then changed_hypothesis
        else if leb max_retries s.same_approach_retries
        then changed_hypothesis
        else reinspect)
    else if is_stalled a s
    then (if not (eqb s.last_reinspection_revision 0) then changed_hypothesis else reinspect)
    else if leb max_retries s.same_approach_retries
    then changed_hypothesis
    else allow

-- `evaluate` from the test of the disposition on.
unfoldable pub judge : Tracker → String → Attempt → RetryState → Result (Gate × Tracker)
judge t cause a s =
    if is_terminal s.disposition
    then ok (block, t)
    else if leb a.support_action_limit s.support_actions_since_goal_progress
    then ok (goal_reanchor, t)
    else if leb t.max_recovery_epochs_without_progress s.recovery_epochs_since_goal_progress
    then (do
      (_, t') ← terminate_cause t cause "BLOCKED" "max_recovery_epochs_without_progress"
      ok (block, t'))
    else ok (approach_gate t.max_same_approach_retries a s, t)

-- `evaluate`
unfoldable pub evaluate : Tracker → String → Attempt → Result (Gate × Tracker)
evaluate t cause a = do (s, t') ← modify (with_delegation a) t cause; judge t' cause a s
