-- ===== src/Convergence/Examples.antt =====
-- The theorems about the retry gate of scripts/runtime_contract/convergence.py at concrete inputs, and tests of the
-- gate.
use cognitive_frame_works.Prelude.{
  String, Option, none, some, false, inl, inr, List, [], ◌∷◌, ◌≡◌, ◌≢◌, ◌↔◌, refl, arith, eq_iff,
  is_bounded,
}
use cognitive_frame_works.Prelude.Result.{ok}
use cognitive_frame_works.Prelude.Dict
use cognitive_frame_works.Convergence.Identity.{
  SessionIdentity, session_scope, identity_for, check_identity, key, join,
}
use cognitive_frame_works.Convergence.State.{new_state}
use cognitive_frame_works.Convergence.Transitions.{is_terminal, same_approach, is_goal_class}
use cognitive_frame_works.Convergence.Tracker.{Tracker, new_tracker, state_at, store, modify}
use cognitive_frame_works.Convergence.Enforcer.{
  Attempt, block, allow, evaluate, judge, with_delegation, is_stalled,
}
use cognitive_frame_works.Convergence.Calls.{
  Request, about, recovery, progress, action, run, after, request,
}
use cognitive_frame_works.Convergence.Histories.{Stored, IsAccounted}
use cognitive_frame_works.Convergence.Snapshot.{export, restore}
use cognitive_frame_works.Convergence.Reachability.{
  created, called, restored, Reachable-IsAccounted,
}
use cognitive_frame_works.Convergence.Isolation.{run_isolated}
use cognitive_frame_works.Convergence.Gate.{MayRetry, evaluate-allow_iff}
use cognitive_frame_works.Convergence.Finality.{block_is_final}
use cognitive_frame_works.Convergence.Budget.{recovery_budget_binds}

abbrev pub session : SessionIdentity
session = record {
  namespace_id = some "team";
  application_instance_id = none;
  agent_instance_id = some "";
  session_id = none;
  task_id = some "task-7";
  attempt_id = none;
  interaction_id = none;
}

-- A digest that tells failures apart by their actions.
abbrev sample_digest : String → String → Option String → Option String → String
sample_digest a h e p = a

abbrev pub fresh_tracker : Tracker
fresh_tracker = record {
  identity = session;
  max_recovery_epochs_without_progress = 2;
  max_same_approach_retries = 2;
  states = [];
}

abbrev sample_attempt : Attempt
sample_attempt = record {
  action_fingerprint = "edit";
  hypothesis_fingerprint = "typo";
  premise_digest = none;
  failure_digest = none;
  delegated = false;
  support_action_limit = 5;
}

build_valid : identity_for session "build" ≡ ok (session_scope session "build")
unfolding identity_for check_identity is_bounded
build_valid = refl

new_tracker-session : new_tracker session 2 2 ≡ ok fresh_tracker
unfolding new_tracker
new_tracker-session = refl

lint_other : ◌≢◌ {A = String} "lint" "build"
lint_other p = cc ((eq_iff "lint" "build").1 p)

abbrev two_recoveries : List Request
two_recoveries =
    about "build" recovery
    ∷ about "build" (progress "d1" "DIAGNOSTIC_PROGRESS" none)
    ∷ about "lint" (progress "d2" "GOAL_PROGRESS" none)
    ∷ about "build" recovery
    ∷ []

recovery_budget_binds_example :
    evaluate (run sample_digest fresh_tracker two_recoveries) "build" sample_attempt
    ≢ ok (allow, fresh_tracker)
unfolding is_goal_class
recovery_budget_binds_example =
    recovery_budget_binds sample_digest fresh_tracker "build" two_recoveries build_valid
      (inr tt, (inr refl, (inl lint_other, (inr tt, tt)))) (omega arith) sample_attempt
      fresh_tracker

abbrev ended_tracker : Tracker
ended_tracker =
    store fresh_tracker (session_scope session "build")
      (record (new_state (session_scope session "build")) { disposition = "FAILED" })

ended_blocks :
    evaluate ended_tracker "build" sample_attempt
    ≡ ok (
      block,
      store ended_tracker
          (session_scope session "build")
          (record (new_state (session_scope session "build")) { disposition = "FAILED" }),
    )
unfolding evaluate modify identity_for check_identity is_bounded judge with_delegation state_at
    store Dict.get Dict.put key join new_state is_terminal
ended_blocks = refl

block_is_final_example :
    (v : Tracker) × (evaluate
        (run sample_digest
          (store ended_tracker
            (session_scope session "build")
            (record (new_state (session_scope session "build")) { disposition = "FAILED" }))
          two_recoveries)
        "build"
        sample_attempt
      ≡ ok (block, v))
block_is_final_example =
    block_is_final sample_digest ended_tracker "build" sample_attempt ended_blocks two_recoveries
      sample_attempt

evaluate-allow_iff_example :
    ((v : Tracker) × (evaluate fresh_tracker "build" sample_attempt ≡ ok (allow, v)))
    ↔ MayRetry fresh_tracker sample_attempt (state_at fresh_tracker (session_scope session "build"))
evaluate-allow_iff_example = evaluate-allow_iff fresh_tracker "build" sample_attempt build_valid

-- A new cause may be tried.
new_cause-MayRetry :
    MayRetry fresh_tracker sample_attempt (state_at fresh_tracker (session_scope session "build"))
unfolding state_at Dict.get new_state is_terminal same_approach is_stalled
new_cause-MayRetry = record {
  running = refl;
  supported = omega arith;
  recovering = omega arith;
  novel = refl;
  moving = refl;
  few_failures = omega arith;
}

-- The tracker after one recovery epoch, and a new one that restores its export.
abbrev recovered_tracker : Tracker
recovered_tracker =
    after fresh_tracker (request sample_digest fresh_tracker (about "build" recovery))

Reachable-IsAccounted_example :
    Stored IsAccounted (restore fresh_tracker (export recovered_tracker))
Reachable-IsAccounted_example = Reachable-IsAccounted sample_digest (
    restored (created session 2 2 new_tracker-session)
      (called (about "build" recovery) (created session 2 2 new_tracker-session)))

run_isolated_example :
    state_at
      (run sample_digest ended_tracker
        (about "lint" recovery ∷ about "lint" (action "DIRECT") ∷ []))
      (session_scope session "build")
    ≡ state_at ended_tracker (session_scope session "build")
unfolding store
run_isolated_example =
    run_isolated sample_digest ended_tracker
      (about "lint" recovery ∷ about "lint" (action "DIRECT") ∷ []) "build"
      (lint_other, (lint_other, tt)) build_valid
