-- ===== src/StandaloneBehavior/Examples.antt =====
-- The theorems about scripts/runtime_session/standalone_behavior_policy.py at concrete inputs.
use cognitive_frame_works.Prelude.{
  some, [], ◌∷◌, true, false, ◌≡◌, ◌↔◌, refl, one_of, is_bounded, str_len,
}
use cognitive_frame_works.Prelude.Result.{ok}
use cognitive_frame_works.StandaloneBehavior.Policy.{
  CompletionReadiness, is_ready, StandaloneBehaviorFacts, are_distinct, check_facts, decision_modes,
  Budgets, decision, decide_completion, choose, decide,
}
use cognitive_frame_works.StandaloneBehavior.Decisions.{
  is_settled, decide-IsTotal, choose-ready_iff,
}

abbrev done : CompletionReadiness
done = record {
  required_criteria_satisfied = true;
  boundary_evidence_available = true;
  unresolved_contradictions = false;
  active_stateworks_complete = true;
  readiness_obligations = 0;
}

abbrev budgets : Budgets
budgets = record {
  support_actions_since_progress = 1;
  support_action_limit = 6;
  total_actions_since_progress = 2;
  total_action_limit = 12;
  recovery_epochs_since_progress = 0;
  max_recovery_epochs = 3;
  same_approach_retries = 0;
  max_same_approach_retries = 2;
  unresolved_contradiction = false;
  goal_contract_anchor_valid = true;
  completion_readiness = some done;
}

-- One criterion is unfinished, and a blocker is active.
abbrev blocked_facts : StandaloneBehaviorFacts
blocked_facts = record {
  active_criterion_ids = "build" ∷ [];
  has_active_blockers = true;
  pending_verification_obligations = 0;
  redirect_guidance_pending = false;
  progress_redirected = false;
}

abbrev finished_facts : StandaloneBehaviorFacts
finished_facts = record {
  active_criterion_ids = [];
  has_active_blockers = false;
  pending_verification_obligations = 0;
  redirect_guidance_pending = false;
  progress_redirected = false;
}

blocked_test : (choose blocked_facts budgets).mode ≡ "DIAGNOSE"
unfolding choose decision
blocked_test = refl

finished_test : (choose finished_facts budgets).mode ≡ "READY_TO_COMPLETE"
unfolding choose decision decide_completion is_ready
finished_test = refl

blocked_facts_test : check_facts blocked_facts ≡ ok blocked_facts
unfolding check_facts are_distinct is_bounded str_len
blocked_facts_test = refl

decide-IsTotal_example :
    (decide blocked_facts budgets ≡ ok (choose blocked_facts budgets))
    × (one_of (choose blocked_facts budgets).mode decision_modes ≡ true)
decide-IsTotal_example = decide-IsTotal blocked_facts budgets blocked_facts_test

choose-ready_iff_example : ((choose finished_facts budgets).mode ≡ "READY_TO_COMPLETE") ↔ (
    (is_settled finished_facts budgets ≡ true)
    × ((c : CompletionReadiness) × (budgets.completion_readiness ≡ some c) × (is_ready c ≡ true)))
choose-ready_iff_example = choose-ready_iff finished_facts budgets
