-- ===== src/StandaloneBehavior/Policy.antt =====
-- scripts/runtime_session/standalone_behavior_policy.py: `StandaloneBehaviorPolicy`, with
-- `CompletionReadiness` of scripts/runtime_contract/task_evidence.py. A count that the code keeps
-- from being negative is a natural number, and so are the limits that it is compared with.
use cognitive_frame_works.Prelude.{
  ℕ, String, Option, none, some, List, [], ◌∷◌, Bool, true, false, not, ◌&&◌, ◌||◌, all, length,
  is_empty, leb, eqb, one_of, is_bounded, if◌then◌else◌,
}
use cognitive_frame_works.Prelude.Result.{Result, ok, value_error, guard, ◌>>◌}

pub record CompletionReadiness : Type 0 where
  pub required_criteria_satisfied : Bool
  pub boundary_evidence_available : Bool
  pub unresolved_contradictions : Bool
  pub active_stateworks_complete : Bool
  pub readiness_obligations : ℕ

unfoldable pub is_ready : CompletionReadiness → Bool
is_ready r =
    r.required_criteria_satisfied
    && r.boundary_evidence_available
    && not r.unresolved_contradictions
    && r.active_stateworks_complete
    && eqb r.readiness_obligations 0

pub record StandaloneBehaviorFacts : Type 0 where
  pub active_criterion_ids : List String
  pub has_active_blockers : Bool
  pub pending_verification_obligations : ℕ
  pub redirect_guidance_pending : Bool
  pub progress_redirected : Bool

-- `len(criteria) == len(set(criteria))`
unfoldable pub are_distinct : List String → Bool
are_distinct [] = true
are_distinct (x ∷ xs) = not (one_of x xs) && are_distinct xs

unfoldable pub check_facts : StandaloneBehaviorFacts → Result StandaloneBehaviorFacts
check_facts f = do
  guard
      (leb (length f.active_criterion_ids) 8
        && are_distinct f.active_criterion_ids
        && all (is_bounded 128) f.active_criterion_ids)
      value_error
  ok f

pub record StandaloneBehaviorDecision : Type 0 where
  pub mode : String
  pub reason : String
  pub focus_criterion_ids : List String
  pub goal_reanchor_required : Bool

unfoldable pub decision_modes : List String
decision_modes =
    "DELIVER" ∷ "DIAGNOSE" ∷ "VERIFY" ∷ "RECOVER" ∷ "REPLAN" ∷ "BLOCKED" ∷ "REINSPECT"
    ∷ "READY_TO_COMPLETE" ∷ []

unfoldable pub check_decision : StandaloneBehaviorDecision → Result StandaloneBehaviorDecision
check_decision d = do
  guard (one_of d.mode decision_modes) value_error
  guard (leb (length d.focus_criterion_ids) 8) value_error
  guard (all (is_bounded 128) d.focus_criterion_ids) value_error
  ok d

-- The other arguments of `decide`.
pub record Budgets : Type 0 where
  pub support_actions_since_progress : ℕ
  pub support_action_limit : ℕ
  pub total_actions_since_progress : ℕ
  pub total_action_limit : ℕ
  pub recovery_epochs_since_progress : ℕ
  pub max_recovery_epochs : ℕ
  pub same_approach_retries : ℕ
  pub max_same_approach_retries : ℕ
  pub unresolved_contradiction : Bool
  pub goal_contract_anchor_valid : Bool
  pub completion_readiness : Option CompletionReadiness

unfoldable pub decision : String → String → List String → Bool → StandaloneBehaviorDecision
decision mode reason active reanchor = record {
  mode = mode;
  reason = reason;
  focus_criterion_ids = active;
  goal_reanchor_required = reanchor;
}

-- The end of `decide`, where no criterion is unfinished.
unfoldable pub decide_completion : Option CompletionReadiness → StandaloneBehaviorDecision
decide_completion none =
    decision "VERIFY" "completion readiness still requires host evidence" [] false
decide_completion (some r) =
    if is_ready r
    then decision "READY_TO_COMPLETE" "host completion prerequisites are ready" [] false
    else if not r.active_stateworks_complete
    then decision "DELIVER" "active workflow still has required steps" [] false
    else decision "VERIFY" "completion readiness still requires host evidence" [] false

unfoldable pub choose : StandaloneBehaviorFacts → Budgets → StandaloneBehaviorDecision
choose f b =
    let active = f.active_criterion_ids in
    let must_redirect = f.redirect_guidance_pending || not f.progress_redirected in
    if b.unresolved_contradiction
    then decision "REINSPECT" "unresolved operator contradiction" active false
    else if not b.goal_contract_anchor_valid
    then decision "REPLAN" "host goal contract is missing or no longer matches its pinned identity"
        active true
    else if leb b.max_recovery_epochs b.recovery_epochs_since_progress
    then (if not (is_empty active)
        then decision "REPLAN" "current recovery budget exhausted; yield to runnable criteria"
            active false
        else decision "BLOCKED" "hard recovery budget exhausted" active false)
    else if leb b.support_action_limit b.support_actions_since_progress
    then (if must_redirect
        then decision "REPLAN" "support-action budget reached; redirect to an unfinished criterion"
            active false
        else decision "DELIVER" "progress redirect issued; continue with a runnable criterion"
            active false)
    else if leb b.total_action_limit b.total_actions_since_progress
    then (if must_redirect
        then decision "REPLAN" "committed-action budget reached without goal evidence" active true
        else decision "DELIVER" "progress redirect issued; continue with a runnable criterion"
            active false)
    else if leb b.max_same_approach_retries b.same_approach_retries
    then decision "RECOVER" "repeated approach reached its hard limit" active false
    else if f.has_active_blockers
    then decision "DIAGNOSE" "host-observed blocker remains" active false
    else if not (eqb f.pending_verification_obligations 0)
    then decision "VERIFY" "explicit criterion verification obligation is pending" active false
    else if not (is_empty active)
    then decision "DELIVER" "required criterion remains unfinished" active false
    else decide_completion b.completion_readiness

-- `decide`, on facts that have passed the checks of their constructor; a decision passes those
-- of its own.
unfoldable pub decide : StandaloneBehaviorFacts → Budgets → Result StandaloneBehaviorDecision
decide f b = check_decision (choose f b)
