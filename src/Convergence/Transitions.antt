-- ===== src/Convergence/Transitions.antt =====
-- scripts/runtime_contract/convergence.py: what the methods of `AttemptEvidenceTracker` do to the
-- state of one cause. The SHA-256 of a failure is the parameter `failure_digest`.
use Prim.Native.String.{◌++◌ as str_append}
use cognitive_frame_works.Prelude.{
  ◌+◌, String, Option, none, some, List, [], ◌∷◌, ◌++◌, Bool, true, false, not, ◌&&◌, keep_last,
  one_of, ◌≡◌, refl, ◌==◌, if◌then◌else◌,
}
use cognitive_frame_works.Convergence.State.{RejectedPath, RetryState}

abbrev pub terminal_dispositions : List String
terminal_dispositions = "SUCCEEDED" ∷ "BLOCKED" ∷ "FAILED" ∷ "HANDOFF" ∷ []

abbrev pub progress_classes : List String
progress_classes =
    "GOAL_PROGRESS" ∷ "BLOCKER_REMOVED" ∷ "DIAGNOSTIC_PROGRESS" ∷ "VERIFICATION_PROGRESS"
    ∷ "VALIDATION_EVIDENCE" ∷ "RECOVERY_PROGRESS" ∷ "WORKFLOW_PROGRESS" ∷ []

abbrev pub action_accounting_lanes : List String
action_accounting_lanes = "DIRECT" ∷ "SUPPORT" ∷ "UNCLASSIFIED" ∷ "VERIFICATION" ∷ []

-- `d in TERMINAL_DISPOSITIONS`
unfoldable pub is_terminal : String → Bool
is_terminal d = one_of d terminal_dispositions

unfoldable pub is_progress_class : String → Bool
is_progress_class c = one_of c progress_classes

-- `progress_class in {"GOAL_PROGRESS", "BLOCKER_REMOVED"}`
unfoldable pub is_goal_class : String → Bool
is_goal_class c = one_of c ("GOAL_PROGRESS" ∷ "BLOCKER_REMOVED" ∷ [])

unfoldable pub is_lane : String → Bool
is_lane l = one_of l action_accounting_lanes

-- Equality of optional texts.
abbrev pub option_eq : Option String → Option String → Bool
option_eq none none = true
option_eq (some a) (some b) = a == b
option_eq _ _ = false

-- The state already carries this action, hypothesis and premise.
unfoldable pub same_approach : RetryState → String → String → Option String → Bool
same_approach s action hypothesis premise =
    s.action_fingerprint == action
    && s.hypothesis_fingerprint == hypothesis
    && option_eq s.premise_digest premise

module _ (failure_digest : String → String → Option String → Option String → String) where
  unfoldable pub with_failure :
      String → String → Option String → Option String → RetryState → RetryState
  with_failure action hypothesis evidence premise s = record s {
    last_failure_evidence_ref = evidence;
    last_failure_digest = some (failure_digest action hypothesis evidence premise);
    same_approach_retries =
        (if same_approach s action hypothesis premise then s.same_approach_retries + 1 else 1);
    action_fingerprint = action;
    hypothesis_fingerprint = hypothesis;
    premise_digest = premise;
  }

-- `if evidence_ref:`
abbrev pub is_given : Option String → Bool
is_given none = false
is_given (some s) = not (s == "")

unfoldable pub goal_progress : RetryState → RetryState
goal_progress s = record s {
  last_goal_progress_seq = s.progress_sequence;
  support_actions_since_goal_progress = 0;
  total_actions_since_goal_progress = 0;
  workflow_steps_since_goal_progress = 0;
  evidence_facts_since_goal_progress = 0;
  recovery_epochs_since_goal_progress = 0;
  recovery_epochs = 0;
  no_progress_epochs = 0;
  same_approach_retries = 0;
}

unfoldable pub workflow_progress : RetryState → RetryState
workflow_progress s = record s {
  last_workflow_progress_seq = s.progress_sequence;
  workflow_steps_since_goal_progress = s.workflow_steps_since_goal_progress + 1;
}

unfoldable pub validation_evidence : RetryState → RetryState
validation_evidence s = record s {
  last_evidence_progress_seq = s.progress_sequence;
  evidence_facts_since_goal_progress = s.evidence_facts_since_goal_progress + 1;
}

unfoldable pub support_progress : RetryState → RetryState
support_progress s = record s {
  last_support_progress_seq = s.progress_sequence;
  support_actions_since_goal_progress = s.support_actions_since_goal_progress + 1;
}

-- The branches of `record_progress` on the class of the progress.
unfoldable pub classify_progress : String → RetryState → RetryState
classify_progress c s =
    if is_goal_class c
    then goal_progress s
    else if c == "WORKFLOW_PROGRESS"
    then workflow_progress s
    else if c == "VALIDATION_EVIDENCE"
    then validation_evidence s
    else support_progress s

unfoldable pub clear_failure : Option String → RetryState → RetryState
clear_failure evidence s =
    if is_given evidence then record s { last_failure_evidence_ref = none } else s

unfoldable pub with_progress : String → String → Option String → RetryState → RetryState
with_progress digest c evidence s = clear_failure evidence (
    classify_progress c (record s {
      last_progress_digest = some digest;
      progress_sequence = s.progress_sequence + 1;
      last_progress_class = some c;
    }))

unfoldable pub with_action : String → RetryState → RetryState
with_action lane s =
    if lane == "SUPPORT"
    then record s {
      progress_sequence = s.progress_sequence + 1;
      total_actions_since_goal_progress = s.total_actions_since_goal_progress + 1;
      last_support_progress_seq = s.progress_sequence + 1;
      support_actions_since_goal_progress = s.support_actions_since_goal_progress + 1;
      last_progress_class = some "SUPPORT_ACTION";
    }
    else record s {
      progress_sequence = s.progress_sequence + 1;
      total_actions_since_goal_progress = s.total_actions_since_goal_progress + 1;
      last_progress_class = some (str_append "ACTION_" lane);
    }

unfoldable pub with_recovery : RetryState → RetryState
with_recovery s = record s {
  recovery_epochs = s.recovery_epochs + 1;
  recovery_epochs_since_goal_progress = s.recovery_epochs_since_goal_progress + 1;
  no_progress_epochs =
      (if option_eq s.last_progress_digest s.last_failure_digest
        then s.no_progress_epochs
        else s.no_progress_epochs + 1);
}

unfoldable pub with_rejection : RejectedPath → RetryState → RetryState
with_rejection p s = record s { rejected_paths = keep_last 32 (s.rejected_paths ++ p ∷ []) }

unfoldable pub with_termination : String → String → RetryState → RetryState
with_termination disposition reason s = record s {
  disposition = disposition;
  terminated_reason = some reason;
}

pub is_terminal-blocked : is_terminal "BLOCKED" ≡ true
unfolding is_terminal
is_terminal-blocked = refl
