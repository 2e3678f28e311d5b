-- ===== src/Convergence/State.antt =====
-- scripts/runtime_contract/convergence.py: `RejectedPath` and `RetryState`, the host's accounting
-- for one cause, with their dictionaries.
use cognitive_frame_works.Prelude.{ℕ, String, Option, none, some, List, [], ◌∷◌, map}
use cognitive_frame_works.Prelude.Result.{Result, ok, err, key_error, ◌>>=◌}
use cognitive_frame_works.Convergence.Identity.{
  ConvergenceIdentity, IdentityDict, identity_to_dict, identity_from_dict, or_default, truthy,
  required,
}

pub record RejectedPath : Type 0 where
  pub cause_id : String
  pub action_fingerprint : String
  pub hypothesis_fingerprint : String
  pub premise_digest : Option String
  pub rejecting_evidence_ref : Option String
  pub recorded_at : String

pub record RejectedPathDict : Type 0 where
  pub cause_id : Option String
  pub action_fingerprint : Option String
  pub hypothesis_fingerprint : Option String
  pub premise_digest : Option String
  pub rejecting_evidence_ref : Option String
  pub recorded_at : Option String

unfoldable pub path_to_dict : RejectedPath → RejectedPathDict
path_to_dict p = record {
  cause_id = some p.cause_id;
  action_fingerprint = some p.action_fingerprint;
  hypothesis_fingerprint = some p.hypothesis_fingerprint;
  premise_digest = p.premise_digest;
  rejecting_evidence_ref = p.rejecting_evidence_ref;
  recorded_at = some p.recorded_at;
}

unfoldable pub path_from_dict : RejectedPathDict → Result RejectedPath
path_from_dict d = do
  cause_id ← required d.cause_id
  action ← required d.action_fingerprint
  hypothesis ← required d.hypothesis_fingerprint
  ok (record {
    cause_id = cause_id;
    action_fingerprint = action;
    hypothesis_fingerprint = hypothesis;
    premise_digest = truthy d.premise_digest;
    rejecting_evidence_ref = truthy d.rejecting_evidence_ref;
    recorded_at = or_default d.recorded_at "";
  })

pub record RetryState : Type 0 where
  pub identity : ConvergenceIdentity
  pub action_fingerprint : String
  pub hypothesis_fingerprint : String
  pub premise_digest : Option String
  pub same_approach_retries : ℕ
  pub recovery_epochs : ℕ
  pub no_progress_epochs : ℕ
  pub last_failure_evidence_ref : Option String
  pub last_reinspection_revision : ℕ
  pub last_progress_digest : Option String
  pub last_failure_digest : Option String
  pub progress_sequence : ℕ
  pub last_goal_progress_seq : ℕ
  pub last_support_progress_seq : ℕ
  pub support_actions_since_goal_progress : ℕ
  pub total_actions_since_goal_progress : ℕ
  pub workflow_steps_since_goal_progress : ℕ
  pub last_workflow_progress_seq : ℕ
  pub evidence_facts_since_goal_progress : ℕ
  pub last_evidence_progress_seq : ℕ
  pub recovery_epochs_since_goal_progress : ℕ
  pub last_progress_class : Option String
  pub disposition : String
  pub terminated_reason : Option String
  pub rejected_paths : List RejectedPath

-- `RetryState(identity=identity)`
unfoldable pub new_state : ConvergenceIdentity → RetryState
new_state i = record {
  identity = i;
  action_fingerprint = "";
  hypothesis_fingerprint = "";
  premise_digest = none;
  same_approach_retries = 0;
  recovery_epochs = 0;
  no_progress_epochs = 0;
  last_failure_evidence_ref = none;
  last_reinspection_revision = 0;
  last_progress_digest = none;
  last_failure_digest = none;
  progress_sequence = 0;
  last_goal_progress_seq = 0;
  last_support_progress_seq = 0;
  support_actions_since_goal_progress = 0;
  total_actions_since_goal_progress = 0;
  workflow_steps_since_goal_progress = 0;
  last_workflow_progress_seq = 0;
  evidence_facts_since_goal_progress = 0;
  last_evidence_progress_seq = 0;
  recovery_epochs_since_goal_progress = 0;
  last_progress_class = none;
  disposition = "RUNNING";
  terminated_reason = none;
  rejected_paths = [];
}

-- The dictionary of `to_dict`: an absent key is `none`.
pub record RetryStateDict : Type 0 where
  pub identity : Option IdentityDict
  pub action_fingerprint : Option String
  pub hypothesis_fingerprint : Option String
  pub premise_digest : Option String
  pub same_approach_retries : Option ℕ
  pub recovery_epochs : Option ℕ
  pub no_progress_epochs : Option ℕ
  pub last_failure_evidence_ref : Option String
  pub last_reinspection_revision : Option ℕ
  pub last_progress_digest : Option String
  pub last_failure_digest : Option String
  pub progress_sequence : Option ℕ
  pub last_goal_progress_seq : Option ℕ
  pub last_support_progress_seq : Option ℕ
  pub support_actions_since_goal_progress : Option ℕ
  pub total_actions_since_goal_progress : Option ℕ
  pub workflow_steps_since_goal_progress : Option ℕ
  pub last_workflow_progress_seq : Option ℕ
  pub evidence_facts_since_goal_progress : Option ℕ
  pub last_evidence_progress_seq : Option ℕ
  pub recovery_epochs_since_goal_progress : Option ℕ
  pub last_progress_class : Option String
  pub disposition : Option String
  pub terminated_reason : Option String
  pub rejected_paths : List RejectedPathDict

unfoldable pub state_to_dict : RetryState → RetryStateDict
state_to_dict s = record {
  identity = some (identity_to_dict s.identity);
  action_fingerprint = some s.action_fingerprint;
  hypothesis_fingerprint = some s.hypothesis_fingerprint;
  premise_digest = s.premise_digest;
  same_approach_retries = some s.same_approach_retries;
  recovery_epochs = some s.recovery_epochs;
  no_progress_epochs = some s.no_progress_epochs;
  last_failure_evidence_ref = s.last_failure_evidence_ref;
  last_reinspection_revision = some s.last_reinspection_revision;
  last_progress_digest = s.last_progress_digest;
  last_failure_digest = s.last_failure_digest;
  progress_sequence = some s.progress_sequence;
  last_goal_progress_seq = some s.last_goal_progress_seq;
  last_support_progress_seq = some s.last_support_progress_seq;
  support_actions_since_goal_progress = some s.support_actions_since_goal_progress;
  total_actions_since_goal_progress = some s.total_actions_since_goal_progress;
  workflow_steps_since_goal_progress = some s.workflow_steps_since_goal_progress;
  last_workflow_progress_seq = some s.last_workflow_progress_seq;
  evidence_facts_since_goal_progress = some s.evidence_facts_since_goal_progress;
  last_evidence_progress_seq = some s.last_evidence_progress_seq;
  recovery_epochs_since_goal_progress = some s.recovery_epochs_since_goal_progress;
  last_progress_class = s.last_progress_class;
  disposition = some s.disposition;
  terminated_reason = s.terminated_reason;
  rejected_paths = map path_to_dict s.rejected_paths;
}

-- `int(data.get(k, 0) or 0)`
abbrev pub or_zero : Option ℕ → ℕ
or_zero none = 0
or_zero (some n) = n

-- `[RejectedPath.from_dict(item) for item in …]`
unfoldable pub paths_from_dicts : List RejectedPathDict → Result (List RejectedPath)
unfolding path_from_dict
paths_from_dicts [] = ok []
paths_from_dicts (d ∷ ds) = do p ← path_from_dict d; ps ← paths_from_dicts ds; ok (p ∷ ps)

abbrev pub identity_entry : Option IdentityDict → Result ConvergenceIdentity
identity_entry none = err key_error
identity_entry (some d) = identity_from_dict d

-- `RetryState.from_dict`
unfoldable pub state_from_dict : RetryStateDict → Result RetryState
state_from_dict d = do
  identity ← identity_entry d.identity
  paths ← paths_from_dicts d.rejected_paths
  ok (record {
    identity = identity;
    action_fingerprint = or_default d.action_fingerprint "";
    hypothesis_fingerprint = or_default d.hypothesis_fingerprint "";
    premise_digest = truthy d.premise_digest;
    same_approach_retries = or_zero d.same_approach_retries;
    recovery_epochs = or_zero d.recovery_epochs;
    no_progress_epochs = or_zero d.no_progress_epochs;
    last_failure_evidence_ref = truthy d.last_failure_evidence_ref;
    last_reinspection_revision = or_zero d.last_reinspection_revision;
    last_progress_digest = truthy d.last_progress_digest;
    last_failure_digest = truthy d.last_failure_digest;
    progress_sequence = or_zero d.progress_sequence;
    last_goal_progress_seq = or_zero d.last_goal_progress_seq;
    last_support_progress_seq = or_zero d.last_support_progress_seq;
    support_actions_since_goal_progress = or_zero d.support_actions_since_goal_progress;
    total_actions_since_goal_progress = or_zero d.total_actions_since_goal_progress;
    workflow_steps_since_goal_progress = or_zero d.workflow_steps_since_goal_progress;
    last_workflow_progress_seq = or_zero d.last_workflow_progress_seq;
    evidence_facts_since_goal_progress = or_zero d.evidence_facts_since_goal_progress;
    last_evidence_progress_seq = or_zero d.last_evidence_progress_seq;
    recovery_epochs_since_goal_progress = or_zero d.recovery_epochs_since_goal_progress;
    last_progress_class = truthy d.last_progress_class;
    disposition = or_default d.disposition "RUNNING";
    terminated_reason = truthy d.terminated_reason;
    rejected_paths = paths;
  })
