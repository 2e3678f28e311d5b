-- ===== src/TaskEvidence/Calls.antt =====
-- scripts/runtime_contract/task_evidence.py: sequences of calls of `TaskEvidenceState`.
use cognitive_frame_works.Prelude.{String, Option, List, [], ◌∷◌}
use cognitive_frame_works.Attention.Facts.{ActivityFact, AttemptSemanticDescriptor}
use cognitive_frame_works.TaskEvidence.Records.{CriterionEvidenceBinding, WorkflowProgressFact}
use cognitive_frame_works.TaskEvidence.State.{
  TaskEvidence, DeclaredCriterion, ensure_criteria, mark_host_state_transition,
}
use cognitive_frame_works.TaskEvidence.Activity.{
  ActivityRequest, Signature, commit_candidate, record_task_activity,
}
use cognitive_frame_works.TaskEvidence.Methods.{
  record_goal_progress, mark_criterion_satisfied, record_blocker, clear_blocker,
  record_workflow_progress, record_task_approach,
}

pub data EvidenceCall : Type 0 where
  ensure_call : List DeclaredCriterion → EvidenceCall
  activity_call : ActivityRequest → Option String → EvidenceCall
  commit_call : ActivityFact → Option String → EvidenceCall
  progress_call : CriterionEvidenceBinding → String → String → EvidenceCall
  satisfy_call : String → String → EvidenceCall
  blocker_call : String → String → List String → Option String → EvidenceCall
  clear_blocker_call : String → EvidenceCall
  workflow_call : WorkflowProgressFact → EvidenceCall
  approach_call : AttemptSemanticDescriptor → EvidenceCall
  transition_call : EvidenceCall

module _ (sha256 : String → String) (dumps : Signature → String) where
  -- The state that a call leaves, whether it returns or raises.
  unfoldable pub evidence_step : EvidenceCall → TaskEvidence → TaskEvidence
  evidence_step (ensure_call cs) s = (ensure_criteria cs s).1
  evidence_step (activity_call q relation) s = (record_task_activity sha256 dumps q relation s).1
  evidence_step (commit_call f relation) s = (commit_candidate sha256 dumps f relation s).1
  evidence_step (progress_call b claim kind) s =
      (record_goal_progress sha256 dumps b claim kind s).1
  evidence_step (satisfy_call k ref) s = (mark_criterion_satisfied sha256 dumps k ref s).1
  evidence_step (blocker_call k summary ids ref) s =
      (record_blocker sha256 dumps k summary ids ref s).1
  evidence_step (clear_blocker_call k) s = clear_blocker k s
  evidence_step (workflow_call w) s = (record_workflow_progress sha256 dumps w s).1
  evidence_step (approach_call d) s = record_task_approach d s
  evidence_step transition_call s = mark_host_state_transition s

  unfoldable pub evidence_run : List EvidenceCall → TaskEvidence → TaskEvidence
  evidence_run [] s = s
  evidence_run (c ∷ cs) s = evidence_run cs (evidence_step c s)
