-- ===== src/TaskEvidence/Records.antt =====
-- scripts/runtime_contract/task_evidence.py: `BlockerFact`, `CriterionEvidenceBinding` and
-- `VerificationObligation`; scripts/runtime_contract/behavior_facts.py: `WorkflowProgressFact`.
use cognitive_frame_works.Prelude.{
  all_true, ℕ, String, Option, List, [], ◌∷◌, Bool, not, all, length, leb, one_of, is_bounded,
  is_bounded_text, str_len, ◌==◌,
}
use cognitive_frame_works.Prelude.Result.{Result, ok, value_error, guard, ◌>>◌}
use cognitive_frame_works.Attention.Facts.{is_optional, is_optional_text}

pub record BlockerFact : Type 0 where
  pub blocker_id : String
  pub summary : String
  pub blocked_criterion_ids : List String
  pub blocker_evidence_ref : Option String

pub record CriterionEvidenceBinding : Type 0 where
  pub bound_criterion_id : String
  pub evidence_ref : String
  pub evidence_kind : String
  pub authority : String
  pub bound_artifact_revision : Option String

unfoldable pub binding_authorities : List String
binding_authorities = "validator" ∷ "operator" ∷ "csw_authoritative" ∷ "host_observed" ∷ []

unfoldable pub check_binding : CriterionEvidenceBinding → Result CriterionEvidenceBinding
check_binding b = do
  guard
      (all_true (
        is_bounded_text 256 b.bound_criterion_id
        ∷ is_bounded_text 256 b.evidence_ref
        ∷ is_bounded_text 256 b.evidence_kind
        ∷ one_of b.authority binding_authorities
        ∷ is_optional (λ r. leb (str_len r) 256) b.bound_artifact_revision
        ∷ []))
      value_error
  ok b

pub record VerificationObligation : Type 0 where
  pub owed_criterion_id : String
  pub owed_artifact_revision : ℕ
  pub required_strength : String
  pub owed_evidence_kind : Option String
  pub obligation_status : String

unfoldable pub check_obligation : VerificationObligation → Result VerificationObligation
check_obligation o = do
  guard
      (all_true (
        is_bounded 128 o.owed_criterion_id
        ∷ (not (o.required_strength == ""))
        ∷ one_of o.obligation_status ("PENDING" ∷ "SATISFIED" ∷ "INVALIDATED" ∷ [])
        ∷ []))
      value_error
  ok o

pub record WorkflowProgressFact : Type 0 where
  pub statework_id : String
  pub subject_ref : String
  pub engine_kind : String
  pub workflow_revision : ℕ
  pub step_id : String
  pub work_class : String
  pub domain_effect : String
  pub workflow_progress_class : String
  pub current_position : Option String
  pub previous_position : Option String
  pub completed : Bool
  pub evidence_refs : List String
  pub workflow_source : String

unfoldable pub workflow_progress_classes : List String
workflow_progress_classes =
    "FORWARD_PROGRESS" ∷ "LATERAL" ∷ "RECOVERY" ∷ "INVALIDATION" ∷ "REGRESSION" ∷ "TERMINAL" ∷ []

unfoldable pub check_workflow : WorkflowProgressFact → Result WorkflowProgressFact
check_workflow w = do
  guard
      (all_true (
        is_bounded_text 64 w.statework_id
        ∷ is_bounded_text 32 w.workflow_progress_class
        ∷ is_bounded_text 64 w.engine_kind
        ∷ is_bounded_text 128 w.step_id
        ∷ is_bounded_text 64 w.work_class
        ∷ is_bounded_text 64 w.domain_effect
        ∷ is_bounded_text 256 w.subject_ref
        ∷ is_optional_text 128 w.current_position
        ∷ is_optional_text 128 w.previous_position
        ∷ one_of w.workflow_progress_class workflow_progress_classes
        ∷ (w.workflow_source == "csw_authoritative")
        ∷ leb (length w.evidence_refs) 8
        ∷ all (is_bounded_text 256) w.evidence_refs
        ∷ []))
      value_error
  ok w
