-- ===== src/Attempts/Session.antt =====
-- The parts of a session that scripts/runtime_session/attempts.py reads and changes:
-- `AttemptConvergenceState` of scripts/runtime_session/state.py, `EvidenceRecord` of
-- scripts/runtime_contract/evidence.py, the task evidence and the standalone attention.
use cognitive_frame_works.Prelude.{String, Option, none, some, List, Bool, ◌==◌, if◌then◌else◌}
use cognitive_frame_works.Prelude.Result.{Result, err, ok, key_error}
use cognitive_frame_works.Prelude.Dict.{Dict}
use cognitive_frame_works.Convergence.Identity.{AttemptDescriptor}
use cognitive_frame_works.Convergence.Tracker.{Tracker}
use cognitive_frame_works.Convergence.Ledger.{Table, Scope}
use cognitive_frame_works.Attention.Facts.{AttemptSemanticDescriptor}
use cognitive_frame_works.Attention.State.{Attention}
use cognitive_frame_works.TaskEvidence.State.{TaskEvidence}

pub record EvidenceRecord : Type 0 where
  pub evidence_id : String
  pub evidence_task_id : String
  pub kind : String
  pub evidence_subject_ref : Option String
  pub observed_at : String
  pub invalidated : Bool
  pub event_id : Option String
  pub issuer : Option String
  pub source_event_id : Option String
  pub invocation_id : Option String
  pub content_digest : Option String
  pub claim_digest : Option String
  pub schema : Option String
  pub validator : Option String
  pub covered_boundary_ids : List String

-- The workflow that the session shares with others, as far as its keys are there.
pub record Membership : Type 0 where
  pub member_namespace_id : Option String
  pub member_application_instance_id : Option String
  pub member_workflow_id : Option String

pub record AttemptSession : Type 0 where
  pub controller : Option Tracker
  pub descriptors : Dict AttemptDescriptor
  pub semantics : Dict AttemptSemanticDescriptor
  pub failures : List String
  pub shared_branch_ledger : Option Table
  pub shared_workflow_membership : Membership
  pub evidence_ledger : Dict EvidenceRecord
  -- The result class of every host invocation, by its number.
  pub host_invocations : Dict (Option String)
  pub task_evidence : TaskEvidence
  -- None while an external authority owns the behaviour.
  pub attention_state : Option Attention

-- `x or ""`
abbrev pub text_or_blank : Option String → String
text_or_blank none = ""
text_or_blank (some s) = s

-- `str(membership[k])`
abbrev pub required_key : Option String → Result String
required_key none = err key_error
required_key (some s) = ok s

-- The ledger, if there is one and the session is a member of a workflow.
unfoldable pub shared_ledger : AttemptSession → Option Table
shared_ledger s =
    if text_or_blank s.shared_workflow_membership.member_workflow_id == ""
    then none
    else s.shared_branch_ledger

-- The scope that is asked for, with missing keys blank.
unfoldable pub asked_scope : Membership → AttemptDescriptor → Scope
asked_scope m d = record {
  namespace_id = text_or_blank m.member_namespace_id;
  application_instance_id = text_or_blank m.member_application_instance_id;
  workflow_id = text_or_blank m.member_workflow_id;
  cause_id = d.cause_id;
  premise_digest = d.premise_digest;
}
