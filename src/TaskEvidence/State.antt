-- ===== src/TaskEvidence/State.antt =====
-- scripts/runtime_contract/task_evidence.py: the state of `TaskEvidenceState`, its views, and
-- `ensure_criteria`. A dictionary of texts is a `Dict`; the one of the workflows, whose keys are
-- pairs, is a list of entries.
use cognitive_frame_works.Prelude.{
  or_text, ℕ, ◌+◌, String, Option, none, some, List, [], ◌∷◌, ◌++◌, Bool, ◌&&◌, ◌||◌, map, length,
  keep_if, keep_last, leb, ltb, ◌==◌, str_take, str_ltb, if◌then◌else◌,
}
use cognitive_frame_works.Prelude.Result.{Result, err, ok, value_error, guard, ◌>>◌}
use cognitive_frame_works.Prelude.Attempt.{attempt, proceed}
use cognitive_frame_works.Prelude.Dict.{Dict, get, put}
use cognitive_frame_works.Attention.Facts.{
  CriterionState, ActivityFact, AttemptSemanticDescriptor, check_criterion,
}
use cognitive_frame_works.TaskEvidence.Records.{
  BlockerFact, VerificationObligation, WorkflowProgressFact,
}

pub record TaskEvidence : Type 0 where
  pub activity_limit : ℕ
  pub important_limit : ℕ
  pub workflow_limit : ℕ
  pub failed_approach_limit : ℕ
  pub ordinary : List ActivityFact
  pub important : Dict ActivityFact
  pub workflows : List ((String × String) × WorkflowProgressFact)
  pub failed_approaches : List AttemptSemanticDescriptor
  pub next_sequence : ℕ
  pub known_criteria : Dict CriterionState
  pub active_blockers : Dict BlockerFact
  pub actions_since_artifact_change : Option ℕ
  pub verification_actions_since_artifact_change : ℕ
  pub artifact_revision : ℕ
  pub verification_counts : Dict ℕ
  pub verification_fingerprints : Dict ℕ
  pub logical_revision : ℕ
  pub verification_requirements : Dict (String × Option String)
  pub verification_obligations : Dict VerificationObligation

unfoldable pub new_task_evidence : ℕ → ℕ → ℕ → ℕ → Result TaskEvidence
new_task_evidence activity_limit important_limit workflow_limit failed_approach_limit = do
  guard
      (leb 1 activity_limit
        && leb activity_limit 8
        && leb 1 important_limit
        && leb important_limit 8
        && leb 1 workflow_limit
        && leb workflow_limit 8
        && leb 1 failed_approach_limit
        && leb failed_approach_limit 4)
      value_error
  ok (record {
    activity_limit = activity_limit;
    important_limit = important_limit;
    workflow_limit = workflow_limit;
    failed_approach_limit = failed_approach_limit;
    ordinary = [];
    important = [];
    workflows = [];
    failed_approaches = [];
    next_sequence = 0;
    known_criteria = [];
    active_blockers = [];
    actions_since_artifact_change = none;
    verification_actions_since_artifact_change = 0;
    artifact_revision = 0;
    verification_counts = [];
    verification_fingerprints = [];
    logical_revision = 0;
    verification_requirements = [];
    verification_obligations = [];
  })

-- Inserts before the first item that stands after it, so that `sorted` keeps the order of items
-- with equal keys.
unfoldable pub insert_sorted {ℓ} : {A : Type ℓ} → (A → A → Bool) → A → List A → List A
insert_sorted before x [] = x ∷ []
insert_sorted before x (y ∷ ys) = if before y x then y ∷ insert_sorted before x ys else x ∷ y ∷ ys

unfoldable pub sort_items {ℓ} : {A : Type ℓ} → (A → A → Bool) → List A → List A
sort_items before [] = []
sort_items before (x ∷ xs) = insert_sorted before x (sort_items before xs)

unfoldable pub values {ℓ} : {A : Type ℓ} → Dict A → List A
values d = map (λ e. e.1) d

-- `criteria`
unfoldable pub criteria_view : TaskEvidence → List CriterionState
criteria_view s =
    sort_items (λ a b. str_ltb a.criterion_id b.criterion_id) (values s.known_criteria)

-- `workflows`
unfoldable pub workflows_view : TaskEvidence → List WorkflowProgressFact
workflows_view s =
    sort_items
      (λ a b.
        str_ltb a.statework_id b.statework_id
        || (a.statework_id == b.statework_id) && str_ltb a.subject_ref b.subject_ref)
      (map (λ e. e.1) s.workflows)

-- `recent_activity`
unfoldable pub recent_activity : TaskEvidence → List ActivityFact
recent_activity s =
    keep_last 16 (sort_items (λ a b. ltb a.sequence b.sequence) (values s.important ++ s.ordinary))

-- `blockers`
unfoldable pub blockers_view : TaskEvidence → List BlockerFact
blockers_view s = sort_items (λ a b. str_ltb a.blocker_id b.blocker_id) (values s.active_blockers)

-- `verification_obligations`
unfoldable pub obligations_view : TaskEvidence → List VerificationObligation
obligations_view s =
    sort_items (λ a b. str_ltb a.owed_criterion_id b.owed_criterion_id)
      (values s.verification_obligations)

unfoldable pub is_pending : VerificationObligation → Bool
is_pending o = o.obligation_status == "PENDING"

unfoldable pub pending_verification_obligations : TaskEvidence → List VerificationObligation
pending_verification_obligations s = keep_if is_pending (obligations_view s)

unfoldable pub mark_host_state_transition : TaskEvidence → TaskEvidence
mark_host_state_transition s = record s { logical_revision = s.logical_revision + 1 }

-- An acceptance criterion of the goal contract; a field that is missing or empty is the empty
-- text.
pub record DeclaredCriterion : Type 0 where
  pub declared_id : String
  pub declared_claim : String
  pub declared_kind : String
  pub verification_strength : String
  pub declared_evidence_kind : String
  pub required_evidence_kind : String

-- `a or b` for texts.
abbrev pub text_or_none : String → Option String
text_or_none s = if s == "" then none else some s

unfoldable pub declared_requirement : DeclaredCriterion → String × Option String
declared_requirement c = (
  or_text c.verification_strength "host_observation",
  text_or_none (or_text c.declared_evidence_kind c.required_evidence_kind),
)

unfoldable pub declared_state : DeclaredCriterion → CriterionState
declared_state c = record {
  criterion_id = str_take 128 c.declared_id;
  claim = str_take 512 c.declared_claim;
  kind = str_take 64 c.declared_kind;
  status = "unmet";
  evidence_status = "none";
  evidence_ref_digests = [];
  last_progress_sequence = none;
}

unfoldable pub require_verification : DeclaredCriterion → String → TaskEvidence → TaskEvidence
require_verification c k s = record s {
  verification_requirements = put s.verification_requirements k (declared_requirement c);
}

unfoldable pub require_once :
    Option (String × Option String) → DeclaredCriterion → String → TaskEvidence → TaskEvidence
require_once none c k s = require_verification c k s
require_once (some r) c k s = s

-- One criterion of the loop of `ensure_criteria`.
unfoldable pub ensure_known :
    DeclaredCriterion
    → String
    → Option CriterionState
    → TaskEvidence
    → Result (Unit {0}) × TaskEvidence
ensure_known c k (some current) s = (ok tt, require_once (get s.verification_requirements k) c k s)
ensure_known c k none s = attempt (check_criterion (declared_state c)) s λ state. (
  ok tt,
  require_verification c k (record s {
    known_criteria = put s.known_criteria k state;
    logical_revision = s.logical_revision + 1;
  }),
)

unfoldable pub ensure_criterion :
    DeclaredCriterion → TaskEvidence → Result (Unit {0}) × TaskEvidence
ensure_criterion c s =
    let k = str_take 128 c.declared_id in
    if k == "" then (ok tt, s) else ensure_known c k (get s.known_criteria k) s

unfoldable pub ensure_each :
    List DeclaredCriterion → TaskEvidence → Result (Unit {0}) × TaskEvidence
ensure_each [] s = (ok tt, s)
ensure_each (c ∷ cs) s = proceed (ensure_criterion c s) λ u t. ensure_each cs t

unfoldable pub ensure_criteria :
    List DeclaredCriterion → TaskEvidence → Result (Unit {0}) × TaskEvidence
ensure_criteria declared s =
    if ltb 256 (length declared) then (err value_error, s) else ensure_each declared s
