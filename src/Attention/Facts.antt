-- ===== src/Attention/Facts.antt =====
-- scripts/runtime_contract/behavior_facts.py: `CriterionState`, `ActivityFact` and
-- `AttemptSemanticDescriptor`, the facts that attention reads. The constructors check what
-- `__post_init__` checks; a field that must not be negative is a natural number.
use cognitive_frame_works.Prelude.{
  all_true, ℕ, String, Option, none, some, List, [], ◌∷◌, Bool, true, ◌&&◌, ◌||◌, all, length, leb,
  eqb, one_of, is_bounded_text, str_len,
}
use cognitive_frame_works.Prelude.Result.{Result, ok, value_error, guard, ◌>>◌}
use Prim.Native.Char.{code}

abbrev pub is_optional : (String → Bool) → Option String → Bool
is_optional p none = true
is_optional p (some s) = p s

-- `_bounded_text` with `optional=True`
unfoldable pub is_optional_text : ℕ → Option String → Bool
is_optional_text limit s = is_optional (is_bounded_text limit) s

abbrev pub is_hex : ℕ → Bool
is_hex c = (leb 48 c && leb c 57) || (leb 97 c && leb c 102)

unfoldable pub all_hex : String → Bool
all_hex String.[] = true
all_hex (String.◌∷◌ c s) = is_hex (code c) && all_hex s

-- `_digest`
unfoldable pub is_digest : String → Bool
is_digest s = eqb (str_len s) 64 && all_hex s

unfoldable pub fact_sources : List String
fact_sources =
    "host_observed" ∷ "csw_authoritative" ∷ "validator" ∷ "operator" ∷ "model_proposed" ∷ "derived"
    ∷ []

unfoldable pub criterion_statuses : List String
criterion_statuses = "unmet" ∷ "active" ∷ "partially_observed" ∷ "satisfied" ∷ "blocked" ∷ []

unfoldable pub evidence_statuses : List String
evidence_statuses = "none" ∷ "available" ∷ "verified" ∷ "invalidated" ∷ []

unfoldable pub action_relations : List String
action_relations =
    "advances_primary_goal" ∷ "removes_concrete_blocker" ∷ "required_verification"
    ∷ "diagnostic_support" ∷ "unrelated" ∷ []

pub record CriterionState : Type 0 where
  pub criterion_id : String
  pub claim : String
  pub kind : String
  pub status : String
  pub evidence_status : String
  pub evidence_ref_digests : List String
  pub last_progress_sequence : Option ℕ

unfoldable pub check_criterion : CriterionState → Result CriterionState
check_criterion c = do
  guard
      (all_true (
        is_bounded_text 128 c.criterion_id
        ∷ is_bounded_text 512 c.claim
        ∷ is_bounded_text 64 c.kind
        ∷ (one_of c.status criterion_statuses && one_of c.evidence_status evidence_statuses)
        ∷ leb (length c.evidence_ref_digests) 8
        ∷ all is_digest c.evidence_ref_digests
        ∷ []))
      value_error
  ok c

pub record ActivityFact : Type 0 where
  pub sequence : ℕ
  pub activity_type : String
  pub source : String
  pub action_class : Option String
  pub host_declared_relation : Option String
  pub target_kind : Option String
  pub target_scope : Option String
  pub target_ref_digest : Option String
  pub proposed_purpose : Option String
  pub proposed_purpose_source : String
  pub affected_criterion_ids : List String
  pub result_class : Option String
  pub artifact_changed : Option Bool
  pub progress_class : Option String
  pub evidence_kinds : List String
  pub relation_certainty : Option String

unfoldable pub activity_types : List String
activity_types =
    "action" ∷ "tool_result" ∷ "validation" ∷ "state_transition" ∷ "workflow_progress" ∷ "retry"
    ∷ "goal_progress" ∷ "blocker" ∷ "operator_correction" ∷ []

unfoldable pub activity_progress_classes : List String
activity_progress_classes =
    "GOAL_PROGRESS" ∷ "BLOCKER_REMOVED" ∷ "DIAGNOSTIC_PROGRESS" ∷ "VERIFICATION_PROGRESS"
    ∷ "VALIDATION_EVIDENCE" ∷ "RECOVERY_PROGRESS" ∷ "WORKFLOW_PROGRESS" ∷ []

-- The conditions of `__post_init__`, in its order.
unfoldable pub activity_checks : ActivityFact → List Bool
activity_checks a =
    leb 1 a.sequence
    ∷ one_of a.activity_type activity_types
    ∷ (one_of a.source fact_sources && one_of a.proposed_purpose_source fact_sources)
    ∷ is_optional_text 64 a.action_class
    ∷ is_optional_text 64 a.target_kind
    ∷ is_optional_text 64 a.target_scope
    ∷ is_optional_text 256 a.proposed_purpose
    ∷ is_optional_text 64 a.result_class
    ∷ is_optional (λ s. one_of s ("ambiguous" ∷ action_relations)) a.host_declared_relation
    ∷ is_optional is_digest a.target_ref_digest
    ∷ (leb (length a.affected_criterion_ids) 8 && leb (length a.evidence_kinds) 8)
    ∷ all (is_bounded_text 128) a.affected_criterion_ids
    ∷ all (is_bounded_text 64) a.evidence_kinds
    ∷ is_optional (λ s. one_of s activity_progress_classes) a.progress_class
    ∷ (is_optional (λ s. one_of s ("explicit" ∷ "inferred" ∷ "unknown" ∷ [])) a.relation_certainty)
    ∷ []

unfoldable pub check_activity : ActivityFact → Result ActivityFact
check_activity a = do guard (all_true (activity_checks a)) value_error; ok a

pub record AttemptSemanticDescriptor : Type 0 where
  pub cause_class : String
  pub hypothesis_summary : String
  pub mechanism : String
  pub evidence_target : String
  pub planned_action_class : String
  pub planned_target_kind : String
  pub failed_result_class : String
  pub premise_digest : String
  pub action_plan_digest : String
  pub affected_criterion_ids : List String
  pub source : String

unfoldable pub check_descriptor : AttemptSemanticDescriptor → Result AttemptSemanticDescriptor
check_descriptor d = do
  guard
      (all_true (
        is_bounded_text 64 d.cause_class
        ∷ is_bounded_text 256 d.hypothesis_summary
        ∷ is_bounded_text 256 d.mechanism
        ∷ is_bounded_text 128 d.evidence_target
        ∷ is_bounded_text 64 d.planned_action_class
        ∷ is_bounded_text 64 d.planned_target_kind
        ∷ is_bounded_text 64 d.failed_result_class
        ∷ is_digest d.premise_digest
        ∷ is_digest d.action_plan_digest
        ∷ leb (length d.affected_criterion_ids) 8
        ∷ all (is_bounded_text 128) d.affected_criterion_ids
        ∷ one_of d.source ("model_proposed" ∷ "host_observed" ∷ "derived" ∷ [])
        ∷ []))
      value_error
  ok d
