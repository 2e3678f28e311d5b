-- ===== src/Actions/Binding.antt =====
-- scripts/runtime_contract/actions.py: `ActionObjectiveBinding`, what a host says one action is for.
-- SHA-256 and the JSON text of what is hashed are parameters.
use cognitive_frame_works.Prelude.{
  ℕ, String, Option, List, [], ◌∷◌, Bool, not, ◌&&◌, ◌||◌, length, all, all_true, leb, one_of,
  is_empty, is_bounded_text, ◌==◌,
}
use cognitive_frame_works.Prelude.Result.{Result, ok, value_error, guard, ◌>>◌}
use cognitive_frame_works.Prelude.Dict.{Dict, get}
use cognitive_frame_works.Attention.Facts.{is_digest}
use cognitive_frame_works.StandaloneBehavior.Policy.{are_distinct}

unfoldable pub action_objective_purposes : List String
action_objective_purposes =
    "DIRECT_GOAL" ∷ "BLOCKER_REMOVAL" ∷ "REQUIRED_VERIFICATION" ∷ "DIAGNOSTIC" ∷ "INCIDENTAL" ∷ []

unfoldable pub action_objective_relations : Dict String
action_objective_relations =
    ("DIRECT_GOAL", "advances_primary_goal")
    ∷ ("BLOCKER_REMOVAL", "removes_concrete_blocker")
    ∷ ("REQUIRED_VERIFICATION", "required_verification")
    ∷ ("DIAGNOSTIC", "diagnostic_support")
    ∷ ("INCIDENTAL", "unrelated")
    ∷ []

-- What the digest of a binding is taken of.
pub record BindingContents : Type 0 where
  pub bound_action_digest : String
  pub purpose_class : String
  pub objective_criterion_ids : List String
  pub objective_cause_id : String
  pub objective_artifact_revision : Option ℕ

pub record ActionObjectiveBinding : Type 0 where
  pub contents : BindingContents
  pub binding_digest : String

unfoldable pub needs_criterion : List String
needs_criterion = "DIRECT_GOAL" ∷ "REQUIRED_VERIFICATION" ∷ []

-- The tests of `__post_init__` before the digest.
unfoldable pub is_valid_contents : BindingContents → Bool
is_valid_contents c = all_true (
    is_digest c.bound_action_digest
    ∷ one_of c.purpose_class action_objective_purposes
    ∷ is_bounded_text 256 c.objective_cause_id
    ∷ leb (length c.objective_criterion_ids) 8
    ∷ are_distinct c.objective_criterion_ids
    ∷ all (is_bounded_text 128) c.objective_criterion_ids
    ∷ not (one_of c.purpose_class needs_criterion && is_empty c.objective_criterion_ids)
    ∷ [])

-- The property `goal_relation`, with none for a `KeyError`.
unfoldable pub goal_relation_of : BindingContents → Option String
goal_relation_of c = get action_objective_relations c.purpose_class

module _ (sha256 : String → String) (dumps : BindingContents → String) where
  -- `_digest`
  unfoldable pub contents_digest : BindingContents → String
  contents_digest c = sha256 (dumps c)

  -- `__post_init__`: an empty digest is filled in, any other must be the right one.
  unfoldable pub make_objective_binding : ActionObjectiveBinding → Result ActionObjectiveBinding
  make_objective_binding b = do
    guard (is_valid_contents b.contents) value_error
    guard (b.binding_digest == "" || b.binding_digest == contents_digest b.contents) value_error
    ok (record b { binding_digest = contents_digest b.contents })
