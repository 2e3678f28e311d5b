-- ===== src/Actions/Registry.antt =====
-- scripts/runtime_contract/actions.py: the bindings of the host, and those that a caller may add.
use cognitive_frame_works.Prelude.{
  String, Option, none, some, List, [], ◌∷◌, Bool, true, false, all_true, ◌==◌, if◌then◌else◌,
}
use cognitive_frame_works.Prelude.Result.{Result, err, ok, value_error, ◌>>=◌}
use cognitive_frame_works.Prelude.Dict.{Dict, get, put}
use cognitive_frame_works.Convergence.Transitions.{option_eq}
use cognitive_frame_works.Actions.Descriptor.{ActionDescriptor}

-- `ActionDescriptor(tool)` with the defaults of its fields.
unfoldable pub plain_descriptor : String → ActionDescriptor
plain_descriptor tool = record {
  tool_type = tool;
  mutability = "read";
  target_subject = none;
  trust_boundary = "local";
  blast_radius = "task";
  reversibility = "reversible";
  secret_access = false;
  network_effect = false;
  destructive = false;
  outside_scope = false;
  untrusted = false;
  required_authority = none;
  allowed_authorities = [];
  required_capabilities = [];
  goal_relation = "ambiguous";
  goal_intent = none;
  described_action_class = none;
  described_target_kind = none;
  described_target_scope = none;
  described_criterion_ids = [];
}

abbrev operated : String → String → ActionDescriptor
unfolding plain_descriptor
operated tool mutability = record (plain_descriptor tool) {
  mutability = mutability;
  required_authority = some "operator";
}

unfoldable pub default_action_registry : Dict ActionDescriptor
unfolding plain_descriptor
default_action_registry =
    ("read", plain_descriptor "read")
    ∷ ("inspect", plain_descriptor "inspect")
    ∷ ("test", plain_descriptor "test")
    ∷ ("write", record (plain_descriptor "write") { mutability = "write" })
    ∷ ("mutate", operated "mutate" "mutate")
    ∷ (
      "delete",
      record (operated "delete" "delete") { destructive = true; reversibility = "irreversible" },
    )
    ∷ (
      "deploy",
      record (operated "deploy" "deploy") { outside_scope = true; network_effect = true },
    )
    ∷ ("shell", record (operated "shell" "execute") { untrusted = true })
    ∷ []

abbrev pub bool_eq : Bool → Bool → Bool
bool_eq true b = b
bool_eq false true = false
bool_eq false false = true

abbrev pub texts_eq : List String → List String → Bool
texts_eq [] [] = true
texts_eq (x ∷ xs) (y ∷ ys) = if x == y then texts_eq xs ys else false
texts_eq _ _ = false

-- `==` of the data class
unfoldable pub same_descriptor : ActionDescriptor → ActionDescriptor → Bool
same_descriptor d e = all_true (
    (d.tool_type == e.tool_type)
    ∷ (d.mutability == e.mutability)
    ∷ option_eq d.target_subject e.target_subject
    ∷ (d.trust_boundary == e.trust_boundary)
    ∷ (d.blast_radius == e.blast_radius)
    ∷ (d.reversibility == e.reversibility)
    ∷ bool_eq d.secret_access e.secret_access
    ∷ bool_eq d.network_effect e.network_effect
    ∷ bool_eq d.destructive e.destructive
    ∷ bool_eq d.outside_scope e.outside_scope
    ∷ bool_eq d.untrusted e.untrusted
    ∷ option_eq d.required_authority e.required_authority
    ∷ texts_eq d.allowed_authorities e.allowed_authorities
    ∷ texts_eq d.required_capabilities e.required_capabilities
    ∷ (d.goal_relation == e.goal_relation)
    ∷ option_eq d.goal_intent e.goal_intent
    ∷ option_eq d.described_action_class e.described_action_class
    ∷ option_eq d.described_target_kind e.described_target_kind
    ∷ option_eq d.described_target_scope e.described_target_scope
    ∷ texts_eq d.described_criterion_ids e.described_criterion_ids
    ∷ [])

-- A binding that is there already may only be declared as it is; a new one names its own tool.
unfoldable pub admit_over :
    String
    → ActionDescriptor
    → Option ActionDescriptor
    → Dict ActionDescriptor
    → Result (Dict ActionDescriptor)
admit_over k d (some e) registry = if same_descriptor d e then ok registry else err value_error
admit_over k d none registry = if d.tool_type == k then ok (put registry k d) else err value_error

unfoldable pub admit_binding :
    String → ActionDescriptor → Dict ActionDescriptor → Result (Dict ActionDescriptor)
admit_binding k d registry =
    if k == "" then err value_error else admit_over k d (get registry k) registry

unfoldable pub extend_registry :
    Dict ActionDescriptor → Dict ActionDescriptor → Result (Dict ActionDescriptor)
extend_registry [] registry = ok registry
extend_registry ((k, d) ∷ extensions) registry =
    admit_binding k d registry >>= λ r. extend_registry extensions r

unfoldable pub effective_action_registry : Dict ActionDescriptor → Result (Dict ActionDescriptor)
effective_action_registry extensions = extend_registry extensions default_action_registry
