-- ===== src/Actions/Descriptor.antt =====
-- scripts/runtime_contract/actions.py: `ActionDescriptor`, what the host knows of a tool, and how a
-- request makes it stricter. `str.lower` is a parameter.
use cognitive_frame_works.Prelude.{
  String, Option, none, some, List, [], ◌∷◌, Bool, true, false, not, ◌&&◌, ◌||◌, length, any, all,
  all_true, leb, one_of, is_bounded, is_bounded_text, starts_with, is_part, ◌==◌, if◌then◌else◌,
}
use cognitive_frame_works.Prelude.Result.{Result, ok, value_error, guard, ◌>>◌}
use cognitive_frame_works.Prelude.Dict.{Dict, get}
use cognitive_frame_works.Convergence.Identity.{optional}
use cognitive_frame_works.Actions.Values.{Values, first_truthy}
use cognitive_frame_works.Actions.Paths.{target_keys}

pub record ActionDescriptor : Type 0 where
  pub tool_type : String
  pub mutability : String
  pub target_subject : Option String
  pub trust_boundary : String
  pub blast_radius : String
  pub reversibility : String
  pub secret_access : Bool
  pub network_effect : Bool
  pub destructive : Bool
  pub outside_scope : Bool
  pub untrusted : Bool
  pub required_authority : Option String
  pub allowed_authorities : List String
  pub required_capabilities : List String
  pub goal_relation : String
  pub goal_intent : Option String
  pub described_action_class : Option String
  pub described_target_kind : Option String
  pub described_target_scope : Option String
  pub described_criterion_ids : List String

unfoldable pub goal_relations : List String
goal_relations =
    "advances_primary_goal" ∷ "removes_concrete_blocker" ∷ "required_verification"
    ∷ "diagnostic_support" ∷ "unrelated" ∷ "ambiguous" ∷ []

-- `__post_init__`
unfoldable pub is_valid_descriptor : ActionDescriptor → Bool
is_valid_descriptor d = all_true (
    one_of d.goal_relation goal_relations
    ∷ optional (is_bounded_text 256) d.goal_intent
    ∷ optional (is_bounded_text 64) d.described_action_class
    ∷ optional (is_bounded_text 64) d.described_target_kind
    ∷ optional (is_bounded_text 64) d.described_target_scope
    ∷ leb (length d.described_criterion_ids) 8
    ∷ all (is_bounded 128) d.described_criterion_ids
    ∷ [])

unfoldable pub check_action_descriptor : ActionDescriptor → Result ActionDescriptor
check_action_descriptor d = do guard (is_valid_descriptor d) value_error; ok d

-- `AgentActionRequest`
pub record AgentActionRequest (V : Type 0) : Type 0 where
  pub binding_id : String
  pub arguments : Dict V
  pub subject_ref : Option String

-- `d.required_authority or "operator"`
abbrev pub or_operator : Option String → String
or_operator none = "operator"
or_operator (some a) = if a == "" then "operator" else a

-- The descriptor names a subject, and the request another one.
unfoldable pub is_other_subject : Option String → Option String → Bool
is_other_subject none ref = false
is_other_subject (some s) none = false
is_other_subject (some s) (some r) = not (s == "") && not (r == s)

unfoldable pub sensitive_tokens : List String
sensitive_tokens = "secret" ∷ "credential" ∷ "password" ∷ "token" ∷ "api_key" ∷ ".ssh" ∷ []

unfoldable pub is_sensitive : (String → String) → String → Bool
is_sensitive lower target =
    any (λ p. starts_with p target) ("/etc/" ∷ "/var/" ∷ "/root/" ∷ [])
    || any (λ p. starts_with p (lower target)) ("prod:" ∷ "production:" ∷ [])
    || any (λ t. is_part t (lower target)) sensitive_tokens

unfoldable pub outside : ActionDescriptor → ActionDescriptor
outside d = record d { outside_scope = true }

unfoldable pub secret : ActionDescriptor → ActionDescriptor
secret d = record d {
  secret_access = true;
  required_authority = some (or_operator d.required_authority);
}

unfoldable pub networked : ActionDescriptor → ActionDescriptor
networked d = record d {
  network_effect = true;
  required_authority = some (or_operator d.required_authority);
}

module _ {V : Type 0} (values : Values V) (lower : String → String) where
  abbrev pub text_or_empty : Option V → String
  text_or_empty none = ""
  text_or_empty (some x) = values.text_of x

  unfoldable pub request_target : Dict V → String
  unfolding target_keys
  request_target arguments = text_or_empty (first_truthy values arguments target_keys)

  unfoldable pub is_production : Dict V → Bool
  is_production arguments =
      one_of (lower (text_or_empty (get arguments "environment"))) ("prod" ∷ "production" ∷ [])

  unfoldable pub for_request : ActionDescriptor → AgentActionRequest V → Result ActionDescriptor
  for_request d q =
      if is_other_subject d.target_subject q.subject_ref
      then check_action_descriptor (outside d)
      else if is_sensitive lower (request_target q.arguments)
      then check_action_descriptor (secret d)
      else if d.network_effect || is_production q.arguments
      then check_action_descriptor (networked d)
      else ok d
