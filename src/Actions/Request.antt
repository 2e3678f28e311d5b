-- ===== src/Actions/Request.antt =====
-- scripts/runtime_contract/actions.py: the request of a model and its digest. SHA-256, the JSON
-- text and `os.path.normpath` are parameters.
use cognitive_frame_works.Prelude.{
  String, Option, none, some, List, [], ◌∷◌, ◌==◌, str_take, if◌then◌else◌,
}
use cognitive_frame_works.Prelude.Result.{Result, err, ok, value_error}
use cognitive_frame_works.Prelude.Dict.{Dict, get, put}
use cognitive_frame_works.Actions.Values.{Values, first_truthy}
use cognitive_frame_works.Actions.Paths.{target_keys}
use cognitive_frame_works.Actions.Descriptor.{AgentActionRequest}

module _ {V : Type 0} (values : Values V) where
  module _ (normpath : String → String) where
    unfoldable pub normalize_text : String → Option String → Dict V → Dict V
    normalize_text k none arguments = arguments
    normalize_text k (some s) arguments =
        if s == "" then arguments else put arguments k (values.from_text (normpath s))

    unfoldable pub normalize_key : String → Option V → Dict V → Dict V
    normalize_key k none arguments = arguments
    normalize_key k (some x) arguments = normalize_text k (values.as_text x) arguments

    unfoldable pub normalize_keys : List String → Dict V → Dict V
    normalize_keys [] arguments = arguments
    normalize_keys (k ∷ ks) arguments =
        normalize_keys ks (normalize_key k (get arguments k) arguments)

    -- `_normalized_arguments`
    unfoldable pub normalized_arguments : Dict V → Dict V
    normalized_arguments arguments = normalize_keys target_keys arguments

    unfoldable pub action_digest :
        (String → String)
        → (String → Dict V → Option String → String)
        → AgentActionRequest V
        → String
    action_digest sha256 dumps q =
        sha256 (dumps q.binding_id (normalized_arguments q.arguments) q.subject_ref)

  unfoldable pub subject_text : Option V → Option String
  subject_text none = none
  subject_text (some x) = if values.is_null x then none else some (values.text_of x)

  -- `action.get(k, default)`
  abbrev pub get_or : Option V → Option V → Option V
  get_or none default = default
  get_or (some x) default = some x

  unfoldable pub requested :
      Option String → Option (Dict V) → Dict V → Result (AgentActionRequest V)
  requested none arguments action = err value_error
  requested (some tool) none action = err value_error
  requested (some tool) (some arguments) action =
      if tool == ""
      then err value_error
      else ok (record {
        binding_id = str_take 128 tool;
        arguments = arguments;
        subject_ref = subject_text (get_or (get action "subject_ref") (get action "subject"));
      })

  abbrev pub text_in : Option V → Option String
  text_in none = none
  text_in (some x) = values.as_text x

  abbrev pub mapping_in : Option V → Option (Dict V)
  mapping_in none = some []
  mapping_in (some x) = values.as_mapping x

  -- `from_mapping`
  unfoldable pub request_from_mapping : Dict V → Result (AgentActionRequest V)
  request_from_mapping action =
      requested
        (text_in (first_truthy values action ("tool_binding_id" ∷ "tool" ∷ "tool_type" ∷ [])))
        (mapping_in (get action "arguments")) action
