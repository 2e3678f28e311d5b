-- ===== src/Actions/Examples.antt =====
-- The theorems about scripts/runtime_contract/actions.py at concrete inputs.
use cognitive_frame_works.Prelude.{
  String, none, some, List, [], ◌∷◌, ◌++◌, true, false, not, ◌≡◌, ◌≢◌, ◌↔◌, refl, one_of, is_ascii,
  ◌==◌, ◌||◌, str_len, is_bounded_text, is_blank,
}
use cognitive_frame_works.Prelude.Result.{err, ok, value_error, type_error}
use cognitive_frame_works.Prelude.Dict.{Dict, get, put}
use cognitive_frame_works.Attention.Facts.{is_digest, all_hex}
use cognitive_frame_works.StandaloneBehavior.Policy.{are_distinct}
use cognitive_frame_works.Actions.Values.{Values, first_truthy}
use cognitive_frame_works.Actions.Paths.{
  FileSystem, ProtectedResourcePolicy, classify_write, target_path, target_keys, text_target,
  located, placed, resolved, base_root, classify_target, is_inside, is_relative_to,
}
use cognitive_frame_works.Actions.Writes.{MayWrite, classify_write-authorized_iff}
use cognitive_frame_works.Actions.Descriptor.{
  ActionDescriptor, AgentActionRequest, check_action_descriptor, is_valid_descriptor,
  goal_relations, for_request, is_sensitive, is_production, request_target,
}
use cognitive_frame_works.Actions.Classification.{IsStricter, IsHeld, for_request-IsStricter}
use cognitive_frame_works.Actions.Registry.{
  plain_descriptor, default_action_registry, effective_action_registry, extend_registry,
  admit_binding, admit_over, same_descriptor,
}
use cognitive_frame_works.Actions.Lookup.{
  or_else, effective_action_registry-lookup, redefinition_is_refused,
}
use cognitive_frame_works.Actions.Binding.{
  BindingContents, ActionObjectiveBinding, make_objective_binding, is_valid_contents,
  contents_digest, action_objective_purposes, needs_criterion, goal_relation_of,
}
use cognitive_frame_works.Actions.Signing.{
  tampered_binding_is_refused, make_objective_binding-goal_relation,
}
use cognitive_frame_works.Actions.Grants.{
  GrantContents, ConfirmationGrant, GrantUse, Clock, create_grant, is_in_context, is_current,
  is_between, is_valid_for, is_signed, compare_digest, confirmation_for,
}
use cognitive_frame_works.Actions.Confirmation.{
  Authorizes, confirmed_action_was_granted, created_grant_confirms, incomparable_time_raises,
}

-- Arguments that are texts.
abbrev texts : Values String
texts = record {
  is_truthy = λ s. not (s == "");
  is_null = λ s. false;
  text_of = λ s. s;
  as_text = λ s. some s;
  as_mapping = λ s. none;
  from_text = λ s. s;
}

-- A file system in which every path has one part.
abbrev flat : FileSystem (List String)
flat = record {
  path = λ s. s ∷ [];
  expand_user = λ p. ok p;
  is_absolute = λ p. false;
  join_path = λ p q. p ++ q;
  working_directory = ok [];
  resolve_path = λ p. ok p;
  parts = λ p. p;
}

abbrev repository_policy : ProtectedResourcePolicy
repository_policy = record {
  protected_roots = "contracts" ∷ [];
  authorized_write_roots = "repository" ∷ [];
}

abbrev write_arguments : Dict String
write_arguments = ("path", "main.py") ∷ []

classify_write-authorized_iff_example :
    (classify_write flat texts repository_policy write_arguments ≡ ok "authorized")
    ↔ MayWrite flat texts repository_policy write_arguments
classify_write-authorized_iff_example =
    classify_write-authorized_iff flat texts repository_policy write_arguments

write_test : classify_write flat texts repository_policy write_arguments ≡ ok "authorized"
unfolding classify_write target_path target_keys first_truthy get text_target is_blank located
    placed resolved base_root classify_target is_inside is_relative_to
write_test = refl

abbrev read_descriptor : ActionDescriptor
unfolding plain_descriptor
read_descriptor = plain_descriptor "read"

abbrev secret_request : AgentActionRequest String
secret_request = record {
  binding_id = "read";
  arguments = ("path", "/etc/passwd") ∷ [];
  subject_ref = none;
}

read_descriptor_test : check_action_descriptor read_descriptor ≡ ok read_descriptor
unfolding check_action_descriptor is_valid_descriptor goal_relations read_descriptor
read_descriptor_test = refl

for_request-IsStricter_example :
    (e : ActionDescriptor) × (for_request texts (λ s. s) read_descriptor secret_request ≡ ok e)
    × IsStricter read_descriptor e
    × ((is_sensitive (λ s. s) (request_target texts (λ s. s) secret_request.arguments)
            || (read_descriptor.network_effect
                || is_production texts (λ s. s) secret_request.arguments))
          ≡ true
        → IsHeld e)
for_request-IsStricter_example =
    for_request-IsStricter texts (λ s. s) read_descriptor secret_request read_descriptor_test

abbrev lint_registry : Dict ActionDescriptor
unfolding default_action_registry put plain_descriptor
lint_registry = put default_action_registry "lint" (plain_descriptor "lint")

abbrev lint_extension : Dict ActionDescriptor
unfolding plain_descriptor
lint_extension = ("read", read_descriptor) ∷ ("lint", plain_descriptor "lint") ∷ []

lint_registry_test : effective_action_registry lint_extension ≡ ok lint_registry
unfolding effective_action_registry extend_registry admit_binding admit_over same_descriptor
    default_action_registry get put plain_descriptor
lint_registry_test = refl

effective_action_registry-lookup_example :
    get lint_registry "lint"
    ≡ or_else (get default_action_registry "lint") (get lint_extension "lint")
effective_action_registry-lookup_example =
    effective_action_registry-lookup lint_extension "lint" lint_registry_test

abbrev harmless_shell : ActionDescriptor
unfolding plain_descriptor
harmless_shell = plain_descriptor "shell"

abbrev host_shell : ActionDescriptor
unfolding plain_descriptor
host_shell = record (plain_descriptor "shell") {
  mutability = "execute";
  required_authority = some "operator";
  untrusted = true;
}

host_shell_test : get default_action_registry "shell" ≡ some host_shell
unfolding get default_action_registry
host_shell_test = refl

other_shell_test : same_descriptor harmless_shell host_shell ≡ false
unfolding same_descriptor harmless_shell host_shell
other_shell_test = refl

redefinition_is_refused_example :
    effective_action_registry (lint_extension ++ (("shell", harmless_shell) ∷ [])) ≡ err value_error
redefinition_is_refused_example =
    redefinition_is_refused lint_extension [] "shell" harmless_shell host_shell host_shell_test
      other_shell_test

abbrev hex : String
hex = "00112233445566778899aabbccddeeff00112233445566778899aabbccddeeff"

abbrev build_contents : BindingContents
build_contents = record {
  bound_action_digest = hex;
  purpose_class = "REQUIRED_VERIFICATION";
  objective_criterion_ids = "build" ∷ [];
  objective_cause_id = "cause";
  objective_artifact_revision = some 3;
}

abbrev unsealed : ActionObjectiveBinding
unsealed = record { contents = build_contents; binding_digest = "" }

abbrev sealed_build : ActionObjectiveBinding
sealed_build = record { contents = build_contents; binding_digest = "cause" }

unsealed_test :
    make_objective_binding (λ s. s) (λ c. c.objective_cause_id) unsealed ≡ ok sealed_build
unfolding make_objective_binding is_valid_contents contents_digest action_objective_purposes
    needs_criterion is_digest all_hex are_distinct is_bounded_text is_blank str_len
unsealed_test = refl

sealed_test :
    make_objective_binding (λ s. s) (λ c. c.objective_cause_id) sealed_build ≡ ok sealed_build
unfolding make_objective_binding is_valid_contents contents_digest action_objective_purposes
    needs_criterion is_digest all_hex are_distinct is_bounded_text is_blank str_len
sealed_test = refl

cause_digest_test : contents_digest (λ s. s) (λ c. c.objective_cause_id) build_contents ≢ ""
unfolding contents_digest
cause_digest_test h = cc

tampered_binding_is_refused_example : sealed_build ≡ sealed_build
tampered_binding_is_refused_example =
    tampered_binding_is_refused (λ s. s) (λ c. c.objective_cause_id) unsealed sealed_build
      (λ e. refl) cause_digest_test unsealed_test refl sealed_test

make_objective_binding-goal_relation_example :
    (relation : String) × (goal_relation_of build_contents ≡ some relation)
    × (one_of relation goal_relations ≡ true)
make_objective_binding-goal_relation_example =
    make_objective_binding-goal_relation (λ s. s) (λ c. c.objective_cause_id) unsealed unsealed_test

abbrev delete_grant : GrantContents
delete_grant = record {
  grant_id = "grant-1";
  actor_id = "operator";
  granted_action_digest = "digest";
  grant_scope = "task";
  issued_at = "start";
  expires_at = "end";
  grant_task_id = some "t";
  grant_policy_hash = some "p";
  grant_session_nonce = some "n";
}

abbrev delete_use : GrantUse
delete_use = record {
  principal = "operator";
  task_scope = "task";
  used_task_id = some "t";
  used_policy_hash = some "p";
  used_session_nonce = some "n";
}

abbrev mac : GrantContents → String
mac c = c.grant_id

-- A clock on which everything is now, and one on which nothing can be compared.
abbrev still_clock : Clock (Unit {0})
still_clock = record { instant = λ s. some tt; is_not_after = λ a b. ok true }

abbrev naive_clock : Clock (Unit {0})
naive_clock = record { instant = λ s. some tt; is_not_after = λ a b. err type_error }

abbrev delete_grants : List ConfirmationGrant
delete_grants = record { signed = delete_grant; signature = "grant-1" } ∷ []

mac_test : is_ascii (mac delete_grant) ≡ true
unfolding is_ascii
mac_test = refl

context_test : is_in_context delete_grant delete_use ≡ true
unfolding is_in_context
context_test = refl

current_test : is_current mac still_clock delete_grant tt ≡ ok true
unfolding is_current is_between
current_test = refl

incomparable_test : is_current mac naive_clock delete_grant tt ≡ err type_error
unfolding is_current is_between
incomparable_test = refl

created_grant_confirms_example :
    confirmation_for mac still_clock (create_grant mac delete_grant ∷ []) "digest" delete_use [] tt
    ≡ ok (some (create_grant mac delete_grant))
created_grant_confirms_example =
    created_grant_confirms mac still_clock delete_grant [] delete_use [] tt refl mac_test
      context_test current_test refl

confirmed_test :
    confirmation_for mac still_clock delete_grants "digest" delete_use [] tt
    ≡ ok (some (record { signed = delete_grant; signature = "grant-1" }))
unfolding confirmation_for is_valid_for is_in_context is_signed compare_digest is_ascii is_current
    is_between
confirmed_test = refl

confirmed_action_was_granted_example :
    (delete_grant ≡ delete_grant)
    × Authorizes mac still_clock
        (record { signed = delete_grant; signature = "grant-1" })
        "digest"
        delete_use
        tt
    × (one_of "grant-1" [] ≡ false)
confirmed_action_was_granted_example =
    confirmed_action_was_granted mac still_clock (λ c. c ≡ delete_grant) delete_grants "digest"
      delete_use [] tt ((delete_grant, refl, refl, λ e. refl), tt) confirmed_test

incomparable_time_raises_example :
    confirmation_for mac naive_clock (create_grant mac delete_grant ∷ []) "digest" delete_use [] tt
    ≡ err type_error
incomparable_time_raises_example =
    incomparable_time_raises mac naive_clock delete_grant [] delete_use [] tt refl mac_test
      context_test incomparable_test refl
