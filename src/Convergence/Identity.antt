-- ===== src/Convergence/Identity.antt =====
-- scripts/runtime_contract/convergence.py: `AttemptDescriptor` and `ConvergenceIdentity`, the
-- execution-scoped key under which retry budgets are kept.
use cognitive_frame_works.Prelude.{
  String, Option, none, some, List, [], ◌∷◌, ◌++◌, Bool, true, ◌≡◌, refl, arith, all, is_bounded,
  is_bounded_text, ◌==◌, if◌then◌else◌, ◌≢◌, sym, ap, ◌∙◌, eq_iff,
}
use text.Mathlib.TextLemmas.{append_cancel_left}
use Prim.Native.String.{◌++◌ as str_append}
use cognitive_frame_works.Prelude.Result.{
  Result, ok, err, value_error, key_error, guard, guard-eq-ok, ◌>>=◌, ◌>>◌,
}

pub record AttemptDescriptor : Type 0 where
  pub attempt_ref : String
  pub cause_id : String
  pub premise_digest : String
  pub action_plan_digest : String
  pub parent_attempt_ref : Option String

-- An optional text is absent or passes the test.
abbrev pub optional : (String → Bool) → Option String → Bool
optional test none = true
optional test (some s) = test s

-- `AttemptDescriptor(...)` with `__post_init__`
unfoldable pub new_attempt :
    String → String → String → String → Option String → Result AttemptDescriptor
new_attempt attempt_ref cause_id premise action parent = do
  guard (all (is_bounded_text 256) (attempt_ref ∷ cause_id ∷ premise ∷ action ∷ [])) value_error
  guard (optional (is_bounded_text 256) parent) value_error
  ok (record {
    attempt_ref = attempt_ref;
    cause_id = cause_id;
    premise_digest = premise;
    action_plan_digest = action;
    parent_attempt_ref = parent;
  })

pub record ConvergenceIdentity : Type 0 where
  pub namespace_id : String
  pub application_instance_id : String
  pub agent_instance_id : String
  pub session_id : String
  pub task_id : String
  pub attempt_id : String
  pub interaction_id : Option String
  pub cause_id : String

abbrev pub required_fields : ConvergenceIdentity → List String
required_fields i =
    i.namespace_id ∷ i.application_instance_id ∷ i.agent_instance_id ∷ i.session_id ∷ i.task_id
    ∷ i.attempt_id ∷ i.cause_id ∷ []

-- `__post_init__`
unfoldable pub check_identity : ConvergenceIdentity → Result ConvergenceIdentity
check_identity i = do guard (all (is_bounded 256) (required_fields i)) value_error; ok i

-- `value or default`
abbrev pub or_default : Option String → String → String
or_default none d = d
or_default (some s) d = if s == "" then d else s

-- `value if value else None`
abbrev pub truthy : Option String → Option String
truthy none = none
truthy (some s) = if s == "" then none else some s

-- `sep.join(values)`
unfoldable pub join : String → List String → String
join sep [] = ""
join sep (x ∷ []) = x
join sep (x ∷ y ∷ rest) = str_append x (str_append sep (join sep (y ∷ rest)))

-- The parts of a key before the cause.
abbrev pub scope_fields : ConvergenceIdentity → List String
scope_fields i =
    i.namespace_id
    ∷ i.application_instance_id
    ∷ i.agent_instance_id
    ∷ i.session_id
    ∷ i.task_id
    ∷ i.attempt_id
    ∷ or_default i.interaction_id ""
    ∷ []

-- `ConvergenceIdentity.key`
unfoldable pub key : ConvergenceIdentity → String
unfolding join
key i = join "|" (scope_fields i ++ i.cause_id ∷ [])

-- The dictionary of `to_dict`: a key that is absent is `none`.
pub record IdentityDict : Type 0 where
  pub namespace_id : Option String
  pub application_instance_id : Option String
  pub agent_instance_id : Option String
  pub session_id : Option String
  pub task_id : Option String
  pub attempt_id : Option String
  pub interaction_id : Option String
  pub cause_id : Option String

unfoldable pub identity_to_dict : ConvergenceIdentity → IdentityDict
identity_to_dict i = record {
  namespace_id = some i.namespace_id;
  application_instance_id = some i.application_instance_id;
  agent_instance_id = some i.agent_instance_id;
  session_id = some i.session_id;
  task_id = some i.task_id;
  attempt_id = some i.attempt_id;
  interaction_id = i.interaction_id;
  cause_id = some i.cause_id;
}

-- `data["k"]`
abbrev pub required : Option String → Result String
required none = err key_error
required (some s) = ok s

-- `ConvergenceIdentity.from_dict`
unfoldable pub identity_from_dict : IdentityDict → Result ConvergenceIdentity
unfolding check_identity
identity_from_dict d = do
  namespace_id ← required d.namespace_id
  application_instance_id ← required d.application_instance_id
  agent_instance_id ← required d.agent_instance_id
  session_id ← required d.session_id
  task_id ← required d.task_id
  attempt_id ← required d.attempt_id
  cause_id ← required d.cause_id
  check_identity (record {
    namespace_id = namespace_id;
    application_instance_id = application_instance_id;
    agent_instance_id = agent_instance_id;
    session_id = session_id;
    task_id = task_id;
    attempt_id = attempt_id;
    interaction_id = truthy d.interaction_id;
    cause_id = cause_id;
  })

-- The mapping that a tracker is created with; absent and empty values have defaults.
pub record SessionIdentity : Type 0 where
  pub namespace_id : Option String
  pub application_instance_id : Option String
  pub agent_instance_id : Option String
  pub session_id : Option String
  pub task_id : Option String
  pub attempt_id : Option String
  pub interaction_id : Option String

-- The arguments that `identity_for` passes to the constructor.
abbrev pub session_scope : SessionIdentity → String → ConvergenceIdentity
session_scope base cause = record {
  namespace_id = or_default base.namespace_id "default";
  application_instance_id = or_default base.application_instance_id "unknown-application";
  agent_instance_id = or_default base.agent_instance_id "agent";
  session_id = or_default base.session_id "session";
  task_id = or_default base.task_id "task";
  attempt_id = or_default base.attempt_id "attempt-1";
  interaction_id = truthy base.interaction_id;
  cause_id = cause;
}

-- `AttemptEvidenceTracker.identity_for`
unfoldable pub identity_for : SessionIdentity → String → Result ConvergenceIdentity
unfolding check_identity
identity_for base cause = check_identity (session_scope base cause)

-- A check that succeeds returns what it checked.
pub check_identity_same :
    (i : ConvergenceIdentity) {j : ConvergenceIdentity} → check_identity i ≡ ok j → j ≡ i
unfolding check_identity
check_identity_same i h = cc ((guard-eq-ok _ value_error (ok i) h).1)

pub identity_for_scope :
    (base : SessionIdentity) (c : String) {i : ConvergenceIdentity}
    → identity_for base c ≡ ok i
    → i ≡ session_scope base c
unfolding identity_for
identity_for_scope base c h = check_identity_same (session_scope base c) h

-- Two lists with one last item each, joined to one text, have the same last item.
join_last :
    (sep : String) (xs : List String) (a b : String)
    → join sep (xs ++ a ∷ []) ≡ join sep (xs ++ b ∷ [])
    → a ≡ b
unfolding join
join_last sep [] a b h = h
join_last sep (x ∷ []) a b h = append_cancel_left sep a b (append_cancel_left x _ _ h)
join_last sep (x ∷ y ∷ rest) a b h =
    join_last sep (y ∷ rest) a b (append_cancel_left sep _ _ (append_cancel_left x _ _ h))

-- In one session two causes have different keys.
pub key-identity_for_ne :
    (base : SessionIdentity) (c d : String) {i j : ConvergenceIdentity}
    → identity_for base c ≡ ok i
    → identity_for base d ≡ ok j
    → c ≢ d
    → key i ≢ key j
unfolding key
key-identity_for_ne base c d hi hj ne same = ne (
    join_last "|" (scope_fields (session_scope base c)) c d
      (sym (ap key (identity_for_scope base c hi)) ∙ same ∙ ap key (identity_for_scope base d hj)))

pub truthy_same : (o : Option String) → o ≢ some "" → truthy o ≡ o
truthy_same none ne = refl
truthy_same (some s) ne = ground (arith, eq_iff s "", ne)

-- What was written is read back, for an identity that passed its check and has no empty
-- interaction.
pub identity_from_dict-to_dict :
    (i : ConvergenceIdentity)
    → check_identity i ≡ ok i
    → i.interaction_id ≢ some ""
    → identity_from_dict (identity_to_dict i) ≡ ok i
unfolding identity_from_dict identity_to_dict
identity_from_dict-to_dict i h ne =
    ap (λ o. check_identity (record i { interaction_id = o })) (truthy_same i.interaction_id ne) ∙ h
