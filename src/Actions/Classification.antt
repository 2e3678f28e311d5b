-- ===== src/Actions/Classification.antt =====
-- What `for_request` of scripts/runtime_contract/actions.py makes of a descriptor.
use cognitive_frame_works.Prelude.{
  String, Option, none, some, Bool, true, false, ◌||◌, ◌≡◌, ◌⊎◌, inl, inr, refl, ◌==◌, some_inj,
  if◌then◌else◌,
}
use cognitive_frame_works.Prelude.Result.{Result, ok, value_error, checked_same}
use cognitive_frame_works.Actions.Values.{Values}
use cognitive_frame_works.Actions.Descriptor.{
  ActionDescriptor, is_valid_descriptor, check_action_descriptor, AgentActionRequest, or_operator,
  is_other_subject, is_sensitive, outside, secret, networked, request_target, is_production,
  for_request,
}

-- Somebody's authority is required.
unfoldable pub IsNamed : Option String → Type 0
IsNamed authority = (a : String) × (authority ≡ some a) × ((a == "") ≡ false)

-- `e` is `d` but for the three flags that a request can raise and the authority that it can require;
-- a flag that `d` raises stays raised, and an authority that `d` names stays required.
pub record IsStricter (d e : ActionDescriptor) : Type 0 where
  pub same_otherwise : e ≡ record d {
    secret_access = e.secret_access;
    network_effect = e.network_effect;
    outside_scope = e.outside_scope;
    required_authority = e.required_authority;
  }
  pub still_outside : d.outside_scope ≡ true → e.outside_scope ≡ true
  pub still_secret : d.secret_access ≡ true → e.secret_access ≡ true
  pub still_networked : d.network_effect ≡ true → e.network_effect ≡ true
  pub still_required :
      (a : String)
      → d.required_authority ≡ some a
      → (a == "") ≡ false
      → e.required_authority ≡ some a

-- The action leaves its scope, or somebody's authority is required for it.
unfoldable pub IsHeld : ActionDescriptor → Type 0
IsHeld e = (e.outside_scope ≡ true) ⊎ IsNamed e.required_authority

or_operator_keeps :
    (o : Option String) (a : String)
    → o ≡ some a
    → (a == "") ≡ false
    → some (or_operator o) ≡ some a
or_operator_keeps none a h k = cc
or_operator_keeps (some b) a h k = rw (some_inj h, k)

or_operator-IsNamed : (o : Option String) → IsNamed (some (or_operator o))
unfolding IsNamed
or_operator-IsNamed none = ("operator", refl, refl)
or_operator-IsNamed (some b) = go (b == "") refl
  where
    go :
        (c : Bool)
        → (b == "") ≡ c
        → (a : String) × (some (if c then "operator" else b) ≡ some a) × ((a == "") ≡ false)
    go true h = ("operator", refl, refl)
    go false h = (b, refl, h)

secret-IsStricter : (d : ActionDescriptor) → IsStricter d (secret d)
unfolding secret
secret-IsStricter d = record {
  same_otherwise = refl;
  still_outside = λ h. h;
  still_secret = λ h. refl;
  still_networked = λ h. h;
  still_required = or_operator_keeps d.required_authority;
}

networked-IsStricter : (d : ActionDescriptor) → IsStricter d (networked d)
unfolding networked
networked-IsStricter d = record {
  same_otherwise = refl;
  still_outside = λ h. h;
  still_secret = λ h. h;
  still_networked = λ h. refl;
  still_required = or_operator_keeps d.required_authority;
}

outside-IsStricter : (d : ActionDescriptor) → IsStricter d (outside d)
unfolding outside
outside-IsStricter d = record {
  same_otherwise = refl;
  still_outside = λ h. refl;
  still_secret = λ h. h;
  still_networked = λ h. h;
  still_required = λ a h k. h;
}

same-IsStricter : (d : ActionDescriptor) → IsStricter d d
same-IsStricter d = record {
  same_otherwise = refl;
  still_outside = λ h. h;
  still_secret = λ h. h;
  still_networked = λ h. h;
  still_required = λ a h k. h;
}

-- The changed descriptors pass the checks that the old one passed.
changed_checked :
    (d : ActionDescriptor)
    → check_action_descriptor d ≡ ok d
    → (check_action_descriptor (outside d) ≡ ok (outside d))
      × (check_action_descriptor (secret d) ≡ ok (secret d))
      × (check_action_descriptor (networked d) ≡ ok (networked d))
unfolding check_action_descriptor is_valid_descriptor outside secret networked
changed_checked d h = let valid = (checked_same _ value_error h).0 in (rw valid, rw valid, rw valid)

module _ {V : Type 0} (values : Values V) (lower : String → String) where
  -- The answer for one outcome of the three tests.
  abbrev answer : ActionDescriptor → Bool → Bool → Bool → Result ActionDescriptor
  answer d a s n =
      if a
      then check_action_descriptor (outside d)
      else if s
      then check_action_descriptor (secret d)
      else if n
      then check_action_descriptor (networked d)
      else ok d

  answer-IsStricter :
      (d : ActionDescriptor) (a s n : Bool)
      → check_action_descriptor d ≡ ok d
      → (e : ActionDescriptor) × (answer d a s n ≡ ok e)
        × IsStricter d e
        × ((s || n) ≡ true → IsHeld e)
  unfolding IsHeld
  answer-IsStricter d true s n h =
      (outside d, (changed_checked d h).0, outside-IsStricter d, λ r. inl (unfold outside in refl))
  answer-IsStricter d false true n h = (
    secret d,
    (changed_checked d h).1,
    secret-IsStricter d,
    λ r. inr (unfold secret in or_operator-IsNamed d.required_authority),
  )
  answer-IsStricter d false false true h = (
    networked d,
    (changed_checked d h).2,
    networked-IsStricter d,
    λ r. inr (unfold networked in or_operator-IsNamed d.required_authority),
  )
  answer-IsStricter d false false false h = (d, refl, same-IsStricter d, λ r. cc)

  -- For a descriptor that passed its checks, the classification of a request never raises. It changes
  -- nothing of the descriptor but its flags of secret access, network effect and leaving the scope,
  -- which it can only raise, and the required authority, which stays where one is named; and where the
  -- target is sensitive, the tool works on the network or the request is for production, the action
  -- either leaves its scope or requires somebody's authority.
  pub for_request-IsStricter :
      (d : ActionDescriptor) (q : AgentActionRequest V)
      → check_action_descriptor d ≡ ok d
      → (e : ActionDescriptor) × (for_request values lower d q ≡ ok e)
        × IsStricter d e
        × ((is_sensitive lower (request_target values lower q.arguments)
                || (d.network_effect || is_production values lower q.arguments))
              ≡ true
            → IsHeld e)
  unfolding for_request
  for_request-IsStricter d q h =
      answer-IsStricter d (is_other_subject d.target_subject q.subject_ref)
        (is_sensitive lower (request_target values lower q.arguments))
        (d.network_effect || is_production values lower q.arguments) h
