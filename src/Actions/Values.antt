-- ===== src/Actions/Values.antt =====
-- The arbitrary Python values in the arguments of an action, as scripts/runtime_contract/actions.py
-- uses them: what they are is a parameter.
use cognitive_frame_works.Prelude.{String, Option, none, some, List, [], ◌∷◌, Bool, if◌then◌else◌}
use cognitive_frame_works.Prelude.Dict.{Dict, get}

pub record Values (V : Type 0) : Type 0 where
  -- `bool(x)`
  pub is_truthy : V → Bool
  -- `x is None`
  pub is_null : V → Bool
  -- `str(x)`
  pub text_of : V → String
  -- The text itself, if `isinstance(x, str)`.
  pub as_text : V → Option String
  -- The mapping itself, if `isinstance(x, Mapping)`.
  pub as_mapping : V → Option (Dict V)
  pub from_text : String → V

module _ {V : Type 0} (values : Values V) where
  abbrev pub truthy_or : Option V → Option V → Option V
  truthy_or none rest = rest
  truthy_or (some x) rest = if values.is_truthy x then some x else rest

  -- `d.get(k1) or d.get(k2) or …`, with no value where the last one is not true either.
  unfoldable pub first_truthy : Dict V → List String → Option V
  first_truthy d [] = none
  first_truthy d (k ∷ ks) = truthy_or (get d k) (first_truthy d ks)
