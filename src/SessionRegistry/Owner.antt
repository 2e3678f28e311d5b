-- ===== src/SessionRegistry/Owner.antt =====
-- scripts/runtime_host/session_registry.py: `_owner_identity`, the digest that pins a session to
-- its owner. The Python values that it reads from a session are the parameter `V`; the dictionary
-- literal, `json.dumps` (`none` where it raises) and SHA-256 are parameters.
use cognitive_frame_works.Prelude.{String, Option, none, some, List, [], ◌∷◌, not, ◌||◌, ◌==◌}
use cognitive_frame_works.Prelude.Result.{Result, err, ok, value_error, guard, ◌>>◌}

-- `execution_identity`: the results of its methods, where it has them, and the object itself.
pub record Execution (V : Type 0) : Type 0 where
  pub storage_key : Option V
  pub to_dict : Option V
  pub execution : V

-- The attributes that `_owner_identity` reads, `None` for a missing one.
pub record SessionView (V : Type 0) : Type 0 where
  pub execution_identity : Option (Execution V)
  pub session_id : V
  pub agent_instance_id : V
  pub attempt_id : V
  pub task_id : V

module _ {V : Type 0} where
  unfoldable pub execution_value : Execution V → V
  execution_value x = elim x.storage_key [
    | some key ↦ key
    | none ↦ elim x.to_dict [ some fields ↦ fields | none ↦ x.execution ]
  ]

  unfoldable pub owner_value : (List (String × V) → V) → SessionView V → V
  owner_value dict s = elim s.execution_identity [
    | some x ↦ execution_value x
    | none ↦ dict (
        ("session_id", s.session_id)
        ∷ ("agent_instance_id", s.agent_instance_id)
        ∷ ("attempt_id", s.attempt_id)
        ∷ ("task_id", s.task_id)
        ∷ [])
  ]

  unfoldable pub owner_identity :
      (List (String × V) → V)
      → (V → Option String)
      → (String → String)
      → SessionView V
      → Result String
  owner_identity dict dumps sha256 s = elim (dumps (owner_value dict s)) [
    | none ↦ err value_error
    | some encoded ↦
        guard (not (encoded == "" || encoded == "null")) value_error >> ok (sha256 encoded)
  ]
