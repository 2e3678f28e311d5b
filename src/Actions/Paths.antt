-- ===== src/Actions/Paths.antt =====
-- scripts/runtime_contract/actions.py: `ProtectedResourcePolicy`. The file system, by which paths
-- are resolved, is a parameter.
use cognitive_frame_works.Prelude.{
  String, Option, none, some, List, [], ◌∷◌, Bool, true, false, not, ◌&&◌, is_blank, ◌==◌,
  if◌then◌else◌,
}
use cognitive_frame_works.Prelude.Result.{Result, ok, ◌>>=◌}
use cognitive_frame_works.Prelude.Dict.{Dict}
use cognitive_frame_works.Actions.Values.{Values, first_truthy}

-- `pathlib.Path`, with the parts of a path. Expanding a user's home, resolving and asking for the
-- working directory may raise.
pub record FileSystem (P : Type 0) : Type 0 where
  pub path : String → P
  pub expand_user : P → Result P
  pub is_absolute : P → Bool
  pub join_path : P → P → P
  pub working_directory : Result P
  pub resolve_path : P → Result P
  pub parts : P → List String

pub record ProtectedResourcePolicy : Type 0 where
  pub protected_roots : List String
  pub authorized_write_roots : List String

-- `path.relative_to(root)` does not raise.
unfoldable pub is_relative_to : List String → List String → Bool
is_relative_to path [] = true
is_relative_to [] (r ∷ root) = false
is_relative_to (p ∷ path) (r ∷ root) = p == r && is_relative_to path root

unfoldable pub target_keys : List String
target_keys = "target" ∷ "path" ∷ "resource" ∷ []

module _ {P : Type 0} (files : FileSystem P) where
  -- `_resolved`
  unfoldable pub resolved : P → Result P
  resolved p = do q ← files.expand_user p; files.resolve_path q

  -- `_inside`: the loop stops at the first root that the path lies in.
  unfoldable pub is_inside : P → List String → Result Bool
  is_inside p [] = ok false
  is_inside p (raw ∷ roots) =
      let rest = is_inside p roots in
      resolved (files.path raw) >>= λ root.
      if is_relative_to (files.parts p) (files.parts root) then ok true else rest

  unfoldable pub base_root : List String → Result P
  base_root [] = files.working_directory
  base_root (root ∷ roots) = ok (files.path root)

  unfoldable pub placed : ProtectedResourcePolicy → P → Result P
  placed policy p =
      if files.is_absolute p
      then resolved p
      else base_root policy.authorized_write_roots >>= λ base. resolved (files.join_path base p)

  unfoldable pub located : ProtectedResourcePolicy → String → Result P
  located policy raw = files.expand_user (files.path raw) >>= λ p. placed policy p

  unfoldable pub text_target : ProtectedResourcePolicy → Option String → Result (Option P)
  text_target policy none = ok none
  text_target policy (some raw) =
      if is_blank raw then ok none else located policy raw >>= λ p. ok (some p)

  unfoldable pub classify_target : ProtectedResourcePolicy → Option P → Result String
  classify_target policy none = ok "missing_target"
  classify_target policy (some p) = is_inside p policy.protected_roots >>= λ protected.
      if protected
      then ok "protected"
      else is_inside p policy.authorized_write_roots >>= λ authorized.
          ok (if not authorized then "outside_scope" else "authorized")

  module _ {V : Type 0} (values : Values V) where
    abbrev pub raw_text : Option V → Option String
    raw_text none = none
    raw_text (some x) = values.as_text x

    unfoldable pub target_path : ProtectedResourcePolicy → Dict V → Result (Option P)
    unfolding target_keys
    target_path policy arguments =
        text_target policy (raw_text (first_truthy values arguments target_keys))

    unfoldable pub classify_write : ProtectedResourcePolicy → Dict V → Result String
    classify_write policy arguments =
        target_path policy arguments >>= λ target. classify_target policy target
