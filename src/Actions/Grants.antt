-- ===== src/Actions/Grants.antt =====
-- scripts/runtime_contract/actions.py: `ConfirmationGrant` and `HostExecutionContext`. HMAC, the
-- JSON text of what is signed, and the instants of `datetime` are parameters.
use cognitive_frame_works.Prelude.{
  String, Option, none, some, List, [], ◌∷◌, Bool, true, false, not, ◌&&◌, one_of, is_ascii, ◌==◌,
  if◌then◌else◌,
}
use cognitive_frame_works.Prelude.Result.{Result, ok, type_error, guard, ◌>>=◌, ◌>>◌}
use cognitive_frame_works.Convergence.Transitions.{option_eq}

-- The fields of a grant that are signed.
pub record GrantContents : Type 0 where
  pub grant_id : String
  pub actor_id : String
  pub granted_action_digest : String
  pub grant_scope : String
  pub issued_at : String
  pub expires_at : String
  pub grant_task_id : Option String
  pub grant_policy_hash : Option String
  pub grant_session_nonce : Option String

pub record ConfirmationGrant : Type 0 where
  pub signed : GrantContents
  pub signature : String

-- The keyword arguments of `is_valid_for`, which stand in the context.
pub record GrantUse : Type 0 where
  pub principal : String
  pub task_scope : String
  pub used_task_id : Option String
  pub used_policy_hash : Option String
  pub used_session_nonce : Option String

-- `datetime.fromisoformat(text.replace("Z", "+00:00"))`, with none for a `ValueError`, and `<=`
-- between instants, which raises between one with a time zone and one without.
pub record Clock (I : Type 0) : Type 0 where
  pub instant : String → Option I
  pub is_not_after : I → I → Result Bool

-- `hmac.compare_digest` of texts
unfoldable pub compare_digest : String → String → Result Bool
compare_digest a b = do guard (is_ascii a && is_ascii b) type_error; ok (a == b)

unfoldable pub is_in_context : GrantContents → GrantUse → Bool
is_in_context c u =
    (c.actor_id == u.principal && one_of c.grant_scope (u.task_scope ∷ "task" ∷ "*" ∷ []))
    && (option_eq c.grant_task_id u.used_task_id
        && option_eq c.grant_policy_hash u.used_policy_hash
        && option_eq c.grant_session_nonce u.used_session_nonce)

module _ (sign : GrantContents → String) where
  -- `create`
  unfoldable pub create_grant : GrantContents → ConfirmationGrant
  create_grant c = record { signed = c; signature = sign c }

  unfoldable pub is_signed : ConfirmationGrant → Result Bool
  is_signed g = if g.signature == "" then ok false else compare_digest g.signature (sign g.signed)

  module _ {I : Type 0} (clock : Clock I) where
    -- `issued <= instant <= expiry`
    unfoldable pub is_between : Option I → Option I → I → Result Bool
    is_between none expiry now = ok false
    is_between (some issued) none now = ok false
    is_between (some issued) (some expiry) now = clock.is_not_after issued now >>= λ started.
        if started then clock.is_not_after now expiry else ok false

    unfoldable pub is_current : GrantContents → I → Result Bool
    is_current c now = is_between (clock.instant c.issued_at) (clock.instant c.expires_at) now

    -- The digest is that of the request.
    unfoldable pub is_valid_for : ConfirmationGrant → String → GrantUse → I → Result Bool
    is_valid_for g digest u now =
        if not (is_in_context g.signed u)
        then ok false
        else if not (g.signed.granted_action_digest == digest)
        then ok false
        else is_signed g >>= λ genuine. if genuine then is_current g.signed now else ok false

    abbrev pub pick_grant {ℓ} : {A : Type ℓ} → A → Bool → Result (Option A) → Result (Option A)
    pick_grant g true rest = ok (some g)
    pick_grant g false rest = rest

    -- The first grant that is not consumed and is valid.
    unfoldable pub confirmation_for :
        List ConfirmationGrant
        → String
        → GrantUse
        → List String
        → I
        → Result (Option ConfirmationGrant)
    confirmation_for [] digest u consumed now = ok none
    confirmation_for (g ∷ grants) digest u consumed now =
        let rest = confirmation_for grants digest u consumed now in
        if one_of g.signed.grant_id consumed
        then rest
        else is_valid_for g digest u now >>= λ valid. pick_grant g valid rest

    abbrev pub is_given {ℓ} : {A : Type ℓ} → Option A → Bool
    is_given none = false
    is_given (some a) = true

    unfoldable pub has_confirmation : List ConfirmationGrant → String → GrantUse → I → Result Bool
    has_confirmation grants digest u now =
        confirmation_for grants digest u [] now >>= λ found. ok (is_given found)
