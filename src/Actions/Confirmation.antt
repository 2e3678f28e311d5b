-- ===== src/Actions/Confirmation.antt =====
-- Which actions the grants of scripts/runtime_contract/actions.py confirm.
use cognitive_frame_works.Prelude.{
  String, Option, some, List, [], ◌∷◌, Bool, true, false, not, ◌&&◌, ◌≡◌, ◌⊎◌, inl, inr, refl, sym,
  subst, ◌∙◌, All, one_of, is_ascii, some_inj, eq_iff, eq_refl, ◌==◌, if◌then◌else◌,
}
use cognitive_frame_works.Prelude.Result.{
  Result, err, ok, ok_inj, type_error, guard, guard-eq-ok, ◌>>=◌, ◌>>◌,
}
use cognitive_frame_works.Actions.Grants.{
  GrantContents, ConfirmationGrant, GrantUse, Clock, compare_digest, is_in_context, create_grant,
  is_signed, is_current, is_valid_for, confirmation_for, pick_grant,
}

module _ (sign : GrantContents → String) {I : Type 0} (clock : Clock I) where
  -- Everything that a valid grant says is so.
  pub record Authorizes (g : ConfirmationGrant) (digest : String) (u : GrantUse) (now : I)
      : Type 0 where
    pub in_context : is_in_context g.signed u ≡ true
    pub same_action : g.signed.granted_action_digest ≡ digest
    pub genuine : g.signature ≡ sign g.signed
    pub current : is_current sign clock g.signed now ≡ ok true

  is_signed-genuine :
      (g : ConfirmationGrant) → is_signed sign g ≡ ok true → g.signature ≡ sign g.signed
  unfolding is_signed compare_digest
  is_signed-genuine g h = go (g.signature == "") h
    where
      go :
          (b : Bool)
          → (if b
              then ok false
              else (guard (is_ascii g.signature && is_ascii (sign g.signed)) type_error
                  >> ok (g.signature == sign g.signed)))
            ≡ ok true
          → g.signature ≡ sign g.signed
      go true h = cc
      go false h = (eq_iff g.signature (sign g.signed)).0 (ok_inj (guard-eq-ok _ type_error _ h).1)

  valid_parts :
      (a b : Bool) (signed current : Result Bool)
      → (if not a
          then ok false
          else if not b
          then ok false
          else signed >>= λ s. if s then current else ok false)
        ≡ ok true
      → (a ≡ true) × (b ≡ true) × (signed ≡ ok true) × (current ≡ ok true)
  valid_parts true true (ok true) current h = (refl, refl, refl, h)
  valid_parts true true (ok false) current h = cc
  valid_parts true true (err x) current h = cc
  valid_parts true false signed current h = cc
  valid_parts false b signed current h = cc

  pub is_valid_for-Authorizes :
      (g : ConfirmationGrant) (digest : String) (u : GrantUse) (now : I)
      → is_valid_for sign clock g digest u now ≡ ok true
      → Authorizes g digest u now
  unfolding is_valid_for
  is_valid_for-Authorizes g digest u now h =
      let (a, b, s, c) = valid_parts _ _ _ _ h in
      record {
        in_context = a;
        same_action = (eq_iff g.signed.granted_action_digest digest).0 b;
        genuine = is_signed-genuine g s;
        current = c;
      }

  confirmation_step :
      (g x : ConfirmationGrant) (b : Bool) (v : Result Bool)
      (rest : Result (Option ConfirmationGrant))
      → (if b then rest else v >>= λ valid. pick_grant sign clock g valid rest) ≡ ok (some x)
      → ((b ≡ false) × (v ≡ ok true) × (g ≡ x)) ⊎ (rest ≡ ok (some x))
  confirmation_step g x true v rest h = inr h
  confirmation_step g x false (ok true) rest h = inl (refl, refl, some_inj (ok_inj h))
  confirmation_step g x false (ok false) rest h = inr h
  confirmation_step g x false (err e) rest h = cc

  -- A grant that confirms is one of the context's, is not consumed, and is valid.
  confirmation_for-valid :
      (P : ConfirmationGrant → Type 0) (grants : List ConfirmationGrant) (digest : String)
      (u : GrantUse) (consumed : List String) (now : I) {x : ConfirmationGrant}
      → All P grants
      → confirmation_for sign clock grants digest u consumed now ≡ ok (some x)
      → P x
        × (one_of x.signed.grant_id consumed ≡ false)
        × (is_valid_for sign clock x digest u now ≡ ok true)
  unfolding confirmation_for
  confirmation_for-valid P [] digest u consumed now all h = cc
  confirmation_for-valid P (g ∷ grants) digest u consumed now {x} all h =
      elim (confirmation_step g x (one_of g.signed.grant_id consumed)
        (is_valid_for sign clock g digest u now)
        (confirmation_for sign clock grants digest u consumed now) h) [
          | inl (fresh, valid, same) ↦
              subst
                (λ (y : ConfirmationGrant).
                  P y
                  × (one_of y.signed.grant_id consumed ≡ false)
                  × (is_valid_for sign clock y digest u now ≡ ok true))
                same (all.0, fresh, valid)
          | inr later ↦ confirmation_for-valid P grants digest u consumed now all.1 later
        ]

  -- The grant carries the signature of issued contents, and of no others.
  abbrev pub Carries : (GrantContents → Type 0) → ConfirmationGrant → Type 0
  Carries Issued g =
      (c : GrantContents) × Issued c
      × (g.signature ≡ sign c)
      × (sign c ≡ sign g.signed → c ≡ g.signed)

  -- If every grant of the context carries the signature of contents that the host has issued, and
  -- has itself no other contents of the same signature, a grant that confirms an action was itself
  -- issued, for this very action and context; it is current and was not consumed before.
  pub confirmed_action_was_granted :
      (Issued : GrantContents → Type 0) (grants : List ConfirmationGrant) (digest : String)
      (u : GrantUse) (consumed : List String) (now : I) {x : ConfirmationGrant}
      → All (Carries Issued) grants
      → confirmation_for sign clock grants digest u consumed now ≡ ok (some x)
      → Issued x.signed × Authorizes x digest u now × (one_of x.signed.grant_id consumed ≡ false)
  confirmed_action_was_granted Issued grants digest u consumed now {x} issued h =
      let ((c, made, carries, apart), fresh, valid) =
        confirmation_for-valid (Carries Issued) grants digest u consumed now issued h in
      let authorized = is_valid_for-Authorizes x digest u now valid in
      (subst Issued (apart (sym carries ∙ authorized.genuine)) made, authorized, fresh)

  -- A grant that the host creates confirms its action in its context while it is current, whatever
  -- valid or refused grants stand behind it, if its signature is a plain text that is not empty and
  -- its number is not consumed.
  pub created_grant_confirms :
      (c : GrantContents) (grants : List ConfirmationGrant) (u : GrantUse) (consumed : List String)
      (now : I)
      → (sign c == "") ≡ false
      → is_ascii (sign c) ≡ true
      → is_in_context c u ≡ true
      → is_current sign clock c now ≡ ok true
      → one_of c.grant_id consumed ≡ false
      → confirmation_for sign clock
          (create_grant sign c ∷ grants)
          c.granted_action_digest
          u
          consumed
          now
        ≡ ok (some (create_grant sign c))
  unfolding confirmation_for is_valid_for is_signed compare_digest create_grant
  created_grant_confirms c grants u consumed now text ascii context current fresh =
      rw (fresh, context, eq_refl c.granted_action_digest, text, ascii, eq_refl (sign c), current)

  -- A grant that the host has created, that is not consumed and is valid but for a time that cannot be
  -- compared with the clock's, raises, and no later grant is tried.
  pub incomparable_time_raises :
      (c : GrantContents) (grants : List ConfirmationGrant) (u : GrantUse) (consumed : List String)
      (now : I)
      → (sign c == "") ≡ false
      → is_ascii (sign c) ≡ true
      → is_in_context c u ≡ true
      → is_current sign clock c now ≡ err type_error
      → one_of c.grant_id consumed ≡ false
      → confirmation_for sign clock
          (create_grant sign c ∷ grants)
          c.granted_action_digest
          u
          consumed
          now
        ≡ err type_error
  unfolding confirmation_for is_valid_for is_signed compare_digest create_grant
  incomparable_time_raises c grants u consumed now text ascii context current fresh =
      rw (fresh, context, eq_refl c.granted_action_digest, text, ascii, eq_refl (sign c), current)
