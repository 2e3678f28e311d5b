-- ===== src/Actions/Signing.antt =====
-- What an accepted `ActionObjectiveBinding` of scripts/runtime_contract/actions.py guarantees.
use cognitive_frame_works.Prelude.{
  String, some, List, [], ◌∷◌, Bool, true, false, ◌||◌, ◌≡◌, ◌≢◌, refl, All, sym, ap, subst, ◌∙◌,
  arith, one_of, and_split, eq_iff, ◌==◌,
}
use cognitive_frame_works.Prelude.Result.{ok, ok_inj, value_error, guard-eq-ok}
use cognitive_frame_works.Prelude.Dict.{get}
use cognitive_frame_works.Attention.Facts.{is_digest}
use cognitive_frame_works.Actions.Descriptor.{goal_relations}
use cognitive_frame_works.Actions.Binding.{
  BindingContents, ActionObjectiveBinding, is_valid_contents, contents_digest,
  make_objective_binding, action_objective_purposes, goal_relation_of, action_objective_relations,
}

module _ (sha256 : String → String) (dumps : BindingContents → String) where
  right_digest : (a b : String) → ((a == "") || (a == b)) ≡ true → a ≢ "" → a ≡ b
  right_digest a b h named = ground (arith, eq_iff a "", eq_iff a b)

  make_objective_binding-parts :
      (b : ActionObjectiveBinding) {b' : ActionObjectiveBinding}
      → make_objective_binding sha256 dumps b ≡ ok b'
      → (is_valid_contents b.contents ≡ true)
        × (((b.binding_digest == "")
              || (b.binding_digest == contents_digest sha256 dumps b.contents))
            ≡ true)
        × (b' ≡ record b { binding_digest = contents_digest sha256 dumps b.contents })
  unfolding make_objective_binding
  make_objective_binding-parts b h =
      let (valid, rest) = guard-eq-ok _ value_error _ h in
      let (right, same) = guard-eq-ok _ value_error _ rest in (valid, right, sym (ok_inj same))

  -- The binding with the right digest.
  abbrev sealed : BindingContents → ActionObjectiveBinding
  sealed c = record { contents = c; binding_digest = contents_digest sha256 dumps c }

  -- If two bindings have no two contents of the same digest, and the first one's digest is not empty,
  -- the second one, carrying the digest that the first was accepted with, is itself accepted only
  -- if it says the same.
  pub tampered_binding_is_refused :
      (b forged : ActionObjectiveBinding) {made accepted : ActionObjectiveBinding}
      → (contents_digest sha256 dumps forged.contents ≡ contents_digest sha256 dumps b.contents
          → forged.contents ≡ b.contents)
      → contents_digest sha256 dumps b.contents ≢ ""
      → make_objective_binding sha256 dumps b ≡ ok made
      → forged.binding_digest ≡ made.binding_digest
      → make_objective_binding sha256 dumps forged ≡ ok accepted
      → accepted ≡ made
  tampered_binding_is_refused b forged {made} {accepted} injective named h carries k =
      let made_is : made ≡ sealed b.contents = (make_objective_binding-parts b h).2 in
      let (_, right, accepted_is) = make_objective_binding-parts forged k in
      let carried : forged.binding_digest ≡ contents_digest sha256 dumps b.contents =
        carries ∙ ap (λ (x : ActionObjectiveBinding). x.binding_digest) made_is in
      let matches : forged.binding_digest ≡ contents_digest sha256 dumps forged.contents =
        right_digest _ _ right (λ e. named (sym carried ∙ e)) in
      let same : forged.contents ≡ b.contents = injective (sym matches ∙ carried) in
      accepted_is ∙ ap sealed same ∙ sym made_is

-- The purpose has a goal relation that a descriptor may have.
HasRelation : String → Type 0
HasRelation purpose =
    (relation : String) × (get action_objective_relations purpose ≡ some relation)
    × (one_of relation goal_relations ≡ true)

-- What holds of every text of a list holds of a text that is one of them.
one_of-All :
    (P : String → Type 0) (s : String) (xs : List String) → All P xs → one_of s xs ≡ true → P s
one_of-All P s [] all h = cc
one_of-All P s (x ∷ xs) (here, there) h =
    go (s == x) (λ same. subst P (sym ((eq_iff s x).0 same)) here) (one_of-All P s xs there) h
  where
    go :
        (b : Bool) → (b ≡ true → P s) → (one_of s xs ≡ true → P s) → (b || one_of s xs) ≡ true → P s
    go true now later h = now refl
    go false now later h = later h

purposes-HaveRelations : All HasRelation action_objective_purposes
unfolding HasRelation action_objective_purposes get action_objective_relations goal_relations
purposes-HaveRelations = (
  ("advances_primary_goal", refl, refl),
  (
    ("removes_concrete_blocker", refl, refl),
    (
      ("required_verification", refl, refl),
      (("diagnostic_support", refl, refl), (("unrelated", refl, refl), tt)),
    ),
  ),
)

-- The goal relation of every accepted binding is defined, and one that a descriptor may have.
pub make_objective_binding-goal_relation :
    (sha256 : String → String) (dumps : BindingContents → String) (b : ActionObjectiveBinding)
    {b' : ActionObjectiveBinding}
    → make_objective_binding sha256 dumps b ≡ ok b'
    → (relation : String) × (goal_relation_of b'.contents ≡ some relation)
      × (one_of relation goal_relations ≡ true)
unfolding goal_relation_of HasRelation is_valid_contents
make_objective_binding-goal_relation sha256 dumps b {b'} h =
    let (valid, _, same) = make_objective_binding-parts sha256 dumps b h in
    let (_, later) = and_split (is_digest b.contents.bound_action_digest) _ valid in
    let (known, _) =
      and_split (one_of b.contents.purpose_class action_objective_purposes) _ later in
    subst (λ (x : ActionObjectiveBinding). HasRelation x.contents.purpose_class) (sym same)
      (one_of-All HasRelation b.contents.purpose_class action_objective_purposes
        purposes-HaveRelations known)
