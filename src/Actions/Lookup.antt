-- ===== src/Actions/Lookup.antt =====
-- What a registry of scripts/runtime_contract/actions.py holds after a caller has extended it.
use cognitive_frame_works.Prelude.{
  String, Option, none, some, [], ◌∷◌, ◌++◌, Bool, true, false, ◌≡◌, refl, sym, subst, ◌∙◌, inl,
  inr, ◌⊎◌, ap, ◌==◌, eq_iff, if◌then◌else◌, if_holds,
}
use cognitive_frame_works.Prelude.Result.{Result, err, ok, ok_inj, value_error, >>=-eq-ok}
use cognitive_frame_works.Prelude.Dict.{Dict, get, put, get-put}
use cognitive_frame_works.Actions.Descriptor.{ActionDescriptor}
use cognitive_frame_works.Actions.Registry.{
  same_descriptor, admit_over, admit_binding, extend_registry, default_action_registry,
  effective_action_registry,
}

-- The first of two optional values.
abbrev pub or_else {ℓ} : {A : Type ℓ} → Option A → Option A → Option A
or_else none b = b
or_else (some a) b = some a

or_else_assoc {ℓ} :
    {A : Type ℓ} (a b c : Option A) → or_else (or_else a b) c ≡ or_else a (or_else b c)
or_else_assoc none b c = refl
or_else_assoc (some a) b c = refl

or_else-none {ℓ} : {A : Type ℓ} (a : Option A) → a ≡ or_else a none
or_else-none none = refl
or_else-none (some a) = refl

or_else_if {ℓ} :
    {A : Type ℓ} (b : Bool) (x : A) (c : Option A)
    → or_else (if b then some x else none) c ≡ (if b then some x else c)
or_else_if true x c = refl
or_else_if false x c = refl

-- What is read after a write that changed nothing, since the key was there.
or_else_kept {ℓ} :
    {A : Type ℓ} (b : Bool) (x : Option A) (d e : A)
    → (b ≡ true → x ≡ some e)
    → x ≡ or_else x (if b then some d else none)
or_else_kept b (some a) d e h = refl
or_else_kept false none d e h = refl
or_else_kept true none d e h = let found : none ≡ some e = h refl in cc

-- What is read after a write under a key that was missing.
or_else_new {ℓ} :
    {A : Type ℓ} (b : Bool) (x : Option A) (d : A)
    → (b ≡ true → x ≡ none)
    → (if b then some d else x) ≡ or_else x (if b then some d else none)
or_else_new true none d h = refl
or_else_new true (some a) d h = let missing : some a ≡ none = h refl in cc
or_else_new false none d h = refl
or_else_new false (some a) d h = refl

same_key {ℓ} :
    {A : Type ℓ} (r : Dict A) (k j : String) {x : Option A}
    → get r k ≡ x
    → (k == j) ≡ true
    → get r j ≡ x
same_key r k j {x} found same = subst (λ (i : String). get r i ≡ x) ((eq_iff k j).0 same) found

admitted_if {ℓ} :
    {A : Type ℓ} (b : Bool) {x y : A}
    → ◌≡◌ {A = Result A} (if b then ok x else err value_error) (ok y)
    → x ≡ y
admitted_if true h = ok_inj h
admitted_if false h = cc

-- A binding that is admitted is new, and is then found; all others are as before.
admit_over_lookup :
    (k j : String) (d : ActionDescriptor) (old : Option ActionDescriptor)
    (r : Dict ActionDescriptor) {r' : Dict ActionDescriptor}
    → get r k ≡ old
    → admit_over k d old r ≡ ok r'
    → get r' j ≡ or_else (get r j) (if k == j then some d else none)
unfolding admit_over
admit_over_lookup k j d (some e) r found h =
    subst
      (λ (x : Dict ActionDescriptor). get x j ≡ or_else (get r j) (if k == j then some d else none))
      (admitted_if _ h) (or_else_kept (k == j) (get r j) d e (same_key r k j found))
admit_over_lookup k j d none r new h =
    subst
      (λ (x : Dict ActionDescriptor). get x j ≡ or_else (get r j) (if k == j then some d else none))
      (admitted_if _ h) (get-put r k j d ∙ or_else_new (k == j) (get r j) d (same_key r k j new))

admit_binding_lookup :
    (k j : String) (d : ActionDescriptor) (r : Dict ActionDescriptor) {r' : Dict ActionDescriptor}
    → admit_binding k d r ≡ ok r'
    → get r' j ≡ or_else (get r j) (if k == j then some d else none)
unfolding admit_binding
admit_binding_lookup k j d r h = go (k == "") h
  where
    go :
        (b : Bool) {r' : Dict ActionDescriptor}
        → (if b then err value_error else admit_over k d (get r k) r) ≡ ok r'
        → get r' j ≡ or_else (get r j) (if k == j then some d else none)
    go true h = cc
    go false h = admit_over_lookup k j d (get r k) r refl h

extend_registry_lookup :
    (extensions r : Dict ActionDescriptor) (j : String) {r' : Dict ActionDescriptor}
    → extend_registry extensions r ≡ ok r'
    → get r' j ≡ or_else (get r j) (get extensions j)
unfolding extend_registry get
extend_registry_lookup [] r j h =
    ap (λ (x : Dict ActionDescriptor). get x j) (sym (ok_inj h)) ∙ or_else-none (get r j)
extend_registry_lookup ((k, d) ∷ extensions) r j h =
    let (r1, admitted, rest) = >>=-eq-ok _ _ h in
    extend_registry_lookup extensions r1 j rest
    ∙ rw (admit_binding_lookup k j d r admitted) (
        or_else_assoc (get r j) (if k == j then some d else none) (get extensions j)
        ∙ ap (or_else (get r j)) (or_else_if (k == j) d (get extensions j)))

-- A registry that is accepted reads, under every key, what the host's own registry has there, and
-- where that has nothing, the first declaration of the caller.
pub effective_action_registry-lookup :
    (extensions : Dict ActionDescriptor) (k : String) {r : Dict ActionDescriptor}
    → effective_action_registry extensions ≡ ok r
    → get r k ≡ or_else (get default_action_registry k) (get extensions k)
unfolding effective_action_registry
effective_action_registry-lookup extensions k h =
    extend_registry_lookup extensions default_action_registry k h

abbrev Ends : Result (Dict ActionDescriptor) → Type 0
Ends x = (x ≡ err value_error) ⊎ ((r : Dict ActionDescriptor) × (x ≡ ok r))

admit_over-Ends :
    (k : String) (d : ActionDescriptor) (old : Option ActionDescriptor) (r : Dict ActionDescriptor)
    → Ends (admit_over k d old r)
unfolding admit_over
admit_over-Ends k d (some e) r = if_holds Ends (same_descriptor d e) (inr (r, refl)) (inl refl)
admit_over-Ends k d none r = if_holds Ends (d.tool_type == k) (inr (put r k d, refl)) (inl refl)

admit_binding-Ends :
    (k : String) (d : ActionDescriptor) (r : Dict ActionDescriptor) → Ends (admit_binding k d r)
unfolding admit_binding
admit_binding-Ends k d r = if_holds Ends (k == "") (inl refl) (admit_over-Ends k d (get r k) r)

-- An admission either answers an error or keeps what is there.
admit_binding_keeps :
    (k j : String) (d e : ActionDescriptor) (r : Dict ActionDescriptor)
    → get r j ≡ some e
    → (admit_binding k d r ≡ err value_error)
      ⊎ ((r' : Dict ActionDescriptor) × (admit_binding k d r ≡ ok r') × (get r' j ≡ some e))
admit_binding_keeps k j d e r found = elim (admit_binding-Ends k d r) [
  | inl refused ↦ inl refused
  | inr (r1, admitted) ↦ inr (r1, admitted, admit_binding_lookup k j d r admitted ∙ rw found)
]

-- A declaration that changes a binding of the registry is not admitted to it.
changed_is_refused :
    (k : String) (d e : ActionDescriptor) (r : Dict ActionDescriptor)
    → get r k ≡ some e
    → same_descriptor d e ≡ false
    → admit_binding k d r ≡ err value_error
unfolding admit_binding admit_over
changed_is_refused k d e r found other =
    rw (found, other)
      (if_holds (λ (x : Result (Dict ActionDescriptor)). x ≡ err value_error) (k == "") refl refl)

redefinition_stops :
    (before after r : Dict ActionDescriptor) (k : String) (d e : ActionDescriptor)
    → get r k ≡ some e
    → same_descriptor d e ≡ false
    → extend_registry (before ++ ((k, d) ∷ after)) r ≡ err value_error
unfolding extend_registry
redefinition_stops [] after r k d e found other = rw (changed_is_refused k d e r found other)
redefinition_stops ((j, c) ∷ before) after r k d e found other =
    elim (admit_binding_keeps j k c e r found) [
      | inl refused ↦ rw refused
      | inr (r1, admitted, kept) ↦ rw admitted (redefinition_stops before after r1 k d e kept other)
    ]

-- Whatever stands before and after it, a declaration that changes a binding of the host is refused.
pub redefinition_is_refused :
    (before after : Dict ActionDescriptor) (k : String) (d e : ActionDescriptor)
    → get default_action_registry k ≡ some e
    → same_descriptor d e ≡ false
    → effective_action_registry (before ++ ((k, d) ∷ after)) ≡ err value_error
unfolding effective_action_registry
redefinition_is_refused before after k d e found other =
    redefinition_stops before after default_action_registry k d e found other
