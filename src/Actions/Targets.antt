-- ===== src/Actions/Targets.antt =====
-- For which path the arguments of an action stand, by a description apart from the methods of
-- `ProtectedResourcePolicy` of scripts/runtime_contract/actions.py.
use cognitive_frame_works.Prelude.{
  String, Option, none, some, List, [], ◌∷◌, Bool, true, false, ◌≡◌, ◌↔◌, ◌⊎◌, inl, inr, refl, sym,
  ap, subst, ◌∙◌, is_blank, some_inj, if◌then◌else◌,
}
use cognitive_frame_works.Prelude.Result.{ok, ok_inj, ◌>>=◌, >>=-eq-ok}
use cognitive_frame_works.Prelude.Dict.{Dict, get}
use cognitive_frame_works.Actions.Values.{Values, truthy_or, first_truthy}
use cognitive_frame_works.Actions.Paths.{
  FileSystem, ProtectedResourcePolicy, resolved, base_root, placed, located, text_target,
}
use cognitive_frame_works.Actions.Containment.{ResolvesTo, resolved_iff}

module _ {P : Type 0} (files : FileSystem P) where
  -- Where a relative path starts: at the first root that may be written, else in the working directory.
  unfoldable pub StartsAt : List String → P → Type 0
  StartsAt [] base = files.working_directory ≡ ok base
  StartsAt (root ∷ roots) base = base ≡ files.path root

  -- The path is where an expanded one stands: itself if absolute, else from where relative ones start.
  unfoldable pub IsPlaced : ProtectedResourcePolicy → P → P → Type 0
  IsPlaced policy q p =
      ((files.is_absolute q ≡ true) × ResolvesTo files q p)
      ⊎ ((files.is_absolute q ≡ false)
          × ((base : P) × StartsAt policy.authorized_write_roots base
              × ResolvesTo files (files.join_path base q) p))

  -- The path that a text stands for under the policy.
  unfoldable pub StandsFor : ProtectedResourcePolicy → String → P → Type 0
  StandsFor policy raw p =
      (q : P) × (files.expand_user (files.path raw) ≡ ok q) × IsPlaced policy q p

-- The value under the first of the keys that holds a true one.
unfoldable pub IsChosen : {V : Type 0} → Values V → Dict V → List String → V → Type 0
IsChosen values d [] x = ⊥
IsChosen {V} values d (k ∷ ks) x =
    ((get d k ≡ some x) × (values.is_truthy x ≡ true))
    ⊎ (((y : V) → get d k ≡ some y → values.is_truthy y ≡ false) × IsChosen values d ks x)

module _ {P : Type 0} (files : FileSystem P) where
  base_root_iff :
      (roots : List String) (base : P)
      → (base_root files roots ≡ ok base) ↔ StartsAt files roots base
  unfolding base_root StartsAt
  base_root_iff [] base = (λ h. h, λ h. h)
  base_root_iff (root ∷ roots) base = (λ h. sym (ok_inj h), λ h. ap (λ (b : P). ok b) (sym h))

  to_IsPlaced :
      (policy : ProtectedResourcePolicy) (q p : P) (b : Bool)
      → files.is_absolute q ≡ b
      → (if b
          then resolved files q
          else base_root files policy.authorized_write_roots >>= λ base.
              resolved files (files.join_path base q))
        ≡ ok p
      → IsPlaced files policy q p
  unfolding IsPlaced
  to_IsPlaced policy q p true absolute h = inl (absolute, (resolved_iff files q p).0 h)
  to_IsPlaced policy q p false relative h =
      let (base, start, r) = >>=-eq-ok (base_root files policy.authorized_write_roots) _ h in
      inr (
        relative,
        (
          base,
          (base_root_iff policy.authorized_write_roots base).0 start,
          (resolved_iff files (files.join_path base q) p).0 r,
        ),
      )

  from_IsPlaced :
      (policy : ProtectedResourcePolicy) (q p : P)
      → IsPlaced files policy q p
      → placed files policy q ≡ ok p
  unfolding IsPlaced placed
  from_IsPlaced policy q p (inl (absolute, r)) = rw absolute ((resolved_iff files q p).1 r)
  from_IsPlaced policy q p (inr (relative, (base, start, r))) =
      rw (relative, (base_root_iff policy.authorized_write_roots base).1 start)
        ((resolved_iff files (files.join_path base q) p).1 r)

  pub located_iff :
      (policy : ProtectedResourcePolicy) (raw : String) (p : P)
      → (located files policy raw ≡ ok p) ↔ StandsFor files policy raw p
  unfolding located StandsFor placed
  located_iff policy raw p = (
    λ h.
        let (q, e, place) = >>=-eq-ok (files.expand_user (files.path raw)) _ h in
        (q, e, to_IsPlaced policy q p (files.is_absolute q) refl place),
    λ (q, e, place). rw e (from_IsPlaced policy q p place),
  )

  pub text_target-some :
      (policy : ProtectedResourcePolicy) (o : Option String) (p : P)
      → text_target files policy o ≡ ok (some p)
      → (raw : String) × (o ≡ some raw) × (is_blank raw ≡ false) × StandsFor files policy raw p
  unfolding text_target
  text_target-some policy none p h = cc
  text_target-some policy (some raw) p h = go (is_blank raw) refl h
    where
      go :
          (b : Bool)
          → is_blank raw ≡ b
          → (if b then ok none else located files policy raw >>= λ q. ok (some q)) ≡ ok (some p)
          → (r : String) × (◌≡◌ {A = Option String} (some raw) (some r))
            × (is_blank r ≡ false)
            × StandsFor files policy r p
      go true blank h = cc
      go false written h =
          let (q, e, same) = >>=-eq-ok (located files policy raw) _ h in
          (
            raw,
            refl,
            written,
            (located_iff policy raw p).0
                (subst (λ x. located files policy raw ≡ ok x) (some_inj (ok_inj same)) e),
          )

module _ {V : Type 0} (values : Values V) (d : Dict V) where
  chosen_step :
      (o rest : Option V) (x : V)
      → truthy_or values o rest ≡ some x
      → ((o ≡ some x) × (values.is_truthy x ≡ true))
        ⊎ (((y : V) → o ≡ some y → values.is_truthy y ≡ false) × (rest ≡ some x))
  chosen_step none rest x h = inr (λ y e. cc, h)
  chosen_step (some z) rest x h = go (values.is_truthy z) refl h
    where
      go :
          (b : Bool)
          → values.is_truthy z ≡ b
          → (if b then some z else rest) ≡ some x
          → ((some z ≡ some x) × (values.is_truthy x ≡ true))
            ⊎ (((y : V) → some z ≡ some y → values.is_truthy y ≡ false) × (rest ≡ some x))
      go true t h = inl (h, subst (λ y. values.is_truthy y ≡ true) (some_inj h) t)
      go false t h = inr (λ y e. subst (λ y. values.is_truthy y ≡ false) (some_inj e) t, h)

  idle_step :
      (o rest : Option V)
      → ((y : V) → o ≡ some y → values.is_truthy y ≡ false)
      → truthy_or values o rest ≡ rest
  idle_step none rest idle = refl
  idle_step (some y) rest idle = rw (idle y refl)

  pub first_truthy_iff :
      (ks : List String) (x : V) → (first_truthy values d ks ≡ some x) ↔ IsChosen values d ks x
  unfolding first_truthy IsChosen
  first_truthy_iff [] x = (λ h. cc, λ h. absurd h)
  first_truthy_iff (k ∷ ks) x = (
    λ h. elim (chosen_step (get d k) (first_truthy values d ks) x h) [
      | inl found ↦ inl found
      | inr (idle, later) ↦ inr (idle, (first_truthy_iff ks x).0 later)
    ],
    λ h. elim h [
      | inl (found, truthy) ↦ rw (found, truthy)
      | inr (idle, later) ↦
          idle_step (get d k) (first_truthy values d ks) idle ∙ (first_truthy_iff ks x).1 later
    ],
  )
