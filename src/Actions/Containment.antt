-- ===== src/Actions/Containment.antt =====
-- When a path of scripts/runtime_contract/actions.py lies in one of the roots, by the parts of the
-- resolved paths and not by the methods of `ProtectedResourcePolicy`.
use cognitive_frame_works.Prelude.{
  String, List, [], ◌∷◌, ◌++◌, and_split, if_holds, Bool, true, false, ◌≡◌, ◌↔◌, ◌⊎◌, inl, inr,
  refl, ◌==◌, eq_iff, if◌then◌else◌,
}
use cognitive_frame_works.Prelude.Result.{Result, ok, >>=-eq-ok}
use cognitive_frame_works.Actions.Paths.{FileSystem, is_relative_to, resolved, is_inside}

-- The parts of the one path begin with all the parts of the other.
unfoldable pub IsUnder : List String → List String → Type 0
IsUnder path root = (rest : List String) × (path ≡ root ++ rest)

module _ {P : Type 0} (files : FileSystem P) where
  -- `q` is `p` with its user expanded, and then resolved.
  unfoldable pub ResolvesTo : P → P → Type 0
  ResolvesTo p q = (r : P) × (files.expand_user p ≡ ok r) × (files.resolve_path r ≡ ok q)

  -- Every root resolves, and the path is not under it.
  unfoldable pub IsOutside : P → List String → Type 0
  IsOutside p [] = Unit
  IsOutside p (raw ∷ roots) =
      ((root : P) × ResolvesTo (files.path raw) root
        × (¬ IsUnder (files.parts p) (files.parts root)))
      × IsOutside p roots

  -- The path is under one of the roots, and the roots resolve up to that one.
  unfoldable pub IsInSome : P → List String → Type 0
  IsInSome p [] = ⊥
  IsInSome p (raw ∷ roots) =
      (root : P) × ResolvesTo (files.path raw) root
      × (IsUnder (files.parts p) (files.parts root) ⊎ IsInSome p roots)

relative_sound : (path root : List String) → is_relative_to path root ≡ true → IsUnder path root
unfolding is_relative_to IsUnder
relative_sound path [] h = (path, refl)
relative_sound [] (r ∷ root) h = cc
relative_sound (p ∷ path) (r ∷ root) h =
    let (same, under) = and_split (p == r) (is_relative_to path root) h in
    let (rest, e) = relative_sound path root under in (rest, cc ((eq_iff p r).0 same, e))

relative_complete : (path root : List String) → IsUnder path root → is_relative_to path root ≡ true
unfolding is_relative_to IsUnder
relative_complete path [] h = refl
relative_complete [] (r ∷ root) (rest, h) = cc
relative_complete (p ∷ path) (r ∷ root) (rest, h) =
    let same : p ≡ r = cc h in
    let later : path ≡ root ++ rest = cc h in
    rw ((eq_iff p r).1 same) (relative_complete path root (rest, later))

relative_false : (path root : List String) → is_relative_to path root ≡ false → ¬ IsUnder path root
relative_false path root h under = let h' = relative_complete path root under in cc

not_relative : (path root : List String) → (¬ IsUnder path root) → is_relative_to path root ≡ false
not_relative path root h = go (is_relative_to path root) refl
  where
    go : (b : Bool) → is_relative_to path root ≡ b → is_relative_to path root ≡ false
    go false e = e
    go true e = absurd (h (relative_sound path root e))

-- What a test with one answer, or the rest of a loop, says.
found_or_later :
    (b : Bool) (rest : Result Bool)
    → (if b then ok true else rest) ≡ ok true
    → (b ≡ true) ⊎ (rest ≡ ok true)
found_or_later true rest h = inl refl
found_or_later false rest h = inr h

not_found :
    (b : Bool) (rest : Result Bool)
    → (if b then ok true else rest) ≡ ok false
    → (b ≡ false) × (rest ≡ ok false)
not_found true rest h = cc
not_found false rest h = (refl, h)

module _ {P : Type 0} (files : FileSystem P) where
  pub resolved_iff : (p q : P) → (resolved files p ≡ ok q) ↔ ResolvesTo files p q
  unfolding resolved ResolvesTo
  resolved_iff p q = (λ h. >>=-eq-ok (files.expand_user p) _ h, λ (r, e, f). rw (e, f))

  pub inside_some :
      (p : P) (roots : List String) → (is_inside files p roots ≡ ok true) ↔ IsInSome files p roots
  unfolding is_inside IsInSome
  inside_some p [] = (λ h. cc, λ h. absurd h)
  inside_some p (raw ∷ roots) = (
    λ h.
        let (root, e, tested) = >>=-eq-ok (resolved files (files.path raw)) _ h in
        (
          root,
          (resolved_iff (files.path raw) root).0 e,
          elim (found_or_later _ _ tested) [
            | inl under ↦ inl (relative_sound (files.parts p) (files.parts root) under)
            | inr later ↦ inr ((inside_some p roots).0 later)
          ],
        ),
    λ (root, r, place). rw ((resolved_iff (files.path raw) root).1 r) (elim place [
      | inl under ↦ rw (relative_complete (files.parts p) (files.parts root) under)
      | inr later ↦ rw ((inside_some p roots).1 later) (
          if_holds (λ (x : Result Bool). x ≡ ok true)
            (is_relative_to (files.parts p) (files.parts root)) refl refl)
    ]),
  )

  pub inside_none :
      (p : P) (roots : List String) → (is_inside files p roots ≡ ok false) ↔ IsOutside files p roots
  unfolding is_inside IsOutside
  inside_none p [] = (λ h. tt, λ h. refl)
  inside_none p (raw ∷ roots) = (
    λ h.
        let (root, e, tested) = >>=-eq-ok (resolved files (files.path raw)) _ h in
        let (apart, later) = not_found _ _ tested in
        (
          (
            root,
            (resolved_iff (files.path raw) root).0 e,
            relative_false (files.parts p) (files.parts root) apart,
          ),
          (inside_none p roots).0 later,
        ),
    λ ((root, r, apart), later). rw (
      (resolved_iff (files.path raw) root).1 r,
      not_relative (files.parts p) (files.parts root) apart,
      (inside_none p roots).1 later,
    ),
  )
