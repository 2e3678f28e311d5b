-- ===== src/Actions/Writes.antt =====
-- Which writes `ProtectedResourcePolicy` of scripts/runtime_contract/actions.py lets through.
use cognitive_frame_works.Prelude.{
  String, Option, none, some, [], ◌∷◌, Bool, true, false, not, ◌≡◌, ◌≢◌, ◌↔◌, refl, ap, ◌∙◌,
  is_blank, if◌then◌else◌,
}
use cognitive_frame_works.Prelude.Result.{Result, err, ok, ◌>>=◌, >>=-eq-ok}
use cognitive_frame_works.Prelude.Dict.{Dict}
use cognitive_frame_works.Actions.Values.{Values, first_truthy}
use cognitive_frame_works.Actions.Paths.{
  FileSystem, ProtectedResourcePolicy, target_keys, is_inside, text_target, target_path,
  classify_target, classify_write,
}
use cognitive_frame_works.Actions.Containment.{IsOutside, IsInSome, inside_some, inside_none}
use cognitive_frame_works.Actions.Paths.{raw_text}
use cognitive_frame_works.Actions.Targets.{
  IsChosen, StandsFor, text_target-some, first_truthy_iff, located_iff,
}

-- The target of a write is a text that is not blank, under the first of the three keys that holds a
-- true value; it stands for a path that is outside every protected root and in an authorized one.
unfoldable pub MayWrite :
    {P V : Type 0} → FileSystem P → Values V → ProtectedResourcePolicy → Dict V → Type 0
MayWrite {P} {V} files values policy arguments =
    (x : V) × (raw : String) × (p : P) × IsChosen values arguments
      ("target" ∷ "path" ∷ "resource" ∷ []) x
    × (values.as_text x ≡ some raw)
    × (is_blank raw ≡ false)
    × StandsFor files policy raw p
    × IsOutside files p policy.protected_roots
    × IsInSome files p policy.authorized_write_roots

authorized_parts :
    (a : Bool) (inside : Result Bool)
    → ◌≡◌ {A = Result String}
        (if a
          then ok "protected"
          else inside >>= λ b. ok (if not b then "outside_scope" else "authorized"))
        (ok "authorized")
    → (a ≡ false) × (inside ≡ ok true)
authorized_parts true inside h = cc
authorized_parts false (ok true) h = (refl, refl)
authorized_parts false (ok false) h = cc
authorized_parts false (err x) h = cc

module _ {P V : Type 0} (files : FileSystem P) (values : Values V) where
  raw_text-some :
      (o : Option V) (raw : String)
      → raw_text files values o ≡ some raw
      → (x : V) × (o ≡ some x) × (values.as_text x ≡ some raw)
  raw_text-some none raw h = cc
  raw_text-some (some x) raw h = (x, refl, h)

  classify_some :
      (policy : ProtectedResourcePolicy) (p : P)
      → classify_target files policy (some p) ≡ ok "authorized"
      → (is_inside files p policy.protected_roots ≡ ok false)
        × (is_inside files p policy.authorized_write_roots ≡ ok true)
  unfolding classify_target
  classify_some policy p h =
      let (a, protected, later) = >>=-eq-ok (is_inside files p policy.protected_roots) _ h in
      let (out, inside) =
        authorized_parts a (is_inside files p policy.authorized_write_roots) later in
      (protected ∙ ap (λ (b : Bool). ok b) out, inside)

  classify_none :
      (policy : ProtectedResourcePolicy) → classify_target files policy none ≢ ok "authorized"
  unfolding classify_target
  classify_none policy h = cc

  target_of :
      (policy : ProtectedResourcePolicy) (arguments : Dict V) (p : P)
      → target_path files values policy arguments ≡ ok (some p)
      → (x : V) × (raw : String) × (first_truthy values arguments target_keys ≡ some x)
        × (values.as_text x ≡ some raw)
        × (is_blank raw ≡ false)
        × StandsFor files policy raw p
  unfolding target_path
  target_of policy arguments p e =
      let (raw, asked, written, stands) =
        text_target-some files policy
          (raw_text files values (first_truthy values arguments target_keys)) p e in
      let (x, chosen, text) = raw_text-some (first_truthy values arguments target_keys) raw asked in
      (x, raw, chosen, text, written, stands)

  classified :
      (policy : ProtectedResourcePolicy) (arguments : Dict V) (target : Option P)
      → target_path files values policy arguments ≡ ok target
      → classify_target files policy target ≡ ok "authorized"
      → MayWrite files values policy arguments
  unfolding MayWrite target_keys
  classified policy arguments none e h = absurd (classify_none policy h)
  classified policy arguments (some p) e h =
      let (out, inside) = classify_some policy p h in
      let (x, raw, chosen, text, written, stands) = target_of policy arguments p e in
      (
        x,
        raw,
        p,
        (first_truthy_iff values arguments target_keys x).0 chosen,
        text,
        written,
        stands,
        (inside_none files p policy.protected_roots).0 out,
        (inside_some files p policy.authorized_write_roots).0 inside,
      )

  target_complete :
      (policy : ProtectedResourcePolicy) (arguments : Dict V) (x : V) (raw : String) (p : P)
      → first_truthy values arguments target_keys ≡ some x
      → values.as_text x ≡ some raw
      → is_blank raw ≡ false
      → StandsFor files policy raw p
      → target_path files values policy arguments ≡ ok (some p)
  unfolding target_path text_target
  target_complete policy arguments x raw p chosen text written stands =
      rw (chosen, text, written, (located_iff files policy raw p).1 stands)

  classify_complete :
      (policy : ProtectedResourcePolicy) (p : P)
      → is_inside files p policy.protected_roots ≡ ok false
      → is_inside files p policy.authorized_write_roots ≡ ok true
      → classify_target files policy (some p) ≡ ok "authorized"
  unfolding classify_target
  classify_complete policy p out inside = rw (out, inside)

  -- A write is authorized exactly if the first of the arguments target, path and resource that holds a
  -- true value is a text that is not blank, and the path that it stands for (resolved, and if relative
  -- from the first authorized root, else the working directory) has all the parts of the resolved path
  -- of some authorized root at its beginning and of no protected root; no step of this raises.
  pub classify_write-authorized_iff :
      (policy : ProtectedResourcePolicy) (arguments : Dict V)
      → (classify_write files values policy arguments ≡ ok "authorized")
        ↔ MayWrite files values policy arguments
  unfolding classify_write MayWrite target_keys
  classify_write-authorized_iff policy arguments = (
    λ h.
        let (target, e, later) = >>=-eq-ok (target_path files values policy arguments) _ h in
        classified policy arguments target e later,
    λ (x, raw, p, chosen, text, written, stands, out, inside).
        rw
          (target_complete policy arguments x raw p
            ((first_truthy_iff values arguments target_keys x).1 chosen) text written stands)
          (classify_complete policy p ((inside_none files p policy.protected_roots).1 out)
            ((inside_some files p policy.authorized_write_roots).1 inside)),
  )
