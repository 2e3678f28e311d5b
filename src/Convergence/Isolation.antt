-- ===== src/Convergence/Isolation.antt =====
-- Causes of one session are kept apart by the tracker of
-- scripts/runtime_contract/convergence.py.
use cognitive_frame_works.Prelude.{String, Option, List, [], ◌∷◌, ◌≡◌, ◌≢◌, refl, ap, ◌∙◌}
use cognitive_frame_works.Prelude.Result.{Result, ok, err}
use cognitive_frame_works.Convergence.Identity.{
  ConvergenceIdentity, identity_for, key-identity_for_ne,
}
use cognitive_frame_works.Convergence.Tracker.{Tracker, state_at}
use cognitive_frame_works.Convergence.Calls.{
  Call, Request, about, terminate_all, call, request, after, run,
}
use cognitive_frame_works.Convergence.Effects.{call-Effect, Effect-elsewhere}

-- No request of the history concerns the cause `d`.
abbrev pub Avoids : String → List Request → Type 0
Avoids d [] = Unit {0}
Avoids d (about c k ∷ rs) = (c ≢ d) × Avoids d rs
Avoids d (terminate_all disposition reason ∷ rs) = ⊥

module _ (failure_digest : String → String → Option String → Option String → String) where
  pub call_isolated :
      (t : Tracker) (c d : String) (k : Call) {j : ConvergenceIdentity} {t' : Tracker}
      → c ≢ d
      → identity_for t.identity d ≡ ok j
      → call failure_digest t c k ≡ ok t'
      → (state_at t' j ≡ state_at t j) × (identity_for t'.identity d ≡ ok j)
  call_isolated t c d k {j} ne valid h =
      let e = call-Effect failure_digest t c k h in
      (
        Effect-elsewhere e j (key-identity_for_ne t.identity c d e.valid valid ne),
        ap (λ b. identity_for b d) e.same_identity ∙ valid,
      )

  -- A history of calls about other causes leaves a cause's retry state as it was.
  pub run_isolated :
      (t : Tracker) (rs : List Request) (d : String) {j : ConvergenceIdentity}
      → Avoids d rs
      → identity_for t.identity d ≡ ok j
      → state_at (run failure_digest t rs) j ≡ state_at t j
  unfolding run request
  run_isolated t [] d a valid = refl
  run_isolated t (about c k ∷ rs) d {j} a valid =
      let now = step (call failure_digest t c k) refl in
      run_isolated (after t (call failure_digest t c k)) rs d a.1 now.1 ∙ now.0
    where
      next : Tracker → Type 0
      next u = (state_at u j ≡ state_at t j) × (identity_for u.identity d ≡ ok j)

      step : (o : Result Tracker) → call failure_digest t c k ≡ o → next (after t o)
      step (ok t') h = call_isolated t c d k a.0 valid h
      step (err x) h = (refl, valid)
  run_isolated t (terminate_all disposition reason ∷ rs) d a valid = absurd a
