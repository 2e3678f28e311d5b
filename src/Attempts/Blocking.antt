-- ===== src/Attempts/Blocking.antt =====
-- What an exhausted shared branch means for the retries of a session, by
-- scripts/runtime_session/attempts.py and scripts/runtime_contract/convergence.py together.
use cognitive_frame_works.Prelude.{
  ℕ, String, Option, none, some, List, Bool, true, false, not, leb, ◌≡◌, sym, ap, subst, ◌∙◌,
  eq_refl, if◌then◌else◌,
}
use cognitive_frame_works.Prelude.Result.{Result, ok, ok_inj, >>=-eq-ok}
use cognitive_frame_works.Prelude.Attempt.{attempt-ok}
use cognitive_frame_works.Prelude.Dict.{get-put}
use cognitive_frame_works.Convergence.Identity.{
  AttemptDescriptor, ConvergenceIdentity, identity_for, key,
}
use cognitive_frame_works.Convergence.State.{RetryState}
use cognitive_frame_works.Convergence.Transitions.{with_termination, is_terminal-blocked}
use cognitive_frame_works.Convergence.Tracker.{Tracker, state_at, store, modify}
use cognitive_frame_works.Convergence.Enforcer.{block, Attempt, evaluate}
use cognitive_frame_works.Convergence.Calls.{Request, run}
use cognitive_frame_works.Convergence.Finality.{IsOver, run-IsOver, IsOver-blocks}
use cognitive_frame_works.Convergence.Ledger.{Table}
use cognitive_frame_works.Attempts.Session.{AttemptSession, shared_ledger}
use cognitive_frame_works.Attempts.Record.{
  end_shared_cause, shared_exhaustion, shared_branch_exhausted,
}

-- Ending a cause leaves it over.
ended-IsOver :
    (reason : String) (t : Tracker) (c : String) {r : RetryState} {t' : Tracker}
    → modify (with_termination "BLOCKED" reason) t c ≡ ok (r, t')
    → (i : ConvergenceIdentity) × (identity_for t'.identity c ≡ ok i) × IsOver t' (key i)
unfolding modify store with_termination
ended-IsOver reason t c {r} {t'} h =
    let (i, valid, same) = >>=-eq-ok _ _ h in
    let ended = with_termination "BLOCKED" reason (state_at t i) in
    let over : IsOver (store t i ended) (key i) = record {
      state = ended;
      stored = get-put t.states (key i) (key i) ended ∙ rw (eq_refl (key i));
      ended = is_terminal-blocked;
    } in
    let result : store t i ended ≡ t' = ap (λ (p : RetryState × Tracker). p.1) (ok_inj same) in
    (
      i,
      subst (λ (x : Tracker). identity_for x.identity c ≡ ok i) result valid,
      subst (λ (x : Tracker). IsOver x (key i)) result over,
    )

-- The answer that a branch is exhausted comes from ending the cause.
exhaustion_ends :
    (o : Option Table) (d : AttemptDescriptor) (limit : ℕ) (s : AttemptSession)
    {s' : AttemptSession}
    → shared_exhaustion o d limit s ≡ (ok true, s')
    → end_shared_cause s.controller d.cause_id s ≡ (ok true, s')
unfolding shared_exhaustion
exhaustion_ends none d limit s h = cc
exhaustion_ends (some table) d limit s h =
    let (count, _, goes_on) = attempt-ok _ s _ (ap (λ (p : Result Bool × AttemptSession). p.0) h) in
    go (leb limit count) (sym goes_on ∙ h)
  where
    go :
        (b : Bool) {s' : AttemptSession}
        → (if not b then (ok false, s) else end_shared_cause s.controller d.cause_id s)
          ≡ (ok true, s')
        → end_shared_cause s.controller d.cause_id s ≡ (ok true, s')
    go true h = h
    go false h = cc

-- Once a session with a tracker has found the shared branch of an attempt exhausted, its tracker
-- blocks every later attempt at that cause, whatever calls about this or other causes come between.
pub exhausted_branch_stays_blocked :
    (failure_digest : String → String → Option String → Option String → String)
    (d : AttemptDescriptor) (limit : ℕ) (s : AttemptSession) (t : Tracker) {s' : AttemptSession}
    → s.controller ≡ some t
    → shared_branch_exhausted d limit s ≡ (ok true, s')
    → (t' : Tracker) × (s'.controller ≡ some t')
      × ((rs : List Request) (later : Attempt)
          → (v : Tracker) × (evaluate (run failure_digest t' rs) d.cause_id later ≡ ok (block, v)))
unfolding shared_branch_exhausted end_shared_cause
exhausted_branch_stays_blocked failure_digest d limit s t {s'} has h =
    let ends = exhaustion_ends (shared_ledger s) d limit s h in
    let ends' : end_shared_cause (some t) d.cause_id s ≡ (ok true, s') =
      subst (λ (o : Option Tracker). end_shared_cause o d.cause_id s ≡ (ok true, s')) has ends in
    let ((r, t'), modified, goes_on) =
      attempt-ok _ s _ (ap (λ (p : Result Bool × AttemptSession). p.0) ends') in
    let (i, valid, over) = ended-IsOver "shared_premise_recovery_limit" t d.cause_id modified in
    (
      t',
      ap (λ (p : Result Bool × AttemptSession). (p.1).controller) (sym ends' ∙ goes_on),
      λ rs later.
          let (o, same) = run-IsOver failure_digest t' rs (key i) over in
          IsOver-blocks (run failure_digest t' rs) d.cause_id later
            (ap (λ b. identity_for b d.cause_id) same ∙ valid) o,
    )
