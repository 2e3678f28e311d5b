-- ===== src/Convergence/Tracker.antt =====
-- scripts/runtime_contract/convergence.py: `AttemptEvidenceTracker`, the mutable store of retry
-- states. A method returns the state object that it changed and the tracker after the call; no
-- method changes anything before it raises. The SHA-256 of a failure is the parameter
-- `failure_digest` of `record_failure`.
use cognitive_frame_works.Prelude.{
  ℕ, max, String, Option, none, some, [], Bool, false, not, ◌&&◌, ◌||◌, map, all, leb, is_empty,
}
use cognitive_frame_works.Prelude.Result.{Result, ok, value_error, guard, ◌>>=◌, ◌>>◌}
use cognitive_frame_works.Prelude.Dict
use cognitive_frame_works.Prelude.Dict.{Dict}
use cognitive_frame_works.Convergence.Identity.{
  ConvergenceIdentity, SessionIdentity, identity_for, key,
}
use cognitive_frame_works.Convergence.State.{RetryState, new_state}
use cognitive_frame_works.Convergence.Transitions.{
  is_terminal, is_progress_class, is_lane, with_failure, with_progress, with_action, with_recovery,
  with_rejection, with_termination,
}

pub record Tracker : Type 0 where
  pub identity : SessionIdentity
  pub max_recovery_epochs_without_progress : ℕ
  pub max_same_approach_retries : ℕ
  pub states : Dict RetryState

-- `AttemptEvidenceTracker(...)`
unfoldable pub new_tracker : SessionIdentity → ℕ → ℕ → Result Tracker
new_tracker identity max_recovery max_retries = do
  guard (leb 1 max_recovery) value_error
  guard (leb 1 max_retries) value_error
  ok (record {
    identity = identity;
    max_recovery_epochs_without_progress = max_recovery;
    max_same_approach_retries = max_retries;
    states = [];
  })

abbrev pub or_new : ConvergenceIdentity → Option RetryState → RetryState
or_new i none = new_state i
or_new i (some s) = s

-- The state object of an identity: the one in the store, or the default that `setdefault` adds.
unfoldable pub state_at : Tracker → ConvergenceIdentity → RetryState
state_at t i = or_new i (Dict.get t.states (key i))

unfoldable pub store : Tracker → ConvergenceIdentity → RetryState → Tracker
store t i s = record t { states = Dict.put t.states (key i) s }

-- `state = self.state(cause_id)`, changes to its fields, `return state`
unfoldable pub modify : (RetryState → RetryState) → Tracker → String → Result (RetryState × Tracker)
modify f t cause = do
  i ← identity_for t.identity cause
  let s = f (state_at t i)
  ok (s, store t i s)

-- `state`
unfoldable pub state : Tracker → String → Result (RetryState × Tracker)
state = modify (λ s. s)

-- `all_terminated`
unfoldable pub all_terminated : Tracker → Bool
all_terminated t =
    not (is_empty t.states) && all (λ entry. is_terminal (entry.1).disposition) t.states

module _ (failure_digest : String → String → Option String → Option String → String) where
  -- `record_failure`
  unfoldable pub record_failure :
      Tracker
      → String
      → String
      → String
      → Option String
      → Option String
      → Result (RetryState × Tracker)
  record_failure t cause action hypothesis evidence premise =
      modify (with_failure failure_digest action hypothesis evidence premise) t cause

-- `record_reinspection`, at a revision that is not negative
unfoldable pub record_reinspection : Tracker → String → ℕ → Result (RetryState × Tracker)
record_reinspection t cause revision =
    modify
      (λ s. record s { last_reinspection_revision = max s.last_reinspection_revision revision }) t
      cause

-- `record_progress`
unfoldable pub record_progress :
    Tracker → String → String → String → Option String → Result (RetryState × Tracker)
record_progress t cause digest c evidence = do
  guard (is_progress_class c) value_error
  modify (with_progress digest c evidence) t cause

-- `record_committed_action`
unfoldable pub record_committed_action : Tracker → String → String → Result (RetryState × Tracker)
record_committed_action t cause lane = do
  guard (is_lane lane) value_error
  modify (with_action lane) t cause

-- `record_support_action`
unfoldable pub record_support_action : Tracker → String → Result (RetryState × Tracker)
record_support_action t cause = record_committed_action t cause "SUPPORT"

-- `record_recovery_epoch`
unfoldable pub record_recovery_epoch : Tracker → String → Result (RetryState × Tracker)
record_recovery_epoch = modify with_recovery

abbrev pub reached : Option ℕ → ℕ → Bool
reached none n = false
reached (some limit) n = leb limit n

-- `needs_goal_reanchor`: the query adds the state of a new cause to the store
unfoldable pub needs_goal_reanchor : Tracker → String → ℕ → Option ℕ → Result (Bool × Tracker)
needs_goal_reanchor t cause support_limit total_limit = do
  (s, t') ← state t cause
  ok (
    leb support_limit s.support_actions_since_goal_progress
        || reached total_limit s.total_actions_since_goal_progress,
    t',
  )

-- `reject_path`
unfoldable pub reject_path :
    Tracker
    → String
    → String
    → String
    → Option String
    → Option String
    → String
    → Result (RetryState × Tracker)
reject_path t cause action hypothesis evidence premise observed_at =
    modify
      (with_rejection (record {
        cause_id = cause;
        action_fingerprint = action;
        hypothesis_fingerprint = hypothesis;
        premise_digest = premise;
        rejecting_evidence_ref = evidence;
        recorded_at = observed_at;
      }))
      t cause

-- `terminate`: every state in the store
unfoldable pub terminate : Tracker → String → String → Result Tracker
terminate t disposition reason = do
  guard (is_terminal disposition) value_error
  ok (record t {
    states = map (λ entry. (entry.0, with_termination disposition reason entry.1)) t.states;
  })

-- `terminate_cause`
unfoldable pub terminate_cause : Tracker → String → String → String → Result (RetryState × Tracker)
terminate_cause t cause disposition reason = do
  guard (is_terminal disposition) value_error
  modify (with_termination disposition reason) t cause
