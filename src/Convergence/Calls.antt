-- ===== src/Convergence/Calls.antt =====
-- The calls that a host makes on one `AttemptEvidenceTracker` of
-- scripts/runtime_contract/convergence.py, as data, and histories of them.
use cognitive_frame_works.Prelude.{ℕ, String, Option, List, [], ◌∷◌}
use cognitive_frame_works.Prelude.Result.{Result, ok, err}
use cognitive_frame_works.Convergence.Tracker.{
  Tracker, record_failure, record_reinspection, record_progress, record_committed_action,
  record_recovery_epoch, needs_goal_reanchor, reject_path, terminate, terminate_cause,
}
use cognitive_frame_works.Convergence.Enforcer.{Attempt, evaluate}

-- A call about one cause.
pub data Call : Type 0 where
  failure : String → String → Option String → Option String → Call
  reinspection : ℕ → Call
  progress : String → String → Option String → Call
  action : String → Call
  recovery : Call
  reanchor_query : ℕ → Option ℕ → Call
  rejection : String → String → Option String → Option String → String → Call
  termination : String → String → Call
  retry : Attempt → Call

-- A call about one cause, or the termination of them all.
pub data Request : Type 0 where
  about : String → Call → Request
  terminate_all : String → String → Request

abbrev pub tracker_of {ℓ} : {A : Type ℓ} → Result (A × Tracker) → Result Tracker
tracker_of (ok (a, t)) = ok t
tracker_of (err e) = err e

-- A request that raises leaves the tracker as it was.
abbrev pub after : Tracker → Result Tracker → Tracker
after t (ok t') = t'
after t (err e) = t

module _ (failure_digest : String → String → Option String → Option String → String) where
  unfoldable pub call : Tracker → String → Call → Result Tracker
  call t c (failure a h e p) = tracker_of (record_failure failure_digest t c a h e p)
  call t c (reinspection revision) = tracker_of (record_reinspection t c revision)
  call t c (progress digest class e) = tracker_of (record_progress t c digest class e)
  call t c (action lane) = tracker_of (record_committed_action t c lane)
  call t c recovery = tracker_of (record_recovery_epoch t c)
  call t c (reanchor_query limit total) = tracker_of (needs_goal_reanchor t c limit total)
  call t c (rejection a h e p at) = tracker_of (reject_path t c a h e p at)
  call t c (termination d reason) = tracker_of (terminate_cause t c d reason)
  call t c (retry a) = tracker_of (evaluate t c a)

  unfoldable pub request : Tracker → Request → Result Tracker
  request t (about c k) = call t c k
  request t (terminate_all d reason) = terminate t d reason

  unfoldable pub run : Tracker → List Request → Tracker
  run t [] = t
  run t (r ∷ rs) = run (after t (request t r)) rs
