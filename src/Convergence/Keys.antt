-- ===== src/Convergence/Keys.antt =====
-- That the dictionary of a tracker of scripts/runtime_contract/convergence.py never lists a key twice,
-- as no dictionary of Python does.
use cognitive_frame_works.Prelude.{
  String, Option, [], ◌∷◌, Bool, true, false, ◌∙◌, map, leb, if_holds, ap,
}
use mathlib.Core.Option
use cognitive_frame_works.Prelude.Result.{Result, ok, err, value_error, guard, ◌>>=◌, ◌>>◌}
use cognitive_frame_works.Prelude.Dict.{Dict}
use cognitive_frame_works.Prelude.Sorted.{Distinct, put-Distinct}
use cognitive_frame_works.Convergence.Identity.{ConvergenceIdentity, identity_for, key}
use cognitive_frame_works.Convergence.State.{RetryState, RetryStateDict, state_from_dict}
use cognitive_frame_works.Convergence.Transitions.{is_terminal, with_termination}
use cognitive_frame_works.Convergence.Tracker.{
  Tracker, state_at, store, modify, state, record_failure, record_reinspection, record_progress,
  record_committed_action, record_recovery_epoch, needs_goal_reanchor, reject_path, terminate,
  terminate_cause,
}
use cognitive_frame_works.Convergence.Enforcer.{Attempt, with_delegation, judge, evaluate}
use cognitive_frame_works.Convergence.Calls.{
  Call, failure, reinspection, progress, action, recovery, reanchor_query, rejection, termination,
  retry, call, Request, about, terminate_all, request, after, tracker_of,
}
use cognitive_frame_works.Convergence.Histories.{get-map}
use cognitive_frame_works.Convergence.Snapshot.{keep_read, restore_states}

-- A call that returns leaves a tracker whose keys are distinct.
abbrev LeavesDistinct : {A : Type 0} → Result (A × Tracker) → Type 0
LeavesDistinct (ok (a, t)) = Distinct t.states
LeavesDistinct (err e) = Unit

guard-LeavesDistinct :
    {A : Type 0} (b : Bool) (x : Result (A × Tracker))
    → LeavesDistinct x
    → LeavesDistinct (guard b value_error >> x)
guard-LeavesDistinct true x h = h
guard-LeavesDistinct false x h = tt

then-LeavesDistinct :
    {A B : Type 0} (x : Result (A × Tracker)) (next : A × Tracker → Result (B × Tracker))
    → LeavesDistinct x
    → ((a : A) (t : Tracker) → Distinct t.states → LeavesDistinct (next (a, t)))
    → LeavesDistinct (x >>= next)
then-LeavesDistinct (ok (a, t)) next h rest = rest a t h
then-LeavesDistinct (err e) next h rest = tt

modify-LeavesDistinct :
    (f : RetryState → RetryState) (t : Tracker) (c : String)
    → Distinct t.states
    → LeavesDistinct (modify f t c)
unfolding modify store
modify-LeavesDistinct f t c h = go (identity_for t.identity c)
  where
    go :
        (x : Result ConvergenceIdentity)
        → LeavesDistinct (x >>= λ i. ok (f (state_at t i), store t i (f (state_at t i))))
    go (ok i) = put-Distinct t.states (key i) (f (state_at t i)) h
    go (err e) = tt

judge-LeavesDistinct :
    (t : Tracker) (c : String) (a : Attempt) (s : RetryState)
    → Distinct t.states
    → LeavesDistinct (judge t c a s)
unfolding judge terminate_cause
judge-LeavesDistinct t c a s h = if_holds LeavesDistinct (is_terminal s.disposition) h (
    if_holds LeavesDistinct (leb a.support_action_limit s.support_actions_since_goal_progress) h (
      if_holds LeavesDistinct
        (leb t.max_recovery_epochs_without_progress s.recovery_epochs_since_goal_progress)
        (then-LeavesDistinct
          (guard (is_terminal "BLOCKED") value_error
            >> modify (with_termination "BLOCKED" "max_recovery_epochs_without_progress") t c)
          _ (guard-LeavesDistinct (is_terminal "BLOCKED") _ (modify-LeavesDistinct _ t c h))
          (λ r t' h'. h'))
        h))

tracker_of-Distinct :
    {A : Type 0} (t : Tracker) (x : Result (A × Tracker))
    → Distinct t.states
    → LeavesDistinct x
    → Distinct (after t (tracker_of x)).states
tracker_of-Distinct t (ok (a, t')) h h' = h'
tracker_of-Distinct t (err e) h h' = h

map-Distinct :
    (f : RetryState → RetryState) (d : Dict RetryState)
    → Distinct d
    → Distinct (map (λ entry. (entry.0, f entry.1)) d)
map-Distinct f [] u = tt
map-Distinct f ((k, s) ∷ d) u = (get-map f d k ∙ ap (Option.map f) u.0, map-Distinct f d u.1)

module _ (failure_digest : String → String → Option String → Option String → String) where
  call-Distinct :
      (t : Tracker) (c : String) (k : Call)
      → Distinct t.states
      → Distinct (after t (call failure_digest t c k)).states
  unfolding call record_failure record_reinspection record_progress record_committed_action
      record_recovery_epoch needs_goal_reanchor state reject_path terminate_cause evaluate
  call-Distinct t c (failure a f e p) h =
      tracker_of-Distinct t (modify _ t c) h (modify-LeavesDistinct _ t c h)
  call-Distinct t c (reinspection revision) h =
      tracker_of-Distinct t (modify _ t c) h (modify-LeavesDistinct _ t c h)
  call-Distinct t c (progress digest class e) h =
      tracker_of-Distinct t (guard _ value_error >> modify _ t c) h
        (guard-LeavesDistinct _ _ (modify-LeavesDistinct _ t c h))
  call-Distinct t c (action lane) h =
      tracker_of-Distinct t (guard _ value_error >> modify _ t c) h
        (guard-LeavesDistinct _ _ (modify-LeavesDistinct _ t c h))
  call-Distinct t c recovery h =
      tracker_of-Distinct t (modify _ t c) h (modify-LeavesDistinct _ t c h)
  call-Distinct t c (reanchor_query limit total) h =
      tracker_of-Distinct t (modify (λ s. s) t c >>= _) h (
        then-LeavesDistinct (modify (λ s. s) t c) _ (modify-LeavesDistinct (λ s. s) t c h)
          (λ s t' h'. h'))
  call-Distinct t c (rejection a f e p at) h =
      tracker_of-Distinct t (modify _ t c) h (modify-LeavesDistinct _ t c h)
  call-Distinct t c (termination d reason) h =
      tracker_of-Distinct t (guard _ value_error >> modify _ t c) h
        (guard-LeavesDistinct _ _ (modify-LeavesDistinct _ t c h))
  call-Distinct t c (retry a) h = tracker_of-Distinct t (evaluate t c a) h (
      then-LeavesDistinct (modify (with_delegation a) t c) _
        (modify-LeavesDistinct (with_delegation a) t c h)
        (λ s t' h'. judge-LeavesDistinct t' c a s h'))

  pub request-Distinct :
      (t : Tracker) (r : Request)
      → Distinct t.states
      → Distinct (after t (request failure_digest t r)).states
  unfolding request terminate
  request-Distinct t (about c k) h = call-Distinct t c k h
  request-Distinct t (terminate_all d reason) h = go (is_terminal d)
    where
      go :
          (b : Bool)
          → Distinct
              (after t (
                guard b value_error
                >> ok (record t {
                  states = map (λ entry. (entry.0, with_termination d reason entry.1)) t.states;
                }))).states
      go true = map-Distinct (with_termination d reason) t.states h
      go false = h

pub restore_states-Distinct :
    (d : Dict RetryState) (items : Dict RetryStateDict)
    → Distinct d
    → Distinct (restore_states d items)
unfolding restore_states
restore_states-Distinct d [] h = h
restore_states-Distinct d ((k, x) ∷ items) h =
    restore_states-Distinct (keep_read d k (state_from_dict x)) items (go (state_from_dict x))
  where
    go : (y : Result RetryState) → Distinct (keep_read d k y)
    go (ok s) = put-Distinct d k s h
    go (err e) = h
