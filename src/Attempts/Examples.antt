-- ===== src/Attempts/Examples.antt =====
-- The theorems about scripts/runtime_session/attempts.py at concrete inputs.
use cognitive_frame_works.Prelude.{
  String, Option, none, some, List, [], ◌∷◌, true, false, ◌≡◌, refl, is_bounded, is_bounded_text,
  is_blank, str_len,
}
use cognitive_frame_works.Prelude.Result.{err, ok, value_error}
use cognitive_frame_works.Prelude.Attempt.{attempt, proceed}
use cognitive_frame_works.Prelude.Dict.{get}
use cognitive_frame_works.Convergence.Identity.{
  AttemptDescriptor, identity_for, check_identity, session_scope,
}
use cognitive_frame_works.Convergence.State.{RetryState}
use cognitive_frame_works.Convergence.Transitions.{with_failure}
use cognitive_frame_works.Convergence.Tracker.{Tracker, modify, state_at, store, record_failure}
use cognitive_frame_works.Convergence.Enforcer.{block, Attempt, evaluate}
use cognitive_frame_works.Convergence.Calls.{Request, run}
use cognitive_frame_works.Convergence.Ledger.{
  check_scope, same_scope, select_row, upsert_row, failed_row, record_branch_failure,
  recovery_count,
}
use cognitive_frame_works.Convergence.Examples.{session, fresh_tracker}
use cognitive_frame_works.Attention.Facts.{AttemptSemanticDescriptor}
use cognitive_frame_works.TaskEvidence.Examples.{empty_ledger}
use cognitive_frame_works.Attempts.Session.{
  EvidenceRecord, AttemptSession, shared_ledger, asked_scope,
}
use cognitive_frame_works.Attempts.Record.{
  end_shared_cause, shared_exhaustion, shared_branch_exhausted, current_record, recorded_scope,
  failed_semantic, record_semantic, share_failure, track_failure, count_failure,
  record_attempt_failure,
}
use cognitive_frame_works.Attempts.Blocking.{exhausted_branch_stays_blocked}
use cognitive_frame_works.Attempts.Repeats.{repeated_failure_changes_nothing}
use cognitive_frame_works.Attempts.Refusals.{Unfit, late_refusal_is_counted}

abbrev failure_name : String → String → Option String → Option String → String
failure_name a h e p = a

abbrev digest : String
digest = "00112233445566778899aabbccddeeff00112233445566778899aabbccddeeff"

abbrev first_plan : AttemptDescriptor
first_plan = record {
  attempt_ref = "attempt-1";
  cause_id = "build";
  premise_digest = "premise";
  action_plan_digest = "plan";
  parent_attempt_ref = none;
}

abbrev test_log : EvidenceRecord
test_log = record {
  evidence_id = "log-1";
  evidence_task_id = "task-7";
  kind = "tool_result";
  evidence_subject_ref = none;
  observed_at = "now";
  invalidated = false;
  event_id = none;
  issuer = none;
  source_event_id = none;
  invocation_id = some "call-1";
  content_digest = none;
  claim_digest = none;
  schema = none;
  validator = none;
  covered_boundary_ids = [];
}

abbrev meaning : AttemptSemanticDescriptor
meaning = record {
  cause_class = "build";
  hypothesis_summary = "a missing import";
  mechanism = "edit";
  evidence_target = "the build";
  planned_action_class = "write";
  planned_target_kind = "file";
  failed_result_class = "pending";
  premise_digest = digest;
  action_plan_digest = digest;
  affected_criterion_ids = [];
  source = "model_proposed";
}

-- A session that is a member of a workflow, with one attempt and no failure.
abbrev shared_session : AttemptSession
shared_session = record {
  controller = some fresh_tracker;
  descriptors = ("attempt-1", first_plan) ∷ [];
  semantics = [];
  failures = [];
  shared_branch_ledger = some [];
  shared_workflow_membership = record {
    member_namespace_id = some "team";
    member_application_instance_id = some "app";
    member_workflow_id = some "workflow";
  };
  evidence_ledger = ("log-1", test_log) ∷ [];
  host_invocations = ("call-1", some " ") ∷ [];
  task_evidence = empty_ledger;
  attention_state = none;
}

abbrev failed_session : AttemptSession
failed_session =
    (record_attempt_failure (λ r. r) failure_name true "attempt-1" "log-1" shared_session).1

failed_test :
    record_attempt_failure (λ r. r) failure_name true "attempt-1" "log-1" shared_session
    ≡ (ok tt, failed_session)
unfolding record_attempt_failure attempt proceed get current_record count_failure shared_ledger
    share_failure recorded_scope record_branch_failure check_scope is_bounded track_failure
    record_failure modify identity_for check_identity record_semantic
failed_test = refl

failed_log_test : get failed_session.evidence_ledger "log-1" ≡ some test_log
unfolding record_attempt_failure attempt proceed get current_record count_failure shared_ledger
    share_failure recorded_scope record_branch_failure check_scope is_bounded track_failure
    record_failure modify identity_for check_identity record_semantic
failed_log_test = refl

repeated_failure_changes_nothing_example :
    record_attempt_failure (λ r. r) failure_name true "attempt-1" "log-1" failed_session
    ≡ (ok tt, failed_session)
repeated_failure_changes_nothing_example =
    repeated_failure_changes_nothing (λ r. r) failure_name "attempt-1" true "log-1" "log-1"
      shared_session test_log failed_test failed_log_test refl

-- The session after the shared branch, with its one failure, has been found exhausted.
abbrev blocked_session : AttemptSession
blocked_session = (shared_branch_exhausted first_plan 1 failed_session).1

exhausted_test : shared_branch_exhausted first_plan 1 failed_session ≡ (ok true, blocked_session)
unfolding shared_branch_exhausted shared_exhaustion asked_scope recovery_count end_shared_cause
    record_attempt_failure attempt proceed get current_record count_failure shared_ledger
    share_failure recorded_scope record_branch_failure check_scope is_bounded track_failure
    record_failure modify identity_for check_identity record_semantic upsert_row select_row
    same_scope failed_row store
exhausted_test = refl

abbrev failed_tracker : Tracker
unfolding record_failure modify identity_for check_identity is_bounded
failed_tracker =
    elim (record_failure failure_name fresh_tracker "build" "plan" "premise" (some "log-1")
      (some "premise")) [ ok (r, t) ↦ t | err x ↦ fresh_tracker ]

failed_tracker_test : failed_session.controller ≡ some failed_tracker
unfolding failed_tracker record_attempt_failure attempt proceed get current_record count_failure
    shared_ledger share_failure recorded_scope record_branch_failure check_scope is_bounded
    track_failure record_failure modify identity_for check_identity record_semantic
failed_tracker_test = refl

exhausted_branch_stays_blocked_example :
    (t' : Tracker) × (blocked_session.controller ≡ some t')
    × ((rs : List Request) (later : Attempt)
        → (v : Tracker) × (evaluate (run failure_name t' rs) "build" later ≡ ok (block, v)))
exhausted_branch_stays_blocked_example =
    exhausted_branch_stays_blocked failure_name first_plan 1 failed_session failed_tracker
      failed_tracker_test exhausted_test

-- A session alone, whose attempt has a meaning and whose host saw a blank result class.
abbrev lone_session : AttemptSession
lone_session = record shared_session {
  semantics = ("attempt-1", meaning) ∷ [];
  shared_branch_ledger = none;
}

abbrev failed_state : RetryState
unfolding with_failure
failed_state =
    with_failure failure_name "plan" "premise" (some "log-1") (some "premise")
      (state_at fresh_tracker (session_scope session "build"))

failed_state_test :
    record_failure failure_name fresh_tracker "build" "plan" "premise"
      (some "log-1")
      (some "premise")
    ≡ ok (failed_state, failed_tracker)
unfolding failed_state failed_tracker record_failure modify identity_for check_identity is_bounded
failed_state_test = refl

lone_test : shared_ledger lone_session ≡ none
unfolding shared_ledger
lone_test = refl

lone_plan_test : get lone_session.descriptors "attempt-1" ≡ some first_plan
unfolding get
lone_plan_test = refl

lone_log_test : get lone_session.evidence_ledger "log-1" ≡ some test_log
unfolding get
lone_log_test = refl

lone_meaning_test : get lone_session.semantics "attempt-1" ≡ some meaning
unfolding get
lone_meaning_test = refl

blank_class_test : Unfit meaning test_log lone_session
unfolding get failed_semantic is_bounded_text is_blank str_len
blank_class_test = refl

late_refusal_is_counted_example :
    record_attempt_failure (λ r. r) failure_name true "attempt-1" "log-1" lone_session
    ≡ (err value_error, record lone_session { controller = some failed_tracker })
late_refusal_is_counted_example =
    late_refusal_is_counted (λ r. r) failure_name "attempt-1" "log-1" lone_session fresh_tracker
      first_plan test_log meaning refl lone_plan_test lone_log_test refl refl lone_test
      lone_meaning_test blank_class_test failed_state_test
