-- ===== src/TaskEvidence/Examples.antt =====
-- The theorems about scripts/runtime_contract/task_evidence.py at concrete inputs.
use cognitive_frame_works.Prelude.{
  ◌+◌, String, some, none, List, [], ◌∷◌, true, false, ◌≡◌, ◌≢◌, refl, arith, All, is_bounded_text,
  is_blank, str_len, str_take, keep_last,
}
use cognitive_frame_works.Prelude.Result.{err, ok, value_error}
use cognitive_frame_works.Prelude.Dict.{get}
use cognitive_frame_works.Attention.Facts.{
  CriterionState, ActivityFact, activity_checks, check_activity, check_criterion,
  criterion_statuses, evidence_statuses, is_digest, all_hex, activity_types, fact_sources,
  is_optional_text,
}
use cognitive_frame_works.TaskEvidence.Records.{CriterionEvidenceBinding}
use cognitive_frame_works.TaskEvidence.State.{TaskEvidence, DeclaredCriterion, new_task_evidence}
use cognitive_frame_works.TaskEvidence.Activity.{
  Signature, commit_candidate, verification_limit_exceeded,
}
use cognitive_frame_works.TaskEvidence.Methods.{
  observed_criterion, with_new_digest, record_goal_progress, record_blocker, blocker_fact,
}
use cognitive_frame_works.TaskEvidence.Calls.{
  EvidenceCall, evidence_run, ensure_call, commit_call, satisfy_call, transition_call,
}
use cognitive_frame_works.TaskEvidence.History.{history, IsWithin}
use cognitive_frame_works.TaskEvidence.Bounds.{evidence_run-IsWithin}
use cognitive_frame_works.TaskEvidence.Soundness.{IsSound}
use cognitive_frame_works.TaskEvidence.Commit.{commit_candidate-IsTotal}
use cognitive_frame_works.TaskEvidence.Changes.{Permits}
use cognitive_frame_works.TaskEvidence.Obligations.{Owes, changed_artifact_must_be_verified}
use cognitive_frame_works.TaskEvidence.Limits.{
  IsVerification, verify_all, verification_budget_binds,
}
use cognitive_frame_works.TaskEvidence.Errors.{refused_progress_is_kept, refused_blocker_is_kept}

abbrev sha256 : String → String
sha256 text = "00112233445566778899aabbccddeeff00112233445566778899aabbccddeeff"

abbrev dumps : Signature → String
dumps signature = "{}"

abbrev pub empty_ledger : TaskEvidence
empty_ledger = record {
  activity_limit = 8;
  important_limit = 8;
  workflow_limit = 8;
  failed_approach_limit = 4;
  ordinary = [];
  important = [];
  workflows = [];
  failed_approaches = [];
  next_sequence = 0;
  known_criteria = [];
  active_blockers = [];
  actions_since_artifact_change = none;
  verification_actions_since_artifact_change = 0;
  artifact_revision = 0;
  verification_counts = [];
  verification_fingerprints = [];
  logical_revision = 0;
  verification_requirements = [];
  verification_obligations = [];
}

new_task_evidence_test : new_task_evidence 8 8 8 4 ≡ ok empty_ledger
unfolding new_task_evidence
new_task_evidence_test = refl

abbrev build_declared : DeclaredCriterion
build_declared = record {
  declared_id = "build";
  declared_claim = "the build passes";
  declared_kind = "test";
  verification_strength = "";
  declared_evidence_kind = "";
  required_evidence_kind = "";
}

-- An edit of a file that the build depends on, and a run of the tests.
abbrev edit_fact : ActivityFact
edit_fact = record {
  sequence = 1;
  activity_type = "action";
  source = "host_observed";
  action_class = some "edit";
  host_declared_relation = none;
  target_kind = none;
  target_scope = none;
  target_ref_digest = none;
  proposed_purpose = none;
  proposed_purpose_source = "derived";
  affected_criterion_ids = "build" ∷ [];
  result_class = none;
  artifact_changed = some true;
  progress_class = none;
  evidence_kinds = [];
  relation_certainty = none;
}

abbrev test_fact : ActivityFact
test_fact = record edit_fact { action_class = some "test"; artifact_changed = some false }

edit_fact_test : check_activity edit_fact ≡ ok edit_fact
unfolding check_activity activity_checks activity_types fact_sources is_optional_text
    is_bounded_text is_blank str_len
edit_fact_test = refl

test_fact_test : check_activity test_fact ≡ ok test_fact
unfolding check_activity activity_checks activity_types fact_sources is_optional_text
    is_bounded_text is_blank str_len
test_fact_test = refl

abbrev calls_before : List EvidenceCall
calls_before = ensure_call (build_declared ∷ []) ∷ []

abbrev calls_after : List EvidenceCall
calls_after = satisfy_call "docs" "log" ∷ transition_call ∷ commit_call test_fact none ∷ []

calls_after-Permits : All (Permits (λ x. x ≢ "build")) calls_after
unfolding Permits
calls_after-Permits = ((λ e. cc e), (tt, (tt, tt)))

changed_artifact_must_be_verified_example : Owes "build" (
    evidence_run sha256 dumps calls_after
      (commit_candidate sha256 dumps edit_fact none
        (evidence_run sha256 dumps calls_before empty_ledger)).1)
changed_artifact_must_be_verified_example =
    changed_artifact_must_be_verified sha256 dumps 8 8 8 4 calls_before calls_after "build"
      edit_fact none new_task_evidence_test edit_fact_test refl refl calls_after-Permits

evidence_run-IsWithin_example :
    IsWithin (history (evidence_run sha256 dumps calls_after empty_ledger))
evidence_run-IsWithin_example =
    evidence_run-IsWithin sha256 dumps 8 8 8 4 calls_after new_task_evidence_test

empty_ledger-IsSound : IsSound empty_ledger
unfolding get
empty_ledger-IsSound = record { strengths = λ k r p. cc p; checked = λ k c p. cc p }

commit_candidate-IsTotal_example :
    (commit_candidate sha256 dumps edit_fact none empty_ledger).0
    ≡ ok (record edit_fact { sequence = 0 + 1 })
commit_candidate-IsTotal_example =
    commit_candidate-IsTotal sha256 dumps edit_fact none empty_ledger empty_ledger-IsSound
      edit_fact_test

test_fact-IsVerification : IsVerification ("build" ∷ []) test_fact
test_fact-IsVerification = record {
  checked = test_fact_test;
  action = refl;
  unchanged = refl;
  affected = refl;
}

verification_budget_binds_example :
    verification_limit_exceeded sha256 dumps test_fact "required_verification" 2 5
      (verify_all sha256 dumps (test_fact ∷ test_fact ∷ []) empty_ledger)
    ≡ some "verification_budget_exhausted"
verification_budget_binds_example =
    verification_budget_binds sha256 dumps ("build" ∷ []) (test_fact ∷ test_fact ∷ []) test_fact 2 5
      empty_ledger (test_fact-IsVerification, (test_fact-IsVerification, tt)) refl (omega arith)

abbrev build_criterion : CriterionState
build_criterion = record {
  criterion_id = "build";
  claim = "the build passes";
  kind = "test";
  status = "unmet";
  evidence_status = "none";
  evidence_ref_digests = [];
  last_progress_sequence = none;
}

abbrev build_ledger : TaskEvidence
build_ledger = record empty_ledger { known_criteria = ("build", build_criterion) ∷ [] }

-- A binding whose evidence kind has 65 characters.
abbrev long_binding : CriterionEvidenceBinding
long_binding = record {
  bound_criterion_id = "build";
  evidence_ref = "log";
  evidence_kind = "kkkkkkkkkkkkkkkkkkkkkkkkkkkkkkkkkkkkkkkkkkkkkkkkkkkkkkkkkkkkkkkkk";
  authority = "validator";
  bound_artifact_revision = none;
}

abbrev observed_build : CriterionState
observed_build =
    observed_criterion long_binding "the build passes" "test" (sha256 "log") build_criterion 1

observed_build_test : check_criterion observed_build ≡ ok observed_build
unfolding check_criterion observed_criterion with_new_digest criterion_statuses evidence_statuses
    is_digest all_hex is_bounded_text is_blank str_len keep_last
observed_build_test = refl

long_kind_test : is_bounded_text 64 long_binding.evidence_kind ≡ false
unfolding is_bounded_text is_blank str_len
long_kind_test = refl

build_ledger_test : get build_ledger.known_criteria "build" ≡ some build_criterion
unfolding get
build_ledger_test = refl

refused_progress_is_kept_example :
    ((record_goal_progress sha256 dumps long_binding "the build passes" "test" build_ledger).0
      ≡ err value_error)
    × (get
          (record_goal_progress sha256 dumps long_binding "the build passes" "test"
            build_ledger).1.known_criteria
          "build"
        ≡ some observed_build)
refused_progress_is_kept_example =
    refused_progress_is_kept sha256 dumps long_binding "the build passes" "test" build_ledger
      build_criterion build_ledger_test observed_build_test long_kind_test

blank_summary_test : is_bounded_text 256 (str_take 256 " ") ≡ false
unfolding is_bounded_text is_blank str_take
blank_summary_test = refl

refused_blocker_is_kept_example :
    ((record_blocker sha256 dumps "network" " " [] none empty_ledger).0 ≡ err value_error)
    × (get
          (record_blocker sha256 dumps "network" " " [] none empty_ledger).1.active_blockers
          (str_take 128 "network")
        ≡ some (blocker_fact (str_take 128 "network") " " [] none))
refused_blocker_is_kept_example =
    refused_blocker_is_kept sha256 dumps "network" " " [] none empty_ledger refl blank_summary_test
