-- ===== src/TaskEvidence/Errors.antt =====
-- scripts/runtime_contract/task_evidence.py: what a method that raises has already changed.
use cognitive_frame_works.Prelude.{
  ℕ, ◌+◌, String, Option, none, some, List, false, ◌||◌, ◌≡◌, refl, ◌∙◌, ◌==◌, is_bounded_text,
  test_at, test_at-all_true, eq_refl, str_take,
}
use cognitive_frame_works.Prelude.Result.{err, ok, value_error}
use cognitive_frame_works.Prelude.Attempt.{attempt}
use cognitive_frame_works.Prelude.Dict.{get, put, get-put}
use cognitive_frame_works.Attention.Facts.{
  CriterionState, ActivityFact, activity_checks, check_activity, check_criterion, is_optional_text,
}
use cognitive_frame_works.TaskEvidence.Records.{CriterionEvidenceBinding}
use cognitive_frame_works.TaskEvidence.State.{TaskEvidence}
use cognitive_frame_works.TaskEvidence.Activity.{
  Signature, ActivityRequest, candidate_fact, make_candidate, record_task_activity,
}
use cognitive_frame_works.TaskEvidence.Methods.{
  plain_request, observed_criterion, progress_request, blocker_request, blocker_fact,
  progress_known, record_goal_progress, record_blocker,
}

-- A fact that fails one of its checks is refused.
check_activity_refused :
    (n : ℕ) (f : ActivityFact)
    → test_at n (activity_checks f) ≡ false
    → check_activity f ≡ err value_error
unfolding check_activity
check_activity_refused n f h = rw (test_at-all_true n (activity_checks f) h)

record_task_activity_refused :
    (sha256 : String → String) (dumps : Signature → String) (n : ℕ) (q : ActivityRequest)
    (r : Option String) (s : TaskEvidence)
    → test_at n (activity_checks (candidate_fact sha256 dumps q (s.next_sequence + 1))) ≡ false
    → record_task_activity sha256 dumps q r s ≡ (err value_error, s)
unfolding record_task_activity make_candidate attempt
record_task_activity_refused sha256 dumps n q r s h =
    rw (check_activity_refused n (candidate_fact sha256 dumps q (s.next_sequence + 1)) h)

-- Progress with an evidence kind that an activity fact refuses, being longer than 64 characters,
-- raises, but the criterion has already become partially observed.
pub refused_progress_is_kept :
    (sha256 : String → String) (dumps : Signature → String) (b : CriterionEvidenceBinding)
    (claim kind : String) (s : TaskEvidence) (prior : CriterionState)
    → get s.known_criteria b.bound_criterion_id ≡ some prior
    → check_criterion
        (observed_criterion b claim kind (sha256 b.evidence_ref) prior (s.next_sequence + 1))
      ≡ ok (observed_criterion b claim kind (sha256 b.evidence_ref) prior (s.next_sequence + 1))
    → is_bounded_text 64 b.evidence_kind ≡ false
    → ((record_goal_progress sha256 dumps b claim kind s).0 ≡ err value_error)
      × (get
            (record_goal_progress sha256 dumps b claim kind s).1.known_criteria
            b.bound_criterion_id
          ≡ some
              (observed_criterion b claim kind (sha256 b.evidence_ref) prior (s.next_sequence + 1)))
unfolding record_goal_progress progress_known attempt record_task_activity
refused_progress_is_kept sha256 dumps b claim kind s prior known checked long =
    let c = observed_criterion b claim kind (sha256 b.evidence_ref) prior (s.next_sequence + 1) in
    let t = record s { known_criteria = put s.known_criteria b.bound_criterion_id c } in
    let refused : record_task_activity sha256 dumps (progress_request b) none t
        ≡ (err value_error, t) =
      record_task_activity_refused sha256 dumps 12 (progress_request b) none t (
        unfold activity_checks in
        unfold candidate_fact in unfold progress_request in unfold plain_request in rw long) in
    let result : record_goal_progress sha256 dumps b claim kind s ≡ (err value_error, t) =
      rw (known, checked) refused in
    rw result (
      refl,
      get-put s.known_criteria b.bound_criterion_id b.bound_criterion_id c
          ∙ rw (eq_refl b.bound_criterion_id),
    )

-- A blocker whose summary is blank but not empty raises, but the blocker has already been stored.
pub refused_blocker_is_kept :
    (sha256 : String → String) (dumps : Signature → String) (k summary : String) (ids : List String)
    (ref : Option String) (s : TaskEvidence)
    → (k == "" || summary == "") ≡ false
    → is_bounded_text 256 (str_take 256 summary) ≡ false
    → ((record_blocker sha256 dumps k summary ids ref s).0 ≡ err value_error)
      × (get (record_blocker sha256 dumps k summary ids ref s).1.active_blockers (str_take 128 k)
          ≡ some (blocker_fact (str_take 128 k) summary ids ref))
unfolding record_blocker
refused_blocker_is_kept sha256 dumps k summary ids ref s named blank =
    let key = str_take 128 k in
    let t = record s {
      active_blockers = put s.active_blockers key (blocker_fact key summary ids ref);
      logical_revision = s.logical_revision + 1;
    } in
    let refused : record_task_activity sha256 dumps (blocker_request summary ids) none t
        ≡ (err value_error, t) =
      record_task_activity_refused sha256 dumps 6 (blocker_request summary ids) none t (
        unfold activity_checks in
        unfold candidate_fact in
        unfold blocker_request in unfold plain_request in unfold is_optional_text in rw blank) in
    rw (named, refused)
      (
        refl,
        get-put s.active_blockers key key (blocker_fact key summary ids ref) ∙ rw (eq_refl key),
      )
