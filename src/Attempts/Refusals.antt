-- ===== src/Attempts/Refusals.antt =====
-- What `_record_attempt_failure` of scripts/runtime_session/attempts.py leaves where it raises late.
use cognitive_frame_works.Prelude.{
  String, Option, none, some, true, false, one_of, ◌≡◌, is_bounded_text, test_at-all_true,
}
use cognitive_frame_works.Prelude.Result.{err, ok, value_error}
use cognitive_frame_works.Prelude.Attempt.{attempt, proceed}
use cognitive_frame_works.Prelude.Dict.{get}
use cognitive_frame_works.Convergence.Identity.{AttemptDescriptor}
use cognitive_frame_works.Convergence.State.{RetryState}
use cognitive_frame_works.Convergence.Tracker.{Tracker, record_failure}
use cognitive_frame_works.Attention.Facts.{AttemptSemanticDescriptor, check_descriptor}
use cognitive_frame_works.Attempts.Session.{
  EvidenceRecord, AttemptSession, shared_ledger, text_or_blank,
}
use cognitive_frame_works.Attempts.Record.{
  current_record, result_class_of, failed_semantic, record_semantic, share_failure, track_failure,
  count_failure, record_attempt_failure,
}

check_descriptor_refused :
    (d : AttemptSemanticDescriptor)
    → is_bounded_text 64 d.failed_result_class ≡ false
    → check_descriptor d ≡ err value_error
unfolding check_descriptor
check_descriptor_refused d h = rw (test_at-all_true 6 _ h)

-- What the host observed of the attempt is no bounded text.
abbrev pub Unfit : AttemptSemanticDescriptor → EvidenceRecord → AttemptSession → Type 0
Unfit q r s =
    is_bounded_text 64
      (failed_semantic (result_class_of (get s.host_invocations (text_or_blank r.invocation_id)))
        q).failed_result_class
    ≡ false

-- In a session that shares no branches, a failure whose observed result class is no bounded text
-- raises after the tracker has counted it, and the attempt is not remembered as recorded.
pub late_refusal_is_counted :
    (attempt_digest : String → String)
    (failure_digest : String → String → Option String → Option String → String)
    (ref evidence_ref : String) (s : AttemptSession) (t : Tracker) (d : AttemptDescriptor)
    (r : EvidenceRecord) (q : AttemptSemanticDescriptor) {x : RetryState} {t' : Tracker}
    → s.controller ≡ some t
    → get s.descriptors ref ≡ some d
    → get s.evidence_ledger evidence_ref ≡ some r
    → r.invalidated ≡ false
    → one_of ref s.failures ≡ false
    → shared_ledger s ≡ none
    → get s.semantics ref ≡ some q
    → Unfit q r s
    → record_failure failure_digest t d.cause_id d.action_plan_digest d.premise_digest
        (some evidence_ref)
        (some d.premise_digest)
      ≡ ok (x, t')
    → record_attempt_failure attempt_digest failure_digest true ref evidence_ref s
      ≡ (err value_error, record s { controller = some t' })
unfolding record_attempt_failure current_record attempt count_failure share_failure track_failure
    proceed record_semantic shared_ledger
late_refusal_is_counted attempt_digest failure_digest ref evidence_ref s t d r q tracked known found
      current new alone meant unfit counted =
    let refused =
      check_descriptor_refused
        (failed_semantic (result_class_of (get s.host_invocations (text_or_blank r.invocation_id)))
          q)
        unfit in
    rw (tracked, known, found, current, new, alone, counted, meant, refused)
