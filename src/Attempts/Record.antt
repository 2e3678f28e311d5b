-- ===== src/Attempts/Record.antt =====
-- scripts/runtime_session/attempts.py: the methods that record what came of an attempt. The journal
-- and the telemetry, to which each of them also writes, are output and left out.
use cognitive_frame_works.Prelude.{
  ℕ, String, Option, none, some, ◌∷◌, Bool, true, false, not, leb, one_of, or_text, if◌then◌else◌,
}
use cognitive_frame_works.Prelude.Result.{
  Result, err, ok, value_error, permission_error, guard, ◌>>=◌, ◌>>◌,
}
use cognitive_frame_works.Prelude.Attempt.{attempt, proceed}
use cognitive_frame_works.Prelude.Dict.{get}
use cognitive_frame_works.Convergence.Identity.{AttemptDescriptor}
use cognitive_frame_works.Convergence.Transitions.{with_termination}
use cognitive_frame_works.Convergence.Tracker.{
  Tracker, modify, record_failure, record_reinspection, reject_path,
}
use cognitive_frame_works.Convergence.Ledger.{Table, Scope, record_branch_failure, recovery_count}
use cognitive_frame_works.Attention.Facts.{AttemptSemanticDescriptor, check_descriptor}
use cognitive_frame_works.Attention.State.{Attention, sync_criteria, record_failed_approach}
use cognitive_frame_works.TaskEvidence.State.{TaskEvidence, criteria_view}
use cognitive_frame_works.TaskEvidence.Methods.{record_task_approach}
use cognitive_frame_works.Attempts.Session.{
  EvidenceRecord, Membership, AttemptSession, text_or_blank, required_key, shared_ledger,
  asked_scope,
}
use cognitive_frame_works.Attempts.Begin.{needs_controller}

unfoldable pub end_shared_cause :
    Option Tracker → String → AttemptSession → Result Bool × AttemptSession
end_shared_cause none cause s = (ok true, s)
end_shared_cause (some t) cause s =
    attempt (modify (with_termination "BLOCKED" "shared_premise_recovery_limit") t cause) s
      λ (r, t'). (ok true, record s { controller = some t' })

unfoldable pub shared_exhaustion :
    Option Table → AttemptDescriptor → ℕ → AttemptSession → Result Bool × AttemptSession
shared_exhaustion none d limit s = (ok false, s)
shared_exhaustion (some table) d limit s =
    attempt (recovery_count table (asked_scope s.shared_workflow_membership d)) s λ count.
      if not (leb limit count) then (ok false, s) else end_shared_cause s.controller d.cause_id s

unfoldable pub shared_branch_exhausted :
    AttemptDescriptor → ℕ → AttemptSession → Result Bool × AttemptSession
shared_branch_exhausted d limit s = shared_exhaustion (shared_ledger s) d limit s

-- Evidence that is there and not invalidated.
unfoldable pub current_record : Option EvidenceRecord → Result EvidenceRecord
current_record none = err value_error
current_record (some r) = do guard (not r.invalidated) value_error; ok r

abbrev pub registered : Option AttemptDescriptor → Result AttemptDescriptor
registered none = err value_error
registered (some d) = ok d

-- The scope that is recorded under, whose keys must be there.
unfoldable pub recorded_scope : Membership → AttemptDescriptor → Result Scope
recorded_scope m d = do
  namespace ← required_key m.member_namespace_id
  application ← required_key m.member_application_instance_id
  workflow ← required_key m.member_workflow_id
  ok (record {
    namespace_id = namespace;
    application_instance_id = application;
    workflow_id = workflow;
    cause_id = d.cause_id;
    premise_digest = d.premise_digest;
  })

abbrev pub result_class_of : Option (Option String) → String
result_class_of none = ""
result_class_of (some c) = text_or_blank c

unfoldable pub failed_semantic : String → AttemptSemanticDescriptor → AttemptSemanticDescriptor
failed_semantic observed d = record d {
  failed_result_class = or_text observed d.failed_result_class;
}

abbrev pub attend : AttemptSemanticDescriptor → TaskEvidence → Option Attention → Option Attention
attend d e none = none
attend d e (some a) =
    some (record_failed_approach d e.next_sequence (sync_criteria (criteria_view e) a))

unfoldable pub keep_failed : AttemptSemanticDescriptor → AttemptSession → AttemptSession
keep_failed d s =
    let evidence = record_task_approach d s.task_evidence in
    record s { task_evidence = evidence; attention_state = attend d evidence s.attention_state }

unfoldable pub record_semantic :
    Option AttemptSemanticDescriptor
    → EvidenceRecord
    → AttemptSession
    → Result (Unit {0}) × AttemptSession
record_semantic none r s = (ok tt, s)
record_semantic (some q) r s =
    let observed = result_class_of (get s.host_invocations (text_or_blank r.invocation_id)) in
    attempt (check_descriptor (failed_semantic observed q)) s λ d. (ok tt, keep_failed d s)

module _ (attempt_digest : String → String)
    (failure_digest : String → String → Option String → Option String → String) where
  unfoldable pub share_failure :
      Option Table
      → AttemptDescriptor
      → String
      → String
      → AttemptSession
      → Result (Unit {0}) × AttemptSession
  share_failure none d evidence_ref ref s = (ok tt, s)
  share_failure (some table) d evidence_ref ref s =
      attempt (recorded_scope s.shared_workflow_membership d) s λ scope.
        attempt
          (record_branch_failure attempt_digest table scope d.action_plan_digest evidence_ref ref) s
          λ (n, table'). (ok tt, record s { shared_branch_ledger = some table' })

  unfoldable pub track_failure :
      Tracker → AttemptDescriptor → String → AttemptSession → Result (Unit {0}) × AttemptSession
  track_failure t d evidence_ref s =
      attempt
        (record_failure failure_digest t d.cause_id d.action_plan_digest d.premise_digest
          (some evidence_ref) (some d.premise_digest))
        s λ (r, t'). (ok tt, record s { controller = some t' })

  -- A failure that is not recorded yet: the shared ledger first, then the tracker, then what the
  -- attempt meant; only at the end the attempt counts as recorded.
  unfoldable pub count_failure :
      Tracker
      → AttemptDescriptor
      → EvidenceRecord
      → String
      → String
      → AttemptSession
      → Result (Unit {0}) × AttemptSession
  count_failure t d r ref evidence_ref s =
      proceed (share_failure (shared_ledger s) d evidence_ref ref s) λ u1 s1.
        proceed (track_failure t d evidence_ref s1) λ u2 s2.
          proceed (record_semantic (get s2.semantics ref) r s2)
            λ u3 s3. (ok tt, record s3 { failures = ref ∷ s3.failures })

  unfoldable pub record_attempt_failure :
      Bool → String → String → AttemptSession → Result (Unit {0}) × AttemptSession
  record_attempt_failure is_host ref evidence_ref s =
      attempt (guard is_host permission_error) s λ u. attempt (needs_controller s.controller) s λ t.
        attempt (registered (get s.descriptors ref)) s λ d.
          attempt (current_record (get s.evidence_ledger evidence_ref)) s λ r.
            let counted = count_failure t d r ref evidence_ref s in
            if one_of ref s.failures then (ok tt, s) else counted

abbrev pub needs_reinspection : Option Tracker → ℕ → Result Tracker
needs_reinspection none revision = err value_error
needs_reinspection (some t) revision = if leb 1 revision then ok t else err value_error

unfoldable pub session_reinspection :
    Bool → String → ℕ → AttemptSession → Result (Unit {0}) × AttemptSession
session_reinspection is_host cause revision s = attempt (guard is_host permission_error) s λ u.
    attempt (needs_reinspection s.controller revision) s λ t.
      attempt (record_reinspection t cause revision) s
        λ (r, t'). (ok tt, record s { controller = some t' })

unfoldable pub reject_investigative_path :
    Bool → String → String → AttemptSession → Result (Unit {0}) × AttemptSession
reject_investigative_path is_host ref evidence_ref s =
    attempt (guard is_host permission_error) s λ u. attempt (needs_controller s.controller) s λ t.
      attempt (registered (get s.descriptors ref)) s λ d.
        attempt (current_record (get s.evidence_ledger evidence_ref)) s λ r.
          attempt
            (reject_path t d.cause_id d.action_plan_digest d.premise_digest (some evidence_ref)
              (some d.premise_digest) r.observed_at)
            s λ (q, t'). (ok tt, record s { controller = some t' })
