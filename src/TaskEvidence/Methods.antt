-- ===== src/TaskEvidence/Methods.antt =====
-- scripts/runtime_contract/task_evidence.py: the other methods of `TaskEvidenceState` that record.
use cognitive_frame_works.Prelude.{
  ℕ, zero, suc, ◌+◌, String, Option, none, some, List, [], ◌∷◌, ◌++◌, ◌&&◌, ◌||◌, length, take,
  drop, keep_last, ltb, one_of, ◌==◌, str_take, if◌then◌else◌,
}
use cognitive_frame_works.Prelude.Result.{Result, err, ok, value_error}
use cognitive_frame_works.Prelude.Attempt.{attempt, proceed}
use cognitive_frame_works.Prelude.Dict.{get, put, remove}
use cognitive_frame_works.Attention.Facts.{
  CriterionState, ActivityFact, AttemptSemanticDescriptor, check_criterion,
}
use cognitive_frame_works.TaskEvidence.Records.{
  BlockerFact, CriterionEvidenceBinding, VerificationObligation, WorkflowProgressFact,
  check_obligation, check_workflow,
}
use cognitive_frame_works.TaskEvidence.State.{TaskEvidence, is_pending, text_or_none}
use cognitive_frame_works.TaskEvidence.Activity.{ActivityRequest, Signature, record_task_activity}

-- A request with the defaults of the optional arguments.
unfoldable pub plain_request : String → ActivityRequest
plain_request activity_type = record {
  activity_type = activity_type;
  source = "host_observed";
  action_class = none;
  host_declared_relation = none;
  target_kind = none;
  target_scope = none;
  target_ref = none;
  proposed_purpose = none;
  proposed_purpose_source = "derived";
  affected_criterion_ids = [];
  result_class = none;
  artifact_changed = none;
  progress_class = none;
  evidence_kinds = [];
}

-- The last 8 digests, with this one.
unfoldable pub with_new_digest : String → List String → List String
with_new_digest digest refs = keep_last 8 (if one_of digest refs then refs else refs ++ digest ∷ [])

unfoldable pub observed_criterion :
    CriterionEvidenceBinding → String → String → String → CriterionState → ℕ → CriterionState
observed_criterion b claim kind digest prior sequence = record {
  criterion_id = b.bound_criterion_id;
  claim = claim;
  kind = kind;
  status = "partially_observed";
  evidence_status = "available";
  evidence_ref_digests = with_new_digest digest prior.evidence_ref_digests;
  last_progress_sequence = some sequence;
}

unfoldable pub progress_request : CriterionEvidenceBinding → ActivityRequest
progress_request b = record (plain_request "goal_progress") {
  source = b.authority;
  affected_criterion_ids = b.bound_criterion_id ∷ [];
  progress_class = some "GOAL_PROGRESS";
  evidence_kinds = b.evidence_kind ∷ [];
}

unfoldable pub satisfied_criterion : String → CriterionState → CriterionState
satisfied_criterion digest prior = record prior {
  status = "satisfied";
  evidence_status = "verified";
  evidence_ref_digests = keep_last 8 (prior.evidence_ref_digests ++ digest ∷ []);
}

unfoldable pub settle_obligation :
    String → VerificationObligation → TaskEvidence → Result (Unit {0}) × TaskEvidence
settle_obligation k o s =
    attempt (check_obligation (record o { obligation_status = "SATISFIED" })) s
      λ done. (ok tt, record s { verification_obligations = put s.verification_obligations k done })

unfoldable pub satisfy_obligation :
    String → Option VerificationObligation → TaskEvidence → Result (Unit {0}) × TaskEvidence
satisfy_obligation k none s = (ok tt, s)
satisfy_obligation k (some o) s = if is_pending o then settle_obligation k o s else (ok tt, s)

unfoldable pub clear_known : Option BlockerFact → String → TaskEvidence → TaskEvidence
clear_known none k s = s
clear_known (some b) k s = record s {
  active_blockers = remove s.active_blockers k;
  logical_revision = s.logical_revision + 1;
}

unfoldable pub clear_blocker : String → TaskEvidence → TaskEvidence
clear_blocker k s = clear_known (get s.active_blockers k) k s

unfoldable pub put_workflow :
    List ((String × String) × WorkflowProgressFact)
    → WorkflowProgressFact
    → List ((String × String) × WorkflowProgressFact)
put_workflow [] w = ((w.statework_id, w.subject_ref), w) ∷ []
put_workflow ((k, v) ∷ d) w =
    if k.0 == w.statework_id && k.1 == w.subject_ref then (k, w) ∷ d else (k, v) ∷ put_workflow d w

-- The loop that deletes the first entries beyond the limit; the fuel bounds its turns.
unfoldable pub trim_workflows :
    ℕ
    → ℕ
    → List ((String × String) × WorkflowProgressFact)
    → List ((String × String) × WorkflowProgressFact)
trim_workflows zero limit d = d
trim_workflows (suc n) limit d =
    let rest = trim_workflows n limit (drop 1 d) in if ltb limit (length d) then rest else d

unfoldable pub record_workflow : WorkflowProgressFact → TaskEvidence → TaskEvidence
record_workflow w s = record s {
  workflows =
      trim_workflows (length (put_workflow s.workflows w)) s.workflow_limit
        (put_workflow s.workflows w);
  logical_revision = s.logical_revision + 1;
}

unfoldable pub record_task_approach : AttemptSemanticDescriptor → TaskEvidence → TaskEvidence
record_task_approach d s = record s {
  failed_approaches = keep_last s.failed_approach_limit (s.failed_approaches ++ d ∷ []);
  logical_revision = s.logical_revision + 1;
}

unfoldable pub blocker_fact : String → String → List String → Option String → BlockerFact
blocker_fact key summary ids evidence_ref = record {
  blocker_id = key;
  summary = str_take 256 summary;
  blocked_criterion_ids = take 8 ids;
  blocker_evidence_ref = elim evidence_ref [ none ↦ none | some r ↦ text_or_none (str_take 256 r) ];
}

unfoldable pub blocker_request : String → List String → ActivityRequest
blocker_request summary ids = record (plain_request "blocker") {
  result_class = some "active";
  proposed_purpose = some (str_take 256 summary);
  proposed_purpose_source = "host_observed";
  affected_criterion_ids = take 8 ids;
}

unfoldable pub workflow_request : WorkflowProgressFact → ActivityRequest
workflow_request w = record (plain_request "workflow_progress") {
  source = "csw_authoritative";
  action_class = some w.work_class;
  result_class = some w.workflow_progress_class;
  progress_class = some "WORKFLOW_PROGRESS";
}

module _ (sha256 : String → String) (dumps : Signature → String) where
  unfoldable pub progress_known :
      CriterionEvidenceBinding
      → String
      → String
      → Option CriterionState
      → TaskEvidence
      → Result ActivityFact × TaskEvidence
  progress_known b claim kind none s = (err value_error, s)
  progress_known b claim kind (some prior) s =
      attempt
        (check_criterion
          (observed_criterion b claim kind (sha256 b.evidence_ref) prior (s.next_sequence + 1)))
        s
        λ c.
          record_task_activity sha256 dumps (progress_request b) none
            (record s { known_criteria = put s.known_criteria b.bound_criterion_id c })

  unfoldable pub record_goal_progress :
      CriterionEvidenceBinding → String → String → TaskEvidence → Result ActivityFact × TaskEvidence
  record_goal_progress b claim kind s =
      progress_known b claim kind (get s.known_criteria b.bound_criterion_id) s

  unfoldable pub satisfy_known :
      String → String → Option CriterionState → TaskEvidence → Result (Unit {0}) × TaskEvidence
  satisfy_known k evidence_ref none s = (err value_error, s)
  satisfy_known k evidence_ref (some prior) s =
      attempt (check_criterion (satisfied_criterion (sha256 evidence_ref) prior)) s λ c.
        let t = record s { known_criteria = put s.known_criteria k c } in
        proceed (satisfy_obligation k (get t.verification_obligations k) t)
          λ u v. (ok tt, record v { logical_revision = v.logical_revision + 1 })

  unfoldable pub mark_criterion_satisfied :
      String → String → TaskEvidence → Result (Unit {0}) × TaskEvidence
  mark_criterion_satisfied k evidence_ref s =
      satisfy_known k evidence_ref (get s.known_criteria k) s

  unfoldable pub record_blocker :
      String
      → String
      → List String
      → Option String
      → TaskEvidence
      → Result ActivityFact × TaskEvidence
  record_blocker blocker_id summary ids evidence_ref s =
      let key = str_take 128 blocker_id in
      if blocker_id == "" || summary == ""
      then (err value_error, s)
      else record_task_activity sha256 dumps (blocker_request summary ids) none (record s {
        active_blockers = put s.active_blockers key (blocker_fact key summary ids evidence_ref);
        logical_revision = s.logical_revision + 1;
      })

  unfoldable pub record_workflow_progress :
      WorkflowProgressFact → TaskEvidence → Result ActivityFact × TaskEvidence
  record_workflow_progress w s = attempt (check_workflow w) s λ fact.
      record_task_activity sha256 dumps (workflow_request fact) none (record_workflow fact s)
