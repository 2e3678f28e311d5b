-- ===== src/TaskEvidence/Preservation.antt =====
-- scripts/runtime_contract/task_evidence.py: what every single change of the ledger keeps, every
-- call keeps.
use cognitive_frame_works.Prelude.{
  All, ◌+◌, ap, length, String, Option, none, some, List, [], ◌∷◌, ◌≤◌, subst, arith, ltb, ◌==◌,
  ◌||◌, str_take, if_holds,
}
use cognitive_frame_works.Prelude.Result.{Result}
use cognitive_frame_works.Prelude.Attempt.{attempt_keeps, proceed_keeps}
use cognitive_frame_works.Prelude.Dict.{get, put, remove}
use cognitive_frame_works.Attention.Facts.{
  CriterionState, ActivityFact, check_activity, check_criterion,
}
use cognitive_frame_works.Attention.State.{is_true}
use cognitive_frame_works.TaskEvidence.Records.{
  WorkflowProgressFact, BlockerFact, CriterionEvidenceBinding, VerificationObligation,
  check_obligation, check_workflow,
}
use cognitive_frame_works.TaskEvidence.State.{
  TaskEvidence, DeclaredCriterion, declared_state, declared_requirement, require_once,
  require_verification, ensure_known, ensure_criterion, ensure_each, ensure_criteria,
  mark_host_state_transition, is_pending,
}
use cognitive_frame_works.TaskEvidence.Activity.{
  ActivityRequest, Signature, store_fact, count_task_action, or_observation, new_obligation,
  invalidated, invalidate_known, invalidate_criterion, invalidate_each, advance_artifact,
  change_artifact, count_verification, make_candidate, commit_candidate, record_task_activity,
}
use cognitive_frame_works.TaskEvidence.Methods.{
  observed_criterion, progress_request, satisfied_criterion, settle_obligation, satisfy_obligation,
  clear_blocker, clear_known, record_workflow, blocker_request, workflow_request, progress_known,
  record_goal_progress, satisfy_known, mark_criterion_satisfied, record_blocker,
  record_workflow_progress,
}
use cognitive_frame_works.TaskEvidence.Calls.{
  EvidenceCall, evidence_step, evidence_run, ensure_call, activity_call, commit_call, progress_call,
  satisfy_call, blocker_call, clear_blocker_call, workflow_call, approach_call, transition_call,
}
use cognitive_frame_works.TaskEvidence.Changes.{
  IsPreserved, Permits, check_activity_same, check_criterion_again, check_obligation_same,
  declared_requirement-named,
}

module _ {Allowed : String → Type 0} {P : TaskEvidence → Type 0}
    (keeps : IsPreserved Allowed P) where
  abbrev After {ℓ} : {A : Type ℓ} → Result A × TaskEvidence → Type 0
  After x = P x.1

  require_once_keeps :
      (o : Option (String × Option String)) (c : DeclaredCriterion) (k : String) (s : TaskEvidence)
      → P s
      → P (require_once o c k s)
  unfolding require_once require_verification
  require_once_keeps none c k s w =
      keeps.required k (declared_requirement c) s (declared_requirement-named c) w
  require_once_keeps (some r) c k s w = w

  ensure_known_keeps :
      (c : DeclaredCriterion) (k : String) (o : Option CriterionState) (s : TaskEvidence)
      → P s
      → After (ensure_known c k o s)
  unfolding ensure_known require_verification
  ensure_known_keeps c k none s w =
      attempt_keeps P (check_criterion (declared_state c)) s _ w λ state e.
        let t = record s { known_criteria = put s.known_criteria k state } in
        let u = record t { logical_revision = s.logical_revision + 1 } in
        keeps.required k (declared_requirement c) u (declared_requirement-named c) (
          keeps.revised (s.logical_revision + 1) t
            (keeps.known k state s (check_criterion_again (declared_state c) state e) w))
  ensure_known_keeps c k (some current) s w =
      require_once_keeps (get s.verification_requirements k) c k s w

  ensure_criterion_keeps :
      (c : DeclaredCriterion) (s : TaskEvidence) → P s → After (ensure_criterion c s)
  unfolding ensure_criterion
  ensure_criterion_keeps c s w =
      let k = str_take 128 c.declared_id in
      if_holds (λ (x : Result (Unit {0}) × TaskEvidence). After x) (k == "") w
        (ensure_known_keeps c k (get s.known_criteria k) s w)

  ensure_each_keeps :
      (cs : List DeclaredCriterion) (s : TaskEvidence) → P s → After (ensure_each cs s)
  unfolding ensure_each
  ensure_each_keeps [] s w = w
  ensure_each_keeps (c ∷ cs) s w =
      let first = ensure_criterion_keeps c s w in
      proceed_keeps P (ensure_criterion c s) _ first
        (λ u e. ensure_each_keeps cs (ensure_criterion c s).1 first)

  pub invalidate_known_keeps :
      (k : String) (c : Option CriterionState) (s : TaskEvidence)
      → P s
      → After (invalidate_known k c s)
  unfolding invalidate_known
  invalidate_known_keeps k none s w = w
  invalidate_known_keeps k (some c) s w =
      attempt_keeps P (check_criterion (invalidated c)) s _ w
        (λ d e. keeps.known k d s (check_criterion_again (invalidated c) d e) w)

  pub invalidate_criterion_keeps :
      (k : String) (s : TaskEvidence) → P s → After (invalidate_criterion k s)
  unfolding invalidate_criterion
  invalidate_criterion_keeps k s w =
      let owed =
        new_obligation k s.artifact_revision (or_observation (get s.verification_requirements k)) in
      attempt_keeps P (check_obligation owed) s _ w λ o e.
        let t = record s { verification_obligations = put s.verification_obligations k o } in
        invalidate_known_keeps k (get s.known_criteria k) t (
          subst
            (λ x. P (record s { verification_obligations = put s.verification_obligations k x }))
            (check_obligation_same owed o e)
            (keeps.owed k (or_observation (get s.verification_requirements k)) s w))

  pub invalidate_each_keeps :
      (ks : List String) (s : TaskEvidence) → P s → After (invalidate_each ks s)
  unfolding invalidate_each
  invalidate_each_keeps [] s w = w
  invalidate_each_keeps (k ∷ ks) s w =
      let first = invalidate_criterion_keeps k s w in
      proceed_keeps P (invalidate_criterion k s) _ first
        (λ u e. invalidate_each_keeps ks (invalidate_criterion k s).1 first)

  pub change_artifact_keeps :
      (f : ActivityFact) (s : TaskEvidence) → P s → After (change_artifact f s)
  unfolding change_artifact
  change_artifact_keeps f s w =
      if_holds (λ (x : Result (Unit {0}) × TaskEvidence). After x) (is_true f.artifact_changed)
        (invalidate_each_keeps f.affected_criterion_ids (advance_artifact s) (keeps.advanced s w)) w

  settle_obligation_keeps :
      (k : String) (o : VerificationObligation) (s : TaskEvidence)
      → Allowed k
      → P s
      → After (settle_obligation k o s)
  unfolding settle_obligation
  settle_obligation_keeps k o s a w =
      attempt_keeps P (check_obligation (record o { obligation_status = "SATISFIED" })) s _ w
        (λ d e. keeps.settled k d s a w)

  satisfy_obligation_keeps :
      (k : String) (o : Option VerificationObligation) (s : TaskEvidence)
      → Allowed k
      → P s
      → After (satisfy_obligation k o s)
  unfolding satisfy_obligation
  satisfy_obligation_keeps k none s a w = w
  satisfy_obligation_keeps k (some o) s a w =
      if_holds (λ (x : Result (Unit {0}) × TaskEvidence). After x) (is_pending o)
        (settle_obligation_keeps k o s a w) w

  clear_blocker_keeps : (k : String) (s : TaskEvidence) → P s → P (clear_blocker k s)
  unfolding clear_blocker clear_known
  clear_blocker_keeps k s w = known (get s.active_blockers k)
    where
      known : (o : Option BlockerFact) → P (clear_known o k s)
      known none = w
      known (some b) =
          keeps.revised (s.logical_revision + 1)
            (record s { active_blockers = remove s.active_blockers k })
            (keeps.blocked (remove s.active_blockers k) s w)

  module _ (sha256 : String → String) (dumps : Signature → String) where
    pub count_verification_keeps :
        (f : ActivityFact) (r : Option String) (s : TaskEvidence)
        → P s
        → P (count_verification sha256 dumps f r s)
    unfolding count_verification
    count_verification_keeps f r s w = if_holds P _ (keeps.verified _ _ s w) w

    pub commit_candidate_keeps :
        (candidate : ActivityFact) (r : Option String) (s : TaskEvidence)
        → P s
        → After (commit_candidate sha256 dumps candidate r s)
    unfolding commit_candidate
    commit_candidate_keeps candidate r s w =
        let t = record s {
          next_sequence = s.next_sequence + 1;
          logical_revision = s.logical_revision + 1;
        } in
        let g = record candidate { sequence = t.next_sequence } in
        let started : P t = keeps.numbered s w in
        attempt_keeps P (check_activity g) t _ started λ f e.
          let numbered : f.sequence ≤ t.next_sequence =
            omega (arith, ap (λ (x : ActivityFact). x.sequence) (check_activity_same g f e)) in
          let stored = keeps.stored f t numbered started in
          let counted = count_task_action f r (store_fact f t) in
          let changed =
            change_artifact_keeps f counted (keeps.counted f r (store_fact f t) stored) in
          proceed_keeps P (change_artifact f counted) _ changed
            (λ u e'. count_verification_keeps f r (change_artifact f counted).1 changed)

    record_task_activity_keeps :
        (q : ActivityRequest) (r : Option String) (s : TaskEvidence)
        → P s
        → After (record_task_activity sha256 dumps q r s)
    unfolding record_task_activity
    record_task_activity_keeps q r s w =
        attempt_keeps P (make_candidate sha256 dumps q s) s _ w
          (λ f e. commit_candidate_keeps f r s w)

    progress_known_keeps :
        (b : CriterionEvidenceBinding) (claim kind : String) (o : Option CriterionState)
        (s : TaskEvidence)
        → P s
        → After (progress_known sha256 dumps b claim kind o s)
    unfolding progress_known
    progress_known_keeps b claim kind none s w = w
    progress_known_keeps b claim kind (some prior) s w =
        attempt_keeps P
          (check_criterion
            (observed_criterion b claim kind (sha256 b.evidence_ref) prior (s.next_sequence + 1)))
          s _ w
          (λ c e.
            record_task_activity_keeps (progress_request b) none _
              (keeps.known b.bound_criterion_id c s (check_criterion_again _ c e) w))

    satisfy_known_keeps :
        (k ref : String) (o : Option CriterionState) (s : TaskEvidence)
        → Allowed k
        → P s
        → After (satisfy_known sha256 dumps k ref o s)
    unfolding satisfy_known
    satisfy_known_keeps k ref none s a w = w
    satisfy_known_keeps k ref (some prior) s a w =
        attempt_keeps P (check_criterion (satisfied_criterion (sha256 ref) prior)) s _ w λ c e.
          let t = record s { known_criteria = put s.known_criteria k c } in
          let settled =
            satisfy_obligation_keeps k (get t.verification_obligations k) t a
              (keeps.known k c s (check_criterion_again _ c e) w) in
          proceed_keeps P (satisfy_obligation k (get t.verification_obligations k) t) _ settled
            (λ u e'. keeps.revised _ _ settled)

    record_blocker_keeps :
        (k summary : String) (ids : List String) (ref : Option String) (s : TaskEvidence)
        → P s
        → After (record_blocker sha256 dumps k summary ids ref s)
    unfolding record_blocker
    record_blocker_keeps k summary ids ref s w =
        if_holds (λ (x : Result ActivityFact × TaskEvidence). After x) (k == "" || summary == "") w
          (record_task_activity_keeps (blocker_request summary ids) none _
            (keeps.revised (s.logical_revision + 1) _ (keeps.blocked _ s w)))

    record_workflow_progress_keeps :
        (x : WorkflowProgressFact) (s : TaskEvidence)
        → P s
        → After (record_workflow_progress sha256 dumps x s)
    unfolding record_workflow_progress
    record_workflow_progress_keeps x s w = attempt_keeps P (check_workflow x) s _ w λ f e.
        record_task_activity_keeps (workflow_request f) none (record_workflow f s)
          (keeps.worked f s w)

    evidence_step_keeps :
        (c : EvidenceCall) (s : TaskEvidence)
        → Permits Allowed c
        → P s
        → P (evidence_step sha256 dumps c s)
    unfolding evidence_step Permits ensure_criteria record_goal_progress mark_criterion_satisfied
        mark_host_state_transition
    evidence_step_keeps (ensure_call cs) s a w =
        if_holds (λ (x : Result (Unit {0}) × TaskEvidence). After x) (ltb 256 (length cs)) w
          (ensure_each_keeps cs s w)
    evidence_step_keeps (activity_call q r) s a w = record_task_activity_keeps q r s w
    evidence_step_keeps (commit_call f r) s a w = commit_candidate_keeps f r s w
    evidence_step_keeps (progress_call b claim kind) s a w =
        progress_known_keeps b claim kind (get s.known_criteria b.bound_criterion_id) s w
    evidence_step_keeps (satisfy_call k ref) s a w =
        satisfy_known_keeps k ref (get s.known_criteria k) s a w
    evidence_step_keeps (blocker_call k summary ids ref) s a w =
        record_blocker_keeps k summary ids ref s w
    evidence_step_keeps (clear_blocker_call k) s a w = clear_blocker_keeps k s w
    evidence_step_keeps (workflow_call x) s a w = record_workflow_progress_keeps x s w
    evidence_step_keeps (approach_call d) s a w = keeps.approached d s w
    evidence_step_keeps transition_call s a w = keeps.revised (s.logical_revision + 1) s w

    -- A property that each single change keeps is kept by every sequence of calls.
    pub evidence_run_keeps :
        (cs : List EvidenceCall) (s : TaskEvidence)
        → All (Permits Allowed) cs
        → P s
        → P (evidence_run sha256 dumps cs s)
    unfolding evidence_run
    evidence_run_keeps [] s a w = w
    evidence_run_keeps (c ∷ cs) s a w =
        evidence_run_keeps cs (evidence_step sha256 dumps c s) a.1 (evidence_step_keeps c s a.0 w)
