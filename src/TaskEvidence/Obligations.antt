-- ===== src/TaskEvidence/Obligations.antt =====
-- scripts/runtime_contract/task_evidence.py: what a changed artifact makes the agent owe.
use cognitive_frame_works.Prelude.{
  ℕ, ◌+◌, String, Option, some, List, [], ◌∷◌, true, ◌≡◌, ◌≢◌, refl, sym, subst, ap, ◌∙◌, arith,
  inl, inr, eq_iff, eq_refl, ◌==◌, one_of, All, if_holds, Bool-cases,
}
use cognitive_frame_works.Prelude.Result.{Result, ok}
use cognitive_frame_works.Prelude.Attempt.{proceed, attempt-ok, proceed-ok}
use cognitive_frame_works.Prelude.Dict.{get, put, get-put}
use cognitive_frame_works.Attention.Facts.{ActivityFact, check_activity}
use cognitive_frame_works.Attention.State.{is_true}
use cognitive_frame_works.TaskEvidence.Records.{VerificationObligation, check_obligation}
use cognitive_frame_works.TaskEvidence.State.{TaskEvidence, new_task_evidence, is_pending}
use cognitive_frame_works.TaskEvidence.Activity.{
  Signature, store_fact, count_task_action, or_observation, new_obligation, invalidate_criterion,
  invalidate_each, advance_artifact, change_artifact, commit_candidate,
}
use cognitive_frame_works.TaskEvidence.Methods.{record_workflow, record_task_approach}
use cognitive_frame_works.TaskEvidence.Calls.{EvidenceCall, evidence_run}
use cognitive_frame_works.TaskEvidence.Soundness.{evidence_run-IsSound}
use cognitive_frame_works.TaskEvidence.Commit.{commit_candidate-IsTotal}
use cognitive_frame_works.TaskEvidence.Changes.{
  permit-All, IsPreserved, check_activity_same, check_obligation_same, Permits,
}
use cognitive_frame_works.TaskEvidence.Preservation.{
  invalidate_known_keeps, invalidate_each_keeps, count_verification_keeps, evidence_run_keeps,
}

-- A verification of the criterion is pending.
pub record Owes (c : String) (s : TaskEvidence) : Type 0 where
  pub owed : VerificationObligation
  pub found : get s.verification_obligations c ≡ some owed
  pub pending : is_pending owed ≡ true

store_fact-obligations :
    (f : ActivityFact) (s : TaskEvidence)
    → (store_fact f s).verification_obligations ≡ s.verification_obligations
unfolding store_fact
store_fact-obligations f s =
    if_holds (λ (t : TaskEvidence). t.verification_obligations ≡ s.verification_obligations) _ refl
      refl

count_task_action-obligations :
    (f : ActivityFact) (r : Option String) (s : TaskEvidence)
    → (count_task_action f r s).verification_obligations ≡ s.verification_obligations
unfolding count_task_action
count_task_action-obligations f r s =
    if_holds (λ (t : TaskEvidence). t.verification_obligations ≡ s.verification_obligations) _ refl
      refl

-- The obligations alone decide.
Owes-same :
    (c : String) {s t : TaskEvidence}
    → t.verification_obligations ≡ s.verification_obligations
    → Owes c s
    → Owes c t
Owes-same c e o = record {
  owed = o.owed;
  found = ap (λ d. get d c) e ∙ o.found;
  pending = o.pending;
}

Owes-new :
    (c k : String) (r : String × Option String) (s : TaskEvidence)
    → Owes c s
    → Owes c (record s {
      verification_obligations =
          put s.verification_obligations k (new_obligation k s.artifact_revision r);
    })
Owes-new c k r s o = elim (Bool-cases (k == c)) [
  | inl same ↦ record {
    owed = new_obligation k s.artifact_revision r;
    found =
        get-put s.verification_obligations k c (new_obligation k s.artifact_revision r) ∙ rw same;
    pending = unfold is_pending in unfold new_obligation in refl;
  }
  | inr other ↦ record {
    owed = o.owed;
    found =
        get-put s.verification_obligations k c (new_obligation k s.artifact_revision r)
        ∙ rw other o.found;
    pending = o.pending;
  }
]

Owes-settled :
    (c k : String) (x : VerificationObligation) (s : TaskEvidence)
    → k ≢ c
    → Owes c s
    → Owes c (record s { verification_obligations = put s.verification_obligations k x })
Owes-settled c k x s other o = record {
  owed = o.owed;
  found = ground (arith, get-put s.verification_obligations k c x, eq_iff k c, other, o.found);
  pending = o.pending;
}

Owes-IsPreserved : (c : String) → IsPreserved (λ k. k ≢ c) (Owes c)
unfolding advance_artifact record_workflow record_task_approach
Owes-IsPreserved c = record {
  numbered = λ s o. Owes-same c refl o;
  stored = λ f s n o. Owes-same c (store_fact-obligations f s) o;
  counted = λ f r s o. Owes-same c (count_task_action-obligations f r s) o;
  advanced = λ s o. Owes-same c refl o;
  owed = λ k r s o. Owes-new c k r s o;
  known = λ k x s e o. Owes-same c refl o;
  required = λ k r s e o. Owes-same c refl o;
  settled = λ k x s a o. Owes-settled c k x s a o;
  verified = λ x y s o. Owes-same c refl o;
  revised = λ n s o. Owes-same c refl o;
  blocked = λ d s o. Owes-same c refl o;
  worked = λ x s o. Owes-same c refl o;
  approached = λ d s o. Owes-same c refl o;
}

invalidate_criterion-Owes :
    (k : String) (s : TaskEvidence)
    → (invalidate_criterion k s).0 ≡ ok tt
    → Owes k (invalidate_criterion k s).1
unfolding invalidate_criterion
invalidate_criterion-Owes k s h =
    let r = or_observation (get s.verification_requirements k) in
    let o = new_obligation k s.artifact_revision r in
    let (p, checked, goes_on) = attempt-ok (check_obligation o) s _ h in
    let t = record s { verification_obligations = put s.verification_obligations k p } in
    let pending : is_pending p ≡ true =
      subst (λ x. is_pending x ≡ true) (check_obligation_same o p checked)
        (unfold is_pending in unfold new_obligation in refl) in
    let owes : Owes k t = record {
      owed = p;
      found = get-put s.verification_obligations k k p ∙ rw (eq_refl k);
      pending = pending;
    } in
    subst (λ (x : Result (Unit {0}) × TaskEvidence). Owes k x.1) (sym goes_on)
      (invalidate_known_keeps (Owes-IsPreserved k) k (get t.known_criteria k) t owes)

invalidate_each-Owes :
    (c : String) (ks : List String) (s : TaskEvidence)
    → one_of c ks ≡ true
    → (invalidate_each ks s).0 ≡ ok tt
    → Owes c (invalidate_each ks s).1
unfolding invalidate_each
invalidate_each-Owes c [] s m h = cc
invalidate_each-Owes c (k ∷ ks) s m h =
    let (u, first, goes_on) = proceed-ok (invalidate_criterion k s) _ h in
    let t = (invalidate_criterion k s).1 in
    let rest : (invalidate_each ks t).0 ≡ ok tt =
      sym (ap (λ (x : Result (Unit {0}) × TaskEvidence). x.0) goes_on) ∙ h in
    subst (λ (x : Result (Unit {0}) × TaskEvidence). Owes c x.1) (sym goes_on)
      (elim (Bool-cases (c == k)) [
        | inl here ↦ invalidate_each_keeps (Owes-IsPreserved c) ks t (
            subst (λ x. Owes x t) (sym ((eq_iff c k).0 here)) (invalidate_criterion-Owes k s first))
        | inr later ↦ invalidate_each-Owes c ks t (ground (arith, m, later)) rest
      ])

change_artifact-Owes :
    (c : String) (f : ActivityFact) (s : TaskEvidence)
    → is_true f.artifact_changed ≡ true
    → one_of c f.affected_criterion_ids ≡ true
    → (change_artifact f s).0 ≡ ok tt
    → Owes c (change_artifact f s).1
unfolding change_artifact
change_artifact-Owes c f s changed m =
    rw changed (λ h. invalidate_each-Owes c f.affected_criterion_ids (advance_artifact s) m h)

commit_candidate-Owes :
    (sha256 : String → String) (dumps : Signature → String) (c : String) (f : ActivityFact)
    (r : Option String) (s : TaskEvidence)
    → is_true f.artifact_changed ≡ true
    → one_of c f.affected_criterion_ids ≡ true
    → {x : ActivityFact} → (commit_candidate sha256 dumps f r s).0 ≡ ok x
    → Owes c (commit_candidate sha256 dumps f r s).1
unfolding commit_candidate
commit_candidate-Owes sha256 dumps c f r s changed m {x} h =
    let t = record s {
      next_sequence = s.next_sequence + 1;
      logical_revision = s.logical_revision + 1;
    } in
    let g = record f { sequence = t.next_sequence } in
    let (g', checked, goes_on) = attempt-ok (check_activity g) t _ h in
    let counted = count_task_action g' r (store_fact g' t) in
    let done : (proceed (change_artifact g' counted) _).0 ≡ ok x =
      sym (ap (λ (y : Result ActivityFact × TaskEvidence). y.0) goes_on) ∙ h in
    let (u, invalid, ends) = proceed-ok (change_artifact g' counted) _ done in
    let same = check_activity_same g g' checked in
    let owes =
      change_artifact-Owes c g' counted
        (subst (λ (y : ActivityFact). is_true y.artifact_changed ≡ true) same changed)
        (subst (λ (y : ActivityFact). one_of c y.affected_criterion_ids ≡ true) same m) invalid in
    subst (λ (y : Result ActivityFact × TaskEvidence). Owes c y.1) (sym (goes_on ∙ ends))
      (count_verification_keeps (Owes-IsPreserved c) sha256 dumps g' r
        (change_artifact g' counted).1 owes)

-- From a new ledger, after any calls, a checked fact of a changed artifact is committed, and the
-- verification of every criterion that it affects stays pending through all later calls, unless
-- one of them marks that criterion satisfied.
pub changed_artifact_must_be_verified :
    (sha256 : String → String) (dumps : Signature → String) (k l m n : ℕ)
    (before after : List EvidenceCall) (c : String) (f : ActivityFact) (r : Option String)
    {s : TaskEvidence}
    → new_task_evidence k l m n ≡ ok s
    → check_activity f ≡ ok f
    → is_true f.artifact_changed ≡ true
    → one_of c f.affected_criterion_ids ≡ true
    → All (Permits (λ x. x ≢ c)) after
    → Owes c (
        evidence_run sha256 dumps after
          (commit_candidate sha256 dumps f r (evidence_run sha256 dumps before s)).1)
changed_artifact_must_be_verified sha256 dumps k l m n before after c f r {s} new checked changed
      affected permitted =
    let t = evidence_run sha256 dumps before s in
    let sound =
      evidence_run-IsSound (λ x. Unit) sha256 dumps k l m n before (permit-All before) new in
    let total = commit_candidate-IsTotal sha256 dumps f r t sound checked in
    evidence_run_keeps (Owes-IsPreserved c) sha256 dumps after
      (commit_candidate sha256 dumps f r t).1 permitted
      (commit_candidate-Owes sha256 dumps c f r t changed affected total)
