-- ===== src/TaskEvidence/Changes.antt =====
-- scripts/runtime_contract/task_evidence.py: the single changes of the ledger that a property has to
-- survive, and what its checks let through.
use cognitive_frame_works.Prelude.{
  Bool-cases, inl, inr, All, ◌+◌, ℕ, String, Option, List, [], ◌∷◌, false, ◌≡◌, ◌≤◌, refl, subst,
  ◌==◌,
}
use cognitive_frame_works.Prelude.Result.{checked_same, ok, value_error}
use cognitive_frame_works.Prelude.Dict.{Dict, put}
use cognitive_frame_works.Attention.Facts.{
  AttemptSemanticDescriptor, CriterionState, ActivityFact, check_activity, check_criterion,
}
use cognitive_frame_works.TaskEvidence.Records.{
  WorkflowProgressFact, BlockerFact, VerificationObligation, check_obligation,
}
use cognitive_frame_works.TaskEvidence.State.{TaskEvidence, DeclaredCriterion, declared_requirement}
use cognitive_frame_works.TaskEvidence.Activity.{
  store_fact, count_task_action, new_obligation, advance_artifact,
}
use cognitive_frame_works.TaskEvidence.Methods.{record_workflow, record_task_approach}
use cognitive_frame_works.TaskEvidence.Calls.{
  EvidenceCall, ensure_call, activity_call, commit_call, progress_call, satisfy_call, blocker_call,
  clear_blocker_call, workflow_call, approach_call, transition_call,
}

-- A property that each single change of the ledger keeps. An obligation is settled only for a
-- criterion that is allowed.
pub record IsPreserved (Allowed : String → Type 0) (P : TaskEvidence → Type 0) : Type 0 where
  pub numbered :
      (s : TaskEvidence)
      → P s
      → P (record s {
        next_sequence = s.next_sequence + 1;
        logical_revision = s.logical_revision + 1;
      })
  pub stored :
      (f : ActivityFact) (s : TaskEvidence)
      → f.sequence ≤ s.next_sequence
      → P s
      → P (store_fact f s)
  pub counted :
      (f : ActivityFact) (r : Option String) (s : TaskEvidence) → P s → P (count_task_action f r s)
  pub advanced : (s : TaskEvidence) → P s → P (advance_artifact s)
  pub owed :
      (k : String) (r : String × Option String) (s : TaskEvidence)
      → P s
      → P (record s {
        verification_obligations =
            put s.verification_obligations k (new_obligation k s.artifact_revision r);
      })
  pub known :
      (k : String) (c : CriterionState) (s : TaskEvidence)
      → check_criterion c ≡ ok c
      → P s
      → P (record s { known_criteria = put s.known_criteria k c })
  pub required :
      (k : String) (r : String × Option String) (s : TaskEvidence)
      → (r.0 == "") ≡ false
      → P s
      → P (record s { verification_requirements = put s.verification_requirements k r })
  pub settled :
      (k : String) (o : VerificationObligation) (s : TaskEvidence)
      → Allowed k
      → P s
      → P (record s { verification_obligations = put s.verification_obligations k o })
  pub verified :
      (x y : Dict ℕ) (s : TaskEvidence)
      → P s
      → P (record s { verification_counts = x; verification_fingerprints = y })
  pub revised : (n : ℕ) (s : TaskEvidence) → P s → P (record s { logical_revision = n })
  pub blocked :
      (d : Dict BlockerFact) (s : TaskEvidence) → P s → P (record s { active_blockers = d })
  pub worked : (w : WorkflowProgressFact) (s : TaskEvidence) → P s → P (record_workflow w s)
  pub approached :
      (d : AttemptSemanticDescriptor) (s : TaskEvidence) → P s → P (record_task_approach d s)

-- A call that satisfies a criterion satisfies one that is allowed.
unfoldable pub Permits : (String → Type 0) → EvidenceCall → Type 0
Permits Allowed (satisfy_call k ref) = Allowed k
Permits Allowed _ = Unit

-- With every criterion allowed, every call is permitted.
pub permit-All : (cs : List EvidenceCall) → All (Permits (λ k. Unit)) cs
unfolding Permits
permit-All [] = tt
permit-All (ensure_call _ ∷ cs) = (tt, permit-All cs)
permit-All (activity_call _ _ ∷ cs) = (tt, permit-All cs)
permit-All (commit_call _ _ ∷ cs) = (tt, permit-All cs)
permit-All (progress_call _ _ _ ∷ cs) = (tt, permit-All cs)
permit-All (satisfy_call _ _ ∷ cs) = (tt, permit-All cs)
permit-All (blocker_call _ _ _ _ ∷ cs) = (tt, permit-All cs)
permit-All (clear_blocker_call _ ∷ cs) = (tt, permit-All cs)
permit-All (workflow_call _ ∷ cs) = (tt, permit-All cs)
permit-All (approach_call _ ∷ cs) = (tt, permit-All cs)
permit-All (transition_call ∷ cs) = (tt, permit-All cs)

pub check_activity_same : (f g : ActivityFact) → check_activity f ≡ ok g → f ≡ g
unfolding check_activity
check_activity_same f g h = (checked_same _ value_error h).1

pub check_criterion_again :
    (c d : CriterionState) → check_criterion c ≡ ok d → check_criterion d ≡ ok d
check_criterion_again c d h = subst (λ x. check_criterion x ≡ ok d) (same h) h
  where
    same : check_criterion c ≡ ok d → c ≡ d
    same g = unfold check_criterion in (checked_same _ value_error g).1

pub check_obligation_same : (o p : VerificationObligation) → check_obligation o ≡ ok p → o ≡ p
unfolding check_obligation
check_obligation_same o p h = (checked_same _ value_error h).1

pub declared_requirement-named :
    (c : DeclaredCriterion) → ((declared_requirement c).0 == "") ≡ false
unfolding declared_requirement
declared_requirement-named c = elim (Bool-cases (c.verification_strength == "")) [
  | inl blank ↦ rw blank refl
  | inr named ↦ rw named named
]
