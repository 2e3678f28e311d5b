-- ===== src/TaskEvidence/Soundness.antt =====
-- scripts/runtime_contract/task_evidence.py: what the ledger's own methods store passes the checks
-- of its constructors.
use cognitive_frame_works.Prelude.{
  ℕ, String, Option, some, List, false, ◌≡◌, refl, sym, subst, ap, ◌∙◌, inl, inr, ◌==◌, All,
  if_holds, update_cases,
}
use cognitive_frame_works.Prelude.Result.{ok, value_error, checked_same}
use cognitive_frame_works.Prelude.Dict.{get, put, get-put}
use cognitive_frame_works.Attention.Facts.{CriterionState, ActivityFact, check_criterion}
use cognitive_frame_works.TaskEvidence.State.{TaskEvidence, new_task_evidence}
use cognitive_frame_works.TaskEvidence.Activity.{
  Signature, store_fact, count_task_action, advance_artifact,
}
use cognitive_frame_works.TaskEvidence.Methods.{record_workflow, record_task_approach}
use cognitive_frame_works.TaskEvidence.Calls.{EvidenceCall, evidence_run}
use cognitive_frame_works.TaskEvidence.Changes.{IsPreserved, Permits}
use cognitive_frame_works.TaskEvidence.Preservation.{evidence_run_keeps}

-- Requirements name a strength, and the stored criteria pass their checks.
pub record IsSound (s : TaskEvidence) : Type 0 where
  pub strengths :
      (k : String) (r : String × Option String)
      → get s.verification_requirements k ≡ some r
      → (r.0 == "") ≡ false
  pub checked :
      (k : String) (c : CriterionState) → get s.known_criteria k ≡ some c → check_criterion c ≡ ok c

-- The parts of the state that soundness reads.
pub IsSound-same :
    {s t : TaskEvidence}
    → t.verification_requirements ≡ s.verification_requirements
    → t.known_criteria ≡ s.known_criteria
    → IsSound s
    → IsSound t
IsSound-same e g h = record {
  strengths = λ k r p. h.strengths k r (sym (ap (λ d. get d k) e) ∙ p);
  checked = λ k c p. h.checked k c (sym (ap (λ d. get d k) g) ∙ p);
}

store_fact-kept :
    (f : ActivityFact) (s : TaskEvidence)
    → ((store_fact f s).verification_requirements ≡ s.verification_requirements)
      × ((store_fact f s).known_criteria ≡ s.known_criteria)
unfolding store_fact
store_fact-kept f s =
    if_holds
      (λ (t : TaskEvidence).
        (t.verification_requirements ≡ s.verification_requirements)
        × (t.known_criteria ≡ s.known_criteria))
      _ (refl, refl) (refl, refl)

count_task_action-kept :
    (f : ActivityFact) (r : Option String) (s : TaskEvidence)
    → ((count_task_action f r s).verification_requirements ≡ s.verification_requirements)
      × ((count_task_action f r s).known_criteria ≡ s.known_criteria)
unfolding count_task_action
count_task_action-kept f r s =
    if_holds
      (λ (t : TaskEvidence).
        (t.verification_requirements ≡ s.verification_requirements)
        × (t.known_criteria ≡ s.known_criteria))
      _ (refl, refl) (refl, refl)

IsSound-known :
    (k : String) (x : CriterionState) (s : TaskEvidence)
    → check_criterion x ≡ ok x
    → IsSound s
    → IsSound (record s { known_criteria = put s.known_criteria k x })
IsSound-known k x s e h = record {
  strengths = h.strengths;
  checked = λ j c p. elim (update_cases (k == j) x _ _ c (get-put s.known_criteria k j x) p) [
    | inl (_, same) ↦ subst (λ y. check_criterion y ≡ ok y) same e
    | inr (_, old) ↦ h.checked j c old
  ];
}

IsSound-required :
    (k : String) (x : String × Option String) (s : TaskEvidence)
    → (x.0 == "") ≡ false
    → IsSound s
    → IsSound (record s { verification_requirements = put s.verification_requirements k x })
IsSound-required k x s e h = record {
  strengths = λ j r p.
      elim (update_cases (k == j) x _ _ r (get-put s.verification_requirements k j x) p) [
        | inl (_, same) ↦ subst (λ (y : String × Option String). (y.0 == "") ≡ false) same e
        | inr (_, old) ↦ h.strengths j r old
      ];
  checked = h.checked;
}

pub IsSound-IsPreserved : {Allowed : String → Type 0} → IsPreserved Allowed IsSound
unfolding advance_artifact record_workflow record_task_approach
IsSound-IsPreserved = record {
  numbered = λ s h. IsSound-same refl refl h;
  stored = λ f s n h. let (a, b) = store_fact-kept f s in IsSound-same a b h;
  counted = λ f r s h. let (a, b) = count_task_action-kept f r s in IsSound-same a b h;
  advanced = λ s h. IsSound-same refl refl h;
  owed = λ k r s h. IsSound-same refl refl h;
  known = λ k x s e h. IsSound-known k x s e h;
  required = λ k r s e h. IsSound-required k r s e h;
  settled = λ k x s a h. IsSound-same refl refl h;
  verified = λ x y s h. IsSound-same refl refl h;
  revised = λ n s h. IsSound-same refl refl h;
  blocked = λ d s h. IsSound-same refl refl h;
  worked = λ x s h. IsSound-same refl refl h;
  approached = λ d s h. IsSound-same refl refl h;
}

-- A new ledger is sound, and so is what any calls leave of it.
pub evidence_run-IsSound :
    (Allowed : String → Type 0) (sha256 : String → String) (dumps : Signature → String)
    (a b c d : ℕ) (cs : List EvidenceCall) {s : TaskEvidence}
    → All (Permits Allowed) cs
    → new_task_evidence a b c d ≡ ok s
    → IsSound (evidence_run sha256 dumps cs s)
unfolding new_task_evidence get
evidence_run-IsSound Allowed sha256 dumps a b c d cs {s} permitted h =
    evidence_run_keeps (IsSound-IsPreserved {Allowed = Allowed}) sha256 dumps cs s permitted (
      subst IsSound (checked_same _ value_error h).1
        (record { strengths = λ k r p. cc p; checked = λ k x p. cc p }))
