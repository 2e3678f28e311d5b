-- ===== src/TaskEvidence/Bounds.antt =====
-- scripts/runtime_contract/task_evidence.py: whatever is called, the memories stay bounded.
use cognitive_frame_works.Prelude.{ℕ, String, List, ◌≡◌, subst, arith, ◌==◌, if_holds}
use cognitive_frame_works.Prelude.Result.{ok, value_error, checked_same}
use cognitive_frame_works.TaskEvidence.State.{TaskEvidence, new_task_evidence}
use cognitive_frame_works.TaskEvidence.Activity.{Signature, count_task_action, advance_artifact}
use cognitive_frame_works.TaskEvidence.Calls.{EvidenceCall, evidence_run}
use cognitive_frame_works.TaskEvidence.History.{
  history, IsWithin, next-IsWithin, store_fact-IsWithin, record_workflow-IsWithin,
  record_task_approach-IsWithin,
}
use cognitive_frame_works.TaskEvidence.Changes.{permit-All, IsPreserved}
use cognitive_frame_works.TaskEvidence.Preservation.{evidence_run_keeps}

abbrev Within : TaskEvidence → Type 0
Within s = IsWithin (history s)

Within-IsPreserved : IsPreserved (λ k. Unit) Within
unfolding count_task_action advance_artifact
Within-IsPreserved = record {
  numbered = λ s w. next-IsWithin s w;
  stored = λ f s n w. store_fact-IsWithin f s n w;
  counted = λ f r s w. if_holds Within (f.activity_type == "action") w w;
  advanced = λ s w. w;
  owed = λ k r s w. w;
  known = λ k c s e w. w;
  required = λ k r s e w. w;
  settled = λ k o s a w. w;
  verified = λ x y s w. w;
  revised = λ n s w. w;
  blocked = λ d s w. w;
  worked = λ x s w. record_workflow-IsWithin x s w;
  approached = λ d s w. record_task_approach-IsWithin d s w;
}

-- From a new ledger, whatever calls are made and whether they return or raise, no memory of the
-- ledger exceeds its limit, and no stored fact has a sequence number beyond the last one given.
pub evidence_run-IsWithin :
    (sha256 : String → String) (dumps : Signature → String) (a b c d : ℕ) (cs : List EvidenceCall)
    {s : TaskEvidence}
    → new_task_evidence a b c d ≡ ok s
    → IsWithin (history (evidence_run sha256 dumps cs s))
unfolding new_task_evidence
evidence_run-IsWithin sha256 dumps a b c d cs {s} h =
    evidence_run_keeps Within-IsPreserved sha256 dumps cs s (permit-All cs) (
      subst Within (checked_same _ value_error h).1 (record {
        few_facts = omega arith;
        few_important = omega arith;
        few_workflows = omega arith;
        few_approaches = omega arith;
        facts_numbered = tt;
        important_numbered = tt;
      }))
