-- ===== src/TaskEvidence/Limits.antt =====
-- scripts/runtime_contract/task_evidence.py: the budget of verifications of one artifact.
use cognitive_frame_works.Prelude.{
  ℕ, ◌+◌, ◌≤◌, String, Option, some, List, [], ◌∷◌, true, false, ◌≡◌, refl, ap, ◌∙◌, arith, leb,
  le→leb, eq_refl, length, All, if_holds,
}
use cognitive_frame_works.Prelude.Result.{Result, ok}
use cognitive_frame_works.Prelude.Attempt.{attempt_goes_on, proceed_goes_on}
use cognitive_frame_works.Attention.Facts.{ActivityFact, check_activity}
use cognitive_frame_works.Attention.Policy.{count_at}
use cognitive_frame_works.Attention.State.{is_true}
use cognitive_frame_works.Attention.Redirects.{count_at-put}
use cognitive_frame_works.TaskEvidence.State.{TaskEvidence}
use cognitive_frame_works.TaskEvidence.Activity.{
  Signature, store_fact, count_task_action, change_artifact, is_verification, verification_scope,
  count_verification, commit_candidate, verification_limit_exceeded,
}
use cognitive_frame_works.TaskEvidence.Commit.{renumbered_checked}

-- A checked action that verifies the criteria and does not change the artifact.
pub record IsVerification (ids : List String) (f : ActivityFact) : Type 0 where
  pub checked : check_activity f ≡ ok f
  pub action : f.activity_type ≡ "action"
  pub unchanged : is_true f.artifact_changed ≡ false
  pub affected : f.affected_criterion_ids ≡ ids

-- How often the criteria were verified for the artifact as it is.
abbrev pub verifications : List String → TaskEvidence → ℕ
verifications ids s = count_at s.verification_counts (verification_scope s.artifact_revision ids)

abbrev Same : TaskEvidence → TaskEvidence → Type 0
Same s t =
    (t.artifact_revision ≡ s.artifact_revision) × (t.verification_counts ≡ s.verification_counts)

store_fact-Same : (f : ActivityFact) (s : TaskEvidence) → Same s (store_fact f s)
unfolding store_fact
store_fact-Same f s = if_holds (λ t. Same s t) _ (refl, refl) (refl, refl)

count_task_action-Same :
    (f : ActivityFact) (r : Option String) (s : TaskEvidence) → Same s (count_task_action f r s)
unfolding count_task_action
count_task_action-Same f r s = if_holds (λ t. Same s t) _ (refl, refl) (refl, refl)

module _ (sha256 : String → String) (dumps : Signature → String) where
  count_verification-verifies :
      (ids : List String) (f : ActivityFact) (s : TaskEvidence)
      → f.activity_type ≡ "action"
      → is_true f.artifact_changed ≡ false
      → f.affected_criterion_ids ≡ ids
      → ((count_verification sha256 dumps f (some "required_verification") s).artifact_revision
          ≡ s.artifact_revision)
        × (verifications ids (count_verification sha256 dumps f (some "required_verification") s)
            ≡ verifications ids s + 1)
  unfolding count_verification is_verification
  count_verification-verifies ids f s action unchanged affected =
      let scope = verification_scope s.artifact_revision ids in
      rw (action, unchanged, affected)
        (
          refl,
          count_at-put s.verification_counts scope scope (count_at s.verification_counts scope + 1)
              ∙ rw (eq_refl scope),
        )

  commit_candidate-verifies :
      (ids : List String) (f : ActivityFact) (s : TaskEvidence)
      → IsVerification ids f
      → verifications ids (commit_candidate sha256 dumps f (some "required_verification") s).1
        ≡ verifications ids s + 1
  unfolding commit_candidate change_artifact
  commit_candidate-verifies ids f s v =
      let relation = some "required_verification" in
      let t = record s {
        next_sequence = s.next_sequence + 1;
        logical_revision = s.logical_revision + 1;
      } in
      let g = record f { sequence = s.next_sequence + 1 } in
      let counted = count_task_action g relation (store_fact g t) in
      let (e1, e2) = store_fact-Same g t in
      let (e3, e4) = count_task_action-Same g relation (store_fact g t) in
      let kept : (change_artifact g counted) ≡ (ok tt, counted) = rw v.unchanged refl in
      let same : verifications ids counted ≡ verifications ids s = rw (e3 ∙ e1, e4 ∙ e2) refl in
      let committed : commit_candidate sha256 dumps f relation s
          ≡ (ok g, count_verification sha256 dumps g relation counted) =
        attempt_goes_on (check_activity g) t _ (renumbered_checked f s.next_sequence v.checked)
        ∙ proceed_goes_on (change_artifact g counted) _
            (ap (λ (x : Result (Unit {0}) × TaskEvidence). x.0) kept)
        ∙ ap
            (λ (x : Result (Unit {0}) × TaskEvidence).
              (ok g, count_verification sha256 dumps g relation x.1))
            kept in
      ap (λ (x : Result ActivityFact × TaskEvidence). verifications ids x.1) committed
      ∙ (count_verification-verifies ids g counted v.action v.unchanged v.affected).1
      ∙ rw same

  -- Every fact is committed as a verification.
  unfoldable pub verify_all : List ActivityFact → TaskEvidence → TaskEvidence
  verify_all [] s = s
  verify_all (f ∷ fs) s =
      verify_all fs (commit_candidate sha256 dumps f (some "required_verification") s).1

  verify_all-verifies :
      (ids : List String) (fs : List ActivityFact) (s : TaskEvidence)
      → All (IsVerification ids) fs
      → verifications ids (verify_all fs s) ≡ verifications ids s + length fs
  unfolding verify_all
  verify_all-verifies ids [] s h = omega arith
  verify_all-verifies ids (f ∷ fs) s h = omega (
    arith,
    verify_all-verifies ids fs (commit_candidate sha256 dumps f (some "required_verification") s).1
        h.1,
    commit_candidate-verifies ids f s h.0,
  )

  -- After as many verifications of the same criteria as the budget allows, and no change of the
  -- artifact, a further verification of them is refused.
  pub verification_budget_binds :
      (ids : List String) (fs : List ActivityFact) (f : ActivityFact) (max_actions max_repeats : ℕ)
      (s : TaskEvidence)
      → All (IsVerification ids) fs
      → f.affected_criterion_ids ≡ ids
      → max_actions ≤ length fs
      → verification_limit_exceeded sha256 dumps f "required_verification" max_actions max_repeats
          (verify_all fs s)
        ≡ some "verification_budget_exhausted"
  unfolding verification_limit_exceeded
  verification_budget_binds ids fs f max_actions max_repeats s h affected enough =
      let full : leb max_actions (verifications ids (verify_all fs s)) ≡ true =
        le→leb max_actions _ (omega (arith, verify_all-verifies ids fs s h, enough)) in
      rw (affected, full)
