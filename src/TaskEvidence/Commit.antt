-- ===== src/TaskEvidence/Commit.antt =====
-- scripts/runtime_contract/task_evidence.py: in a ledger that its own methods have filled, a
-- checked fact is always committed.
use cognitive_frame_works.Prelude.{
  all_true-at, ℕ, ◌+◌, String, Option, none, some, List, [], ◌∷◌, true, false, not, ◌≡◌, refl,
  subst, ap, ◌∙◌, arith, inl, inr, eq_iff, ◌==◌, all, leb, and_split, if_holds, Bool-cases,
  is_bounded, is_bounded_text, is_blank,
}
use cognitive_frame_works.Prelude.Result.{Result, ok, value_error, checked_same}
use cognitive_frame_works.Prelude.Attempt.{attempt_goes_on, proceed_goes_on}
use cognitive_frame_works.Prelude.Dict.{get, put}
use cognitive_frame_works.Attention.Facts.{
  CriterionState, ActivityFact, activity_checks, check_activity, check_criterion,
  criterion_statuses, evidence_statuses,
}
use cognitive_frame_works.Attention.State.{is_true}
use cognitive_frame_works.TaskEvidence.Records.{check_obligation}
use cognitive_frame_works.TaskEvidence.State.{TaskEvidence}
use cognitive_frame_works.TaskEvidence.Activity.{
  Signature, store_fact, count_task_action, or_observation, new_obligation, invalidated,
  invalidate_known, invalidate_criterion, invalidate_each, advance_artifact, change_artifact,
  commit_candidate,
}
use cognitive_frame_works.TaskEvidence.Preservation.{invalidate_criterion_keeps}
use cognitive_frame_works.TaskEvidence.Soundness.{IsSound, IsSound-same, IsSound-IsPreserved}

invalidated_checked :
    (c : CriterionState)
    → check_criterion c ≡ ok c
    → check_criterion (invalidated c) ≡ ok (invalidated c)
unfolding check_criterion invalidated criterion_statuses evidence_statuses
invalidated_checked c h =
    let (named, rest) =
      and_split (is_bounded_text 128 c.criterion_id) _ (checked_same _ value_error h).0 in
    let (claimed, rest') = and_split (is_bounded_text 512 c.claim) _ rest in
    let (kinded, _) = and_split (is_bounded_text 64 c.kind) _ rest' in rw (named, claimed, kinded)

invalidate_known_total :
    (k : String) (s : TaskEvidence) (o : Option CriterionState)
    → ((c : CriterionState) → o ≡ some c → check_criterion c ≡ ok c)
    → (invalidate_known k o s).0 ≡ ok tt
unfolding invalidate_known
invalidate_known_total k s none h = refl
invalidate_known_total k s (some c) h =
    ap (λ (x : Result (Unit {0}) × TaskEvidence). x.0)
      (attempt_goes_on _ s _ (invalidated_checked c (h c refl)))

bounded_text-bounded : (n : ℕ) (k : String) → is_bounded_text n k ≡ true → is_bounded n k ≡ true
unfolding is_bounded_text is_bounded is_blank
bounded_text-bounded n k h =
    let (full, short) = and_split (not (is_blank k)) _ h in
    let named : (k == "") ≡ false = elim (Bool-cases (k == "")) [
      | inl blank ↦ absurd (contradiction k ((eq_iff k "").0 blank) full)
      | inr some_text ↦ some_text
    ] in
    rw (named, short)
  where
    contradiction : (j : String) → j ≡ "" → not (is_blank j) ≡ true → ⊥
    contradiction j e g =
        let g' : not (is_blank "") ≡ true = subst (λ x. not (is_blank x) ≡ true) e g in cc g'

observed-named :
    (o : Option (String × Option String))
    → ((r : String × Option String) → o ≡ some r → (r.0 == "") ≡ false)
    → ((or_observation o).0 == "") ≡ false
observed-named none h = refl
observed-named (some r) h = h r refl

invalidate_criterion_total :
    (k : String) (s : TaskEvidence)
    → is_bounded_text 128 k ≡ true
    → IsSound s
    → (invalidate_criterion k s).0 ≡ ok tt
unfolding invalidate_criterion
invalidate_criterion_total k s bounded h =
    let r = or_observation (get s.verification_requirements k) in
    let o = new_obligation k s.artifact_revision r in
    let checked : check_obligation o ≡ ok o =
      unfold check_obligation in
      unfold new_obligation in
      rw (bounded_text-bounded 128 k bounded, observed-named _ (h.strengths k)) in
    let t = record s { verification_obligations = put s.verification_obligations k o } in
    ap (λ (x : Result (Unit {0}) × TaskEvidence). x.0) (attempt_goes_on _ s _ checked)
    ∙ invalidate_known_total k t (get s.known_criteria k) (h.checked k)

abbrev Everyone : String → Type 0
Everyone k = Unit

invalidate_each_total :
    (ks : List String) (s : TaskEvidence)
    → all (is_bounded_text 128) ks ≡ true
    → IsSound s
    → (invalidate_each ks s).0 ≡ ok tt
unfolding invalidate_each
invalidate_each_total [] s bounded h = refl
invalidate_each_total (k ∷ ks) s bounded h =
    let (first, rest) = and_split (is_bounded_text 128 k) _ bounded in
    let kept = invalidate_criterion_keeps (IsSound-IsPreserved {Allowed = Everyone}) k s h in
    ap (λ (x : Result (Unit {0}) × TaskEvidence). x.0)
      (proceed_goes_on (invalidate_criterion k s) _ (invalidate_criterion_total k s first h))
    ∙ invalidate_each_total ks (invalidate_criterion k s).1 rest kept

change_artifact_total :
    (f : ActivityFact) (s : TaskEvidence)
    → all (is_bounded_text 128) f.affected_criterion_ids ≡ true
    → IsSound s
    → (change_artifact f s).0 ≡ ok tt
unfolding change_artifact advance_artifact
change_artifact_total f s bounded h =
    if_holds (λ (x : Result (Unit {0}) × TaskEvidence). x.0 ≡ ok tt) (is_true f.artifact_changed)
      (invalidate_each_total f.affected_criterion_ids _ bounded (IsSound-same refl refl h)) refl

-- A fact that passes its checks passes them under every later number too.
checked-affected :
    (f : ActivityFact)
    → check_activity f ≡ ok f
    → all (is_bounded_text 128) f.affected_criterion_ids ≡ true
unfolding check_activity activity_checks
checked-affected f h = all_true-at 11 (activity_checks f) (checked_same _ value_error h).0

pub renumbered_checked :
    (f : ActivityFact) (n : ℕ)
    → check_activity f ≡ ok f
    → check_activity (record f { sequence = n + 1 }) ≡ ok (record f { sequence = n + 1 })
unfolding check_activity activity_checks
renumbered_checked f n h =
    let (_, rest) = and_split (leb 1 f.sequence) _ (checked_same _ value_error h).0 in
    let positive : leb 1 (n + 1) ≡ true = ground arith in rw (positive, rest)

-- A fact that passes its checks is committed, under the next number.
pub commit_candidate-IsTotal :
    (sha256 : String → String) (dumps : Signature → String) (f : ActivityFact) (r : Option String)
    (s : TaskEvidence)
    → IsSound s
    → check_activity f ≡ ok f
    → (commit_candidate sha256 dumps f r s).0 ≡ ok (record f { sequence = s.next_sequence + 1 })
unfolding commit_candidate
commit_candidate-IsTotal sha256 dumps f r s h checked =
    let g = record f { sequence = s.next_sequence + 1 } in
    let t = record s {
      next_sequence = s.next_sequence + 1;
      logical_revision = s.logical_revision + 1;
    } in
    let kept = IsSound-IsPreserved {Allowed = Everyone} in
    let counted = count_task_action g r (store_fact g t) in
    let sound =
      kept.counted g r (store_fact g t) (kept.stored g t (omega arith) (kept.numbered s h)) in
    let affected = checked-affected f checked in
    ap (λ (x : Result ActivityFact × TaskEvidence). x.0)
      (attempt_goes_on _ t _ (renumbered_checked f s.next_sequence checked)
        ∙ proceed_goes_on (change_artifact g counted) _
            (change_artifact_total g counted affected sound))
