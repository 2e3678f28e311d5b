-- ===== src/TaskEvidence/Activity.antt =====
-- scripts/runtime_contract/task_evidence.py: how an activity is recorded. SHA-256 and the JSON
-- text of a verification's signature are parameters.
use cognitive_frame_works.Prelude.{
  ℕ, zero, suc, ◌+◌, ◌-◌, String, Option, none, some, List, [], ◌∷◌, ◌++◌, Bool, true, false, not,
  ◌&&◌, ◌||◌, length, take, keep_last, leb, ltb, ◌==◌, one_of, decimal, if◌then◌else◌,
}
use cognitive_frame_works.Prelude.Result.{Result, ok}
use cognitive_frame_works.Prelude.Attempt.{attempt, proceed}
use cognitive_frame_works.Prelude.Dict.{Dict, get, put, remove}
use cognitive_frame_works.Convergence.Identity.{join}
use Prim.Native.String.{◌++◌ as str_append}
use cognitive_frame_works.Attention.Facts.{
  CriterionState, ActivityFact, check_activity, check_criterion,
}
use cognitive_frame_works.Attention.Policy.{count_at}
use cognitive_frame_works.Attention.State.{is_true}
use cognitive_frame_works.TaskEvidence.Records.{VerificationObligation, check_obligation}
use cognitive_frame_works.TaskEvidence.State.{TaskEvidence}

-- The arguments of `make_candidate`.
pub record ActivityRequest : Type 0 where
  pub activity_type : String
  pub source : String
  pub action_class : Option String
  pub host_declared_relation : Option String
  pub target_kind : Option String
  pub target_scope : Option String
  pub target_ref : Option String
  pub proposed_purpose : Option String
  pub proposed_purpose_source : String
  pub affected_criterion_ids : List String
  pub result_class : Option String
  pub artifact_changed : Option Bool
  pub progress_class : Option String
  pub evidence_kinds : List String

-- What the signature of a verification holds.
pub record Signature : Type 0 where
  pub action_class : Option String
  pub target_ref_digest : Option String
  pub criterion_ids : List String
  pub artifact_revision : ℕ

unfoldable pub important_types : List String
important_types = "goal_progress" ∷ "blocker" ∷ "retry" ∷ "validation" ∷ "operator_correction" ∷ []

unfoldable pub is_important : ActivityFact → Bool
is_important f = one_of f.activity_type important_types || is_true f.artifact_changed

unfoldable pub important_key : ActivityFact → String
important_key f = if is_true f.artifact_changed then "artifact_change" else f.activity_type

-- The key of the first fact with the least sequence number, which is at most that of `k`.
unfoldable pub oldest_after : String → ActivityFact → Dict ActivityFact → String
oldest_after k f [] = k
oldest_after k f ((j, g) ∷ d) =
    if ltb g.sequence f.sequence then oldest_after j g d else oldest_after k f d

unfoldable pub drop_oldest : Dict ActivityFact → Dict ActivityFact
drop_oldest [] = []
drop_oldest ((k, f) ∷ d) = remove ((k, f) ∷ d) (oldest_after k f d)

-- The loop that keeps the important facts within the limit; the fuel bounds its turns.
unfoldable pub trim_important : ℕ → ℕ → Dict ActivityFact → Dict ActivityFact
trim_important zero limit d = d
trim_important (suc n) limit d =
    let rest = trim_important n limit (drop_oldest d) in if ltb limit (length d) then rest else d

unfoldable pub store_fact : ActivityFact → TaskEvidence → TaskEvidence
store_fact f s =
    if is_important f
    then record s {
      important =
          trim_important (length (put s.important (important_key f) f)) s.important_limit
            (put s.important (important_key f) f);
    }
    else record s { ordinary = keep_last s.activity_limit (s.ordinary ++ f ∷ []) }

unfoldable pub is_verification : Option String → Bool
is_verification none = false
is_verification (some r) = r == "required_verification"

unfoldable pub plus_one : Option ℕ → Option ℕ
plus_one none = none
plus_one (some n) = some (n + 1)

abbrev pub is_counting : Option ℕ → Bool
is_counting none = false
is_counting (some n) = true

unfoldable pub count_task_action : ActivityFact → Option String → TaskEvidence → TaskEvidence
count_task_action f relation s =
    if f.activity_type == "action"
    then record s {
      actions_since_artifact_change = plus_one s.actions_since_artifact_change;
      verification_actions_since_artifact_change =
          if is_counting s.actions_since_artifact_change && is_verification relation
          then s.verification_actions_since_artifact_change + 1
          else s.verification_actions_since_artifact_change;
    }
    else s

abbrev pub or_observation : Option (String × Option String) → String × Option String
or_observation none = ("host_observation", none)
or_observation (some r) = r

unfoldable pub new_obligation : String → ℕ → String × Option String → VerificationObligation
new_obligation k revision (strength, kind) = record {
  owed_criterion_id = k;
  owed_artifact_revision = revision;
  required_strength = strength;
  owed_evidence_kind = kind;
  obligation_status = "PENDING";
}

unfoldable pub invalidated : CriterionState → CriterionState
invalidated c = record c {
  status = "active";
  evidence_status = "invalidated";
  evidence_ref_digests = [];
}

unfoldable pub invalidate_known :
    String → Option CriterionState → TaskEvidence → Result (Unit {0}) × TaskEvidence
invalidate_known k none s = (ok tt, s)
invalidate_known k (some prior) s =
    attempt (check_criterion (invalidated prior)) s
      λ c. (ok tt, record s { known_criteria = put s.known_criteria k c })

-- An affected criterion: a new obligation, and its evidence no longer counts.
unfoldable pub invalidate_criterion : String → TaskEvidence → Result (Unit {0}) × TaskEvidence
invalidate_criterion k s =
    let owed =
      new_obligation k s.artifact_revision (or_observation (get s.verification_requirements k)) in
    attempt (check_obligation owed) s λ o.
      let t = record s { verification_obligations = put s.verification_obligations k o } in
      invalidate_known k (get t.known_criteria k) t

unfoldable pub invalidate_each : List String → TaskEvidence → Result (Unit {0}) × TaskEvidence
invalidate_each [] s = (ok tt, s)
invalidate_each (k ∷ ks) s = proceed (invalidate_criterion k s) λ u t. invalidate_each ks t

unfoldable pub advance_artifact : TaskEvidence → TaskEvidence
advance_artifact s = record s {
  artifact_revision = s.artifact_revision + 1;
  actions_since_artifact_change = some 0;
  verification_actions_since_artifact_change = 0;
  verification_counts = [];
  verification_fingerprints = [];
}

unfoldable pub change_artifact : ActivityFact → TaskEvidence → Result (Unit {0}) × TaskEvidence
change_artifact f s =
    if is_true f.artifact_changed
    then invalidate_each f.affected_criterion_ids (advance_artifact s)
    else (ok tt, s)

unfoldable pub verification_scope : ℕ → List String → String
verification_scope revision ids = str_append (decimal revision) (str_append ":" (join "," ids))

module _ (sha256 : String → String) (dumps : Signature → String) where
  unfoldable pub verification_signature : ℕ → ActivityFact → String
  verification_signature revision f = sha256 (
      dumps (record {
        action_class = f.action_class;
        target_ref_digest = f.target_ref_digest;
        criterion_ids = f.affected_criterion_ids;
        artifact_revision = revision;
      }))

  unfoldable pub count_verification : ActivityFact → Option String → TaskEvidence → TaskEvidence
  count_verification f relation s =
      let scope = verification_scope s.artifact_revision f.affected_criterion_ids in
      let signature = verification_signature s.artifact_revision f in
      if f.activity_type == "action" && is_verification relation && not (is_true f.artifact_changed)
      then record s {
        verification_counts =
            put s.verification_counts scope (count_at s.verification_counts scope + 1);
        verification_fingerprints =
            put s.verification_fingerprints signature
              (count_at s.verification_fingerprints signature + 1);
      }
      else s

  -- `make_candidate`; the empty text of a reference is no reference.
  unfoldable pub candidate_fact : ActivityRequest → ℕ → ActivityFact
  candidate_fact q sequence = record {
    sequence = sequence;
    activity_type = q.activity_type;
    source = q.source;
    action_class = q.action_class;
    host_declared_relation = q.host_declared_relation;
    target_kind = q.target_kind;
    target_scope = q.target_scope;
    target_ref_digest = elim q.target_ref [
      | none ↦ none
      | some ref ↦ if ref == "" then none else some (sha256 ref)
    ];
    proposed_purpose = q.proposed_purpose;
    proposed_purpose_source = q.proposed_purpose_source;
    affected_criterion_ids = take 8 q.affected_criterion_ids;
    result_class = q.result_class;
    artifact_changed = q.artifact_changed;
    progress_class = q.progress_class;
    evidence_kinds = take 8 q.evidence_kinds;
    relation_certainty = none;
  }

  unfoldable pub make_candidate : ActivityRequest → TaskEvidence → Result ActivityFact
  make_candidate q s = check_activity (candidate_fact q (s.next_sequence + 1))

  -- The fact with the number it is stored under, checked again by its constructor.
  unfoldable pub commit_candidate :
      ActivityFact → Option String → TaskEvidence → Result ActivityFact × TaskEvidence
  commit_candidate candidate relation s =
      let t = record s {
        next_sequence = s.next_sequence + 1;
        logical_revision = s.logical_revision + 1;
      } in
      attempt (check_activity (record candidate { sequence = t.next_sequence })) t λ f.
        proceed (change_artifact f (count_task_action f relation (store_fact f t)))
          λ u v. (ok f, count_verification f relation v)

  unfoldable pub record_task_activity :
      ActivityRequest → Option String → TaskEvidence → Result ActivityFact × TaskEvidence
  record_task_activity q relation s =
      attempt (make_candidate q s) s λ candidate. commit_candidate candidate relation s

  unfoldable pub verification_limit_exceeded :
      ActivityFact → String → ℕ → ℕ → TaskEvidence → Option String
  verification_limit_exceeded f relation max_actions max_repeats s =
      let scope = verification_scope s.artifact_revision f.affected_criterion_ids in
      let signature = verification_signature s.artifact_revision f in
      if not (relation == "required_verification")
      then none
      else if leb max_actions (count_at s.verification_counts scope)
      then some "verification_budget_exhausted"
      else if ltb max_repeats (count_at s.verification_fingerprints signature)
      then some "equivalent_verification_repeated"
      else none

-- A recent change of the artifact that the criterion was affected by.
unfoldable pub is_recent_change : String → ℕ → ℕ → ActivityFact → Bool
is_recent_change k before_sequence max_age f =
    ltb f.sequence before_sequence
    && is_true f.artifact_changed
    && one_of k f.affected_criterion_ids
    && leb (before_sequence - f.sequence) max_age

unfoldable pub has_recent_artifact_change_for : String → ℕ → ℕ → TaskEvidence → Bool
has_recent_artifact_change_for k before_sequence max_age s =
    if k == "" || ltb max_age 1 then false else elim (get s.important "artifact_change") [
      | none ↦ false
      | some f ↦ is_recent_change k before_sequence max_age f
    ]
