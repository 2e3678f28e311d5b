-- ===== src/TaskEvidence/History.antt =====
-- scripts/runtime_contract/task_evidence.py: the bounded memories of the ledger.
use cognitive_frame_works.Prelude.{
  ℕ, zero, suc, ◌+◌, ◌≤◌, ◌<◌, String, none, some, List, [], ◌∷◌, ◌++◌, ◌≡◌, inl, inr, arith,
  eq_refl, ltb, ◌==◌, length, length-keep_last, All, All-keep_last, drop, length-drop, if_holds,
  Bool-cases, Option-cases, ◌≢◌,
}
use cognitive_frame_works.Prelude.Dict.{Dict, get, put, remove}
use cognitive_frame_works.Attention.Facts.{ActivityFact, AttemptSemanticDescriptor}
use cognitive_frame_works.TaskEvidence.Records.{WorkflowProgressFact}
use cognitive_frame_works.TaskEvidence.State.{TaskEvidence}
use cognitive_frame_works.TaskEvidence.Activity.{
  is_important, important_key, oldest_after, drop_oldest, trim_important, store_fact,
}
use cognitive_frame_works.TaskEvidence.Methods.{
  put_workflow, trim_workflows, record_workflow, record_task_approach,
}

module _ {V : Type 0} where
  shorter-remove :
      (d : Dict V) (k : String) {v : V} → get d k ≡ some v → length (remove d k) < length d
  unfolding get remove
  shorter-remove [] k {v} h = cc
  shorter-remove ((j, w) ∷ d) k {v} h = elim (Bool-cases (j == k)) [
    | inl same ↦ ground (arith, same, remove-le d k)
    | inr other ↦ ground (arith, other, shorter-remove d k {v = v} (ground (arith, other, h)))
  ]
    where
      remove-le : (d : Dict V) (k : String) → length (remove d k) ≤ length d
      remove-le [] k = omega arith
      remove-le ((j, w) ∷ d) k = ground (arith, remove-le d k)

  pub All-put :
      (P : String × V → Type 0) (d : Dict V) (k : String) (v : V)
      → All P d
      → ((j : String) → P (j, v))
      → All P (put d k v)
  unfolding put
  All-put P [] k v h g = (g k, tt)
  All-put P ((j, w) ∷ d) k v h g = elim (Bool-cases (j == k)) [
    | inl same ↦ rw same (g j, h.1)
    | inr other ↦ rw other (h.0, All-put P d k v h.1 g)
  ]

  pub All-remove :
      (P : String × V → Type 0) (d : Dict V) (k : String) → All P d → All P (remove d k)
  unfolding remove
  All-remove P [] k h = tt
  All-remove P ((j, w) ∷ d) k h = elim (Bool-cases (j == k)) [
    | inl same ↦ rw same (All-remove P d k h.1)
    | inr other ↦ rw other (h.0, All-remove P d k h.1)
  ]

pub All-map {ℓ} :
    {A : Type ℓ} (P Q : A → Type 0) (xs : List A) → ((x : A) → P x → Q x) → All P xs → All Q xs
All-map P Q [] f h = tt
All-map P Q (x ∷ xs) f h = (f x h.0, All-map P Q xs f h.1)

oldest_present :
    (k : String) (f : ActivityFact) (d : Dict ActivityFact)
    → get ((k, f) ∷ d) (oldest_after k f d) ≢ none
unfolding oldest_after get
oldest_present k f [] = ground (arith, eq_refl k)
oldest_present k f ((j, g) ∷ d) = elim (Bool-cases (ltb g.sequence f.sequence)) [
  | inl older ↦ rw older (ground (arith, oldest_present j g d))
  | inr newer ↦ rw newer (ground (arith, oldest_present k f d))
]

drop_oldest_shorter : (d : Dict ActivityFact) → 0 < length d → length (drop_oldest d) < length d
unfolding drop_oldest
drop_oldest_shorter [] h = absurd (omega (arith, h))
drop_oldest_shorter ((k, f) ∷ d) h =
    let m = oldest_after k f d in
    elim (Option-cases (get ((k, f) ∷ d) m)) [
      | inl gone ↦ absurd (oldest_present k f d gone)
      | inr (v, there) ↦ shorter-remove ((k, f) ∷ d) m {v = v} there
    ]

-- As many turns as there are facts beyond the limit are enough.
trim_important-within :
    (n limit : ℕ) (d : Dict ActivityFact)
    → length d ≤ n + limit
    → length (trim_important n limit d) ≤ limit
unfolding trim_important
trim_important-within zero limit d h = omega (arith, h)
trim_important-within (suc n) limit d h = elim (Bool-cases (ltb limit (length d))) [
  | inl over ↦ rw over (
      trim_important-within n limit (drop_oldest d)
        (ground (arith, h, over, drop_oldest_shorter d)))
  | inr room ↦ rw room (ground (arith, room))
]

drop_oldest-All :
    (P : String × ActivityFact → Type 0) (d : Dict ActivityFact) → All P d → All P (drop_oldest d)
unfolding drop_oldest
drop_oldest-All P [] h = tt
drop_oldest-All P ((k, f) ∷ d) h = All-remove P ((k, f) ∷ d) (oldest_after k f d) h

trim_important-All :
    (P : String × ActivityFact → Type 0) (n limit : ℕ) (d : Dict ActivityFact)
    → All P d
    → All P (trim_important n limit d)
unfolding trim_important
trim_important-All P zero limit d h = h
trim_important-All P (suc n) limit d h =
    if_holds (All P) (ltb limit (length d))
      (trim_important-All P n limit (drop_oldest d) (drop_oldest-All P d h)) h

trim_workflows-within :
    (n limit : ℕ) (d : List ((String × String) × WorkflowProgressFact))
    → length d ≤ n + limit
    → length (trim_workflows n limit d) ≤ limit
unfolding trim_workflows
trim_workflows-within zero limit d h = omega (arith, h)
trim_workflows-within (suc n) limit d h = elim (Bool-cases (ltb limit (length d))) [
  | inl over ↦
      rw over (trim_workflows-within n limit (drop 1 d) (ground (arith, h, over, length-drop 1 d)))
  | inr room ↦ rw room (ground (arith, room))
]

-- The limits, the memories and the last sequence number.
pub record History : Type 0 where
  pub limits : ℕ × ℕ × ℕ × ℕ
  pub facts : List ActivityFact
  pub important_facts : Dict ActivityFact
  pub workflow_facts : List ((String × String) × WorkflowProgressFact)
  pub approaches : List AttemptSemanticDescriptor
  pub last_sequence : ℕ

abbrev pub history : TaskEvidence → History
history s = record {
  limits = (s.activity_limit, s.important_limit, s.workflow_limit, s.failed_approach_limit);
  facts = s.ordinary;
  important_facts = s.important;
  workflow_facts = s.workflows;
  approaches = s.failed_approaches;
  last_sequence = s.next_sequence;
}

-- No memory is over its limit, and no fact has a number that has not been given.
pub record IsWithin (h : History) : Type 0 where
  pub few_facts : length h.facts ≤ h.limits.0
  pub few_important : length h.important_facts ≤ h.limits.1
  pub few_workflows : length h.workflow_facts ≤ h.limits.2
  pub few_approaches : length h.approaches ≤ h.limits.3
  pub facts_numbered : All (λ f. f.sequence ≤ h.last_sequence) h.facts
  pub important_numbered : All (λ e. e.1.sequence ≤ h.last_sequence) h.important_facts

All-snoc {ℓ} :
    {A : Type ℓ} (P : A → Type 0) (xs : List A) (x : A) → All P xs → P x → All P (xs ++ x ∷ [])
All-snoc P [] x h p = (p, tt)
All-snoc P (y ∷ xs) x h p = (h.0, All-snoc P xs x h.1 p)

pub next-IsWithin :
    (s : TaskEvidence)
    → IsWithin (history s)
    → IsWithin (history (record s { next_sequence = s.next_sequence + 1 }))
next-IsWithin s w = record {
  few_facts = w.few_facts;
  few_important = w.few_important;
  few_workflows = w.few_workflows;
  few_approaches = w.few_approaches;
  facts_numbered = All-map _ _ s.ordinary (λ f h. omega (arith, h)) w.facts_numbered;
  important_numbered = All-map _ _ s.important (λ e h. omega (arith, h)) w.important_numbered;
}

pub store_fact-IsWithin :
    (f : ActivityFact) (s : TaskEvidence)
    → f.sequence ≤ s.next_sequence
    → IsWithin (history s)
    → IsWithin (history (store_fact f s))
unfolding store_fact
store_fact-IsWithin f s h w = elim (Bool-cases (is_important f)) [
  | inl kept ↦
      let d = put s.important (important_key f) f in
      rw kept (record {
        few_facts = w.few_facts;
        few_important = trim_important-within (length d) s.important_limit d (omega arith);
        few_workflows = w.few_workflows;
        few_approaches = w.few_approaches;
        facts_numbered = w.facts_numbered;
        important_numbered =
            trim_important-All _ (length d) s.important_limit d
              (All-put _ s.important (important_key f) f w.important_numbered (λ j. h));
      })
  | inr plain ↦ rw plain (record {
    few_facts = length-keep_last s.activity_limit (s.ordinary ++ f ∷ []);
    few_important = w.few_important;
    few_workflows = w.few_workflows;
    few_approaches = w.few_approaches;
    facts_numbered =
        All-keep_last _ s.activity_limit (s.ordinary ++ f ∷ [])
          (All-snoc _ s.ordinary f w.facts_numbered h);
    important_numbered = w.important_numbered;
  })
]

pub record_workflow-IsWithin :
    (x : WorkflowProgressFact) (s : TaskEvidence)
    → IsWithin (history s)
    → IsWithin (history (record_workflow x s))
unfolding record_workflow
record_workflow-IsWithin x s w =
    let d = put_workflow s.workflows x in
    record {
      few_facts = w.few_facts;
      few_important = w.few_important;
      few_workflows = trim_workflows-within (length d) s.workflow_limit d (omega arith);
      few_approaches = w.few_approaches;
      facts_numbered = w.facts_numbered;
      important_numbered = w.important_numbered;
    }

pub record_task_approach-IsWithin :
    (x : AttemptSemanticDescriptor) (s : TaskEvidence)
    → IsWithin (history s)
    → IsWithin (history (record_task_approach x s))
unfolding record_task_approach
record_task_approach-IsWithin x s w = record {
  few_facts = w.few_facts;
  few_important = w.few_important;
  few_workflows = w.few_workflows;
  few_approaches = length-keep_last s.failed_approach_limit (s.failed_approaches ++ x ∷ []);
  facts_numbered = w.facts_numbered;
  important_numbered = w.important_numbered;
}
