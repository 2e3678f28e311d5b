-- ===== src/Attention/Examples.antt =====
-- The theorems about scripts/runtime_contract/standalone_attention.py at concrete inputs.
use cognitive_frame_works.Prelude.{
  ◌+◌, ◌≤◌, String, none, [], ◌∷◌, List, true, false, ◌≡◌, ◌⊎◌, refl, arith, map, one_of, leb,
  length, All, if◌then◌else◌, is_bounded, str_len,
}
use cognitive_frame_works.Prelude.Dict.{get, put}
use cognitive_frame_works.Attention.Facts.{CriterionState}
use cognitive_frame_works.Attention.Policy.{
  Counters, sort_key, key_ltb, insert_criterion, ordered, runnable, is_runnable, select,
  window_size, count_at, retry_yield_threshold,
}
use cognitive_frame_works.Attention.State.{
  new_attention, revise, keep_known, set_defaults, sync_counts, sync_criteria,
  active_attention_window, selected_criterion, yield_to, charge_redirect, exhaust_key,
  spend_redirect, redirect_key, record_progress_redirect,
}
use cognitive_frame_works.Attention.Window.{is_before, window, select-IsFair, select-AreRunnable}
use cognitive_frame_works.Attention.Redirects.{
  redirects, redirect_count, answers, after_answer, redirects-AreLimited,
}
use cognitive_frame_works.Attention.Snapshot.{
  are_valid_counts, is_valid_counts, is_valid_identity, is_valid_target, snapshot,
  restore_attention,
}
use cognitive_frame_works.Attention.RoundTrip.{
  IsSaveable, IsSameAttention, restore_attention-snapshot,
}
use cognitive_frame_works.Prelude.Result.{ok}
use cognitive_frame_works.Prelude.{some}
use cognitive_frame_works.Attention.State.{Attention}
use cognitive_frame_works.Prelude.{◌&&◌, ◌||◌}
use cognitive_frame_works.Attention.Facts.{ActivityFact}
use cognitive_frame_works.Attention.State.{
  is_true, record_activity, consume_progress_redirect_yield,
}
use cognitive_frame_works.Attention.Progress.{
  is_progress, record_activity-clears, consume_progress_redirect_yield-once,
}

abbrev criterion : String → String → CriterionState
criterion name status = record {
  criterion_id = name;
  claim = "claim";
  kind = "test";
  status = status;
  evidence_status = "none";
  evidence_ref_digests = [];
  last_progress_sequence = none;
}

abbrev criteria : List CriterionState
criteria =
    criterion "build" "unmet"
    ∷ criterion "docs" "satisfied"
    ∷ criterion "lint" "active"
    ∷ criterion "test" "unmet"
    ∷ criterion "ship" "unmet"
    ∷ []

-- The build was retried twice, and the linter acted on last.
abbrev counts : Counters
counts = record {
  retry_counts = ("build", 2) ∷ [];
  last_action_sequence = ("lint", 9) ∷ ("build", 1) ∷ [];
  redirect_counts = [];
}

select_test : select counts criteria ≡ "ship" ∷ "test" ∷ "lint" ∷ []
unfolding select ordered insert_criterion runnable is_runnable window_size key_ltb sort_key count_at
    retry_yield_threshold get
select_test = refl

select-IsFair_example :
    All
      (λ c.
        (one_of c.criterion_id (select counts criteria) ≡ true)
        ⊎ All
            (λ w. is_before (sort_key counts w) (sort_key counts c) ≡ true)
            (window counts criteria))
      (runnable criteria)
select-IsFair_example = select-IsFair counts criteria

select-AreRunnable_example :
    (select counts criteria ≡ map (λ c. c.criterion_id) (window counts criteria))
    × All (λ c. one_of c.status ("satisfied" ∷ "blocked" ∷ []) ≡ false) (window counts criteria)
    × (length (select counts criteria)
        ≡ (if leb 3 (length (runnable criteria)) then 3 else length (runnable criteria)))
select-AreRunnable_example = select-AreRunnable counts criteria

answers_test :
    (answers "build" criteria 2 ("x" ∷ "x" ∷ "y" ∷ "z" ∷ []) new_attention).0
    ≡ "redirect" ∷ "repeat" ∷ "yield" ∷ "limit" ∷ []
unfolding answers after_answer record_progress_redirect is_bounded str_len redirect_key
    selected_criterion new_attention count_at get spend_redirect charge_redirect revise put
    exhaust_key yield_to active_attention_window select window_size insert_criterion is_runnable
    key_ltb ordered retry_yield_threshold runnable sort_key keep_known set_defaults sync_counts
    sync_criteria
answers_test = refl

redirects-AreLimited_example :
    redirects new_attention "build"
      + redirect_count (answers "build" criteria 2 ("x" ∷ "x" ∷ "y" ∷ "z" ∷ []) new_attention).0
    ≤ 2
unfolding new_attention count_at get
redirects-AreLimited_example =
    redirects-AreLimited "build" criteria 2 ("x" ∷ "x" ∷ "y" ∷ "z" ∷ []) new_attention refl
      (λ e. cc) (omega arith)

-- The build has been redirected once, after two failures.
abbrev busy_attention : Attention
busy_attention = record {
  action_counts = ("build", 2) ∷ ("test", 0) ∷ [];
  retry_counts = ("build", 2) ∷ [];
  redirect_counts = ("build", 1) ∷ ("__task__", 1) ∷ [];
  last_action_sequence = ("build", 7) ∷ [];
  progress_redirect_epoch = 1;
  last_progress_redirect_action = some "x";
  last_progress_redirect_criterion = some "build";
  progress_redirect_yield_target = some "test";
  guidance_pending = true;
  revision = 5;
}

busy_attention-IsSaveable : IsSaveable criteria busy_attention
unfolding are_valid_counts is_valid_counts is_valid_identity is_valid_target snapshot str_len
busy_attention-IsSaveable = record { counts = refl; action = refl; criterion = refl; target = refl }

restore_attention-snapshot_example :
    ((restore_attention (snapshot busy_attention) criteria new_attention).0 ≡ ok tt)
    × IsSameAttention criteria busy_attention
        (restore_attention (snapshot busy_attention) criteria new_attention).1
restore_attention-snapshot_example =
    restore_attention-snapshot criteria busy_attention new_attention busy_attention-IsSaveable

abbrev progress_fact : ActivityFact
progress_fact = record {
  sequence = 8;
  activity_type = "goal_progress";
  source = "host_observed";
  action_class = none;
  host_declared_relation = none;
  target_kind = none;
  target_scope = none;
  target_ref_digest = none;
  proposed_purpose = none;
  proposed_purpose_source = "derived";
  affected_criterion_ids = "build" ∷ [];
  result_class = none;
  artifact_changed = none;
  progress_class = some "GOAL_PROGRESS";
  evidence_kinds = [];
  relation_certainty = none;
}

record_activity-clears_example :
    (count_at (record_activity progress_fact busy_attention).retry_counts "build" ≡ (
      if is_progress progress_fact && one_of "build" progress_fact.affected_criterion_ids
      then 0
      else count_at busy_attention.retry_counts "build"))
    × (redirects (record_activity progress_fact busy_attention) "build" ≡ (
        if is_progress progress_fact || is_true progress_fact.artifact_changed
        then 0
        else redirects busy_attention "build"))
record_activity-clears_example = record_activity-clears progress_fact busy_attention "build"

yield_test : (consume_progress_redirect_yield (some "test") busy_attention).0 ≡ true
unfolding consume_progress_redirect_yield
yield_test = refl

consume_progress_redirect_yield-once_example :
    (busy_attention.progress_redirect_yield_target ≡ some "test")
    × (consume_progress_redirect_yield
          (some "test")
          (consume_progress_redirect_yield (some "test") busy_attention).1
        ≡ (false, (consume_progress_redirect_yield (some "test") busy_attention).1))
consume_progress_redirect_yield-once_example =
    consume_progress_redirect_yield-once "test" (some "test") busy_attention yield_test
