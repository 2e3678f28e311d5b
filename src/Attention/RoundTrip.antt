-- ===== src/Attention/RoundTrip.antt =====
-- scripts/runtime_contract/standalone_attention.py: what `restore` makes of a `snapshot`.
use cognitive_frame_works.Prelude.{
  ℕ, String, List, [], ◌∷◌, true, false, ◌||◌, ◌≡◌, refl, ◌∙◌, arith, eq_iff, ◌==◌, one_of,
  Bool-cases, if◌then◌else◌, inl, inr,
}
use cognitive_frame_works.Prelude.Result.{ok}
use cognitive_frame_works.Prelude.Dict.{Dict, get}
use cognitive_frame_works.Attention.Facts.{CriterionState}
use cognitive_frame_works.Attention.Policy.{count_at}
use cognitive_frame_works.Attention.State.{Attention, criterion_ids, has_count}
use cognitive_frame_works.Attention.Redirects.{count_at-put}
use cognitive_frame_works.Attention.Snapshot.{
  prior_fields, redirect_fields, current_fields, same_fields, is_known_fields, snapshot,
  are_valid_counts, restored_counts, restored_redirects, is_valid_identity, is_valid_target,
  restore_counters, restore_identities, restore_flags, restore_attention,
}

-- A state of the task's criteria, in bounds.
pub record IsSaveable (criteria : List CriterionState) (a : Attention) : Type 0 where
  pub counts : are_valid_counts (criterion_ids criteria) (snapshot a) ≡ true
  pub action : is_valid_identity a.last_progress_redirect_action ≡ true
  pub criterion : is_valid_identity a.last_progress_redirect_criterion ≡ true
  pub target : is_valid_target (criterion_ids criteria) a.progress_redirect_yield_target ≡ true

-- The same answers about the criteria of the task, and the same redirect.
pub record IsSameAttention (criteria : List CriterionState) (a b : Attention) : Type 0 where
  pub same_counts :
      (k : String)
      → one_of k (criterion_ids criteria) ≡ true
      → (count_at b.action_counts k ≡ count_at a.action_counts k)
        × (count_at b.retry_counts k ≡ count_at a.retry_counts k)
        × (count_at b.last_action_sequence k ≡ count_at a.last_action_sequence k)
        × (count_at b.redirect_counts k ≡ count_at a.redirect_counts k)
  pub same_task : count_at b.redirect_counts "__task__" ≡ count_at a.redirect_counts "__task__"
  pub same_epoch : b.progress_redirect_epoch ≡ a.progress_redirect_epoch
  pub same_action : b.last_progress_redirect_action ≡ a.last_progress_redirect_action
  pub same_criterion : b.last_progress_redirect_criterion ≡ a.last_progress_redirect_criterion
  pub same_target : b.progress_redirect_yield_target ≡ a.progress_redirect_yield_target
  pub same_guidance : b.guidance_pending ≡ a.guidance_pending
  pub same_revision : b.revision ≡ a.revision

count_at-restored_counts :
    (ids : List String) (d : Dict ℕ) (k : String)
    → count_at (restored_counts ids d) k ≡ (if one_of k ids then count_at d k else 0)
unfolding restored_counts
count_at-restored_counts [] d k = unfold count_at in unfold get in refl
count_at-restored_counts (i ∷ ids) d k = ground (
  arith,
  count_at-put (restored_counts ids d) i k (count_at d i),
  count_at-restored_counts ids d k,
  eq_iff i k,
  eq_iff k i,
)

no_count-zero : (d : Dict ℕ) (k : String) → has_count (get d k) ≡ false → count_at d k ≡ 0
unfolding count_at
no_count-zero d k h = ground (arith, h)

count_at-restored_redirects :
    (ids : List String) (d : Dict ℕ) (k : String)
    → (one_of k ids || k == "__task__") ≡ true
    → count_at (restored_redirects ids d) k ≡ count_at d k
unfolding restored_redirects
count_at-restored_redirects ids d k h = elim (Bool-cases (has_count (get d "__task__"))) [
  | inl there ↦ ground (
    arith,
    there,
    h,
    count_at-put (restored_counts ids d) "__task__" k (count_at d "__task__"),
    count_at-restored_counts ids d k,
    eq_iff "__task__" k,
    eq_iff k "__task__",
  )
  | inr away ↦ ground (
    arith,
    away,
    h,
    no_count-zero d "__task__" away,
    count_at-restored_counts ids d k,
    eq_iff k "__task__",
  )
]

current_fields-known : is_known_fields current_fields ≡ true
unfolding is_known_fields current_fields redirect_fields prior_fields same_fields
current_fields-known = refl

-- A state whose counters and identities are in bounds, restored from its snapshot by any other
-- state, answers the same about every criterion of the task and goes on with the same redirect.
pub restore_attention-snapshot :
    (criteria : List CriterionState) (a b : Attention)
    → IsSaveable criteria a
    → ((restore_attention (snapshot a) criteria b).0 ≡ ok tt)
      × IsSameAttention criteria a (restore_attention (snapshot a) criteria b).1
unfolding restore_attention restore_flags restore_identities restore_counters is_known_fields
    same_fields snapshot
restore_attention-snapshot criteria a b s =
    let ids = criterion_ids criteria in
    rw (current_fields-known, s.counts, s.action, s.criterion, s.target)
      (
        refl,
        record {
          same_counts = λ k h. (
            count_at-restored_counts ids a.action_counts k ∙ rw h,
            count_at-restored_counts ids a.retry_counts k ∙ rw h,
            count_at-restored_counts ids a.last_action_sequence k ∙ rw h,
            count_at-restored_redirects ids a.redirect_counts k (rw h),
          );
          same_task = count_at-restored_redirects ids a.redirect_counts "__task__" (ground arith);
          same_epoch = refl;
          same_action = refl;
          same_criterion = refl;
          same_target = refl;
          same_guidance = refl;
          same_revision = refl;
        },
      )
