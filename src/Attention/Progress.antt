-- ===== src/Attention/Progress.antt =====
-- scripts/runtime_contract/standalone_attention.py: what an observed fact clears, and the single
-- use of a yield.
use cognitive_frame_works.Prelude.{
  ap, ℕ, ◌+◌, String, Option, none, some, List, [], ◌∷◌, Bool, true, false, not, ◌&&◌, ◌||◌, ◌≡◌,
  refl, ◌∙◌, arith, inl, inr, eq_iff, ◌==◌, one_of, Bool-cases, if◌then◌else◌,
}
use cognitive_frame_works.Prelude.Dict.{Dict, get, put}
use cognitive_frame_works.Attention.Facts.{ActivityFact}
use cognitive_frame_works.Attention.Policy.{count_at}
use cognitive_frame_works.Attention.State.{
  Attention, revise, reset_progress_redirects, clear_counts, is_action, is_goal_progress, is_true,
  is_same, bump_actions, count_action, record_activity, consume_progress_redirect_yield,
}
use cognitive_frame_works.Attention.Redirects.{redirects, count_at-put}

count_at-clear_counts :
    (ids : List String) (d : Dict ℕ) (k : String)
    → count_at (clear_counts ids d) k ≡ (if one_of k ids then 0 else count_at d k)
unfolding clear_counts
count_at-clear_counts [] d k = refl
count_at-clear_counts (i ∷ ids) d k =
    ground
      (arith, count_at-clear_counts ids (put d i 0) k, count_at-put d i k 0, eq_iff i k, eq_iff k i)

-- Progress towards the goal.
unfoldable pub is_progress : ActivityFact → Bool
is_progress f = f.activity_type == "goal_progress" && is_goal_progress f.progress_class

count_action-kept :
    (f : ActivityFact) (a : Attention)
    → ((count_action f a).retry_counts ≡ a.retry_counts)
      × ((count_action f a).redirect_counts ≡ a.redirect_counts)
unfolding count_action bump_actions
count_action-kept f a = elim (Bool-cases (is_action f)) [
  | inl act ↦ rw act (refl, refl)
  | inr other ↦ rw other (refl, refl)
]

no_redirects : (k : String) → count_at [] k ≡ 0
unfolding count_at get
no_redirects k = refl

-- A fact clears the retries of the criteria that it affects exactly if it is progress towards the
-- goal, and the redirects of every criterion exactly if it is that or a changed artifact; else
-- both stay as they were.
pub record_activity-clears :
    (f : ActivityFact) (a : Attention) (k : String)
    → (count_at (record_activity f a).retry_counts k ≡ (
        if is_progress f && one_of k f.affected_criterion_ids
        then 0
        else count_at a.retry_counts k))
      × (redirects (record_activity f a) k
          ≡ (if is_progress f || is_true f.artifact_changed then 0 else redirects a k))
unfolding record_activity revise reset_progress_redirects is_progress
record_activity-clears f a k =
    let (retries, redirected) = count_action-kept f a in
    elim (Bool-cases (is_progress f)) [
      | inl goal ↦ rw goal (
        count_at-clear_counts f.affected_criterion_ids (count_action f a).retry_counts k
            ∙ rw retries,
        no_redirects k,
      )
      | inr other ↦ elim (Bool-cases (is_true f.artifact_changed)) [
        | inl changed ↦ rw (other, changed) (rw retries, no_redirects k)
        | inr same ↦ elim (Bool-cases (is_action f)) [
          | inl act ↦ rw (other, same, act) (rw retries, rw redirected)
          | inr idle ↦ rw (other, same, idle) (rw retries, rw redirected)
        ]
      ]
    ]

consumed :
    (c : String) (t : Option String) (b : Bool) → not (b || not (is_same t c)) ≡ true → t ≡ some c
consumed c none b h = ground (arith, h)
consumed c (some t) b h = ap some (ground (arith, h, eq_iff t c))

-- A yield is used by the criterion that it names and by no other, and only once: the next call,
-- whichever criterion it is for, changes nothing.
pub consume_progress_redirect_yield-once :
    (c : String) (next : Option String) (a : Attention)
    → (consume_progress_redirect_yield (some c) a).0 ≡ true
    → (a.progress_redirect_yield_target ≡ some c)
      × (consume_progress_redirect_yield next (consume_progress_redirect_yield (some c) a).1
          ≡ (false, (consume_progress_redirect_yield (some c) a).1))
unfolding consume_progress_redirect_yield revise
consume_progress_redirect_yield-once c next a h =
    elim (Bool-cases (c == "" || not (is_same a.progress_redirect_yield_target c))) [
      | inl refused ↦ cc (rw refused at h)
      | inr used ↦
          (consumed c a.progress_redirect_yield_target (c == "") (ap not used), rw used (go next))
    ]
  where
    go :
        (n : Option String)
        → consume_progress_redirect_yield n
            (record a { progress_redirect_yield_target = none; revision = a.revision + 1 })
          ≡ (false, record a { progress_redirect_yield_target = none; revision = a.revision + 1 })
    go none = refl
    go (some x) = ground arith
