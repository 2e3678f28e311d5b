-- ===== src/Attention/State.antt =====
-- scripts/runtime_contract/standalone_attention.py: `StandaloneAttentionState`. The ids of a set
-- of criteria are taken in the order of the criteria.
use cognitive_frame_works.Prelude.{
  ℕ, ◌+◌, String, Option, none, some, List, [], ◌∷◌, Bool, true, false, not, ◌&&◌, ◌||◌, map, any,
  leb, eqb, ◌==◌, one_of, keep_if, is_bounded, if◌then◌else◌,
}
use cognitive_frame_works.Prelude.Result.{Result, ok, value_error, guard, ◌>>◌}
use cognitive_frame_works.Prelude.Dict.{Dict, get, put}
use cognitive_frame_works.Attention.Facts.{CriterionState, ActivityFact, AttemptSemanticDescriptor}
use cognitive_frame_works.Attention.Policy.{Counters, count_at, select}

pub record Attention : Type 0 where
  pub action_counts : Dict ℕ
  pub retry_counts : Dict ℕ
  pub redirect_counts : Dict ℕ
  pub last_action_sequence : Dict ℕ
  pub progress_redirect_epoch : ℕ
  pub last_progress_redirect_action : Option String
  pub last_progress_redirect_criterion : Option String
  pub progress_redirect_yield_target : Option String
  pub guidance_pending : Bool
  pub revision : ℕ

unfoldable pub new_attention : Attention
new_attention = record {
  action_counts = [];
  retry_counts = [];
  redirect_counts = [];
  last_action_sequence = [];
  progress_redirect_epoch = 0;
  last_progress_redirect_action = none;
  last_progress_redirect_criterion = none;
  progress_redirect_yield_target = none;
  guidance_pending = false;
  revision = 0;
}

-- `self._revision += 1`
unfoldable pub revise : Attention → Attention
revise a = record a { revision = a.revision + 1 }

-- `progress_redirected`
unfoldable pub is_redirected : Attention → Bool
is_redirected a = any (λ e. not (eqb e.1 0)) a.redirect_counts

abbrev pub criterion_ids : List CriterionState → List String
criterion_ids criteria = map (λ c. c.criterion_id) criteria

-- `key in d`
abbrev pub has_count : Option ℕ → Bool
has_count none = false
has_count (some n) = true

unfoldable pub keep_known : List String → Dict ℕ → Dict ℕ
keep_known ids [] = []
keep_known ids ((k, n) ∷ d) =
    if one_of k ids || k == "__task__" then (k, n) ∷ keep_known ids d else keep_known ids d

-- `setdefault(k, 0)` for each id.
unfoldable pub set_defaults : List String → Dict ℕ → Dict ℕ
set_defaults [] d = d
set_defaults (k ∷ ids) d = set_defaults ids (if has_count (get d k) then d else put d k 0)

unfoldable pub sync_counts : List String → Dict ℕ → Dict ℕ
sync_counts ids d = set_defaults ids (keep_known ids d)

unfoldable pub sync_criteria : List CriterionState → Attention → Attention
sync_criteria criteria a =
    let ids = criterion_ids criteria in
    record a {
      action_counts = sync_counts ids a.action_counts;
      retry_counts = sync_counts ids a.retry_counts;
      redirect_counts = sync_counts ids a.redirect_counts;
      last_action_sequence = sync_counts ids a.last_action_sequence;
    }

abbrev pub counters : Attention → Counters
counters a = record {
  retry_counts = a.retry_counts;
  last_action_sequence = a.last_action_sequence;
  redirect_counts = a.redirect_counts;
}

unfoldable pub active_attention_window : List CriterionState → Attention → List String × Attention
active_attention_window criteria a =
    let synced = sync_criteria criteria a in (select (counters synced) criteria, synced)

-- One more in `counts`, and the sequence number, for the ids that `counts` has.
unfoldable pub bump : List String → ℕ → Dict ℕ × Dict ℕ → Dict ℕ × Dict ℕ
bump [] sequence counts = counts
bump (k ∷ ids) sequence (counts, last) = bump ids sequence (
    if has_count (get counts k)
    then (put counts k (count_at counts k + 1), put last k sequence)
    else (counts, last))

unfoldable pub clear_counts : List String → Dict ℕ → Dict ℕ
clear_counts [] d = d
clear_counts (k ∷ ids) d = clear_counts ids (put d k 0)

unfoldable pub reset_progress_redirects : Attention → Attention
reset_progress_redirects a = record a {
  progress_redirect_epoch = a.progress_redirect_epoch + 1;
  redirect_counts = [];
  last_progress_redirect_action = none;
  last_progress_redirect_criterion = none;
  progress_redirect_yield_target = none;
  guidance_pending = false;
}

unfoldable pub is_action : ActivityFact → Bool
is_action f = one_of f.activity_type ("action" ∷ "retry" ∷ [])

abbrev pub is_goal_progress : Option String → Bool
is_goal_progress none = false
is_goal_progress (some c) = one_of c ("GOAL_PROGRESS" ∷ "BLOCKER_REMOVED" ∷ [])

abbrev pub is_true : Option Bool → Bool
is_true none = false
is_true (some b) = b

unfoldable pub bump_actions : ActivityFact → Attention → Attention
bump_actions f a =
    let counts : Dict ℕ × Dict ℕ = (a.action_counts, a.last_action_sequence) in
    let moved = bump f.affected_criterion_ids f.sequence counts in
    record a { action_counts = moved.0; last_action_sequence = moved.1 }

unfoldable pub count_action : ActivityFact → Attention → Attention
count_action f a = if is_action f then bump_actions f a else a

unfoldable pub record_activity : ActivityFact → Attention → Attention
record_activity f a =
    let moved = count_action f a in
    if f.activity_type == "goal_progress" && is_goal_progress f.progress_class
    then revise (
        reset_progress_redirects (record moved {
          retry_counts = clear_counts f.affected_criterion_ids moved.retry_counts;
        }))
    else if is_true f.artifact_changed
    then revise (reset_progress_redirects moved)
    else if is_action f
    then revise moved
    else moved

unfoldable pub record_failed_approach : AttemptSemanticDescriptor → ℕ → Attention → Attention
record_failed_approach d sequence a =
    let moved = bump d.affected_criterion_ids sequence (a.retry_counts, a.last_action_sequence) in
    revise (record a { retry_counts = moved.0; last_action_sequence = moved.1 })

abbrev pub head_or : String → List String → String
head_or x [] = x
head_or x (y ∷ ys) = y

-- The criterion that is meant, or the first one of the window.
unfoldable pub selected_criterion :
    Option String → List CriterionState → Attention → String × Attention
selected_criterion none criteria a =
    let (window, synced) = active_attention_window criteria a in (head_or "" window, synced)
selected_criterion (some c) criteria a =
    if one_of c (criterion_ids criteria)
    then (c, a)
    else let (window, synced) = active_attention_window criteria a in (head_or "" window, synced)

abbrev pub is_same : Option String → String → Bool
is_same none s = false
is_same (some t) s = t == s

-- A redirect that uses up the criterion's redirects yields to the next criterion of the window.
unfoldable pub yield_to : List String → Attention → String × Attention
yield_to [] a = ("limit", a)
yield_to (next ∷ rest) a =
    ("yield", record a { progress_redirect_yield_target = some next; guidance_pending = true })

unfoldable pub charge_redirect : String → String → Attention → Attention
charge_redirect action key a = revise (record a {
  redirect_counts = put a.redirect_counts key (count_at a.redirect_counts key + 1);
  last_progress_redirect_action = some action;
  last_progress_redirect_criterion = some key;
})

unfoldable pub exhaust_key : String → List CriterionState → Attention → String × Attention
exhaust_key key criteria a =
    let (window, synced) = active_attention_window criteria a in
    yield_to (keep_if (λ k. not (k == key)) window) synced

unfoldable pub spend_redirect : ℕ → String → List CriterionState → Attention → String × Attention
spend_redirect limit key criteria a =
    if leb limit (count_at a.redirect_counts key)
    then exhaust_key key criteria a
    else ("redirect", record a { guidance_pending = true })

unfoldable pub redirect_key :
    String → ℕ → String → List CriterionState → Attention → String × Attention
redirect_key action limit key criteria a =
    if is_same a.last_progress_redirect_action action
      && is_same a.last_progress_redirect_criterion key
    then ("repeat", a)
    else if leb limit (count_at a.redirect_counts key)
    then ("limit", a)
    else spend_redirect limit key criteria (charge_redirect action key a)

unfoldable pub record_progress_redirect :
    String → Option String → List CriterionState → ℕ → Attention → Result (String × Attention)
record_progress_redirect action criterion_id criteria limit a = do
  guard (is_bounded 128 action && leb 1 limit && leb limit 8) value_error
  ok (
      let (selected, b) = selected_criterion criterion_id criteria a in
      redirect_key action limit (if selected == "" then "__task__" else selected) criteria b)

unfoldable pub consume_progress_redirect_yield : Option String → Attention → Bool × Attention
consume_progress_redirect_yield none a = (false, a)
consume_progress_redirect_yield (some c) a =
    if c == "" || not (is_same a.progress_redirect_yield_target c)
    then (false, a)
    else (true, revise (record a { progress_redirect_yield_target = none }))

unfoldable pub take_progress_redirect_guidance : Attention → Option String × Attention
take_progress_redirect_guidance a =
    if a.guidance_pending
    then (a.last_progress_redirect_criterion, revise (record a { guidance_pending = false }))
    else (none, a)
