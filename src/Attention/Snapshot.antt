-- ===== src/Attention/Snapshot.antt =====
-- scripts/runtime_contract/standalone_attention.py: `snapshot` and `restore`. A dictionary is the
-- list of its keys with what `get` answers for each field; a counter or a number of it is a
-- natural number, the only kind that the code lets pass. `restore` changes the state before all
-- of its checks are made, so it returns the state also where it raises.
use cognitive_frame_works.Prelude.{
  ℕ, String, Option, none, some, List, [], ◌∷◌, Bool, true, not, ◌&&◌, ◌||◌, all, length, leb, ◌==◌,
  one_of, str_len, if◌then◌else◌,
}
use cognitive_frame_works.Prelude.Result.{Result, err, ok, value_error}
use cognitive_frame_works.Prelude.Dict.{Dict, get, put}
use cognitive_frame_works.Attention.Facts.{CriterionState}
use cognitive_frame_works.Attention.Policy.{count_at}
use cognitive_frame_works.Attention.State.{Attention, criterion_ids, has_count}

pub record AttentionDict : Type 0 where
  pub fields : List String
  pub saved_action_counts : Dict ℕ
  pub saved_retry_counts : Dict ℕ
  pub saved_last_action_sequence : Dict ℕ
  pub saved_redirect_counts : Dict ℕ
  pub saved_epoch : ℕ
  pub saved_action : Option String
  pub saved_criterion : Option String
  pub saved_yield_target : Option String
  pub saved_guidance_pending : Bool
  pub saved_revision : ℕ

unfoldable pub prior_fields : List String
prior_fields = "action_counts" ∷ "retry_counts" ∷ "last_action_sequence" ∷ []

unfoldable pub redirect_fields : List String
redirect_fields =
    "action_counts" ∷ "retry_counts" ∷ "last_action_sequence" ∷ "redirect_counts"
    ∷ "progress_redirect_epoch" ∷ "last_progress_redirect_action"
    ∷ "last_progress_redirect_criterion" ∷ "progress_redirect_yield_target"
    ∷ "progress_redirect_guidance_pending" ∷ []

unfoldable pub current_fields : List String
current_fields = "revision" ∷ redirect_fields

-- Equality of sets.
unfoldable pub same_fields : List String → List String → Bool
same_fields a b = all (λ x. one_of x b) a && all (λ x. one_of x a) b

unfoldable pub is_known_fields : List String → Bool
is_known_fields fs =
    same_fields fs prior_fields
    || same_fields fs redirect_fields
    || same_fields fs current_fields
    || same_fields fs []

unfoldable pub snapshot : Attention → AttentionDict
unfolding current_fields redirect_fields
snapshot a = record {
  fields = current_fields;
  saved_action_counts = a.action_counts;
  saved_retry_counts = a.retry_counts;
  saved_last_action_sequence = a.last_action_sequence;
  saved_redirect_counts = a.redirect_counts;
  saved_epoch = a.progress_redirect_epoch;
  saved_action = a.last_progress_redirect_action;
  saved_criterion = a.last_progress_redirect_criterion;
  saved_yield_target = a.progress_redirect_yield_target;
  saved_guidance_pending = a.guidance_pending;
  saved_revision = a.revision;
}

-- Counters that `restore` accepts.
unfoldable pub is_valid_counts : List String → Dict ℕ → Bool
is_valid_counts ids d = leb (length d) 256 && all (λ e. one_of e.0 ids || e.0 == "__task__") d

unfoldable pub are_valid_counts : List String → AttentionDict → Bool
are_valid_counts ids v =
    is_valid_counts ids v.saved_action_counts
    && is_valid_counts ids v.saved_retry_counts
    && is_valid_counts ids v.saved_last_action_sequence
    && is_valid_counts ids v.saved_redirect_counts

-- `{key: counts.get(key, 0) for key in ids}`
unfoldable pub restored_counts : List String → Dict ℕ → Dict ℕ
restored_counts [] d = []
restored_counts (k ∷ ids) d = put (restored_counts ids d) k (count_at d k)

unfoldable pub restored_redirects : List String → Dict ℕ → Dict ℕ
restored_redirects ids d =
    if has_count (get d "__task__")
    then put (restored_counts ids d) "__task__" (count_at d "__task__")
    else restored_counts ids d

unfoldable pub is_valid_identity : Option String → Bool
is_valid_identity none = true
is_valid_identity (some s) = leb (str_len s) 128

unfoldable pub is_valid_target : List String → Option String → Bool
is_valid_target ids none = true
is_valid_target ids (some s) = one_of s ids

-- The counters and the epoch, which are set first.
unfoldable pub restore_counters : List String → AttentionDict → Attention → Attention
restore_counters ids v a = record a {
  action_counts = restored_counts ids v.saved_action_counts;
  retry_counts = restored_counts ids v.saved_retry_counts;
  last_action_sequence = restored_counts ids v.saved_last_action_sequence;
  redirect_counts = restored_redirects ids v.saved_redirect_counts;
  progress_redirect_epoch = v.saved_epoch;
}

unfoldable pub restore_identities : AttentionDict → Attention → Attention
restore_identities v a = record a {
  last_progress_redirect_action = v.saved_action;
  last_progress_redirect_criterion = v.saved_criterion;
}

unfoldable pub restore_flags : AttentionDict → Attention → Attention
restore_flags v a = record a {
  progress_redirect_yield_target = v.saved_yield_target;
  guidance_pending = v.saved_guidance_pending;
  revision = v.saved_revision;
}

unfoldable pub restore_attention :
    AttentionDict → List CriterionState → Attention → Result (Unit {0}) × Attention
restore_attention v criteria a =
    let ids = criterion_ids criteria in
    let counted = restore_counters ids v a in
    let identified = restore_identities v counted in
    if not (is_known_fields v.fields) || not (are_valid_counts ids v)
    then (err value_error, a)
    else if not (is_valid_identity v.saved_action && is_valid_identity v.saved_criterion)
    then (err value_error, counted)
    else if not (is_valid_target ids v.saved_yield_target)
    then (err value_error, identified)
    else (ok tt, restore_flags v identified)
