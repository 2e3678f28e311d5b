-- ===== src/Attention/Policy.antt =====
-- scripts/runtime_contract/standalone_attention.py: `StandaloneAttentionPolicy`, which orders the
-- unfinished criteria and shows the first of them.
use cognitive_frame_works.Prelude.{
  ℕ, String, Option, none, some, List, [], ◌∷◌, Bool, not, ◌&&◌, ◌||◌, map, max, ltb, leb, eqb,
  one_of, str_ltb, keep_if, take, if◌then◌else◌,
}
use cognitive_frame_works.Prelude.Dict.{Dict, get}
use cognitive_frame_works.Attention.Facts.{CriterionState}

-- `d.get(k, 0)`
abbrev pub count_or_zero : Option ℕ → ℕ
count_or_zero none = 0
count_or_zero (some n) = n

unfoldable pub count_at : Dict ℕ → String → ℕ
count_at d k = count_or_zero (get d k)

unfoldable pub window_size : ℕ
window_size = 3

unfoldable pub retry_yield_threshold : ℕ
retry_yield_threshold = 2

unfoldable pub is_runnable : CriterionState → Bool
is_runnable c = not (one_of c.status ("satisfied" ∷ "blocked" ∷ []))

unfoldable pub runnable : List CriterionState → List CriterionState
runnable criteria = keep_if is_runnable criteria

-- What the sort key reads.
pub record Counters : Type 0 where
  pub retry_counts : Dict ℕ
  pub last_action_sequence : Dict ℕ
  pub redirect_counts : Dict ℕ

pub record SortKey : Type 0 where
  pub must_yield : Bool
  pub last_action : ℕ
  pub retries : ℕ
  pub name : String

unfoldable pub sort_key : Counters → CriterionState → SortKey
sort_key k c = record {
  must_yield =
      leb retry_yield_threshold
        (max (count_at k.retry_counts c.criterion_id) (count_at k.redirect_counts c.criterion_id));
  last_action = count_at k.last_action_sequence c.criterion_id;
  retries = count_at k.retry_counts c.criterion_id;
  name = c.criterion_id;
}

-- The order of two texts with equal parts before them, as Python compares tuples.
unfoldable pub key_ltb : SortKey → SortKey → Bool
key_ltb a b =
    (not a.must_yield && b.must_yield)
    || ((a.must_yield && b.must_yield) || (not a.must_yield && not b.must_yield))
      && (ltb a.last_action b.last_action
          || eqb a.last_action b.last_action
            && (ltb a.retries b.retries || eqb a.retries b.retries && str_ltb a.name b.name))

unfoldable pub insert_criterion :
    Counters → CriterionState → List CriterionState → List CriterionState
insert_criterion k c [] = c ∷ []
insert_criterion k c (x ∷ xs) =
    if key_ltb (sort_key k x) (sort_key k c) then x ∷ insert_criterion k c xs else c ∷ x ∷ xs

-- `sorted`, which keeps the order of equal keys.
unfoldable pub ordered : Counters → List CriterionState → List CriterionState
ordered k [] = []
ordered k (c ∷ cs) = insert_criterion k c (ordered k cs)

unfoldable pub select : Counters → List CriterionState → List String
select k criteria = map (λ c. c.criterion_id) (take window_size (ordered k (runnable criteria)))
