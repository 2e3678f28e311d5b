-- ===== src/Attention/Redirects.antt =====
-- scripts/runtime_contract/standalone_attention.py: how often a criterion is redirected, and to
-- which criterion it yields.
use cognitive_frame_works.Prelude.{
  ℕ, ◌+◌, ◌≤◌, String, none, some, List, [], ◌∷◌, true, false, ◌&&◌, ◌||◌, ◌≡◌, ◌≢◌, refl, subst,
  ◌∙◌, inl, inr, arith, eq_iff, eq_refl, leb, ◌==◌, one_of, if◌then◌else◌, Bool-cases, is_bounded,
}
use cognitive_frame_works.Prelude.Result.{Result, err, ok, value_error, ok_inj, guard-eq-ok}
use cognitive_frame_works.Prelude.Dict.{Dict, get, put, get-put}
use cognitive_frame_works.Attention.Facts.{CriterionState}
use cognitive_frame_works.Attention.Policy.{count_at}
use cognitive_frame_works.Attention.State.{
  Attention, revise, criterion_ids, has_count, is_same, keep_known, set_defaults, sync_counts,
  sync_criteria, active_attention_window, selected_criterion, yield_to, charge_redirect,
  exhaust_key, spend_redirect, redirect_key, record_progress_redirect,
}

abbrev pub redirects : Attention → String → ℕ
redirects a k = count_at a.redirect_counts k

pub count_at-put :
    (d : Dict ℕ) (k j : String) (n : ℕ)
    → count_at (put d k n) j ≡ (if k == j then n else count_at d j)
unfolding count_at
count_at-put d k j n = ground (arith, get-put d k j n)

get-keep_known :
    (ids : List String) (d : Dict ℕ) (j : String)
    → get (keep_known ids d) j ≡ (if one_of j ids || j == "__task__" then get d j else none)
unfolding get keep_known
get-keep_known ids [] j = ground arith
get-keep_known ids ((k, n) ∷ d) j = ground (arith, eq_iff k j, get-keep_known ids d j)

count_at-set_default :
    (d : Dict ℕ) (k j : String)
    → count_at (if has_count (get d k) then d else put d k 0) j ≡ count_at d j
unfolding count_at
count_at-set_default d k j = ground (arith, get-put d k j 0, eq_iff k j)

count_at-set_defaults :
    (ids : List String) (d : Dict ℕ) (j : String) → count_at (set_defaults ids d) j ≡ count_at d j
unfolding set_defaults
count_at-set_defaults [] d j = refl
count_at-set_defaults (k ∷ ids) d j =
    count_at-set_defaults ids (if has_count (get d k) then d else put d k 0) j
    ∙ count_at-set_default d k j

-- Taking over the criteria keeps the redirects of each of them.
pub redirects-sync_criteria :
    (criteria : List CriterionState) (a : Attention) (k : String)
    → (one_of k (criterion_ids criteria) || k == "__task__") ≡ true
    → redirects (sync_criteria criteria a) k ≡ redirects a k
unfolding sync_criteria sync_counts
redirects-sync_criteria criteria a k known =
    let ids = criterion_ids criteria in
    let kept : get (keep_known ids a.redirect_counts) k ≡ get a.redirect_counts k =
      get-keep_known ids a.redirect_counts k ∙ rw known in
    count_at-set_defaults ids (keep_known ids a.redirect_counts) k ∙ unfold count_at in cc kept

-- One if the answer sends the work elsewhere or has it tried another way.
unfoldable pub is_redirect : String → ℕ
is_redirect answer = if answer == "redirect" || answer == "yield" then 1 else 0

-- What one answer may cost the criterion.
record IsCharged (limit : ℕ) (key : String) (a : Attention) (x : String × Attention) : Type 0 where
  paid : redirects a key + is_redirect x.0 ≤ redirects x.1 key
  within : redirects a key ≤ limit → redirects x.1 key ≤ limit

yield_to-redirects :
    (ids : List String) (a : Attention) (key : String)
    → redirects (yield_to ids a).1 key ≡ redirects a key
unfolding yield_to
yield_to-redirects [] a key = refl
yield_to-redirects (k ∷ ids) a key = refl

is_redirect-le : (answer : String) → is_redirect answer ≤ 1
unfolding is_redirect
is_redirect-le answer = ground arith

charge_redirect-redirects :
    (action key : String) (a : Attention)
    → redirects (charge_redirect action key a) key ≡ redirects a key + 1
unfolding charge_redirect revise
charge_redirect-redirects action key a =
    count_at-put a.redirect_counts key key (count_at a.redirect_counts key + 1) ∙ rw (eq_refl key)

spend_redirect-redirects :
    (limit : ℕ) (key : String) (criteria : List CriterionState) (a : Attention)
    → (one_of key (criterion_ids criteria) || key == "__task__") ≡ true
    → redirects (spend_redirect limit key criteria a).1 key ≡ redirects a key
unfolding spend_redirect exhaust_key active_attention_window
spend_redirect-redirects limit key criteria a known =
    elim (Bool-cases (leb limit (count_at a.redirect_counts key))) [
      | inl full ↦ rw full (
          yield_to-redirects _ (sync_criteria criteria a) key
          ∙ redirects-sync_criteria criteria a key known)
      | inr room ↦ rw room
    ]

redirect_key-IsCharged :
    (action : String) (limit : ℕ) (key : String) (criteria : List CriterionState) (a : Attention)
    → (one_of key (criterion_ids criteria) || key == "__task__") ≡ true
    → IsCharged limit key a (redirect_key action limit key criteria a)
unfolding redirect_key
redirect_key-IsCharged action limit key criteria a known =
    elim (Bool-cases (
      is_same a.last_progress_redirect_action action
      && is_same a.last_progress_redirect_criterion key)) [
        | inl again ↦
            rw again (record { paid = unfold is_redirect in omega arith; within = λ h. h })
        | inr new ↦ elim (Bool-cases (leb limit (count_at a.redirect_counts key))) [
          | inl full ↦
              rw (new, full) (record { paid = unfold is_redirect in omega arith; within = λ h. h })
          | inr room ↦
              let charged = charge_redirect action key a in
              let spent = spend_redirect-redirects limit key criteria charged known in
              let one = charge_redirect-redirects action key a in
              rw (new, room)
                (record {
                  paid = omega (
                    arith,
                    spent,
                    one,
                    is_redirect-le (spend_redirect limit key criteria charged).0,
                  );
                  within = λ h. ground (arith, spent, one, room);
                })
        ]
      ]

unfoldable pub after_answer :
    (Attention → List String × Attention)
    → Attention
    → Result (String × Attention)
    → List String × Attention
after_answer next a (err x) = next a
after_answer next a (ok (answer, b)) = (answer ∷ (next b).0, (next b).1)

-- The answers to failures of the actions, each attributed to the same criterion; a call that
-- raises gives no answer.
unfoldable pub answers :
    String → List CriterionState → ℕ → List String → Attention → List String × Attention
answers c criteria limit [] a = ([], a)
answers c criteria limit (action ∷ actions) a =
    after_answer (answers c criteria limit actions) a
      (record_progress_redirect action (some c) criteria limit a)

-- How many of the answers redirect or yield.
unfoldable pub redirect_count : List String → ℕ
redirect_count [] = 0
redirect_count (answer ∷ rest) = is_redirect answer + redirect_count rest

record_progress_redirect-IsCharged :
    (action c : String) (criteria : List CriterionState) (limit : ℕ) (a : Attention)
    {x : String × Attention}
    → one_of c (criterion_ids criteria) ≡ true
    → c ≢ ""
    → record_progress_redirect action (some c) criteria limit a ≡ ok x
    → IsCharged limit c a x
unfolding record_progress_redirect selected_criterion
record_progress_redirect-IsCharged action c criteria limit a {x} known named h =
    let known_key : (one_of c (criterion_ids criteria) || c == "__task__") ≡ true = rw known in
    let unnamed : (c == "") ≡ false = ground (arith, named, eq_iff c "") in
    let test = is_bounded 128 action && leb 1 limit && leb limit 8 in
    let (_, given) = guard-eq-ok test value_error _ h in
    let answer : redirect_key action limit c criteria a ≡ x =
      ok_inj (rw (known, unnamed) at given) in
    subst (IsCharged limit c a) answer (redirect_key-IsCharged action limit c criteria a known_key)

-- However often the work on a criterion fails, with whatever actions, the criterion is redirected
-- or yields at most as often as the limit allows beyond the redirects it already had.
pub redirects-AreLimited :
    (c : String) (criteria : List CriterionState) (limit : ℕ) (actions : List String)
    (a : Attention)
    → one_of c (criterion_ids criteria) ≡ true
    → c ≢ ""
    → redirects a c ≤ limit
    → redirects a c + redirect_count (answers c criteria limit actions a).0 ≤ limit
unfolding answers redirect_count after_answer
redirects-AreLimited c criteria limit [] a known named h = omega (arith, h)
redirects-AreLimited c criteria limit (action ∷ actions) a known named h =
    go (record_progress_redirect action (some c) criteria limit a) refl
      (λ b. redirects-AreLimited c criteria limit actions b known named)
  where
    go :
        (x : Result (String × Attention))
        → record_progress_redirect action (some c) criteria limit a ≡ x
        → ((b : Attention)
            → redirects b c ≤ limit
            → redirects b c + redirect_count (answers c criteria limit actions b).0 ≤ limit)
        → redirects a c + redirect_count (after_answer (answers c criteria limit actions) a x).0
          ≤ limit
    go (err x) e rest = rest a h
    go (ok (answer, b)) e rest =
        let charged = record_progress_redirect-IsCharged action c criteria limit a known named e in
        omega (arith, charged.paid, rest b (charged.within h))
