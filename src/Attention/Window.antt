-- ===== src/Attention/Window.antt =====
-- scripts/runtime_contract/standalone_attention.py: which criteria the window shows.
use cognitive_frame_works.Prelude.{
  ℕ, zero, suc, String, List, [], ◌∷◌, Bool, true, false, not, ◌&&◌, ◌||◌, ◌≡◌, ◌⊎◌, refl, ◌∙◌, inl,
  inr, arith, eq_refl, map, ltb, leb, eqb, one_of, take, length, All, All-take, if◌then◌else◌,
  Bool-cases,
}
use cognitive_frame_works.Attention.Facts.{CriterionState}
use cognitive_frame_works.Attention.Policy.{
  Counters, SortKey, is_runnable, runnable, sort_key, key_ltb, insert_criterion, ordered, select,
  window_size,
}

-- `a` stands no later than `b`: it need not yield while `b` must, or was acted on longer ago, or
-- at the same time and has been retried no more often.
unfoldable pub is_before : SortKey → SortKey → Bool
is_before a b =
    (not a.must_yield && b.must_yield)
    || ((a.must_yield && b.must_yield) || (not a.must_yield && not b.must_yield))
      && (ltb a.last_action b.last_action
          || eqb a.last_action b.last_action && leb a.retries b.retries)

is_before_trans :
    (a b c : SortKey) → is_before a b ≡ true → is_before b c ≡ true → is_before a c ≡ true
unfolding is_before
is_before_trans a b c h g = ground (arith, h, g)

key_ltb-before : (a b : SortKey) → key_ltb a b ≡ true → is_before a b ≡ true
unfolding key_ltb is_before
key_ltb-before a b h = ground (arith, h)

not_key_ltb-before : (a b : SortKey) → key_ltb a b ≡ false → is_before b a ≡ true
unfolding key_ltb is_before
not_key_ltb-before a b h = ground (arith, h)

-- The criteria of the window.
unfoldable pub window : Counters → List CriterionState → List CriterionState
window k criteria = take window_size (ordered k (runnable criteria))

module _ (k : Counters) where
  abbrev pub Precedes : CriterionState → CriterionState → Type 0
  Precedes a b = is_before (sort_key k a) (sort_key k b) ≡ true

  abbrev pub IsSorted : List CriterionState → Type 0
  IsSorted [] = Unit
  IsSorted (x ∷ xs) = All (λ y. Precedes x y) xs × IsSorted xs

  All-insert :
      (P : CriterionState → Type 0) (c : CriterionState) (xs : List CriterionState)
      → P c
      → All P xs
      → All P (insert_criterion k c xs)
  unfolding insert_criterion
  All-insert P c [] p h = (p, tt)
  All-insert P c (x ∷ xs) p h = elim (Bool-cases (key_ltb (sort_key k x) (sort_key k c))) [
    | inl after ↦ rw after (h.0, All-insert P c xs p h.1)
    | inr here ↦ rw here (p, h)
  ]

  insert-All :
      (P : CriterionState → Type 0) (c : CriterionState) (xs : List CriterionState)
      → All P (insert_criterion k c xs)
      → P c × All P xs
  unfolding insert_criterion
  insert-All P c [] h = h
  insert-All P c (x ∷ xs) h = go (key_ltb (sort_key k x) (sort_key k c)) (insert-All P c xs) h
    where
      go :
          (b : Bool)
          → (All P (insert_criterion k c xs) → P c × All P xs)
          → All P (if b then x ∷ insert_criterion k c xs else c ∷ x ∷ xs)
          → P c × All P (x ∷ xs)
      go true rest g = let (p, q) = rest g.1 in (p, (g.0, q))
      go false rest g = g

  -- What holds of all criteria holds in their order, and the other way round.
  pub All-ordered :
      (P : CriterionState → Type 0) (cs : List CriterionState) → All P cs → All P (ordered k cs)
  unfolding ordered
  All-ordered P [] h = tt
  All-ordered P (c ∷ cs) h = All-insert P c (ordered k cs) h.0 (All-ordered P cs h.1)

  pub ordered-All :
      (P : CriterionState → Type 0) (cs : List CriterionState) → All P (ordered k cs) → All P cs
  unfolding ordered
  ordered-All P [] h = tt
  ordered-All P (c ∷ cs) h = let (p, q) = insert-All P c (ordered k cs) h in (p, ordered-All P cs q)

  All-weaken :
      (x y : CriterionState) (xs : List CriterionState)
      → Precedes x y
      → All (λ z. Precedes y z) xs
      → All (λ z. Precedes x z) xs
  All-weaken x y [] h g = tt
  All-weaken x y (z ∷ xs) h g =
      (is_before_trans (sort_key k x) (sort_key k y) (sort_key k z) h g.0, All-weaken x y xs h g.1)

  insert-IsSorted :
      (c : CriterionState) (xs : List CriterionState)
      → IsSorted xs
      → IsSorted (insert_criterion k c xs)
  unfolding insert_criterion
  insert-IsSorted c [] h = (tt, tt)
  insert-IsSorted c (x ∷ xs) h = elim (Bool-cases (key_ltb (sort_key k x) (sort_key k c))) [
    | inl after ↦ rw after (
      All-insert (λ y. Precedes x y) c xs (key_ltb-before (sort_key k x) (sort_key k c) after) h.0,
      insert-IsSorted c xs h.1,
    )
    | inr here ↦
        let first = not_key_ltb-before (sort_key k x) (sort_key k c) here in
        rw here ((first, All-weaken c x xs first h.0), h)
  ]

  ordered-IsSorted : (cs : List CriterionState) → IsSorted (ordered k cs)
  unfolding ordered
  ordered-IsSorted [] = tt
  ordered-IsSorted (c ∷ cs) = insert-IsSorted c (ordered k cs) (ordered-IsSorted cs)

  length-insert :
      (c : CriterionState) (xs : List CriterionState)
      → length (insert_criterion k c xs) ≡ suc (length xs)
  unfolding insert_criterion
  length-insert c [] = refl
  length-insert c (x ∷ xs) = ground (arith, length-insert c xs)

  length-ordered : (cs : List CriterionState) → length (ordered k cs) ≡ length cs
  unfolding ordered
  length-ordered [] = refl
  length-ordered (c ∷ cs) = omega (arith, length-insert c (ordered k cs), length-ordered cs)

  abbrev IsServed : List CriterionState → CriterionState → Type 0
  IsServed shown c =
      (one_of c.criterion_id (map (λ x. x.criterion_id) shown) ≡ true)
      ⊎ All (λ w. Precedes w c) shown

  unserved : (xs : List CriterionState) → All (IsServed []) xs
  unserved [] = tt
  unserved (x ∷ xs) = (inr tt, unserved xs)

  All-IsServed :
      (x : CriterionState) (shown xs : List CriterionState)
      → All (λ y. Precedes x y) xs
      → All (IsServed shown) xs
      → All (IsServed (x ∷ shown)) xs
  All-IsServed x shown [] h g = tt
  All-IsServed x shown (y ∷ xs) h g = (served g.0, All-IsServed x shown xs h.1 g.1)
    where
      served : IsServed shown y → IsServed (x ∷ shown) y
      served (inl named) = inl (ground (arith, named))
      served (inr all) = inr (h.0, all)

  take-IsServed : (n : ℕ) (xs : List CriterionState) → IsSorted xs → All (IsServed (take n xs)) xs
  take-IsServed zero xs h = unserved xs
  take-IsServed (suc n) [] h = tt
  take-IsServed (suc n) (x ∷ xs) h = (
    inl (rw (eq_refl x.criterion_id)),
    All-IsServed x (take n xs) xs h.0 (take-IsServed n xs h.1),
  )

-- Every criterion that is neither satisfied nor blocked is named in the window, or every
-- criterion of the window stands before it: those that must yield come last, and among the others
-- those that were acted on longest ago come first, then those that were retried least.
pub select-IsFair :
    (k : Counters) (criteria : List CriterionState)
    → All
        (λ c.
          (one_of c.criterion_id (select k criteria) ≡ true)
          ⊎ All (λ w. is_before (sort_key k w) (sort_key k c) ≡ true) (window k criteria))
        (runnable criteria)
unfolding select window
select-IsFair k criteria =
    let cs = runnable criteria in
    ordered-All k _ cs (take-IsServed k window_size (ordered k cs) (ordered-IsSorted k cs))

length-take :
    (n : ℕ) (xs : List CriterionState)
    → length (take n xs) ≡ (if leb n (length xs) then n else length xs)
length-take zero xs = ground arith
length-take (suc n) [] = ground arith
length-take (suc n) (x ∷ xs) = ground (arith, length-take n xs)

length-map :
    (f : CriterionState → String) (xs : List CriterionState) → length (map f xs) ≡ length xs
length-map f [] = refl
length-map f (x ∷ xs) = omega (arith, length-map f xs)

runnable-status :
    (criteria : List CriterionState)
    → All (λ c. one_of c.status ("satisfied" ∷ "blocked" ∷ []) ≡ false) (runnable criteria)
unfolding runnable
runnable-status [] = tt
runnable-status (c ∷ cs) = elim (Bool-cases (is_runnable c)) [
  | inl kept ↦ rw kept (unfold is_runnable in ground (arith, kept), runnable-status cs)
  | inr left ↦ rw left (runnable-status cs)
]

-- The window names criteria that are neither satisfied nor blocked: three of them, or all if there
-- are fewer.
pub select-AreRunnable :
    (k : Counters) (criteria : List CriterionState)
    → (select k criteria ≡ map (λ c. c.criterion_id) (window k criteria))
      × All (λ c. one_of c.status ("satisfied" ∷ "blocked" ∷ []) ≡ false) (window k criteria)
      × (length (select k criteria)
          ≡ (if leb 3 (length (runnable criteria)) then 3 else length (runnable criteria)))
unfolding select window window_size runnable is_runnable
select-AreRunnable k criteria =
    let cs = runnable criteria in
    (
      refl,
      All-take _ 3 (ordered k cs) (All-ordered k _ cs (runnable-status criteria)),
      length-map (λ c. c.criterion_id) (take 3 (ordered k cs))
          ∙ length-take 3 (ordered k cs)
          ∙ rw (length-ordered k cs),
    )
