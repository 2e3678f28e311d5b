-- ===== src/Convergence/LedgerMemory.antt =====
-- What the shared branch ledger of scripts/runtime_contract/convergence.py remembers of past
-- attempts, and in how much space.
use cognitive_frame_works.Prelude.{
  ℕ, suc, ◌+◌, ◌-◌, ◌≤◌, ◌<◌, String, some, List, [], ◌∷◌, Bool, true, false, not, ◌||◌, ◌≡◌, refl,
  ap, ◌∙◌, arith, inl, inr, length, length-keep_last, keep_last, keep_last_short, one_of,
  Bool-cases, All, ◌==◌, eq_iff, eq_refl, if◌then◌else◌, drop,
}
use cognitive_frame_works.Prelude.Result.{ok}
use cognitive_frame_works.Convergence.Ledger.{
  Scope, Row, Table, same_scope, select_row, upsert_row, insert_text, sorted_set, row_or_empty,
  one_if, failed_row, record_branch_failure,
}
use cognitive_frame_works.Convergence.LedgerLaws.{
  same_scope_refl, select-upsert, next_row, record_failure_valid, record_failure_total,
  record_failure_parts,
}

one_of-insert_text :
    (x y : String) (ys : List String) → one_of x (insert_text y ys) ≡ (x == y || one_of x ys)
unfolding insert_text
one_of-insert_text x y [] = refl
one_of-insert_text x y (z ∷ ys) =
    ground (arith, eq_iff x y, eq_iff x z, eq_iff y z, one_of-insert_text x y ys)

one_of-sorted_set : (x : String) (xs : List String) → one_of x (sorted_set xs) ≡ one_of x xs
unfolding sorted_set
one_of-sorted_set x [] = refl
one_of-sorted_set x (y ∷ xs) = rw (one_of-insert_text x y (sorted_set xs), one_of-sorted_set x xs)

length-insert_text : (x : String) (xs : List String) → length (insert_text x xs) ≤ length xs + 1
unfolding insert_text
length-insert_text x [] = omega arith
length-insert_text x (y ∷ ys) = ground (arith, length-insert_text x ys)

length-sorted_set : (xs : List String) → length (sorted_set xs) ≤ length xs
unfolding sorted_set
length-sorted_set [] = omega arith
length-sorted_set (x ∷ xs) =
    omega (arith, length-insert_text x (sorted_set xs), length-sorted_set xs)

-- An attempt is remembered if there is room for it.
remembered :
    (d : String) (old : List String)
    → length old < 64
    → one_of d (keep_last 64 (sorted_set (d ∷ old))) ≡ true
remembered d old room =
    let short : length (sorted_set (d ∷ old)) ≤ 64 = omega (arith, length-sorted_set (d ∷ old)) in
    rw (keep_last_short 64 (sorted_set (d ∷ old)) short, one_of-sorted_set d (d ∷ old), eq_refl d)

-- The first of 65 attempts is forgotten.
forgotten : (d : String) (old : List String) → length old ≡ 64 → keep_last 64 (d ∷ old) ≡ old
unfolding keep_last
forgotten d old full = ap (λ k. drop k (d ∷ old)) (one_over (length old) full)
  where
    one_over : (n : ℕ) → n ≡ 64 → suc n - 64 ≡ 1
    one_over n h = omega arith

one_if-not : (n : ℕ) (b : Bool) → n + one_if (not b) ≡ (if b then n else n + 1)
one_if-not n b = ground arith

-- The lists of a row stay within the bounds that the code cuts them to.
pub record IsBoundedRow (r : Row) : Type 0 where
  pub actions : length r.action_plan_fingerprints ≤ 32
  pub evidence : length r.rejecting_evidence_refs ≤ 32
  pub attempts : length r.attempt_ref_digests ≤ 64

failed_row-IsBoundedRow :
    (action evidence attempt : String) (r : Row)
    → IsBoundedRow (failed_row action evidence attempt r)
unfolding failed_row
failed_row-IsBoundedRow action evidence attempt r = record {
  actions = length-keep_last 32 (sorted_set (action ∷ r.action_plan_fingerprints));
  evidence = length-keep_last 32 (sorted_set (evidence ∷ r.rejecting_evidence_refs));
  attempts = length-keep_last 64 (sorted_set (attempt ∷ r.attempt_ref_digests));
}

upsert-IsBoundedRow :
    (t : Table) (s : Scope) (r : Row)
    → All (λ e. IsBoundedRow e.1) t
    → IsBoundedRow r
    → All (λ e. IsBoundedRow e.1) (upsert_row t s r)
unfolding upsert_row
upsert-IsBoundedRow [] s r h b = (b, tt)
upsert-IsBoundedRow ((k, q) ∷ t) s r h b = elim (Bool-cases (same_scope k s)) [
  | inl same ↦ rw same (b, h.1)
  | inr other ↦ rw other (h.0, upsert-IsBoundedRow t s r h.1 b)
]

module _ (attempt_digest : String → String) where
  -- A failure keeps every row of the table within its bounds.
  pub record_branch_failure-IsBoundedRow :
      (t : Table) (s : Scope) (action evidence attempt_ref : String) {n : ℕ} {t' : Table}
      → All (λ e. IsBoundedRow e.1) t
      → record_branch_failure attempt_digest t s action evidence attempt_ref ≡ ok (n, t')
      → All (λ e. IsBoundedRow e.1) t'
  record_branch_failure-IsBoundedRow t s action evidence attempt_ref b h =
      rw ((record_failure_parts attempt_digest t s action evidence attempt_ref h).1) (
        upsert-IsBoundedRow t s (next_row attempt_digest t s action evidence attempt_ref) b (
          failed_row-IsBoundedRow action evidence (attempt_digest attempt_ref)
            (row_or_empty (select_row t s))))

  -- The row of the scope after a failure is the one that the failure left.
  select-next_row :
      (t : Table) (s : Scope) (action evidence attempt_ref : String) {n : ℕ} {t' : Table}
      → record_branch_failure attempt_digest t s action evidence attempt_ref ≡ ok (n, t')
      → select_row t' s ≡ some (next_row attempt_digest t s action evidence attempt_ref)
  select-next_row t s action evidence attempt_ref h = rw (
    (record_failure_parts attempt_digest t s action evidence attempt_ref h).1,
    select-upsert t s s (next_row attempt_digest t s action evidence attempt_ref),
    same_scope_refl s,
  )

  -- A second failure of the attempt adds to the count what its membership among the remembered
  -- attempts says.
  record_failure_again :
      (t : Table) (s : Scope) (action evidence attempt_ref : String) {n : ℕ} {t' : Table}
      → record_branch_failure attempt_digest t s action evidence attempt_ref ≡ ok (n, t')
      → (action' evidence' : String)
      → (u : Table) × (record_branch_failure attempt_digest t' s action' evidence' attempt_ref
          ≡ ok (
            n
                + one_if (
                    not (
                      one_of (attempt_digest attempt_ref) (
                        keep_last 64 (
                          sorted_set (
                            attempt_digest attempt_ref
                            ∷ (row_or_empty (select_row t s)).attempt_ref_digests))))),
            u,
          ))
  unfolding failed_row
  record_failure_again t s action evidence attempt_ref {n} {t'} h action' evidence' =
      let valid = record_failure_valid attempt_digest t s action evidence attempt_ref h in
      let (en, _) = record_failure_parts attempt_digest t s action evidence attempt_ref h in
      let at = select-next_row t s action evidence attempt_ref h in
      (
        upsert_row t' s (next_row attempt_digest t' s action' evidence' attempt_ref),
        record_failure_total attempt_digest t' s action' evidence' attempt_ref valid ∙ rw (at, en),
      )

  -- While fewer than 64 attempts are remembered in a scope, a second failure of the same attempt is
  -- not counted again.
  pub repeated_attempt_counts_once :
      (t : Table) (s : Scope) (action evidence attempt_ref : String) {n : ℕ} {t' : Table}
      → length (row_or_empty (select_row t s)).attempt_ref_digests < 64
      → record_branch_failure attempt_digest t s action evidence attempt_ref ≡ ok (n, t')
      → (action' evidence' : String)
      → (u : Table) × (record_branch_failure attempt_digest t' s action' evidence' attempt_ref
          ≡ ok (n, u))
  repeated_attempt_counts_once t s action evidence attempt_ref {n} room h action' evidence' =
      let (u, e) = record_failure_again t s action evidence attempt_ref h action' evidence' in
      (
        u,
        e
            ∙ ap (λ (m : ℕ). ok (m, u))
                (one_if-not n _ ∙ rw (remembered (attempt_digest attempt_ref) _ room)),
      )

  -- Once 64 attempts are remembered in a scope, and a new attempt's digest comes before all of them
  -- in the order of texts, the new attempt is forgotten at once, and each of its failures is counted
  -- as that of a new attempt.
  pub forgotten_attempt_counts_again :
      (t : Table) (s : Scope) (action evidence attempt_ref : String) {n : ℕ} {t' : Table}
      → length (row_or_empty (select_row t s)).attempt_ref_digests ≡ 64
      → sorted_set
          (attempt_digest attempt_ref ∷ (row_or_empty (select_row t s)).attempt_ref_digests)
        ≡ attempt_digest attempt_ref ∷ (row_or_empty (select_row t s)).attempt_ref_digests
      → one_of (attempt_digest attempt_ref) (row_or_empty (select_row t s)).attempt_ref_digests
        ≡ false
      → record_branch_failure attempt_digest t s action evidence attempt_ref ≡ ok (n, t')
      → (action' evidence' : String)
      → (u : Table) × (record_branch_failure attempt_digest t' s action' evidence' attempt_ref
          ≡ ok (n + 1, u))
  forgotten_attempt_counts_again t s action evidence attempt_ref {n} full first new h action'
        evidence' =
      let (u, e) = record_failure_again t s action evidence attempt_ref h action' evidence' in
      (
        u,
        e
            ∙ ap (λ (m : ℕ). ok (m, u))
                (one_if-not n _ ∙ rw (first, forgotten (attempt_digest attempt_ref) _ full, new)),
      )
