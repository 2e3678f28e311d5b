-- ===== src/Convergence/LedgerLaws.antt =====
-- What the shared branch ledger of scripts/runtime_contract/convergence.py promises: a failure is
-- counted once for each attempt that it remembers, in its own scope only, in bounded space.
use cognitive_frame_works.Prelude.{
  ℕ, ◌+◌, ◌≤◌, String, some, [], ◌∷◌, true, ◌≡◌, refl, ap, sym, ◌∙◌, arith, inl, inr, Bool-cases,
  eq_iff, eq_refl, if◌then◌else◌,
}
use cognitive_frame_works.Prelude.Result.{ok, value_error, guard-eq-ok, >>=-eq-ok, ok-pair}
use cognitive_frame_works.Convergence.Ledger.{
  Scope, Row, Table, same_scope, select_row, upsert_row, check_scope, row_or_empty, failed_row,
  record_branch_failure, recovery_count,
}

same_scope_eq : (a b : Scope) → same_scope a b ≡ true → a ≡ b
unfolding same_scope
same_scope_eq a b h = ground (
  arith,
  eq_iff a.namespace_id b.namespace_id,
  eq_iff a.application_instance_id b.application_instance_id,
  eq_iff a.workflow_id b.workflow_id,
  eq_iff a.cause_id b.cause_id,
  eq_iff a.premise_digest b.premise_digest,
)

pub same_scope_refl : (a : Scope) → same_scope a a ≡ true
unfolding same_scope
same_scope_refl a = rw (
  eq_refl a.namespace_id,
  eq_refl a.application_instance_id,
  eq_refl a.workflow_id,
  eq_refl a.cause_id,
  eq_refl a.premise_digest,
)

same_scope_comm : (a b : Scope) → same_scope a b ≡ same_scope b a
same_scope_comm a b = elim (Bool-cases (same_scope a b)) [
  | inl p ↦ cc (same_scope_eq a b p)
  | inr p ↦ elim (Bool-cases (same_scope b a)) [
    | inl q ↦ cc (same_scope_eq b a q)
    | inr q ↦ p ∙ sym q
  ]
]

pub select-upsert :
    (t : Table) (s q : Scope) (r : Row)
    → select_row (upsert_row t s r) q ≡ (if same_scope s q then some r else select_row t q)
unfolding select_row upsert_row
select-upsert [] s q r = refl
select-upsert ((k, x) ∷ t) s q r = elim (Bool-cases (same_scope k s)) [
  | inl same ↦ ground (arith, same_scope_eq k s same, same)
  | inr other ↦ elim (Bool-cases (same_scope k q)) [
    | inl here ↦ ground (arith, same_scope_eq k q here, other, here, same_scope_comm s q)
    | inr away ↦ ground (arith, select-upsert t s q r, other, away)
  ]
]

check_scope_same : (s : Scope) {r : Scope} → check_scope s ≡ ok r → r ≡ s
unfolding check_scope
check_scope_same s h = cc ((guard-eq-ok _ value_error (ok s) h).1)

module _ (attempt_digest : String → String) where
  -- The row that a failure leaves.
  abbrev pub next_row : Table → Scope → String → String → String → Row
  next_row t s action evidence attempt_ref =
      failed_row action evidence (attempt_digest attempt_ref) (row_or_empty (select_row t s))

  pub record_failure_valid :
      (t : Table) (s : Scope) (action evidence attempt_ref : String) {x : ℕ × Table}
      → record_branch_failure attempt_digest t s action evidence attempt_ref ≡ ok x
      → check_scope s ≡ ok s
  unfolding record_branch_failure
  record_failure_valid t s action evidence attempt_ref h =
      let (q, checked, _) = >>=-eq-ok (check_scope s) _ h in
      checked ∙ ap ok (check_scope_same s checked)

  pub record_failure_total :
      (t : Table) (s : Scope) (action evidence attempt_ref : String)
      → check_scope s ≡ ok s
      → record_branch_failure attempt_digest t s action evidence attempt_ref
        ≡ ok (
          (next_row t s action evidence attempt_ref).recovery_count,
          upsert_row t s (next_row t s action evidence attempt_ref),
        )
  unfolding record_branch_failure
  record_failure_total t s action evidence attempt_ref h = rw h

  pub record_failure_parts :
      (t : Table) (s : Scope) (action evidence attempt_ref : String) {n : ℕ} {t' : Table}
      → record_branch_failure attempt_digest t s action evidence attempt_ref ≡ ok (n, t')
      → (n ≡ (next_row t s action evidence attempt_ref).recovery_count)
        × (t' ≡ upsert_row t s (next_row t s action evidence attempt_ref))
  record_failure_parts t s action evidence attempt_ref h = ok-pair (
      sym (
        record_failure_total t s action evidence attempt_ref
          (record_failure_valid t s action evidence attempt_ref h))
      ∙ h)

  -- After a failure the count that is read back in its scope is the one that was returned, at most
  -- one above the old one, and in every other scope the old one.
  pub recovery_count-record_branch_failure :
      (t : Table) (s q : Scope) (action evidence attempt_ref : String) {n : ℕ} {t' : Table}
      → record_branch_failure attempt_digest t s action evidence attempt_ref ≡ ok (n, t')
      → check_scope q ≡ ok q
      → (recovery_count t' q ≡ (if same_scope s q then ok n else recovery_count t q))
        × (same_scope s q ≡ true → (m : ℕ) × (recovery_count t q ≡ ok m) × (m ≤ n) × (n ≤ m + 1))
  unfolding recovery_count
  recovery_count-record_branch_failure t s q action evidence attempt_ref {n} {t'} h valid =
      let (en, et) = record_failure_parts t s action evidence attempt_ref h in
      (
        rw (valid, et, select-upsert t s q (next_row t s action evidence attempt_ref))
            (ground (arith, en)),
        λ same. (
          (row_or_empty (select_row t q)).recovery_count,
          rw valid,
          unfold failed_row in ground (arith, en, same_scope_eq s q same),
          unfold failed_row in ground (arith, en, same_scope_eq s q same),
        ),
      )
