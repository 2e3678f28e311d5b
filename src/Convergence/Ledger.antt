-- ===== src/Convergence/Ledger.antt =====
-- scripts/runtime_contract/convergence.py: `SharedBranchLedger`, the durable table of disproved
-- investigation branches. The SQLite table is a list of rows, one for each primary key; a column
-- of JSON is the list of texts that it encodes. The SHA-256 of an attempt reference is the
-- parameter `attempt_digest`.
use cognitive_frame_works.Prelude.{
  ℕ, ◌+◌, String, Option, none, some, List, [], ◌∷◌, Bool, true, false, not, ◌&&◌, all, is_bounded,
  one_of, keep_last, str_ltb, ◌==◌, if◌then◌else◌,
}
use cognitive_frame_works.Prelude.Result.{Result, ok, value_error, guard, ◌>>=◌, ◌>>◌}

pub record Scope : Type 0 where
  pub namespace_id : String
  pub application_instance_id : String
  pub workflow_id : String
  pub cause_id : String
  pub premise_digest : String

pub record Row : Type 0 where
  pub action_plan_fingerprints : List String
  pub rejecting_evidence_refs : List String
  pub recovery_count : ℕ
  pub attempt_ref_digests : List String

abbrev pub Table : Type 0
Table = List (Scope × Row)

-- The test of the primary key.
unfoldable pub same_scope : Scope → Scope → Bool
same_scope a b =
    a.namespace_id == b.namespace_id
    && a.application_instance_id == b.application_instance_id
    && a.workflow_id == b.workflow_id
    && a.cause_id == b.cause_id
    && a.premise_digest == b.premise_digest

-- `SELECT … WHERE` the primary key.
unfoldable pub select_row : Table → Scope → Option Row
select_row [] s = none
select_row ((k, r) ∷ t) s = if same_scope k s then some r else select_row t s

-- `INSERT … ON CONFLICT DO UPDATE`.
unfoldable pub upsert_row : Table → Scope → Row → Table
upsert_row [] s r = (s, r) ∷ []
upsert_row ((k, q) ∷ t) s r = if same_scope k s then (k, r) ∷ t else (k, q) ∷ upsert_row t s r

-- `_scope`
unfoldable pub check_scope : Scope → Result Scope
check_scope s = do
  guard
      (all (is_bounded 256) (
        s.namespace_id ∷ s.application_instance_id ∷ s.workflow_id ∷ s.cause_id ∷ s.premise_digest
        ∷ []))
      value_error
  ok s

-- One text more in a sorted list without repetitions.
unfoldable pub insert_text : String → List String → List String
insert_text x [] = x ∷ []
insert_text x (y ∷ ys) =
    if x == y then y ∷ ys else if str_ltb x y then x ∷ y ∷ ys else y ∷ insert_text x ys

-- `sorted(set(xs))`
unfoldable pub sorted_set : List String → List String
unfolding insert_text
sorted_set [] = []
sorted_set (x ∷ xs) = insert_text x (sorted_set xs)

abbrev pub row_or_empty : Option Row → Row
row_or_empty none = record {
  action_plan_fingerprints = [];
  rejecting_evidence_refs = [];
  recovery_count = 0;
  attempt_ref_digests = [];
}
row_or_empty (some r) = r

-- `int(is_new_attempt)`
abbrev pub one_if : Bool → ℕ
one_if true = 1
one_if false = 0

-- The row after a failure.
unfoldable pub failed_row : String → String → String → Row → Row
failed_row action evidence attempt r = record {
  action_plan_fingerprints = keep_last 32 (sorted_set (action ∷ r.action_plan_fingerprints));
  rejecting_evidence_refs = keep_last 32 (sorted_set (evidence ∷ r.rejecting_evidence_refs));
  recovery_count = r.recovery_count + one_if (not (one_of attempt r.attempt_ref_digests));
  attempt_ref_digests = keep_last 64 (sorted_set (attempt ∷ r.attempt_ref_digests));
}

module _ (attempt_digest : String → String) where
  -- `record_branch_failure`
  unfoldable pub record_branch_failure :
      Table → Scope → String → String → String → Result (ℕ × Table)
  record_branch_failure t s action evidence attempt_ref = do
    scope ← check_scope s
    let row =
        failed_row action evidence (attempt_digest attempt_ref) (row_or_empty (select_row t scope))
    ok (row.recovery_count, upsert_row t scope row)

-- `recovery_count`
unfoldable pub recovery_count : Table → Scope → Result ℕ
recovery_count t s = do scope ← check_scope s; ok (row_or_empty (select_row t scope)).recovery_count
