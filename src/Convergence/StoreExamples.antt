-- ===== src/Convergence/StoreExamples.antt =====
-- The theorems about the snapshot and the branch ledger of
-- scripts/runtime_contract/convergence.py at concrete inputs.
use cognitive_frame_works.Prelude.{
  ℕ, String, none, some, List, [], ◌∷◌, ◌≡◌, refl, arith, eq_iff, is_bounded, All, keep_last,
  some_inj, update_cases, subst, sym, inl, inr, ◌==◌,
}
use cognitive_frame_works.Prelude.Result.{ok}
use cognitive_frame_works.Prelude.Dict
use cognitive_frame_works.Convergence.Identity.{session_scope, check_identity}
use cognitive_frame_works.Convergence.State.{RetryState, new_state}
use cognitive_frame_works.Convergence.Tracker.{Tracker}
use cognitive_frame_works.Convergence.Snapshot.{export, restore}
use cognitive_frame_works.Convergence.RoundTrip.{IsReadable, restore-export}
use cognitive_frame_works.Convergence.Ledger.{
  Scope, Table, check_scope, same_scope, select_row, upsert_row, sorted_set, failed_row,
  record_branch_failure, recovery_count,
}
use cognitive_frame_works.Convergence.LedgerLaws.{recovery_count-record_branch_failure}
use cognitive_frame_works.Convergence.LedgerMemory.{
  IsBoundedRow, record_branch_failure-IsBoundedRow, repeated_attempt_counts_once,
  forgotten_attempt_counts_again,
}
use cognitive_frame_works.Convergence.Examples.{session, fresh_tracker}

abbrev build_state : RetryState
build_state = record (new_state (session_scope session "build")) {
  action_fingerprint = "edit";
  recovery_epochs = 1;
  terminated_reason = some "stopped";
  disposition = "FAILED";
}

abbrev exported_tracker : Tracker
exported_tracker = record fresh_tracker { states = ("build-key", build_state) ∷ [] }

build_state-IsReadable : IsReadable build_state
unfolding new_state check_identity is_bounded
build_state-IsReadable = record {
  identity = refl;
  interaction = λ p. cc;
  premise = λ p. cc;
  evidence = λ p. cc;
  progress = λ p. cc;
  failure = λ p. cc;
  class = λ p. cc;
  reason = λ p. cc ((eq_iff "stopped" "").1 (some_inj p));
  disposition = λ p. cc;
  paths = tt;
}

stored_states_are-IsReadable :
    (k : String) (s : RetryState) → Dict.get exported_tracker.states k ≡ some s → IsReadable s
unfolding Dict.get
stored_states_are-IsReadable k s g =
    elim (update_cases ("build-key" == k) build_state none (some s) s (sym g) refl) [
      | inl (_, same) ↦ subst IsReadable same build_state-IsReadable
      | inr (_, other) ↦ cc
    ]

restore-export_example :
    Dict.get (restore fresh_tracker (export exported_tracker)).states "build-key"
    ≡ Dict.get exported_tracker.states "build-key"
unfolding Dict.get
restore-export_example =
    (restore-export exported_tracker fresh_tracker refl (refl, tt) stored_states_are-IsReadable
        (omega arith) (omega arith)).0
      "build-key"

abbrev branch : Scope
branch = record {
  namespace_id = "team";
  application_instance_id = "app";
  workflow_id = "w";
  cause_id = "build";
  premise_digest = "p";
}

abbrev one_row : Table
one_row =
    (
      branch,
      record {
        action_plan_fingerprints = "a" ∷ [];
        rejecting_evidence_refs = "e" ∷ [];
        recovery_count = 1;
        attempt_ref_digests = "x" ∷ [];
      },
    )
    ∷ []

abbrev same_text : String → String
same_text s = s

branch_valid : check_scope branch ≡ ok branch
unfolding check_scope is_bounded
branch_valid = refl

abbrev two_attempts : Table
two_attempts =
    (
      branch,
      record {
        action_plan_fingerprints = "a" ∷ "b" ∷ [];
        rejecting_evidence_refs = "e" ∷ [];
        recovery_count = 2;
        attempt_ref_digests = "x" ∷ "y" ∷ [];
      },
    )
    ∷ []

one_failure : record_branch_failure same_text one_row branch "b" "e" "y" ≡ ok (2, two_attempts)
unfolding record_branch_failure check_scope is_bounded select_row upsert_row same_scope failed_row
    sorted_set keep_last
one_failure = refl

recovery_count-record_branch_failure_example : recovery_count two_attempts branch ≡ ok 2
unfolding same_scope
recovery_count-record_branch_failure_example =
    (recovery_count-record_branch_failure same_text one_row branch branch "b" "e" "y" one_failure
      branch_valid).0

repeated_attempt_counts_once_example :
    (u : Table) × (record_branch_failure same_text two_attempts branch "c" "f" "y" ≡ ok (2, u))
unfolding select_row same_scope
repeated_attempt_counts_once_example =
    repeated_attempt_counts_once same_text one_row branch "b" "e" "y" (omega arith) one_failure "c"
      "f"

record_branch_failure-IsBoundedRow_example : All (λ e. IsBoundedRow e.1) two_attempts
record_branch_failure-IsBoundedRow_example =
    record_branch_failure-IsBoundedRow same_text one_row branch "b" "e" "y"
      (record { actions = omega arith; evidence = omega arith; attempts = omega arith }, tt)
      one_failure

abbrev many_attempts : List String
many_attempts =
    "b00" ∷ "b01" ∷ "b02" ∷ "b03" ∷ "b04" ∷ "b05" ∷ "b06" ∷ "b07" ∷ "b08" ∷ "b09" ∷ "b10" ∷ "b11"
    ∷ "b12" ∷ "b13" ∷ "b14" ∷ "b15" ∷ "b16" ∷ "b17" ∷ "b18" ∷ "b19" ∷ "b20" ∷ "b21" ∷ "b22" ∷ "b23"
    ∷ "b24" ∷ "b25" ∷ "b26" ∷ "b27" ∷ "b28" ∷ "b29" ∷ "b30" ∷ "b31" ∷ "b32" ∷ "b33" ∷ "b34" ∷ "b35"
    ∷ "b36" ∷ "b37" ∷ "b38" ∷ "b39" ∷ "b40" ∷ "b41" ∷ "b42" ∷ "b43" ∷ "b44" ∷ "b45" ∷ "b46" ∷ "b47"
    ∷ "b48" ∷ "b49" ∷ "b50" ∷ "b51" ∷ "b52" ∷ "b53" ∷ "b54" ∷ "b55" ∷ "b56" ∷ "b57" ∷ "b58" ∷ "b59"
    ∷ "b60" ∷ "b61" ∷ "b62" ∷ "b63" ∷ []

abbrev full_table : ℕ → Table
full_table n =
    (
      branch,
      record {
        action_plan_fingerprints = "a" ∷ [];
        rejecting_evidence_refs = "e" ∷ [];
        recovery_count = n;
        attempt_ref_digests = many_attempts;
      },
    )
    ∷ []

full_failure :
    record_branch_failure same_text (full_table 64) branch "a" "e" "a00" ≡ ok (65, full_table 65)
unfolding record_branch_failure check_scope is_bounded select_row upsert_row same_scope failed_row
    sorted_set keep_last
full_failure = refl

forgotten_attempt_counts_again_example :
    (u : Table) × (record_branch_failure same_text (full_table 65) branch "a" "e" "a00"
      ≡ ok (66, u))
unfolding select_row same_scope sorted_set
forgotten_attempt_counts_again_example =
    forgotten_attempt_counts_again same_text (full_table 64) branch "a" "e" "a00" (omega arith) refl
      refl full_failure "a" "e"
