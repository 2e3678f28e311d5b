-- ===== src/Convergence/Snapshot.antt =====
-- scripts/runtime_contract/convergence.py: `export` and `restore` of the tracker.
use cognitive_frame_works.Prelude.{
  ℕ, zero, suc, String, Option, none, some, [], ◌∷◌, Bool, false, ◌||◌, ◌==◌, if◌then◌else◌,
}
use cognitive_frame_works.Prelude.Result.{Result, ok, err}
use cognitive_frame_works.Prelude.Dict
use cognitive_frame_works.Prelude.Dict.{Dict}
use cognitive_frame_works.Prelude.Sorted.{sorted_items}
use cognitive_frame_works.Convergence.State.{
  RetryState, RetryStateDict, state_to_dict, state_from_dict,
}
use cognitive_frame_works.Convergence.Tracker.{Tracker}

pub record Payload : Type 0 where
  pub schema_version : Option String
  pub max_recovery_epochs_without_progress : Option ℕ
  pub max_same_approach_retries : Option ℕ
  pub states : Dict RetryStateDict

unfoldable pub state_items : Dict RetryState → Dict RetryStateDict
state_items [] = []
state_items ((k, s) ∷ d) = (k, state_to_dict s) ∷ state_items d

-- `export`
unfoldable pub export : Tracker → Payload
export t = record {
  schema_version = some "1.1.0";
  max_recovery_epochs_without_progress = some t.max_recovery_epochs_without_progress;
  max_same_approach_retries = some t.max_same_approach_retries;
  states = state_items (sorted_items t.states);
}

-- `payload.get("schema_version") in {"1.0.0", CONVERGENCE_SCHEMA_VERSION}`
abbrev pub is_known_schema : Option String → Bool
is_known_schema none = false
is_known_schema (some v) = v == "1.0.0" || v == "1.1.0"

-- `int(value or default)`
abbrev pub or_limit : Option ℕ → ℕ → ℕ
or_limit none d = d
or_limit (some zero) d = d
or_limit (some (suc n)) d = suc n

-- An entry that cannot be read is skipped.
abbrev pub keep_read : Dict RetryState → String → Result RetryState → Dict RetryState
keep_read d k (ok s) = Dict.put d k s
keep_read d k (err e) = d

unfoldable pub restore_states : Dict RetryState → Dict RetryStateDict → Dict RetryState
restore_states d [] = d
restore_states d ((k, x) ∷ items) = restore_states (keep_read d k (state_from_dict x)) items

-- `restore`, of a mapping
unfoldable pub restore : Tracker → Payload → Tracker
restore t p =
    if is_known_schema p.schema_version
    then record t {
      max_recovery_epochs_without_progress =
          or_limit p.max_recovery_epochs_without_progress t.max_recovery_epochs_without_progress;
      max_same_approach_retries = or_limit p.max_same_approach_retries t.max_same_approach_retries;
      states = restore_states t.states p.states;
    }
    else t
