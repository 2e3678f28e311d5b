-- ===== src/Convergence/RoundTrip.antt =====
-- What is exported from the tracker of scripts/runtime_contract/convergence.py is restored from
-- the export.
use cognitive_frame_works.Prelude.{
  ℕ, zero, suc, ◌≤◌, String, Option, none, some, List, [], ◌∷◌, ◌≡◌, ◌≢◌, refl, ap, sym, ◌∙◌, arith,
  map, All, eq_iff,
}
use cognitive_frame_works.Prelude.Result.{ok}
use cognitive_frame_works.Prelude.Dict
use cognitive_frame_works.Prelude.Dict.{Dict}
use cognitive_frame_works.Prelude.Sorted.{
  Distinct, sorted_items, get-sorted_items, sorted_items-Distinct, put_all, get-put_all, or_get,
  items_hold,
}
use cognitive_frame_works.Convergence.Identity.{
  check_identity, or_default, truthy_same, identity_from_dict-to_dict,
}
use cognitive_frame_works.Convergence.State.{
  RejectedPath, path_to_dict, path_from_dict, paths_from_dicts, RetryState, state_to_dict,
  state_from_dict,
}
use cognitive_frame_works.Convergence.Tracker.{Tracker}
use cognitive_frame_works.Convergence.Snapshot.{
  state_items, export, or_limit, restore_states, restore,
}

-- Texts that `from_dict` does not take for absent ones.
pub record IsReadablePath (p : RejectedPath) : Type 0 where
  pub premise : p.premise_digest ≢ some ""
  pub evidence : p.rejecting_evidence_ref ≢ some ""

pub record IsReadable (s : RetryState) : Type 0 where
  pub identity : check_identity s.identity ≡ ok s.identity
  pub interaction : (s.identity).interaction_id ≢ some ""
  pub premise : s.premise_digest ≢ some ""
  pub evidence : s.last_failure_evidence_ref ≢ some ""
  pub progress : s.last_progress_digest ≢ some ""
  pub failure : s.last_failure_digest ≢ some ""
  pub class : s.last_progress_class ≢ some ""
  pub reason : s.terminated_reason ≢ some ""
  pub disposition : s.disposition ≢ ""
  pub paths : All IsReadablePath s.rejected_paths

or_default_same : (s : String) → or_default (some s) "" ≡ s
or_default_same s = ground (arith, eq_iff s "")

or_running_same : (s : String) → s ≢ "" → or_default (some s) "RUNNING" ≡ s
or_running_same s ne = ground (arith, eq_iff s "", ne)

or_get_none : (o : Option RetryState) (k : String) → or_get o (Dict.get [] k) ≡ o
unfolding Dict.get
or_get_none none k = refl
or_get_none (some s) k = refl

path_from_dict-to_dict :
    (p : RejectedPath) → IsReadablePath p → path_from_dict (path_to_dict p) ≡ ok p
unfolding path_from_dict path_to_dict
path_from_dict-to_dict p r = rw (
  truthy_same p.premise_digest r.premise,
  truthy_same p.rejecting_evidence_ref r.evidence,
  or_default_same p.recorded_at,
)

paths_from_dicts-to_dict :
    (ps : List RejectedPath)
    → All IsReadablePath ps
    → paths_from_dicts (map path_to_dict ps) ≡ ok ps
unfolding paths_from_dicts
paths_from_dicts-to_dict [] r = refl
paths_from_dicts-to_dict (p ∷ ps) r =
    rw (path_from_dict-to_dict p r.0, paths_from_dicts-to_dict ps r.1)

-- A state that has no empty text in an optional field, and whose identity passes its check, is
-- read back as it was written.
pub state_from_dict-to_dict :
    (s : RetryState) → IsReadable s → state_from_dict (state_to_dict s) ≡ ok s
unfolding state_from_dict state_to_dict
state_from_dict-to_dict s r = rw (
  identity_from_dict-to_dict s.identity r.identity r.interaction,
  paths_from_dicts-to_dict s.rejected_paths r.paths,
  truthy_same s.premise_digest r.premise,
  truthy_same s.last_failure_evidence_ref r.evidence,
  truthy_same s.last_progress_digest r.progress,
  truthy_same s.last_failure_digest r.failure,
  truthy_same s.last_progress_class r.class,
  truthy_same s.terminated_reason r.reason,
  or_default_same s.action_fingerprint,
  or_default_same s.hypothesis_fingerprint,
  or_running_same s.disposition r.disposition,
)

restore_states-items :
    (d items : Dict RetryState)
    → All (λ e. IsReadable e.1) items
    → restore_states d (state_items items) ≡ put_all d items
unfolding restore_states state_items put_all
restore_states-items d [] h = refl
restore_states-items d ((k, s) ∷ items) h =
    rw (state_from_dict-to_dict s h.0, restore_states)
      (restore_states-items (Dict.put d k s) items h.1)

or_limit_same : (n d : ℕ) → 1 ≤ n → or_limit (some n) d ≡ n
or_limit_same zero d h = absurd (omega arith)
or_limit_same (suc n) d h = refl

-- A tracker with no states that restores another's export has, under every key, the other's state,
-- and its limits, if the other's states are readable and its limits positive, as the constructor
-- demands.
pub restore-export :
    (t r : Tracker)
    → r.states ≡ []
    → Distinct t.states
    → ((k : String) (s : RetryState) → Dict.get t.states k ≡ some s → IsReadable s)
    → 1 ≤ t.max_recovery_epochs_without_progress
    → 1 ≤ t.max_same_approach_retries
    → ((k : String) → Dict.get (restore r (export t)).states k ≡ Dict.get t.states k)
      × ((restore r (export t)).max_recovery_epochs_without_progress
          ≡ t.max_recovery_epochs_without_progress)
      × ((restore r (export t)).max_same_approach_retries ≡ t.max_same_approach_retries)
unfolding restore export
restore-export t r empty u readable hm hn = (
  λ k.
      ap (λ d. Dict.get (restore_states d (state_items (sorted_items t.states))) k) empty
      ∙ ap (λ d. Dict.get d k) (restore_states-items [] (sorted_items t.states) items)
      ∙ get-put_all [] (sorted_items t.states) k distinct
      ∙ or_get_none (Dict.get (sorted_items t.states) k) k
      ∙ get-sorted_items t.states k,
  or_limit_same t.max_recovery_epochs_without_progress r.max_recovery_epochs_without_progress hm,
  or_limit_same t.max_same_approach_retries r.max_same_approach_retries hn,
)
  where
    distinct : Distinct (sorted_items t.states)
    distinct = sorted_items-Distinct t.states u

    items : All (λ e. IsReadable e.1) (sorted_items t.states)
    items =
        items_hold IsReadable (sorted_items t.states) distinct
          (λ k s g. readable k s (sym (get-sorted_items t.states k) ∙ g))
