-- ===== src/Convergence/Reachability.antt =====
-- Which trackers of scripts/runtime_contract/convergence.py a host can come to, with calls and with
-- the restoring of exports, and that each keeps its accounts.
use cognitive_frame_works.Prelude.{
  ℕ, suc, ◌≤◌, String, Option, some, List, [], ◌∷◌, ◌≡◌, refl, sym, ap, subst, ◌∙◌, arith, inl, inr,
  All, length, map, update_cases, ◌==◌,
}
use cognitive_frame_works.Prelude.Result.{Result, ok, err, ok_inj, ◌>>=◌, >>=-eq-ok}
use cognitive_frame_works.Prelude.Dict
use cognitive_frame_works.Prelude.Dict.{Dict}
use cognitive_frame_works.Prelude.Sorted.{
  Distinct, sorted_items, get-sorted_items, sorted_items-Distinct, items_hold,
}
use cognitive_frame_works.Convergence.Identity.{SessionIdentity, identity_to_dict}
use cognitive_frame_works.Convergence.State.{
  RejectedPath, RejectedPathDict, path_to_dict, path_from_dict, paths_from_dicts, identity_entry,
  RetryState, state_to_dict, state_from_dict,
}
use cognitive_frame_works.Convergence.Tracker.{Tracker, new_tracker}
use cognitive_frame_works.Convergence.Calls.{Request, request, after, run}
use cognitive_frame_works.Convergence.Histories.{
  IsAccounted, new_state-IsAccounted, call_effect-IsAccounted, Stored, run-Stored, no_states,
  new_tracker-states,
}
use cognitive_frame_works.Convergence.Keys.{request-Distinct, restore_states-Distinct}
use cognitive_frame_works.Convergence.Snapshot.{
  state_items, keep_read, export, restore_states, restore,
}

-- A new tracker, one after a call that returns or raises, or one that has restored, over whatever it
-- held, the export of another.
pub data Reachable (failure_digest : String → String → Option String → Option String → String)
    : Tracker → Type 0 where
  created :
      (base : SessionIdentity) (m n : ℕ) {t : Tracker}
      → new_tracker base m n ≡ ok t
      → Reachable failure_digest t
  called :
      {t : Tracker} (r : Request)
      → Reachable failure_digest t
      → Reachable failure_digest (after t (request failure_digest t r))
  restored :
      {t u : Tracker}
      → Reachable failure_digest t
      → Reachable failure_digest u
      → Reachable failure_digest (restore t (export u))

one_longer :
    (x : Result RejectedPath) (xs : Result (List RejectedPath)) (n : ℕ) {qs : List RejectedPath}
    → ((ps : List RejectedPath) → xs ≡ ok ps → length ps ≡ n)
    → (x >>= λ p. xs >>= λ ps. ok (p ∷ ps)) ≡ ok qs
    → length qs ≡ suc n
one_longer (ok p) (ok ps) n h e = ap length (sym (ok_inj e)) ∙ ap suc (h ps refl)
one_longer (ok p) (err x) n h e = cc
one_longer (err x) xs n h e = cc

length-paths_from_dicts :
    (ds : List RejectedPathDict) {ps : List RejectedPath}
    → paths_from_dicts ds ≡ ok ps
    → length ps ≡ length ds
unfolding paths_from_dicts path_from_dict
length-paths_from_dicts [] h = ap length (sym (ok_inj h))
length-paths_from_dicts (d ∷ ds) h =
    one_longer (path_from_dict d) (paths_from_dicts ds) (length ds)
      (λ ps read. length-paths_from_dicts ds read) h

length-map : (ps : List RejectedPath) → length (map path_to_dict ps) ≡ length ps
length-map [] = refl
length-map (p ∷ ps) = omega (arith, length-map ps)

read_few :
    (ps : List RejectedPath) {qs : List RejectedPath}
    → length ps ≤ 32
    → paths_from_dicts (map path_to_dict ps) ≡ ok qs
    → length qs ≤ 32
read_few ps h read =
    omega (arith, h, length-paths_from_dicts (map path_to_dict ps) read, length-map ps)

-- A state that is read back from what was written keeps its accounts, even where a text is lost.
read-IsAccounted :
    (s : RetryState) {s' : RetryState}
    → IsAccounted s
    → state_from_dict (state_to_dict s) ≡ ok s'
    → IsAccounted s'
unfolding state_from_dict state_to_dict
read-IsAccounted s v h =
    let (i, _, rest) = >>=-eq-ok (identity_entry (some (identity_to_dict s.identity))) _ h in
    let (ps, read, same) =
      >>=-eq-ok (paths_from_dicts (map path_to_dict s.rejected_paths)) _ rest in
    subst IsAccounted (ok_inj same) (record {
      goal_past = v.goal_past;
      support_past = v.support_past;
      workflow_past = v.workflow_past;
      evidence_past = v.evidence_past;
      steps_past = v.steps_past;
      actions_past = v.actions_past;
      recoveries_agree = v.recoveries_agree;
      stalls_within = v.stalls_within;
      memory_bounded = read_few s.rejected_paths v.memory_bounded read;
    })

-- Every state under a key of the dictionary is accounted.
abbrev AllAccounted : Dict RetryState → Type 0
AllAccounted d = (k : String) (s : RetryState) → Dict.get d k ≡ some s → IsAccounted s

keep_read-AllAccounted :
    (d : Dict RetryState) (k : String) (x : Result RetryState)
    → ((s : RetryState) → x ≡ ok s → IsAccounted s)
    → AllAccounted d
    → AllAccounted (keep_read d k x)
keep_read-AllAccounted d k (err e) v h j s' g = h j s' g
keep_read-AllAccounted d k (ok s) v h j s' g =
    elim (update_cases (k == j) s (Dict.get d j) _ s' (Dict.get-put d k j s) g) [
      | inl (_, same) ↦ subst IsAccounted same (v s refl)
      | inr (_, old) ↦ h j s' old
    ]

restore_states-AllAccounted :
    (d items : Dict RetryState)
    → All (λ e. IsAccounted e.1) items
    → AllAccounted d
    → AllAccounted (restore_states d (state_items items))
unfolding restore_states state_items
restore_states-AllAccounted d [] v h = h
restore_states-AllAccounted d ((k, s) ∷ items) v h =
    restore_states-AllAccounted (keep_read d k (state_from_dict (state_to_dict s))) items v.1 (
      keep_read-AllAccounted d k (state_from_dict (state_to_dict s))
        (λ s' read. read-IsAccounted s v.0 read) h)

restore-IsAccounted :
    (t u : Tracker)
    → Stored IsAccounted t
    → Stored IsAccounted u
    → Distinct u.states
    → Stored IsAccounted (restore t (export u))
unfolding restore export
restore-IsAccounted t u ht hu distinct =
    restore_states-AllAccounted t.states (sorted_items u.states)
      (items_hold IsAccounted (sorted_items u.states) (sorted_items-Distinct u.states distinct)
        (λ k s g. hu k s (sym (get-sorted_items u.states k) ∙ g)))
      ht

Reachable-Distinct :
    (failure_digest : String → String → Option String → Option String → String) {t : Tracker}
    → Reachable failure_digest t
    → Distinct t.states
unfolding restore export
Reachable-Distinct failure_digest (created base m n h) =
    subst Distinct (sym (new_tracker-states base m n h)) tt
Reachable-Distinct failure_digest (called {t} r reached) =
    request-Distinct failure_digest t r (Reachable-Distinct failure_digest reached)
Reachable-Distinct failure_digest (restored {t} {u} reached exported) =
    restore_states-Distinct t.states (state_items (sorted_items u.states))
      (Reachable-Distinct failure_digest reached)

-- In every tracker that a host comes to from new trackers by calls, which may raise, and by restoring
-- exports of such trackers, every stored state is accounted: its sequence numbers lie in the past,
-- its counts since the last goal progress are bounded by the steps taken, its two recovery counts
-- agree, and it keeps at most 32 rejected paths.
pub Reachable-IsAccounted :
    (failure_digest : String → String → Option String → Option String → String) {t : Tracker}
    → Reachable failure_digest t
    → Stored IsAccounted t
unfolding run
Reachable-IsAccounted failure_digest (created base m n h) = no_states IsAccounted base m n h
Reachable-IsAccounted failure_digest (called {t} r reached) =
    run-Stored failure_digest IsAccounted new_state-IsAccounted
      (call_effect-IsAccounted failure_digest) t (r ∷ [])
      (Reachable-IsAccounted failure_digest reached)
Reachable-IsAccounted failure_digest (restored {t} {u} reached exported) =
    restore-IsAccounted t u (Reachable-IsAccounted failure_digest reached)
      (Reachable-IsAccounted failure_digest exported) (Reachable-Distinct failure_digest exported)
