-- ===== src/StandaloneBehavior/Decisions.antt =====
-- scripts/runtime_session/standalone_behavior_policy.py: when the policy decides what.
use cognitive_frame_works.Prelude.{
  String, Option, none, some, List, [], Bool, true, false, not, ◌&&◌, ◌||◌, ◌≡◌, ◌↔◌, inl, inr,
  refl, arith, all, length, is_empty, leb, eqb, one_of, is_bounded, if◌then◌else◌, ◌==◌, Bool-cases,
  and_split, if_holds, eq_iff,
}
use cognitive_frame_works.Prelude.Result.{ok, value_error, guard-eq-ok}
use cognitive_frame_works.StandaloneBehavior.Policy.{
  CompletionReadiness, is_ready, StandaloneBehaviorFacts, are_distinct, check_facts,
  StandaloneBehaviorDecision, decision_modes, check_decision, Budgets, decision, decide_completion,
  choose, decide,
}

-- What `check_decision` asks of a decision.
unfoldable pub is_valid : StandaloneBehaviorDecision → Bool
is_valid d =
    one_of d.mode decision_modes
    && (leb (length d.focus_criterion_ids) 8 && all (is_bounded 128) d.focus_criterion_ids)

abbrev pub IsValid : StandaloneBehaviorDecision → Type 0
IsValid d = is_valid d ≡ true

decision-IsValid :
    (mode reason : String) (active : List String) (reanchor : Bool)
    → one_of mode decision_modes ≡ true
    → (leb (length active) 8 && all (is_bounded 128) active) ≡ true
    → IsValid (decision mode reason active reanchor)
unfolding is_valid decision
decision-IsValid mode reason active reanchor h g = rw (h, g)

decide_completion-IsValid : (r : Option CompletionReadiness) → IsValid (decide_completion r)
unfolding decide_completion decision_modes
decide_completion-IsValid none = decision-IsValid _ _ [] false refl refl
decide_completion-IsValid (some r) =
    if_holds IsValid (is_ready r) (decision-IsValid _ _ [] false refl refl) (
      if_holds IsValid (not r.active_stateworks_complete) (decision-IsValid _ _ [] false refl refl)
        (decision-IsValid _ _ [] false refl refl))

choose-IsValid :
    (f : StandaloneBehaviorFacts) (b : Budgets)
    → (leb (length f.active_criterion_ids) 8 && all (is_bounded 128) f.active_criterion_ids) ≡ true
    → IsValid (choose f b)
unfolding choose decision_modes
choose-IsValid f b h =
    let active = f.active_criterion_ids in
    let must_redirect = f.redirect_guidance_pending || not f.progress_redirected in
    let redirect_or_deliver = λ (reason : String) (reanchor : Bool).
      if_holds IsValid must_redirect (decision-IsValid "REPLAN" reason active reanchor refl h) (
        decision-IsValid "DELIVER" "progress redirect issued; continue with a runnable criterion"
          active false refl h) in
    if_holds IsValid b.unresolved_contradiction (decision-IsValid _ _ active false refl h) (
      if_holds IsValid (not b.goal_contract_anchor_valid) (decision-IsValid _ _ active true refl h)
        (if_holds IsValid (leb b.max_recovery_epochs b.recovery_epochs_since_progress)
          (if_holds IsValid (not (is_empty active)) (decision-IsValid _ _ active false refl h)
            (decision-IsValid _ _ active false refl h))
          (if_holds IsValid (leb b.support_action_limit b.support_actions_since_progress)
            (redirect_or_deliver _ _)
            (if_holds IsValid (leb b.total_action_limit b.total_actions_since_progress)
              (redirect_or_deliver _ _)
              (if_holds IsValid (leb b.max_same_approach_retries b.same_approach_retries)
                (decision-IsValid _ _ active false refl h)
                (if_holds IsValid f.has_active_blockers (decision-IsValid _ _ active false refl h) (
                  if_holds IsValid (not (eqb f.pending_verification_obligations 0))
                    (decision-IsValid _ _ active false refl h)
                    (if_holds IsValid (not (is_empty active))
                      (decision-IsValid _ _ active false refl h)
                      (decide_completion-IsValid b.completion_readiness)))))))))

check_decision-ok : (d : StandaloneBehaviorDecision) → IsValid d → check_decision d ≡ ok d
unfolding check_decision is_valid
check_decision-ok d h =
    let (a, rest) = and_split (one_of d.mode decision_modes) _ h in
    let (b, c) = and_split (leb (length d.focus_criterion_ids) 8) _ rest in rw (a, b, c)

valid_mode : (d : StandaloneBehaviorDecision) → IsValid d → one_of d.mode decision_modes ≡ true
unfolding is_valid
valid_mode d h = (and_split (one_of d.mode decision_modes) _ h).0

-- On facts that their constructor accepts, `decide` never raises: the decision that it makes
-- passes the checks of its own constructor.
pub decide-IsTotal :
    (f : StandaloneBehaviorFacts) (b : Budgets)
    → check_facts f ≡ ok f
    → (decide f b ≡ ok (choose f b)) × (one_of (choose f b).mode decision_modes ≡ true)
unfolding decide check_facts
decide-IsTotal f b h =
    let active = f.active_criterion_ids in
    let few = leb (length active) 8 in
    let short = all (is_bounded 128) active in
    let (bounds, _) = guard-eq-ok (few && are_distinct active && short) value_error (ok f) h in
    let (rest, bounded) = and_split (few && are_distinct active) short bounds in
    let (first, _) = and_split few (are_distinct active) rest in
    let valid = choose-IsValid f b (rw (first, bounded)) in
    (check_decision-ok (choose f b) valid, valid_mode (choose f b) valid)

-- Nothing is left that the policy would have done before completion.
unfoldable pub is_settled : StandaloneBehaviorFacts → Budgets → Bool
is_settled f b =
    not b.unresolved_contradiction
    && b.goal_contract_anchor_valid
    && not (leb b.max_recovery_epochs b.recovery_epochs_since_progress)
    && not (leb b.support_action_limit b.support_actions_since_progress)
    && not (leb b.total_action_limit b.total_actions_since_progress)
    && not (leb b.max_same_approach_retries b.same_approach_retries)
    && not f.has_active_blockers
    && eqb f.pending_verification_obligations 0
    && is_empty f.active_criterion_ids

abbrev IsOther : StandaloneBehaviorDecision → Type 0
IsOther d = (d.mode == "READY_TO_COMPLETE") ≡ false

-- A decision to complete does not come from a branch with another mode.
other_branch :
    (b : Bool) (x y : StandaloneBehaviorDecision)
    → IsOther x
    → (if b then x else y).mode ≡ "READY_TO_COMPLETE"
    → (b ≡ false) × (y.mode ≡ "READY_TO_COMPLETE")
other_branch true x y h g = absurd (ground (arith, h, eq_iff x.mode "READY_TO_COMPLETE", g))
other_branch false x y h g = (refl, g)

ready_completion :
    (r : Option CompletionReadiness)
    → (decide_completion r).mode ≡ "READY_TO_COMPLETE"
    → (c : CompletionReadiness) × (r ≡ some c) × (is_ready c ≡ true)
unfolding decide_completion decision
ready_completion none h = cc h
ready_completion (some c) h = elim (Bool-cases (is_ready c)) [
  | inl ready ↦ (c, refl, ready)
  | inr early ↦
      let late = rw early at h in
      let (_, verify) = other_branch (not c.active_stateworks_complete) _ _ refl late in cc verify
]

completed_mode :
    (c : CompletionReadiness)
    → is_ready c ≡ true
    → (decide_completion (some c)).mode ≡ "READY_TO_COMPLETE"
unfolding decide_completion decision
completed_mode c h = rw h

-- The policy decides that the task is ready to complete exactly if nothing is left that it would
-- do before, and the host reports a readiness with every prerequisite met.
pub choose-ready_iff :
    (f : StandaloneBehaviorFacts) (b : Budgets)
    → ((choose f b).mode ≡ "READY_TO_COMPLETE") ↔ (
        (is_settled f b ≡ true)
        × ((c : CompletionReadiness) × (b.completion_readiness ≡ some c) × (is_ready c ≡ true)))
unfolding choose is_settled decision
choose-ready_iff f b = (
  λ h.
      let (p1, h1) = other_branch b.unresolved_contradiction _ _ refl h in
      let (p2, h2) = other_branch (not b.goal_contract_anchor_valid) _ _ refl h1 in
      let (p3, h3) =
        other_branch (leb b.max_recovery_epochs b.recovery_epochs_since_progress) _ _
          (if_holds IsOther (not (is_empty f.active_criterion_ids)) refl refl) h2 in
      let (p4, h4) =
        other_branch (leb b.support_action_limit b.support_actions_since_progress) _ _
          (if_holds IsOther (f.redirect_guidance_pending || not f.progress_redirected) refl refl)
          h3 in
      let (p5, h5) =
        other_branch (leb b.total_action_limit b.total_actions_since_progress) _ _
          (if_holds IsOther (f.redirect_guidance_pending || not f.progress_redirected) refl refl)
          h4 in
      let (p6, h6) =
        other_branch (leb b.max_same_approach_retries b.same_approach_retries) _ _ refl h5 in
      let (p7, h7) = other_branch f.has_active_blockers _ _ refl h6 in
      let (p8, h8) = other_branch (not (eqb f.pending_verification_obligations 0)) _ _ refl h7 in
      let (p9, h9) = other_branch (not (is_empty f.active_criterion_ids)) _ _ refl h8 in
      (
        ground (arith, p1, p2, p3, p4, p5, p6, p7, p8, p9),
        ready_completion b.completion_readiness h9,
      ),
  λ (settled, (c, given, ready)).
      let completed : (decide_completion b.completion_readiness).mode ≡ "READY_TO_COMPLETE" =
        rw given (completed_mode c ready) in
      ground (arith, settled, completed),
)
