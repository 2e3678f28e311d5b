-- ===== src/Attempts/Begin.antt =====
-- scripts/runtime_session/attempts.py: `_begin_attempt`. The JSON text of the plan is an argument,
-- SHA-256 a parameter.
use cognitive_frame_works.Prelude.{
  ℕ, ◌+◌, String, Option, none, some, List, [], ◌∷◌, Bool, true, not, all_true, leb, ltb, str_take,
  or_text, ◌==◌, if◌then◌else◌,
}
use Prim.Native.Char.{code}
use cognitive_frame_works.Prelude.Result.{
  Result, err, ok, value_error, permission_error, guard, ◌>>=◌, ◌>>◌,
}
use cognitive_frame_works.Prelude.Attempt.{attempt}
use cognitive_frame_works.Prelude.Dict.{get, put}
use cognitive_frame_works.Convergence.Identity.{AttemptDescriptor, new_attempt}
use cognitive_frame_works.Convergence.Transitions.{option_eq}
use cognitive_frame_works.Convergence.Tracker.{Tracker}
use cognitive_frame_works.Attention.Facts.{AttemptSemanticDescriptor, check_descriptor}
use cognitive_frame_works.Actions.Registry.{texts_eq}
use cognitive_frame_works.Attempts.Session.{AttemptSession, text_or_blank}

-- The bytes of a text in UTF-8.
unfoldable pub utf8_len : String → ℕ
utf8_len String.[] = 0
utf8_len (String.◌∷◌ c s) =
    (if ltb (code c) 0x80
      then 1
      else if ltb (code c) 0x800
      then 2
      else if ltb (code c) 0x10000
      then 3
      else 4)
    + utf8_len s

-- `semantic_descriptor`, and whether it has fields that are not allowed.
pub record SemanticRequest : Type 0 where
  pub has_unknown_fields : Bool
  pub asked_cause_class : Option String
  pub asked_hypothesis_summary : Option String
  pub asked_mechanism : Option String
  pub asked_evidence_target : Option String
  pub asked_action_class : Option String
  pub asked_target_kind : Option String
  pub asked_result_class : Option String
  pub asked_criterion_ids : List String
  pub asked_source : Option String

unfoldable pub semantic_of : SemanticRequest → AttemptDescriptor → AttemptSemanticDescriptor
semantic_of q d = record {
  cause_class = str_take 64 (or_text (text_or_blank q.asked_cause_class) d.cause_id);
  hypothesis_summary = str_take 256 (text_or_blank q.asked_hypothesis_summary);
  mechanism = str_take 256 (text_or_blank q.asked_mechanism);
  evidence_target = str_take 128 (text_or_blank q.asked_evidence_target);
  planned_action_class = str_take 64 (text_or_blank q.asked_action_class);
  planned_target_kind = str_take 64 (text_or_blank q.asked_target_kind);
  failed_result_class = str_take 64 (or_text (text_or_blank q.asked_result_class) "pending");
  premise_digest = d.premise_digest;
  action_plan_digest = d.action_plan_digest;
  affected_criterion_ids = q.asked_criterion_ids;
  source = or_text (text_or_blank q.asked_source) "model_proposed";
}

unfoldable pub new_semantic :
    Option SemanticRequest → AttemptDescriptor → Result (Option AttemptSemanticDescriptor)
new_semantic none d = ok none
new_semantic (some q) d = do
  guard (not q.has_unknown_fields) value_error
  checked ← check_descriptor (semantic_of q d)
  ok (some checked)

unfoldable pub same_attempt : AttemptDescriptor → AttemptDescriptor → Bool
same_attempt a b = all_true (
    (a.attempt_ref == b.attempt_ref)
    ∷ (a.cause_id == b.cause_id)
    ∷ (a.premise_digest == b.premise_digest)
    ∷ (a.action_plan_digest == b.action_plan_digest)
    ∷ option_eq a.parent_attempt_ref b.parent_attempt_ref
    ∷ [])

unfoldable pub same_semantic : AttemptSemanticDescriptor → AttemptSemanticDescriptor → Bool
same_semantic a b = all_true (
    (a.cause_class == b.cause_class)
    ∷ (a.hypothesis_summary == b.hypothesis_summary)
    ∷ (a.mechanism == b.mechanism)
    ∷ (a.evidence_target == b.evidence_target)
    ∷ (a.planned_action_class == b.planned_action_class)
    ∷ (a.planned_target_kind == b.planned_target_kind)
    ∷ (a.failed_result_class == b.failed_result_class)
    ∷ (a.premise_digest == b.premise_digest)
    ∷ (a.action_plan_digest == b.action_plan_digest)
    ∷ texts_eq a.affected_criterion_ids b.affected_criterion_ids
    ∷ (a.source == b.source)
    ∷ [])

-- What is bound already is the same, or nothing is.
abbrev pub is_unbound {ℓ} : {A : Type ℓ} → (A → A → Bool) → Option A → A → Bool
is_unbound same none a = true
is_unbound same (some b) a = same b a

unfoldable pub bind_semantic :
    String → Option AttemptSemanticDescriptor → AttemptSession → Result (Unit {0}) × AttemptSession
bind_semantic ref none s = (ok tt, s)
bind_semantic ref (some q) s =
    attempt (guard (is_unbound same_semantic (get s.semantics ref) q) value_error) s
      λ u. (ok tt, record s { semantics = put s.semantics ref q })

-- The descriptor is bound before the semantic one is compared.
unfoldable pub bind_attempt :
    AttemptDescriptor
    → Option AttemptSemanticDescriptor
    → AttemptSession
    → Result (Unit {0}) × AttemptSession
bind_attempt d semantic s =
    attempt (guard (is_unbound same_attempt (get s.descriptors d.attempt_ref) d) value_error) s λ u.
      bind_semantic d.attempt_ref semantic
        (record s { descriptors = put s.descriptors d.attempt_ref d })

-- `self.attempts.controller is None`
abbrev pub needs_controller : Option Tracker → Result Tracker
needs_controller none = err permission_error
needs_controller (some t) = ok t

module _ (sha256 : String → String) where
  unfoldable pub planned_attempt :
      String → String → String → String → Option String → Result AttemptDescriptor
  planned_attempt ref cause premise plan parent = do
    guard (leb (utf8_len plan) 8192) value_error
    new_attempt ref cause premise (sha256 plan) parent

  unfoldable pub begin_attempt :
      Bool
      → String
      → String
      → String
      → String
      → Option String
      → Option SemanticRequest
      → AttemptSession
      → Result (Unit {0}) × AttemptSession
  begin_attempt is_host ref cause premise plan parent semantic s =
      attempt (guard is_host permission_error) s λ u. attempt (needs_controller s.controller) s λ t.
        attempt (planned_attempt ref cause premise plan parent) s
          λ d. attempt (new_semantic semantic d) s λ q. bind_attempt d q s
