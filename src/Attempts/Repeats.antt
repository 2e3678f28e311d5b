-- ===== src/Attempts/Repeats.antt =====
-- That `_record_attempt_failure` of scripts/runtime_session/attempts.py counts an attempt once.
use cognitive_frame_works.Prelude.{
  String, Option, none, some, Bool, true, false, one_of, ◌≡◌, refl, sym, ap, subst, ◌∙◌, eq_refl,
  if◌then◌else◌,
}
use cognitive_frame_works.Prelude.Result.{Result, ok, permission_error, guard}
use cognitive_frame_works.Prelude.Attempt.{attempt, attempt-ok, attempt_keeps, proceed-ok}
use cognitive_frame_works.Prelude.Dict.{get}
use cognitive_frame_works.Convergence.Identity.{AttemptDescriptor}
use cognitive_frame_works.Convergence.Tracker.{Tracker}
use cognitive_frame_works.Convergence.Ledger.{Table}
use cognitive_frame_works.Attention.Facts.{AttemptSemanticDescriptor}
use cognitive_frame_works.Attempts.Session.{EvidenceRecord, AttemptSession, shared_ledger}
use cognitive_frame_works.Attempts.Begin.{needs_controller}
use cognitive_frame_works.Attempts.Record.{
  registered, current_record, keep_failed, record_semantic, share_failure, track_failure,
  count_failure, record_attempt_failure,
}

-- The session has a tracker, and the attempt is registered.
pub record IsReady (ref : String) (s : AttemptSession) : Type 0 where
  pub tracker : Tracker
  pub has_tracker : s.controller ≡ some tracker
  pub descriptor : AttemptDescriptor
  pub has_descriptor : get s.descriptors ref ≡ some descriptor

same_answer : {x y : Result (Unit {0}) × AttemptSession} → x ≡ y → x.0 ≡ y.0
same_answer h = ap (λ (p : Result (Unit {0}) × AttemptSession). p.0) h

has_controller : (o : Option Tracker) {t : Tracker} → needs_controller o ≡ ok t → o ≡ some t
has_controller none h = cc
has_controller (some t) h = cc

is_registered :
    (o : Option AttemptDescriptor) {d : AttemptDescriptor} → registered o ≡ ok d → o ≡ some d
is_registered none h = cc
is_registered (some d) h = cc

module _ (attempt_digest : String → String)
    (failure_digest : String → String → Option String → Option String → String) (ref : String) where
  share_failure-IsReady :
      (o : Option Table) (d : AttemptDescriptor) (evidence_ref : String) (s : AttemptSession)
      → IsReady ref s
      → IsReady ref (share_failure attempt_digest failure_digest o d evidence_ref ref s).1
  unfolding share_failure
  share_failure-IsReady none d evidence_ref s h = h
  share_failure-IsReady (some table) d evidence_ref s h =
      attempt_keeps (IsReady ref) _ s _ h λ scope e. attempt_keeps (IsReady ref) _ s _ h λ p e'.
        record {
          tracker = h.tracker;
          has_tracker = h.has_tracker;
          descriptor = h.descriptor;
          has_descriptor = h.has_descriptor;
        }

  track_failure-IsReady :
      (t : Tracker) (d : AttemptDescriptor) (evidence_ref : String) (s : AttemptSession)
      → IsReady ref s
      → IsReady ref (track_failure attempt_digest failure_digest t d evidence_ref s).1
  unfolding track_failure
  track_failure-IsReady t d evidence_ref s h = attempt_keeps (IsReady ref) _ s _ h λ p e. record {
    tracker = p.1;
    has_tracker = refl;
    descriptor = h.descriptor;
    has_descriptor = h.has_descriptor;
  }

  record_semantic-IsReady :
      (o : Option AttemptSemanticDescriptor) (r : EvidenceRecord) (s : AttemptSession)
      → IsReady ref s
      → IsReady ref (record_semantic o r s).1
  unfolding record_semantic keep_failed
  record_semantic-IsReady none r s h = h
  record_semantic-IsReady (some q) r s h = attempt_keeps (IsReady ref) _ s _ h λ p e. record {
    tracker = h.tracker;
    has_tracker = h.has_tracker;
    descriptor = h.descriptor;
    has_descriptor = h.has_descriptor;
  }

  count_failure-IsReady :
      (t : Tracker) (d : AttemptDescriptor) (r : EvidenceRecord) (evidence_ref : String)
      (s : AttemptSession) {s' : AttemptSession}
      → IsReady ref s
      → count_failure attempt_digest failure_digest t d r ref evidence_ref s ≡ (ok tt, s')
      → IsReady ref s' × (one_of ref s'.failures ≡ true)
  unfolding count_failure
  count_failure-IsReady t d r evidence_ref s {s'} ready h =
      let m1 = share_failure attempt_digest failure_digest (shared_ledger s) d evidence_ref ref s in
      let ready1 = share_failure-IsReady (shared_ledger s) d evidence_ref s ready in
      let (u1, _, goes1) = proceed-ok m1 _ (same_answer h) in
      let h1 = sym goes1 ∙ h in
      let m2 = track_failure attempt_digest failure_digest t d evidence_ref m1.1 in
      let ready2 = track_failure-IsReady t d evidence_ref m1.1 ready1 in
      let (u2, _, goes2) = proceed-ok m2 _ (same_answer h1) in
      let h2 = sym goes2 ∙ h1 in
      let m3 = record_semantic (get (m2.1).semantics ref) r m2.1 in
      let ready3 = record_semantic-IsReady (get (m2.1).semantics ref) r m2.1 ready2 in
      let (u3, _, goes3) = proceed-ok m3 _ (same_answer h2) in
      let ends = ap (λ (p : Result (Unit {0}) × AttemptSession). p.1) (sym goes3 ∙ h2) in
      subst (λ (x : AttemptSession). IsReady ref x × (one_of ref x.failures ≡ true)) ends
        (
          record {
            tracker = ready3.tracker;
            has_tracker = ready3.has_tracker;
            descriptor = ready3.descriptor;
            has_descriptor = ready3.has_descriptor;
          },
          rw (eq_refl ref),
        )

  -- A failure that is recorded leaves the session ready, and remembers the attempt.
  record_attempt_failure-IsReady :
      (is_host : Bool) (evidence_ref : String) (s : AttemptSession) {s' : AttemptSession}
      → record_attempt_failure attempt_digest failure_digest is_host ref evidence_ref s
        ≡ (ok tt, s')
      → IsReady ref s' × (one_of ref s'.failures ≡ true)
  unfolding record_attempt_failure
  record_attempt_failure-IsReady is_host evidence_ref s {s'} h =
      let (_, _, goes0) = attempt-ok (guard is_host permission_error) s _ (same_answer h) in
      let h0 = sym goes0 ∙ h in
      let (t, tracked, goes1) = attempt-ok (needs_controller s.controller) s _ (same_answer h0) in
      let h1 = sym goes1 ∙ h0 in
      let (d, known, goes2) =
        attempt-ok (registered (get s.descriptors ref)) s _ (same_answer h1) in
      let h2 = sym goes2 ∙ h1 in
      let (r, _, goes3) =
        attempt-ok (current_record (get s.evidence_ledger evidence_ref)) s _ (same_answer h2) in
      go (one_of ref s.failures) refl t d r
        (record {
          tracker = t;
          has_tracker = has_controller s.controller tracked;
          descriptor = d;
          has_descriptor = is_registered (get s.descriptors ref) known;
        })
        (sym goes3 ∙ h2)
    where
      go :
          (b : Bool)
          → one_of ref s.failures ≡ b
          → (t : Tracker) (d : AttemptDescriptor) (r : EvidenceRecord) → IsReady ref s
          → (if b
              then (ok tt, s)
              else count_failure attempt_digest failure_digest t d r ref evidence_ref s)
            ≡ (ok tt, s')
          → IsReady ref s' × (one_of ref s'.failures ≡ true)
      go true recorded t d r ready h =
          subst (λ (x : AttemptSession). IsReady ref x × (one_of ref x.failures ≡ true))
            (ap (λ (p : Result (Unit {0}) × AttemptSession). p.1) h) (ready, recorded)
      go false new t d r ready h = count_failure-IsReady t d r evidence_ref s ready h

  -- After the failure of an attempt has been recorded, recording it again with any current evidence
  -- changes nothing: not the shared ledger, the tracker, the task evidence or the attention.
  pub repeated_failure_changes_nothing :
      (is_host : Bool) (evidence_ref again : String) (s : AttemptSession) (r : EvidenceRecord)
      {s' : AttemptSession}
      → record_attempt_failure attempt_digest failure_digest is_host ref evidence_ref s
        ≡ (ok tt, s')
      → get s'.evidence_ledger again ≡ some r
      → r.invalidated ≡ false
      → record_attempt_failure attempt_digest failure_digest true ref again s' ≡ (ok tt, s')
  unfolding record_attempt_failure current_record attempt
  repeated_failure_changes_nothing is_host evidence_ref again s r {s'} h found current =
      let (ready, recorded) = record_attempt_failure-IsReady is_host evidence_ref s h in
      rw (ready.has_tracker, ready.has_descriptor, found, current, recorded)
