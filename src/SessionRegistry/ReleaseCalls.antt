-- ===== src/SessionRegistry/ReleaseCalls.antt =====
-- scripts/runtime_host/session_registry.py: each method closes the resources of a session exactly
-- when it takes the last handle of it.
use cognitive_frame_works.Prelude.{
  ℕ, zero, suc, ◌+◌, String, Option, none, some, List, [], ◌∷◌, ◌++◌, not, ◌&&◌, ◌||◌, ◌≡◌, ◌≢◌,
  refl, arith, eq_refl, inl, inr, Bool-cases, eqb, ◌==◌, length, if◌then◌else◌, if_holds,
}
use cognitive_frame_works.Prelude.Result.{Result, err, ok, runtime_error}
use cognitive_frame_works.Prelude.Dict.{Dict, get, put, remove, get-remove}
use cognitive_frame_works.Prelude.Sorted.{Distinct}
use cognitive_frame_works.SessionRegistry.Handles.{
  Entry, Registry, Call, holds, drop_token, expire, evict, store_entry, register_owned, register,
  touch, resolve_owned, resolve_entry, resolve, close, is_seen, close_sessions, close_all, size,
  step, register_call, resolve_call, close_call, close_all_call, size_call,
}
use cognitive_frame_works.SessionRegistry.Eviction.{expire-IsSmaller, evict_turn}
use cognitive_frame_works.SessionRegistry.Entries.{drop_token-entries, get-expire}
use cognitive_frame_works.SessionRegistry.Bounds.{IsBounded}
use cognitive_frame_works.SessionRegistry.Release.{
  count, count-snoc, IsReleased, IsReleased-refl, IsReleased-trans, holds-remove,
  drop_token-IsReleased, expire-IsReleased, evict-IsReleased,
}

-- The token that the loop of `register` ends with is no handle of an entry.
pub get-evict :
    (n : ℕ) (token : String) (r : Registry)
    → get r.entries token ≡ none
    → get (evict n token r).1.entries (evict n token r).0 ≡ none
unfolding evict
get-evict zero token r h = h
get-evict (suc n) token r h = elim (evict_turn n token r) [
  | inl (stop, _) ↦ rw stop h
  | inr (t, e, d, _, _, turn) ↦ rw turn (
      get-evict n t (drop_token t r)
        (rw (drop_token-entries t r, get-remove r.entries t t, eq_refl t)))
]

holds-put :
    (s : ℕ) (d : Dict Entry) (t : String) (e : Entry)
    → get d t ≡ none
    → holds s (put d t e) ≡ (eqb e.session s || holds s d)
unfolding holds get put
holds-put s [] t e h = refl
holds-put s ((k, x) ∷ d) t e h = elim (Bool-cases (k == t)) [
  | inl same ↦ ground (arith, h, same)
  | inr other ↦ ground (arith, other, h, holds-put s d t e (ground (arith, other, h)))
]

store_entry-IsReleased :
    (s : ℕ) (token : String) (r : Registry) (x : ℕ) (o : String) (later : ℕ)
    → get r.entries token ≡ none
    → x ≢ s
    → IsReleased s r (store_entry (token, r) x o later).1
unfolding store_entry
store_entry-IsReleased s token r x o later h other =
    let added =
      holds-put s r.entries token
        (record {
          token = token;
          session = x;
          owner_identity = o;
          expires_at = later + r.ttl_seconds;
        })
        h in
    record {
      no_new_entry = λ held. ground (arith, added, held, other);
      closed_once = ground (arith, added, other);
    }

touch-IsReleased :
    (s : ℕ) (t : String) (e : Entry) (later : ℕ) (r : Registry)
    → Distinct r.entries
    → get r.entries t ≡ some e
    → IsReleased s r (touch t e later r)
unfolding touch
touch-IsReleased s t e later r u h =
    let moved =
      holds-put s (remove r.entries t) t (record e { expires_at = later + r.ttl_seconds })
        (rw (get-remove r.entries t t, eq_refl t)) in
    let same = holds-remove s r.entries t e u h in
    record {
      no_new_entry = λ held. ground (arith, moved, same, held);
      closed_once = ground (arith, moved, same);
    }

resolve_owned-IsReleased :
    (s : ℕ) (o : Result String) (later : ℕ) (t : String) (e : Entry) (r : Registry)
    → Distinct r.entries
    → get r.entries t ≡ some e
    → IsReleased s r (resolve_owned o later t e r).1
unfolding resolve_owned
resolve_owned-IsReleased s (err x) later t e r u h = IsReleased-refl s r
resolve_owned-IsReleased s (ok o) later t e r u h =
    if_holds (λ (x : Result ℕ × Registry). IsReleased s r x.1) (o == e.owner_identity)
      {x = (ok e.session, touch t e later r)} {y = (err runtime_error, drop_token t r)}
      (touch-IsReleased s t e later r u h) (drop_token-IsReleased s t r u)

resolve_entry-IsReleased :
    (s : ℕ) (owner : ℕ → Result String) (later : ℕ) (t : String) (o : Option Entry) (r : Registry)
    → Distinct r.entries
    → get r.entries t ≡ o
    → IsReleased s r (resolve_entry owner later t o r).1
unfolding resolve_entry
resolve_entry-IsReleased s owner later t none r u h = IsReleased-refl s r
resolve_entry-IsReleased s owner later t (some e) r u h =
    resolve_owned-IsReleased s (owner e.session) later t e r u h

count-close_sessions :
    (s : ℕ) (d : Dict Entry) (seen log : List ℕ)
    → count s (close_sessions d seen log)
      ≡ count s log + (if holds s d && not (is_seen s seen) then 1 else 0)
unfolding holds close_sessions is_seen
count-close_sessions s [] seen log = ground arith
count-close_sessions s ((t, e) ∷ d) seen log = elim (Bool-cases (is_seen e.session seen)) [
  | inl old ↦ ground (arith, old, count-close_sessions s d seen log)
  | inr new ↦ ground (
    arith,
    new,
    count-close_sessions s d (e.session ∷ seen) (log ++ e.session ∷ []),
    count-snoc s e.session log,
  )
]

close_all-IsReleased : (s : ℕ) (r : Registry) → IsReleased s r (close_all r)
unfolding close_all holds is_seen
close_all-IsReleased s r = record {
  no_new_entry = λ held. ground (arith, held);
  closed_once = ground (arith, count-close_sessions s r.entries [] r.closed);
}

-- A call that registers another session, under a token that no entry has; or any other call.
unfoldable pub IsElsewhere : ℕ → Registry → Call → Type 0
IsElsewhere s r (register_call owner fresh now later x) = (x ≢ s) × (get r.entries fresh ≡ none)
IsElsewhere s r (resolve_call owner now later t) = Unit
IsElsewhere s r (close_call t) = Unit
IsElsewhere s r close_all_call = Unit
IsElsewhere s r (size_call now) = Unit

register_owned-IsReleased :
    (s : ℕ) (o : Result String) (fresh : String) (now later x : ℕ) (r : Registry)
    → Distinct r.entries
    → x ≢ s
    → get r.entries fresh ≡ none
    → IsReleased s r (register_owned o fresh now later x r).1
unfolding register_owned
register_owned-IsReleased s (err y) fresh now later x r u other new = IsReleased-refl s r
register_owned-IsReleased s (ok o) fresh now later x r u other new =
    let live = expire now r in
    let turns = length live.entries in
    let room = (evict turns fresh live).1 in
    let token = (evict turns fresh live).0 in
    let absent : get live.entries fresh ≡ none = rw (get-expire now r fresh u, new) in
    IsReleased-trans s r live (store_entry (token, room) x o later).1 (expire-IsReleased s now r u)
      (IsReleased-trans s live room (store_entry (token, room) x o later).1
        (evict-IsReleased s turns fresh live ((expire-IsSmaller now r).keeps_distinct u))
        (store_entry-IsReleased s token room x o later (get-evict turns fresh live absent) other))

-- A call that does not register the session itself, and draws an unused token if it registers
-- another, adds no entry of the session, and closes its resources exactly once if it takes its
-- last entry, and else not.
pub step-IsReleased :
    (s : ℕ) (c : Call) (r : Registry) → IsBounded r → IsElsewhere s r c → IsReleased s r (step c r)
unfolding step IsElsewhere register resolve close size
step-IsReleased s (register_call owner fresh now later x) r b h =
    register_owned-IsReleased s (owner x) fresh now later x r b.is_distinct h.0 h.1
step-IsReleased s (resolve_call owner now later t) r b h =
    let live = expire now r in
    let u = b.is_distinct in
    IsReleased-trans s r live (resolve owner now later t r).1 (expire-IsReleased s now r u) (
      resolve_entry-IsReleased s owner later t (get live.entries t) live
        ((expire-IsSmaller now r).keeps_distinct u) refl)
step-IsReleased s (close_call t) r b h = drop_token-IsReleased s t r b.is_distinct
step-IsReleased s close_all_call r b h = close_all-IsReleased s r
step-IsReleased s (size_call now) r b h = expire-IsReleased s now r b.is_distinct
