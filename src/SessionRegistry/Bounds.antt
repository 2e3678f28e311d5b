-- ===== src/SessionRegistry/Bounds.antt =====
-- scripts/runtime_host/session_registry.py: the registry never holds more sessions than its bound.
use cognitive_frame_works.Prelude.{
  if_holds, ℕ, ◌+◌, ◌≤◌, ◌<◌, String, Option, none, some, List, [], ◌∷◌, ◌≡◌, leb→le, and_split,
  ◌&&◌, refl, subst, arith, leb, ◌==◌, length,
}
use cognitive_frame_works.Prelude.Result.{
  Result, err, ok, value_error, runtime_error, guard-eq-ok, ok_inj,
}
use cognitive_frame_works.Prelude.Dict.{get, remove, length-put-le}
use cognitive_frame_works.Prelude.Sorted.{Distinct, put-Distinct}
use cognitive_frame_works.Prelude.Removal.{remove-Distinct, length-remove}
use cognitive_frame_works.SessionRegistry.Handles.{
  Entry, Registry, Call, new_registry, drop_token, expire, evict, store_entry, register_owned,
  register, touch, resolve_owned, resolve_entry, resolve, close, close_all, size, step, run,
  register_call, resolve_call, close_call, close_all_call, size_call,
}
use cognitive_frame_works.SessionRegistry.Eviction.{
  IsSmaller, drop_token-IsSmaller, expire-IsSmaller, evict-IsSmaller, evict_makes_room,
}

-- Each handle stands for one session, and there are at most `max_sessions` of them.
pub record IsBounded (r : Registry) : Type 0 where
  pub has_room : 1 ≤ r.max_sessions
  pub is_distinct : Distinct r.entries
  pub is_within : length r.entries ≤ r.max_sessions

IsSmaller-IsBounded : {r r' : Registry} → IsSmaller r r' → IsBounded r → IsBounded r'
IsSmaller-IsBounded p b = record {
  has_room = omega (arith, p.same_bound, b.has_room);
  is_distinct = p.keeps_distinct b.is_distinct;
  is_within = omega (arith, p.same_bound, p.not_longer, b.is_within);
}

expire-IsBounded : (now : ℕ) (r : Registry) → IsBounded r → IsBounded (expire now r)
expire-IsBounded now r b = IsSmaller-IsBounded (expire-IsSmaller now r) b

drop_token-IsBounded : (t : String) (r : Registry) → IsBounded r → IsBounded (drop_token t r)
drop_token-IsBounded t r b = IsSmaller-IsBounded (drop_token-IsSmaller t r) b

store_entry-IsBounded :
    (token : String) (r : Registry) (s : ℕ) (o : String) (later : ℕ)
    → IsBounded r
    → length r.entries < r.max_sessions
    → IsBounded (store_entry (token, r) s o later).1
unfolding store_entry
store_entry-IsBounded token r s o later b room = record {
  has_room = b.has_room;
  is_distinct = put-Distinct r.entries token _ b.is_distinct;
  is_within = omega (
    arith,
    room,
    length-put-le r.entries token (record {
      token = token;
      session = s;
      owner_identity = o;
      expires_at = later + r.ttl_seconds;
    }),
  );
}

register_owned-IsBounded :
    (o : Result String) (fresh : String) (now later s : ℕ) (r : Registry)
    → IsBounded r
    → IsBounded (register_owned o fresh now later s r).1
unfolding register_owned
register_owned-IsBounded (err x) fresh now later s r b = b
register_owned-IsBounded (ok o) fresh now later s r b =
    let live = expire now r in
    let bound = expire-IsBounded now r b in
    let turns = length live.entries in
    let kept = evict-IsSmaller turns fresh live in
    store_entry-IsBounded (evict turns fresh live).0 (evict turns fresh live).1 s o later
      (IsSmaller-IsBounded kept bound)
      (omega
        (arith, kept.same_bound, evict_makes_room turns fresh live bound.has_room (omega arith)))

touch-IsBounded :
    (t : String) (e : Entry) (later : ℕ) (r : Registry)
    → get r.entries t ≡ some e
    → IsBounded r
    → IsBounded (touch t e later r)
unfolding touch
touch-IsBounded t e later r h b = record {
  has_room = b.has_room;
  is_distinct = put-Distinct (remove r.entries t) t _ (remove-Distinct r.entries t b.is_distinct);
  is_within = omega (
    arith,
    b.is_within,
    length-remove r.entries t {v = e} b.is_distinct h,
    length-put-le (remove r.entries t) t (record e { expires_at = later + r.ttl_seconds }),
  );
}

resolve_owned-IsBounded :
    (o : Result String) (later : ℕ) (t : String) (e : Entry) (r : Registry)
    → get r.entries t ≡ some e
    → IsBounded r
    → IsBounded (resolve_owned o later t e r).1
unfolding resolve_owned
resolve_owned-IsBounded (err x) later t e r h b = b
resolve_owned-IsBounded (ok o) later t e r h b =
    if_holds (λ (x : Result ℕ × Registry). IsBounded x.1) (o == e.owner_identity)
      {x = (ok e.session, touch t e later r)} {y = (err runtime_error, drop_token t r)}
      (touch-IsBounded t e later r h b) (drop_token-IsBounded t r b)

resolve_entry-IsBounded :
    (owner : ℕ → Result String) (later : ℕ) (t : String) (o : Option Entry) (r : Registry)
    → get r.entries t ≡ o
    → IsBounded r
    → IsBounded (resolve_entry owner later t o r).1
unfolding resolve_entry
resolve_entry-IsBounded owner later t none r h b = b
resolve_entry-IsBounded owner later t (some e) r h b =
    resolve_owned-IsBounded (owner e.session) later t e r h b

pub step-IsBounded : (c : Call) (r : Registry) → IsBounded r → IsBounded (step c r)
unfolding step register resolve close close_all size
step-IsBounded (register_call owner fresh now later s) r b =
    register_owned-IsBounded (owner s) fresh now later s r b
step-IsBounded (resolve_call owner now later t) r b =
    let live = expire now r in
    resolve_entry-IsBounded owner later t (get live.entries t) live refl (expire-IsBounded now r b)
step-IsBounded (close_call t) r b = drop_token-IsBounded t r b
step-IsBounded close_all_call r b = record {
  has_room = b.has_room;
  is_distinct = tt;
  is_within = omega arith;
}
step-IsBounded (size_call now) r b = expire-IsBounded now r b

run_keeps : (cs : List Call) (r : Registry) → IsBounded r → IsBounded (run cs r)
unfolding run
run_keeps [] r b = b
run_keeps (c ∷ cs) r b = run_keeps cs (step c r) (step-IsBounded c r b)

-- From a new registry, whatever calls are made, every handle stands for one entry and at most
-- `max_sessions` entries are kept.
pub run-IsBounded :
    (max_sessions ttl_seconds : ℕ) (cs : List Call) {r : Registry}
    → new_registry max_sessions ttl_seconds ≡ ok r
    → IsBounded (run cs r)
unfolding new_registry
run-IsBounded max_sessions ttl_seconds cs {r} h =
    let (bound, h') = guard-eq-ok (leb 1 max_sessions && leb max_sessions 16384) value_error _ h in
    let (_, made) = guard-eq-ok (leb 60 ttl_seconds && leb ttl_seconds 604800) value_error _ h' in
    run_keeps cs r (
      subst IsBounded (ok_inj made) (record {
        has_room =
            leb→le 1 max_sessions (and_split (leb 1 max_sessions) (leb max_sessions 16384) bound).0;
        is_distinct = tt;
        is_within = omega arith;
      }))
