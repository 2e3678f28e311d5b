-- ===== src/SessionRegistry/Resolution.antt =====
-- scripts/runtime_host/session_registry.py: to which session a handle resolves.
use cognitive_frame_works.Prelude.{
  ℕ, zero, suc, ◌+◌, ◌<◌, String, Option, none, some, ◌∷◌, false, ◌≡◌, ◌↔◌, refl, sym, subst, ap,
  ◌∙◌, arith, eq_iff, eq_refl, inl, inr, Bool-cases, leb, ◌==◌, length,
}
use cognitive_frame_works.Prelude.Result.{Result, err, ok, ok_inj}
use cognitive_frame_works.Prelude.Dict.{Dict, get, put, get-put}
use cognitive_frame_works.Prelude.Sorted.{Distinct, put-Distinct}
use cognitive_frame_works.SessionRegistry.Handles.{
  Entry, Registry, expire, evict, drop_token, store_entry, register_owned, register, resolve_owned,
  resolve_entry, resolve,
}
use cognitive_frame_works.SessionRegistry.Eviction.{
  drop_token-IsSmaller, expire-IsSmaller, evict-IsSmaller, evict_turn, drop_oldest_shorter,
}
use cognitive_frame_works.SessionRegistry.Entries.{get-expire, unless_expired}

-- The entry of a handle that stands for the session now.
pub record IsLive (owner : ℕ → Result String) (now : ℕ) (t : String) (s : ℕ) (r : Registry)
    (e : Entry) : Type 0 where
  pub found : get r.entries t ≡ some e
  pub not_expired : now < e.expires_at
  pub same_session : e.session ≡ s
  pub same_owner : owner s ≡ ok e.owner_identity

resolve_owned-ok :
    (o : Result String) (later : ℕ) (t : String) (e : Entry) (r : Registry) (s : ℕ)
    → (resolve_owned o later t e r).0 ≡ ok s
    → (e.session ≡ s) × (o ≡ ok e.owner_identity)
unfolding resolve_owned
resolve_owned-ok (err x) later t e r s h = cc
resolve_owned-ok (ok o) later t e r s h = elim (Bool-cases (o == e.owner_identity)) [
  | inl same ↦ (ground (arith, h, same), ap ok (ground (arith, same, eq_iff o e.owner_identity)))
  | inr other ↦ ground (arith, h, other)
]

resolve_owned_same :
    (o : Result String) (later : ℕ) (t : String) (e : Entry) (r : Registry)
    → o ≡ ok e.owner_identity
    → (resolve_owned o later t e r).0 ≡ ok e.session
unfolding resolve_owned
resolve_owned_same o later t e r h = rw (h, eq_refl e.owner_identity)

resolve_at :
    (owner : ℕ → Result String) (later : ℕ) (t : String) (o : Option Entry) (r : Registry) (s : ℕ)
    → (resolve_entry owner later t o r).0 ≡ ok s
    → (e : Entry) × (o ≡ some e) × (e.session ≡ s) × (owner s ≡ ok e.owner_identity)
unfolding resolve_entry
resolve_at owner later t none r s h = cc
resolve_at owner later t (some e) r s h =
    let (same, owned) = resolve_owned-ok (owner e.session) later t e r s h in
    (e, refl, same, sym (ap owner same) ∙ owned)

unless_expired-some :
    (now : ℕ) (o : Option Entry) (e : Entry)
    → unless_expired now o ≡ some e
    → (o ≡ some e) × (now < e.expires_at)
unless_expired-some now none e h = cc
unless_expired-some now (some x) e h = elim (Bool-cases (leb x.expires_at now)) [
  | inl old ↦ ground (arith, h, old)
  | inr new ↦ (ground (arith, h, new), ground (arith, h, new))
]

-- `resolve` returns a session exactly if the handle's entry is of that session, has not expired,
-- and the session has the owner that it had when it was registered.
pub resolve-ok_iff :
    (owner : ℕ → Result String) (now later : ℕ) (t : String) (r : Registry) (s : ℕ)
    → Distinct r.entries
    → ((resolve owner now later t r).0 ≡ ok s) ↔ ((e : Entry) × IsLive owner now t s r e)
unfolding resolve resolve_entry
resolve-ok_iff owner now later t r s u =
    let live = expire now r in
    (
      λ h.
          let (e, found, same, owned) = resolve_at owner later t (get live.entries t) live s h in
          let (there, young) =
            unless_expired-some now (get r.entries t) e (sym (get-expire now r t u) ∙ found) in
          (
            e,
            record { found = there; not_expired = young; same_session = same; same_owner = owned },
          ),
      λ (e, l).
          let young : leb e.expires_at now ≡ false = ground (arith, l.not_expired) in
          let there : get live.entries t ≡ some e = get-expire now r t u ∙ rw (l.found, young) in
          rw there (
            resolve_owned_same (owner e.session) later t e live (rw l.same_session l.same_owner)
            ∙ ap ok l.same_session),
    )

evict_stops :
    (n : ℕ) (token : String) (r : Registry)
    → length r.entries < r.max_sessions
    → evict n token r ≡ (token, r)
unfolding evict
evict_stops zero token r h = refl
evict_stops (suc n) token r h = ground (arith, h)

abbrev new_entry : String → ℕ → String → ℕ → Registry → Entry
new_entry t s o later r = record {
  token = t;
  session = s;
  owner_identity = o;
  expires_at = later + r.ttl_seconds;
}

store_found :
    (x : String × Registry) (s : ℕ) (o : String) (later : ℕ) {t : String} {r' : Registry}
    → Distinct x.1.entries
    → store_entry x s o later ≡ (ok t, r')
    → Distinct r'.entries × (get r'.entries t ≡ some (new_entry t s o later x.1))
unfolding store_entry
store_found (token, r) s o later {t} {r'} u h =
    let same : token ≡ t = ok_inj (ap (λ (x : Result String × Registry). x.0) h) in
    let entries : put r.entries token (new_entry token s o later r) ≡ r'.entries =
      ap (λ (x : Result String × Registry). x.1.entries) h in
    (
      subst Distinct entries (put-Distinct r.entries token (new_entry token s o later r) u),
      rw (
        sym entries,
        sym same,
        get-put r.entries token token (new_entry token s o later r),
        eq_refl token,
      ),
    )

-- Until its time to live is over, the token that `register` returns resolves to the session, as
-- long as the session keeps its owner.
pub resolve-register :
    (owner owner' : ℕ → Result String) (fresh : String) (now later now' later' s : ℕ) (r : Registry)
    {t : String} {r' : Registry}
    → Distinct r.entries
    → register owner fresh now later s r ≡ (ok t, r')
    → owner' s ≡ owner s
    → now' < later + r.ttl_seconds
    → (resolve owner' now' later' t r').0 ≡ ok s
unfolding register register_owned
resolve-register owner owner' fresh now later now' later' s r {t} {r'} u h kept young =
    go (owner s) kept h
  where
    go :
        (o : Result String)
        → owner' s ≡ o
        → register_owned o fresh now later s r ≡ (ok t, r')
        → (resolve owner' now' later' t r').0 ≡ ok s
    go (err x) e g = cc (ap (λ (x : Result String × Registry). x.0) g)
    go (ok o) e g =
        let live = expire now r in
        let turns = length live.entries in
        let room = evict turns fresh live in
        let dropped = expire-IsSmaller now r in
        let left = evict-IsSmaller turns fresh live in
        let (v, found) =
          store_found room s o later (left.keeps_distinct (dropped.keeps_distinct u)) g in
        (resolve-ok_iff owner' now' later' t r' s v).1 (
          new_entry t s o later room.1,
          record {
            found = found;
            not_expired = omega (arith, young, left.same_ttl, dropped.same_ttl);
            same_session = refl;
            same_owner = e;
          },
        )

-- One turn of the loop makes room in a full registry.
oldest_token :
    (n : ℕ) (token : String) (r : Registry) {t : String} {e : Entry} {d : Dict Entry}
    → r.entries ≡ (t, e) ∷ d
    → length ((t, e) ∷ d) ≡ r.max_sessions
    → (evict (suc n) token r).0 ≡ t
oldest_token n token r {t} {e} {d} h full = elim (evict_turn n token r) [
  | inl (_, room) ↦
      absurd (omega (arith, ap length (room (omega (arith, ap length h, full))), ap length h, full))
  | inr (k, x, rest, g, _, turn) ↦
      let first : k ≡ t = cc in
      let shorter = drop_oldest_shorter k x rest r g in
      rw turn (
        rw
          (evict_stops n k (drop_token k r) (
            omega (
              arith,
              shorter,
              ap length g,
              ap length h,
              full,
              (drop_token-IsSmaller k r).same_bound,
            )))
          first)
]

-- When the registry is full, `register` returns the token of the oldest handle that is live in
-- place of a fresh one, and that handle then resolves to the new session.
pub full_registry_reuses_handle :
    (owner owner' : ℕ → Result String) (fresh : String) (now later now' later' s : ℕ) (r : Registry)
    {o t : String} {e : Entry} {d : Dict Entry}
    → Distinct r.entries
    → (expire now r).entries ≡ (t, e) ∷ d
    → length ((t, e) ∷ d) ≡ r.max_sessions
    → owner s ≡ ok o
    → owner' s ≡ ok o
    → now' < later + r.ttl_seconds
    → ((register owner fresh now later s r).0 ≡ ok t)
      × ((resolve owner' now' later' t (register owner fresh now later s r).1).0 ≡ ok s)
full_registry_reuses_handle owner owner' fresh now later now' later' s r {o} {t} {e} {d} u h full
      own own' young =
    let live = expire now r in
    let same = (expire-IsSmaller now r).same_bound in
    let token : (evict (length live.entries) fresh live).0 ≡ t =
      rw (ap length h) (oldest_token (length d) fresh live h (omega (arith, full, same))) in
    let returned : (register owner fresh now later s r).0 ≡ ok t =
      unfold register in unfold register_owned in unfold store_entry in rw (own, token) in
    (
      returned,
      resolve-register owner owner' fresh now later now' later' s r u
          (ap (λ (x : Result String). (x, (register owner fresh now later s r).1)) returned)
          (own' ∙ sym own) young,
    )
