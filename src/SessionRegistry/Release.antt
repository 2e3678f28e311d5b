-- ===== src/SessionRegistry/Release.antt =====
-- scripts/runtime_host/session_registry.py: the resources of a session are closed exactly when
-- its last handle goes.
use cognitive_frame_works.Prelude.{
  ℕ, zero, suc, ◌+◌, String, Option, none, some, List, [], ◌∷◌, ◌++◌, true, not, ◌&&◌, ◌||◌, ◌≡◌,
  refl, sym, subst, arith, eq_iff, inl, inr, Bool-cases, eqb, ◌==◌, if◌then◌else◌,
}
use cognitive_frame_works.Prelude.Dict.{Dict, get, remove}
use cognitive_frame_works.Prelude.Sorted.{Distinct}
use cognitive_frame_works.Prelude.Removal.{remove_absent}
use cognitive_frame_works.SessionRegistry.Handles.{
  Entry, Registry, holds, drop_entry, drop_token, expired, drop_tokens, expire, evict,
}
use cognitive_frame_works.SessionRegistry.Eviction.{drop_token-IsSmaller, evict_turn}

-- How often a session occurs in the log.
unfoldable pub count : ℕ → List ℕ → ℕ
count s [] = 0
count s (x ∷ xs) = (if eqb x s then 1 else 0) + count s xs

pub count-snoc :
    (s x : ℕ) (xs : List ℕ) → count s (xs ++ x ∷ []) ≡ count s xs + (if eqb x s then 1 else 0)
unfolding count
count-snoc s x [] = omega arith
count-snoc s x (y ∷ xs) = omega (arith, count-snoc s x xs)

-- One if the session has lost its last entry, else nothing.
abbrev pub released : ℕ → Dict Entry → Dict Entry → ℕ
released s d d' = if holds s d && not (holds s d') then 1 else 0

-- From `r` to `r'` no entry of the session came, and its resources were closed once if its last
-- entry went, and else not.
pub record IsReleased (s : ℕ) (r r' : Registry) : Type 0 where
  pub no_new_entry : holds s r'.entries ≡ true → holds s r.entries ≡ true
  pub closed_once : count s r'.closed ≡ count s r.closed + released s r.entries r'.entries

pub IsReleased-refl : (s : ℕ) (r : Registry) → IsReleased s r r
IsReleased-refl s r = record { no_new_entry = λ h. h; closed_once = ground arith }

pub IsReleased-trans :
    (s : ℕ) (a b c : Registry) → IsReleased s a b → IsReleased s b c → IsReleased s a c
IsReleased-trans s a b c p q = record {
  no_new_entry = λ h. p.no_new_entry (q.no_new_entry h);
  closed_once = ground (arith, p.closed_once, q.closed_once, p.no_new_entry, q.no_new_entry);
}

-- The session of a dropped entry is held by it or by the others.
pub holds-remove :
    (s : ℕ) (d : Dict Entry) (t : String) (e : Entry)
    → Distinct d
    → get d t ≡ some e
    → holds s d ≡ (eqb e.session s || holds s (remove d t))
unfolding holds get remove
holds-remove s [] t e u h = cc
holds-remove s ((k, x) ∷ d) t e u h = elim (Bool-cases (k == t)) [
  | inl same ↦
      let rest = remove_absent d t (ground (arith, u.0, eq_iff k t, same)) in
      ground (arith, h, same, rest)
  | inr other ↦ ground (arith, other, h, holds-remove s d t e u.1 (ground (arith, other, h)))
]

drop_entry-IsReleased :
    (s : ℕ) (o : Option Entry) (t : String) (r : Registry)
    → Distinct r.entries
    → get r.entries t ≡ o
    → IsReleased s r (drop_entry o t r)
unfolding drop_entry
drop_entry-IsReleased s none t r u h = IsReleased-refl s r
drop_entry-IsReleased s (some e) t r u h =
    let split = holds-remove s r.entries t e u h in
    let at_entry : eqb e.session s ≡ true → e.session ≡ s = λ same. ground (arith, same) in
    record {
      no_new_entry = λ held. ground (arith, split, held);
      closed_once = ground (
        arith,
        split,
        holds-remove e.session r.entries t e u h,
        count-snoc s e.session r.closed,
        at_entry,
      );
    }

pub drop_token-IsReleased :
    (s : ℕ) (t : String) (r : Registry) → Distinct r.entries → IsReleased s r (drop_token t r)
unfolding drop_token
drop_token-IsReleased s t r u = drop_entry-IsReleased s (get r.entries t) t r u refl

drop_tokens-IsReleased :
    (s : ℕ) (ts : List String) (r : Registry)
    → Distinct r.entries
    → IsReleased s r (drop_tokens ts r)
unfolding drop_tokens
drop_tokens-IsReleased s [] r u = IsReleased-refl s r
drop_tokens-IsReleased s (t ∷ ts) r u =
    IsReleased-trans s r (drop_token t r) (drop_tokens ts (drop_token t r))
      (drop_token-IsReleased s t r u)
      (drop_tokens-IsReleased s ts (drop_token t r) ((drop_token-IsSmaller t r).keeps_distinct u))

pub expire-IsReleased :
    (s now : ℕ) (r : Registry) → Distinct r.entries → IsReleased s r (expire now r)
unfolding expire
expire-IsReleased s now r u = drop_tokens-IsReleased s (expired now r.entries) r u

pub evict-IsReleased :
    (s n : ℕ) (token : String) (r : Registry)
    → Distinct r.entries
    → IsReleased s r (evict n token r).1
unfolding evict
evict-IsReleased s zero token r u = IsReleased-refl s r
evict-IsReleased s (suc n) token r u = elim (evict_turn n token r) [
  | inl (stop, _) ↦ subst (λ x. IsReleased s r x.1) (sym stop) (IsReleased-refl s r)
  | inr (t, e, d, _, _, turn) ↦
      let keeps = (drop_token-IsSmaller t r).keeps_distinct u in
      subst (λ x. IsReleased s r x.1) (sym turn)
        (IsReleased-trans s r (drop_token t r) (evict n t (drop_token t r)).1
          (drop_token-IsReleased s t r u) (evict-IsReleased s n t (drop_token t r) keeps))
]
