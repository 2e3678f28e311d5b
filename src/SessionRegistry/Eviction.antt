-- ===== src/SessionRegistry/Eviction.antt =====
-- scripts/runtime_host/session_registry.py: dropping handles, and the loop of `register` that makes
-- room for a session.
use cognitive_frame_works.Prelude.{
  leb→le, List-cases, ◌⊎◌, ℕ, zero, suc, ◌≤◌, ◌<◌, String, Option, none, some, List, [], ◌∷◌, ◌≡◌,
  refl, sym, subst, ap, ◌∙◌, arith, eq_refl, inl, inr, Bool-cases, leb, length,
}
use cognitive_frame_works.Prelude.Dict.{Dict, get, remove}
use cognitive_frame_works.Prelude.Sorted.{Distinct}
use cognitive_frame_works.Prelude.Removal.{remove-Distinct, length-remove-le}
use cognitive_frame_works.SessionRegistry.Handles.{
  Entry, Registry, drop_entry, drop_token, expired, drop_tokens, expire, evict,
}
use cognitive_frame_works.SessionRegistry.Entries.{drop_token-entries}

-- What dropping handles keeps.
pub record IsSmaller (r r' : Registry) : Type 0 where
  pub same_bound : r'.max_sessions ≡ r.max_sessions
  pub same_ttl : r'.ttl_seconds ≡ r.ttl_seconds
  pub keeps_distinct : Distinct r.entries → Distinct r'.entries
  pub not_longer : length r'.entries ≤ length r.entries

pub IsSmaller-refl : (r : Registry) → IsSmaller r r
IsSmaller-refl r = record {
  same_bound = refl;
  same_ttl = refl;
  keeps_distinct = λ u. u;
  not_longer = omega arith;
}

pub IsSmaller-trans : {a b c : Registry} → IsSmaller a b → IsSmaller b c → IsSmaller a c
IsSmaller-trans p q = record {
  same_bound = q.same_bound ∙ p.same_bound;
  same_ttl = q.same_ttl ∙ p.same_ttl;
  keeps_distinct = λ u. q.keeps_distinct (p.keeps_distinct u);
  not_longer = omega (arith, p.not_longer, q.not_longer);
}

drop_entry-IsSmaller :
    (o : Option Entry) (t : String) (r : Registry) → IsSmaller r (drop_entry o t r)
unfolding drop_entry
drop_entry-IsSmaller none t r = IsSmaller-refl r
drop_entry-IsSmaller (some e) t r = record {
  same_bound = refl;
  same_ttl = refl;
  keeps_distinct = λ u. remove-Distinct r.entries t u;
  not_longer = length-remove-le r.entries t;
}

pub drop_token-IsSmaller : (t : String) (r : Registry) → IsSmaller r (drop_token t r)
unfolding drop_token
drop_token-IsSmaller t r = drop_entry-IsSmaller (get r.entries t) t r

drop_tokens-IsSmaller : (ts : List String) (r : Registry) → IsSmaller r (drop_tokens ts r)
unfolding drop_tokens
drop_tokens-IsSmaller [] r = IsSmaller-refl r
drop_tokens-IsSmaller (t ∷ ts) r =
    IsSmaller-trans (drop_token-IsSmaller t r) (drop_tokens-IsSmaller ts (drop_token t r))

pub expire-IsSmaller : (now : ℕ) (r : Registry) → IsSmaller r (expire now r)
unfolding expire
expire-IsSmaller now r = drop_tokens-IsSmaller (expired now r.entries) r

-- The loop leaves the registry as it is, or drops the oldest handle and goes on with its token.
pub evict_turn :
    (n : ℕ) (token : String) (r : Registry)
    → (evict (suc n) token r ≡ (token, r) × (r.max_sessions ≤ length r.entries → r.entries ≡ []))
      ⊎ ((t : String) × (e : Entry) × (d : Dict Entry) × (r.entries ≡ (t, e) ∷ d)
          × (r.max_sessions ≤ length r.entries)
          × (evict (suc n) token r ≡ evict n t (drop_token t r)))
unfolding evict
evict_turn n token r = elim (Bool-cases (leb r.max_sessions (length r.entries))) [
  | inl full ↦ elim (List-cases r.entries) [
    | inl e ↦ inl (simp e (ground arith), λ h. e)
    | inr (x, d, e) ↦
        inr (x.0, x.1, d, e, leb→le r.max_sessions (length r.entries) full, rw full (simp e))
  ]
  | inr room ↦ inl (rw room, λ h. ground (arith, room, h))
]

pub evict-IsSmaller : (n : ℕ) (token : String) (r : Registry) → IsSmaller r (evict n token r).1
unfolding evict
evict-IsSmaller zero token r = IsSmaller-refl r
evict-IsSmaller (suc n) token r = elim (evict_turn n token r) [
  | inl (stop, _) ↦ subst (λ x. IsSmaller r x.1) (sym stop) (IsSmaller-refl r)
  | inr (t, e, d, _, _, turn) ↦
      subst (λ x. IsSmaller r x.1) (sym turn)
        (IsSmaller-trans (drop_token-IsSmaller t r) (evict-IsSmaller n t (drop_token t r)))
]

-- A turn of the loop drops an entry.
pub drop_oldest_shorter :
    (t : String) (e : Entry) (d : Dict Entry) (r : Registry)
    → r.entries ≡ (t, e) ∷ d
    → length (drop_token t r).entries ≤ length d
unfolding remove
drop_oldest_shorter t e d r h = rw (drop_token-entries t r, h, eq_refl t) (length-remove-le d t)

-- As many turns as there are entries make room for one more.
pub evict_makes_room :
    (n : ℕ) (token : String) (r : Registry)
    → 1 ≤ r.max_sessions
    → length r.entries ≤ n
    → length (evict n token r).1.entries < r.max_sessions
unfolding evict
evict_makes_room zero token r pos fuel = omega (arith, pos, fuel)
evict_makes_room (suc n) token r pos fuel = elim (evict_turn n token r) [
  | inl (stop, room) ↦ rw stop (go r.entries room)
  | inr (t, e, d, h, _, turn) ↦
      let shorter = drop_oldest_shorter t e d r h in
      let same = (drop_token-IsSmaller t r).same_bound in
      let rest =
        evict_makes_room n t (drop_token t r) (omega (arith, same, pos))
          (omega (arith, shorter, ap length h, fuel)) in
      rw turn (omega (arith, rest, same))
]
  where
    go : (d : Dict Entry) → (r.max_sessions ≤ length d → d ≡ []) → length d < r.max_sessions
    go [] f = omega (arith, pos)
    go (x ∷ d) f = elim (Bool-cases (leb r.max_sessions (suc (length d)))) [
      | inl full ↦
          absurd (omega (arith, ap length (f (leb→le r.max_sessions (suc (length d)) full))))
      | inr room ↦ ground (arith, room)
    ]
