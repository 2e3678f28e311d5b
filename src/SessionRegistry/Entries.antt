-- ===== src/SessionRegistry/Entries.antt =====
-- scripts/runtime_host/session_registry.py: which entries are left when handles are dropped or
-- expire.
use cognitive_frame_works.Prelude.{
  ℕ, String, Option, none, some, List, [], ◌∷◌, Bool, false, ◌≡◌, refl, ◌∙◌, arith, eq_iff, leb,
  one_of, if◌then◌else◌,
}
use cognitive_frame_works.Prelude.Dict.{Dict, get, remove, get-remove}
use cognitive_frame_works.Prelude.Sorted.{Distinct}
use cognitive_frame_works.Prelude.Removal.{remove_absent}
use cognitive_frame_works.SessionRegistry.Handles.{
  Entry, Registry, drop_entry, drop_token, expired, drop_tokens, expire,
}

-- `None` for a handle that has expired.
abbrev pub unless_expired : ℕ → Option Entry → Option Entry
unless_expired now none = none
unless_expired now (some e) = if leb e.expires_at now then none else some e

abbrev pub is_expired : ℕ → Option Entry → Bool
is_expired now none = false
is_expired now (some e) = leb e.expires_at now

drop_entry-entries :
    (o : Option Entry) (t : String) (r : Registry)
    → get r.entries t ≡ o
    → (drop_entry o t r).entries ≡ remove r.entries t
unfolding drop_entry
drop_entry-entries none t r h = cc (remove_absent r.entries t h)
drop_entry-entries (some e) t r h = refl

pub drop_token-entries : (t : String) (r : Registry) → (drop_token t r).entries ≡ remove r.entries t
unfolding drop_token
drop_token-entries t r = drop_entry-entries (get r.entries t) t r refl

pub get-drop_tokens :
    (ts : List String) (r : Registry) (k : String)
    → get (drop_tokens ts r).entries k ≡ (if one_of k ts then none else get r.entries k)
unfolding drop_tokens
get-drop_tokens [] r k = refl
get-drop_tokens (t ∷ ts) r k = ground (
  arith,
  get-drop_tokens ts (drop_token t r) k,
  drop_token-entries t r,
  get-remove r.entries t k,
  eq_iff t k,
  eq_iff k t,
)

expired_absent :
    (now : ℕ) (d : Dict Entry) (k : String) → get d k ≡ none → one_of k (expired now d) ≡ false
unfolding expired get
expired_absent now [] k h = refl
expired_absent now ((t, e) ∷ d) k h =
    ground (arith, eq_iff t k, eq_iff k t, h, expired_absent now d k)

one_of-expired :
    (now : ℕ) (d : Dict Entry) (k : String)
    → Distinct d
    → one_of k (expired now d) ≡ is_expired now (get d k)
unfolding expired get
one_of-expired now [] k u = refl
one_of-expired now ((t, e) ∷ d) k u =
    ground (arith, eq_iff t k, eq_iff k t, u.0, expired_absent now d t, one_of-expired now d k u.1)

pub get-expire :
    (now : ℕ) (r : Registry) (k : String)
    → Distinct r.entries
    → get (expire now r).entries k ≡ unless_expired now (get r.entries k)
unfolding expire
get-expire now r k u =
    get-drop_tokens (expired now r.entries) r k
    ∙ go (get r.entries k) (one_of-expired now r.entries k u)
  where
    go :
        (o : Option Entry) {b : Bool}
        → b ≡ is_expired now o
        → (if b then none else o) ≡ unless_expired now o
    go none h = ground arith
    go (some e) h = ground (arith, h)
