-- ===== src/SessionRegistry/Handles.antt =====
-- scripts/runtime_host/session_registry.py: `HostSessionRegistry`. A session object is named by
-- its identity, a number; `closed` logs the sessions whose resources were closed, in order. Each
-- reading of the clock is an argument, in ticks, as are the fresh token that `register` draws and
-- `owner`, which says what `_owner_identity` answers for each session at the time of the call.
use cognitive_frame_works.Prelude.{
  ℕ, zero, suc, ◌+◌, String, Option, none, some, List, [], ◌∷◌, ◌++◌, Bool, false, ◌&&◌, ◌||◌,
  length, leb, eqb, ◌==◌, if◌then◌else◌,
}
use cognitive_frame_works.Prelude.Result.{Result, err, ok, value_error, runtime_error, guard, ◌>>◌}
use cognitive_frame_works.Prelude.Dict.{Dict, get, put, remove}

-- `_RegisteredSession`
pub record Entry : Type 0 where
  pub token : String
  pub session : ℕ
  pub owner_identity : String
  pub expires_at : ℕ

pub record Registry : Type 0 where
  pub max_sessions : ℕ
  pub ttl_seconds : ℕ
  pub entries : Dict Entry
  pub closed : List ℕ

-- `__init__`, with a whole number of seconds.
unfoldable pub new_registry : ℕ → ℕ → Result Registry
new_registry max_sessions ttl_seconds = do
  guard (leb 1 max_sessions && leb max_sessions 16384) value_error
  guard (leb 60 ttl_seconds && leb ttl_seconds 604800) value_error
  ok (record { max_sessions = max_sessions; ttl_seconds = ttl_seconds; entries = []; closed = [] })

-- Some entry is of the session.
unfoldable pub holds : ℕ → Dict Entry → Bool
holds s [] = false
holds s ((t, e) ∷ d) = eqb e.session s || holds s d

unfoldable pub drop_entry : Option Entry → String → Registry → Registry
drop_entry none t r = r
drop_entry (some e) t r = record r {
  entries = remove r.entries t;
  closed = if holds e.session (remove r.entries t) then r.closed else r.closed ++ e.session ∷ [];
}

-- `_drop_locked`
unfoldable pub drop_token : String → Registry → Registry
drop_token t r = drop_entry (get r.entries t) t r

unfoldable pub expired : ℕ → Dict Entry → List String
expired now [] = []
expired now ((t, e) ∷ d) = if leb e.expires_at now then t ∷ expired now d else expired now d

unfoldable pub drop_tokens : List String → Registry → Registry
drop_tokens [] r = r
drop_tokens (t ∷ ts) r = drop_tokens ts (drop_token t r)

-- `_expire_locked`
unfoldable pub expire : ℕ → Registry → Registry
expire now r = drop_tokens (expired now r.entries) r

-- The loop of `register` that makes room, with the value of its variable `token`; the fuel bounds
-- the turns of the loop.
unfoldable pub evict : ℕ → String → Registry → String × Registry
evict zero token r = (token, r)
evict (suc n) token r =
    if leb r.max_sessions (length r.entries)
    then elim r.entries [ [] ↦ (token, r) | (oldest, e) ∷ d ↦ evict n oldest (drop_token oldest r) ]
    else (token, r)

unfoldable pub store_entry : String × Registry → ℕ → String → ℕ → Result String × Registry
store_entry (token, r) s owner_identity later = (
  ok token,
  record r {
    entries = put r.entries token (record {
      token = token;
      session = s;
      owner_identity = owner_identity;
      expires_at = later + r.ttl_seconds;
    });
  },
)

unfoldable pub register_owned :
    Result String → String → ℕ → ℕ → ℕ → Registry → Result String × Registry
register_owned (err x) fresh now later s r = (err x, r)
register_owned (ok o) fresh now later s r =
    let live = expire now r in store_entry (evict (length live.entries) fresh live) s o later

unfoldable pub register :
    (ℕ → Result String) → String → ℕ → ℕ → ℕ → Registry → Result String × Registry
register owner fresh now later s r = register_owned (owner s) fresh now later s r

-- `move_to_end` of an entry whose expiry is put off.
unfoldable pub touch : String → Entry → ℕ → Registry → Registry
touch t e later r = record r {
  entries = put (remove r.entries t) t (record e { expires_at = later + r.ttl_seconds });
}

unfoldable pub resolve_owned : Result String → ℕ → String → Entry → Registry → Result ℕ × Registry
resolve_owned (err x) later t e r = (err x, r)
resolve_owned (ok o) later t e r =
    if o == e.owner_identity
    then (ok e.session, touch t e later r)
    else (err runtime_error, drop_token t r)

unfoldable pub resolve_entry :
    (ℕ → Result String) → ℕ → String → Option Entry → Registry → Result ℕ × Registry
resolve_entry owner later t none r = (err runtime_error, r)
resolve_entry owner later t (some e) r = resolve_owned (owner e.session) later t e r

unfoldable pub resolve : (ℕ → Result String) → ℕ → ℕ → String → Registry → Result ℕ × Registry
resolve owner now later t r =
    let live = expire now r in resolve_entry owner later t (get live.entries t) live

unfoldable pub close : String → Registry → Registry
close t r = drop_token t r

unfoldable pub is_seen : ℕ → List ℕ → Bool
is_seen s [] = false
is_seen s (x ∷ xs) = eqb x s || is_seen s xs

-- The sessions of the entries, each once, in the order of their first entries; `seen` are those
-- closed already.
unfoldable pub close_sessions : Dict Entry → List ℕ → List ℕ → List ℕ
close_sessions [] seen log = log
close_sessions ((t, e) ∷ d) seen log =
    if is_seen e.session seen
    then close_sessions d seen log
    else close_sessions d (e.session ∷ seen) (log ++ e.session ∷ [])

unfoldable pub close_all : Registry → Registry
close_all r = record r { entries = []; closed = close_sessions r.entries [] r.closed }

-- `__len__`
unfoldable pub size : ℕ → Registry → ℕ × Registry
size now r = let live = expire now r in (length live.entries, live)

-- A call of one of the registry's methods.
pub data Call : Type 0 where
  register_call : (ℕ → Result String) → String → ℕ → ℕ → ℕ → Call
  resolve_call : (ℕ → Result String) → ℕ → ℕ → String → Call
  close_call : String → Call
  close_all_call : Call
  size_call : ℕ → Call

-- The registry that a call leaves, whether it returns or raises.
unfoldable pub step : Call → Registry → Registry
step (register_call owner fresh now later s) r = (register owner fresh now later s r).1
step (resolve_call owner now later t) r = (resolve owner now later t r).1
step (close_call t) r = close t r
step close_all_call r = close_all r
step (size_call now) r = (size now r).1

unfoldable pub run : List Call → Registry → Registry
run [] r = r
run (c ∷ cs) r = run cs (step c r)
