-- ===== src/SessionRegistry/Examples.antt =====
-- The theorems about scripts/runtime_host/session_registry.py at concrete inputs.
use cognitive_frame_works.Prelude.{
  ℕ, String, none, some, List, [], ◌∷◌, ◌++◌, ◌≡◌, ◌↔◌, refl, arith,
}
use cognitive_frame_works.Prelude.Result.{Result, ok}
use cognitive_frame_works.Prelude.Dict.{get, put}
use cognitive_frame_works.SessionRegistry.Owner.{
  SessionView, owner_value, execution_value, owner_identity,
}
use cognitive_frame_works.SessionRegistry.Handles.{
  Entry, Registry, Call, new_registry, expired, drop_tokens, expire, evict, store_entry,
  register_owned, register, resolve, step, run, register_call, resolve_call, close_call,
  close_all_call, size_call,
}
use cognitive_frame_works.SessionRegistry.Bounds.{IsBounded, run-IsBounded}
use cognitive_frame_works.SessionRegistry.Release.{IsReleased}
use cognitive_frame_works.SessionRegistry.ReleaseCalls.{IsElsewhere, step-IsReleased}
use cognitive_frame_works.SessionRegistry.Resolution.{
  IsLive, resolve-ok_iff, resolve-register, full_registry_reuses_handle,
}

-- Sessions with an execution identity whose storage key is a text.
abbrev view : ℕ → SessionView String
view s = record {
  execution_identity =
      some (record { storage_key = some "workflow"; to_dict = none; execution = "e" });
  session_id = "s";
  agent_instance_id = "a";
  attempt_id = "1";
  task_id = "t";
}

abbrev owner : ℕ → Result String
owner s = owner_identity (λ fields. "{}") some (λ text. text) (view s)

abbrev entry_of : String → ℕ → ℕ → Entry
entry_of t s expires_at = record {
  token = t;
  session = s;
  owner_identity = "workflow";
  expires_at = expires_at;
}

-- One handle, of session 7, in a registry with room for one.
abbrev full_registry : Registry
full_registry = record {
  max_sessions = 1;
  ttl_seconds = 60;
  entries = ("old", entry_of "old" 7 100) ∷ [];
  closed = [];
}

-- Two handles of session 7.
abbrev shared_registry : Registry
shared_registry = record {
  max_sessions = 4;
  ttl_seconds = 60;
  entries = ("a", entry_of "a" 7 100) ∷ ("b", entry_of "b" 7 200) ∷ [];
  closed = [];
}

abbrev calls : List Call
calls =
    register_call owner "a" 0 0 7
    ∷ register_call owner "b" 1 1 8
    ∷ resolve_call owner 2 2 "b"
    ∷ close_call "b"
    ∷ size_call 9
    ∷ close_all_call
    ∷ []

new_registry_test :
    new_registry 1 60
    ≡ ok (record { max_sessions = 1; ttl_seconds = 60; entries = []; closed = [] })
unfolding new_registry
new_registry_test = refl

owner_test : owner 7 ≡ ok "workflow"
unfolding owner_identity owner_value execution_value
owner_test = refl

run-IsBounded_example :
    IsBounded (run calls (record { max_sessions = 1; ttl_seconds = 60; entries = []; closed = [] }))
run-IsBounded_example = run-IsBounded 1 60 calls new_registry_test

shared_registry-IsBounded : IsBounded shared_registry
unfolding get
shared_registry-IsBounded = record {
  has_room = omega arith;
  is_distinct = (refl, (refl, tt));
  is_within = omega arith;
}

resolve-IsElsewhere : IsElsewhere 7 shared_registry (resolve_call owner 150 150 "b")
unfolding IsElsewhere
resolve-IsElsewhere = tt

step-IsReleased_example :
    IsReleased 7 shared_registry (step (resolve_call owner 150 150 "b") shared_registry)
step-IsReleased_example =
    step-IsReleased 7 (resolve_call owner 150 150 "b") shared_registry shared_registry-IsBounded
      resolve-IsElsewhere

resolve-ok_iff_example :
    ((resolve owner 150 150 "b" shared_registry).0 ≡ ok 7)
    ↔ ((e : Entry) × IsLive owner 150 "b" 7 shared_registry e)
resolve-ok_iff_example =
    resolve-ok_iff owner 150 150 "b" shared_registry 7 shared_registry-IsBounded.is_distinct

register_test : register owner "c" 5 6 9 shared_registry ≡ (
  ok "c",
  record shared_registry { entries = shared_registry.entries ++ ("c", entry_of "c" 9 66) ∷ [] },
)
unfolding register register_owned owner_identity owner_value execution_value expire expired
    drop_tokens evict store_entry put
register_test = refl

resolve-register_example :
    (resolve owner 20 21 "c" (record shared_registry {
      entries = shared_registry.entries ++ ("c", entry_of "c" 9 66) ∷ [];
    })).0
    ≡ ok 9
resolve-register_example =
    resolve-register owner owner "c" 5 6 20 21 9 shared_registry
      shared_registry-IsBounded.is_distinct register_test refl (omega arith)

expire_test : (expire 5 full_registry).entries ≡ full_registry.entries
unfolding expire expired drop_tokens
expire_test = refl

full_registry_reuses_handle_example :
    ((register owner "new" 5 6 9 full_registry).0 ≡ ok "old")
    × ((resolve owner 20 21 "old" (register owner "new" 5 6 9 full_registry).1).0 ≡ ok 9)
unfolding get
full_registry_reuses_handle_example =
    full_registry_reuses_handle owner owner "new" 5 6 20 21 9 full_registry {o = "workflow"}
      {t = "old"} {e = entry_of "old" 7 100} {d = []} (refl, tt) expire_test refl owner_test
      owner_test (omega arith)
