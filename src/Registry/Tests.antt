-- ===== src/Registry/Tests.antt =====
-- Runs of the registry, and its theorems at a concrete one.
use unity_scopes_api.Prelude.{
  ℕ, ◌≡◌, refl, true, false, [], ◌∷◌, none, some, Text, text_eq, codes, ok, arith, if◌then◌else◌,
}
use unity_scopes_api.Prelude.Dict.{find, insert_new}
use unity_scopes_api.Prelude.Int.{pos, negsuc}
use unity_scopes_api.ScopeProcess.{
  stopped, ScopeExecData, new_process, ready, KillEnv, ExecEnv, exec,
}
use unity_scopes_api.Registry.{
  Registry, has_slash, Remote, returned, get_metadata, locate, is_scope_running, add_local_scope,
}
use unity_scopes_api.Registry.Paired.{IsPaired}
use unity_scopes_api.Registry.Lookup.{
  locate-running, adds, locates, calls, empty_registry, calls-IsPaired,
}

abbrev scope_a : ScopeExecData
scope_a = record {
  scope_id = codes "a";
  custom_exec = [];
  runtime_config = codes "rt.ini";
  scope_config = codes "/s/a.ini";
  scoperunner_path = codes "/bin/scoperunner";
  timeout_ms = pos 4000;
}

abbrev unwilling : KillEnv
unwilling = record { signal_sent = false; events = [] }

abbrev willing : ExecEnv
willing = record {
  while_stopping = [];
  kill_stopping = unwilling;
  words = none;
  config_found = true;
  launch = λ program args. some (pos 42);
  while_starting = ready ∷ [];
  kill_starting = unwilling;
}

-- Metadata are numbers here; the remote registry knows "a" and "b".
abbrev remote : Remote ℕ
remote = record {
  get_metadata = λ id. if text_eq id (codes "b") then some 9 else none;
  list = some ((codes "a", 8) ∷ (codes "b", 9) ∷ []);
}

abbrev start : Registry ℕ
start = empty_registry (some remote) true (negsuc 0)

abbrev with_a : Registry ℕ
with_a = record start {
  scopes = (codes "a", 1) ∷ [];
  processes =
      (
        codes "a",
        record {
          exec_data = scope_a;
          state = stopped;
          no_process = negsuc 0;
          pid = negsuc 0;
          manually_started = false;
          publisher = true;
          messages = [];
          observed = [];
        },
      )
      ∷ [];
  notices = 1;
}

add_run : add_local_scope (codes "a") 1 scope_a start ≡ ok (with_a, true)
unfolding add_local_scope has_slash find insert_new new_process
add_run = refl

with_a-IsPaired : (j : Text) → IsPaired j with_a
unfolding find
with_a-IsPaired j = record {
  scopes_map = (tt, tt);
  processes_map = (tt, tt);
  paired = ground arith;
}

start-IsPaired : (j : Text) → IsPaired j start
unfolding find
start-IsPaired j = record { scopes_map = tt; processes_map = tt; paired = refl }

remote_run : get_metadata (codes "b") with_a ≡ ok 9
unfolding get_metadata find text_eq
remote_run = refl

locate_run : (locate willing (codes "a") with_a).1 ≡ returned (ok 1)
unfolding locate find text_eq exec
locate_run = refl

locate-running_example :
    (find (codes "a") with_a.scopes ≡ some 1)
    × (is_scope_running (codes "a") (locate willing (codes "a") with_a).0 ≡ ok true)
locate-running_example = locate-running willing (codes "a") 1 with_a locate_run

calls-IsPaired_example :
    IsPaired
      (codes "a")
      (calls (adds (codes "a") 1 scope_a ∷ locates willing (codes "a") ∷ []) start)
calls-IsPaired_example =
    calls-IsPaired (some remote) true (negsuc 0)
      (adds (codes "a") 1 scope_a ∷ locates willing (codes "a") ∷ []) (codes "a")
