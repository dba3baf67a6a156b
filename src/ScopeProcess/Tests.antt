-- ===== src/ScopeProcess/Tests.antt =====
-- Runs of a scope's process, and its theorems at concrete environments.
use unity_scopes_api.Prelude.{◌≡◌, ◌⊎◌, refl, true, false, [], ◌∷◌, none, some, codes}
use unity_scopes_api.Prelude.Int.{pos, negsuc}
use unity_scopes_api.ScopeProcess.{
  stopped, running, started_message, stopped_message, ScopeProcess, ScopeExecData, new_process,
  update_state, ready, stops, dies, done, threw, KillEnv, kill, ExecEnv, exec, on_process_death,
  event, execs, kills, run,
}
use unity_scopes_api.ScopeProcess.Kill.{kill-stopped, kill-returns}
use unity_scopes_api.ScopeProcess.Exec.{Ends, exec-Ends}
use unity_scopes_api.ScopeProcess.Published.{IsAnnounced, run-IsAnnounced}

abbrev scope_a : ScopeExecData
scope_a = record {
  scope_id = codes "a";
  custom_exec = [];
  runtime_config = codes "rt.ini";
  scope_config = codes "/s/a.ini";
  scoperunner_path = codes "/bin/scoperunner";
  timeout_ms = pos 4000;
}

abbrev unwilling : KillEnv
unwilling = record { signal_sent = false; events = [] }

-- The scope reports that it is ready while exec waits.
abbrev willing : ExecEnv
willing = record {
  while_stopping = [];
  kill_stopping = unwilling;
  words = none;
  config_found = true;
  launch = λ program args. some (pos 42);
  while_starting = ready ∷ [];
  kill_starting = unwilling;
}

abbrev new_a : ScopeProcess
new_a = record {
  exec_data = scope_a;
  state = stopped;
  no_process = negsuc 0;
  pid = negsuc 0;
  manually_started = false;
  publisher = true;
  messages = [];
  observed = [];
}

abbrev running_a : ScopeProcess
running_a = record new_a {
  state = running;
  pid = pos 42;
  messages = started_message ∷ [];
  observed = pos 42 ∷ [];
}

exec_run : exec willing new_a ≡ (running_a, done)
unfolding exec
exec_run = refl

-- Nothing happens while exec waits: the process is killed, and exec throws.
exec_slow_run : (exec (record willing { while_starting = [] }) new_a).1 ≡ threw
unfolding exec
exec_slow_run = refl

death_run :
    (run (execs willing ∷ event stops ∷ event (dies (pos 42)) ∷ []) new_a).messages
    ≡ stopped_message ∷ started_message ∷ []
unfolding run exec update_state on_process_death
death_run = refl

kill-stopped_example :
    ((kill unwilling running_a).0.state ≡ stopped)
    × ((running ≡ stopped) ⊎ ((kill unwilling running_a).0.pid ≡ negsuc 0))
kill-stopped_example = kill-stopped unwilling running_a (kill-returns unwilling running_a (λ e. cc))

exec-Ends_example : Ends willing scope_a (exec willing new_a)
exec-Ends_example = exec-Ends willing new_a

run-IsAnnounced_example :
    IsAnnounced (run (execs willing ∷ kills unwilling ∷ []) (new_process scope_a (negsuc 0) true))
run-IsAnnounced_example = run-IsAnnounced (execs willing ∷ kills unwilling ∷ []) scope_a (negsuc 0)
