-- ===== src/ScopeProcess/Published.antt =====
-- What the subscribers of a scope's topic are told agrees with the state of its process.
use unity_scopes_api.Prelude.{
  ◌≡◌, ◌≢◌, refl, true, false, List, [], ◌∷◌, Option, none, some, Text, arith, if_cases, ◌&&◌, ◌||◌,
  false,
}
use unity_scopes_api.Prelude.Int.{ℤ, pos, ltb_ℤ}
use unity_scopes_api.ScopeProcess.{
  ProcessState, stopped, starting, running, stopping, Message, started_message, ScopeProcess,
  ScopeExecData, new_process, same_state, enter, update_state, clear_handle, on_process_death,
  Event, ready, stops, dies, launches, observes, clears, missed, launch_handle, launch_elsewhere,
  wait_for, looks, handle, Waited, reached, timed_out, blocked, wait_for_state, Outcome, done,
  threw, waits_forever, KillEnv, after_term, kill, command, expand_custom_exec, ExecEnv,
  after_start, with_handle, run_command, start_process, start_after_kill, after_stopping, exec,
  Operation, event, execs, kills, perform, run,
}
use unity_scopes_api.ScopeProcess.Kill.{wait_for_state-reached, kill-stopped}

abbrev pub last : List Message → Option Message
last [] = none
last (m ∷ ms) = some m

-- The last message for each state.
abbrev pub Announces : ProcessState → Option Message → Type 0
Announces running m = m ≡ some started_message
Announces stopping m = Unit {0}
Announces stopped m = m ≢ some started_message
Announces starting m = m ≢ some started_message

pub record IsAnnounced (p : ScopeProcess) : Type 0 where
  pub publisher : p.publisher ≡ true
  pub announces : Announces p.state (last p.messages)

enter-IsAnnounced :
    (s : ProcessState) (p : ScopeProcess) → s ≢ starting → IsAnnounced p → IsAnnounced (enter s p)
unfolding enter
enter-IsAnnounced stopped p h v = ground arith
enter-IsAnnounced starting p h v = absurd (h refl)
enter-IsAnnounced running p h v = ground arith
enter-IsAnnounced stopping p h v = ground arith

update_state-IsAnnounced :
    (s : ProcessState) (p : ScopeProcess)
    → s ≢ starting
    → IsAnnounced p
    → IsAnnounced (update_state s p)
unfolding update_state
update_state-IsAnnounced s p h v =
    if_cases IsAnnounced (same_state s p.state) p (enter s p) (λ e. v)
      (λ e. enter-IsAnnounced s p h v)

clear_handle-IsAnnounced : (p : ScopeProcess) → IsAnnounced p → IsAnnounced (clear_handle p)
unfolding clear_handle
clear_handle-IsAnnounced p v =
    update_state-IsAnnounced stopped (record p { pid = p.no_process }) (λ e. cc)
      (record { publisher = v.publisher; announces = v.announces })

-- exec starts only what is neither running nor stopping.
abbrev IsStartable : ProcessState → Type 0
IsStartable s = (s ≢ running) × (s ≢ stopping)

starting-IsAnnounced :
    (p : ScopeProcess) → IsStartable p.state → IsAnnounced p → IsAnnounced (update_state starting p)
unfolding update_state enter
starting-IsAnnounced p h v = record {
  publisher = ground (arith, v.publisher);
  announces = ground (arith, h.0, h.1, v.announces);
}

not-IsStartable :
    (s : ProcessState)
    → same_state s running ≡ false
    → same_state s stopping ≡ false
    → IsStartable s
not-IsStartable s h k = (λ e. ground arith, λ e. ground arith)

launch_handle-IsAnnounced :
    (h : Option ℤ) (p : ScopeProcess) → IsAnnounced p → IsAnnounced (launch_handle h p)
launch_handle-IsAnnounced none p v = v
launch_handle-IsAnnounced (some pid) p v =
    let q : ScopeProcess = record p { pid = pid } in
    let w : IsAnnounced q = record { publisher = v.publisher; announces = v.announces } in
    if_cases IsAnnounced (ltb_ℤ (pos 0) pid) q (clear_handle q) (λ _. w)
      (λ _. clear_handle-IsAnnounced q w)

launch-IsAnnounced :
    (h : Option ℤ) (p : ScopeProcess) → IsAnnounced p → IsAnnounced (launch_elsewhere h p)
unfolding launch_elsewhere
launch-IsAnnounced h p v =
    if_cases IsAnnounced (same_state p.state running || same_state p.state stopping) p
      (launch_handle h (update_state starting p)) (λ _. v)
      λ idle. launch_handle-IsAnnounced h (update_state starting p) (
        starting-IsAnnounced p
          (not-IsStartable p.state (ground (arith, idle)) (ground (arith, idle))) v)

handle-IsAnnounced : (e : Event) (p : ScopeProcess) → IsAnnounced p → IsAnnounced (handle e p)
unfolding on_process_death
handle-IsAnnounced ready p v = update_state-IsAnnounced running p (λ e. cc) v
handle-IsAnnounced stops p v = update_state-IsAnnounced stopping p (λ e. cc) v
handle-IsAnnounced (dies pid) p v = ground (arith, clear_handle-IsAnnounced p v)
handle-IsAnnounced (launches h) p v = launch-IsAnnounced h p v
handle-IsAnnounced observes p v = record { publisher = v.publisher; announces = v.announces }
handle-IsAnnounced clears p v = clear_handle-IsAnnounced p v
handle-IsAnnounced (missed e) p v = handle-IsAnnounced e p v

wait_for-IsAnnounced :
    (s : ProcessState) (es : List Event) (p : ScopeProcess)
    → IsAnnounced p
    → IsAnnounced (wait_for s es p).0
unfolding wait_for
wait_for-IsAnnounced s [] p v = ground arith
wait_for-IsAnnounced s (e ∷ es) p v =
    if_cases (λ w. IsAnnounced w.0) (looks e && same_state p.state s) (p, reached)
      (wait_for s es (handle e p)) (λ _. v)
      (λ _. wait_for-IsAnnounced s es (handle e p) (handle-IsAnnounced e p v))

wait_for_state-IsAnnounced :
    (s : ProcessState) (es : List Event) (p : ScopeProcess)
    → IsAnnounced p
    → IsAnnounced (wait_for_state s es p).0
unfolding wait_for_state
wait_for_state-IsAnnounced s es p v =
    if_cases (λ w. IsAnnounced w.0) (same_state p.state s) (p, reached) (wait_for s es p) (λ _. v)
      (λ _. wait_for-IsAnnounced s es p v)

after_term-IsAnnounced :
    (w : ScopeProcess × Waited) → IsAnnounced w.0 → IsAnnounced (after_term w).0
unfolding after_term
after_term-IsAnnounced (p, blocked) v = v
after_term-IsAnnounced (p, reached) v = clear_handle-IsAnnounced p v
after_term-IsAnnounced (p, timed_out) v = clear_handle-IsAnnounced p v

kill-IsAnnounced : (env : KillEnv) (p : ScopeProcess) → IsAnnounced p → IsAnnounced (kill env p).0
unfolding kill
kill-IsAnnounced env p v = ground (
  arith,
  clear_handle-IsAnnounced p v,
  after_term-IsAnnounced (wait_for_state stopped env.events p)
      (wait_for_state-IsAnnounced stopped env.events p v),
)

after_start-IsAnnounced :
    (env : ExecEnv) (w : ScopeProcess × Waited)
    → IsAnnounced w.0
    → IsAnnounced (after_start env w).0
unfolding after_start
after_start-IsAnnounced env (p, blocked) v = v
after_start-IsAnnounced env (p, reached) v = record {
  publisher = v.publisher;
  announces = v.announces;
}
after_start-IsAnnounced env (p, timed_out) v =
    ground (arith, kill-IsAnnounced env.kill_starting p v)

with_handle-IsAnnounced :
    (env : ExecEnv) (h : Option ℤ) (p : ScopeProcess)
    → IsAnnounced p
    → IsAnnounced (with_handle env h p).0
unfolding with_handle
with_handle-IsAnnounced env none p v = v
with_handle-IsAnnounced env (some pid) p v =
    let q : ScopeProcess = record p { pid = pid } in
    let w : IsAnnounced q = record { publisher = v.publisher; announces = v.announces } in
    let waited = wait_for_state running env.while_starting q in
    if_cases (λ r. IsAnnounced r.0) (ltb_ℤ (pos 0) pid) (after_start env waited)
      (clear_handle q, threw)
      (λ _.
        after_start-IsAnnounced env waited
          (wait_for_state-IsAnnounced running env.while_starting q w))
      (λ _. clear_handle-IsAnnounced q w)

run_command-IsAnnounced :
    (env : ExecEnv) (args : Option (List Text)) (p : ScopeProcess)
    → IsAnnounced p
    → IsAnnounced (run_command env args p).0
unfolding run_command
run_command-IsAnnounced env none p v = v
run_command-IsAnnounced env (some args) p v =
    if_cases (λ (r : ScopeProcess × Outcome). IsAnnounced r.0) env.config_found _ (p, threw)
      (λ _. with_handle-IsAnnounced env (env.launch line.0 line.1) p v) (λ _. v)
  where
    line : Text × List Text
    line = command p.exec_data args

start_process-IsAnnounced :
    (env : ExecEnv) (p : ScopeProcess)
    → IsStartable p.state
    → IsAnnounced p
    → IsAnnounced (start_process env p).0
unfolding start_process
start_process-IsAnnounced env p h v =
    run_command-IsAnnounced env (expand_custom_exec env.words p.exec_data) (update_state starting p)
      (starting-IsAnnounced p h v)

stopped-IsStartable : (s : ProcessState) → s ≡ stopped → IsStartable s
stopped-IsStartable s e = (λ r. cc, λ r. cc)

start_after_kill-IsAnnounced :
    (env : ExecEnv) (w : ScopeProcess × Outcome)
    → (w.1 ≢ waits_forever → w.0.state ≡ stopped)
    → IsAnnounced w.0
    → IsAnnounced (start_after_kill env w).0
unfolding start_after_kill
start_after_kill-IsAnnounced env (p, waits_forever) h v = v
start_after_kill-IsAnnounced env (p, done) h v =
    start_process-IsAnnounced env p (stopped-IsStartable p.state (h (λ e. cc))) v
start_after_kill-IsAnnounced env (p, threw) h v =
    start_process-IsAnnounced env p (stopped-IsStartable p.state (h (λ e. cc))) v

after_stopping-IsAnnounced :
    (env : ExecEnv) (w : ScopeProcess × Waited)
    → (w.1 ≡ reached → w.0.state ≡ stopped)
    → IsAnnounced w.0
    → IsAnnounced (after_stopping env w).0
unfolding after_stopping
after_stopping-IsAnnounced env (p, blocked) h v = v
after_stopping-IsAnnounced env (p, reached) h v =
    start_process-IsAnnounced env p (stopped-IsStartable p.state (h refl)) v
after_stopping-IsAnnounced env (p, timed_out) h v =
    start_after_kill-IsAnnounced env (kill env.kill_stopping p)
      (λ e. (kill-stopped env.kill_stopping p e).0) (kill-IsAnnounced env.kill_stopping p v)

exec-IsAnnounced : (env : ExecEnv) (p : ScopeProcess) → IsAnnounced p → IsAnnounced (exec env p).0
unfolding exec
exec-IsAnnounced env p v =
    if_cases (λ (r : ScopeProcess × Outcome). IsAnnounced r.0) (same_state p.state running)
      (p, done) _ (λ _. v)
      λ other.
        if_cases (λ (r : ScopeProcess × Outcome). IsAnnounced r.0) (same_state p.state stopping) _ _
          (λ _.
            after_stopping-IsAnnounced env (wait_for_state stopped env.while_stopping p)
              (wait_for_state-reached stopped env.while_stopping p)
              (wait_for_state-IsAnnounced stopped env.while_stopping p v))
          (λ idle. start_process-IsAnnounced env p (not-IsStartable p.state other idle) v)

perform-IsAnnounced : (o : Operation) (p : ScopeProcess) → IsAnnounced p → IsAnnounced (perform o p)
perform-IsAnnounced (event e) p v = handle-IsAnnounced e p v
perform-IsAnnounced (execs env) p v = exec-IsAnnounced env p v
perform-IsAnnounced (kills env) p v = kill-IsAnnounced env p v

run-IsAnnounced_from :
    (os : List Operation) (p : ScopeProcess) → IsAnnounced p → IsAnnounced (run os p)
unfolding run
run-IsAnnounced_from [] p v = v
run-IsAnnounced_from (o ∷ os) p v =
    run-IsAnnounced_from os (perform o p) (perform-IsAnnounced o p v)

-- While the registry's publisher is there, and after any sequence of messages from the scope, deaths,
-- exec and kill, whatever the environment answers: a running process was announced last as started,
-- and for one that is stopped or starting the last message, if there is one, is that it stopped.
pub run-IsAnnounced :
    (os : List Operation) (d : ScopeExecData) (no_process : ℤ)
    → IsAnnounced (run os (new_process d no_process true))
unfolding new_process
run-IsAnnounced os d no_process =
    run-IsAnnounced_from os (new_process d no_process true)
      (record { publisher = refl; announces = λ e. cc })
