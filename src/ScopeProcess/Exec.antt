-- ===== src/ScopeProcess/Exec.antt =====
-- How exec ends.
use unity_scopes_api.Prelude.{
  ◌≡◌, ◌⊎◌, inl, inr, refl, Bool, false, List, [], ◌∷◌, Option, none, some, Text, ◌&&◌, is_some,
  subst, Bool-cases, if_cases, sym, ◌∙◌, arith,
}
use unity_scopes_api.Prelude.Int.{ℤ, pos, negsuc, ltb_ℤ}
use unity_scopes_api.ScopeProcess.{
  ProcessState, stopped, starting, running, stopping, ScopeProcess, ScopeExecData, same_state,
  enter, update_state, Event, handle, looks, wait_for, Waited, reached, timed_out, blocked,
  wait_for_state, Outcome, done, threw, waits_forever, KillEnv, after_term, kill, command,
  expand_custom_exec, ExecEnv, after_start, with_handle, run_command, start_process,
  start_after_kill, after_stopping, exec,
}
use unity_scopes_api.ScopeProcess.Kill.{
  same_state_sound, clear_handle-stopped, wait_for_state-reached, kill-stopped,
  update_state-exec_data, handle-exec_data_timeout, wait_for_state-exec_data, kill-exec_data,
}

abbrev gives_handle : ExecEnv → Option (List Text) → ScopeExecData → Bool
gives_handle env none d = false
gives_handle env (some args) d =
    env.config_found && is_some (env.launch (command d args).0 (command d args).1)

abbrev pub can_launch : ExecEnv → ScopeExecData → Bool
can_launch env d = gives_handle env (expand_custom_exec env.words d) d

-- What exec promises of its outcome.
abbrev pub Ends : ExecEnv → ScopeExecData → ScopeProcess × Outcome → Type 0
Ends env d (q, done) = q.state ≡ running
Ends env d (q, threw) = (q.state ≡ stopped) ⊎ ((q.state ≡ starting) × (can_launch env d ≡ false))
Ends env d (q, waits_forever) = d.timeout_ms ≡ negsuc 0

wait_for-blocked :
    (s : ProcessState) (es : List Event) (p : ScopeProcess)
    → (wait_for s es p).1 ≡ blocked
    → p.exec_data.timeout_ms ≡ negsuc 0
unfolding wait_for
wait_for-blocked s [] p h = ground arith
wait_for-blocked s (e ∷ es) p h =
    if_cases (λ w. w.1 ≡ blocked → p.exec_data.timeout_ms ≡ negsuc 0)
      (looks e && same_state p.state s) (p, reached) (wait_for s es (handle e p)) (λ _ k. cc)
      (λ _ k. sym (handle-exec_data_timeout e p) ∙ wait_for-blocked s es (handle e p) k) h

wait_for_state-blocked :
    (s : ProcessState) (es : List Event) (p : ScopeProcess)
    → (wait_for_state s es p).1 ≡ blocked
    → p.exec_data.timeout_ms ≡ negsuc 0
unfolding wait_for_state
wait_for_state-blocked s es p h = ground (arith, wait_for-blocked s es p)

after_term-blocked : (w : ScopeProcess × Waited) → (after_term w).1 ≡ waits_forever → w.1 ≡ blocked
unfolding after_term
after_term-blocked (p, blocked) h = refl
after_term-blocked (p, reached) h = cc
after_term-blocked (p, timed_out) h = cc

kill-blocked :
    (env : KillEnv) (p : ScopeProcess)
    → (kill env p).1 ≡ waits_forever
    → p.exec_data.timeout_ms ≡ negsuc 0
unfolding kill
kill-blocked env p h = ground (
  arith,
  after_term-blocked (wait_for_state stopped env.events p),
  wait_for_state-blocked stopped env.events p,
)

after_start-Ends :
    (env : ExecEnv) (w : ScopeProcess × Waited)
    → (w.1 ≡ reached → w.0.state ≡ running)
    → (w.1 ≡ blocked → w.0.exec_data.timeout_ms ≡ negsuc 0)
    → Ends env w.0.exec_data (after_start env w)
unfolding after_start
after_start-Ends env (p, blocked) h k = k refl
after_start-Ends env (p, reached) h k = h refl
after_start-Ends env (p, timed_out) h k =
    ground (arith, kill-stopped env.kill_starting p, kill-blocked env.kill_starting p)

with_handle-Ends :
    (env : ExecEnv) (pid : Option ℤ) (p : ScopeProcess)
    → p.state ≡ starting
    → (pid ≡ none → can_launch env p.exec_data ≡ false)
    → Ends env p.exec_data (with_handle env pid p)
unfolding with_handle
with_handle-Ends env none p st h = inr (st, h refl)
with_handle-Ends env (some pid) p st h = elim (Bool-cases (ltb_ℤ (pos 0) pid)) [
  | inl valid ↦
      rw (with_handle, valid)
        (subst (λ d. Ends env d (after_start env waited))
          (wait_for_state-exec_data running env.while_starting q)
          (after_start-Ends env waited (wait_for_state-reached running env.while_starting q) (λ e.
            rw (wait_for_state-exec_data running env.while_starting q)
              (wait_for_state-blocked running env.while_starting q e))))
  | inr bad ↦ rw (with_handle, bad) (inl (clear_handle-stopped q).0)
]
  where
    q : ScopeProcess
    q = record p { pid = pid }

    waited : ScopeProcess × Waited
    waited = wait_for_state running env.while_starting q

run_command-Ends :
    (env : ExecEnv) (args : Option (List Text)) (p : ScopeProcess)
    → p.state ≡ starting
    → expand_custom_exec env.words p.exec_data ≡ args
    → Ends env p.exec_data (run_command env args p)
unfolding run_command
run_command-Ends env none p st e = inr (st, rw e)
run_command-Ends env (some args) p st e =
    if_cases (Ends env p.exec_data) env.config_found (with_handle env handle_given p) (p, threw)
      (λ found. with_handle-Ends env handle_given p st (λ n. rw e (ground (arith, found, n))))
      (λ missing. inr (st, rw e (ground (arith, missing))))
  where
    line : Text × List Text
    line = command p.exec_data args

    handle_given : Option ℤ
    handle_given = env.launch line.0 line.1

enter_starting : (p : ScopeProcess) → (update_state starting p).state ≡ starting
unfolding update_state enter
enter_starting p = ground (arith, same_state_sound starting p.state)

start_process-Ends : (env : ExecEnv) (p : ScopeProcess) → Ends env p.exec_data (start_process env p)
unfolding start_process
start_process-Ends env p =
    subst (λ d. Ends env d (start_process env p)) same
      (run_command-Ends env (expand_custom_exec env.words p.exec_data) (update_state starting p)
        (enter_starting p) (rw same))
  where
    same : (update_state starting p).exec_data ≡ p.exec_data
    same = update_state-exec_data starting p

start_after_kill-Ends :
    (env : ExecEnv) (w : ScopeProcess × Outcome)
    → (w.1 ≡ waits_forever → w.0.exec_data.timeout_ms ≡ negsuc 0)
    → Ends env w.0.exec_data (start_after_kill env w)
unfolding start_after_kill
start_after_kill-Ends env (p, waits_forever) h = h refl
start_after_kill-Ends env (p, done) h = start_process-Ends env p
start_after_kill-Ends env (p, threw) h = start_process-Ends env p

after_stopping-Ends :
    (env : ExecEnv) (w : ScopeProcess × Waited)
    → (w.1 ≡ blocked → w.0.exec_data.timeout_ms ≡ negsuc 0)
    → Ends env w.0.exec_data (after_stopping env w)
unfolding after_stopping
after_stopping-Ends env (p, blocked) h = h refl
after_stopping-Ends env (p, reached) h = start_process-Ends env p
after_stopping-Ends env (p, timed_out) h =
    subst (λ d. Ends env d (start_after_kill env (kill env.kill_stopping p)))
      (kill-exec_data env.kill_stopping p)
      (start_after_kill-Ends env (kill env.kill_stopping p)
        λ e. rw (kill-exec_data env.kill_stopping p) (kill-blocked env.kill_stopping p e))

-- Whatever the executor, the signals and the file system answer, and whichever messages of the scope,
-- deaths of processes and critical sections of exec and kill of other threads come while exec waits,
-- in any order, noticed by its waits or missed: when exec returns, the process is running; when it
-- throws, the process is stopped, or it is left starting and no command line or no handle came about;
-- and it waits forever only if there is no time limit.
pub exec-Ends : (env : ExecEnv) (p : ScopeProcess) → Ends env p.exec_data (exec env p)
unfolding exec
exec-Ends env p = elim (Bool-cases (same_state p.state running)) [
  | inl yes_running ↦ rw (exec, yes_running) (same_state_sound p.state running yes_running)
  | inr not_running ↦ elim (Bool-cases (same_state p.state stopping)) [
    | inl is_stopping ↦
        rw (exec, not_running, is_stopping)
          (subst (λ d. Ends env d (after_stopping env waited)) same
            (after_stopping-Ends env waited
              λ e. rw same (wait_for_state-blocked stopped env.while_stopping p e)))
    | inr other ↦ rw (exec, not_running, other) (start_process-Ends env p)
  ]
]
  where
    waited : ScopeProcess × Waited
    waited = wait_for_state stopped env.while_stopping p

    same : waited.0.exec_data ≡ p.exec_data
    same = wait_for_state-exec_data stopped env.while_stopping p
