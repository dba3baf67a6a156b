-- ===== src/ScopeProcess/Kill.antt =====
-- How kill and the waits end.
use unity_scopes_api.Prelude.{
  ◌≡◌, ◌≢◌, ◌⊎◌, refl, true, List, [], ◌∷◌, Option, none, some, arith, if_cases, ◌∙◌, ◌&&◌, sym, ap,
}
use unity_scopes_api.Prelude.Int.{ℤ, negsuc}
use unity_scopes_api.ScopeProcess.{
  ProcessState, stopped, running, stopping, ScopeProcess, ScopeExecData, same_state, enter,
  update_state, clear_handle, on_process_death, Event, ready, stops, dies, launches, observes,
  clears, missed, launch_elsewhere, starting, wait_for, looks, handle, Waited, reached, timed_out,
  blocked, wait_for_state, waits_forever, KillEnv, after_term, kill,
}

pub same_state_sound : (s t : ProcessState) → same_state s t ≡ true → s ≡ t
same_state_sound s t h = ground arith

pub clear_handle-stopped :
    (p : ScopeProcess) → ((clear_handle p).state ≡ stopped) × ((clear_handle p).pid ≡ p.no_process)
unfolding clear_handle update_state enter
clear_handle-stopped p = ground arith

wait_for-reached :
    (s : ProcessState) (es : List Event) (p : ScopeProcess)
    → (wait_for s es p).1 ≡ reached
    → (wait_for s es p).0.state ≡ s
unfolding wait_for
wait_for-reached s [] p h = ground (arith, same_state_sound p.state s)
wait_for-reached s (e ∷ es) p h =
    if_cases (λ w. w.1 ≡ reached → w.0.state ≡ s) (looks e && same_state p.state s) (p, reached)
      (wait_for s es (handle e p)) (λ k _. same_state_sound p.state s (ground (arith, k)))
      (λ _. wait_for-reached s es (handle e p)) h

-- A wait that ends by its predicate leaves the process in that state.
pub wait_for_state-reached :
    (s : ProcessState) (es : List Event) (p : ScopeProcess)
    → (wait_for_state s es p).1 ≡ reached
    → (wait_for_state s es p).0.state ≡ s
unfolding wait_for_state
wait_for_state-reached s es p h =
    ground (arith, same_state_sound p.state s, wait_for-reached s es p)

update_state-no_process :
    (s : ProcessState) (p : ScopeProcess) → (update_state s p).no_process ≡ p.no_process
unfolding update_state enter
update_state-no_process s p = ground arith

clear_handle-no_process : (p : ScopeProcess) → (clear_handle p).no_process ≡ p.no_process
unfolding clear_handle
clear_handle-no_process p = update_state-no_process stopped (record p { pid = p.no_process })

launch-no_process :
    (h : Option ℤ) (p : ScopeProcess) → (launch_elsewhere h p).no_process ≡ p.no_process
unfolding launch_elsewhere
launch-no_process none p = ground (arith, update_state-no_process starting p)
launch-no_process (some pid) p = ground (
  arith,
  update_state-no_process starting p,
  clear_handle-no_process (record (update_state starting p) { pid = pid }),
)

handle-no_process : (e : Event) (p : ScopeProcess) → (handle e p).no_process ≡ p.no_process
unfolding on_process_death
handle-no_process ready p = update_state-no_process running p
handle-no_process stops p = update_state-no_process stopping p
handle-no_process (dies pid) p = ground (arith, clear_handle-no_process p)
handle-no_process (launches h) p = launch-no_process h p
handle-no_process observes p = refl
handle-no_process clears p = clear_handle-no_process p
handle-no_process (missed e) p = handle-no_process e p

wait_for-no_process :
    (s : ProcessState) (es : List Event) (p : ScopeProcess)
    → (wait_for s es p).0.no_process ≡ p.no_process
unfolding wait_for
wait_for-no_process s [] p = ground arith
wait_for-no_process s (e ∷ es) p =
    if_cases (λ w. w.0.no_process ≡ p.no_process) (looks e && same_state p.state s) (p, reached)
      (wait_for s es (handle e p)) (λ _. refl)
      (λ _. wait_for-no_process s es (handle e p) ∙ handle-no_process e p)

wait_for_state-no_process :
    (s : ProcessState) (es : List Event) (p : ScopeProcess)
    → (wait_for_state s es p).0.no_process ≡ p.no_process
unfolding wait_for_state
wait_for_state-no_process s es p = ground (arith, wait_for-no_process s es p)

after_term-stopped :
    (w : ScopeProcess × Waited)
    → (after_term w).1 ≢ waits_forever
    → ((after_term w).0.state ≡ stopped) × ((after_term w).0.pid ≡ w.0.no_process)
unfolding after_term
after_term-stopped (p, blocked) h = absurd (h refl)
after_term-stopped (p, reached) h = clear_handle-stopped p
after_term-stopped (p, timed_out) h = clear_handle-stopped p

-- However kill ends, by the wait, by its time limit or by an exception of the signal, the process
-- is stopped afterwards and its handle is gone, unless there was none to stop; only a wait without
-- a time limit can keep it from returning.
pub kill-stopped :
    (env : KillEnv) (p : ScopeProcess)
    → (kill env p).1 ≢ waits_forever
    → ((kill env p).0.state ≡ stopped) × ((p.state ≡ stopped) ⊎ ((kill env p).0.pid ≡ p.no_process))
unfolding kill
kill-stopped env p h = ground (
  arith,
  same_state_sound p.state stopped,
  after_term-stopped (wait_for_state stopped env.events p),
  wait_for_state-no_process stopped env.events p,
  clear_handle-stopped p,
)

pub update_state-exec_data :
    (s : ProcessState) (p : ScopeProcess) → (update_state s p).exec_data ≡ p.exec_data
unfolding update_state enter
update_state-exec_data s p = ground arith

clear_handle-exec_data : (p : ScopeProcess) → (clear_handle p).exec_data ≡ p.exec_data
unfolding clear_handle
clear_handle-exec_data p = update_state-exec_data stopped (record p { pid = p.no_process })

launch-exec_data :
    (h : Option ℤ) (p : ScopeProcess) → (launch_elsewhere h p).exec_data ≡ p.exec_data
unfolding launch_elsewhere
launch-exec_data none p = ground (arith, update_state-exec_data starting p)
launch-exec_data (some pid) p = ground (
  arith,
  update_state-exec_data starting p,
  clear_handle-exec_data (record (update_state starting p) { pid = pid }),
)

pub handle-exec_data : (e : Event) (p : ScopeProcess) → (handle e p).exec_data ≡ p.exec_data
unfolding on_process_death
handle-exec_data ready p = update_state-exec_data running p
handle-exec_data stops p = update_state-exec_data stopping p
handle-exec_data (dies pid) p = ground (arith, clear_handle-exec_data p)
handle-exec_data (launches h) p = launch-exec_data h p
handle-exec_data observes p = refl
handle-exec_data clears p = clear_handle-exec_data p
handle-exec_data (missed e) p = handle-exec_data e p

wait_for-exec_data :
    (s : ProcessState) (es : List Event) (p : ScopeProcess)
    → (wait_for s es p).0.exec_data ≡ p.exec_data
unfolding wait_for
wait_for-exec_data s [] p = ground arith
wait_for-exec_data s (e ∷ es) p =
    if_cases (λ w. w.0.exec_data ≡ p.exec_data) (looks e && same_state p.state s) (p, reached)
      (wait_for s es (handle e p)) (λ _. refl)
      (λ _. wait_for-exec_data s es (handle e p) ∙ handle-exec_data e p)

pub wait_for_state-exec_data :
    (s : ProcessState) (es : List Event) (p : ScopeProcess)
    → (wait_for_state s es p).0.exec_data ≡ p.exec_data
unfolding wait_for_state
wait_for_state-exec_data s es p = ground (arith, wait_for-exec_data s es p)

after_term-exec_data : (w : ScopeProcess × Waited) → (after_term w).0.exec_data ≡ w.0.exec_data
unfolding after_term
after_term-exec_data (p, blocked) = refl
after_term-exec_data (p, reached) = clear_handle-exec_data p
after_term-exec_data (p, timed_out) = clear_handle-exec_data p

pub kill-exec_data : (env : KillEnv) (p : ScopeProcess) → (kill env p).0.exec_data ≡ p.exec_data
unfolding kill
kill-exec_data env p = ground (
  arith,
  after_term-exec_data (wait_for_state stopped env.events p),
  wait_for_state-exec_data stopped env.events p,
  clear_handle-exec_data p,
)

abbrev pub HasTimeout : ScopeProcess → Type 0
HasTimeout p = p.exec_data.timeout_ms ≢ negsuc 0

pub handle-exec_data_timeout :
    (e : Event) (p : ScopeProcess) → (handle e p).exec_data.timeout_ms ≡ p.exec_data.timeout_ms
handle-exec_data_timeout e p = ap (λ (d : ScopeExecData). d.timeout_ms) (handle-exec_data e p)

wait_for-ends :
    (s : ProcessState) (es : List Event) (p : ScopeProcess)
    → HasTimeout p
    → (wait_for s es p).1 ≢ blocked
unfolding wait_for
wait_for-ends s [] p h = ground (arith, h)
wait_for-ends s (e ∷ es) p h =
    if_cases (λ w. w.1 ≢ blocked) (looks e && same_state p.state s) (p, reached)
      (wait_for s es (handle e p)) (λ _ k. cc)
      (λ _. wait_for-ends s es (handle e p) λ k. h (sym (handle-exec_data_timeout e p) ∙ k))

wait_for_state-ends :
    (s : ProcessState) (es : List Event) (p : ScopeProcess)
    → HasTimeout p
    → (wait_for_state s es p).1 ≢ blocked
unfolding wait_for_state
wait_for_state-ends s es p h = ground (arith, wait_for-ends s es p h)

after_term-returns : (w : ScopeProcess × Waited) → w.1 ≢ blocked → (after_term w).1 ≢ waits_forever
unfolding after_term
after_term-returns (p, blocked) h = absurd (h refl)
after_term-returns (p, reached) h = ground arith
after_term-returns (p, timed_out) h = ground arith

-- With a time limit kill always returns.
pub kill-returns :
    (env : KillEnv) (p : ScopeProcess) → HasTimeout p → (kill env p).1 ≢ waits_forever
unfolding kill
kill-returns env p h = ground (
  arith,
  after_term-returns (wait_for_state stopped env.events p),
  wait_for_state-ends stopped env.events p h,
)
