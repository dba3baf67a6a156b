-- ===== src/ScopeProcess.antt =====
-- The process of one scope: RegistryObject::ScopeProcess in
-- src/scopes/internal/RegistryObject.cpp. The process library (core::posix), wordexp, the file
-- system and the executor are parameters: their answers, and what other threads do while a method
-- waits with its lock released, are the argument `env`. A wait ends by its predicate, by its time
-- limit, or, without a limit, never.
pub mod Kill
pub mod Exec
pub mod Published
mod Tests
use unity_scopes_api.Prelude.{
  ℕ, Bool, true, false, ◌&&◌, ◌||◌, not, List, [], ◌∷◌, Option, none, some, Text, text_eq, codes,
  is_empty, if◌then◌else◌,
}
use unity_scopes_api.Prelude.Int.{ℤ, pos, negsuc, ltb_ℤ, eqb_ℤ}

pub data ProcessState : Type 0 where
  stopped starting running stopping : ProcessState

-- The messages for the topic of the scope.
pub data Message : Type 0 where
  started_message stopped_message : Message

-- Without confinement_profile, which goes to the executor as it is, and debug_mode, which only
-- publish_state_change reads.
pub record ScopeExecData : Type 0 where
  pub scope_id : Text
  pub custom_exec : Text
  pub runtime_config : Text
  pub scope_config : Text
  pub scoperunner_path : Text
  pub timeout_ms : ℤ

-- `pid` is the process handle and `no_process` that of ChildProcess::invalid(); `publisher` says
-- whether the registry's publisher is still there; `messages` holds what was published, the latest
-- first, `observed` the processes handed to the
-- death observer.
pub record ScopeProcess : Type 0 where
  pub exec_data : ScopeExecData
  pub state : ProcessState
  pub no_process : ℤ
  pub pid : ℤ
  pub manually_started : Bool
  pub publisher : Bool
  pub messages : List Message
  pub observed : List ℤ

unfoldable pub new_process : ScopeExecData → ℤ → Bool → ScopeProcess
new_process d no_process publisher = record {
  exec_data = d;
  state = stopped;
  no_process = no_process;
  pid = no_process;
  manually_started = false;
  publisher = publisher;
  messages = [];
  observed = [];
}

abbrev pub same_state : ProcessState → ProcessState → Bool
same_state stopped stopped = true
same_state starting starting = true
same_state running running = true
same_state stopping stopping = true
same_state _ _ = false

abbrev publish : Message → ScopeProcess → ScopeProcess
publish m p = if p.publisher then record p { messages = m ∷ p.messages } else p

-- update_state_unlocked to a new state.
enter : ProcessState → ScopeProcess → ScopeProcess
enter stopped p = record (publish stopped_message p) { state = stopped }
enter starting p = record p { state = starting }
enter running p = record (publish started_message p) {
  state = running;
  manually_started = if same_state p.state starting then p.manually_started else true;
}
enter stopping p =
    if p.manually_started
    then record (publish stopped_message p) { state = stopped; manually_started = false }
    else record p { state = stopping }

unfoldable pub update_state : ProcessState → ScopeProcess → ScopeProcess
unfolding enter
update_state new p = if same_state new p.state then p else enter new p

unfoldable pub clear_handle : ScopeProcess → ScopeProcess
unfolding update_state
clear_handle p = update_state stopped (record p { pid = p.no_process })

-- Whether the process was this one, too.
unfoldable pub on_process_death : ℤ → ScopeProcess → ScopeProcess × Bool
unfolding clear_handle
on_process_death pid p = if eqb_ℤ pid p.pid then (clear_handle p, true) else (p, false)

-- exec of another thread, from the update to Starting to its own wait; `none` is an exception before
-- the executor gave a handle. It does not come so far in the other states.
abbrev launch_handle : Option ℤ → ScopeProcess → ScopeProcess
launch_handle none p = p
launch_handle (some pid) p =
    let q : ScopeProcess = record p { pid = pid } in if ltb_ℤ (pos 0) pid then q else clear_handle q

unfoldable pub launch_elsewhere : Option ℤ → ScopeProcess → ScopeProcess
unfolding update_state clear_handle
launch_elsewhere handle p =
    if same_state p.state running || same_state p.state stopping
    then p
    else launch_handle handle (update_state starting p)

-- What reaches the process from outside: ScopeReady and ScopeStopping of its state receiver, the
-- death of a process, and what another thread does in exec and kill between two waits: it launches
-- a process, it adds it to the death observer, it clears the handle. A thread that waits may miss
-- the state before an event, since it does not yet have the lock again.
pub data Event : Type 0 where
  ready stops : Event
  dies : ℤ → Event
  launches : Option ℤ → Event
  observes clears : Event
  missed : Event → Event

abbrev pub handle : Event → ScopeProcess → ScopeProcess
handle ready p = update_state running p
handle stops p = update_state stopping p
handle (dies pid) p = (on_process_death pid p).0
handle (launches pid) p = launch_elsewhere pid p
handle observes p = record p { observed = p.pid ∷ p.observed }
handle clears p = clear_handle p
handle (missed e) p = handle e p

abbrev pub looks : Event → Bool
looks (missed e) = false
looks e = true

pub data Waited : Type 0 where
  reached timed_out blocked : Waited

-- The end of a wait without its predicate.
abbrev give_up : ScopeProcess → Waited
give_up p = if eqb_ℤ p.exec_data.timeout_ms (negsuc 0) then blocked else timed_out

-- The wait on the condition: the predicate is tested when the thread has the lock again, and at the
-- time limit.
unfoldable pub wait_for : ProcessState → List Event → ScopeProcess → ScopeProcess × Waited
unfolding on_process_death clear_handle update_state launch_elsewhere
wait_for s [] p = if same_state p.state s then (p, reached) else (p, give_up p)
wait_for s (e ∷ es) p =
    let later = wait_for s es (handle e p) in
    if looks e && same_state p.state s then (p, reached) else later

-- wait_for_state, which tests the predicate before it waits.
unfoldable pub wait_for_state : ProcessState → List Event → ScopeProcess → ScopeProcess × Waited
unfolding wait_for
wait_for_state s es p = if same_state p.state s then (p, reached) else wait_for s es p

pub data Outcome : Type 0 where
  done threw waits_forever : Outcome

-- The answers to one kill: whether sig_term was sent, and the events while it waits.
pub record KillEnv : Type 0 where
  pub signal_sent : Bool
  pub events : List Event

-- kill with its lock, once the wait is over: sig_kill changes nothing here.
after_term : ScopeProcess × Waited → ScopeProcess × Outcome
unfolding clear_handle
after_term (p, blocked) = (p, waits_forever)
after_term (p, reached) = (clear_handle p, done)
after_term (p, timed_out) = (clear_handle p, done)

unfoldable pub kill : KillEnv → ScopeProcess → ScopeProcess × Outcome
unfolding wait_for_state after_term clear_handle
kill env p =
    if same_state p.state stopped
    then (p, done)
    else if env.signal_sent
    then after_term (wait_for_state stopped env.events p)
    else (clear_handle p, threw)

-- One argument of the custom command.
replace_placeholder : ScopeExecData → Text → Text
replace_placeholder d arg =
    if text_eq arg (codes "%R")
    then d.runtime_config
    else if text_eq arg (codes "%S")
    then d.scope_config
    else arg

replace_placeholders : ScopeExecData → List Text → List Text
replace_placeholders d [] = []
replace_placeholders d (arg ∷ args) = replace_placeholder d arg ∷ replace_placeholders d args

-- The words that wordexp gave; `none` is its failure, and the source reads the first of none.
expand_words : ScopeExecData → Option (List Text) → Option (List Text)
unfolding replace_placeholders replace_placeholder
expand_words d none = none
expand_words d (some []) = none
expand_words d (some (program ∷ args)) = some (program ∷ replace_placeholders d args)

-- `none` is the ResourceException.
unfoldable pub expand_custom_exec : Option (List Text) → ScopeExecData → Option (List Text)
unfolding expand_words
expand_custom_exec words d = if is_empty d.custom_exec then some [] else expand_words d words

-- The program and its arguments.
abbrev pub command : ScopeExecData → List Text → Text × List Text
command d [] = (d.scoperunner_path, d.runtime_config ∷ d.scope_config ∷ [])
command d (program ∷ args) = (program, args)

-- `words` is the answer of wordexp, `config_found` says that canonical() found the scope's
-- configuration, `launch` is the executor, whose `none` is an exception.
pub record ExecEnv : Type 0 where
  pub while_stopping : List Event
  pub kill_stopping : KillEnv
  pub words : Option (List Text)
  pub config_found : Bool
  pub launch : Text → List Text → Option ℤ
  pub while_starting : List Event
  pub kill_starting : KillEnv

-- Step 3 and 4 of exec.
after_start : ExecEnv → ScopeProcess × Waited → ScopeProcess × Outcome
unfolding kill
after_start env (p, blocked) = (p, waits_forever)
after_start env (p, reached) = (record p { observed = p.pid ∷ p.observed }, done)
after_start env (p, timed_out) = failed (kill env.kill_starting p)
  where
    failed : ScopeProcess × Outcome → ScopeProcess × Outcome
    failed (q, waits_forever) = (q, waits_forever)
    failed (q, _) = (q, threw)

-- The executor gave a handle.
with_handle : ExecEnv → Option ℤ → ScopeProcess → ScopeProcess × Outcome
unfolding after_start wait_for_state clear_handle
with_handle env none p = (p, threw)
with_handle env (some pid) p =
    let q : ScopeProcess = record p { pid = pid } in
    if ltb_ℤ (pos 0) pid
    then after_start env (wait_for_state running env.while_starting q)
    else (clear_handle q, threw)

-- The command is known.
run_command : ExecEnv → Option (List Text) → ScopeProcess → ScopeProcess × Outcome
unfolding with_handle
run_command env none p = (p, threw)
run_command env (some args) p =
    let (program, argv) = command p.exec_data args in
    if env.config_found then with_handle env (env.launch program argv) p else (p, threw)

-- Step 2 of exec, from the update to Starting on.
start_process : ExecEnv → ScopeProcess → ScopeProcess × Outcome
unfolding update_state expand_custom_exec run_command
start_process env p =
    run_command env (expand_custom_exec env.words p.exec_data) (update_state starting p)

-- An exception of this kill is swallowed.
start_after_kill : ExecEnv → ScopeProcess × Outcome → ScopeProcess × Outcome
unfolding start_process
start_after_kill env (p, waits_forever) = (p, waits_forever)
start_after_kill env (p, done) = start_process env p
start_after_kill env (p, threw) = start_process env p

-- Step 1.2 of exec, after its wait.
after_stopping : ExecEnv → ScopeProcess × Waited → ScopeProcess × Outcome
unfolding start_process kill start_after_kill
after_stopping env (p, blocked) = (p, waits_forever)
after_stopping env (p, reached) = start_process env p
after_stopping env (p, timed_out) = start_after_kill env (kill env.kill_stopping p)

unfoldable pub exec : ExecEnv → ScopeProcess → ScopeProcess × Outcome
unfolding wait_for_state start_process after_stopping
exec env p =
    if same_state p.state running
    then (p, done)
    else if same_state p.state stopping
    then after_stopping env (wait_for_state stopped env.while_stopping p)
    else start_process env p

-- The destructor kills, and swallows an exception.
unfoldable pub destruct : KillEnv → ScopeProcess → ScopeProcess
unfolding kill
destruct env p = (kill env p).0

-- What happens to a process over its life, in the order in which its lock is taken.
pub data Operation : Type 0 where
  event : Event → Operation
  execs : ExecEnv → Operation
  kills : KillEnv → Operation

abbrev pub perform : Operation → ScopeProcess → ScopeProcess
perform (event e) p = handle e p
perform (execs env) p = (exec env p).0
perform (kills env) p = (kill env p).0

unfoldable pub run : List Operation → ScopeProcess → ScopeProcess
run [] p = p
run (o ∷ os) p = run os (perform o p)
