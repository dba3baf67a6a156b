-- ===== src/ObjectAdapter/Lifecycle.antt =====
-- The life of an object adapter: activate, shutdown and wait_for_shutdown in any number of threads,
-- with the adapter's own threads, the pump and the workers. A Call is the point that a thread is at;
-- a step takes it past the next critical section or wait. What the sockets and the threads' creation
-- come to is a choice of the step. The pump ends once it has told each worker to stop, and a worker
-- once it is told, or has failed; which of the workers a message goes to is left open.
pub mod Once
use unity_scopes_api.Prelude.{
  ℕ, zero, suc, ◌+◌, ◌-◌, ◌==◌, ltb, Bool, true, false, ◌&&◌, ◌||◌, if◌then◌else◌, Option, none,
  some, List, [],
}
use unity_scopes_api.Prelude.Threads
use unity_scopes_api.ObjectAdapter.{
  AdapterState, inactive, activating, active, deactivating, destroyed, failed,
}

-- `ready` is the promise of the pump. `pumps` counts the pumps that were created, `spawned_pumps`
-- those that have not taken a step, `ended_pumps` those that have ended. `workers` is the length of
-- workers_, and `begun_workers` the number of these threads that have begun, which gives each its
-- place; `ended` says which have ended; `told` counts the pump's stop messages that no worker has
-- received. `activations` counts the starts of run_workers, `cleanups` those of cleanup, and
-- `cleaned` says that one has returned.
pub record Shared : Type 0 where
  pub state : AdapterState
  pub pool_size : ℕ
  pub stopper : Bool
  pub stopping : Bool
  pub ready : Option Bool
  pub pumps : ℕ
  pub spawned_pumps : ℕ
  pub ended_pumps : ℕ
  pub workers : ℕ
  pub begun_workers : ℕ
  pub ended : ℕ → Bool
  pub told : ℕ
  pub activations : ℕ
  pub cleanups : ℕ
  pub cleaned : Bool

-- Whether a step that can fail does.
pub data Choice : Type 0 where
  works fails : Choice

pub data Call : Type 0 where
  -- activate: before the switch, before the stopper and the pump are created, at f.get(), before the
  -- last change of the state, and in the catch block.
  activate_called run_started run_stoppable run_waiting run_done run_failed : Call
  shutdown_called shutdown_waiting : Call
  -- wait_for_shutdown: at its wait, before cleanup, in the joins with the workers and with the pump,
  -- and at the wait for the stopper, with the state that it found.
  wait_called : Call
  wait_joining : AdapterState → Call
  joining_worker : ℕ → AdapterState → Call
  joining_pump wait_stopping : AdapterState → Call
  -- The pump: created, with some workers still to create, running, with some workers still to tell,
  -- before and after store_exception, and after stop().
  pump_created : Call
  pump_creating : ℕ → Call
  pump_running : Call
  pump_telling : ℕ → Call
  pump_failing pump_stored pump_stopped : Call
  -- A worker: created, running, and before store_exception, with its place among workers_.
  worker_created : Call
  worker_running worker_failing : ℕ → Call
  returned threw : Call

abbrev pub is_positive : ℕ → Bool
is_positive zero = false
is_positive (suc n) = true

abbrev activate_at : AdapterState → Shared → Call × Shared
activate_at inactive s =
    (run_started, record s { state = activating; activations = suc s.activations })
activate_at activating s = (returned, s)
activate_at active s = (returned, s)
activate_at deactivating s = (threw, s)
activate_at destroyed s = (threw, s)
activate_at failed s = (threw, s)

abbrev deactivated : Shared → Call × Shared
deactivated s = (returned, record s { state = deactivating; stopping = true })

abbrev shutdown_at : AdapterState → Shared → Call × Shared
shutdown_at deactivating s = (returned, s)
shutdown_at destroyed s = (returned, s)
shutdown_at failed s = (threw, s)
shutdown_at inactive s = (returned, record s { state = destroyed })
shutdown_at activating s = (shutdown_waiting, s)
shutdown_at active s = deactivated s

-- After the wait for the end of the activation, or still in it.
abbrev shutdown_after : AdapterState → Shared → Call × Shared
shutdown_after activating s = (shutdown_waiting, s)
shutdown_after deactivating s = (returned, s)
shutdown_after destroyed s = (returned, s)
shutdown_after failed s = (threw, s)
shutdown_after inactive s = deactivated s
shutdown_after active s = deactivated s

abbrev wait_at : AdapterState → Shared → Call × Shared
wait_at deactivating s = (wait_joining destroyed, record s { state = destroyed })
wait_at destroyed s = (wait_joining destroyed, s)
wait_at failed s = (wait_joining failed, s)
wait_at inactive s = (wait_called, s)
wait_at activating s = (wait_called, s)
wait_at active s = (wait_called, s)

abbrev wait_ended : AdapterState → Call
wait_ended failed = threw
wait_ended _ = returned

abbrev got : Option Bool → Call
got none = run_waiting
got (some true) = run_done
got (some false) = run_failed

-- set_exception on a promise that has a value throws, which is caught.
abbrev broken : Option Bool → Option Bool
broken none = some false
broken (some b) = some b

abbrev ended_too : ℕ → (ℕ → Bool) → ℕ → Bool
ended_too i ended j = if j == i then true else ended j

unfoldable pub step : Choice → Call → Shared → Call × Shared
step b activate_called s = activate_at s.state s
step works run_started s = (run_stoppable, record s { stopper = true })
step fails run_started s = (run_failed, record s { state = failed })
step works run_stoppable s =
    (run_waiting, record s { pumps = suc s.pumps; spawned_pumps = suc s.spawned_pumps })
step fails run_stoppable s = (run_failed, s)
step b run_waiting s = (got s.ready, s)
step b run_done s = (returned, record s { state = active })
step b run_failed s = (threw, record s { state = failed })
step b shutdown_called s = shutdown_at s.state s
step b shutdown_waiting s = shutdown_after s.state s
step b wait_called s = wait_at s.state s
-- The first caller of call_once runs cleanup; the others wait for it.
step b (wait_joining found) s =
    if is_positive s.cleanups
    then (if s.cleaned then wait_stopping found else wait_joining found, s)
    else (joining_worker 0 found, record s { cleanups = suc s.cleanups })
-- The loop over workers_ as it then is, and the join with the pump.
step b (joining_worker i found) s =
    if ltb i s.workers
    then (if s.ended i then joining_worker (suc i) found else joining_worker i found, s)
    else (joining_pump found, s)
step b (joining_pump found) s =
    if ltb s.ended_pumps s.pumps
    then (joining_pump found, s)
    else (wait_stopping found, record s { cleaned = true })
step b (wait_stopping found) s =
    if s.stopper && (if s.stopping then false else true)
    then (wait_stopping found, s)
    else (wait_ended found, s)
-- Sockets, one worker after the other, and the promise; or a failure on the way to it.
step works pump_created s =
    if is_positive s.spawned_pumps
    then (pump_creating s.pool_size, record s { spawned_pumps = s.spawned_pumps - 1 })
    else (pump_created, s)
step fails pump_created s =
    if is_positive s.spawned_pumps
    then (pump_failing, record s { spawned_pumps = s.spawned_pumps - 1 })
    else (pump_created, s)
step works (pump_creating zero) s = (pump_running, record s { ready = some true })
step works (pump_creating (suc n)) s = (pump_creating n, record s { workers = suc s.workers })
step fails (pump_creating n) s = (pump_failing, s)
step works pump_running s =
    (if s.stopping && is_positive s.workers then pump_telling s.workers else pump_running, s)
step fails pump_running s = (pump_failing, s)
step works (pump_telling zero) s = (returned, record s { ended_pumps = suc s.ended_pumps })
step works (pump_telling (suc n)) s = (pump_telling n, record s { told = suc s.told })
step fails (pump_telling n) s = (pump_failing, s)
step b pump_failing s = (pump_stored, record s { state = failed })
step b pump_stored s = (pump_stopped, record s { stopping = true })
step b pump_stopped s =
    (returned, record s { ready = broken s.ready; ended_pumps = suc s.ended_pumps })
step b worker_created s =
    if ltb s.begun_workers s.workers
    then (worker_running s.begun_workers, record s { begun_workers = suc s.begun_workers })
    else (worker_created, s)
step works (worker_running i) s =
    if is_positive s.told
    then (returned, record s { told = s.told - 1; ended = ended_too i s.ended })
    else (worker_running i, s)
step fails (worker_running i) s = (worker_failing i, record s { stopping = true })
step b (worker_failing i) s = (returned, record s { state = failed; ended = ended_too i s.ended })
step b returned s = (returned, s)
step b threw s = (threw, s)

abbrev pub run : List (ℕ × Choice) → List Call → Shared → List Call × Shared
run = Threads.run step

abbrev pub new_adapter : ℕ → Shared
new_adapter pool_size = record {
  state = inactive;
  pool_size = pool_size;
  stopper = false;
  stopping = false;
  ready = none;
  pumps = 0;
  spawned_pumps = 0;
  ended_pumps = 0;
  workers = 0;
  begun_workers = 0;
  ended = λ i. false;
  told = 0;
  activations = 0;
  cleanups = 0;
  cleaned = false;
}

-- Where the calls of the adapter's users and its own threads begin.
abbrev pub IsStart : Call → Type 0
IsStart activate_called = Unit {0}
IsStart shutdown_called = Unit {0}
IsStart wait_called = Unit {0}
IsStart pump_created = Unit {0}
IsStart worker_created = Unit {0}
IsStart _ = ⊥
