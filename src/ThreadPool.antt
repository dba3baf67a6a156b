-- ===== src/ThreadPool.antt =====
-- The end of a thread pool: src/scopes/internal/ThreadPool.cpp. A Call is the point that a thread is
-- at, a step takes it past the next critical section or wait. The pool's own threads are among them;
-- tasks are not modelled, but for a thread being busy with one.
pub mod Destroyed
mod Tests
use unity_scopes_api.Prelude.{
  ℕ, zero, suc, ◌+◌, ◌-◌, Bool, true, false, List, Result, ok, err, invalid_argument, ◌>>=◌, ◌>>◌,
  throw_if, if◌then◌else◌,
}
use unity_scopes_api.Prelude.Int.{ℤ, pos, pos_part, ltb_ℤ}
use unity_scopes_api.Prelude.Threads

pub data State : Type 0 where
  created waiting destroying destroyed : State

-- `live` are the threads of the pool that have not ended.
pub record Shared : Type 0 where
  pub state : State
  pub queue_destroyed : Bool
  pub live : ℕ

unfoldable pub make_pool : ℤ → Result Shared
make_pool num_threads = do
  throw_if (ltb_ℤ num_threads (pos 1)) invalid_argument
  ok (record { state = created; queue_destroyed = false; live = pos_part num_threads })

pub data Call : Type 0 where
  -- destroy(): called, at the wait for another thread's, at the joins, and before the last change.
  destroy_called destroy_waiting destroy_joining destroy_finishing : Call
  -- destroy_once_empty(): called, and at the wait for the queue, after which it calls destroy().
  once_called once_draining : Call
  wait_called : Call
  done : Call
  -- A thread of the pool.
  worker worker_ended : Call

abbrev is_destroyed : State → Bool
is_destroyed destroyed = true
is_destroyed s = false

abbrev destroy_at : State → Shared → Call × Shared
destroy_at destroyed s = (done, s)
destroy_at destroying s = (destroy_waiting, s)
destroy_at created s = (destroy_joining, record s { state = destroying; queue_destroyed = true })
destroy_at waiting s = (destroy_joining, record s { state = destroying; queue_destroyed = true })

abbrev once_at : State → Shared → Call × Shared
once_at destroyed s = (done, s)
once_at created s = (once_draining, record s { state = waiting })
once_at waiting s = (wait_called, s)
once_at destroying s = (wait_called, s)

abbrev wait_at : Call → State → Shared → Call × Shared
wait_at c destroyed s = (done, s)
wait_at c state s = (c, s)

abbrev is_zero : ℕ → Bool
is_zero zero = true
is_zero (suc n) = false

-- The choice is whether the queue is empty, and whether a thread of the pool has no task.
unfoldable pub step : Bool → Call → Shared → Call × Shared
step b destroy_called s = destroy_at s.state s
step b destroy_waiting s = wait_at destroy_waiting s.state s
step b destroy_joining s = if is_zero s.live then (destroy_finishing, s) else (destroy_joining, s)
step b destroy_finishing s = (done, record s { state = destroyed })
step b once_called s = once_at s.state s
step b once_draining s = if b then (destroy_called, s) else (once_draining, s)
step b wait_called s = wait_at wait_called s.state s
step b done s = (done, s)
step b worker s =
    if b
    then (if s.queue_destroyed then (worker_ended, record s { live = s.live - 1 }) else (worker, s))
    else (worker, s)
step b worker_ended s = (worker_ended, s)

abbrev pub run : List (ℕ × Bool) → List Call → Shared → List Call × Shared
run = Threads.run step
