-- ===== src/ThreadPool/Tests.antt =====
-- A run of a thread pool of two threads, with a thread that destroys it and one that waits.
use unity_scopes_api.Prelude.{◌≡◌, refl, ℕ, Bool, true, false, List, [], ◌∷◌, arith}
use unity_scopes_api.Prelude.Threads
use unity_scopes_api.Prelude.Threads.{total}
use unity_scopes_api.ThreadPool.{
  Shared, Call, created, destroyed, destroy_called, wait_called, worker, worker_ended, done, step,
  run,
}
use unity_scopes_api.ThreadPool.Destroyed.{working, run-IsDestroyed}

abbrev pool : Shared
pool = record { state = created; queue_destroyed = false; live = 2 }

abbrev calls : List Call
calls = destroy_called ∷ wait_called ∷ worker ∷ worker ∷ []

abbrev schedule : List (ℕ × Bool)
schedule =
    (1, true)
    ∷ (0, true)
    ∷ (2, true)
    ∷ (0, true)
    ∷ (3, true)
    ∷ (0, true)
    ∷ (0, true)
    ∷ (1, true)
    ∷ []

ended : (run schedule calls pool).0 ≡ done ∷ done ∷ worker_ended ∷ worker_ended ∷ []
unfolding Threads.run step
ended = refl

run-IsDestroyed_example :
    ((run schedule calls pool).1.state ≡ destroyed)
    × ((run schedule calls pool).1.live ≡ 0)
    × (total working (run schedule calls pool).0 ≡ 0)
unfolding Threads.run step
run-IsDestroyed_example =
    run-IsDestroyed schedule calls pool (tt, (tt, (tt, (tt, tt)))) refl refl (omega arith)
