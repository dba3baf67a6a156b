-- ===== src/ObjectAdapter/Tests.antt =====
-- Runs of the object adapter, and its theorems at concrete ones.
use unity_scopes_api.Prelude.{
  ◌≡◌, ◌⊎◌, refl, ℕ, ◌+◌, ◌≤◌, Bool, true, false, List, [], ◌∷◌, ◌++◌, none, some, text_eq, codes,
  ok, err, middleware_error, length, arith, map,
}
use unity_scopes_api.Prelude.Dict.{find, insert_new}
use unity_scopes_api.Prelude.Threads
use unity_scopes_api.Prelude.Threads.{total}
use unity_scopes_api.ObjectAdapter.{active, failed, destroyed}
use unity_scopes_api.ObjectAdapter.Servants.{
  adds, adds_dflt, removes, finds_for, enters, Call, call, calls, promised_all, no_servants,
  no_promise, Agrees, calls-refines,
}
use unity_scopes_api.ObjectAdapter.Lifecycle
use unity_scopes_api.ObjectAdapter.Lifecycle.{
  Choice, works, fails, activate_called, shutdown_called, wait_called, pump_created, worker_created,
  step, run, new_adapter,
}
use unity_scopes_api.ObjectAdapter.Lifecycle.Once.{run-IsOnce}
use unity_scopes_api.ObjectAdapter.Pump.{
  Input, Pump, Request, ready, reply, twoway, to_client, to_worker, stop_to, round, rounds,
  new_pump,
}
use unity_scopes_api.ObjectAdapter.Pump.Balance.{count, Reach, here, next}
use unity_scopes_api.ObjectAdapter.Pump.Answers.{to_clients, Reach-answers}
use unity_scopes_api.ObjectAdapter.Pump.Places.{Reach-places}
use unity_scopes_api.ObjectAdapter.Pump.Stopped.{Reach-ends}

abbrev some_calls : List (Call ℕ)
some_calls =
    adds (codes "a") (some 1)
    ∷ adds (codes "a") (some 2)
    ∷ adds_dflt (codes "c") (some 3)
    ∷ finds_for (codes "b") (codes "c")
    ∷ removes (codes "a")
    ∷ enters destroyed
    ∷ finds_for (codes "b") (codes "c")
    ∷ []

answers :
    (calls some_calls (no_servants active)).1
    ≡ ok none
      ∷ err middleware_error
      ∷ ok none
      ∷ ok (some 3)
      ∷ ok none
      ∷ ok none
      ∷ err middleware_error
      ∷ []
unfolding calls call find insert_new text_eq
answers = refl

calls-refines_example :
    ((calls some_calls (no_servants active)).1 ≡ (promised_all some_calls (no_promise active)).1)
    × Agrees
        (calls some_calls (no_servants active)).0
        (promised_all some_calls (no_promise active)).0
calls-refines_example = calls-refines some_calls active

-- A client that activates the adapter, shuts it down and waits, the pump, and a worker.
abbrev threads : List Lifecycle.Call
threads = activate_called ∷ shutdown_called ∷ wait_called ∷ pump_created ∷ worker_created ∷ []

abbrev works_at : List ℕ → List (ℕ × Choice)
works_at = map (λ n. (n, works))

abbrev whole_life : List (ℕ × Choice)
whole_life =
    works_at (0 ∷ 0 ∷ 0 ∷ 3 ∷ 3 ∷ 3 ∷ 0 ∷ 0 ∷ 4 ∷ 1 ∷ 3 ∷ 3 ∷ 3 ∷ 4 ∷ 2 ∷ 2 ∷ 2 ∷ 2 ∷ 2 ∷ 2 ∷ [])

ends_destroyed :
    ((run whole_life threads (new_adapter 1)).1.state ≡ destroyed)
    × ((run whole_life threads (new_adapter 1)).1.cleaned ≡ true)
    × ((run whole_life threads (new_adapter 1)).1.ended 0 ≡ true)
unfolding Threads.run step
ends_destroyed = (refl, refl, refl)

-- A worker fails before activate() sets the state for the last time.
abbrev fails_early : List (ℕ × Choice)
fails_early = works_at (0 ∷ 0 ∷ 0 ∷ 3 ∷ 3 ∷ 3 ∷ 4 ∷ []) ++ (4, fails) ∷ (4, works) ∷ []

is_failed : (run fails_early threads (new_adapter 1)).1.state ≡ failed
unfolding Threads.run step
is_failed = refl

abbrev then_active : List (ℕ × Choice)
then_active = (0, works) ∷ (0, works) ∷ []

active_after_failure :
    (run then_active
      (run fails_early threads (new_adapter 1)).0
      (run fails_early threads (new_adapter 1)).1).1.state
    ≡ active
unfolding Threads.run step
active_after_failure = refl

run-IsOnce_example :
    ((run whole_life threads (new_adapter 1)).1.activations ≤ 1)
    × ((run whole_life threads (new_adapter 1)).1.cleanups ≤ 1)
run-IsOnce_example = run-IsOnce whole_life threads 1

-- The first of two workers fails while the pump has still to create the second, and cleanup is past
-- its loop over workers_ before it does: the servants are destroyed, and the second is not joined.
abbrev two_workers : List Lifecycle.Call
two_workers = activate_called ∷ wait_called ∷ pump_created ∷ worker_created ∷ worker_created ∷ []

abbrev fails_first : List (ℕ × Choice)
fails_first =
    works_at (0 ∷ 0 ∷ 0 ∷ 2 ∷ 2 ∷ 3 ∷ [])
    ++ (3, fails) ∷ works_at (3 ∷ 1 ∷ 1 ∷ 1 ∷ 1 ∷ 2 ∷ 2 ∷ 2 ∷ 2 ∷ 2 ∷ 2 ∷ 1 ∷ [])

unjoined_worker :
    ((run fails_first two_workers (new_adapter 2)).1.cleaned ≡ true)
    × ((run fails_first two_workers (new_adapter 2)).1.workers ≡ 2)
    × ((run fails_first two_workers (new_adapter 2)).1.ended 1 ≡ false)
unfolding Threads.run step
unjoined_worker = (refl, refl, refl)

abbrev request : Request
request = record { client = codes "c"; payload = codes "p" }

abbrev asks : Input
asks = record { stop = false; backend = some (4, ready); frontend = some request }

abbrev stops : Input
stops = record { stop = true; backend = none; frontend = none }

abbrev answered : Input
answered = record {
  stop = false;
  backend = some (4, reply (codes "c") (codes "r"));
  frontend = some request;
}

abbrev asked : Pump
asked = record {
  ready_workers = [];
  busy = 4 ∷ [];
  shutting_down = false;
  polls_frontend = false;
  num_workers = 1;
  sent = to_worker 4 request ∷ [];
}

round-asked : round twoway asks (new_pump (4 ∷ [])) ≡ some (asked, false)
unfolding round
round-asked = refl

-- The request under way is answered before the worker is stopped.
drains_run :
    rounds twoway (stops ∷ answered ∷ []) asked
    ≡ some (
      record {
        ready_workers = [];
        busy = [];
        shutting_down = true;
        polls_frontend = false;
        num_workers = 0;
        sent = to_worker 4 request ∷ to_client (codes "c") (codes "r") ∷ stop_to 4 ∷ [];
      },
      true,
    )
unfolding rounds
drains_run = refl

abbrev asked_path : Reach twoway (4 ∷ []) asked
asked_path = next here asks (omega arith) round-asked

abbrev stopping : Pump
stopping = record asked { shutting_down = true }

stopping_round : round twoway stops asked ≡ some (stopping, false)
unfolding round
stopping_round = refl

Reach-answers_example :
    (q : Pump) × (ended : Bool) × (round twoway answered asked ≡ some (q, ended))
    × (to_clients q.sent ≡ (codes "c", codes "r") ∷ [])
    × (length q.busy + length q.ready_workers ≡ q.num_workers)
    × ((ended ≡ false) ⊎ (length q.busy ≡ 0))
Reach-answers_example = Reach-answers asked_path answered (omega arith)

Reach-places_example : count 4 asked.busy + count 4 asked.ready_workers ≤ 1
Reach-places_example = Reach-places 4 (omega arith) asked_path

Reach-ends_example :
    (q : Pump) × (rounds twoway (answered ∷ []) stopping ≡ some (q, true)) × (q.busy ≡ [])
Reach-ends_example =
    Reach-ends (next asked_path stops tt stopping_round) (answered ∷ []) (omega arith) refl
      (4, reply (codes "c") (codes "r"), refl, omega arith, refl)
