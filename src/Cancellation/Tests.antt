-- ===== src/Cancellation/Tests.antt =====
-- Runs of a cancellation in the client and in the scope, and the theorems at these.
use unity_scopes_api.Prelude.{
  ◌≡◌, ◌⊎◌, refl, inr, ℕ, ◌+◌, ◌≤◌, Bool, true, false, List, [], ◌∷◌, arith,
}
use unity_scopes_api.Prelude.Threads
use unity_scopes_api.Cancellation.Client.{
  Call, cancel_called, set_called, new_ctrl, run, step, run-cancels,
}
use unity_scopes_api.Cancellation.Scope.{
  run_called, cancel_called as query_cancel_called, ctrl_cancel_called, ctrl_destroy_called,
  new_query, run as run_query, step as step_query, run-cancels_once, Call as QueryCall,
}

-- The query is cancelled before it has its proxy.
abbrev calls : List Call
calls = cancel_called ∷ set_called ∷ []

abbrev schedule : List (ℕ × Bool)
schedule = (0, true) ∷ (1, true) ∷ (1, true) ∷ (1, true) ∷ (1, true) ∷ []

forwarded_late : (run schedule calls (new_ctrl false true)).1.forwarded ≡ 1
unfolding Threads.run step
forwarded_late = refl

run-cancels_example :
    ((1 ≤ (run schedule calls (new_ctrl false true)).1.forwarded)
      ⊎ ((run schedule calls (new_ctrl false true)).1.ready ≡ false))
    × ((run schedule calls (new_ctrl false true)).1.null_used ≡ false)
    × ((run schedule calls (new_ctrl false true)).1.forwarded
        ≡ (run schedule calls (new_ctrl false true)).1.finished
          + (run schedule calls (new_ctrl false true)).1.failures)
unfolding Threads.run step
run-cancels_example =
    run-cancels schedule calls false true (inr refl) (tt, (tt, tt)) refl refl (omega arith)

-- A run() and two cancellations, one by the control object.
abbrev query_calls : List QueryCall
query_calls = run_called ∷ ctrl_cancel_called ∷ query_cancel_called ∷ ctrl_destroy_called ∷ []

abbrev query_schedule : List (ℕ × Bool)
query_schedule =
    (0, true)
    ∷ (1, true)
    ∷ (1, true)
    ∷ (2, true)
    ∷ (0, true)
    ∷ (1, true)
    ∷ (1, true)
    ∷ (1, true)
    ∷ []

cancelled_once : (run_query query_schedule query_calls new_query).1.cancels ≡ 1
unfolding Threads.run step_query
cancelled_once = refl

run-cancels_once_example :
    ((run_query query_schedule query_calls new_query).1.cancels ≤ 1)
    × ((run_query query_schedule query_calls new_query).1.reports
        ≤ (run_query query_schedule query_calls new_query).1.cancels)
    × ((run_query query_schedule query_calls new_query).1.errors
        ≤ (run_query query_schedule query_calls new_query).1.runs)
run-cancels_once_example = run-cancels_once query_schedule query_calls (tt, (tt, (tt, (tt, tt))))
