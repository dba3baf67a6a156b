-- ===== src/Reply/Tests.antt =====
-- Interleavings of the calls of a reply object, and its theorems at concrete ones.
use unity_scopes_api.Prelude.{◌≡◌, ◌⊎◌, refl, ℕ, true, List, [], ◌∷◌, arith, All}
use unity_scopes_api.Reply.{
  Outcome, goes_on, begins, ends, finishes, Shared, Call, step, push_called, push_checked,
  finished_called, run, new_reply, ok_status, CompletionDetails,
}
use unity_scopes_api.Prelude.Threads
use unity_scopes_api.Prelude.Threads.{total, step_nth}
use unity_scopes_api.Reply.Finished.{finish_count, IsReturned, run-finishes}
use unity_scopes_api.Reply.Progress.{CanStep, run-CanStep}

abbrev fine : CompletionDetails
fine = record { status = ok_status; message = []; info_list = [] }

-- A push of some data, a number, and the finished of the other side.
abbrev calls : List (Call ℕ)
calls = push_called 7 ∷ finished_called fine ∷ []

abbrev step_of : ℕ → ℕ × Outcome
step_of n = (n, goes_on)

abbrev push_first : List (ℕ × Outcome)
push_first =
    step_of 0
    ∷ step_of 0
    ∷ step_of 0
    ∷ step_of 1
    ∷ step_of 1
    ∷ step_of 1
    ∷ step_of 0
    ∷ step_of 0
    ∷ step_of 0
    ∷ step_of 1
    ∷ step_of 1
    ∷ step_of 1
    ∷ []

-- The push is in process_data when finished() starts, which waits for it.
waited : (run push_first calls new_reply).1.log ≡ begins 7 ∷ ends 7 ∷ finishes fine ∷ []
unfolding Threads.run step
waited = refl

abbrev check_first : List (ℕ × Outcome)
check_first =
    step_of 0
    ∷ step_of 1
    ∷ step_of 1
    ∷ step_of 1
    ∷ step_of 1
    ∷ step_of 1
    ∷ step_of 0
    ∷ step_of 0
    ∷ step_of 0
    ∷ step_of 0
    ∷ step_of 0
    ∷ []

-- The push looked at finished_ before finished() set it and is counted after the wait.
pushed_after_finished :
    (run check_first calls new_reply).1.log ≡ finishes fine ∷ begins 7 ∷ ends 7 ∷ []
unfolding Threads.run step
pushed_after_finished = refl

run-finishes_example : finish_count (run check_first calls new_reply).1.log ≡ 1
unfolding Threads.run step
run-finishes_example = run-finishes check_first calls (tt, (tt, tt)) (omega arith) (tt, (tt, tt))

abbrev finished_reply : Shared ℕ
finished_reply = record new_reply { finished = true }

abbrev late_calls : List (Call ℕ)
late_calls = push_called 7 ∷ push_checked 8 ∷ []

run-CanStep_example :
    (All IsReturned (run (step_of 0 ∷ []) calls new_reply).0
      ⊎ CanStep (run (step_of 0 ∷ []) calls new_reply).0 (run (step_of 0 ∷ []) calls new_reply).1)
    × ((rest : List (ℕ × Outcome)) × All IsReturned
          (run rest
            (run (step_of 0 ∷ []) calls new_reply).0
            (run (step_of 0 ∷ []) calls new_reply).1).0)
run-CanStep_example = run-CanStep (step_of 0 ∷ []) calls (tt, (tt, tt))
