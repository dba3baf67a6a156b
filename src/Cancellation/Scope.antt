-- ===== src/Cancellation/Scope.antt =====
-- The query's object in the scope, whose run() and cancel() come from different threads, with the
-- control object that forwards a cancellation to it once.
use unity_scopes_api.Prelude.{
  ◌≡◌, ◌⊎◌, refl, ℕ, suc, ◌+◌, ◌≤◌, Bool, true, false, List, [], ◌∷◌, All, arith, if◌then◌else◌,
}
use unity_scopes_api.Prelude.Threads
use unity_scopes_api.Prelude.Threads.{total, run-keeps}

-- `runs` and `cancels` count the calls of the application's run() and of its query's cancel(),
-- `reports` and `errors` the completions Cancelled and Error that were sent to the client, by a call
-- of the reply object's finished() that returned.
pub record Shared : Type 0 where
  pub pushable : Bool
  pub has_self : Bool
  pub ctrl_destroyed : Bool
  pub runs : ℕ
  pub cancels : ℕ
  pub reports : ℕ
  pub errors : ℕ

abbrev pub new_query : Shared
new_query = record {
  pushable = true;
  has_self = true;
  ctrl_destroyed = false;
  runs = 0;
  cancels = 0;
  reports = 0;
  errors = 0;
}

pub data Call : Type 0 where
  -- run(): before its lock, before and in the application's run(), and where that has thrown.
  run_called run_entering run_running run_failing run_reporting : Call
  -- QueryObject::cancel(): before its lock, before it forwards, before it looks for the reply proxy,
  -- before it sends the completion, and where an exception was caught and it is to be sent again.
  cancel_called cancel_forwarding cancel_sending cancel_reporting cancel_caught : Call
  -- The control object's cancel() and destroy().
  ctrl_cancel_called ctrl_destroy_called : Call
  done : Call

-- The choice is whether a call returns, and does not throw, or whether an object is still there.
unfoldable pub step : Bool → Call → Shared → Call × Shared
step b run_called s = (if s.pushable then run_entering else done, record s { has_self = false })
step b run_entering s = (run_running, record s { runs = suc s.runs })
step true run_running s = (done, s)
step false run_running s = (run_failing, s)
step b run_failing s = (run_reporting, record s { pushable = false })
step b run_reporting s = (done, if b then record s { errors = suc s.errors } else s)
step b cancel_called s =
    if s.pushable then (cancel_forwarding, record s { pushable = false }) else (done, s)
step true cancel_forwarding s = (cancel_sending, record s { cancels = suc s.cancels })
step false cancel_forwarding s = (cancel_caught, record s { cancels = suc s.cancels })
step b cancel_sending s = (if b then cancel_reporting else done, s)
step true cancel_reporting s = (done, record s { reports = suc s.reports })
step false cancel_reporting s = (cancel_caught, s)
step b cancel_caught s = (done, if b then record s { reports = suc s.reports } else s)
step b ctrl_cancel_called s =
    if s.ctrl_destroyed
    then (done, s)
    else (if b then cancel_called else done, record s { ctrl_destroyed = true })
step b ctrl_destroy_called s = (done, record s { ctrl_destroyed = true })
step b done s = (done, s)

abbrev pub run : List (ℕ × Bool) → List Call → Shared → List Call × Shared
run = Threads.run step

-- One for a call that has still to forward a cancellation.
abbrev forwarding : Call → ℕ
forwarding cancel_forwarding = 1
forwarding c = 0

abbrev reporting : Call → ℕ
reporting cancel_sending = 1
reporting cancel_reporting = 1
reporting cancel_caught = 1
reporting c = 0

abbrev running : Call → ℕ
running run_running = 1
running run_failing = 1
running run_reporting = 1
running c = 0

record IsQuery (s : Shared) (l m n : ℕ) : Type 0 where
  uncancelled : (s.pushable ≡ false) ⊎ (s.cancels + l ≡ 0)
  once : s.cancels + l ≤ 1
  reported : s.reports + m ≤ s.cancels
  failed : s.errors + n ≤ s.runs

step-IsQuery :
    (b : Bool) (c : Call) (s : Shared) (l m n : ℕ)
    → IsQuery s (forwarding c + l) (reporting c + m) (running c + n)
    → IsQuery
        (step b c s).1
        (forwarding (step b c s).0 + l)
        (reporting (step b c s).0 + m)
        (running (step b c s).0 + n)
unfolding step
step-IsQuery b c s l m n h = ground (arith, h)

abbrev pub IsStart : Call → Type 0
IsStart run_called = Unit {0}
IsStart cancel_called = Unit {0}
IsStart ctrl_cancel_called = Unit {0}
IsStart ctrl_destroy_called = Unit {0}
IsStart c = ⊥

start-total :
    (calls : List Call)
    → All IsStart calls
    → (total forwarding calls ≡ 0) × (total reporting calls ≡ 0) × (total running calls ≡ 0)
start-total [] h = (refl, refl, refl)
start-total (c ∷ cs) h = ground (arith, h.0, start-total cs h.1)

-- In every interleaving of calls of run() and cancel() on a new query, and of cancel() and destroy()
-- on its control object, and whichever calls throw, the application's query is cancelled once at
-- most, a Cancelled completion is sent to the client once at most and only then, though it is tried
-- again where an exception was caught, and an Error completion is sent at most as often as run()
-- was called in the application.
pub run-cancels_once :
    (schedule : List (ℕ × Bool)) (calls : List Call)
    → All IsStart calls
    → ((run schedule calls new_query).1.cancels ≤ 1)
      × ((run schedule calls new_query).1.reports ≤ (run schedule calls new_query).1.cancels)
      × ((run schedule calls new_query).1.errors ≤ (run schedule calls new_query).1.runs)
run-cancels_once schedule calls h = ground (
  arith,
  run-keeps step forwarding reporting running IsQuery step-IsQuery schedule calls new_query
      (ground (arith, start-total calls h)),
)
