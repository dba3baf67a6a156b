-- ===== src/Reply.antt =====
-- The receiving end of a query's replies: src/scopes/internal/ReplyObject.cpp. Each call of push,
-- finished or info runs in a thread of its own; a Call is the point that such a thread is at, and a
-- step takes it past the next access to the state that the threads share, or past the next call of
-- the application's listener. What process_data does with the data is a choice of the step, since
-- it calls the application; exceptions of the listener's finished and info are only logged.
-- finished() cancels the ReapItem, and that waits for the end of a pass of the reaper. The reaper
-- thread runs one pass after the other, each of which ends; within its own callback it does not wait,
-- so that a finished() which it calls is one with no pass in progress.
pub mod Finished
pub mod Progress
mod Tests
use unity_scopes_api.Prelude.{
  ℕ, zero, suc, ◌+◌, ◌-◌, ◌==◌, Bool, true, false, List, [], ◌∷◌, ◌++◌, Text, codes, if◌then◌else◌,
}
use unity_scopes_api.Prelude.Threads

pub record OperationInfo : Type 0 where
  code : ℕ
  message : Text

pub data Status : Type 0 where
  ok_status cancelled error_status : Status

pub record CompletionDetails : Type 0 where
  status : Status
  message : Text
  info_list : List OperationInfo

abbrev pub add_infos : List OperationInfo → CompletionDetails → CompletionDetails
add_infos is c = record c { info_list = c.info_list ++ is }

-- What process_data comes to: false, true, or an exception with its what().
pub data Outcome : Type 0 where
  goes_on stops : Outcome
  throws : Text → Outcome

module _ {ℓ} (Data : Type ℓ) where
  -- What the application sees: process_data at work on some data, and the listener's calls.
  pub data Event : Type ℓ where
    begins ends : Data → Event
    informs : OperationInfo → Event
    finishes : CompletionDetails → Event

  pub record Shared : Type ℓ where
    finished : Bool
    num_push : ℕ
    info_list : List OperationInfo
    reaping : Bool
    reap_cancelled : Bool
    connected : Bool
    log : List Event

  pub data Call : Type ℓ where
    -- push: before its look at finished_, before and after ++num_push_, inside process_data, and
    -- before and after --num_push_.
    push_called push_checked push_counted push_processing : Data → Call
    push_leaving push_left : Outcome → Call
    -- finished: before and after the exchange, at the wait, after the wait, and before disconnect.
    finished_called finished_won finished_waiting finished_ready : CompletionDetails → Call
    finished_delivered : Call
    -- info: before and after its look at finished_, and before the listener's info.
    info_called info_checked info_stored : OperationInfo → Call
    -- A pass of the reaper: before it begins, and in it.
    pass_called pass_going : Call
    returned : Call

module _ {ℓ} {Data : Type ℓ} where
  abbrev pub record_event : Event Data → Shared Data → Shared Data
  record_event e s = record s { log = s.log ++ e ∷ [] }

  -- An exception of process_data has a message that is not empty, since a prefix is put before it.
  abbrev pub after_push : Outcome → Call Data
  after_push goes_on = returned
  after_push stops = finished_called (record { status = ok_status; message = []; info_list = [] })
  after_push (throws what) = finished_called (record {
    status = error_status;
    message = codes "ReplyObject::push(VariantMap): " ++ what;
    info_list = [];
  })

  -- One step of a call; there is none where a call waits, for a push that is counted, or for a pass.
  unfoldable pub step : Outcome → Call Data → Shared Data → Call Data × Shared Data
  step o (push_called d) s = (if s.finished then returned else push_checked d, s)
  step o (push_checked d) s = (push_counted d, record s { num_push = suc s.num_push })
  step o (push_counted d) s = (push_processing d, record_event (begins d) s)
  step o (push_processing d) s = (push_leaving o, record_event (ends d) s)
  step o (push_leaving p) s = (push_left p, record s { num_push = s.num_push - 1 })
  step o (push_left p) s = (after_push p, s)
  step o (finished_called c) s =
      if s.finished then (returned, s) else (finished_won c, record s { finished = true })
  step o (finished_won c) s =
      if s.reaping
      then (finished_won c, s)
      else (finished_waiting c, record s { reap_cancelled = true })
  step o (finished_waiting c) s =
      if s.num_push == 0
      then (finished_ready (add_infos s.info_list c), s)
      else (finished_waiting c, s)
  step o (finished_ready c) s = (finished_delivered, record_event (finishes c) s)
  step o finished_delivered s = (returned, record s { connected = false })
  step o (info_called i) s = (if s.finished then returned else info_checked i, s)
  step o (info_checked i) s = (info_stored i, record s { info_list = s.info_list ++ i ∷ [] })
  step o (info_stored i) s = (returned, record_event (informs i) s)
  step o pass_called s =
      if s.reaping then (pass_called, s) else (pass_going, record s { reaping = true })
  step o pass_going s = (returned, record s { reaping = false })
  step o returned s = (returned, s)

  -- An interleaving: which thread is next, and how process_data ends if it is there.
  abbrev pub run :
      List (ℕ × Outcome) → List (Call Data) → Shared Data → List (Call Data) × Shared Data
  run = Threads.run step

  abbrev pub new_reply : Shared Data
  new_reply = record {
    finished = false;
    num_push = 0;
    info_list = [];
    reaping = false;
    reap_cancelled = false;
    connected = true;
    log = [];
  }

  -- The points at which the calls of the middleware, the reaper and the destructor start.
  abbrev pub IsStart : Call Data → Type 0
  IsStart (push_called d) = Unit {0}
  IsStart (finished_called c) = Unit {0}
  IsStart (info_called i) = Unit {0}
  IsStart pass_called = Unit {0}
  IsStart _ = ⊥
