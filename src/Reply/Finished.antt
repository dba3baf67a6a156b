-- ===== src/Reply/Finished.antt =====
-- How often the application is told that a query finished, how pushes are counted, and what is
-- still pushed afterwards, in every interleaving of the calls.
use unity_scopes_api.Prelude.{
  ◌≡◌, ◌⊎◌, refl, sym, inr, ℕ, suc, ◌+◌, ◌≤◌, true, List, [], ◌∷◌, ◌++◌, arith, All, if◌then◌else◌,
}
use unity_scopes_api.Reply.{
  Outcome, Event, begins, ends, informs, finishes, Shared, Call, push_checked, push_counted,
  push_processing, push_leaving, finished_called, finished_won, finished_waiting, finished_ready,
  info_stored, returned, step, run, new_reply, IsStart,
}
use unity_scopes_api.Prelude.Threads.{total, run-keeps_one}

module _ {ℓ} {Data : Type ℓ} where
  -- One for a call between ++num_push_ and --num_push_.
  abbrev pub inside : Call Data → ℕ
  inside (push_counted d) = 1
  inside (push_processing d) = 1
  inside (push_leaving o) = 1
  inside _ = 0

  -- One for a call that won the exchange and has not told the application yet.
  abbrev pub telling : Call Data → ℕ
  telling (finished_won c) = 1
  telling (finished_waiting c) = 1
  telling (finished_ready c) = 1
  telling _ = 0

  -- One for a call of finished that has not come to the exchange.
  abbrev pub asking : Call Data → ℕ
  asking (finished_called c) = 1
  asking _ = 0

  -- One for a push that passed its look at finished_ and is not in process_data yet.
  abbrev pub eager : Call Data → ℕ
  eager (push_checked d) = 1
  eager (push_counted d) = 1
  eager _ = 0

  abbrev pub IsReturned : Call Data → Type 0
  IsReturned returned = Unit {0}
  IsReturned _ = ⊥

  abbrev pub finish_count : List (Event Data) → ℕ
  finish_count [] = 0
  finish_count (finishes c ∷ es) = suc (finish_count es)
  finish_count (_ ∷ es) = finish_count es

  abbrev pub begin_count : List (Event Data) → ℕ
  begin_count [] = 0
  begin_count (begins d ∷ es) = suc (begin_count es)
  begin_count (_ ∷ es) = begin_count es

  finish_count-append :
      (es fs : List (Event Data)) → finish_count (es ++ fs) ≡ finish_count es + finish_count fs
  finish_count-append [] fs = omega arith
  finish_count-append (begins d ∷ es) fs = finish_count-append es fs
  finish_count-append (ends d ∷ es) fs = finish_count-append es fs
  finish_count-append (informs i ∷ es) fs = finish_count-append es fs
  finish_count-append (finishes c ∷ es) fs = omega (arith, finish_count-append es fs)

  begin_count-append :
      (es fs : List (Event Data)) → begin_count (es ++ fs) ≡ begin_count es + begin_count fs
  begin_count-append [] fs = omega arith
  begin_count-append (begins d ∷ es) fs = omega (arith, begin_count-append es fs)
  begin_count-append (ends d ∷ es) fs = begin_count-append es fs
  begin_count-append (informs i ∷ es) fs = begin_count-append es fs
  begin_count-append (finishes c ∷ es) fs = begin_count-append es fs

  abbrev Counted : Shared Data → ℕ → Type 0
  Counted s n = s.num_push ≡ n

  step-Counted :
      (o : Outcome) (c : Call Data) (s : Shared Data) (n : ℕ)
      → Counted s (inside c + n)
      → Counted (step o c s).1 (inside (step o c s).0 + n)
  unfolding step
  step-Counted o c s n h = ground (arith, h)

  -- The flag is set once a call won, and then it is telling the application or has told it.
  abbrev Told : Shared Data → ℕ → Type 0
  Told s n = finish_count s.log + n ≡ (if s.finished then 1 else 0)

  step-Told :
      (o : Outcome) (c : Call Data) (s : Shared Data) (n : ℕ)
      → Told s (telling c + n)
      → Told (step o c s).1 (telling (step o c s).0 + n)
  unfolding step
  step-Told o (push_counted d) s n h =
      ground (arith, h, finish_count-append s.log ((begins d) ∷ []))
  step-Told o (push_processing d) s n h =
      ground (arith, h, finish_count-append s.log ((ends d) ∷ []))
  step-Told o (finished_ready c) s n h =
      ground (arith, h, finish_count-append s.log ((finishes c) ∷ []))
  step-Told o (info_stored i) s n h =
      ground (arith, h, finish_count-append s.log ((informs i) ∷ []))
  step-Told o c s n h = ground (arith, h)

  -- The flag is set, or a call of finished is on its way.
  abbrev Asked : Shared Data → ℕ → Type 0
  Asked s n = (s.finished ≡ true) ⊎ (1 ≤ n)

  step-Asked :
      (o : Outcome) (c : Call Data) (s : Shared Data) (n : ℕ)
      → Asked s (asking c + n)
      → Asked (step o c s).1 (asking (step o c s).0 + n)
  unfolding step
  step-Asked o c s n h = ground (arith, h)

  -- The flag is set, and no more pushes than k have begun or are about to.
  abbrev Bounded : ℕ → Shared Data → ℕ → Type 0
  Bounded k s n = (s.finished ≡ true) × (begin_count s.log + n ≤ k)

  step-Bounded :
      (k : ℕ) (o : Outcome) (c : Call Data) (s : Shared Data) (n : ℕ)
      → Bounded k s (eager c + n)
      → Bounded k (step o c s).1 (eager (step o c s).0 + n)
  unfolding step
  step-Bounded k o (push_counted d) s n h =
      ground (arith, h.0, h.1, begin_count-append s.log ((begins d) ∷ []))
  step-Bounded k o (push_processing d) s n h =
      ground (arith, h.0, h.1, begin_count-append s.log ((ends d) ∷ []))
  step-Bounded k o (finished_ready c) s n h =
      ground (arith, h.0, h.1, begin_count-append s.log ((finishes c) ∷ []))
  step-Bounded k o (info_stored i) s n h =
      ground (arith, h.0, h.1, begin_count-append s.log ((informs i) ∷ []))
  step-Bounded k o c s n h = ground (arith, h.0, h.1)

  pub run-Counted :
      (schedule : List (ℕ × Outcome)) (calls : List (Call Data)) (s : Shared Data)
      → s.num_push ≡ total inside calls
      → (run schedule calls s).1.num_push ≡ total inside (run schedule calls s).0
  run-Counted = run-keeps_one step inside Counted step-Counted

  start-total :
      (calls : List (Call Data))
      → All IsStart calls
      → (total inside calls ≡ 0) × (total telling calls ≡ 0) × (total eager calls ≡ 0)
  start-total [] h = (refl, refl, refl)
  start-total (c ∷ cs) h = ground (arith, h.0, start-total cs h.1)

  returned-total :
      (calls : List (Call Data))
      → All IsReturned calls
      → (total telling calls ≡ 0) × (total asking calls ≡ 0)
  returned-total [] h = (refl, refl)
  returned-total (c ∷ cs) h = ground (arith, h.0, returned-total cs h.1)

  -- In every interleaving of calls on a new object, num_push_ is the number of pushes between its
  -- increment and its decrement.
  pub run-num_push :
      (schedule : List (ℕ × Outcome)) (calls : List (Call Data))
      → All IsStart calls
      → (run schedule calls new_reply).1.num_push ≡ total inside (run schedule calls new_reply).0
  run-num_push schedule calls h =
      run-keeps_one step inside Counted step-Counted schedule calls new_reply
        (sym (start-total calls h).0)

  run-Told :
      (schedule : List (ℕ × Outcome)) (calls : List (Call Data))
      → All IsStart calls
      → Told (run schedule calls new_reply).1 (total telling (run schedule calls new_reply).0)
  run-Told schedule calls h =
      run-keeps_one step telling Told step-Told schedule calls new_reply
        (omega (arith, (start-total calls h).1))

  -- In every interleaving of calls on a new object, the application is told at most once that the
  -- query finished.
  pub run-finishes_once :
      (schedule : List (ℕ × Outcome)) (calls : List (Call Data))
      → All IsStart calls
      → finish_count (run schedule calls new_reply).1.log ≤ 1
  run-finishes_once schedule calls h = ground (arith, run-Told schedule calls h)

  -- In every interleaving of calls on a new object, one of finished among them, after which all have
  -- returned, the application was told exactly once that the query finished.
  pub run-finishes :
      (schedule : List (ℕ × Outcome)) (calls : List (Call Data))
      → All IsStart calls
      → 1 ≤ total asking calls
      → All IsReturned (run schedule calls new_reply).0
      → finish_count (run schedule calls new_reply).1.log ≡ 1
  run-finishes schedule calls h called all_returned = ground (
    arith,
    run-Told schedule calls h,
    returned-total (run schedule calls new_reply).0 all_returned,
    run-keeps_one step asking Asked step-Asked schedule calls new_reply (inr called),
  )

  -- Once the flag finished_ is set, process_data begins at most once more for each push that had
  -- passed its look at the flag by then and had not begun, whatever calls are under way and in
  -- every interleaving; where there is no such push, none begins any more.
  pub run-begins_few :
      (schedule : List (ℕ × Outcome)) (calls : List (Call Data)) (s : Shared Data)
      → s.finished ≡ true
      → begin_count (run schedule calls s).1.log ≤ begin_count s.log + total eager calls
  run-begins_few schedule calls s h = omega (
    arith,
    (run-keeps_one step eager (Bounded (begin_count s.log + total eager calls))
        (step-Bounded (begin_count s.log + total eager calls)) schedule calls s (h, omega arith)).1,
  )
