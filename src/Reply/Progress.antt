-- ===== src/Reply/Progress.antt =====
-- No interleaving of the calls ends in a deadlock.
use unity_scopes_api.Prelude.{
  ◌≡◌, ◌⊎◌, refl, inl, inr, ℕ, zero, suc, ◌≤◌, Bool, true, false, List, [], ◌∷◌, arith, All, ◌+◌,
  if◌then◌else◌,
}
use unity_scopes_api.Reply.{
  Outcome, goes_on, Shared, Call, push_called, push_checked, push_counted, push_processing,
  push_leaving, push_left, finished_called, finished_won, finished_waiting, finished_ready,
  finished_delivered, info_called, info_checked, info_stored, pass_called, pass_going, returned,
  step, run, new_reply, IsStart,
}
use unity_scopes_api.Prelude.Threads
use unity_scopes_api.Prelude.Threads.{total, step_nth, run-keeps_one}
use unity_scopes_api.Reply.Finished.{inside, IsReturned, run-num_push, run-Counted}

zero_or_positive : (n : ℕ) → (n ≡ 0) ⊎ (1 ≤ n)
zero_or_positive zero = inl refl
zero_or_positive (suc n) = inr (omega arith)

module _ {ℓ} {Data : Type ℓ} where
  -- How many steps a call has before it at most.
  abbrev pub rank : Call Data → ℕ
  rank (push_called d) = 11
  rank (push_checked d) = 10
  rank (push_counted d) = 9
  rank (push_processing d) = 8
  rank (push_leaving o) = 7
  rank (push_left o) = 6
  rank (finished_called c) = 5
  rank (finished_won c) = 4
  rank (finished_waiting c) = 3
  rank (finished_ready c) = 2
  rank finished_delivered = 1
  rank (info_called i) = 3
  rank (info_checked i) = 2
  rank (info_stored i) = 1
  rank pass_called = 2
  rank pass_going = 1
  rank returned = 0

  -- A call that waits for the pushes to end.
  abbrev waits : Call Data → Bool
  waits (finished_waiting c) = true
  waits _ = false

  -- A call that waits for the end of a pass.
  abbrev waits_pass : Call Data → Bool
  waits_pass (finished_won c) = true
  waits_pass pass_called = true
  waits_pass _ = false

  -- One for a pass in progress.
  abbrev going : Call Data → ℕ
  going pass_going = 1
  going _ = 0

  abbrev Passing : Shared Data → ℕ → Type 0
  Passing s n = (if s.reaping then 1 else 0) ≡ n

  step-Passing :
      (o : Outcome) (c : Call Data) (s : Shared Data) (n : ℕ)
      → Passing s (going c + n)
      → Passing (step o c s).1 (going (step o c s).0 + n)
  unfolding step
  step-Passing o c s n h = ground (arith, h)

  run-Passing :
      (schedule : List (ℕ × Outcome)) (cs : List (Call Data)) (s : Shared Data)
      → Passing s (total going cs)
      → Passing (run schedule cs s).1 (total going (run schedule cs s).0)
  run-Passing = run-keeps_one step going Passing step-Passing

  start-going : (calls : List (Call Data)) → All IsStart calls → total going calls ≡ 0
  start-going [] h = refl
  start-going (c ∷ cs) h = ground (arith, h.0, start-going cs h.1)

  step-rank :
      (o : Outcome) (c : Call Data) (s : Shared Data)
      → (s.num_push ≡ 0) ⊎ (waits c ≡ false)
      → (s.reaping ≡ false) ⊎ (waits_pass c ≡ false)
      → 1 ≤ rank c
      → suc (rank (step o c s).0) ≤ rank c
  unfolding step
  step-rank o c s h g k = ground (arith, h, g, k)

  inside-rank :
      (c : Call Data) → 1 ≤ inside c → (waits c ≡ false) × (waits_pass c ≡ false) × (1 ≤ rank c)
  inside-rank c h = ground (arith, h)

  going-rank :
      (c : Call Data) → 1 ≤ going c → (waits c ≡ false) × (waits_pass c ≡ false) × (1 ≤ rank c)
  going-rank c h = ground (arith, h)

  -- A thread whose step goes on, however process_data ends.
  abbrev pub CanStep : List (Call Data) → Shared Data → Type 0
  CanStep cs s =
      (i : ℕ) × ((o : Outcome) → suc (total rank (step_nth step i o cs s).0) ≤ total rank cs)

  here :
      (c : Call Data) (cs : List (Call Data)) (s : Shared Data)
      → (s.num_push ≡ 0) ⊎ (waits c ≡ false)
      → (s.reaping ≡ false) ⊎ (waits_pass c ≡ false)
      → 1 ≤ rank c
      → CanStep (c ∷ cs) s
  unfolding step_nth
  here c cs s h g k = (0, λ o. omega (arith, step-rank o c s h g k))

  later :
      (c : Call Data) (cs : List (Call Data)) (s : Shared Data) → CanStep cs s → CanStep (c ∷ cs) s
  unfolding step_nth
  later c cs s (i, goes) = (suc i, λ o. omega (arith, goes o))

  idle-CanStep :
      (cs : List (Call Data)) (s : Shared Data)
      → s.num_push ≡ 0
      → s.reaping ≡ false
      → 1 ≤ total rank cs
      → CanStep cs s
  idle-CanStep [] s h g k = absurd (omega (arith, k))
  idle-CanStep (c ∷ cs) s h g k = elim (zero_or_positive (rank c)) [
    | inl z ↦ later c cs s (idle-CanStep cs s h g (omega (arith, z, k)))
    | inr p ↦ here c cs s (inl h) (inl g) p
  ]

  busy-CanStep : (cs : List (Call Data)) (s : Shared Data) → 1 ≤ total inside cs → CanStep cs s
  busy-CanStep [] s k = absurd (omega (arith, k))
  busy-CanStep (c ∷ cs) s k = elim (zero_or_positive (inside c)) [
    | inl z ↦ later c cs s (busy-CanStep cs s (omega (arith, z, k)))
    | inr p ↦ let moves = inside-rank c p in here c cs s (inr moves.0) (inr moves.1) moves.2
  ]

  passing-CanStep : (cs : List (Call Data)) (s : Shared Data) → 1 ≤ total going cs → CanStep cs s
  passing-CanStep [] s k = absurd (omega (arith, k))
  passing-CanStep (c ∷ cs) s k = elim (zero_or_positive (going c)) [
    | inl z ↦ later c cs s (passing-CanStep cs s (omega (arith, z, k)))
    | inr p ↦ let moves = going-rank c p in here c cs s (inr moves.0) (inr moves.1) moves.2
  ]

  counted-CanStep :
      (cs : List (Call Data)) (s : Shared Data)
      → s.num_push ≡ total inside cs
      → Passing s (total going cs)
      → 1 ≤ total rank cs
      → CanStep cs s
  counted-CanStep cs s e f k = elim (zero_or_positive (total inside cs)) [
    | inr p ↦ busy-CanStep cs s p
    | inl z ↦ elim (zero_or_positive (total going cs)) [
      | inr p ↦ passing-CanStep cs s p
      | inl y ↦ idle-CanStep cs s (omega (arith, z, e)) (ground (arith, y, f)) k
    ]
  ]

  rank-IsReturned : (cs : List (Call Data)) → total rank cs ≡ 0 → All IsReturned cs
  rank-IsReturned [] e = tt
  rank-IsReturned (c ∷ cs) e = ground (arith, e, rank-IsReturned cs)

  -- From any point at which num_push_ counts the pushes inside, all calls can be run to their end.
  completes :
      (n : ℕ) (cs : List (Call Data)) (s : Shared Data)
      → s.num_push ≡ total inside cs
      → Passing s (total going cs)
      → total rank cs ≤ n
      → (schedule : List (ℕ × Outcome)) × All IsReturned (run schedule cs s).0
  unfolding Threads.run
  completes zero cs s e f k = ([], rank-IsReturned cs (omega (arith, k)))
  completes (suc n) cs s e f k = elim (zero_or_positive (total rank cs)) [
    | inl z ↦ ([], rank-IsReturned cs z)
    | inr p ↦
        let (i, goes) = counted-CanStep cs s e f p in
        let next = step_nth step i goes_on cs s in
        let (rest, all_returned) =
          completes n next.0 next.1 (run-Counted ((i, goes_on) ∷ []) cs s e)
            (run-Passing ((i, goes_on) ∷ []) cs s f) (omega (arith, goes goes_on, k)) in
        ((i, goes_on) ∷ rest, all_returned)
  ]

  -- No interleaving of calls on a new object and passes of the reaper, each of which ends once it has
  -- begun, is a dead end, although finished() waits for the pushes that are counted and, where it
  -- cancels the ReapItem, for a pass in progress: all calls have returned, or a step of
  -- some thread goes on whatever process_data does, with fewer steps left to all calls together; and
  -- every interleaving can be continued until all calls have returned.
  pub run-CanStep :
      (schedule : List (ℕ × Outcome)) (calls : List (Call Data))
      → All IsStart calls
      → (All IsReturned (run schedule calls new_reply).0
          ⊎ CanStep (run schedule calls new_reply).0 (run schedule calls new_reply).1)
        × ((rest : List (ℕ × Outcome)) × All IsReturned
              (run rest (run schedule calls new_reply).0 (run schedule calls new_reply).1).0)
  run-CanStep schedule calls h =
      let now = run schedule calls new_reply in
      let counted = run-num_push schedule calls h in
      let passing = run-Passing schedule calls new_reply (ground (arith, start-going calls h)) in
      (
        elim (zero_or_positive (total rank now.0)) [
          | inl z ↦ inl (rank-IsReturned now.0 z)
          | inr p ↦ inr (counted-CanStep now.0 now.1 counted passing p)
        ],
        completes (total rank now.0) now.0 now.1 counted passing (omega arith),
      )
