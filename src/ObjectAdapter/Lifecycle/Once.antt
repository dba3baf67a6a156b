-- ===== src/ObjectAdapter/Lifecycle/Once.antt =====
-- What happens once at most in the life of an adapter, and what never comes back.
use unity_scopes_api.Prelude.{ℕ, ◌+◌, ◌≤◌, List, arith}
use unity_scopes_api.Prelude.Threads.{run-keeps_one}
use unity_scopes_api.ObjectAdapter.{AdapterState, inactive, activating}
use unity_scopes_api.ObjectAdapter.Lifecycle.{Shared, Choice, Call, step, run, new_adapter}

-- One as long as the adapter was neither activated nor shut down.
abbrev pub unused : AdapterState → ℕ
unused inactive = 1
unused _ = 0

-- Inactive, activating, or past that.
abbrev pub phase : AdapterState → ℕ
phase inactive = 0
phase activating = 1
phase _ = 2

abbrev unweighted : Call → ℕ
unweighted c = 0

abbrev IsOnce : Shared → ℕ → Type 0
IsOnce s n = (s.activations + unused s.state ≤ 1) × (s.cleanups ≤ 1)

step-IsOnce : (b : Choice) (c : Call) (s : Shared) (n : ℕ) → IsOnce s n → IsOnce (step b c s).1 n
unfolding step
step-IsOnce b c s n h = ground (arith, h)

once : (s : Shared) → IsOnce s 0 → (s.activations ≤ 1) × (s.cleanups ≤ 1)
once s h = omega (arith, h)

-- In every interleaving of calls on a new adapter with its own threads, run_workers starts at most
-- once, and cleanup runs at most once.
pub run-IsOnce :
    (schedule : List (ℕ × Choice)) (calls : List Call) (pool_size : ℕ)
    → ((run schedule calls (new_adapter pool_size)).1.activations ≤ 1)
      × ((run schedule calls (new_adapter pool_size)).1.cleanups ≤ 1)
run-IsOnce schedule calls pool_size = once (run schedule calls (new_adapter pool_size)).1 (
    run-keeps_one step unweighted IsOnce (λ b c s n h. step-IsOnce b c s n h) schedule calls
      (new_adapter pool_size) (omega arith, omega arith))

step-phase :
    (k : ℕ) (b : Choice) (c : Call) (s : Shared)
    → k ≤ phase s.state
    → k ≤ phase (step b c s).1.state
unfolding step
step-phase k b c s h = ground (arith, h)

-- No step of any thread takes an adapter back to inactive once it left that state, nor to activating
-- once it left that one.
pub run-phase :
    (schedule : List (ℕ × Choice)) (calls : List Call) (s : Shared)
    → phase s.state ≤ phase (run schedule calls s).1.state
run-phase schedule calls s =
    run-keeps_one step unweighted (λ t n. phase s.state ≤ phase t.state)
      (λ b c t n h. step-phase (phase s.state) b c t h) schedule calls s (omega arith)
