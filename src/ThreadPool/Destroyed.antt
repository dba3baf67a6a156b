-- ===== src/ThreadPool/Destroyed.antt =====
-- What holds when a call that destroys a thread pool returns.
use unity_scopes_api.Prelude.{◌≡◌, ◌⊎◌, refl, ℕ, ◌+◌, ◌≤◌, Bool, false, List, [], ◌∷◌, All, arith}
use unity_scopes_api.Prelude.Threads.{run-keeps, total}
use unity_scopes_api.ThreadPool.{
  created, destroying, destroyed, Shared, Call, destroy_called, destroy_joining, destroy_finishing,
  once_called, wait_called, done, worker, is_destroyed, step, run,
}

abbrev pub joining : Call → ℕ
joining destroy_joining = 1
joining c = 0

-- One for a thread that has joined with the threads of the pool, two for a call that has returned.
abbrev pub ending : Call → ℕ
ending destroy_finishing = 1
ending done = 2
ending c = 0

abbrev pub returned : Call → ℕ
returned done = 1
returned c = 0

abbrev pub working : Call → ℕ
working worker = 1
working c = 0

record IsPool (s : Shared) (l m n : ℕ) : Type 0 where
  counted : s.live ≡ n
  unowned : (l + m ≡ 0) ⊎ ((s.state ≡ destroying) ⊎ (s.state ≡ destroyed))
  one : (l + m ≤ 1) ⊎ (s.state ≡ destroyed)
  joined : (m ≡ 0) ⊎ (s.live ≡ 0)
  ended : (is_destroyed s.state ≡ false) ⊎ ((s.live ≡ 0) × (l ≡ 0))

step-IsPool :
    (b : Bool) (c : Call) (s : Shared) (l m n : ℕ)
    → IsPool s (joining c + l) (ending c + m) (working c + n)
    → IsPool
        (step b c s).1
        (joining (step b c s).0 + l)
        (ending (step b c s).0 + m)
        (working (step b c s).0 + n)
unfolding step
step-IsPool b c s l m n h = ground (arith, h)

-- Where a call of the pool's users begins, or a thread of the pool.
abbrev pub IsStart : Call → Type 0
IsStart destroy_called = Unit {0}
IsStart once_called = Unit {0}
IsStart wait_called = Unit {0}
IsStart worker = Unit {0}
IsStart c = ⊥

start-total :
    (calls : List Call) → All IsStart calls → (total joining calls ≡ 0) × (total ending calls ≡ 0)
start-total [] h = (refl, refl)
start-total (c ∷ cs) h = ground (arith, h.0, start-total cs h.1)

ending-total :
    (calls : List Call) → total returned calls + total returned calls ≤ total ending calls
ending-total [] = omega arith
ending-total (c ∷ cs) = ground (arith, ending-total cs)

-- In every interleaving of calls on a new pool with the threads of the pool, once some call of
-- destroy, destroy_once_empty or wait_for_destroy has returned, the pool is destroyed and all its
-- threads have ended.
pub run-IsDestroyed :
    (schedule : List (ℕ × Bool)) (calls : List Call) (s : Shared)
    → All IsStart calls
    → s.state ≡ created
    → s.live ≡ total working calls
    → 1 ≤ total returned (run schedule calls s).0
    → ((run schedule calls s).1.state ≡ destroyed)
      × ((run schedule calls s).1.live ≡ 0)
      × (total working (run schedule calls s).0 ≡ 0)
run-IsDestroyed schedule calls s h new all r = ground (
  arith,
  r,
  ending-total (run schedule calls s).0,
  run-keeps step joining ending working IsPool step-IsPool schedule calls s
      (ground (arith, new, all, start-total calls h)),
)
