-- ===== src/Prelude/Threads.antt =====
-- Threads that share a state: each thread is at a point of the call that it makes, and an
-- interleaving is a list of the threads' numbers, with what the environment chooses at each step.
use Prim.Native.Nat.{ℕ, zero, suc, ◌+◌}
use mathlib.Core.Path.{◌≡◌, subst}
use mathlib.Core.List.{List, [], ◌∷◌}
use native.Mathlib.Omega.{arith}

-- The sum of a weight of the threads.
abbrev pub total {ℓ} : {C : Type ℓ} → (C → ℕ) → List C → ℕ
total weight [] = 0
total weight (c ∷ cs) = weight c + total weight cs

module _ {ℓ κ} {C : Type ℓ} {S : Type κ} {O : Type 0} (step : O → C → S → C × S) where
  -- A step of the thread with the given number.
  unfoldable pub step_nth : ℕ → O → List C → S → List C × S
  step_nth n o [] s = ([], s)
  step_nth zero o (c ∷ cs) s = let next = step o c s in (next.0 ∷ cs, next.1)
  step_nth (suc n) o (c ∷ cs) s = let next = step_nth n o cs s in (c ∷ next.0, next.1)

  unfoldable pub run : List (ℕ × O) → List C → S → List C × S
  unfolding step_nth
  run [] cs s = (cs, s)
  run ((n, o) ∷ schedule) cs s = let next = step_nth n o cs s in run schedule next.0 next.1

  -- What holds of the shared state and of three weights of the threads holds along an interleaving,
  -- if it holds along a step of one thread.
  module _ {μ} (w v u : C → ℕ) (P : S → ℕ → ℕ → ℕ → Type μ)
      (one : (o : O) (c : C) (s : S) (l m n : ℕ)
        → P s (w c + l) (v c + m) (u c + n)
        → P
            (step o c s).1
            (w (step o c s).0 + l)
            (v (step o c s).0 + m)
            (u (step o c s).0 + n)) where
    counted_as : (s : S) (l m n l' m' n' : ℕ) → l ≡ l' → m ≡ m' → n ≡ n' → P s l m n → P s l' m' n'
    counted_as s l m n l' m' n' e f g p =
        subst (λ k. P s l' m' k) g (subst (λ k. P s l' k n) f (subst (λ k. P s k m n) e p))

    step_nth-keeps :
        (i : ℕ) (o : O) (cs : List C) (s : S) (l m n : ℕ)
        → P s (l + total w cs) (m + total v cs) (n + total u cs)
        → P
            (step_nth i o cs s).1
            (l + total w (step_nth i o cs s).0)
            (m + total v (step_nth i o cs s).0)
            (n + total u (step_nth i o cs s).0)
    unfolding step_nth
    step_nth-keeps i o [] s l m n p = p
    step_nth-keeps zero o (c ∷ cs) s l m n p =
        counted_as _ _ _ _ _ _ _ (omega arith) (omega arith) (omega arith) (
          one o c s (l + total w cs) (m + total v cs) (n + total u cs)
            (counted_as s _ _ _ _ _ _ (omega arith) (omega arith) (omega arith) p))
    step_nth-keeps (suc i) o (c ∷ cs) s l m n p =
        counted_as _ _ _ _ _ _ _ (omega arith) (omega arith) (omega arith) (
          step_nth-keeps i o cs s (l + w c) (m + v c) (n + u c)
            (counted_as s _ _ _ _ _ _ (omega arith) (omega arith) (omega arith) p))

    pub run-keeps :
        (schedule : List (ℕ × O)) (cs : List C) (s : S)
        → P s (total w cs) (total v cs) (total u cs)
        → P
            (run schedule cs s).1
            (total w (run schedule cs s).0)
            (total v (run schedule cs s).0)
            (total u (run schedule cs s).0)
    unfolding run
    run-keeps [] cs s p = p
    run-keeps ((i, o) ∷ schedule) cs s p =
        let next = step_nth i o cs s in
        run-keeps schedule next.0 next.1 (
          counted_as _ _ _ _ _ _ _ (omega arith) (omega arith) (omega arith) (
            step_nth-keeps i o cs s 0 0 0
              (counted_as s _ _ _ _ _ _ (omega arith) (omega arith) (omega arith) p)))

  -- The same for one weight.
  module _ {μ} (w : C → ℕ) (P : S → ℕ → Type μ)
      (one : (o : O) (c : C) (s : S) (n : ℕ)
        → P s (w c + n)
        → P (step o c s).1 (w (step o c s).0 + n)) where
    pub run-keeps_one :
        (schedule : List (ℕ × O)) (cs : List C) (s : S)
        → P s (total w cs)
        → P (run schedule cs s).1 (total w (run schedule cs s).0)
    run-keeps_one schedule cs s p =
        run-keeps w w w (λ t l m n. P t l) (λ o c t l m n q. one o c t l q) schedule cs s p
