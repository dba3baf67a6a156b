-- ===== src/Prelude/Doubles.antt =====
-- The C++ double: a number stands for the bits of one, and the comparisons and the conversion of an
-- int are given.
use unity_scopes_api.Prelude.{ℕ, Bool, ◌||◌, ◌≡◌, true, not}
use unity_scopes_api.Prelude.Int.{ℤ}

pub record Doubles : Type 0 where
  pub lt : ℕ → ℕ → Bool
  pub equal : ℕ → ℕ → Bool
  pub of_int : ℤ → ℕ

-- `<=`, which a NaN makes false on either side.
abbrev pub le : Doubles → ℕ → ℕ → Bool
le D x y = D.lt x y || D.equal x y

-- Not a NaN, which is not equal to itself.
abbrev pub IsNumber : Doubles → ℕ → Type 0
IsNumber D x = D.equal x x ≡ true

-- That two doubles compare as numbers do unless one of them is a NaN.
abbrev pub IsOrdered : Doubles → Type 0
IsOrdered D = (x y : ℕ) → IsNumber D x → IsNumber D y → le D x y ≡ not (D.lt y x)
