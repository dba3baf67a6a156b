-- ===== src/Filters/Slider/Labels.antt =====
-- Which labels a value slider accepts.
use unity_scopes_api.Prelude.{◌≡◌, ◌≢◌, ℕ, true, false, List, [], ◌∷◌, Text, All}
use unity_scopes_api.Prelude.Doubles.{Doubles}
use unity_scopes_api.Filters.{has_id}
use unity_scopes_api.Filters.Slider.{SliderLabels}

-- Each value is greater than the one before it, and the maximum than the last.
abbrev pub IsAscending : Doubles → ℕ → List (ℕ × Text) → ℕ → Type 0
IsAscending D low [] high = D.lt low high ≡ true
IsAscending D low ((x, s) ∷ ps) high = (D.lt low x ≡ true) × IsAscending D x ps high

-- A label that may stand beside that of the minimum and the maximum.
abbrev pub IsAllowed : SliderLabels → ℕ × Text → Type 0
IsAllowed l p = (p.1 ≢ []) × (p.1 ≢ l.min_label) × (p.1 ≢ l.max_label)

abbrev pub AreDistinct : List (ℕ × Text) → Type 0
AreDistinct [] = Unit {0}
AreDistinct (p ∷ ps) = All (λ q. q.1 ≢ p.1) ps × AreDistinct ps

abbrev Avoid : List (ℕ × Text) → List Text → Type 0
Avoid ps seen = All (λ q. has_id q.1 seen ≡ false) ps
