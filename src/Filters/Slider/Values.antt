-- ===== src/Filters/Slider/Values.antt =====
-- The value of a slider, whatever the state of the filters holds.
use unity_scopes_api.Prelude.{◌≡◌, ◌≢◌, ℕ, true, false, [], Text, text_eq_iff, ok, arith}
use unity_scopes_api.Prelude.Doubles.{Doubles}
use unity_scopes_api.Variant.{Fields, double, find, get_double}
use unity_scopes_api.Variant.Laws.{find-insert}
use unity_scopes_api.Filters.{has_filter, get}
use unity_scopes_api.Filters.Slider.{
  SliderLabels, Slider, make_slider, check_range, set_default_value, value, update_state, has_value,
}

abbrev pub IsWithin : Doubles → Slider → ℕ → Type 0
IsWithin D f x = (D.lt x f.min ≡ false) × (D.lt f.max x ≡ false)

value-IsWithin :
    (D : Doubles) (f : Slider) (state : Fields) (x : ℕ)
    → IsWithin D f f.default_val
    → value D f state ≡ ok x
    → IsWithin D f x
unfolding value check_range
value-IsWithin D f state x h e = ground (arith, h, e)

made-IsWithin :
    (D : Doubles) (id : Text) (min max d : ℕ) (l : SliderLabels) (f : Slider)
    → make_slider D id min max d l ≡ ok f
    → IsWithin D f f.default_val
unfolding make_slider
made-IsWithin D id min max d l f e = ground (arith, e)

set-IsWithin :
    (D : Doubles) (f g : Slider) (d : ℕ)
    → set_default_value D f d ≡ ok g
    → IsWithin D g g.default_val
unfolding set_default_value check_range
set-IsWithin D f g d e = ground (arith, e)

-- The value of a slider that was constructed, and of one whose default was set after that, is within
-- its range, whatever the state has for it.
pub made-value :
    (D : Doubles) (id : Text) (min max d e : ℕ) (l : SliderLabels) (f g : Slider)
    → make_slider D id min max d l ≡ ok f
    → set_default_value D f e ≡ ok g
    → (state : Fields) (x : ℕ)
    → (value D f state ≡ ok x → IsWithin D f x) × (value D g state ≡ ok x → IsWithin D g x)
made-value D id min max d e l f g made set state x = (
  value-IsWithin D f state x (made-IsWithin D id min max d l f made),
  value-IsWithin D g state x (set-IsWithin D f g e set),
)

-- A value is accepted exactly if it is within the range; then it is the value of the slider, and the
-- state has what it had for every other filter.
update_state-value :
    (D : Doubles) (f : Slider) (x : ℕ) (state after : Fields) (j : Text)
    → f.id ≢ []
    → update_state D f x state ≡ ok after
    → IsWithin D f x
      × (value D f after ≡ ok x)
      × (has_value f after ≡ ok true)
      × (j ≢ f.id → find j after ≡ find j state)
unfolding update_state check_range value has_value has_filter get get_double
update_state-value D f x state after j h e = ground (
  arith,
  h,
  e,
  find-insert f.id f.id (double x) state,
  find-insert f.id j (double x) state,
  text_eq_iff f.id f.id,
  text_eq_iff f.id j,
)
