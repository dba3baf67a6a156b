-- ===== src/Filters/Range.antt =====
-- The range input filter: src/scopes/internal/RangeInputFilterImpl.cpp.
pub mod Values
pub mod Serial
use unity_scopes_api.Prelude.{
  ℕ, zero, suc, Bool, true, false, ◌&&◌, ◌||◌, not, Option, none, some, Text, Result, ok, err,
  Error, invalid_argument, logic_error, not_found, ◌>>=◌, ◌>>◌, throw_if, is_some, if◌then◌else◌,
}
use unity_scopes_api.Prelude.Doubles.{Doubles, le}
use unity_scopes_api.Variant.{
  Value, Fields, Items, nil, cons, null, int, double, array, insert, is_null, get_int, get_double,
  get_array,
}
use unity_scopes_api.Filters.{has_filter, remove, get}

pub record RangeInput : Type 0 where
  pub id : Text
  pub default_start_value : Value
  pub default_end_value : Value
  pub start_prefix_label : Text
  pub start_postfix_label : Text
  pub end_prefix_label : Text
  pub end_postfix_label : Text
  pub central_label : Text

abbrev pub at : Items → ℕ → Option Value
at nil i = none
at (cons v a) zero = some v
at (cons v a) (suc i) = at a i

abbrev is_number : Value → Bool
is_number (int n) = true
is_number (double d) = true
is_number _ = false

abbrev number_at : Option Value → Bool
number_at none = false
number_at (some v) = is_number v

abbrev true_at : ℕ → Result Items → Bool
true_at i (err thrown) = false
true_at i (ok a) = number_at (at a i)

unfoldable pub has_value : RangeInput → Fields → ℕ → Bool
unfolding get get_array
has_value f state i = true_at i (get f.id state >>= get_array)

unfoldable pub has_start_value : RangeInput → Fields → Bool
unfolding has_value
has_start_value f state = has_value f state 0

unfoldable pub has_end_value : RangeInput → Fields → Bool
unfolding has_value
has_end_value f state = has_value f state 1

unfoldable pub check_type : Value → Result (Unit {0})
unfolding is_null
check_type v = throw_if (not (is_number v || is_null v)) invalid_argument

module _ (D : Doubles) where
  abbrev pub number : Option Value → Result ℕ
  number none = err not_found
  number (some (double d)) = ok d
  number (some (int n)) = ok (D.of_int n)
  number (some _) = err not_found

  abbrev number_in : ℕ → Result Items → Result ℕ
  number_in i (err thrown) = err not_found
  number_in i (ok a) = number (at a i)

  unfoldable pub get_value : RangeInput → Fields → ℕ → Result ℕ
  unfolding has_filter get get_array
  get_value f state i = do
    known ← has_filter f.id state
    if known then number_in i (get f.id state >>= get_array) else err not_found

  -- The default, unless the value was found; the kind of the second value decides whether the first
  -- is read as an int.
  abbrev or_default : Value → Value → Result ℕ → Result ℕ
  or_default (double d) w (err not_found) = ok d
  or_default v (int m) (err not_found) = get_int v >>= λ n. ok (D.of_int n)
  or_default v w (err not_found) = err not_found
  or_default v w r = r

  unfoldable pub start_value : RangeInput → Fields → Result ℕ
  unfolding get_value get_int
  start_value f state = or_default f.default_start_value f.default_end_value (get_value f state 0)

  unfoldable pub end_value : RangeInput → Fields → Result ℕ
  unfolding get_value get_int
  end_value f state = or_default f.default_end_value f.default_end_value (get_value f state 1)

  abbrev as_double : Value → Result ℕ
  as_double (double d) = ok d
  as_double v = get_int v >>= λ n. ok (D.of_int n)

  -- Both ends, if there are both, are in order.
  unfoldable pub check_order : Value → Value → Result (Unit {0})
  unfolding get_int is_null
  check_order first last =
      if is_null first || is_null last
      then ok tt
      else (do x ← as_double first; y ← as_double last; throw_if (le D y x) logic_error)

  abbrev updated : RangeInput → Value → Value → Fields → Bool → Result Fields
  updated f first last state true = remove f.id state
  updated f first last state false = do
    check_order first last
    ok (insert f.id (array (cons first (cons last nil))) state)

  unfoldable pub update_state : RangeInput → Value → Value → Fields → Result Fields
  unfolding check_type check_order remove insert is_null
  update_state f first last state = do
    check_type first
    check_type last
    updated f first last state (is_null first && is_null last)
