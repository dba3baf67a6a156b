-- ===== src/Filters/Slider.antt =====
-- The value slider filter and its labels: src/scopes/internal/ValueSliderFilterImpl.cpp and
-- ValueSliderLabelsImpl.cpp.
pub mod Labels
pub mod Values
pub mod Serial
use unity_scopes_api.Prelude.{
  ℕ, Bool, true, false, ◌&&◌, ◌||◌, not, List, [], ◌∷◌, Option, none, some, Text, text_eq, codes,
  Result, ok, err, Error, invalid_argument, logic_error, not_found, ◌>>=◌, ◌>>◌, throw_if, is_empty,
  if◌then◌else◌,
}
use unity_scopes_api.Prelude.Doubles.{Doubles, le}
use unity_scopes_api.Variant.{
  Value, Fields, Items, end, nil, cons, str, double, dict, array, Kind, double_kind, which, find,
  find_or, find_string, find_double, insert, get_double, get_string, get_dict, get_array,
}
use unity_scopes_api.Filters.{has_filter, get, has_id}

pub record SliderLabels : Type 0 where
  pub min_label : Text
  pub max_label : Text
  pub extra_labels : List (ℕ × Text)

pub record Slider : Type 0 where
  pub id : Text
  pub min : ℕ
  pub max : ℕ
  pub default_val : ℕ
  pub labels : SliderLabels

module _ (D : Doubles) where
  -- The loop over the extra labels, with the last value and the set of labels so far; it gives the
  -- last value.
  unfoldable pub validate_each : SliderLabels → List (ℕ × Text) → ℕ → List Text → Result ℕ
  unfolding has_id
  validate_each l [] last seen = ok last
  validate_each l ((x, s) ∷ ps) last seen = do
    throw_if (le D x last) invalid_argument
    throw_if (is_empty s) invalid_argument
    throw_if (text_eq s l.min_label || text_eq s l.max_label) invalid_argument
    throw_if (has_id s seen) invalid_argument
    validate_each l ps x (s ∷ seen)

  unfoldable pub validate : SliderLabels → ℕ → ℕ → Result (Unit {0})
  unfolding validate_each
  validate l min max = do
    throw_if (le D max min) invalid_argument
    last ← validate_each l l.extra_labels min []
    throw_if (le D max last) invalid_argument

  unfoldable pub make_slider : Text → ℕ → ℕ → ℕ → SliderLabels → Result Slider
  unfolding validate
  make_slider id min max default_value l = do
    throw_if (is_empty id) invalid_argument
    throw_if (D.lt default_value min || D.lt max default_value) invalid_argument
    validate l min max
    ok (record { id = id; min = min; max = max; default_val = default_value; labels = l })

  unfoldable pub check_range : Slider → ℕ → Result (Unit {0})
  check_range f d = throw_if (D.lt d f.min || D.lt f.max d) invalid_argument

  unfoldable pub set_default_value : Slider → ℕ → Result Slider
  unfolding check_range
  set_default_value f d = do check_range f d; ok (record f { default_val = d })

  abbrev caught : ℕ → Result ℕ → ℕ
  caught d (ok x) = x
  caught d (err thrown) = d

  unfoldable pub value : Slider → Fields → Result ℕ
  unfolding has_filter get get_double check_range
  value f state = do
    known ← has_filter f.id state
    ok (
        if known
        then caught f.default_val (do v ← get f.id state; d ← get_double v; check_range f d; ok d)
        else f.default_val)

  unfoldable pub update_state : Slider → ℕ → Fields → Result Fields
  unfolding check_range insert
  update_state f d state = do check_range f d; ok (insert f.id (double d) state)

abbrev is_double : Value → Bool
is_double (double d) = true
is_double _ = false

unfoldable pub has_value : Slider → Fields → Result Bool
unfolding has_filter get
has_value f state = do
  known ← has_filter f.id state
  if known then get f.id state >>= (λ v. ok (is_double v)) else ok false
