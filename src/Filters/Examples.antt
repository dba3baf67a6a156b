-- ===== src/Filters/Examples.antt =====
-- Runs of the other filters, and their theorems at concrete ones. Here a double is a number that
-- stands for itself.
use unity_scopes_api.Prelude.{
  ◌≡◌, ◌≢◌, text_eq, refl, ℕ, ltb, ◌==◌, ◌+◌, ◌*◌, true, false, [], ◌∷◌, none, some, Text, codes,
  ok, err, logic_error, not_found, arith,
}
use unity_scopes_api.Prelude.Int.{pos, pos_part}
use unity_scopes_api.Prelude.Doubles.{Doubles, le}
use unity_scopes_api.Variant.{
  Value, Fields, end, field, nil, cons, null, int, int64, double, dict, array, find,
}
use unity_scopes_api.Filters.Range.{
  RangeInput, start_value, get_value, number, update_state as update_range,
}
use unity_scopes_api.Filters.Range.Values.{update_state-values}
use unity_scopes_api.Filters.Slider.{Slider, SliderLabels, validate, value}
use unity_scopes_api.Filters.DateTime.{
  DateTimePicker, second, update_state as update_picker, selected_date, has_selected_date,
}
use unity_scopes_api.Filters.DateTime.Values.{update_state-selected, whole}

abbrev numbers : Doubles
numbers = record { lt = ltb; equal = λ a b. a == b; of_int = pos_part }

abbrev price : Value → Value → RangeInput
price first last = record {
  id = codes "price";
  default_start_value = first;
  default_end_value = last;
  start_prefix_label = [];
  start_postfix_label = [];
  end_prefix_label = [];
  end_postfix_label = [];
  central_label = [];
}

-- The default start of 3 is not found where the default end is no int, and null is read as an int
-- where the default end is one.
missed_default : start_value numbers (price (int (pos 3)) null) end ≡ err not_found
unfolding start_value find
missed_default = refl

thrown_default : start_value numbers (price null (int (pos 9))) end ≡ err logic_error
unfolding start_value find
thrown_default = refl

priced : Fields
priced = field (codes "price") (array (cons (int (pos 2)) (cons (double 7) nil))) end

update_state-values_example :
    (get_value numbers (price null null) priced 0 ≡ ok 2)
    × (get_value numbers (price null null) priced 1 ≡ ok 7)
    × ((x y : ℕ)
        → number numbers (some (int (pos 2))) ≡ ok x
        → number numbers (some (double 7)) ≡ ok y
        → le numbers y x ≡ false)
unfolding update_range priced
update_state-values_example =
    update_state-values numbers (price null null) (int (pos 2)) (double 7) end priced (λ e. cc) tt
      refl

abbrev sizes : SliderLabels
sizes = record { min_label = codes "S"; max_label = codes "L"; extra_labels = (5, codes "M") ∷ [] }

sizes_accepted : validate numbers sizes 1 9 ≡ ok tt
unfolding validate text_eq
sizes_accepted = refl

abbrev slider : ℕ → Slider
slider d = record { id = codes "size"; min = 1; max = 9; default_val = d; labels = sizes }

-- The state has a value that is out of range.
out_of_range : value numbers (slider 2) (field (codes "size") (double 12) end) ≡ ok 2
unfolding value text_eq find
out_of_range = refl

abbrev picker : DateTimePicker
picker = record {
  id = codes "day";
  mode = 3;
  time_label = [];
  date_label = codes "Day";
  min = some (pos (10 * second + 500000000));
  max = none;
}

update_state-selected_example :
    (after : Fields) × (update_picker picker (pos (12 * second + 7)) end ≡ ok after)
    × (selected_date picker after ≡ ok (whole (pos (12 * second + 7))))
    × (has_selected_date picker after ≡ ok true)
    × ((j : Text) → j ≢ picker.id → find j after ≡ find j end)
update_state-selected_example =
    update_state-selected picker (pos (12 * second + 7)) end (λ e. cc) (omega arith) tt

-- A date less than a second before the minimum is accepted, but then it is out of the range.
abbrev early : Fields
early = field (codes "day") (dict (field (codes "date") (int64 (pos 9)) end)) end

early_accepted : update_picker picker (pos (9 * second + 600000000)) end ≡ ok early
unfolding update_picker
early_accepted = refl

early_refused : selected_date picker early ≡ err logic_error
unfolding selected_date text_eq
early_refused = refl
