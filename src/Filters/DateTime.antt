-- ===== src/Filters/DateTime.antt =====
-- The date and time picker: src/scopes/internal/DateTimePickerFilterImpl.cpp. A time point is its
-- number of nanoseconds since the epoch, without the limits of 64 bits.
pub mod Values
pub mod Serial
use unity_scopes_api.Prelude.{
  ℕ, zero, suc, ◌+◌, ◌-◌, ◌*◌, ◌/◌, ◌%◌, leb, ltb, Bool, true, false, ◌&&◌, not, List, Option, none,
  some, Text, codes, Result, ok, err, Error, invalid_argument, logic_error, not_found, ◌>>=◌, ◌>>◌,
  throw_if, is_empty, is_some, if◌then◌else◌,
}
use unity_scopes_api.Prelude.Int.{ℤ, pos, negsuc, pos_part, neg_part}
use unity_scopes_api.Variant.{Value, Fields, end, dict, int64, find, insert, get_int64, get_dict}
use unity_scopes_api.Filters.{has_filter, get}

abbrev pub second : ℕ
second = 1000000000

pub record DateTimePicker : Type 0 where
  pub id : Text
  pub mode : ℕ
  pub time_label : Text
  pub date_label : Text
  pub min : Option ℤ
  pub max : Option ℤ

-- - n
abbrev pub minus : ℕ → ℤ
minus zero = pos 0
minus (suc n) = negsuc n

-- duration_cast rounds towards zero.
unfoldable pub to_seconds_from_epoch : ℤ → ℤ
to_seconds_from_epoch (pos n) = pos (n / second)
to_seconds_from_epoch (negsuc n) = minus (suc n / second)

unfoldable pub to_timepoint : ℤ → ℤ
to_timepoint (pos n) = pos (n * second)
to_timepoint (negsuc n) = minus (suc n * second)

unfoldable pub minimum : DateTimePicker → Result ℤ
minimum f = elim f.min [ none ↦ err logic_error | some t ↦ ok t ]

unfoldable pub maximum : DateTimePicker → Result ℤ
maximum f = elim f.max [ none ↦ err logic_error | some t ↦ ok t ]

-- date >= t - 1s, and date < t + 1s.
abbrev from_min : Option ℤ → ℤ → Bool
from_min none date = true
from_min (some t) date = leb (pos_part t + neg_part date) (pos_part date + neg_part t + second)

abbrev to_max : Option ℤ → ℤ → Bool
to_max none date = true
to_max (some t) date = ltb (pos_part date + neg_part t) (pos_part t + neg_part date + second)

unfoldable pub is_valid_date : DateTimePicker → ℤ → Bool
is_valid_date f date = from_min f.min date && to_max f.max date

abbrev has_date : Result Fields → Bool
has_date (err thrown) = false
has_date (ok m) = is_some (find (codes "date") m)

unfoldable pub has_selected_date : DateTimePicker → Fields → Result Bool
unfolding has_filter get get_dict find
has_selected_date f state = do
  known ← has_filter f.id state
  ok (if known then has_date (get f.id state >>= get_dict) else false)

-- A date that is there is refused where it is not valid; what is thrown on the way to it is caught.
abbrev checked : DateTimePicker → Result ℤ → Result ℤ
checked f (err thrown) = err not_found
checked f (ok date) = if is_valid_date f date then ok date else err logic_error

abbrev date_of : Option Value → Result ℤ
date_of none = err not_found
date_of (some v) = get_int64 v >>= λ s. ok (to_timepoint s)

unfoldable pub selected_date : DateTimePicker → Fields → Result ℤ
unfolding has_filter get get_dict find get_int64 to_timepoint is_valid_date
selected_date f state = do
  known ← has_filter f.id state
  if known
      then checked f (get f.id state >>= get_dict >>= λ m. date_of (find (codes "date") m))
      else err not_found

unfoldable pub update_entry : Text → ℤ → Fields → Result Fields
unfolding insert to_seconds_from_epoch
update_entry filter_id date state = do
  throw_if (is_empty filter_id) invalid_argument
  ok (
      insert filter_id (dict (insert (codes "date") (int64 (to_seconds_from_epoch date)) end))
        state)

unfoldable pub update_state : DateTimePicker → ℤ → Fields → Result Fields
unfolding is_valid_date update_entry
update_state f date state = do
  throw_if (not (is_valid_date f date)) logic_error
  update_entry f.id date state
