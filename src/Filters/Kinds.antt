-- ===== src/Filters/Kinds.antt =====
-- Filters of every kind with what their base class has: src/scopes/internal/FilterBaseImpl.cpp, the
-- create functions of the kinds, and FilterGroupImpl.cpp. A group is shared, and known by its
-- address.
pub mod Serial
pub mod Groups
mod Tests
use unity_scopes_api.Prelude.{
  ℕ, zero, suc, ◌+◌, ◌%◌, ◌==◌, Bool, true, false, ◌&&◌, ◌||◌, not, List, [], ◌∷◌, ◌++◌, Option,
  none, some, Text, text_eq, codes, Result, ok, err, Error, invalid_argument, logic_error,
  not_found, ◌>>=◌, ◌>>◌, throw_if, is_empty, is_some, if◌then◌else◌,
}
use unity_scopes_api.Prelude.Int.{ℤ, pos, negsuc, eqb_ℤ, ltb_ℤ}
use unity_scopes_api.Prelude.Doubles.{Doubles}
use unity_scopes_api.Variant.{
  Value, Fields, Items, end, nil, cons, str, int, dict, array, find, find_or, find_string, insert,
  insert_some, text_entry, text_or_empty, get_string, get_dict, get_int,
}
use unity_scopes_api.Filters.{OptionSelector}
use unity_scopes_api.Filters.Serial.{
  serialize as serialize_selector, deserialize as deserialize_selector,
}
use unity_scopes_api.Filters.Buttons.{Rating, deserialize_buttons, deserialize_rating}
use unity_scopes_api.Filters.Switch.{
  Switch, serialize as serialize_switch, deserialize as deserialize_switch,
}
use unity_scopes_api.Filters.Range.{RangeInput}
use unity_scopes_api.Filters.Range.Serial.{
  serialize as serialize_range, deserialize as deserialize_range,
}
use unity_scopes_api.Filters.Slider.{Slider}
use unity_scopes_api.Filters.Slider.Serial.{
  serialize as serialize_slider, deserialize as deserialize_slider,
}
use unity_scopes_api.Filters.DateTime.{DateTimePicker}
use unity_scopes_api.Filters.DateTime.Serial.{
  serialize as serialize_picker, deserialize as deserialize_picker,
}

pub record FilterGroup : Type 0 where
  pub address : ℕ
  pub id : Text
  pub label : Text

-- The classes of filters.
pub data Specific : Type 0 where
  option_selector radio_buttons : OptionSelector → Specific
  rating : Rating → Specific
  switch : Switch → Specific
  range_input : RangeInput → Specific
  value_slider : Slider → Specific
  datetime_picker : DateTimePicker → Specific

-- The id stands in the part that is specific.
pub record Filter : Type 0 where
  pub title : Text
  pub display_hints : ℤ
  pub group : Option FilterGroup
  pub specific : Specific

abbrev pub id_of : Specific → Text
id_of (option_selector f) = f.id
id_of (radio_buttons f) = f.id
id_of (rating f) = f.buttons.id
id_of (switch f) = f.id
id_of (range_input f) = f.id
id_of (value_slider f) = f.id
id_of (datetime_picker f) = f.id

abbrev pub filter_type : Specific → Text
filter_type (option_selector f) = codes "option_selector"
filter_type (radio_buttons f) = codes "radio_buttons"
filter_type (rating f) = codes "rating"
filter_type (switch f) = codes "switch"
filter_type (range_input f) = codes "range_input"
filter_type (value_slider f) = codes "value_slider"
filter_type (datetime_picker f) = codes "datetime_picker"

-- The bit DisplayHints::Primary of an int.
abbrev pub is_primary : ℤ → Bool
is_primary (pos n) = n % 2 == 1
is_primary (negsuc n) = n % 2 == 0

-- A rating filter has the checks of radio buttons, and is serialised as they are.
unfoldable pub validate_display_hints : Specific → ℤ → Result (Unit {0})
validate_display_hints (option_selector f) h =
    throw_if (is_primary h && f.multi_select) invalid_argument
validate_display_hints (radio_buttons f) h = do
  throw_if (is_primary h && f.multi_select) invalid_argument
  throw_if (is_primary h) invalid_argument
validate_display_hints (rating f) h = do
  throw_if (is_primary h && f.buttons.multi_select) invalid_argument
  throw_if (is_primary h) invalid_argument
validate_display_hints s h = throw_if (is_primary h) invalid_argument

unfoldable pub set_hints : ℤ → Result ℤ
set_hints h = do throw_if (ltb_ℤ h (pos 0) || ltb_ℤ (pos 1) h) invalid_argument; ok h

abbrev hinted : Filter → Result ℤ → Filter × Result (Unit {0})
hinted f (err thrown) = (f, err thrown)
hinted f (ok h) = (record f { display_hints = h }, validate_display_hints f.specific h)

-- FilterBase::set_display_hints, which validates once the hints are set.
unfoldable pub set_display_hints : ℤ → Filter → Filter × Result (Unit {0})
unfolding validate_display_hints set_hints
set_display_hints h f = hinted f (set_hints h)

unfoldable pub serialize_specific : Specific → Fields → Fields
unfolding serialize_selector serialize_switch serialize_range serialize_slider serialize_picker
serialize_specific (option_selector f) m = serialize_selector f m
serialize_specific (radio_buttons f) m = serialize_selector f m
serialize_specific (rating f) m = serialize_selector f.buttons m
serialize_specific (switch f) m = serialize_switch f m
serialize_specific (range_input f) m = serialize_range f m
serialize_specific (value_slider f) m = serialize_slider f m
serialize_specific (datetime_picker f) m = serialize_picker f m

abbrev pub hints_entry : ℤ → Option Value
hints_entry h = if eqb_ℤ h (pos 0) then none else some (int h)

abbrev pub group_entry : Option FilterGroup → Option Value
group_entry none = none
group_entry (some g) = some (str g.id)

unfoldable pub serialize_base : Filter → Fields
serialize_base f = insert_some (codes "filter_group") (group_entry f.group) (
    insert (codes "filter_type") (str (filter_type f.specific)) (
      insert_some (codes "display_hints") (hints_entry f.display_hints) (
        insert_some (codes "title") (text_entry f.title)
          (insert (codes "id") (str (id_of f.specific)) end))))

unfoldable pub serialize : Filter → Fields
unfolding serialize_specific serialize_base
serialize f = serialize_specific f.specific (serialize_base f)

-- The constructor of the base class. Other kinds of values are passed over.
abbrev hints_of : Option Value → Result ℤ
hints_of (some (int h)) = set_hints h
hints_of (some (str s)) = set_hints (if text_eq s (codes "primary") then pos 1 else pos 0)
hints_of o = ok (pos 0)

pub record Base : Type 0 where
  pub id : Text
  pub title : Text
  pub display_hints : ℤ

unfoldable pub deserialize_base : Fields → Result Base
unfolding find find_string set_hints get_string
deserialize_base m = do
  id ← find_string (codes "id") m
  title ← text_or_empty (find (codes "title") m)
  h ← hints_of (find (codes "display_hints") m)
  ok (record { id = id; title = title; display_hints = h })

abbrev pub made : Base → Specific → Filter
made b s = record { title = b.title; display_hints = b.display_hints; group = none; specific = s }

abbrev pub validated : Base → Specific → Result Filter
validated b s = do validate_display_hints s b.display_hints; ok (made b s)

module _ (D : Doubles) where
  -- The create function of the kind with this name.
  unfoldable pub create : Text → Fields → Result Filter
  unfolding deserialize_base deserialize_selector deserialize_buttons deserialize_rating
      deserialize_range deserialize_switch deserialize_slider deserialize_picker
      validate_display_hints
  create ftype m =
      if text_eq ftype (codes "option_selector")
      then (do
        b ← deserialize_base m
        f ← deserialize_selector b.id m
        validated b (option_selector f))
      else if text_eq ftype (codes "range_input")
      then (do b ← deserialize_base m; f ← deserialize_range b.id m; validated b (range_input f))
      else if text_eq ftype (codes "radio_buttons")
      then (do
        b ← deserialize_base m
        f ← deserialize_buttons b.id m
        validated b (radio_buttons f))
      else if text_eq ftype (codes "rating")
      then (do b ← deserialize_base m; f ← deserialize_rating b.id m; ok (made b (rating f)))
      else if text_eq ftype (codes "switch")
      then (do b ← deserialize_base m; f ← deserialize_switch b.id m; validated b (switch f))
      else if text_eq ftype (codes "value_slider")
      then (do
        b ← deserialize_base m
        f ← deserialize_slider D b.id m
        validated b (value_slider f))
      else if text_eq ftype (codes "datetime_picker")
      then (do
        b ← deserialize_base m
        f ← deserialize_picker b.id m
        validated b (datetime_picker f))
      else err logic_error

  unfoldable pub deserialize : Fields → Result Filter
  unfolding find_or get_string create
  deserialize m = do
    v ← find_or logic_error (codes "filter_type") m
    ftype ← get_string v
    create ftype m

abbrev no_options : OptionSelector → Bool
no_options f = elim f.options [ [] ↦ true | p ∷ ps ↦ false ]

abbrev is_empty_selector : Specific → Bool
is_empty_selector (option_selector f) = no_options f
is_empty_selector (radio_buttons f) = no_options f
is_empty_selector (rating f) = no_options f.buttons
is_empty_selector s = false

abbrev throw_if_invalid : Option Filter → Result (Unit {0})
throw_if_invalid none = err logic_error
throw_if_invalid (some f) = throw_if (is_empty_selector f.specific) logic_error

-- None is the null pointer.
unfoldable pub validate_filters : List (Option Filter) → Result (Unit {0})
validate_filters [] = ok tt
validate_filters (o ∷ os) = do throw_if_invalid o; validate_filters os
