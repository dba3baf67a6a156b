-- ===== src/Filters/Buttons.antt =====
-- Radio buttons and the rating filter, which are option selectors without multiple selection:
-- src/scopes/internal/RadioButtonsFilterImpl.cpp and RatingFilterImpl.cpp.
pub mod Active
use unity_scopes_api.Prelude.{
  ℕ, zero, suc, ◌+◌, ◌/◌, ◌%◌, ltb, Bool, true, false, ◌||◌, not, List, [], ◌∷◌, ◌++◌, Option, none,
  some, Text, codes, Result, ok, err, invalid_argument, logic_error, ◌>>=◌, ◌>>◌, throw_if,
  is_empty, length, if◌then◌else◌,
}
use unity_scopes_api.Prelude.Int.{ℤ, pos, ltb_ℤ, pos_part}
use unity_scopes_api.Variant.{Fields}
use unity_scopes_api.Filters.{FilterOption, OptionSelector, add_option, active_options}
use unity_scopes_api.Filters.Serial.{deserialize}

-- The constructor with an id and a label.
unfoldable pub make_selector : Text → Text → Bool → Result OptionSelector
make_selector id label multi_select = do
  throw_if (is_empty id) invalid_argument
  throw_if (is_empty label) invalid_argument
  ok (record { id = id; label = label; multi_select = multi_select; options = [] })

unfoldable pub make_buttons : Text → Text → Result OptionSelector
unfolding make_selector
make_buttons id label = make_selector id label false

-- None is the null pointer.
abbrev only_option : List FilterOption → Result (Option FilterOption)
only_option [] = ok none
only_option (p ∷ []) = ok (some p)
only_option (p ∷ q ∷ ps) = err logic_error

unfoldable pub active_option : OptionSelector → Fields → Result (Option FilterOption)
unfolding active_options
active_option f state = active_options f state >>= only_option

unfoldable pub deserialize_buttons : Text → Fields → Result OptionSelector
unfolding deserialize
deserialize_buttons id m = do f ← deserialize id m; throw_if f.multi_select logic_error; ok f

pub record Rating : Type 0 where
  pub buttons : OptionSelector
  pub on_icon : Text
  pub off_icon : Text

abbrev pub new_rating : OptionSelector → Rating
new_rating f = record { buttons = f; on_icon = []; off_icon = [] }

unfoldable pub set_on_icon : Text → Rating → Rating
set_on_icon icon f = record f { on_icon = icon }

unfoldable pub set_off_icon : Text → Rating → Rating
set_off_icon icon f = record f { off_icon = icon }

-- The constructor from a VariantMap is that of radio buttons.
unfoldable pub deserialize_rating : Text → Fields → Result Rating
unfolding deserialize_buttons
deserialize_rating id m = do f ← deserialize_buttons id m; ok (new_rating f)

abbrev pub max_rating : ℕ
max_rating = 10

-- std::to_string of a number below 100.
unfoldable pub to_string : ℕ → Text
to_string n = if ltb n 10 then (48 + n) ∷ [] else (48 + n / 10) ∷ (48 + n % 10) ∷ []

-- The loop, with the number of options that are left to add.
unfoldable pub add_ratings : ℕ → ℕ → ℕ → OptionSelector → Result OptionSelector
unfolding add_option to_string
add_ratings zero i top f = ok f
add_ratings (suc left) i top f = do
  g ← add_option (to_string i) (if ltb i top then to_string i ++ codes "+" else to_string i) false f
  add_ratings left (suc i) top g

unfoldable pub make_rating : Text → Text → ℤ → Result Rating
unfolding make_buttons add_ratings
make_rating id label top_rating = do
  f ← make_buttons id label
  throw_if (ltb_ℤ top_rating (pos 2) || ltb_ℤ (pos max_rating) top_rating) logic_error
  g ← add_ratings (pos_part top_rating) 1 (pos_part top_rating) f
  ok (new_rating g)

-- add_option of a rating filter, which never is a default.
unfoldable pub add_rating : Text → Text → Rating → Result Rating
unfolding add_option
add_rating id label f = do
  throw_if (not (ltb (length f.buttons.options) max_rating)) logic_error
  g ← add_option id label false f.buttons
  ok (record f { buttons = g })
