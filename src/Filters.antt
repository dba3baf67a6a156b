-- ===== src/Filters.antt =====
-- The option selector filter and the state of filters: src/scopes/internal/FilterStateImpl.cpp,
-- FilterOptionImpl.cpp and OptionSelectorFilterImpl.cpp. The set of pointers that active_options
-- gives is a list here, in the order of the filter's options.
pub mod Options
pub mod Selection
pub mod Updates
pub mod Serial
pub mod Range
pub mod Slider
pub mod DateTime
pub mod Switch
pub mod Buttons
pub mod Kinds
mod Tests
mod Examples
use unity_scopes_api.Prelude.{
  Bool, true, false, ◌&&◌, not, List, [], ◌∷◌, ◌++◌, Option, none, some, Text, text_eq, Result, ok,
  err, Error, invalid_argument, logic_error, ◌>>=◌, ◌>>◌, throw_if, is_empty, is_some,
  if◌then◌else◌,
}
use unity_scopes_api.Variant.{
  Value, Fields, Items, nil, cons, str, array, find, insert, erase, get_string, get_array,
}

unfoldable pub has_filter : Text → Fields → Result Bool
has_filter id state = do throw_if (is_empty id) invalid_argument; ok (is_some (find id state))

unfoldable pub remove : Text → Fields → Result Fields
remove id state = do throw_if (is_empty id) invalid_argument; ok (erase id state)

abbrev value_or_thrown : Option Value → Result Value
value_or_thrown none = err invalid_argument
value_or_thrown (some v) = ok v

unfoldable pub get : Text → Fields → Result Value
get id state = do throw_if (is_empty id) invalid_argument; value_or_thrown (find id state)

pub record FilterOption : Type 0 where
  id : Text
  label : Text
  default_value : Bool

-- The constructor of an option.
unfoldable pub make_option : Text → Text → Result FilterOption
make_option id label = do
  throw_if (is_empty id) invalid_argument
  throw_if (is_empty label) invalid_argument
  ok (record { id = id; label = label; default_value = false })

pub record OptionSelector : Type 0 where
  id : Text
  label : Text
  multi_select : Bool
  options : List FilterOption

abbrev pub any_default : List FilterOption → Bool
any_default [] = false
any_default (p ∷ ps) = if p.default_value then true else any_default ps

unfoldable pub add_option : Text → Text → Bool → OptionSelector → Result OptionSelector
unfolding make_option
add_option id label default_value f = do
  p ← make_option id label
  throw_if (default_value && not f.multi_select && any_default f.options) logic_error
  ok (record f { options = f.options ++ record p { default_value = default_value } ∷ [] })

-- The strings of an array, and whether one is among them.
unfoldable pub strings : Items → Result (List Text)
unfolding get_string
strings nil = ok []
strings (cons v a) = do s ← get_string v; rest ← strings a; ok (s ∷ rest)

unfoldable pub has_id : Text → List Text → Bool
has_id i [] = false
has_id i (j ∷ js) = if text_eq j i then true else has_id i js

unfoldable pub choose : (FilterOption → Bool) → List FilterOption → List FilterOption
choose test [] = []
choose test (p ∷ ps) = if test p then p ∷ choose test ps else choose test ps

abbrev chosen_or_none : List FilterOption → Result (List Text) → List FilterOption
chosen_or_none ps (ok ids) = choose (λ p. has_id p.id ids) ps
chosen_or_none ps (err thrown) = []

unfoldable pub active_options : OptionSelector → Fields → Result (List FilterOption)
unfolding has_filter get get_array strings choose
active_options f state = do
  known ← has_filter f.id state
  ok (
      if known
      then chosen_or_none f.options (get f.id state >>= λ v. get_array v >>= strings)
      else choose (λ p. p.default_value) f.options)

abbrev pub option_known : Text → List FilterOption → Bool
option_known i [] = false
option_known i (p ∷ ps) = if text_eq i p.id then true else option_known i ps

-- The first string that is an option's id ends the search; so does a value that is no string.
unfoldable pub any_known : List FilterOption → Items → Result Bool
unfolding get_string
any_known ps nil = ok false
any_known ps (cons v a) =
    let rest = any_known ps a in get_string v >>= λ s. if option_known s ps then ok true else rest

abbrev true_or_caught : Result Bool → Bool
true_or_caught (ok b) = b
true_or_caught (err thrown) = false

unfoldable pub has_active_option : OptionSelector → Fields → Result Bool
unfolding has_filter get get_array any_known
has_active_option f state = do
  known ← has_filter f.id state
  ok (known && true_or_caught (get f.id state >>= λ v. get_array v >>= any_known f.options))

-- std::find_if over the array for a string, then the end of the array with the string added, or the
-- array without the first such.
unfoldable pub holds : Text → Items → Result Bool
unfolding get_string
holds s nil = ok false
holds s (cons v a) =
    let rest = holds s a in get_string v >>= λ t. if text_eq t s then ok true else rest

abbrev pub push_back : Items → Text → Items
push_back nil s = cons (str s) nil
push_back (cons v a) s = cons v (push_back a s)

abbrev is_string : Text → Value → Bool
is_string s (str t) = text_eq t s
is_string s _ = false

abbrev pub erase_first : Text → Items → Items
erase_first s nil = nil
erase_first s (cons v a) = let rest = erase_first s a in if is_string s v then a else cons v rest

abbrev pub changed : Text → Bool → Bool → Items → Items
changed s true false a = push_back a s
changed s false true a = erase_first s a
changed s true true a = a
changed s false false a = a

abbrev initial : Text → Bool → Items
initial s true = cons (str s) nil
initial s false = nil

unfoldable pub entry_after : Text → Bool → Option Value → Result Items
unfolding get_array holds
entry_after s value none = ok (initial s value)
entry_after s value (some v) = do a ← get_array v; there ← holds s a; ok (changed s value there a)

-- The static update_state, on the state as it is by then.
unfoldable pub update_entry : Text → Text → Bool → Fields → Result Fields
unfolding entry_after
update_entry filter_id option_id value state = do
  throw_if (is_empty filter_id) invalid_argument
  throw_if (is_empty option_id) invalid_argument
  a ← entry_after option_id value (find filter_id state)
  ok (insert filter_id (array a) state)

abbrev kept_or_new : Fields → Result Fields → Fields × Result (Unit {0})
kept_or_new state (ok new) = (new, ok tt)
kept_or_new state (err thrown) = (state, err thrown)

-- update_state with an option, given by its id: the state that it leaves, also where it throws.
unfoldable pub update_state : OptionSelector → Text → Bool → Fields → Fields × Result (Unit {0})
unfolding update_entry
update_state f option_id active state =
    let before = if active && not f.multi_select then erase f.id state else state in
    if option_known option_id f.options
    then kept_or_new before (update_entry f.id option_id active before)
    else (state, err invalid_argument)
