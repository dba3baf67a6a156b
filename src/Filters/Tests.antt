-- ===== src/Filters/Tests.antt =====
-- Runs of the option selector, and its theorems at a concrete filter.
use unity_scopes_api.Prelude.{
  ◌≡◌, refl, Bool, true, false, [], ◌∷◌, Text, text_eq, codes, ok, err, logic_error, if◌then◌else◌,
}
use unity_scopes_api.Variant.{Fields, Items, end, field, nil, cons, str, int, array, find, erase}
use unity_scopes_api.Prelude.Int.{pos}
use unity_scopes_api.Filters.{
  FilterOption, OptionSelector, add_option, active_options, update_state, choose, has_id, remove,
  strings,
}
use unity_scopes_api.Filters.Updates.{update_state-exact, update_state-only}

abbrev option_of : Text → Bool → FilterOption
option_of i d = record { id = i; label = codes "L"; default_value = d }

abbrev colours : Bool → OptionSelector
colours multi = record {
  id = codes "f";
  label = codes "Colour";
  multi_select = multi;
  options = option_of (codes "r") true ∷ option_of (codes "g") false ∷ [];
}

abbrev red : Items
red = cons (str (codes "r")) nil

abbrev state_with : Items → Fields
state_with a = field (codes "f") (array a) end

defaults : active_options (colours false) end ≡ ok (option_of (codes "r") true ∷ [])
unfolding active_options text_eq find
defaults = refl

second_default : add_option (codes "b") (codes "Blue") true (colours false) ≡ err logic_error
unfolding add_option
second_default = refl

removed : remove (codes "f") (state_with red) ≡ ok end
unfolding remove text_eq erase
removed = refl

abbrev mixed : Items
mixed = cons (str (codes "r")) (cons (int (pos 1)) nil)

update_state-exact_example :
    ((update_state (colours true) (codes "g") true (state_with red)).1 ≡ ok tt)
    × (active_options
          (colours true)
          (update_state (colours true) (codes "g") true (state_with red)).0
        ≡ ok (
            choose
              (λ p. if text_eq (codes "g") p.id then true else has_id p.id (codes "r" ∷ []))
              (colours true).options))
unfolding find text_eq strings has_id
update_state-exact_example =
    update_state-exact (colours true) (codes "g") true (state_with red) red (codes "r" ∷ [])
      (λ e. cc) (λ e. cc) refl refl refl refl (refl, tt)

update_state-only_example :
    ((update_state (colours false) (codes "g") true (state_with red)).1 ≡ ok tt)
    × (active_options
          (colours false)
          (update_state (colours false) (codes "g") true (state_with red)).0
        ≡ ok (choose (λ p. text_eq (codes "g") p.id) (colours false).options))
unfolding text_eq
update_state-only_example =
    update_state-only (colours false) (codes "g") (state_with red) (λ e. cc) (λ e. cc) refl refl
      (tt, tt)
