-- ===== src/Filters/Kinds/Tests.antt =====
-- Radio buttons, rating filters and lists of filters of several kinds, at concrete ones.
use unity_scopes_api.Prelude.{
  ◌≡◌, refl, ltb, ◌==◌, Bool, true, false, List, [], ◌∷◌, none, some, Text, text_eq, codes, ok, err,
  invalid_argument, ◌*◌,
}
use unity_scopes_api.Prelude.Int.{pos, pos_part}
use unity_scopes_api.Prelude.Dict.{find as find_group}
use unity_scopes_api.Prelude.Doubles.{Doubles}
use unity_scopes_api.Variant.{Items, end, field, nil, cons, str, dict}
use unity_scopes_api.Filters.{OptionSelector, FilterOption, update_state}
use unity_scopes_api.Filters.Buttons.{active_option}
use unity_scopes_api.Filters.Buttons.Active.{active_option-updated}
use unity_scopes_api.Filters.DateTime.{second}
use unity_scopes_api.Filters.Kinds.{
  Filter, FilterGroup, option_selector, switch, datetime_picker, set_display_hints,
}
use unity_scopes_api.Filters.Kinds.Groups.{Groups}

abbrev button : Text → Bool → FilterOption
button i d = record { id = i; label = codes "L"; default_value = d }

abbrev buttons : OptionSelector
buttons = record {
  id = codes "b";
  label = codes "Sort";
  multi_select = false;
  options = button (codes "up") true ∷ button (codes "down") false ∷ [];
}

active_option-updated_example :
    (p : FilterOption) × (active_option buttons (update_state buttons (codes "down") true end).0
      ≡ ok (some p))
    × (p.id ≡ codes "down")
unfolding text_eq
active_option-updated_example =
    active_option-updated buttons (codes "down") end (λ e. cc) (λ e. cc) refl
      ((λ e. cc, tt), (tt, tt)) refl tt

abbrev numbers : Doubles
numbers = record { lt = ltb; equal = λ a b. a == b; of_int = pos_part }

abbrev shared_group : FilterGroup
shared_group = record { address = 40; id = codes "g"; label = codes "Group" }

abbrev filters : List Filter
filters =
    record {
      title = codes "T";
      display_hints = pos 1;
      group = none;
      specific = option_selector buttons;
    }
    ∷ record {
      title = [];
      display_hints = pos 0;
      group = some shared_group;
      specific = switch (record { id = codes "s"; label = codes "On" });
    }
    ∷ record {
      title = [];
      display_hints = pos 0;
      group = some shared_group;
      specific = datetime_picker (record {
        id = codes "d";
        mode = 3;
        time_label = [];
        date_label = codes "Day";
        min = some (pos (2 * second));
        max = none;
      });
    }
    ∷ []

abbrev written_groups : Items
written_groups =
    cons
      (dict
        (field (codes "id") (str (codes "g")) (field (codes "label") (str (codes "Group")) end)))
      nil

-- The hints stay set although the kind refuses them.
hints_kept :
    set_display_hints (pos 1) (record {
      title = [];
      display_hints = pos 0;
      group = none;
      specific = switch (record { id = codes "s"; label = codes "On" });
    })
    ≡ (
      record {
        title = [];
        display_hints = pos 1;
        group = none;
        specific = switch (record { id = codes "s"; label = codes "On" });
      },
      err invalid_argument,
    )
unfolding set_display_hints
hints_kept = refl
