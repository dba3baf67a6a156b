-- ===== src/Filters/Kinds/Serial.antt =====
-- Filters of every kind survive the trip through a VariantMap.
use unity_scopes_api.Prelude.{
  ◌≡◌, ◌⊎◌, refl, ◌∙◌, ◌<◌, false, none, some, Text, text_eq, codes, ok, logic_error, All, arith,
}
use unity_scopes_api.Prelude.Int.{ℤ, pos}
use unity_scopes_api.Prelude.Doubles.{Doubles}
use unity_scopes_api.Variant.{Fields, str, find, find_or, find_string, text_entry, get_string}
use unity_scopes_api.Variant.Laws.{entry_laws, find_or-found, text_again}
use unity_scopes_api.Filters.{OptionSelector}
use unity_scopes_api.Filters.Options.{IsSingle}
use unity_scopes_api.Filters.Serial.{IsNamed}
use unity_scopes_api.Filters.Serial.{
  serialize as serialize_selector, deserialize-serialize as selector_again,
}
use unity_scopes_api.Filters.Slider.{validate}
use unity_scopes_api.Filters.DateTime.Serial.{
  serialize as serialize_picker, deserialize-serialize as picker_again, IsWhole, IsOther,
}
use unity_scopes_api.Filters.Switch.{
  serialize as serialize_switch, deserialize-serialize as switch_again,
}
use unity_scopes_api.Filters.Buttons.{new_rating, deserialize_buttons, deserialize_rating}
use unity_scopes_api.Filters.Range.Serial.{
  serialize as serialize_range, deserialize-serialize as range_again,
}
use unity_scopes_api.Filters.Slider.Serial.{
  serialize as serialize_slider, deserialize-serialize as slider_again,
}
use unity_scopes_api.Filters.Kinds.{
  Specific, option_selector, radio_buttons, rating, switch, range_input, value_slider,
  datetime_picker, Filter, Base, id_of, filter_type, validate_display_hints, serialize_specific,
  serialize_base, serialize, hints_entry, group_entry, set_hints, deserialize_base, create,
  deserialize,
}

-- What a specific part leaves of the entries of the base class.
abbrev OnBase : (Text → Type 0) → Type 0
OnBase P =
    P (codes "id")
    × P (codes "title")
    × P (codes "display_hints")
    × P (codes "filter_type")
    × P (codes "filter_group")

specific-kept :
    (s : Specific) (m : Fields) → OnBase (λ k. find k (serialize_specific s m) ≡ find k m)
unfolding serialize_specific serialize_selector serialize_switch serialize_range serialize_slider
    serialize_picker text_eq
specific-kept (option_selector f) m = simp (entry_laws) (refl, refl, refl, refl, refl)
specific-kept (radio_buttons f) m = simp (entry_laws) (refl, refl, refl, refl, refl)
specific-kept (rating f) m = simp (entry_laws) (refl, refl, refl, refl, refl)
specific-kept (switch f) m = simp (entry_laws) (refl, refl, refl, refl, refl)
specific-kept (range_input f) m = simp (entry_laws) (refl, refl, refl, refl, refl)
specific-kept (value_slider f) m = simp (entry_laws) (refl, refl, refl, refl, refl)
specific-kept (datetime_picker f) m = simp (entry_laws) (refl, refl, refl, refl, refl)

base-entries :
    (f : Filter)
    → (find (codes "id") (serialize_base f) ≡ some (str (id_of f.specific)))
      × (find (codes "title") (serialize_base f) ≡ text_entry f.title)
      × (find (codes "display_hints") (serialize_base f) ≡ hints_entry f.display_hints)
      × (find (codes "filter_type") (serialize_base f) ≡ some (str (filter_type f.specific)))
      × (find (codes "filter_group") (serialize_base f) ≡ group_entry f.group)
unfolding serialize_base text_eq find
base-entries f = simp (entry_laws) (refl, refl, refl, refl, refl)

-- The entries of the base class in the whole map.
pub serialize-entries :
    (f : Filter)
    → (find (codes "id") (serialize f) ≡ some (str (id_of f.specific)))
      × (find (codes "title") (serialize f) ≡ text_entry f.title)
      × (find (codes "display_hints") (serialize f) ≡ hints_entry f.display_hints)
      × (find (codes "filter_type") (serialize f) ≡ some (str (filter_type f.specific)))
      × (find (codes "filter_group") (serialize f) ≡ group_entry f.group)
unfolding serialize
serialize-entries f =
    let (a, b, c, d, e) = base-entries f in
    let (a', b', c', d', e') = specific-kept f.specific (serialize_base f) in
    (a' ∙ a, b' ∙ b, c' ∙ c, d' ∙ d, e' ∙ e)

-- Of the two display hints.
abbrev pub IsHint : ℤ → Type 0
IsHint h = (h ≡ pos 0) ⊎ (h ≡ pos 1)

abbrev base_of : Filter → Base
base_of f = record { id = id_of f.specific; title = f.title; display_hints = f.display_hints }

base_again : (f : Filter) → IsHint f.display_hints → deserialize_base (serialize f) ≡ ok (base_of f)
unfolding deserialize_base find_string find_or get_string set_hints
base_again f h = ground (arith, serialize-entries f, h, text_again f.title)

-- What a filter has if it was constructed by its own operations and, for a picker, its minimum and
-- its maximum are in whole seconds.
abbrev pub IsMade : Doubles → Specific → Type 0
IsMade D (option_selector f) = All IsNamed f.options × IsSingle f
IsMade D (radio_buttons f) = All IsNamed f.options × IsSingle f × (f.multi_select ≡ false)
IsMade D (rating f) =
    All IsNamed f.buttons.options × IsSingle f.buttons × (f.buttons.multi_select ≡ false)
IsMade D (switch f) = Unit {0}
IsMade D (range_input f) = Unit {0}
IsMade D (value_slider f) = validate D f.labels f.min f.max ≡ ok tt
IsMade D (datetime_picker f) = (f.mode < 64) × IsWhole f.min × IsWhole f.max

-- A rating filter as it comes back, since its icons are not serialised.
abbrev pub without_icons : Specific → Specific
without_icons (rating f) = rating (new_rating f.buttons)
without_icons s = s

buttons_again :
    (f : OptionSelector) (m : Fields)
    → All IsNamed f.options
    → IsSingle f
    → f.multi_select ≡ false
    → deserialize_buttons f.id (serialize_selector f m) ≡ ok f
unfolding deserialize_buttons
buttons_again f m n s h = simp (selector_again f m n s, h)

create_again :
    (D : Doubles) (s : Specific) (title : Text) (h : ℤ) (m : Fields)
    → IsMade D s
    → IsOther m
    → validate_display_hints s h ≡ ok tt
    → deserialize_base (serialize_specific s m)
      ≡ ok (record { id = id_of s; title = title; display_hints = h })
    → create D (filter_type s) (serialize_specific s m)
      ≡ ok (record { title = title; display_hints = h; group = none; specific = without_icons s })
unfolding create serialize_specific deserialize_rating text_eq
create_again D (option_selector f) title h m k o v e = simp (e, selector_again f m k.0 k.1, v)
create_again D (radio_buttons f) title h m k o v e = simp (e, buttons_again f m k.0 k.1 k.2, v)
create_again D (rating f) title h m k o v e = simp (e, buttons_again f.buttons m k.0 k.1 k.2)
create_again D (switch f) title h m k o v e = simp (e, switch_again f m, v)
create_again D (range_input f) title h m k o v e = simp (e, range_again f m, v)
create_again D (value_slider f) title h m k o v e = simp (e, slider_again D f m k, v)
create_again D (datetime_picker f) title h m k o v e = simp (e, picker_again f m k.0 k.1 k.2 o, v)

base-IsOther : (f : Filter) → IsOther (serialize_base f)
unfolding serialize_base text_eq find
base-IsOther f = record {
  no_time_label = simp (entry_laws);
  no_date_label = simp (entry_laws);
  no_min = simp (entry_laws);
  no_max = simp (entry_laws);
}

deserialize-create :
    (D : Doubles) (t : Text) (m : Fields)
    → find (codes "filter_type") m ≡ some (str t)
    → deserialize D m ≡ create D t m
unfolding deserialize get_string
deserialize-create D t m e = simp (find_or-found logic_error (codes "filter_type") (str t) m e)

-- Reading a filter of any kind back from what it serialises to gives the same filter but for its
-- group and the icons of a rating filter, if it is as its own operations make it, with a display hint that its kind accepts.
pub deserialize-serialize_kinds :
    (D : Doubles) (f : Filter)
    → IsMade D f.specific
    → IsHint f.display_hints
    → validate_display_hints f.specific f.display_hints ≡ ok tt
    → deserialize D (serialize f)
      ≡ ok (record f { group = none; specific = without_icons f.specific })
unfolding serialize
deserialize-serialize_kinds D f k h v =
    deserialize-create D (filter_type f.specific) (serialize f) ((serialize-entries f).3)
    ∙ create_again D f.specific f.title f.display_hints (serialize_base f) k (base-IsOther f) v
        (base_again f h)
