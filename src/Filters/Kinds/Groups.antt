-- ===== src/Filters/Kinds/Groups.antt =====
-- Lists of filters with their groups: serialize_filters, deserialize_filters and the same of
-- FilterGroupImpl.cpp.
pub mod Serial
use unity_scopes_api.Prelude.{
  ◌≡◌, refl, ℕ, suc, ◌==◌, Bool, true, false, not, List, [], ◌∷◌, ◌++◌, Option, none, some, Text,
  codes, Result, ok, err, logic_error, ◌>>=◌, ◌>>◌, throw_if, if◌then◌else◌,
}
use unity_scopes_api.Prelude.Dict.{find, insert_new, assign}
use unity_scopes_api.Prelude.Doubles.{Doubles}
use unity_scopes_api.Variant.{
  Value, Fields, Items, end, nil, cons, str, dict, find as find_value, find_string, insert,
  get_string, get_dict,
}
use unity_scopes_api.Filters.Kinds.{FilterGroup, Filter, serialize, deserialize}

unfoldable pub group_fields : FilterGroup → Fields
unfolding insert
group_fields g = insert (codes "label") (str g.label) (insert (codes "id") (str g.id) end)

abbrev pub Groups : Type 0
Groups = List (Text × FilterGroup)

-- A group is written when it is met first; the same id must then be the same object.
abbrev grouped : FilterGroup → Option FilterGroup → Groups → (Groups → Result Items) → Result Items
grouped g none lookup rest = do a ← rest (assign g.id g lookup); ok (cons (dict (group_fields g)) a)
grouped g (some h) lookup rest = do throw_if (not (g.address == h.address)) logic_error; rest lookup

unfoldable pub serialize_filter_groups : List Filter → Groups → Result Items
unfolding find assign group_fields
serialize_filter_groups [] lookup = ok nil
serialize_filter_groups (f ∷ fs) lookup =
    let rest = serialize_filter_groups fs in
    elim f.group [ none ↦ rest lookup | some g ↦ grouped g (find g.id lookup) lookup rest ]

-- The groups are created one after the other, at addresses that ascend.
unfoldable pub deserialize_filter_groups : Items → ℕ → Groups → Result Groups
unfolding assign find_string get_dict
deserialize_filter_groups nil next groups = ok groups
deserialize_filter_groups (cons v a) next groups = do
  m ← get_dict v
  id ← find_string (codes "id") m
  label ← find_string (codes "label") m
  deserialize_filter_groups a (suc next)
      (assign id (record { address = next; id = id; label = label }) groups)

unfoldable pub serialize_filters : List Filter → Items
unfolding serialize
serialize_filters [] = nil
serialize_filters (f ∷ fs) = cons (dict (serialize f)) (serialize_filters fs)

abbrev found_group : Filter → Option FilterGroup → Result Filter
found_group f none = err logic_error
found_group f (some g) = ok (record f { group = some g })

abbrev pub add_to_group : Filter → Option Value → Groups → Result Filter
add_to_group f none groups = ok f
add_to_group f (some v) groups = get_string v >>= λ id. found_group f (find id groups)

unfoldable pub deserialize_filters : Doubles → Items → Groups → Result (List Filter)
unfolding deserialize find_value find get_dict get_string
deserialize_filters D nil groups = ok []
deserialize_filters D (cons v a) groups = do
  m ← get_dict v
  f ← deserialize D m
  g ← add_to_group f (find_value (codes "filter_group") m) groups
  fs ← deserialize_filters D a groups
  ok (g ∷ fs)
