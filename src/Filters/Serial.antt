-- ===== src/Filters/Serial.antt =====
-- The option selector's entries of a VariantMap, and their way back: serialize and deserialize of
-- src/scopes/internal/OptionSelectorFilterImpl.cpp. The entries of the base class are in the map
-- that serialize starts from; the id is among them.
use unity_scopes_api.Prelude.{
  ◌≡◌, ◌≢◌, ◌⊎◌, refl, sym, ◌∙◌, ap, ◌≤◌, Bool, true, false, List, [], ◌∷◌, ◌++◌, append_assoc,
  append-nil, Option, none, some, Text, text_eq, codes, Result, ok, not_found, ◌>>=◌, All, arith,
}
use unity_scopes_api.Variant.{
  Value, Fields, Items, end, nil, cons, str, boolean, dict, array, find, find_or, insert,
  get_string, get_bool, get_dict, get_array,
}
use unity_scopes_api.Variant.Laws.{find-insert}
use unity_scopes_api.Filters.{FilterOption, OptionSelector, any_default, add_option}
use unity_scopes_api.Filters.Options.{default_count, default_count-append, IsSingle}

abbrev insert_default : Bool → Fields → Fields
insert_default true m = insert (codes "default") (boolean true) m
insert_default false m = m

unfoldable pub serialize_option : FilterOption → Fields
unfolding insert
serialize_option p =
    insert_default p.default_value
      (insert (codes "label") (str p.label) (insert (codes "id") (str p.id) end))

unfoldable pub serialize_options : List FilterOption → Items
unfolding serialize_option
serialize_options [] = nil
serialize_options (p ∷ ps) = cons (dict (serialize_option p)) (serialize_options ps)

unfoldable pub serialize : OptionSelector → Fields → Fields
unfolding serialize_options insert
serialize f m = insert (codes "multi_select") (boolean f.multi_select) (
    insert (codes "options") (array (serialize_options f.options))
      (insert (codes "label") (str f.label) m))

abbrev default_of : Option Value → Result Bool
default_of none = ok false
default_of (some v) = get_bool v

unfoldable pub deserialize_option : Value → OptionSelector → Result OptionSelector
unfolding find find_or get_string get_bool get_dict add_option
deserialize_option v f = do
  m ← get_dict v
  i ← find_or not_found (codes "id") m
  id ← get_string i
  l ← find_or not_found (codes "label") m
  label ← get_string l
  default_value ← default_of (find (codes "default") m)
  add_option id label default_value f

unfoldable pub deserialize_options : Items → OptionSelector → Result OptionSelector
unfolding deserialize_option
deserialize_options nil f = ok f
deserialize_options (cons v a) f = do g ← deserialize_option v f; deserialize_options a g

unfoldable pub deserialize : Text → Fields → Result OptionSelector
unfolding deserialize_options find_or get_string get_bool get_array
deserialize id m = do
  l ← find_or not_found (codes "label") m
  label ← get_string l
  s ← find_or not_found (codes "multi_select") m
  multi_select ← get_bool s
  o ← find_or not_found (codes "options") m
  a ← get_array o
  deserialize_options a
      (record { id = id; label = label; multi_select = multi_select; options = [] })

-- What the constructor of an option demands.
abbrev pub IsNamed : FilterOption → Type 0
IsNamed p = (p.id ≢ []) × (p.label ≢ [])

with_options : OptionSelector → List FilterOption → OptionSelector
with_options f ps = record f { options = ps }

add_option-accepts :
    (f : OptionSelector) (p : FilterOption)
    → IsNamed p
    → (f.multi_select ≡ true) ⊎ ((p.default_value ≡ false) ⊎ (any_default f.options ≡ false))
    → add_option p.id p.label p.default_value f ≡ ok (with_options f (f.options ++ p ∷ []))
unfolding add_option with_options
add_option-accepts f p n h = ground (arith, n.0, n.1, h)

option_at :
    (f : OptionSelector) (id label : Text) (d : Bool)
    → deserialize_option
        (dict (serialize_option (record { id = id; label = label; default_value = d })))
        f
      ≡ add_option id label d f
unfolding deserialize_option serialize_option insert text_eq find
option_at f id label true = refl
option_at f id label false = refl

none_default : (ps : List FilterOption) → default_count ps ≡ 0 → any_default ps ≡ false
none_default [] h = refl
none_default (p ∷ ps) h = ground (arith, h, none_default ps)

-- There is room for one more option after those that are done.
room :
    (f : OptionSelector) (done : List FilterOption) (p : FilterOption) (ps : List FilterOption)
    → (f.multi_select ≡ true) ⊎ (default_count (done ++ p ∷ ps) ≤ 1)
    → (f.multi_select ≡ true) ⊎ ((p.default_value ≡ false) ⊎ (any_default done ≡ false))
room f done p ps h = ground (arith, h, default_count-append done (p ∷ ps), none_default done)

deserialize-serialize_options :
    (f : OptionSelector) (done ps : List FilterOption)
    → All IsNamed ps
    → (f.multi_select ≡ true) ⊎ (default_count (done ++ ps) ≤ 1)
    → deserialize_options (serialize_options ps) (with_options f done)
      ≡ ok (with_options f (done ++ ps))
unfolding deserialize_options serialize_options with_options
deserialize-serialize_options f done [] n h =
    ap (λ qs. ok (with_options f qs)) (sym (append-nil done))
deserialize-serialize_options f done (p ∷ ps) n h =
    ap (λ r. r >>= deserialize_options (serialize_options ps))
      (option_at (with_options f done) p.id p.label p.default_value
        ∙ add_option-accepts (with_options f done) p n.0 (room f done p ps h))
    ∙ deserialize-serialize_options f (done ++ p ∷ []) ps n.1 (ground (arith, h, assoc))
    ∙ ap (λ qs. ok (with_options f qs)) assoc
  where
    assoc : (done ++ p ∷ []) ++ ps ≡ done ++ p ∷ ps
    assoc = append_assoc done (p ∷ []) ps

entries_of :
    (f : OptionSelector) (m : Fields)
    → (find (codes "label") (serialize f m) ≡ some (str f.label))
      × (find (codes "multi_select") (serialize f m) ≡ some (boolean f.multi_select))
      × (find (codes "options") (serialize f m) ≡ some (array (serialize_options f.options)))
unfolding serialize text_eq
entries_of f m =
    let labelled = insert (codes "label") (str f.label) m in
    let a = array (serialize_options f.options) in
    let listed = insert (codes "options") a labelled in
    let at = λ (j : Text). find-insert (codes "multi_select") j (boolean f.multi_select) listed in
    (
      at (codes "label")
          ∙ find-insert (codes "options") (codes "label") a labelled
          ∙ find-insert (codes "label") (codes "label") (str f.label) m,
      at (codes "multi_select"),
      at (codes "options") ∙ find-insert (codes "options") (codes "options") a labelled,
    )

-- Reading an option selector back from the entries that it wrote, next to any others, gives the same
-- filter, if its options have ids and labels and it has one default at most or allows several.
pub deserialize-serialize :
    (f : OptionSelector) (m : Fields)
    → All IsNamed f.options
    → IsSingle f
    → deserialize f.id (serialize f m) ≡ ok f
unfolding deserialize with_options
deserialize-serialize f m n h =
    ground (arith, entries_of f m, deserialize-serialize_options f [] f.options n h)
