-- ===== src/Filters/Switch.antt =====
-- The switch: src/scopes/internal/SwitchFilterImpl.cpp.
use unity_scopes_api.Prelude.{
  ◌≡◌, Bool, false, Text, text_eq, text_eq_iff, codes, Result, ok, err, invalid_argument, ◌>>=◌,
  ◌>>◌, throw_if, is_empty, arith, if◌then◌else◌,
}
use unity_scopes_api.Variant.{Fields, str, boolean, find_string, insert, get_bool}
use unity_scopes_api.Variant.Laws.{find-insert, find_or-insert}
use unity_scopes_api.Filters.{has_filter, get}

pub record Switch : Type 0 where
  pub id : Text
  pub label : Text

unfoldable pub make_switch : Text → Text → Result Switch
make_switch id label = do
  throw_if (is_empty id) invalid_argument
  throw_if (is_empty label) invalid_argument
  ok (record { id = id; label = label })

abbrev true_or_caught : Result Bool → Bool
true_or_caught (ok b) = b
true_or_caught (err thrown) = false

unfoldable pub is_on : Switch → Fields → Result Bool
unfolding has_filter get get_bool
is_on f state = do
  known ← has_filter f.id state
  ok (if known then true_or_caught (get f.id state >>= get_bool) else false)

unfoldable pub update_state : Switch → Bool → Fields → Result Fields
unfolding insert
update_state f active state = do
  throw_if (is_empty f.id) invalid_argument
  ok (insert f.id (boolean active) state)

unfoldable pub serialize : Switch → Fields → Fields
serialize f m = insert (codes "label") (str f.label) m

unfoldable pub deserialize : Text → Fields → Result Switch
unfolding find_string
deserialize id m = do label ← find_string (codes "label") m; ok (record { id = id; label = label })

update_state-is_on :
    (f : Switch) (active : Bool) (state after : Fields)
    → update_state f active state ≡ ok after
    → is_on f after ≡ ok active
unfolding update_state is_on has_filter get get_bool
update_state-is_on f active state after e =
    ground (arith, e, find-insert f.id f.id (boolean active) state, text_eq_iff f.id f.id)

pub deserialize-serialize : (f : Switch) (m : Fields) → deserialize f.id (serialize f m) ≡ ok f
unfolding deserialize serialize text_eq
deserialize-serialize f m = simp (find_or-insert)
