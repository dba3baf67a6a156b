-- ===== src/Variant.antt =====
-- The value type of the interfaces: src/scopes/Variant.cpp, with VariantMap and VariantArray.
-- A VariantMap is its list of entries, each key once; nothing that is modelled reads its order.
-- A double is its bit pattern: no arithmetic on it is modelled.
pub mod Laws
use unity_scopes_api.Prelude.{
  ℕ, Bool, true, false, List, [], ◌∷◌, Option, none, some, Text, text_eq, Result, ok, err,
  logic_error, not_found, ◌>>=◌, Error, if◌then◌else◌,
}
use unity_scopes_api.Prelude.Int.{ℤ}

mutual
  pub data Value : Type 0 where
    null : Value
    int : ℤ → Value
    boolean : Bool → Value
    str : Text → Value
    double : ℕ → Value
    dict : Fields → Value
    array : Items → Value
    int64 : ℤ → Value

  pub data Fields : Type 0 where
    end : Fields
    field : Text → Value → Fields → Fields

  pub data Items : Type 0 where
    nil : Items
    cons : Value → Items → Items

-- Variant::Type, in the order of the alternatives.
pub data Kind : Type 0 where
  null_kind int_kind bool_kind string_kind double_kind dict_kind array_kind int64_kind : Kind

unfoldable pub which : Value → Kind
which null = null_kind
which (int n) = int_kind
which (boolean b) = bool_kind
which (str s) = string_kind
which (double d) = double_kind
which (dict m) = dict_kind
which (array a) = array_kind
which (int64 n) = int64_kind

unfoldable pub is_null : Value → Bool
is_null null = true
is_null _ = false

unfoldable pub get_int : Value → Result ℤ
get_int (int n) = ok n
get_int _ = err logic_error

unfoldable pub get_int64 : Value → Result ℤ
get_int64 (int64 n) = ok n
get_int64 _ = err logic_error

unfoldable pub get_double : Value → Result ℕ
get_double (double d) = ok d
get_double _ = err logic_error

unfoldable pub get_bool : Value → Result Bool
get_bool (boolean b) = ok b
get_bool _ = err logic_error

unfoldable pub get_string : Value → Result Text
get_string (str s) = ok s
get_string _ = err logic_error

unfoldable pub get_dict : Value → Result Fields
get_dict (dict m) = ok m
get_dict _ = err logic_error

unfoldable pub get_array : Value → Result Items
get_array (array a) = ok a
get_array _ = err logic_error

-- std::map: find, operator[] with an assignment, erase, size() != 0.
unfoldable pub find : Text → Fields → Option Value
find k end = none
find k (field j v m) = if text_eq j k then some v else find k m

unfoldable pub insert : Text → Value → Fields → Fields
insert k v end = field k v end
insert k v (field j w m) = if text_eq j k then field k v m else field j w (insert k v m)

-- `if (...) var[k] = ...;`
unfoldable pub insert_some : Text → Option Value → Fields → Fields
insert_some k none m = m
insert_some k (some v) m = insert k v m

unfoldable pub erase : Text → Fields → Fields
erase k end = end
erase k (field j w m) = if text_eq j k then m else field j w (erase k m)

abbrev pub has_fields : Fields → Bool
has_fields end = false
has_fields (field k v m) = true

-- `auto it = var.find(k); if (it == var.end()) throw e;`
unfoldable pub find_or : Error → Text → Fields → Result Value
unfolding find
find_or e k m = elim (find k m) [ none ↦ err e | some v ↦ ok v ]

-- find_or_throw and get_string, or another accessor.
unfoldable pub find_string : Text → Fields → Result Text
unfolding get_string
find_string k m = find_or not_found k m >>= get_string

unfoldable pub find_double : Text → Fields → Result ℕ
unfolding get_double
find_double k m = find_or not_found k m >>= get_double

-- The value of what may be missing, and what an entry that may be missing is.
abbrev pub entry_of : {A : Type 0} → (A → Value) → Option A → Option Value
entry_of wrap none = none
entry_of wrap (some a) = some (wrap a)

abbrev pub optional : {A : Type 0} → (Value → Result A) → Option Value → Result (Option A)
optional get none = ok none
optional get (some v) = get v >>= λ a. ok (some a)

-- The value of a string that is written only if it is not empty, and the string that an entry which
-- may be missing is.
abbrev pub text_entry : Text → Option Value
text_entry [] = none
text_entry (c ∷ s) = some (str (c ∷ s))

abbrev pub text_or_empty : Option Value → Result Text
text_or_empty none = ok []
text_or_empty (some v) = get_string v

-- std::vector: push_back, and the elements.
unfoldable pub push_back : Items → Value → Items
push_back nil v = cons v nil
push_back (cons w a) v = cons w (push_back a v)

abbrev pub elements : Items → List Value
elements nil = []
elements (cons v a) = v ∷ elements a
