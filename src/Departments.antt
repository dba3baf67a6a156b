-- ===== src/Departments.antt =====
-- Trees of departments: src/scopes/internal/DepartmentImpl.cpp. A null pointer is `none`; the tree
-- itself holds none, since add_subdepartment refuses it.
pub mod Validation
pub mod Serial
mod Tests
use unity_scopes_api.Prelude.{
  Bool, true, false, ◌&&◌, ◌||◌, not, List, [], ◌∷◌, ◌++◌, Option, none, some, Text, text_eq, codes,
  Result, ok, err, invalid_argument, logic_error, ◌>>=◌, ◌>>◌, throw_if, is_empty, if◌then◌else◌,
}
use unity_scopes_api.Variant.{
  Value, Fields, Items, end, field, nil, cons, null, int, boolean, str, double, dict, array, int64,
  find, insert, find_or, get_string, get_dict, get_bool,
}
use unity_scopes_api.Query.{CannedQuery, string_or_empty, set_department_id}
use unity_scopes_api.Query

mutual
  -- Its query, label, alternate label, flag has_subdepartments_, and subdepartments.
  pub data Department : Type 0 where
    department : CannedQuery → Text → Text → Bool → Departments → Department

  pub data Departments : Type 0 where
    no_more : Departments
    more : Department → Departments → Departments

abbrev pub query : Department → CannedQuery
query (department q l a h ds) = q

abbrev pub label : Department → Text
label (department q l a h ds) = l

abbrev pub subdepartments : Department → Departments
subdepartments (department q l a h ds) = ds

abbrev pub id : Department → Text
id d = (query d).department_id

abbrev pub any : Departments → Bool
any no_more = false
any (more d ds) = true

-- The constructors.
unfoldable pub make : CannedQuery → Text → Result Department
make q l = do throw_if (is_empty l) invalid_argument; ok (department q l [] false no_more)

unfoldable pub make_with_id : Text → CannedQuery → Text → Result Department
unfolding make set_department_id
make_with_id i q l = make (set_department_id i q) l

unfoldable pub set_has_subdepartments : Bool → Department → Result Department
set_has_subdepartments flag (department q l a h ds) = do
  throw_if (any ds && not flag) logic_error
  ok (department q l a flag ds)

push_back : Departments → Department → Departments
push_back no_more d = more d no_more
push_back (more e ds) d = more e (push_back ds d)

unfoldable pub add_subdepartment : Option Department → Department → Result Department
unfolding push_back
add_subdepartment none d = err invalid_argument
add_subdepartment (some e) (department q l a h ds) = ok (department q l a h (push_back ds e))

add_each : List (Option Department) → Department → Result Department
unfolding add_subdepartment
add_each [] d = ok d
add_each (e ∷ es) d = do next ← add_subdepartment e d; add_each es next

unfoldable pub set_subdepartments : List (Option Department) → Department → Result Department
unfolding add_each
set_subdepartments es (department q l a h ds) = add_each es (department q l a h no_more)

unfoldable pub set_alternate_label : Text → Department → Department
set_alternate_label a (department q l _ h ds) = department q l a h ds

unfoldable pub has_subdepartments : Department → Bool
has_subdepartments (department q l a h ds) = any ds || h

abbrev insert_alt_label : Text → Fields → Fields
insert_alt_label [] m = m
insert_alt_label (c ∷ a) m = insert (codes "alt_label") (str (c ∷ a)) m

-- The flag is written only where there are no subdepartments.
abbrev insert_subdepartments : Bool → Items → Fields → Fields
insert_subdepartments true nil m = insert (codes "has_subdepartments") (boolean true) m
insert_subdepartments false nil m = m
insert_subdepartments h (cons v a) m = insert (codes "departments") (array (cons v a)) m

unfoldable mutual
  unfolding insert

  pub serialize : Department → Fields
  serialize (department q l a h ds) = insert_subdepartments h (serialize_each ds) (
      insert (codes "query") (dict (Query.serialize q))
        (insert_alt_label a (insert (codes "label") (str l) end)))

  pub serialize_each : Departments → Items
  serialize_each no_more = nil
  serialize_each (more d ds) = cons (dict (serialize d)) (serialize_each ds)

-- The entries of the map but for the subdepartments, whose conversion is given.
abbrev optional : Option (Result Departments) → Result Departments
optional none = ok no_more
optional (some r) = r

abbrev flag_of : Option Value → Result Bool
flag_of none = ok false
flag_of (some v) = get_bool v

unfoldable pub build : Fields → Option (Result Departments) → Result Department
unfolding find_or get_string get_dict get_bool string_or_empty
build m subs = do
  l ← find_or invalid_argument (codes "label") m
  name ← get_string l
  alt ← string_or_empty (find (codes "alt_label") m)
  v ← find_or invalid_argument (codes "query") m
  entries ← get_dict v
  q ← Query.create entries
  throw_if (is_empty name) invalid_argument
  ds ← optional subs
  flag ← flag_of (find (codes "has_subdepartments") m)
  ok (department q name alt flag ds)

-- `create`, on the value that holds the map; the entry "departments" is found and converted by
-- recursion on the map.
unfoldable mutual
  unfolding build

  pub create_value : Value → Result Department
  create_value (dict m) = build m (create_entry m)
  create_value null = err logic_error
  create_value (int n) = err logic_error
  create_value (boolean b) = err logic_error
  create_value (str s) = err logic_error
  create_value (double x) = err logic_error
  create_value (array a) = err logic_error
  create_value (int64 n) = err logic_error

  pub create_entry : Fields → Option (Result Departments)
  create_entry end = none
  create_entry (field k v m) =
      let here = some (create_array v) in
      let later = create_entry m in if text_eq k (codes "departments") then here else later

  pub create_array : Value → Result Departments
  create_array (array a) = create_each a
  create_array null = err logic_error
  create_array (int n) = err logic_error
  create_array (boolean b) = err logic_error
  create_array (str s) = err logic_error
  create_array (double x) = err logic_error
  create_array (dict m) = err logic_error
  create_array (int64 n) = err logic_error

  pub create_each : Items → Result Departments
  create_each nil = ok no_more
  create_each (cons v a) = create_value v >>= λ d. create_each a >>= λ ds. ok (more d ds)

unfoldable pub create : Fields → Result Department
unfolding create_value
create m = create_value (dict m)

-- Membership in the set of ids.
unfoldable pub has : Text → List Text → Bool
has i [] = false
has i (j ∷ js) = text_eq j i || has i js

-- validate_departments with its set of ids, which it returns.
unfoldable mutual
  unfolding has

  pub collect_ids : Department → List Text → Result (List Text)
  collect_ids (department q l a h ds) seen =
      throw_if (has q.department_id seen) logic_error >>= λ _.
      collect_ids_each ds (q.department_id ∷ seen)

  pub collect_ids_each : Departments → List Text → Result (List Text)
  collect_ids_each no_more seen = ok seen
  collect_ids_each (more d ds) seen = collect_ids d seen >>= λ next. collect_ids_each ds next

-- validate_departments(parent).
unfoldable pub validate_levels : Option Department → Result (Unit {0})
validate_levels none = err logic_error
validate_levels (some p) = throw_if (not (any (subdepartments p))) logic_error

-- validate_departments(parent, current_id) on a parent that is there.
unfoldable pub validate : Department → Text → Result (Unit {0})
unfolding validate_levels collect_ids has
validate p current = do
  validate_levels (some p)
  ids ← collect_ids p []
  throw_if (not (text_eq (id p) current) && not (has current ids)) logic_error

-- find_subdepartment_by_id.
unfoldable mutual
  pub find_by_id : Department → Text → Option Department
  find_by_id (department q l a h ds) i =
      let below = find_by_id_each ds i in
      if text_eq q.department_id i then some (department q l a h ds) else below

  pub find_by_id_each : Departments → Text → Option Department
  find_by_id_each no_more i = none
  find_by_id_each (more d ds) i =
      let rest = find_by_id_each ds i in elim (find_by_id d i) [ some e ↦ some e | none ↦ rest ]
