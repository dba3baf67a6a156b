-- ===== src/Results.antt =====
-- A result of a search and the results that it stores: src/scopes/internal/ResultImpl.cpp. A result
-- and its arguments are values here, so that storing a result in itself is a test of its own.
pub mod Serial
pub mod Search
pub mod Chains
pub mod Categories
pub mod Columns
mod Tests
use unity_scopes_api.Prelude.{
  ℕ, zero, suc, ◌+◌, ◌%◌, ◌==◌, Bool, true, false, ◌&&◌, ◌||◌, not, List, [], ◌∷◌, Option, none,
  some, Text, codes, Result, ok, err, Error, invalid_argument, logic_error, resource_error,
  not_found, ◌>>=◌, ◌>>◌, throw_if, is_empty, is_some, if◌then◌else◌,
}
use unity_scopes_api.Prelude.Int.{ℤ, pos, negsuc, eqb_ℤ}
use unity_scopes_api.Variant.{
  Value, Fields, Items, end, field, str, int, dict, array, find, find_or, insert, insert_some,
  text_entry, text_or_empty, get_int, get_string, get_dict,
}

-- `has_runtime` is whether runtime_ is set.
pub record ResultImpl : Type 0 where
  pub attrs : Fields
  pub origin : Text
  pub flags : ℤ
  pub stored : Option Fields
  pub has_runtime : Bool

abbrev pub new_result : ResultImpl
new_result = record { attrs = end; origin = []; flags = pos 0; stored = none; has_runtime = false }

-- The bit Flags::InterceptActivation.
abbrev pub intercepts : ℤ → Bool
intercepts (pos n) = n % 2 == 1
intercepts (negsuc n) = n % 2 == 0

-- `flags_ |= Flags::InterceptActivation`
abbrev with_intercept : ℤ → ℤ
with_intercept (pos n) = if n % 2 == 1 then pos n else pos (n + 1)
with_intercept (negsuc zero) = negsuc zero
with_intercept (negsuc (suc n)) = if suc n % 2 == 0 then negsuc (suc n) else negsuc n

unfoldable pub set_intercept_activation : ResultImpl → ResultImpl
set_intercept_activation r = record r { flags = with_intercept r.flags; origin = [] }

unfoldable pub set_origin : Text → ResultImpl → Result ResultImpl
set_origin id r = do throw_if (is_empty id) invalid_argument; ok (record r { origin = id })

unfoldable pub set_attr : Text → Text → ResultImpl → ResultImpl
unfolding insert
set_attr k s r = record r { attrs = insert k (str s) r.attrs }

unfoldable pub set_uri : Text → ResultImpl → Result ResultImpl
unfolding set_attr
set_uri uri r = do throw_if (is_empty uri) invalid_argument; ok (set_attr (codes "uri") uri r)

-- operator[] with an assignment.
unfoldable pub set_value : Text → Value → ResultImpl → Result ResultImpl
unfolding insert
set_value k v r = do
  throw_if (is_empty k) invalid_argument
  ok (record r { attrs = insert k v r.attrs })

abbrev string_or_empty : Option Value → Text
string_or_empty (some (str s)) = s
string_or_empty o = []

-- uri(), title(), art() and dnd_uri().
unfoldable pub attr : Text → ResultImpl → Text
unfolding find
attr k r = string_or_empty (find k r.attrs)

unfoldable pub contains : Text → ResultImpl → Result Bool
unfolding find
contains k r = do throw_if (is_empty k) invalid_argument; ok (is_some (find k r.attrs))

unfoldable pub value : Text → ResultImpl → Result Value
unfolding find_or
value k r = do throw_if (is_empty k) invalid_argument; find_or invalid_argument k r.attrs

abbrev is_string : Value → Bool
is_string (str s) = true
is_string v = false

abbrev throw_on_non_string : Value → Result (Unit {0})
throw_on_non_string v = throw_if (not (is_string v)) invalid_argument

abbrev string_if_there : Option Value → Result (Unit {0})
string_if_there none = ok tt
string_if_there (some v) = throw_on_non_string v

abbrev pub flags_entry : ℤ → Option Value
flags_entry f = if eqb_ℤ f (pos 0) then none else some (int f)

abbrev pub stored_entry : Option Fields → Option Value
stored_entry none = none
stored_entry (some m) = some (dict m)

unfoldable pub serialize_internal : ResultImpl → Fields
serialize_internal r = insert_some (codes "result") (stored_entry r.stored) (
    insert_some (codes "origin") (text_entry r.origin)
      (insert_some (codes "flags") (flags_entry r.flags) end))

abbrev pub outer : ResultImpl → Fields
outer r =
    insert (codes "internal") (dict (serialize_internal r))
      (insert (codes "attrs") (dict r.attrs) end)

unfoldable pub serialize : ResultImpl → Result Fields
unfolding find find_or serialize_internal
serialize r = do
  v ← find_or invalid_argument (codes "uri") r.attrs
  throw_on_non_string v
  string_if_there (find (codes "dnd_uri") r.attrs)
  ok (outer r)

abbrev flags_or_zero : Option Value → Result ℤ
flags_or_zero none = ok (pos 0)
flags_or_zero (some v) = get_int v

abbrev stored_of : Option Value → Result (Option Fields)
stored_of none = ok none
stored_of (some v) = get_dict v >>= λ m. ok (some m)

-- The loop over the attributes that were read.
unfoldable pub add_each : Fields → ResultImpl → Result ResultImpl
unfolding set_value
add_each end r = ok r
add_each (field k v m) r = do s ← set_value k v r; add_each m s

unfoldable pub deserialize : Fields → Result ResultImpl
unfolding find find_or get_int get_string get_dict add_each
deserialize m = do
  i ← find_or invalid_argument (codes "internal") m
  internal ← get_dict i
  flags ← flags_or_zero (find (codes "flags") internal)
  origin ← text_or_empty (find (codes "origin") internal)
  stored ← stored_of (find (codes "result") internal)
  a ← find_or invalid_argument (codes "attrs") m
  attrs ← get_dict a
  uri ← find_or invalid_argument (codes "uri") attrs
  add_each attrs
      (record { attrs = end; origin = origin; flags = flags; stored = stored; has_runtime = false })

abbrev stored_or_thrown : ResultImpl → Result Fields → ResultImpl × Result (Unit {0})
stored_or_thrown r (ok m) = (record r { stored = some m }, ok tt)
stored_or_thrown r (err thrown) = (r, err thrown)

-- Whether the other result is the same object; the state that is left, also where it throws.
unfoldable pub store : Bool → ResultImpl → Bool → ResultImpl → ResultImpl × Result (Unit {0})
unfolding set_intercept_activation serialize
store true other intercept r = (r, err invalid_argument)
store false other intercept r =
    stored_or_thrown (if intercept then set_intercept_activation r else r) (serialize other)

unfoldable pub retrieve : ResultImpl → Result ResultImpl
unfolding deserialize
retrieve r = elim r.stored [ none ↦ err invalid_argument | some m ↦ deserialize m ]

-- operator=, from another object, which leaves the stored result where the other has none.
unfoldable pub assign : ResultImpl → ResultImpl → ResultImpl
assign other r = record other { stored = if is_some other.stored then other.stored else r.stored }

-- What one round finds: the flags, and the stored result that is next.
unfoldable pub level : Fields → Result (ℤ × Fields)
unfolding find find_or get_dict get_int
level m = do
  i ← find_or logic_error (codes "internal") m
  internal ← get_dict i
  flags ← flags_or_zero (find (codes "flags") internal)
  ok (flags, internal)

-- find_stored_result, with one callback that is called at each result on the way, and what it gave
-- last. Each stored result stands in the one that stores it, so its size bounds the loop; `none` is
-- the end of the fuel.
module _ {T : Type 0} (visit : Fields → Result T) where
  abbrev pub next_of : Option Value → Result (Option Fields)
  next_of none = ok none
  next_of (some v) = get_dict v >>= λ m. ok (some m)

  abbrev pub go_on :
      T
      → (Fields → Option (Result (Bool × T)))
      → Result (Option Fields)
      → Option (Result (Bool × T))
  go_on t rest (err e) = some (err e)
  go_on t rest (ok none) = some (ok (false, t))
  go_on t rest (ok (some m)) = rest m

  abbrev pub round :
      ℤ → Fields → (Fields → Option (Result (Bool × T))) → Result T → Option (Result (Bool × T))
  round flags internal rest (err e) = some (err e)
  round flags internal rest (ok t) =
      if intercepts flags
      then some (ok (true, t))
      else go_on t rest (next_of (find (codes "result") internal))

  unfoldable pub search : ℕ → Fields → Option (Result (Bool × T))
  unfolding level find get_dict
  search zero m = none
  search (suc fuel) m =
      let rest = search fuel in
      elim (level m) [
        | err e ↦ some (err e)
        | ok (flags, internal) ↦ round flags internal rest (visit m)
      ]

-- The number of entries and values.
unfoldable mutual
  pub size : Fields → ℕ
  size end = 0
  size (field k v m) = suc (value_size v + size m)

  pub value_size : Value → ℕ
  value_size (dict m) = suc (size m)
  value_size v = 0

abbrev out_of_fuel : {T : Type 0} → Option (Result T) → Result T
out_of_fuel none = err logic_error
out_of_fuel (some r) = r

unfoldable pub find_stored_result : {T : Type 0} → (Fields → Result T) → Fields → Result (Bool × T)
unfolding search size
find_stored_result visit m = out_of_fuel (search visit (suc (size m)) m)

unfoldable pub direct_activation : ResultImpl → Result Bool
unfolding find_stored_result
direct_activation r = if intercepts r.flags then ok false else elim r.stored [
  | none ↦ ok true
  | some m ↦ find_stored_result (λ s. ok tt) m >>= λ found. ok (not found.0)
]

-- The origin that a stored result has.
unfoldable pub get_origin : Fields → Result Text
unfolding find_or get_dict get_string
get_origin m = do
  i ← find_or logic_error (codes "internal") m
  internal ← get_dict i
  o ← find_or logic_error (codes "origin") internal
  get_string o

-- The origin whose proxy target_scope_proxy gives.
unfoldable pub target_origin : ResultImpl → Result Text
unfolding find_stored_result get_origin
target_origin r = do
  target ←
      (if intercepts r.flags then ok r.origin else elim r.stored [
        | none ↦ ok r.origin
        | some m ↦ find_stored_result get_origin m >>= λ found. ok found.1
      ])
  throw_if (is_empty target || not r.has_runtime) logic_error
  ok target

unfoldable pub activation_target : ResultImpl → Result Fields
unfolding serialize find_stored_result
activation_target r = if intercepts r.flags then serialize r else elim r.stored [
  | none ↦ serialize r
  | some m ↦ find_stored_result (λ s. ok s) m >>= λ found. ok found.1
]
