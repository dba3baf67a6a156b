-- ===== src/Query.antt =====
-- Canned queries: src/scopes/internal/CannedQueryImpl.cpp. A FilterState is the map that it holds
-- (FilterStateImpl::serialize and deserialize hand it over as it is). The C++ object is a value:
-- its setters return the changed query.
pub mod Uri
pub mod Serial
pub mod Segments
pub mod UriRoundTrip
mod Tests
use unity_scopes_api.Prelude.{
  Bool, true, false, List, [], ◌∷◌, Option, none, some, Text, codes, Result, ok, err,
  invalid_argument, logic_error, ◌>>=◌, ◌>>◌, throw_if, is_empty,
}
use unity_scopes_api.Variant.{
  Value, Fields, end, str, dict, find, insert, find_or, get_string, get_dict,
}

pub record CannedQuery : Type 0 where
  pub scope_id : Text
  pub query_string : Text
  pub department_id : Text
  pub filter_state : Fields
  pub user_data : Option Value

-- The constructor from a scope id.
unfoldable pub of_scope_id : Text → Result CannedQuery
of_scope_id id = do
  throw_if (is_empty id) invalid_argument
  ok (record {
    scope_id = id;
    query_string = [];
    department_id = [];
    filter_state = end;
    user_data = none;
  })

-- An entry that may be missing, and is a string if it is there.
unfoldable pub string_or_empty : Option Value → Result Text
unfolding get_string
string_or_empty none = ok []
string_or_empty (some v) = get_string v

-- The constructor from a VariantMap, which `create` calls.
unfoldable pub create : Fields → Result CannedQuery
unfolding find_or string_or_empty get_dict
create m = do
  scope ← find_or invalid_argument (codes "scope") m
  id ← get_string scope
  throw_if (is_empty id) invalid_argument
  state ← find_or invalid_argument (codes "filter_state") m
  filters ← get_dict state
  department ← string_or_empty (find (codes "department_id") m)
  query ← string_or_empty (find (codes "query_string") m)
  ok (record {
    scope_id = id;
    query_string = query;
    department_id = department;
    filter_state = filters;
    user_data = find (codes "user_data") m;
  })

unfoldable pub set_department_id : Text → CannedQuery → CannedQuery
set_department_id id q = record q { department_id = id }

unfoldable pub set_query_string : Text → CannedQuery → CannedQuery
set_query_string s q = record q { query_string = s }

unfoldable pub set_filter_state : Fields → CannedQuery → CannedQuery
set_filter_state m q = record q { filter_state = m }

unfoldable pub set_user_data : Value → CannedQuery → CannedQuery
set_user_data v q = record q { user_data = some v }

unfoldable pub user_data : CannedQuery → Result Value
user_data q = elim q.user_data [ some v ↦ ok v | none ↦ err logic_error ]

abbrev insert_user_data : Option Value → Fields → Fields
insert_user_data none m = m
insert_user_data (some v) m = insert (codes "user_data") v m

unfoldable pub serialize : CannedQuery → Fields
unfolding insert
serialize q = insert_user_data q.user_data (
    insert (codes "filter_state") (dict q.filter_state) (
      insert (codes "department_id") (str q.department_id) (
        insert (codes "query_string") (str q.query_string)
          (insert (codes "scope") (str q.scope_id) end))))
