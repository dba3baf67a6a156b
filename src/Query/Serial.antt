-- ===== src/Query/Serial.antt =====
-- A query survives the trip through its VariantMap, and what the constructor refuses.
use unity_scopes_api.Prelude.{
  ◌≡◌, ◌≢◌, refl, [], ◌∷◌, Option, none, some, Text, text_eq, codes, ok, arith,
}
use unity_scopes_api.Variant.{Value, Fields, str, find, get_string}
use unity_scopes_api.Query.{CannedQuery, create, serialize}

create-serialize_at :
    (id query department : Text) (filters : Fields) (user : Option Value)
    → id ≢ []
    → create (
        serialize (record {
          scope_id = id;
          query_string = query;
          department_id = department;
          filter_state = filters;
          user_data = user;
        }))
      ≡ ok (record {
        scope_id = id;
        query_string = query;
        department_id = department;
        filter_state = filters;
        user_data = user;
      })
unfolding create serialize find text_eq
create-serialize_at [] query department filters user h = absurd (h refl)
create-serialize_at (c ∷ id) query department filters none h = refl
create-serialize_at (c ∷ id) query department filters (some v) h = refl

-- Deserialising what a query serialises to gives the query back, for every query with a scope id.
pub create-serialize : (q : CannedQuery) → q.scope_id ≢ [] → create (serialize q) ≡ ok q
create-serialize q h =
    create-serialize_at q.scope_id q.query_string q.department_id q.filter_state q.user_data h

-- A query that was deserialised has a scope id, which is the entry "scope" of the map.
pub create-scope_id :
    (m : Fields) (q : CannedQuery)
    → create m ≡ ok q
    → (q.scope_id ≢ []) × (find (codes "scope") m ≡ some (str q.scope_id))
unfolding create get_string
create-scope_id m q e = ground arith
