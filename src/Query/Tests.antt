-- ===== src/Query/Tests.antt =====
-- Runs of the canned queries, and their theorems at a concrete query.
use unity_scopes_api.Prelude.{◌≡◌, refl, none, codes, ok, err, invalid_argument, arith, true}
use unity_scopes_api.Encoding.{from_percent_encoding, decoded_or_throw, stoi_two}
use unity_scopes_api.Variant.{Fields, end, field, boolean, dict}
use unity_scopes_api.Query.{CannedQuery}
use unity_scopes_api.Query.Uri.{Json, to_uri, from_uri}
use unity_scopes_api.Query.UriRoundTrip.{IsEncodable, from_uri-to_uri, from_uri-to_uri_plain}

abbrev state : Fields
state = field (codes "f") (boolean true) end

-- A JSON library for this state alone.
abbrev toy : Json
toy = record { print = λ v. codes "{\"f\":1}"; parse = λ s. ok (dict state) }

abbrev query : CannedQuery
query = record {
  scope_id = codes "com.a";
  query_string = codes "x & y";
  department_id = codes "d=1";
  filter_state = state;
  user_data = none;
}

query-IsEncodable : IsEncodable toy query
query-IsEncodable = record {
  query = omega arith;
  department = omega arith;
  filters = (omega arith, refl);
  user = λ v e. cc;
}

from_uri-to_uri_example :
    from_uri toy (to_uri toy (record query { scope_id = codes "a%41" }))
    ≡ ok (record query { scope_id = codes "aA" })
unfolding from_percent_encoding decoded_or_throw stoi_two
from_uri-to_uri_example =
    from_uri-to_uri toy (record query { scope_id = codes "a%41" }) (codes "aA") (λ e. cc)
      (omega arith) refl
      (record {
        query = omega arith;
        department = omega arith;
        filters = (omega arith, refl);
        user = λ v e. cc;
      })

from_uri-to_uri_plain_example : from_uri toy (to_uri toy query) ≡ ok query
from_uri-to_uri_plain_example =
    from_uri-to_uri_plain toy query (λ e. cc) (omega arith) (omega arith) query-IsEncodable

from_uri_run : from_uri toy (codes "http://a") ≡ err invalid_argument
unfolding from_uri
from_uri_run = refl
