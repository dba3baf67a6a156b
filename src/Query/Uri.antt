-- ===== src/Query/Uri.antt =====
-- CannedQueryImpl::to_uri and from_uri. JSON is written and read by the json-cpp library, through
-- JsonCppNode: it is a parameter.
use unity_scopes_api.Prelude.{
  ℕ, List, [], ◌∷◌, ◌++◌, Option, none, some, Text, text_eq, codes, Result, ok, err,
  invalid_argument, ◌>>=◌, ◌>>◌, throw_if, is_empty, ◌==◌, if◌then◌else◌,
}
use unity_scopes_api.Encoding.{to_percent_encoding, from_percent_encoding}
use unity_scopes_api.Variant.{Value, Fields, dict, get_dict, has_fields}
use unity_scopes_api.Query.{
  CannedQuery, of_scope_id, set_department_id, set_query_string, set_filter_state, set_user_data,
}

-- JsonCppNode::to_json_string of a Variant, and the constructor from text with to_variant.
pub record Json : Type 0 where
  pub print : Value → Text
  pub parse : Text → Result Value

unfoldable pub scopes_schema : Text
scopes_schema = codes "scope://"

-- A part of the URI: its key with "=", and the encoded text.
abbrev pub param : Text → Text → Text
param key s = key ++ to_percent_encoding s

abbrev pub department_part : Text → Text
department_part d = if is_empty d then [] else param (codes "&dep=") d

abbrev pub filters_part : Json → Fields → Text
filters_part json m = if has_fields m then param (codes "&filters=") (json.print (dict m)) else []

abbrev pub user_data_part : Json → Option Value → Text
user_data_part json none = []
user_data_part json (some v) = param (codes "&data=") (json.print v)

unfoldable pub to_uri : Json → CannedQuery → Text
unfolding scopes_schema
to_uri json q =
    scopes_schema
    ++ q.scope_id
    ++ param (codes "?q=") q.query_string
    ++ department_part q.department_id
    ++ filters_part json q.filter_state
    ++ user_data_part json q.user_data

-- `uri.compare(0, n, prefix) == 0`, with what follows the prefix.
unfoldable pub strip_prefix : Text → Text → Option Text
strip_prefix [] s = some s
strip_prefix (a ∷ p) [] = none
strip_prefix (a ∷ p) (b ∷ s) = if a == b then strip_prefix p s else none

-- The text before the first `d`, and that after it if there is one: find and substr.
unfoldable pub before : ℕ → Text → Text
before d [] = []
before d (c ∷ s) = if c == d then [] else c ∷ before d s

unfoldable pub after : ℕ → Text → Option Text
after d [] = none
after d (c ∷ s) = if c == d then some s else after d s

-- The segments that `while (getline(istr, kv, d))` yields; `kv` is the segment so far.
unfoldable pub segments : ℕ → Text → Text → List Text
segments d kv [] = if is_empty kv then [] else kv ∷ []
segments d kv (c ∷ s) =
    let closed = kv ∷ segments d [] s in
    let longer = segments d (kv ++ c ∷ []) s in if c == d then closed else longer

-- CannedQueryImpl::decode_or_throw: the error is one of the same class.
unfoldable pub decode_or_throw : Text → Result Text
decode_or_throw s = elim (from_percent_encoding s) [ ok t ↦ ok t | err e ↦ err invalid_argument ]

-- The value of the key "filters" is a dictionary.
unfoldable pub filters_of : Value → Result Fields
unfolding get_dict
filters_of v = elim (get_dict v) [ ok m ↦ ok m | err e ↦ err invalid_argument ]

-- The body of the loop once the segment is split at its first "=".
unfoldable pub apply_param : Json → Text → Text → CannedQuery → Result CannedQuery
unfolding set_query_string set_department_id set_filter_state set_user_data
apply_param json key val q =
    if text_eq key (codes "q")
    then (do s ← decode_or_throw val; ok (set_query_string s q))
    else if text_eq key (codes "dep")
    then (do s ← decode_or_throw val; ok (set_department_id s q))
    else if text_eq key (codes "filters")
    then (do s ← decode_or_throw val; v ← json.parse s; m ← filters_of v; ok (set_filter_state m q))
    else if text_eq key (codes "data")
    then (do s ← decode_or_throw val; v ← json.parse s; ok (set_user_data v q))
    else ok q

-- A segment with no "=" is ignored.
unfoldable pub apply_segment : Json → Text → CannedQuery → Result CannedQuery
unfolding before after
apply_segment json kv q = elim (after b'=' kv) [
  | none ↦ ok q
  | some val ↦ apply_param json (before b'=' kv) val q
]

unfoldable pub apply_segments : Json → List Text → CannedQuery → Result CannedQuery
apply_segments json [] q = ok q
apply_segments json (kv ∷ kvs) q = do next ← apply_segment json kv q; apply_segments json kvs next

-- What follows "?", if there is one.
abbrev pub query_part : Option Text → List Text
query_part none = []
query_part (some s) = segments b'&' [] s

unfoldable pub from_uri : Json → Text → Result CannedQuery
unfolding strip_prefix before after of_scope_id scopes_schema
from_uri json uri = elim (strip_prefix scopes_schema uri) [
  | none ↦ err invalid_argument
  | some rest ↦ (do
    throw_if (is_empty (before b'?' rest)) invalid_argument
    id ← from_percent_encoding (before b'?' rest)
    q ← of_scope_id id
    apply_segments json (query_part (after b'?' rest)) q)
]
