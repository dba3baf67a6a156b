-- ===== src/Query/UriRoundTrip.antt =====
-- from_uri reads back what to_uri writes.
use unity_scopes_api.Prelude.{
  ℕ, ◌≡◌, ◌≢◌, ◌∙◌, refl, sym, ap, fun_ext, >>=_assoc, false, List, [], ◌∷◌, ◌++◌, append-nil,
  Option, none, some, Text, text_eq, codes, Result, ok, arith, ◌>>=◌, All, All-append, is_empty,
}
use unity_scopes_api.Encoding.{to_percent_encoding, from_percent_encoding}
use unity_scopes_api.Encoding.RoundTrip.{
  from_percent_encoding-plain, from_percent_encoding-nil, from_percent_encoding-ne_nil,
}
use unity_scopes_api.Variant.{Value, Fields, end, field, dict}
use unity_scopes_api.Query.{CannedQuery}
use unity_scopes_api.Query.Uri.{
  Json, scopes_schema, param, to_uri, filters_of, apply_param, apply_segment, apply_segments,
  from_uri,
}
use unity_scopes_api.Query.Segments.{
  IsBytes, Without, before-append, after-append, joined, IsSegment, segments-joined,
  department_segments, filters_segments, user_data_segments, later_segments, to_uri-shape,
  encoded-Without_amp, decode-encoded,
}

abbrev query_of : Text → Text → Text → Fields → Option Value → CannedQuery
query_of id s d m user = record {
  scope_id = id;
  query_string = s;
  department_id = d;
  filter_state = m;
  user_data = user;
}

-- What the JSON library has to do for a value: its text is read back as that value.
abbrev pub IsPrintable : Json → Value → Type 0
IsPrintable json v = IsBytes (json.print v) × (json.parse (json.print v) ≡ ok v)

module _ (json : Json) (id s : Text) where
  apply-query :
      IsBytes s
      → apply_segment json (param (codes "q=") s) (query_of id [] [] end none)
        ≡ ok (query_of id s [] end none)
  unfolding apply_segment apply_param text_eq
  apply-query h = rw (decode-encoded s h)

  apply-department :
      (d : Text)
      → IsBytes d
      → apply_segments json (department_segments d) (query_of id s [] end none)
        ≡ ok (query_of id s d end none)
  unfolding apply_segments department_segments apply_segment apply_param text_eq
  apply-department [] h = refl
  apply-department (c ∷ d) h = rw (decode-encoded (c ∷ d) h)

  apply-filters :
      (d : Text) (m : Fields)
      → IsPrintable json (dict m)
      → apply_segments json (filters_segments json m) (query_of id s d end none)
        ≡ ok (query_of id s d m none)
  unfolding apply_segments filters_segments apply_segment apply_param text_eq filters_of
  apply-filters d end h = refl
  apply-filters d (field k v m) h = rw (decode-encoded _ h.0, h.1)

  apply-user_data :
      (d : Text) (m : Fields) (v : Value)
      → IsPrintable json v
      → apply_segments json (user_data_segments json (some v)) (query_of id s d m none)
        ≡ ok (query_of id s d m (some v))
  unfolding apply_segments user_data_segments apply_segment apply_param text_eq
  apply-user_data d m v h = rw (decode-encoded _ h.0, h.1)

apply_segments-append :
    (json : Json) (xs ys : List Text) (q : CannedQuery)
    → apply_segments json (xs ++ ys) q ≡ (apply_segments json xs q >>= apply_segments json ys)
unfolding apply_segments
apply_segments-append json [] ys q = refl
apply_segments-append json (x ∷ xs) ys q =
    ap (λ (k : CannedQuery → Result CannedQuery). apply_segment json x q >>= k)
      (fun_ext (apply_segments-append json xs ys))
    ∙ sym (>>=_assoc (apply_segment json x q) (apply_segments json xs) (apply_segments json ys))

-- What the two programs need of a query: its texts are bytes, and JSON reads its values back.
pub record IsEncodable (json : Json) (q : CannedQuery) : Type 0 where
  pub query : IsBytes q.query_string
  pub department : IsBytes q.department_id
  pub filters : IsPrintable json (dict q.filter_state)
  pub user : (v : Value) → q.user_data ≡ some v → IsPrintable json v

apply-later :
    (json : Json) (id s d : Text) (m : Fields) (o : Option Value)
    → IsEncodable json (query_of id s d m o)
    → apply_segments json (later_segments json (query_of id s d m o)) (query_of id s [] end none)
      ≡ ok (query_of id s d m o)
unfolding later_segments user_data_segments apply_segments
apply-later json id s d m none h =
    apply_segments-append json (department_segments d) (filters_segments json m ++ []) _
    ∙ rw (apply-department json id s d h.department, append-nil (filters_segments json m))
        (apply-filters json id s d m h.filters)
apply-later json id s d m (some v) h =
    apply_segments-append json (department_segments d) _ _
    ∙ rw
        (
          apply-department json id s d h.department,
          apply_segments-append json (filters_segments json m) (user_data_segments json (some v))
              (query_of id s d end none),
          apply-filters json id s d m h.filters,
        )
        (apply-user_data json id s d m v (h.user v refl))

IsSegment-param : (c : ℕ) (key s : Text) → Without b'&' (c ∷ key) → IsSegment (param (c ∷ key) s)
IsSegment-param c key s h =
    (All-append (λ x. x ≢ b'&') (c ∷ key) (to_percent_encoding s) h (encoded-Without_amp s), refl)

IsSegment-department : (d : Text) → All IsSegment (department_segments d)
unfolding department_segments
IsSegment-department [] = tt
IsSegment-department (c ∷ d) = (IsSegment-param b'd' (codes "ep=") (c ∷ d) (omega arith), tt)

IsSegment-filters : (json : Json) (m : Fields) → All IsSegment (filters_segments json m)
unfolding filters_segments
IsSegment-filters json end = tt
IsSegment-filters json (field k v m) = (IsSegment-param b'f' (codes "ilters=") _ (omega arith), tt)

IsSegment-user_data : (json : Json) (o : Option Value) → All IsSegment (user_data_segments json o)
unfolding user_data_segments
IsSegment-user_data json none = tt
IsSegment-user_data json (some v) = (IsSegment-param b'd' (codes "ata=") _ (omega arith), tt)

IsSegment-later : (json : Json) (q : CannedQuery) → All IsSegment (later_segments json q)
unfolding later_segments
IsSegment-later json q =
    All-append IsSegment (department_segments q.department_id) _
      (IsSegment-department q.department_id)
      (All-append IsSegment (filters_segments json q.filter_state) _
        (IsSegment-filters json q.filter_state) (IsSegment-user_data json q.user_data))

is_empty-of_ne : (s : Text) → s ≢ [] → is_empty s ≡ false
is_empty-of_ne [] h = absurd (h refl)
is_empty-of_ne (c ∷ s) h = refl

-- from_uri on a URI that is cut into its scope id and its segments.
from_uri-shape :
    (json : Json) (scope id s : Text) (ss : List Text)
    → scope ≢ []
    → Without b'?' scope
    → from_percent_encoding scope ≡ ok id
    → IsSegment s
    → All IsSegment ss
    → from_uri json (scopes_schema ++ (scope ++ b'?' ∷ (s ++ joined ss)))
      ≡ apply_segments json (s ∷ ss) (query_of id [] [] end none)
unfolding from_uri
from_uri-shape json scope id s ss h k e l ls = rw (
  from_uri,
  before-append b'?' scope (s ++ joined ss) k,
  after-append b'?' scope (s ++ joined ss) k,
  is_empty-of_ne scope h,
  e,
  is_empty-of_ne id (from_percent_encoding-ne_nil scope id h e),
  segments-joined s ss l ls,
)

apply-all :
    (json : Json) (id : Text) (q : CannedQuery)
    → IsEncodable json q
    → apply_segments json
        (param (codes "q=") q.query_string ∷ later_segments json q)
        (query_of id [] [] end none)
      ≡ ok (record q { scope_id = id })
unfolding apply_segments later_segments
apply-all json id q enc =
    rw (apply_segments, apply-query json id q.query_string enc.query)
      (apply-later json id q.query_string q.department_id q.filter_state q.user_data (record {
        query = enc.query;
        department = enc.department;
        filters = enc.filters;
        user = enc.user;
      }))

-- Reading the URI of a query gives the query back with its scope id percent-decoded, which to_uri
-- does not encode: for every scope id without "?" that is not empty and can be decoded, every text
-- of bytes and every value that the JSON library can print and read back.
pub from_uri-to_uri :
    (json : Json) (q : CannedQuery) (id : Text)
    → q.scope_id ≢ []
    → Without b'?' q.scope_id
    → from_percent_encoding q.scope_id ≡ ok id
    → IsEncodable json q
    → from_uri json (to_uri json q) ≡ ok (record q { scope_id = id })
from_uri-to_uri json q id h k e enc =
    ap (from_uri json) (to_uri-shape json q)
    ∙ from_uri-shape json q.scope_id id (param (codes "q=") q.query_string) (later_segments json q)
        h k e (IsSegment-param b'q' (codes "=") q.query_string (omega arith))
        (IsSegment-later json q)
    ∙ apply-all json id q enc

decode-plain : (s : Text) → Without b'%' s → from_percent_encoding s ≡ ok s
decode-plain [] h = from_percent_encoding-nil
decode-plain (c ∷ s) h =
    from_percent_encoding-plain c s (ground (arith, h.0)) ∙ rw (decode-plain s h.1)

-- In particular the query itself comes back if its scope id holds neither "?" nor "%".
pub from_uri-to_uri_plain :
    (json : Json) (q : CannedQuery)
    → q.scope_id ≢ []
    → Without b'?' q.scope_id
    → Without b'%' q.scope_id
    → IsEncodable json q
    → from_uri json (to_uri json q) ≡ ok q
from_uri-to_uri_plain json q h k p enc =
    from_uri-to_uri json q q.scope_id h k (decode-plain q.scope_id p) enc
