-- ===== src/Query/Segments.antt =====
-- The parameters of a URI as to_uri joins them and from_uri splits them.
use unity_scopes_api.Prelude.{
  ℕ, ◌<◌, ◌≡◌, ◌≢◌, ◌∙◌, refl, sym, ap, false, List, [], ◌∷◌, ◌++◌, append_assoc, append-nil,
  Option, none, some, Text, codes, ok, arith, All, inl, inr, is_empty,
}
use unity_scopes_api.Encoding.{to_percent_encoding, is_alnum}
use unity_scopes_api.Encoding.RoundTrip.{
  IsUnreserved, from-to_percent_encoding, to_percent_encoding-IsUnreserved,
}
use unity_scopes_api.Variant.{Value, Fields, end, field, dict}
use unity_scopes_api.Query.{CannedQuery}
use unity_scopes_api.Query.Uri.{
  Json, scopes_schema, param, department_part, filters_part, user_data_part, to_uri, before, after,
  segments, decode_or_throw,
}

abbrev pub IsBytes : Text → Type 0
IsBytes = All (λ c. c < 256)

abbrev pub Without : ℕ → Text → Type 0
Without d = All (λ c. c ≢ d)

pub before-append : (d : ℕ) (s rest : Text) → Without d s → before d (s ++ d ∷ rest) ≡ s
unfolding before
before-append d [] rest h = ground arith
before-append d (c ∷ s) rest h = ground (arith, h.0, before-append d s rest h.1)

pub after-append : (d : ℕ) (s rest : Text) → Without d s → after d (s ++ d ∷ rest) ≡ some rest
unfolding after
after-append d [] rest h = ground arith
after-append d (c ∷ s) rest h = ground (arith, h.0, after-append d s rest h.1)

segments-closed :
    (d : ℕ) (kv s rest : Text)
    → Without d s
    → segments d kv (s ++ d ∷ rest) ≡ (kv ++ s) ∷ segments d [] rest
unfolding segments
segments-closed d kv [] rest h = ground (arith, append-nil kv)
segments-closed d kv (c ∷ s) rest h =
    ground (arith, h.0, segments-closed d (kv ++ c ∷ []) s rest h.1, append_assoc kv (c ∷ []) s)

segments-last :
    (d : ℕ) (kv s : Text)
    → Without d s
    → is_empty (kv ++ s) ≡ false
    → segments d kv s ≡ (kv ++ s) ∷ []
unfolding segments
segments-last d kv [] h k = ground (arith, append-nil kv, k)
segments-last d kv (c ∷ s) h k =
    ground (arith, h.0, k, segments-last d (kv ++ c ∷ []) s h.1, append_assoc kv (c ∷ []) s)

-- The segments behind the first, each with its "&".
abbrev pub joined : List Text → Text
joined [] = []
joined (s ∷ ss) = b'&' ∷ s ++ joined ss

abbrev pub IsSegment : Text → Type 0
IsSegment s = Without b'&' s × (is_empty s ≡ false)

-- Cutting at "&" gives the segments back.
pub segments-joined :
    (s : Text) (ss : List Text)
    → IsSegment s
    → All IsSegment ss
    → segments b'&' [] (s ++ joined ss) ≡ s ∷ ss
segments-joined s [] h k = rw (append-nil s) (segments-last b'&' [] s h.0 h.1)
segments-joined s (t ∷ ts) h k =
    segments-closed b'&' [] s (t ++ joined ts) h.0 ∙ ap (λ l. s ∷ l) (segments-joined t ts k.0 k.1)

unfoldable pub department_segments : Text → List Text
department_segments [] = []
department_segments (c ∷ d) = param (codes "dep=") (c ∷ d) ∷ []

unfoldable pub filters_segments : Json → Fields → List Text
filters_segments json end = []
filters_segments json (field k v m) =
    param (codes "filters=") (json.print (dict (field k v m))) ∷ []

unfoldable pub user_data_segments : Json → Option Value → List Text
user_data_segments json none = []
user_data_segments json (some v) = param (codes "data=") (json.print v) ∷ []

-- The segments behind the one of the query string.
unfoldable pub later_segments : Json → CannedQuery → List Text
later_segments json q =
    department_segments q.department_id
    ++ (filters_segments json q.filter_state ++ user_data_segments json q.user_data)

joined-append : (xs ys : List Text) → joined (xs ++ ys) ≡ joined xs ++ joined ys
joined-append [] ys = refl
joined-append (x ∷ xs) ys = simp (joined-append xs ys, append_assoc)

joined-department : (d : Text) → joined (department_segments d) ≡ department_part d
unfolding department_segments
joined-department [] = refl
joined-department (c ∷ d) = simp append-nil

joined-filters : (json : Json) (m : Fields) → joined (filters_segments json m) ≡ filters_part json m
unfolding filters_segments
joined-filters json end = refl
joined-filters json (field k v m) = simp append-nil

joined-user_data :
    (json : Json) (o : Option Value) → joined (user_data_segments json o) ≡ user_data_part json o
unfolding user_data_segments
joined-user_data json none = refl
joined-user_data json (some v) = simp append-nil

joined-later :
    (json : Json) (q : CannedQuery)
    → joined (later_segments json q)
      ≡ department_part q.department_id
        ++ (filters_part json q.filter_state ++ user_data_part json q.user_data)
unfolding later_segments
joined-later json q = simp (joined-append, joined-department, joined-filters, joined-user_data)

pub to_uri-shape :
    (json : Json) (q : CannedQuery)
    → to_uri json q
      ≡ scopes_schema
        ++ (q.scope_id
            ++ b'?' ∷ (param (codes "q=") q.query_string ++ joined (later_segments json q)))
unfolding to_uri
to_uri-shape json q = rw (joined-later json q) (simp append_assoc)

unreserved-ne : (d c : ℕ) → is_alnum d ≡ false → d ≢ b'%' → IsUnreserved c → c ≢ d
unreserved-ne d c h k (inl a) = λ e. cc (ap is_alnum e)
unreserved-ne d c h k (inr p) = λ e. k (sym e ∙ p)

-- Encoded texts hold no delimiter.
unreserved-Without :
    (d : ℕ) (s : Text) → is_alnum d ≡ false → d ≢ b'%' → All IsUnreserved s → Without d s
unreserved-Without d [] h k l = tt
unreserved-Without d (c ∷ s) h k l = (unreserved-ne d c h k l.0, unreserved-Without d s h k l.1)

pub encoded-Without_amp : (s : Text) → Without b'&' (to_percent_encoding s)
unfolding is_alnum
encoded-Without_amp s =
    unreserved-Without b'&' (to_percent_encoding s) refl (λ e. absurd (omega arith))
      (to_percent_encoding-IsUnreserved s)

pub decode-encoded : (s : Text) → IsBytes s → decode_or_throw (to_percent_encoding s) ≡ ok s
unfolding decode_or_throw
decode-encoded s h = rw (decode_or_throw, from-to_percent_encoding s h)
