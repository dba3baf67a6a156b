-- ===== src/Metadata/Serial.antt =====
-- The metadata of a scope survive the trip through a VariantMap.
use unity_scopes_api.Prelude.{
  ◌≡◌, ◌≢◌, refl, sym, ap, ◌∙◌, false, List, [], ◌∷◌, ◌++◌, append_assoc, append-nil, some, Text,
  text_eq, codes, ok, invalid_argument, ◌>>=◌, arith, is_empty, throw_if,
}
use unity_scopes_api.Prelude.Int.{pos, ltb_ℤ}
use unity_scopes_api.Variant.{
  entry_of, Fields, end, field, str, int, boolean, dict, array, find, get_string, get_int, get_dict,
  get_array,
}
use unity_scopes_api.Variant.Laws.{optional_laws, entry_laws, find_or-found}
use unity_scopes_api.Metadata.{
  Proxy, ResultsTtlType, no_ttl, small, medium, large, ScopeMetadata, ttl_entry, fields_entry,
  texts_entry, serialize_texts, proxy_fields, optional_entries, required_entries, serialize,
  text_at, fields_of, ttl_of, read_texts, has_text, read_set, texts_of, set_of, read_proxy,
  deserialize,
}

-- The entries of the whole map.
optional-entries :
    (m : ScopeMetadata) (p : Proxy)
    → (find (codes "art") (optional_entries m (required_entries m p)) ≡ entry_of str m.art)
      × (find (codes "icon") (optional_entries m (required_entries m p)) ≡ entry_of str m.icon)
      × (find (codes "search_hint") (optional_entries m (required_entries m p))
          ≡ entry_of str m.search_hint)
      × (find (codes "hot_key") (optional_entries m (required_entries m p))
          ≡ entry_of str m.hot_key)
      × (find (codes "invisible") (optional_entries m (required_entries m p))
          ≡ entry_of boolean m.invisible)
      × (find (codes "scope_dir") (optional_entries m (required_entries m p))
          ≡ entry_of str m.scope_directory)
      × (find (codes "appearance_attributes") (optional_entries m (required_entries m p))
          ≡ fields_entry m.appearance_attributes)
      × (find (codes "results_ttl_type") (optional_entries m (required_entries m p))
          ≡ ttl_entry m.results_ttl_type)
      × (find (codes "settings_definitions") (optional_entries m (required_entries m p))
          ≡ entry_of array m.settings_definitions)
      × (find (codes "location_data_needed") (optional_entries m (required_entries m p))
          ≡ entry_of boolean m.location_data_needed)
      × (find (codes "child_scopes") (optional_entries m (required_entries m p))
          ≡ texts_entry m.child_scope_ids)
      × (find (codes "keywords") (optional_entries m (required_entries m p))
          ≡ texts_entry m.keywords)
      × (find (codes "is_aggregator") (optional_entries m (required_entries m p))
          ≡ entry_of boolean m.is_aggregator)
unfolding optional_entries required_entries text_eq find
optional-entries m p =
    simp (entry_laws) (refl, refl, refl, refl, refl, refl, refl, refl, refl, refl, refl, refl, refl)

required-entries :
    (m : ScopeMetadata) (p : Proxy)
    → (find (codes "scope_id") (optional_entries m (required_entries m p)) ≡ some (str m.scope_id))
      × (find (codes "proxy") (optional_entries m (required_entries m p))
          ≡ some (dict (proxy_fields p)))
      × (find (codes "display_name") (optional_entries m (required_entries m p))
          ≡ some (str m.display_name))
      × (find (codes "description") (optional_entries m (required_entries m p))
          ≡ some (str m.description))
      × (find (codes "author") (optional_entries m (required_entries m p)) ≡ some (str m.author))
      × (find (codes "version") (optional_entries m (required_entries m p)) ≡ some (int m.version))
unfolding optional_entries required_entries text_eq find
required-entries m p = simp (entry_laws) (refl, refl, refl, refl, refl, refl)

texts_again : (ss : List Text) → read_texts (serialize_texts ss) ≡ ok ss
unfolding read_texts serialize_texts get_string
texts_again [] = refl
texts_again (s ∷ ss) = rw (texts_again ss) refl

ids_again : (ss : List Text) → texts_of (texts_entry ss) ≡ ok ss
unfolding get_array
ids_again [] = refl
ids_again (s ∷ ss) = texts_again (s ∷ ss)

abbrev pub AreDistinct : List Text → List Text → Type 0
AreDistinct done [] = Unit {0}
AreDistinct done (s ∷ ss) = (has_text s done ≡ false) × AreDistinct (done ++ s ∷ []) ss

set_read :
    (ss done : List Text)
    → AreDistinct done ss
    → read_set (serialize_texts ss) done ≡ ok (done ++ ss)
unfolding read_set serialize_texts get_string
set_read [] done h = ap ok (sym (append-nil done))
set_read (s ∷ ss) done h =
    rw (h.0) (set_read ss (done ++ s ∷ []) h.1 ∙ ap ok (append_assoc done (s ∷ []) ss))

keywords_again : (ss : List Text) → AreDistinct [] ss → set_of (texts_entry ss) ≡ ok ss
unfolding get_array
keywords_again [] h = refl
keywords_again (s ∷ ss) h = set_read (s ∷ ss) [] h

fields_again : (m : Fields) → fields_of (fields_entry m) ≡ ok m
unfolding get_dict
fields_again end = refl
fields_again (field k v m) = refl

ttl_again : (t : ResultsTtlType) → ttl_of (ttl_entry t) ≡ ok t
unfolding get_int
ttl_again no_ttl = refl
ttl_again small = refl
ttl_again medium = refl
ttl_again large = refl

text_found : (k s : Text) (m : Fields) → find k m ≡ some (str s) → text_at k m ≡ ok s
unfolding text_at get_string
text_found k s m e = ap (λ r. r >>= get_string) (find_or-found invalid_argument k (str s) m e)

proxy-entries :
    (p : Proxy)
    → (find (codes "identity") (proxy_fields p) ≡ some (str p.identity))
      × (find (codes "endpoint") (proxy_fields p) ≡ some (str p.endpoint))
unfolding proxy_fields text_eq
proxy-entries p = simp (entry_laws) (refl, refl)

proxy_again : (p : Proxy) → p.identity ≢ [] → p.endpoint ≢ [] → read_proxy (proxy_fields p) ≡ ok p
unfolding read_proxy
proxy_again p h k = ground (
  arith,
  h,
  k,
  text_found (codes "identity") p.identity (proxy_fields p) (proxy-entries p).0,
  text_found (codes "endpoint") p.endpoint (proxy_fields p) (proxy-entries p).1,
)

-- What serialize has checked.
checked :
    (m : ScopeMetadata) (p : Proxy) (w : Fields)
    → m.proxy ≡ some p
    → serialize m ≡ ok w
    → (throw_if (is_empty m.scope_id) invalid_argument ≡ ok tt)
      × (w ≡ optional_entries m (required_entries m p))
unfolding serialize
checked m p w e h = ground (arith, e, h)

all_read :
    (m : ScopeMetadata) (p : Proxy)
    → p.identity ≢ []
    → p.endpoint ≢ []
    → throw_if (ltb_ℤ m.version (pos 0)) invalid_argument ≡ ok tt
    → AreDistinct [] m.keywords
    → throw_if (is_empty m.scope_id) invalid_argument ≡ ok tt
    → deserialize (optional_entries m (required_entries m p)) ≡ ok (record m { proxy = some p })
unfolding deserialize get_dict get_int
all_read m p i n v d s =
    let w = optional_entries m (required_entries m p) in
    let r = required-entries m p in
    let o = optional-entries m p in
    simp (
      text_found (codes "scope_id") m.scope_id w r.0,
      find_or-found invalid_argument (codes "proxy") (dict (proxy_fields p)) w r.1,
      text_found (codes "display_name") m.display_name w r.2,
      text_found (codes "description") m.description w r.3,
      text_found (codes "author") m.author w r.4,
      r.5,
      proxy_again p i n,
      s,
      v,
      o.0,
      o.1,
      o.2,
      o.3,
      o.4,
      o.5,
      o.6,
      o.7,
      o.8,
      o.9,
      o.10,
      o.11,
      o.12,
      optional_laws,
      ids_again,
      keywords_again m.keywords d,
      fields_again,
      ttl_again,
    )

-- The metadata that a scope serialises are read back the same, if the middleware's proxy has an
-- identity and an endpoint, the version is not negative and each keyword stands once.
pub deserialize-serialize_metadata :
    (m : ScopeMetadata) (p : Proxy) (w : Fields)
    → m.proxy ≡ some p
    → p.identity ≢ []
    → p.endpoint ≢ []
    → ltb_ℤ m.version (pos 0) ≡ false
    → AreDistinct [] m.keywords
    → serialize m ≡ ok w
    → deserialize w ≡ ok m
deserialize-serialize_metadata m p w e i n v d h =
    let (s, whole) = checked m p w e h in
    ap deserialize whole
    ∙ all_read m p i n (ap (λ b. throw_if b invalid_argument) v) d s
    ∙ ap (λ q. ok (record m { proxy = q })) (sym e)
