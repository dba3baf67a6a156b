-- ===== src/Metadata.antt =====
-- What is known of a scope: src/scopes/internal/ScopeMetadataImpl.cpp. A proxy is the identity and
-- the endpoint that the middleware makes it from. A set is the list of its elements, each once.
pub mod Serial
mod Tests
use unity_scopes_api.Prelude.{
  ℕ, zero, suc, Bool, true, false, not, List, [], ◌∷◌, ◌++◌, Option, none, some, Text, text_eq,
  codes, Result, ok, err, Error, invalid_argument, not_found, ◌>>=◌, ◌>>◌, throw_if, is_empty,
  is_some, if◌then◌else◌,
}
use unity_scopes_api.Prelude.Int.{ℤ, pos, negsuc, ltb_ℤ}
use unity_scopes_api.Variant.{
  entry_of, optional, Value, Fields, Items, end, field, nil, cons, str, int, boolean, dict, array,
  find, find_or, insert, insert_some, get_string, get_int, get_bool, get_dict, get_array,
}

pub record Proxy : Type 0 where
  pub identity : Text
  pub endpoint : Text

pub data ResultsTtlType : Type 0 where
  no_ttl small medium large : ResultsTtlType

pub record ScopeMetadata : Type 0 where
  pub scope_id : Text
  pub proxy : Option Proxy
  pub display_name : Text
  pub description : Text
  pub author : Text
  pub art : Option Text
  pub icon : Option Text
  pub search_hint : Option Text
  pub hot_key : Option Text
  pub invisible : Option Bool
  pub scope_directory : Option Text
  pub appearance_attributes : Fields
  pub results_ttl_type : ResultsTtlType
  pub settings_definitions : Option Items
  pub location_data_needed : Option Bool
  pub child_scope_ids : List Text
  pub version : ℤ
  pub keywords : List Text
  pub is_aggregator : Option Bool

-- The accessors of an optional text, and of an optional flag.
unfoldable pub text_or_thrown : Option Text → Result Text
text_or_thrown none = err not_found
text_or_thrown (some s) = ok s

unfoldable pub flag_or_false : Option Bool → Bool
flag_or_false none = false
flag_or_false (some b) = b

unfoldable pub set_version : ℤ → ScopeMetadata → Result ScopeMetadata
set_version v m = do throw_if (ltb_ℤ v (pos 0)) invalid_argument; ok (record m { version = v })

abbrev pub ttl_entry : ResultsTtlType → Option Value
ttl_entry no_ttl = none
ttl_entry small = some (int (pos 1))
ttl_entry medium = some (int (pos 2))
ttl_entry large = some (int (pos 3))

abbrev pub fields_entry : Fields → Option Value
fields_entry end = none
fields_entry (field k v m) = some (dict (field k v m))

unfoldable pub serialize_texts : List Text → Items
serialize_texts [] = nil
serialize_texts (s ∷ ss) = cons (str s) (serialize_texts ss)

abbrev pub texts_entry : List Text → Option Value
texts_entry [] = none
texts_entry (s ∷ ss) = some (array (serialize_texts (s ∷ ss)))

unfoldable pub proxy_fields : Proxy → Fields
proxy_fields p =
    insert (codes "endpoint") (str p.endpoint) (insert (codes "identity") (str p.identity) end)

unfoldable pub optional_entries : ScopeMetadata → Fields → Fields
unfolding serialize_texts
optional_entries m n = insert_some (codes "is_aggregator") (entry_of boolean m.is_aggregator) (
    insert_some (codes "keywords") (texts_entry m.keywords) (
      insert_some (codes "child_scopes") (texts_entry m.child_scope_ids) (
        insert_some (codes "location_data_needed") (entry_of boolean m.location_data_needed) (
          insert_some (codes "settings_definitions") (entry_of array m.settings_definitions) (
            insert_some (codes "results_ttl_type") (ttl_entry m.results_ttl_type) (
              insert_some (codes "appearance_attributes") (fields_entry m.appearance_attributes) (
                insert_some (codes "scope_dir") (entry_of str m.scope_directory) (
                  insert_some (codes "invisible") (entry_of boolean m.invisible) (
                    insert_some (codes "hot_key") (entry_of str m.hot_key) (
                      insert_some (codes "search_hint") (entry_of str m.search_hint) (
                        insert_some (codes "icon") (entry_of str m.icon)
                          (insert_some (codes "art") (entry_of str m.art) n))))))))))))

unfoldable pub required_entries : ScopeMetadata → Proxy → Fields
unfolding proxy_fields
required_entries m p = insert (codes "version") (int m.version) (
    insert (codes "author") (str m.author) (
      insert (codes "description") (str m.description) (
        insert (codes "display_name") (str m.display_name) (
          insert (codes "proxy") (dict (proxy_fields p))
            (insert (codes "scope_id") (str m.scope_id) end)))))

abbrev throw_on_empty : Text → Result (Unit {0})
throw_on_empty s = throw_if (is_empty s) invalid_argument

abbrev proxy_or_thrown : Option Proxy → Result Proxy
proxy_or_thrown none = err invalid_argument
proxy_or_thrown (some p) = ok p

unfoldable pub serialize : ScopeMetadata → Result Fields
unfolding optional_entries required_entries
serialize m = do
  throw_on_empty m.scope_id
  p ← proxy_or_thrown m.proxy
  throw_on_empty m.display_name
  throw_on_empty m.description
  throw_on_empty m.author
  ok (optional_entries m (required_entries m p))

unfoldable pub text_at : Text → Fields → Result Text
unfolding get_string
text_at k m = find_or invalid_argument k m >>= get_string

abbrev pub version_of : Option Value → Result ℤ
version_of none = ok (pos 0)
version_of (some v) = get_int v

abbrev pub fields_of : Option Value → Result Fields
fields_of none = ok end
fields_of (some v) = get_dict v

abbrev ttl_type : ℤ → Result ResultsTtlType
ttl_type (pos zero) = ok no_ttl
ttl_type (pos (suc zero)) = ok small
ttl_type (pos (suc (suc zero))) = ok medium
ttl_type (pos (suc (suc (suc zero)))) = ok large
ttl_type n = err invalid_argument

abbrev pub ttl_of : Option Value → Result ResultsTtlType
ttl_of none = ok no_ttl
ttl_of (some v) = get_int v >>= ttl_type

unfoldable pub read_texts : Items → Result (List Text)
unfolding get_string
read_texts nil = ok []
read_texts (cons v a) = do s ← get_string v; ss ← read_texts a; ok (s ∷ ss)

abbrev pub has_text : Text → List Text → Bool
has_text s [] = false
has_text s (t ∷ ts) = if text_eq t s then true else has_text s ts

-- std::set::emplace.
abbrev pub emplace : Text → List Text → List Text
emplace s ts = if has_text s ts then ts else ts ++ s ∷ []

unfoldable pub read_set : Items → List Text → Result (List Text)
unfolding get_string
read_set nil done = ok done
read_set (cons v a) done = do s ← get_string v; read_set a (emplace s done)

abbrev pub texts_of : Option Value → Result (List Text)
texts_of none = ok []
texts_of (some v) = get_array v >>= read_texts

abbrev pub set_of : Option Value → Result (List Text)
set_of none = ok []
set_of (some v) = get_array v >>= λ a. read_set a []

unfoldable pub read_proxy : Fields → Result Proxy
unfolding text_at
read_proxy m = do
  identity ← text_at (codes "identity") m
  throw_on_empty identity
  endpoint ← text_at (codes "endpoint") m
  throw_on_empty endpoint
  ok (record { identity = identity; endpoint = endpoint })

unfoldable pub deserialize : Fields → Result ScopeMetadata
unfolding text_at find_or find get_dict get_string get_int get_bool get_array read_proxy read_texts
    read_set
deserialize m = do
  scope_id ← text_at (codes "scope_id") m
  throw_on_empty scope_id
  v ← find_or invalid_argument (codes "proxy") m
  proxy_map ← get_dict v
  proxy ← read_proxy proxy_map
  display_name ← text_at (codes "display_name") m
  description ← text_at (codes "description") m
  author ← text_at (codes "author") m
  version ← version_of (find (codes "version") m)
  throw_if (ltb_ℤ version (pos 0)) invalid_argument
  art ← optional get_string (find (codes "art") m)
  icon ← optional get_string (find (codes "icon") m)
  search_hint ← optional get_string (find (codes "search_hint") m)
  hot_key ← optional get_string (find (codes "hot_key") m)
  invisible ← optional get_bool (find (codes "invisible") m)
  scope_directory ← optional get_string (find (codes "scope_dir") m)
  appearance_attributes ← fields_of (find (codes "appearance_attributes") m)
  results_ttl_type ← ttl_of (find (codes "results_ttl_type") m)
  settings_definitions ← optional get_array (find (codes "settings_definitions") m)
  location_data_needed ← optional get_bool (find (codes "location_data_needed") m)
  child_scope_ids ← texts_of (find (codes "child_scopes") m)
  keywords ← set_of (find (codes "keywords") m)
  is_aggregator ← optional get_bool (find (codes "is_aggregator") m)
  ok (record {
    scope_id = scope_id;
    proxy = some proxy;
    display_name = display_name;
    description = description;
    author = author;
    art = art;
    icon = icon;
    search_hint = search_hint;
    hot_key = hot_key;
    invisible = invisible;
    scope_directory = scope_directory;
    appearance_attributes = appearance_attributes;
    results_ttl_type = results_ttl_type;
    settings_definitions = settings_definitions;
    location_data_needed = location_data_needed;
    child_scope_ids = child_scope_ids;
    version = version;
    keywords = keywords;
    is_aggregator = is_aggregator;
  })
