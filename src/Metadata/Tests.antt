-- ===== src/Metadata/Tests.antt =====
-- The metadata of a scope, and the theorem at these.
use unity_scopes_api.Prelude.{
  ◌≡◌, refl, false, [], ◌∷◌, none, some, text_eq, codes, ok, err, invalid_argument,
}
use unity_scopes_api.Prelude.Int.{pos, negsuc}
use unity_scopes_api.Variant.{end}
use unity_scopes_api.Metadata.{
  Proxy, ScopeMetadata, large, serialize, optional_entries, required_entries, deserialize,
  set_version,
}
use unity_scopes_api.Metadata.Serial.{deserialize-serialize_metadata}

abbrev proxy : Proxy
proxy = record { identity = codes "i"; endpoint = codes "e" }

abbrev music : ScopeMetadata
music = record {
  scope_id = codes "music";
  proxy = some proxy;
  display_name = codes "Music";
  description = codes "Songs";
  author = codes "A";
  art = none;
  icon = some (codes "icon.png");
  search_hint = none;
  hot_key = none;
  invisible = some false;
  scope_directory = none;
  appearance_attributes = end;
  results_ttl_type = large;
  settings_definitions = none;
  location_data_needed = none;
  child_scope_ids = [];
  version = pos 2;
  keywords = codes "music" ∷ codes "songs" ∷ [];
  is_aggregator = none;
}

deserialize-serialize_metadata_example :
    deserialize (optional_entries music (required_entries music proxy)) ≡ ok music
unfolding serialize text_eq
deserialize-serialize_metadata_example =
    deserialize-serialize_metadata music proxy
      (optional_entries music (required_entries music proxy)) refl (λ e. cc) (λ e. cc) refl
      (refl, (refl, tt)) refl

negative_version : set_version (negsuc 0) music ≡ err invalid_argument
unfolding set_version
negative_version = refl
