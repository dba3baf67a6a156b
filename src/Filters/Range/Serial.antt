-- ===== src/Filters/Range/Serial.antt =====
-- The range input filter's entries of a VariantMap, and their way back.
use unity_scopes_api.Prelude.{◌≡◌, Text, text_eq, codes, Result, ok, not_found, ◌>>=◌}
use unity_scopes_api.Variant.{Fields, str, find_or, insert, find_string}
use unity_scopes_api.Variant.Laws.{find_or-insert}
use unity_scopes_api.Filters.Range.{RangeInput}

unfoldable pub serialize : RangeInput → Fields → Fields
serialize f m = insert (codes "central_label") (str f.central_label) (
    insert (codes "end_postfix_label") (str f.end_postfix_label) (
      insert (codes "end_prefix_label") (str f.end_prefix_label) (
        insert (codes "start_postfix_label") (str f.start_postfix_label) (
          insert (codes "start_prefix_label") (str f.start_prefix_label) (
            insert (codes "default_end_value") f.default_end_value
              (insert (codes "default_start_value") f.default_start_value m))))))

unfoldable pub deserialize : Text → Fields → Result RangeInput
unfolding find_string
deserialize id m = do
  start_prefix ← find_string (codes "start_prefix_label") m
  start_postfix ← find_string (codes "start_postfix_label") m
  end_prefix ← find_string (codes "end_prefix_label") m
  end_postfix ← find_string (codes "end_postfix_label") m
  central ← find_string (codes "central_label") m
  first ← find_or not_found (codes "default_start_value") m
  last ← find_or not_found (codes "default_end_value") m
  ok (record {
    id = id;
    default_start_value = first;
    default_end_value = last;
    start_prefix_label = start_prefix;
    start_postfix_label = start_postfix;
    end_prefix_label = end_prefix;
    end_postfix_label = end_postfix;
    central_label = central;
  })

pub deserialize-serialize : (f : RangeInput) (m : Fields) → deserialize f.id (serialize f m) ≡ ok f
unfolding deserialize serialize text_eq
deserialize-serialize f m = simp (find_or-insert)
