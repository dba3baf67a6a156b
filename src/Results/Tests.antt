-- ===== src/Results/Tests.antt =====
-- Runs of results, and their theorems at concrete ones.
use unity_scopes_api.Prelude.{
  ◌≡◌, ◌↔◌, All, refl, Bool, true, false, List, [], ◌∷◌, Option, none, some, Text, text_eq, codes,
  ok, if◌then◌else◌,
}
use unity_scopes_api.Prelude.Int.{pos}
use unity_scopes_api.Variant.{
  Fields, end, field, str, dict, int, insert, insert_some, find, find_or,
}
use unity_scopes_api.Results.{
  ResultImpl, serialize, store, retrieve, assign, direct_activation, activation_target,
  target_origin,
}
use unity_scopes_api.Results.Search.{find_stored_result-ends}
use unity_scopes_api.Results.{size, search, find_stored_result}
use unity_scopes_api.Prelude.{suc, Result}
use unity_scopes_api.Results.Serial.{retrieve-store}
use unity_scopes_api.Results.Chains.{
  IsChain, alone, storing, activation_target-handler, target_origin-handler,
}
use unity_scopes_api.Results.Categories.{
  Categories, lookup_category, register_each, entries_with, lookup-first,
}
use unity_scopes_api.Results.Columns.{
  ColumnLayout, validate_layouts, IsComplete, AreDistinct, validate_layouts-accepts,
}

abbrev result_of : Text → Bool → Option Fields → ResultImpl
result_of origin intercept stored = record {
  attrs = field (codes "uri") (str (codes "u")) end;
  origin = origin;
  flags = if intercept then pos 1 else pos 0;
  stored = stored;
  has_runtime = true;
}

abbrev fields_with : Fields → Fields
fields_with internal =
    field (codes "attrs") (dict (field (codes "uri") (str (codes "u")) end))
      (field (codes "internal") (dict internal) end)

-- Three results: the one in the middle intercepts the activation.
abbrev innermost : ResultImpl
innermost = result_of (codes "c") false none

abbrev innermost_fields : Fields
innermost_fields = fields_with (field (codes "origin") (str (codes "c")) end)

abbrev middle : ResultImpl
middle = result_of (codes "b") true (some innermost_fields)

abbrev middle_fields : Fields
middle_fields = fields_with (
    field (codes "flags") (int (pos 1)) (
      field (codes "origin") (str (codes "b"))
        (field (codes "result") (dict innermost_fields) end)))

abbrev outermost : ResultImpl
outermost = result_of (codes "a") false (some middle_fields)

serialized_chain :
    (serialize innermost ≡ ok innermost_fields) × (serialize middle ≡ ok middle_fields)
unfolding serialize find find_or insert insert_some text_eq
serialized_chain = (refl, refl)

outermost-IsChain : IsChain outermost (middle ∷ innermost ∷ [])
outermost-IsChain = storing refl serialized_chain.1 (storing refl serialized_chain.0 (alone refl))

activation_target-handler_example :
    (direct_activation outermost ≡ ok false) × (activation_target outermost ≡ serialize middle)
activation_target-handler_example =
    activation_target-handler outermost (middle ∷ innermost ∷ []) outermost-IsChain

target_origin-handler_example : target_origin outermost ≡ ok (codes "b")
target_origin-handler_example =
    target_origin-handler outermost (middle ∷ innermost ∷ []) outermost-IsChain
      (λ e. cc, (λ e. cc, (λ e. cc, tt))) refl

retrieve-store_example :
    ((store false innermost true outermost).1 ≡ ok tt)
    × (retrieve (store false innermost true outermost).0
        ≡ ok (record innermost { has_runtime = false }))
    × ((store false innermost true outermost).0.attrs ≡ outermost.attrs)
    × ((store false innermost true outermost).0.origin ≡ [])
retrieve-store_example =
    retrieve-store innermost outermost true innermost_fields (λ e. cc, tt) (tt, tt)
      serialized_chain.0

-- A result that is assigned one without a stored result keeps its own.
stale_stored_result : (assign innermost middle).stored ≡ some innermost_fields
unfolding assign
stale_stored_result = refl

abbrev named : Categories Text
named = record { id_of = λ t. t; fields_of = λ t. end }

lookup-first_example :
    (lookup_category named
        (codes "a")
        (register_each named (codes "a" ∷ codes "b" ∷ codes "a" ∷ []) [])
      ≡ some (codes "a"))
    × (entries_with named
          (codes "a")
          (register_each named (codes "a" ∷ codes "b" ∷ codes "a" ∷ []) [])
        ≡ 1)
unfolding text_eq
lookup-first_example = lookup-first named (codes "a") (codes "a" ∷ codes "b" ∷ codes "a" ∷ [])

abbrev layouts : List ColumnLayout
layouts =
    record { num_of_columns = pos 1; columns = (codes "x" ∷ []) ∷ [] }
    ∷ record { num_of_columns = pos 2; columns = [] ∷ [] ∷ [] }
    ∷ []

find_stored_result-ends_example :
    (r : Result (Bool × Fields)) × (search ok (suc (size middle_fields)) middle_fields ≡ some r)
    × (find_stored_result ok middle_fields ≡ r)
find_stored_result-ends_example = find_stored_result-ends ok middle_fields

validate_layouts-accepts_example :
    (validate_layouts layouts ≡ ok tt) ↔ (All IsComplete layouts × AreDistinct layouts)
validate_layouts-accepts_example = validate_layouts-accepts layouts
