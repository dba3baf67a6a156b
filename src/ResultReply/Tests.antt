-- ===== src/ResultReply/Tests.antt =====
-- Runs of process_data, and its theorems at concrete replies.
use unity_scopes_api.Prelude.{
  ◌≡◌, refl, ◌≤◌, true, false, List, text_eq, [], ◌∷◌, codes, ok, err, Result, Text, ◌>>=◌,
  invalid_argument, logic_error, arith,
}
use unity_scopes_api.Prelude.Int.{pos}
use unity_scopes_api.Variant.{Fields, end, field, str, dict, find_string, find_or}
use unity_scopes_api.Results.Categories.{Categories, register_category}
use unity_scopes_api.ResultReply.{Surroundings, process_each, new_replies}
use unity_scopes_api.ResultReply.Cardinality.{result_count, process_each-cardinality}

-- The registry of categories by their ids, and otherwise nothing that throws.
abbrev ids : Categories Text
ids = record { id_of = λ t. t; fields_of = λ t. end }

abbrev Registered : Type 0
Registered = List (Text × Text)

abbrev registers : Registered → Result Registered → Registered × Result (Unit {0})
registers cs (ok new) = (new, ok tt)
registers cs (err thrown) = (cs, err thrown)

abbrev read_category : Fields → Registered → Registered × Result (Unit {0})
read_category m cs = registers cs (do id ← find_string (codes "id") m; register_category ids id cs)

abbrev quiet : Registered → Registered × Result (Unit {0})
quiet cs = (cs, ok tt)

abbrev around : Surroundings Registered
around = record {
  groups_from = λ a. quiet;
  filters_from = λ a g. quiet;
  category_from = read_category;
  annotation_from = λ m. quiet;
  result_from = λ m. quiet;
  listen = λ p. quiet;
}

abbrev result_of : Fields → Fields
result_of m = field (codes "result") (dict m) end

abbrev uri : Fields
uri = field (codes "uri") (str (codes "http:a")) end

abbrev bad : Fields
bad = field (codes "category") (str (codes "a")) (result_of uri)

abbrev category : Fields
category = field (codes "category") (dict (field (codes "id") (str (codes "c")) end)) end

abbrev replies : List Fields
replies = category ∷ category ∷ result_of uri ∷ bad ∷ result_of uri ∷ result_of uri ∷ []

-- The second registration of the category throws.
outcomes :
    (process_each around (pos 2) replies (new_replies [])).1
    ≡ ok false ∷ err invalid_argument ∷ ok false ∷ err logic_error ∷ ok false ∷ ok true ∷ []
unfolding process_each text_eq register_category find_string find_or
outcomes = refl

process_each-cardinality_example :
    result_count (process_each around (pos 2) replies (new_replies [])).0.pushed ≤ 2
process_each-cardinality_example = process_each-cardinality around 1 replies [] (omega arith)
