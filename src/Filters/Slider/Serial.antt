-- ===== src/Filters/Slider/Serial.antt =====
-- The slider's entries of a VariantMap, and their way back.
use unity_scopes_api.Prelude.{
  ◌≡◌, refl, ℕ, List, [], ◌∷◌, Option, none, some, Text, text_eq, codes, Result, ok, err,
  invalid_argument, not_found, ◌>>=◌, ◌>>◌,
}
use unity_scopes_api.Prelude.Doubles.{Doubles}
use unity_scopes_api.Variant.{
  Value, Fields, Items, end, nil, cons, str, double, dict, array, find, find_or, find_string,
  find_double, insert, get_double, get_string, get_dict, get_array,
}
use unity_scopes_api.Variant.Laws.{find_or-insert}
use unity_scopes_api.Filters.Slider.{SliderLabels, Slider, validate}

unfoldable pub serialize_extras : List (ℕ × Text) → Items
serialize_extras [] = nil
serialize_extras ((x, s) ∷ ps) = cons (double x) (cons (str s) (serialize_extras ps))

unfoldable pub serialize_labels : SliderLabels → Fields
unfolding insert serialize_extras
serialize_labels l = insert (codes "max_label") (str l.max_label) (
    insert (codes "min_label") (str l.min_label)
      (insert (codes "extra_labels") (array (serialize_extras l.extra_labels)) end))

unfoldable pub serialize : Slider → Fields → Fields
unfolding serialize_labels
serialize f m = insert (codes "labels") (dict (serialize_labels f.labels)) (
    insert (codes "default") (double f.default_val)
      (insert (codes "max") (double f.max) (insert (codes "min") (double f.min) m)))

-- Two values at a time.
unfoldable pub deserialize_extras : Items → Result (List (ℕ × Text))
unfolding get_double get_string
deserialize_extras nil = ok []
deserialize_extras (cons v nil) = get_double v >>= λ x. err invalid_argument
deserialize_extras (cons v (cons w a)) = do
  x ← get_double v
  s ← get_string w
  ps ← deserialize_extras a
  ok ((x, s) ∷ ps)

abbrev extras_of : Option Value → Result (List (ℕ × Text))
extras_of none = ok []
extras_of (some v) = get_array v >>= deserialize_extras

unfoldable pub deserialize_labels : Fields → Result SliderLabels
unfolding find find_string find_or get_array deserialize_extras
deserialize_labels m = do
  min ← find_string (codes "min_label") m
  max ← find_string (codes "max_label") m
  ps ← extras_of (find (codes "extra_labels") m)
  ok (record { min_label = min; max_label = max; extra_labels = ps })

unfoldable pub deserialize : Doubles → Text → Fields → Result Slider
unfolding find_double get_dict deserialize_labels validate
deserialize D id m = do
  min ← find_double (codes "min") m
  max ← find_double (codes "max") m
  d ← find_double (codes "default") m
  v ← find_or not_found (codes "labels") m
  n ← get_dict v
  l ← deserialize_labels n
  validate D l min max
  ok (record { id = id; min = min; max = max; default_val = d; labels = l })

extras_again : (ps : List (ℕ × Text)) → deserialize_extras (serialize_extras ps) ≡ ok ps
unfolding serialize_extras deserialize_extras
extras_again [] = refl
extras_again (p ∷ ps) = rw (extras_again ps) refl

labels_again : (l : SliderLabels) → deserialize_labels (serialize_labels l) ≡ ok l
unfolding serialize_labels deserialize_labels text_eq
labels_again l = rw (extras_again l.extra_labels) refl

-- Reading a slider back from the entries that it wrote, next to any others, gives the same slider,
-- if its labels are accepted.
pub deserialize-serialize :
    (D : Doubles) (f : Slider) (m : Fields)
    → validate D f.labels f.min f.max ≡ ok tt
    → deserialize D f.id (serialize f m) ≡ ok f
unfolding deserialize serialize text_eq
deserialize-serialize D f m h = simp (find_or-insert, labels_again f.labels, h)
