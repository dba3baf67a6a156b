-- ===== src/Filters/Selection.antt =====
-- Which options are active before and after a change of the state.
use unity_scopes_api.Prelude.{
  ◌≡◌, ◌≢◌, refl, Bool, true, false, ◌&&◌, ◌||◌, not, List, [], ◌∷◌, ◌++◌, some, Text, text_eq,
  text_eq_iff, Result, ok, err, Error, ◌>>=◌, is_empty, if◌then◌else◌, arith,
}
use unity_scopes_api.Variant.{Value, Fields, Items, nil, cons, str, array, find, get_string}
use unity_scopes_api.Filters.{
  FilterOption, OptionSelector, strings, has_id, choose, active_options, option_known, any_known,
  has_active_option, holds, push_back, erase_first,
}

-- An array of strings that is not empty.
abbrev IsStringsOf : Value → Items → List Text → Type 0
IsStringsOf v a ids =
    (s : Text) × (is : List Text) × (get_string v ≡ ok s) × (strings a ≡ ok is) × (ids ≡ s ∷ is)

string_and_rest :
    (r : Result Text) (rs : Result (List Text)) (ids : List Text)
    → (r >>= λ s. rs >>= λ is. ok (s ∷ is)) ≡ ok ids
    → (s : Text) × (is : List Text) × (r ≡ ok s) × (rs ≡ ok is) × (ids ≡ s ∷ is)
string_and_rest (ok s) (ok is) ids h = (s, is, refl, refl, ground (arith, h))
string_and_rest (ok s) (err e) ids h = absurd (cc)
string_and_rest (err e) rs ids h = absurd (cc)

strings-cons :
    (v : Value) (a : Items) (ids : List Text) → strings (cons v a) ≡ ok ids → IsStringsOf v a ids
unfolding strings
strings-cons v a ids h = string_and_rest (get_string v) (strings a) ids h

-- Some id is the id of an option.
any_id_known : List FilterOption → List Text → Bool
any_id_known ps [] = false
any_id_known ps (i ∷ is) = if option_known i ps then true else any_id_known ps is

any_known-strings :
    (ps : List FilterOption) (a : Items) (ids : List Text)
    → strings a ≡ ok ids
    → any_known ps a ≡ ok (any_id_known ps ids)
unfolding strings any_known any_id_known
any_known-strings ps nil ids h = ground (arith, h)
any_known-strings ps (cons v a) ids h =
    let (s, is, e, f, g) = strings-cons v a ids h in
    ground (arith, e, f, g, any_known-strings ps a is f)

choose-nil : (ps : List FilterOption) → choose (λ p. has_id p.id []) ps ≡ []
unfolding choose has_id
choose-nil [] = refl
choose-nil (p ∷ ps) = choose-nil ps

choose-cons :
    (i : Text) (is : List Text) (ps : List FilterOption)
    → is_empty (choose (λ p. has_id p.id (i ∷ is)) ps)
      ≡ not (option_known i ps) && is_empty (choose (λ p. has_id p.id is) ps)
unfolding choose has_id
choose-cons i is [] = refl
choose-cons i is (p ∷ ps) = ground (arith, choose-cons i is ps)

choose-any_id_known :
    (ids : List Text) (ps : List FilterOption)
    → not (is_empty (choose (λ p. has_id p.id ids) ps)) ≡ any_id_known ps ids
unfolding any_id_known
choose-any_id_known [] ps = ground (arith, choose-nil ps)
choose-any_id_known (i ∷ is) ps = ground (arith, choose-cons i is ps, choose-any_id_known is ps)

-- Where the state has an array of strings for the filter, has_active_option is true exactly if
-- active_options gives some option.
pub has_active_option-agrees :
    (f : OptionSelector) (state : Fields) (a : Items) (ids : List Text)
    → f.id ≢ []
    → find f.id state ≡ some (array a)
    → strings a ≡ ok ids
    → has_active_option f state ≡ (active_options f state >>= λ ps. ok (not (is_empty ps)))
unfolding has_active_option active_options
has_active_option-agrees f state a ids n e s =
    ground (arith, e, s, any_known-strings f.options a ids s, choose-any_id_known ids f.options)

pub strings-push_back :
    (a : Items) (s : Text) (ids : List Text)
    → strings a ≡ ok ids
    → strings (push_back a s) ≡ ok (ids ++ s ∷ [])
unfolding strings
strings-push_back nil s ids h = ground (arith, h)
strings-push_back (cons v a) s ids h =
    let (t, is, e, f, g) = strings-cons v a ids h in
    ground (arith, e, f, g, strings-push_back a s is f)

pub holds-strings :
    (s : Text) (a : Items) (ids : List Text) → strings a ≡ ok ids → holds s a ≡ ok (has_id s ids)
unfolding strings holds has_id
holds-strings s nil ids h = ground (arith, h)
holds-strings s (cons v a) ids h =
    let (t, is, e, f, g) = strings-cons v a ids h in ground (arith, e, f, g, holds-strings s a is f)

pub without : Text → List Text → List Text
without s [] = []
without s (i ∷ is) = if text_eq i s then is else i ∷ without s is

pub strings-erase_first :
    (s : Text) (a : Items) (ids : List Text)
    → strings a ≡ ok ids
    → strings (erase_first s a) ≡ ok (without s ids)
unfolding strings without get_string
strings-erase_first s nil ids h = ground (arith, h)
strings-erase_first s (cons (str t) a) ids h =
    let (u, is, e, f, g) = strings-cons (str t) a ids h in
    ground (arith, e, f, g, strings-erase_first s a is f)
strings-erase_first s (cons v a) ids h =
    let (u, is, e, f, g) = strings-cons v a ids h in ground (arith, e)

pub has_id-append :
    (j s : Text) (ids : List Text) → has_id j (ids ++ s ∷ []) ≡ has_id j ids || text_eq s j
unfolding has_id
has_id-append j s [] = ground arith
has_id-append j s (i ∷ is) = ground (arith, has_id-append j s is)

-- No id stands twice.
abbrev pub IsDistinct : List Text → Type 0
IsDistinct [] = Unit {0}
IsDistinct (i ∷ is) = (has_id i is ≡ false) × IsDistinct is

pub has_id-without :
    (j s : Text) (ids : List Text)
    → IsDistinct ids
    → has_id j (without s ids) ≡ (if text_eq s j then false else has_id j ids)
unfolding has_id without
has_id-without j s [] h = ground arith
has_id-without j s (i ∷ is) h =
    ground
      (arith, h.0, text_eq_iff i s, text_eq_iff s j, text_eq_iff i j, has_id-without j s is h.1)

-- Where the array of the filter begins with the id of an option and goes on with a value that is no
-- string, has_active_option is true although active_options gives no option.
pub has_active_option-stops_early :
    (f : OptionSelector) (state : Fields) (i : Text) (v : Value) (a : Items) (e : Error)
    → f.id ≢ []
    → option_known i f.options ≡ true
    → get_string v ≡ err e
    → find f.id state ≡ some (array (cons (str i) (cons v a)))
    → (has_active_option f state ≡ ok true) × (active_options f state ≡ ok [])
unfolding has_active_option active_options strings any_known get_string
has_active_option-stops_early f state i v a e n k g h = ground (arith, n, k, g, h)
