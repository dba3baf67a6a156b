-- ===== src/Filters/Updates.antt =====
-- What update_state makes of the state of an option selector.
use unity_scopes_api.Prelude.{
  ◌≡◌, ◌≢◌, refl, ap, fun_ext, ◌∙◌, Bool, true, false, List, [], ◌∷◌, ◌++◌, some, none, Text,
  text_eq, text_eq_iff, text_eq_refl, ok, if◌then◌else◌, arith,
}
use unity_scopes_api.Variant.{Value, Fields, Items, nil, cons, str, array, find, insert, erase}
use unity_scopes_api.Variant.Laws.{IsMap, find-insert, find-erase}
use unity_scopes_api.Filters.{
  FilterOption, OptionSelector, strings, has_id, choose, active_options, option_known, changed,
  entry_after, update_entry, update_state,
}
use unity_scopes_api.Filters.Selection.{
  IsDistinct, without, strings-push_back, strings-erase_first, holds-strings, has_id-append,
  has_id-without,
}

changed_ids : Text → Bool → List Text → List Text
changed_ids s value ids =
    if value
    then (if has_id s ids then ids else ids ++ s ∷ [])
    else (if has_id s ids then without s ids else ids)

strings-changed :
    (s : Text) (value : Bool) (a : Items) (ids : List Text)
    → strings a ≡ ok ids
    → strings (changed s value (has_id s ids) a) ≡ ok (changed_ids s value ids)
unfolding changed_ids
strings-changed s value a ids h =
    ground (arith, h, strings-push_back a s ids h, strings-erase_first s a ids h)

has_id-changed :
    (j s : Text) (value : Bool) (ids : List Text)
    → IsDistinct ids
    → has_id j (changed_ids s value ids) ≡ (if text_eq s j then value else has_id j ids)
unfolding changed_ids
has_id-changed j s value ids h =
    ground (arith, text_eq_iff s j, has_id-append j s ids, has_id-without j s ids h)

entry_after-strings :
    (s : Text) (value : Bool) (a : Items) (ids : List Text)
    → strings a ≡ ok ids
    → entry_after s value (some (array a)) ≡ ok (changed s value (has_id s ids) a)
unfolding entry_after
entry_after-strings s value a ids h = ground (arith, holds-strings s a ids h)

-- What is active once the state has an array of strings for the filter.
active_options-strings :
    (f : OptionSelector) (state : Fields) (a : Items) (ids : List Text)
    → f.id ≢ []
    → find f.id state ≡ some (array a)
    → strings a ≡ ok ids
    → active_options f state ≡ ok (choose (λ p. has_id p.id ids) f.options)
unfolding active_options
active_options-strings f state a ids n e h = ground (arith, e, h)

update_entry_lem :
    (i o : Text) (value : Bool) (state : Fields) (new : Items)
    → i ≢ []
    → o ≢ []
    → entry_after o value (find i state) ≡ ok new
    → update_entry i o value state ≡ ok (insert i (array new) state)
unfolding update_entry
update_entry_lem i o value state new n m e = ground (arith, e)

find-inserted : (i : Text) (v : Value) (state : Fields) → find i (insert i v state) ≡ some v
find-inserted i v state = ground (arith, find-insert i i v state, text_eq_refl i)

-- For a filter with multiple selection, whose state is an array of strings without repetition, an
-- update for one of its options succeeds; afterwards that option is active exactly if the update
-- said so, and every other one exactly if its id was in the array.
pub update_state-exact :
    (f : OptionSelector) (o : Text) (active : Bool) (state : Fields) (a : Items) (ids : List Text)
    → f.id ≢ []
    → o ≢ []
    → option_known o f.options ≡ true
    → f.multi_select ≡ true
    → find f.id state ≡ some (array a)
    → strings a ≡ ok ids
    → IsDistinct ids
    → ((update_state f o active state).1 ≡ ok tt)
      × (active_options f (update_state f o active state).0
          ≡ ok (choose (λ p. if text_eq o p.id then active else has_id p.id ids) f.options))
unfolding update_state
update_state-exact f o active state a ids n m k multi e h d =
    let new = changed o active (has_id o ids) a in
    let after = insert f.id (array new) state in
    ground (
      arith,
      k,
      multi,
      update_entry_lem f.id o active state new n m
          (ap (entry_after o active) e ∙ entry_after-strings o active a ids h),
      active_options-strings f after new (changed_ids o active ids) n
          (find-inserted f.id (array new) state) (strings-changed o active a ids h),
      ap (λ test. choose test f.options)
          (fun_ext (λ (p : FilterOption). has_id-changed p.id o active ids d)),
    )

entry_after-none : (o : Text) → entry_after o true none ≡ ok (cons (str o) nil)
unfolding entry_after
entry_after-none o = refl

one_string : (o : Text) → strings (cons (str o) nil) ≡ ok (o ∷ [])
unfolding strings
one_string o = refl

has_id-one : (j o : Text) → has_id j (o ∷ []) ≡ text_eq o j
unfolding has_id
has_id-one j o = ground arith

-- For a filter without multiple selection, activating one of its options succeeds whatever the state
-- had for the filter, and afterwards the options with that id are active and no others.
pub update_state-only :
    (f : OptionSelector) (o : Text) (state : Fields)
    → f.id ≢ []
    → o ≢ []
    → option_known o f.options ≡ true
    → f.multi_select ≡ false
    → IsMap state
    → ((update_state f o true state).1 ≡ ok tt)
      × (active_options f (update_state f o true state).0
          ≡ ok (choose (λ p. text_eq o p.id) f.options))
unfolding update_state
update_state-only f o state n m k single w =
    let new = cons (str o) nil in
    let before = erase f.id state in
    let gone : find f.id before ≡ none =
      ground (arith, find-erase f.id f.id state w, text_eq_refl f.id) in
    ground (
      arith,
      k,
      single,
      update_entry_lem f.id o true before new n m
          (ap (entry_after o true) gone ∙ entry_after-none o),
      active_options-strings f (insert f.id (array new) before) new (o ∷ []) n
          (find-inserted f.id (array new) before) (one_string o),
      ap (λ test. choose test f.options) (fun_ext (λ (p : FilterOption). has_id-one p.id o)),
    )
