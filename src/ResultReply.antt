-- ===== src/ResultReply.antt =====
-- The data that a query's replies hold: src/scopes/internal/ResultReplyObject.cpp, from whose
-- process_data the application's listener is called.
pub mod Cardinality
mod Tests
use unity_scopes_api.Prelude.{
  ℕ, zero, suc, ◌+◌, ◌==◌, Bool, true, false, ◌&&◌, not, List, [], ◌∷◌, ◌++◌, Option, none, some,
  Text, codes, Result, ok, err, if◌then◌else◌,
}
use unity_scopes_api.Prelude.Int.{ℤ, pos, negsuc, ltb_ℤ, eqb_ℤ}
use unity_scopes_api.Variant.{Value, Fields, Items, find, get_dict, get_array}
use unity_scopes_api.Departments.{Department}
use unity_scopes_api.Departments

-- What the listener is given. Filters, categories, annotations and results are built by other
-- parts of the library; here they are the values that they are built from.
pub data Pushed : Type 0 where
  pushed_filters pushed_filters_and_state : Items → Pushed
  pushed_category pushed_annotation pushed_result : Fields → Pushed
  pushed_department : Department → Pushed

-- Those parts, such as the registry of categories, and the listener, with what they keep: each call
-- may change it, and returns or throws.
pub record Surroundings (Kept : Type 0) : Type 0 where
  groups_from : Items → Kept → Kept × Result (Unit {0})
  filters_from : Items → Option Items → Kept → Kept × Result (Unit {0})
  category_from : Fields → Kept → Kept × Result (Unit {0})
  annotation_from : Fields → Kept → Kept × Result (Unit {0})
  result_from : Fields → Kept → Kept × Result (Unit {0})
  listen : Pushed → Kept → Kept × Result (Unit {0})

-- num_pushes_, the calls of the listener, those that throw included, and what the others keep.
pub record Replies (Kept : Type 0) : Type 0 where
  num_pushes : ℤ
  pushed : List Pushed
  kept : Kept

abbrev pub new_replies : {Kept : Type 0} → Kept → Replies Kept
new_replies k = record { num_pushes = pos 0; pushed = []; kept = k }

-- A statement on that state, which may throw.
abbrev pub Action : Type 0 → Type 0 → Type 0
Action Kept T = Replies Kept → Replies Kept × Result T

abbrev pub next_or_thrown :
    {Kept S T : Type 0} → Replies Kept → Result S → (S → Action Kept T) → Replies Kept × Result T
next_or_thrown s (ok a) next = next a s
next_or_thrown s (err thrown) next = (s, err thrown)

infixl 4 ◌>>=◌
abbrev pub ◌>>=◌ : {Kept S T : Type 0} → Action Kept S → (S → Action Kept T) → Action Kept T
(m >>= next) s = let (t, r) = m s in next_or_thrown t r next

infixl 4 ◌>>◌
abbrev pub ◌>>◌ : {Kept T : Type 0} → Action Kept (Unit {0}) → Action Kept T → Action Kept T
m >> next = m >>= λ done. next

abbrev pub lift : {Kept T : Type 0} → Result T → Action Kept T
lift r s = (s, r)

-- A call of another part.
abbrev pub calls : {Kept T : Type 0} → (Kept → Kept × Result T) → Action Kept T
calls f s = (record s { kept = (f s.kept).0 }, (f s.kept).1)

-- ++ on an std::atomic_int, which wraps around.
abbrev pub increment : ℤ → ℤ
increment (pos n) = if n == 2147483647 then negsuc 2147483647 else pos (suc n)
increment (negsuc zero) = pos 0
increment (negsuc (suc n)) = negsuc n

abbrev pub count_push : {Kept : Type 0} → Action Kept ℤ
count_push s = (record s { num_pushes = increment s.num_pushes }, ok (increment s.num_pushes))

module _ {Kept : Type 0} (around : Surroundings Kept) where
  abbrev pub push : Pushed → Action Kept (Unit {0})
  push p s = calls (around.listen p) (record s { pushed = s.pushed ++ p ∷ [] })

  unfoldable pub groups_in : Option Value → Action Kept (Option Items)
  unfolding get_array
  groups_in none = lift (ok none)
  groups_in (some v) = do a ← lift (get_array v); calls (around.groups_from a); lift (ok (some a))

  unfoldable pub filters_in : Option Value → Option Value → Action Kept (Unit {0})
  unfolding get_array groups_in
  filters_in none groups = lift (ok tt)
  filters_in (some v) groups = do
    g ← groups_in groups
    a ← lift (get_array v)
    calls (around.filters_from a g)
    push (pushed_filters_and_state a)
    push (pushed_filters a)

  unfoldable pub category_in : Option Value → Action Kept (Unit {0})
  unfolding get_dict
  category_in none = lift (ok tt)
  category_in (some v) = do
    m ← lift (get_dict v)
    calls (around.category_from m)
    push (pushed_category m)

  unfoldable pub departments_in : Option Value → Action Kept (Unit {0})
  unfolding get_dict
  departments_in none = lift (ok tt)
  departments_in (some v) = do
    m ← lift (get_dict v)
    d ← lift (Departments.create m)
    lift (Departments.validate_levels (some d))
    push (pushed_department d)

  unfoldable pub annotation_in : Option Value → Action Kept (Unit {0})
  unfolding get_dict
  annotation_in none = lift (ok tt)
  annotation_in (some v) = do
    m ← lift (get_dict v)
    calls (around.annotation_from m)
    push (pushed_annotation m)

  abbrev pub push_result : Value → Action Kept Bool
  push_result v = do
    m ← lift (get_dict v)
    calls (around.result_from m)
    push (pushed_result m)
    lift (ok false)

  -- A cardinality of 0 is none; the pushes are counted only where there is one.
  unfoldable pub result_in : ℤ → Option Value → Action Kept Bool
  unfolding get_dict
  result_in cardinality none = lift (ok false)
  result_in cardinality (some v) =
      if eqb_ℤ cardinality (pos 0)
      then push_result v
      else do n ← count_push; if ltb_ℤ cardinality n then lift (ok true) else push_result v

  unfoldable pub process_data : ℤ → Fields → Action Kept Bool
  unfolding find filters_in category_in departments_in annotation_in result_in
  process_data cardinality entries = do
    filters_in (find (codes "filters") entries) (find (codes "filter_groups") entries)
    category_in (find (codes "category") entries)
    departments_in (find (codes "departments") entries)
    annotation_in (find (codes "annotation") entries)
    result_in cardinality (find (codes "result") entries)

  -- One push after the other, whether they throw or not, with what each came to.
  unfoldable pub process_each : ℤ → List Fields → Replies Kept → Replies Kept × List (Result Bool)
  unfolding process_data
  process_each cardinality [] s = (s, [])
  process_each cardinality (d ∷ ds) s =
      let (t, r) = process_data cardinality d s in
      let (u, rs) = process_each cardinality ds t in (u, r ∷ rs)
