-- ===== src/Departments/Validation.antt =====
-- Which trees validate_departments accepts, and what the search by id finds.
use unity_scopes_api.Prelude.{
  ◌≡◌, Option, none, fun_ext, ◌∙◌, refl, sym, ap, Bool, true, ◌&&◌, ◌||◌, not, List, [], ◌∷◌, ◌++◌,
  some, Text, text_eq, text_eq_iff, text_eq_symm, Result, ok, err, logic_error, ◌>>=◌, arith,
  is_some, if◌then◌else◌,
}
use unity_scopes_api.Departments.{
  Department, Departments, department, no_more, more, id, subdepartments, any, has, collect_ids,
  collect_ids_each, validate_levels, validate, find_by_id, find_by_id_each,
}

-- The ids of a tree, the parent before its subdepartments.
mutual
  pub ids : Department → List Text
  ids (department q l a h ds) = q.department_id ∷ ids_each ds

  pub ids_each : Departments → List Text
  ids_each no_more = []
  ids_each (more d ds) = ids d ++ ids_each ds

-- No id stands twice.
pub distinct : List Text → Bool
distinct [] = true
distinct (i ∷ is) = not (has i is) && distinct is

-- No id of the first list stands in the second.
apart : List Text → List Text → Bool
apart [] seen = true
apart (i ∷ is) seen = not (has i seen) && apart is seen

-- The ids of the first list are new one after the other.
all_new : List Text → List Text → Bool
all_new [] seen = true
all_new (i ∷ is) seen = not (has i seen) && all_new is (i ∷ seen)

onto : List Text → List Text → List Text
onto [] seen = seen
onto (i ∷ is) seen = onto is (i ∷ seen)

accepted : List Text → List Text → Result (List Text)
unfolding all_new onto
accepted is seen = if all_new is seen then ok (onto is seen) else err logic_error

accepted-append :
    (xs ys seen : List Text) → accepted (xs ++ ys) seen ≡ (accepted xs seen >>= accepted ys)
unfolding accepted all_new onto
accepted-append [] ys seen = refl
accepted-append (x ∷ xs) ys seen = ground (arith, accepted-append xs ys (x ∷ seen))

mutual
  unfolding collect_ids ids accepted all_new onto

  collect_ids-accepted :
      (d : Department) (seen : List Text) → collect_ids d seen ≡ accepted (ids d) seen
  collect_ids-accepted (department q l a h ds) seen =
      ground (arith, collect_ids_each-accepted ds (q.department_id ∷ seen))

  collect_ids_each-accepted :
      (ds : Departments) (seen : List Text) → collect_ids_each ds seen ≡ accepted (ids_each ds) seen
  collect_ids_each-accepted no_more seen = refl
  collect_ids_each-accepted (more d ds) seen =
      ap (λ r. r >>= collect_ids_each ds) (collect_ids-accepted d seen)
      ∙ ap (λ f. accepted (ids d) seen >>= f) (fun_ext (collect_ids_each-accepted ds))
      ∙ sym (accepted-append (ids d) (ids_each ds) seen)

has-onto : (i : Text) (xs seen : List Text) → has i (onto xs seen) ≡ has i xs || has i seen
unfolding has onto
has-onto i [] seen = refl
has-onto i (x ∷ xs) seen = ground (arith, has-onto i xs (x ∷ seen))

apart-cons :
    (x : Text) (xs seen : List Text) → apart xs (x ∷ seen) ≡ not (has x xs) && apart xs seen
unfolding has apart
apart-cons x [] seen = refl
apart-cons x (y ∷ xs) seen = ground (arith, apart-cons x xs seen, text_eq_symm x y)

all_new-distinct : (xs seen : List Text) → all_new xs seen ≡ distinct xs && apart xs seen
unfolding all_new distinct apart
all_new-distinct [] seen = refl
all_new-distinct (x ∷ xs) seen =
    ground (arith, all_new-distinct xs (x ∷ seen), apart-cons x xs seen)

apart-nil : (xs : List Text) → apart xs [] ≡ true
unfolding apart has
apart-nil [] = refl
apart-nil (x ∷ xs) = ground (arith, apart-nil xs)

id-has : (p : Department) (i : Text) → text_eq (id p) i ≡ true → has i (ids p) ≡ true
unfolding has ids
id-has (department q l a h ds) i e = ground arith

-- validate_departments(parent, current_id) accepts a tree exactly if the parent has a subdepartment,
-- no id stands twice in the tree, and the current id is one of the tree's; otherwise it throws a
-- LogicException.
pub validate-accepts :
    (p : Department) (current : Text)
    → validate p current ≡ (
        if any (subdepartments p) && (distinct (ids p) && has current (ids p))
        then ok tt
        else err logic_error)
unfolding validate validate_levels accepted has
validate-accepts (department q l a h ds) current = ground (
  arith,
  collect_ids-accepted (department q l a h ds) [],
  all_new-distinct (ids (department q l a h ds)) [],
  apart-nil (ids (department q l a h ds)),
  has-onto current (ids (department q l a h ds)) [],
  id-has (department q l a h ds) current,
)

-- What the search finds has the id that was searched for.
mutual
  unfolding find_by_id

  found_by_id : (d e : Department) (i : Text) → find_by_id d i ≡ some e → id e ≡ i
  found_by_id (department q l a h ds) e i f =
      ground (arith, text_eq_iff q.department_id i, found_by_id_each ds e i)

  found_by_id_each :
      (ds : Departments) (e : Department) (i : Text) → find_by_id_each ds i ≡ some e → id e ≡ i
  found_by_id_each no_more e i f = cc
  found_by_id_each (more d ds) e i f = ground (arith, found_by_id d e i, found_by_id_each ds e i)

has-append : (i : Text) (xs ys : List Text) → has i (xs ++ ys) ≡ has i xs || has i ys
unfolding has
has-append i [] ys = refl
has-append i (x ∷ xs) ys = ground (arith, has-append i xs ys)

-- Whether it finds something.
mutual
  unfolding find_by_id ids has

  finds_by_id : (d : Department) (i : Text) → is_some (find_by_id d i) ≡ has i (ids d)
  finds_by_id (department q l a h ds) i = ground (arith, finds_by_id_each ds i)

  finds_by_id_each :
      (ds : Departments) (i : Text) → is_some (find_by_id_each ds i) ≡ has i (ids_each ds)
  finds_by_id_each no_more i = refl
  finds_by_id_each (more d ds) i =
      ground (arith, finds_by_id d i, finds_by_id_each ds i, has-append i (ids d) (ids_each ds))

id_found :
    (i : Text) (b : Bool) (found : Option Department)
    → is_some found ≡ b
    → ((e : Department) → found ≡ some e → id e ≡ i)
    → (elim found [ some e ↦ some (id e) | none ↦ none ]) ≡ (if b then some i else none)
id_found i b none e h = ground (arith, e)
id_found i b (some d) e h = ground (arith, e, h d refl)

-- find_subdepartment_by_id gives a department exactly if the id is one of the tree's, at any depth,
-- and the department that it gives has that id.
pub find_by_id-ids :
    (d : Department) (i : Text)
    → (elim (find_by_id d i) [ some e ↦ some (id e) | none ↦ none ])
      ≡ (if has i (ids d) then some i else none)
find_by_id-ids d i =
    id_found i (has i (ids d)) (find_by_id d i) (finds_by_id d i) (λ e. found_by_id d e i)
