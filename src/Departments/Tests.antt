-- ===== src/Departments/Tests.antt =====
-- Runs of the departments, and their theorems at a concrete tree.
use unity_scopes_api.Prelude.{
  ◌≡◌, refl, true, false, ◌&&◌, [], ◌∷◌, none, some, Text, text_eq, codes, ok, err, logic_error,
  invalid_argument, if◌then◌else◌,
}
use unity_scopes_api.Variant.{end}
use unity_scopes_api.Query.{CannedQuery}
use unity_scopes_api.Departments.{
  Department, department, no_more, more, any, subdepartments, has, make_with_id,
  set_has_subdepartments, add_subdepartment, set_subdepartments, validate, has_subdepartments,
  serialize, create,
}
use unity_scopes_api.Departments.Validation.{ids, distinct, validate-accepts}
use unity_scopes_api.Departments.Serial.{IsLabelled, normal, create-serialize_tree}

abbrev query_at : Text → CannedQuery
query_at i = record {
  scope_id = codes "music";
  query_string = [];
  department_id = i;
  filter_state = end;
  user_data = none;
}

abbrev jazz : Department
jazz = department (query_at (codes "jazz")) (codes "Jazz") [] true no_more

abbrev rock : Department
rock = department (query_at (codes "rock")) (codes "Rock") (codes "All rock") false no_more

abbrev top : Department
top = department (query_at []) (codes "Music") [] true (more jazz (more rock no_more))

made :
    make_with_id (codes "jazz") (query_at []) (codes "Jazz")
    ≡ ok (department (query_at (codes "jazz")) (codes "Jazz") [] false no_more)
unfolding make_with_id
made = refl

not_made : make_with_id (codes "jazz") (query_at []) [] ≡ err invalid_argument
unfolding make_with_id
not_made = refl

flag_kept : set_has_subdepartments false top ≡ err logic_error
unfolding set_has_subdepartments
flag_kept = refl

added :
    set_subdepartments
      (some jazz ∷ some rock ∷ [])
      (department (query_at []) (codes "Music") [] true no_more)
    ≡ ok top
unfolding set_subdepartments
added = refl

null_refused : add_subdepartment none top ≡ err invalid_argument
unfolding add_subdepartment
null_refused = refl

unknown_refused : validate top (codes "pop") ≡ err logic_error
unfolding validate text_eq
unknown_refused = refl

validate-accepts_example : validate top (codes "rock") ≡ (
    if any (subdepartments top) && (distinct (ids top) && has (codes "rock") (ids top))
    then ok tt
    else err logic_error)
validate-accepts_example = validate-accepts top (codes "rock")

create-serialize_tree_example :
    (create (serialize top) ≡ ok (normal top))
    × (has_subdepartments (normal top) ≡ has_subdepartments top)
unfolding IsLabelled
create-serialize_tree_example =
    create-serialize_tree top
      (λ e. cc, λ e. cc, ((λ e. cc, λ e. cc, tt), ((λ e. cc, λ e. cc, tt), tt)))
