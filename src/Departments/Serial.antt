-- ===== src/Departments/Serial.antt =====
-- A tree of departments survives the trip through its VariantMap.
use unity_scopes_api.Prelude.{
  ◌≡◌, ◌≢◌, refl, ◌∙◌, ap, Bool, true, false, ◌&&◌, not, [], ◌∷◌, Text, text_eq, codes, ok, arith,
}
use unity_scopes_api.Variant.{Items, end, nil, cons, dict, insert, find, str}
use unity_scopes_api.Query.{CannedQuery}
use unity_scopes_api.Query
use unity_scopes_api.Query.Serial.{create-serialize}
use unity_scopes_api.Departments.{
  Department, Departments, department, no_more, more, any, serialize, serialize_each, create,
  create_value, create_each, build, insert_subdepartments, insert_alt_label, has_subdepartments,
}

-- Every department has a label and every query a scope id, as their constructors demand.
unfoldable mutual
  pub IsLabelled : Department → Type 0
  IsLabelled (department q l a h ds) = (l ≢ []) × (q.scope_id ≢ []) × AreLabelled ds

  pub AreLabelled : Departments → Type 0
  AreLabelled no_more = Unit {0}
  AreLabelled (more d ds) = IsLabelled d × AreLabelled ds

-- The flag has_subdepartments_ dropped where there are subdepartments.
mutual
  pub normal : Department → Department
  normal (department q l a h ds) = department q l a (not (any ds) && h) (normal_each ds)

  pub normal_each : Departments → Departments
  normal_each no_more = no_more
  normal_each (more d ds) = more (normal d) (normal_each ds)

not_nil : Items → Bool
not_nil nil = false
not_nil (cons v vs) = true

-- What the entries of one department convert to, once its query and its subdepartments do.
entries-convert :
    (q : CannedQuery) (l a : Text) (h : Bool) (items : Items) (ds : Departments)
    → l ≢ []
    → Query.create (Query.serialize q) ≡ ok q
    → create_each items ≡ ok ds
    → create_value (
        dict (
          insert_subdepartments h items (
            insert
              (codes "query")
              (dict (Query.serialize q))
              (insert_alt_label a (insert (codes "label") (str l) end)))))
      ≡ ok (department q l a (not (not_nil items) && h) ds)
unfolding create_each build insert find text_eq not_nil
entries-convert q [] a h items ds n e f = absurd (n refl)
entries-convert q (c ∷ l) [] true nil ds n e f = ground (arith, e, f)
entries-convert q (c ∷ l) [] false nil ds n e f = ground (arith, e, f)
entries-convert q (c ∷ l) [] h (cons v vs) ds n e f = ground (arith, e, f)
entries-convert q (c ∷ l) (b ∷ a) true nil ds n e f = ground (arith, e, f)
entries-convert q (c ∷ l) (b ∷ a) false nil ds n e f = ground (arith, e, f)
entries-convert q (c ∷ l) (b ∷ a) h (cons v vs) ds n e f = ground (arith, e, f)

not_nil-serialize_each : (ds : Departments) → not_nil (serialize_each ds) ≡ any ds
unfolding not_nil serialize_each
not_nil-serialize_each no_more = refl
not_nil-serialize_each (more d ds) = refl

mutual
  unfolding serialize create_each not_nil normal IsLabelled

  create-serialize-normal :
      (d : Department) → IsLabelled d → create_value (dict (serialize d)) ≡ ok (normal d)
  create-serialize-normal (department q l a h ds) w =
      entries-convert q l a h (serialize_each ds) (normal_each ds) w.0 (create-serialize q w.1)
        (create-serialize_each ds w.2)
      ∙ ap (λ b. ok (department q l a (not b && h) (normal_each ds))) (not_nil-serialize_each ds)

  create-serialize_each :
      (ds : Departments) → AreLabelled ds → create_each (serialize_each ds) ≡ ok (normal_each ds)
  create-serialize_each no_more w = refl
  create-serialize_each (more d ds) w =
      ground (arith, create-serialize-normal d w.0, create-serialize_each ds w.1)

any-normal_each : (ds : Departments) → any (normal_each ds) ≡ any ds
unfolding normal_each
any-normal_each no_more = refl
any-normal_each (more d ds) = refl

-- Deserialising what a tree of departments serialises to gives the tree back, if every department in
-- it has a label and its query a scope id; only the flag has_subdepartments is lost, and only where
-- there are subdepartments, so that has_subdepartments() answers the same.
pub create-serialize_tree :
    (d : Department)
    → IsLabelled d
    → (create (serialize d) ≡ ok (normal d))
      × (has_subdepartments (normal d) ≡ has_subdepartments d)
unfolding create has_subdepartments normal
create-serialize_tree (department q l a h ds) w =
    (create-serialize-normal (department q l a h ds) w, ground (arith, any-normal_each ds))
