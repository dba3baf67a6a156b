-- ===== src/Location.antt =====
-- A location: src/scopes/internal/LocationImpl.cpp.
use unity_scopes_api.Prelude.{
  ◌≡◌, refl, sym, inl, inr, Option-cases, ap, ◌∙◌, ℕ, Option, none, some, Text, text_eq, codes,
  Result, ok, err, invalid_argument, ◌>>=◌, arith,
}
use unity_scopes_api.Variant.{
  Fields, end, double, str, find, find_or, insert, insert_some, get_double, get_string, entry_of,
  optional,
}
use unity_scopes_api.Variant.Laws.{entry_laws, optional_laws, find_or-found}

pub record Location : Type 0 where
  pub latitude : Option ℕ
  pub longitude : Option ℕ
  pub altitude : Option ℕ
  pub area_code : Option Text
  pub city : Option Text
  pub country_code : Option Text
  pub country_name : Option Text
  pub horizontal_accuracy : Option ℕ
  pub region_code : Option Text
  pub region_name : Option Text
  pub vertical_accuracy : Option ℕ
  pub zip_postal_code : Option Text

unfoldable pub entries : Location → ℕ → ℕ → Fields
entries l latitude longitude =
    insert_some (codes "zip_postal_code") (entry_of str l.zip_postal_code) (
      insert_some (codes "vertical_accuracy") (entry_of double l.vertical_accuracy) (
        insert_some (codes "region_name") (entry_of str l.region_name) (
          insert_some (codes "region_code") (entry_of str l.region_code) (
            insert_some (codes "horizontal_accuracy") (entry_of double l.horizontal_accuracy) (
              insert_some (codes "country_name") (entry_of str l.country_name) (
                insert_some (codes "country_code") (entry_of str l.country_code) (
                  insert_some (codes "city") (entry_of str l.city) (
                    insert_some (codes "area_code") (entry_of str l.area_code) (
                      insert_some (codes "altitude") (entry_of double l.altitude) (
                        insert (codes "longitude") (double longitude)
                          (insert (codes "latitude") (double latitude) end)))))))))))

abbrev throw_on_empty : Option ℕ → Result ℕ
throw_on_empty none = err invalid_argument
throw_on_empty (some d) = ok d

unfoldable pub serialize : Location → Result Fields
unfolding entries
serialize l = do
  latitude ← throw_on_empty l.latitude
  longitude ← throw_on_empty l.longitude
  ok (entries l latitude longitude)

unfoldable pub double_at : Text → Fields → Result ℕ
unfolding get_double
double_at k m = find_or invalid_argument k m >>= get_double

unfoldable pub deserialize : Fields → Result Location
unfolding double_at find get_double get_string
deserialize m = do
  latitude ← double_at (codes "latitude") m
  longitude ← double_at (codes "longitude") m
  altitude ← optional get_double (find (codes "altitude") m)
  area_code ← optional get_string (find (codes "area_code") m)
  city ← optional get_string (find (codes "city") m)
  country_code ← optional get_string (find (codes "country_code") m)
  country_name ← optional get_string (find (codes "country_name") m)
  horizontal_accuracy ← optional get_double (find (codes "horizontal_accuracy") m)
  region_code ← optional get_string (find (codes "region_code") m)
  region_name ← optional get_string (find (codes "region_name") m)
  vertical_accuracy ← optional get_double (find (codes "vertical_accuracy") m)
  zip_postal_code ← optional get_string (find (codes "zip_postal_code") m)
  ok (record {
    latitude = some latitude;
    longitude = some longitude;
    altitude = altitude;
    area_code = area_code;
    city = city;
    country_code = country_code;
    country_name = country_name;
    horizontal_accuracy = horizontal_accuracy;
    region_code = region_code;
    region_name = region_name;
    vertical_accuracy = vertical_accuracy;
    zip_postal_code = zip_postal_code;
  })

double_found : (k : Text) (d : ℕ) (m : Fields) → find k m ≡ some (double d) → double_at k m ≡ ok d
unfolding double_at get_double
double_found k d m e = ap (λ r. r >>= get_double) (find_or-found invalid_argument k (double d) m e)

entries-found :
    (l : Location) (x y : ℕ)
    → (find (codes "latitude") (entries l x y) ≡ some (double x))
      × (find (codes "longitude") (entries l x y) ≡ some (double y))
      × (find (codes "altitude") (entries l x y) ≡ entry_of double l.altitude)
      × (find (codes "area_code") (entries l x y) ≡ entry_of str l.area_code)
      × (find (codes "city") (entries l x y) ≡ entry_of str l.city)
      × (find (codes "country_code") (entries l x y) ≡ entry_of str l.country_code)
      × (find (codes "country_name") (entries l x y) ≡ entry_of str l.country_name)
      × (find (codes "horizontal_accuracy") (entries l x y) ≡ entry_of double l.horizontal_accuracy)
      × (find (codes "region_code") (entries l x y) ≡ entry_of str l.region_code)
      × (find (codes "region_name") (entries l x y) ≡ entry_of str l.region_name)
      × (find (codes "vertical_accuracy") (entries l x y) ≡ entry_of double l.vertical_accuracy)
      × (find (codes "zip_postal_code") (entries l x y) ≡ entry_of str l.zip_postal_code)
unfolding entries text_eq find
entries-found l x y =
    simp (entry_laws) (refl, refl, refl, refl, refl, refl, refl, refl, refl, refl, refl, refl)

all_read :
    (l : Location) (x y : ℕ)
    → deserialize (entries l x y) ≡ ok (record l { latitude = some x; longitude = some y })
unfolding deserialize
all_read l x y =
    let (a, b, c, d, e, f, g, h, i, j, k, m) = entries-found l x y in
    simp (
      double_found (codes "latitude") x (entries l x y) a,
      double_found (codes "longitude") y (entries l x y) b,
      c,
      d,
      e,
      f,
      g,
      h,
      i,
      j,
      k,
      m,
      optional_laws,
    )

-- A location that has a latitude and a longitude is read back the same from what it serialises to.
deserialize-serialize_location :
    (l : Location) (m : Fields) → serialize l ≡ ok m → deserialize m ≡ ok l
unfolding serialize
deserialize-serialize_location l m e = elim (Option-cases l.latitude) [
  | inl n ↦ absurd (ground (arith, e, n))
  | inr (x, n) ↦ elim (Option-cases l.longitude) [
    | inl k ↦ absurd (ground (arith, e, n, k))
    | inr (y, k) ↦
        let whole : m ≡ entries l x y = ground (arith, e, n, k) in
        ap deserialize whole
        ∙ all_read l x y
        ∙ ap (λ o. ok (record l { latitude = o; longitude = some y })) (sym n)
        ∙ ap (λ o. ok (record l { longitude = o })) (sym k)
  ]
]
