-- ===== src/Filters/DateTime/Serial.antt =====
-- The picker's entries of a VariantMap, and their way back.
use unity_scopes_api.Prelude.{
  ◌≡◌, ℕ, ◌-◌, ◌%◌, ◌<◌, Option, none, some, Text, text_eq, codes, Result, ok, not_found, ◌>>=◌,
  arith,
}
use unity_scopes_api.Prelude.Int.{ℤ, pos, negsuc}
use unity_scopes_api.Variant.{
  Value, Fields, int, int64, find, find_or, insert, insert_some, text_entry, text_or_empty, get_int,
  get_int64, get_string,
}
use unity_scopes_api.Variant.Laws.{entry_laws}
use unity_scopes_api.Filters.DateTime.{DateTimePicker, to_seconds_from_epoch, to_timepoint}
use unity_scopes_api.Filters.DateTime.Values.{whole}

abbrev pub time_entry : Option ℤ → Option Value
time_entry none = none
time_entry (some t) = some (int64 (to_seconds_from_epoch t))

unfoldable pub serialize : DateTimePicker → Fields → Fields
unfolding to_seconds_from_epoch
serialize f m = insert_some (codes "max") (time_entry f.max) (
    insert_some (codes "min") (time_entry f.min) (
      insert_some (codes "date_label") (text_entry f.date_label) (
        insert_some (codes "time_label") (text_entry f.time_label)
          (insert (codes "mode") (int (pos f.mode)) m))))

-- std::bitset<6> of an int.
abbrev pub mode_of : ℤ → ℕ
mode_of (pos n) = n % 64
mode_of (negsuc n) = 63 - n % 64

abbrev time_of : Option Value → Result (Option ℤ)
time_of none = ok none
time_of (some v) = get_int64 v >>= λ s. ok (some (to_timepoint s))

unfoldable pub deserialize : Text → Fields → Result DateTimePicker
unfolding find find_or get_int get_int64 get_string to_timepoint
deserialize id m = do
  v ← find_or not_found (codes "mode") m
  n ← get_int v
  time ← text_or_empty (find (codes "time_label") m)
  date ← text_or_empty (find (codes "date_label") m)
  min ← time_of (find (codes "min") m)
  max ← time_of (find (codes "max") m)
  ok (record {
    id = id;
    mode = mode_of n;
    time_label = time;
    date_label = date;
    min = min;
    max = max;
  })

-- A map without entries of the picker, but for the mode, which is replaced.
pub record IsOther (m : Fields) : Type 0 where
  pub no_time_label : find (codes "time_label") m ≡ none
  pub no_date_label : find (codes "date_label") m ≡ none
  pub no_min : find (codes "min") m ≡ none
  pub no_max : find (codes "max") m ≡ none

abbrev pub IsWhole : Option ℤ → Type 0
IsWhole none = Unit {0}
IsWhole (some t) = whole t ≡ t

entries_of :
    (f : DateTimePicker) (m : Fields)
    → IsOther m
    → (find (codes "mode") (serialize f m) ≡ some (int (pos f.mode)))
      × (find (codes "time_label") (serialize f m) ≡ text_entry f.time_label)
      × (find (codes "date_label") (serialize f m) ≡ text_entry f.date_label)
      × (find (codes "min") (serialize f m) ≡ time_entry f.min)
      × (find (codes "max") (serialize f m) ≡ time_entry f.max)
unfolding serialize text_eq
entries_of f m h = (
  simp (entry_laws),
  simp (entry_laws, h.no_time_label),
  simp (entry_laws, h.no_date_label),
  simp (entry_laws, h.no_min),
  simp (entry_laws, h.no_max),
)

-- Reading a picker back from the entries that it wrote gives the same picker, if its mode has six
-- bits and its minimum and maximum, where they are set, are in whole seconds.
pub deserialize-serialize :
    (f : DateTimePicker) (m : Fields)
    → f.mode < 64
    → IsWhole f.min
    → IsWhole f.max
    → IsOther m
    → deserialize f.id (serialize f m) ≡ ok f
unfolding deserialize
deserialize-serialize f m h k l o = ground (arith, entries_of f m o, h, k, l)
