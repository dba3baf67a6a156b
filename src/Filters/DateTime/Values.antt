-- ===== src/Filters/DateTime/Values.antt =====
-- The date that a picker reads after an update.
use unity_scopes_api.Prelude.{
  ◌≡◌, ◌≢◌, ◌+◌, ◌≤◌, true, [], Option, none, some, Text, text_eq, text_eq_iff, codes, ok, arith,
}
use unity_scopes_api.Prelude.Int.{ℤ, pos, negsuc, pos_part, neg_part, ◌≤ℤ◌}
use unity_scopes_api.Variant.{Value, Fields, end, dict, int64, find, insert, get_int64, get_dict}
use unity_scopes_api.Variant.Laws.{find-insert}
use unity_scopes_api.Filters.{has_filter, get}
use unity_scopes_api.Filters.DateTime.{
  DateTimePicker, second, to_seconds_from_epoch, to_timepoint, is_valid_date, has_selected_date,
  selected_date, update_entry, update_state,
}

-- A date in whole seconds, towards zero.
abbrev pub whole : ℤ → ℤ
whole date = to_timepoint (to_seconds_from_epoch date)

abbrev pub IsFrom : Option ℤ → ℤ → Type 0
IsFrom none date = Unit {0}
IsFrom (some t) date = t ≤ℤ date

abbrev pub IsUntil : Option ℤ → ℤ → Type 0
IsUntil none date = Unit {0}
IsUntil (some t) date = date ≤ℤ t

-- The whole seconds of a date are less than a second from it.
whole-near :
    (d : ℤ)
    → (pos_part d + neg_part (whole d) + 1 ≤ pos_part (whole d) + neg_part d + second)
      × (pos_part (whole d) + neg_part d + 1 ≤ pos_part d + neg_part (whole d) + second)
unfolding to_seconds_from_epoch to_timepoint
whole-near (pos n) = omega arith
whole-near (negsuc n) = ground arith

whole-valid :
    (f : DateTimePicker) (d : ℤ)
    → IsFrom f.min d
    → IsUntil f.max d
    → (is_valid_date f d ≡ true) × (is_valid_date f (whole d) ≡ true)
unfolding is_valid_date
whole-valid f d h k = ground (arith, h, k, whole-near d)

abbrev entry : ℤ → Value
entry d = dict (insert (codes "date") (int64 (to_seconds_from_epoch d)) end)

-- A date from the minimum to the maximum, where they are set, is accepted, and then the picker has
-- it as its selected date, in whole seconds; the state has what it had for every other filter.
pub update_state-selected :
    (f : DateTimePicker) (d : ℤ) (state : Fields)
    → f.id ≢ []
    → IsFrom f.min d
    → IsUntil f.max d
    → (after : Fields) × (update_state f d state ≡ ok after)
      × (selected_date f after ≡ ok (whole d))
      × (has_selected_date f after ≡ ok true)
      × ((j : Text) → j ≢ f.id → find j after ≡ find j state)
unfolding update_state update_entry selected_date has_selected_date has_filter get get_dict
    get_int64 text_eq
update_state-selected f d state h k l = (
  insert f.id (entry d) state,
  ground (arith, h, whole-valid f d k l),
  ground
      (arith, h, whole-valid f d k l, find-insert f.id f.id (entry d) state, text_eq_iff f.id f.id),
  ground (arith, h, find-insert f.id f.id (entry d) state, text_eq_iff f.id f.id),
  λ j n. ground (arith, n, find-insert f.id j (entry d) state, text_eq_iff f.id j),
)
