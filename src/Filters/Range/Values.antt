-- ===== src/Filters/Range/Values.antt =====
-- What a range input filter reads after an update.
use unity_scopes_api.Prelude.{
  ◌≡◌, ℕ, false, some, text_eq_iff, ok, err, not_found, arith, ◌≢◌, ◌⊎◌, inl, inr, [],
}
use unity_scopes_api.Prelude.Doubles.{Doubles, le}
use unity_scopes_api.Variant.{Value, Fields, Items, nil, cons, null, array, insert, erase, is_null}
use unity_scopes_api.Variant.Laws.{IsMap, find-insert, find-erase}
use unity_scopes_api.Filters.{has_filter, remove, get}
use unity_scopes_api.Filters.Range.{RangeInput, at, number, get_value, check_order, update_state}

value-inserted :
    (D : Doubles) (f : RangeInput) (a : Items) (state : Fields) (i : ℕ)
    → f.id ≢ []
    → get_value D f (insert f.id (array a) state) i ≡ number D (at a i)
unfolding get_value has_filter get
value-inserted D f a state i h =
    ground (arith, h, find-insert f.id f.id (array a) state, text_eq_iff f.id f.id)

value-erased :
    (D : Doubles) (f : RangeInput) (state : Fields) (i : ℕ)
    → f.id ≢ []
    → IsMap state
    → get_value D f (erase f.id state) i ≡ err not_found
unfolding get_value has_filter get
value-erased D f state i h m =
    ground (arith, h, find-erase f.id f.id state m, text_eq_iff f.id f.id)

check_order-ordered :
    (D : Doubles) (first last : Value) (x y : ℕ)
    → check_order D first last ≡ ok tt
    → number D (some first) ≡ ok x
    → number D (some last) ≡ ok y
    → le D y x ≡ false
unfolding check_order
check_order-ordered D first last x y e h k = ground arith

-- What an update that is accepted has done.
update_state-cases :
    (D : Doubles) (f : RangeInput) (first last : Value) (state after : Fields)
    → f.id ≢ []
    → update_state D f first last state ≡ ok after
    → ((first ≡ null) × (last ≡ null) × (after ≡ erase f.id state))
      ⊎ ((check_order D first last ≡ ok tt)
          × (after ≡ insert f.id (array (cons first (cons last nil))) state))
unfolding update_state remove is_null
update_state-cases D f first last state after h e = ground (arith, h, e)

-- After an update that is accepted, each end reads as the number that was set, an int as a double,
-- and is not found where null was set; two numbers that are accepted are in order.
pub update_state-values :
    (D : Doubles) (f : RangeInput) (first last : Value) (state after : Fields)
    → f.id ≢ []
    → IsMap state
    → update_state D f first last state ≡ ok after
    → (get_value D f after 0 ≡ number D (some first))
      × (get_value D f after 1 ≡ number D (some last))
      × ((x y : ℕ) → number D (some first) ≡ ok x → number D (some last) ≡ ok y → le D y x ≡ false)
update_state-values D f first last state after h m e =
    elim (update_state-cases D f first last state after h e) [
      | inl (z, w, g) ↦
          rw (g, z, w)
            (value-erased D f state 0 h m, value-erased D f state 1 h m, λ x y p q. absurd (cc))
      | inr (o, g) ↦ rw g (
        value-inserted D f _ state 0 h,
        value-inserted D f _ state 1 h,
        λ x y. check_order-ordered D first last x y o,
      )
    ]
