-- ===== src/Results/Search.antt =====
-- The search through stored results ends, whatever the maps hold.
use unity_scopes_api.Prelude.{
  ◌≡◌, ◌≢◌, ◌⊎◌, inl, inr, refl, ℕ, zero, suc, ◌<◌, Bool, true, Bool-cases, if_cases, Error, Option,
  none, some, Option-cases, Text, text_eq, codes, Result, ok, err, arith,
}
use unity_scopes_api.Prelude.Int.{ℤ}
use unity_scopes_api.Variant.{Value, Fields, end, field, dict, find, find_or, get_dict}
use unity_scopes_api.Results.{
  intercepts, level, next_of, go_on, round, search, size, find_stored_result,
}

-- A dict that is found is smaller than the map that it is found in.
pub size-find : (k : Text) (m n : Fields) → find k m ≡ some (dict n) → size n < size m
unfolding size find
size-find k end n e = absurd (cc)
size-find k (field j v m) n e = elim (Bool-cases (text_eq j k)) [
  | inl same ↦ ground (arith, e, same)
  | inr other ↦ ground (arith, e, other, size-find k m n)
]

Result-cases {ℓ} :
    {A : Type ℓ} (r : Result A) → ((e : Error) × (r ≡ err e)) ⊎ ((a : A) × (r ≡ ok a))
Result-cases (err e) = inl (e, refl)
Result-cases (ok a) = inr (a, refl)

-- What a level gives stands in the map.
level-internal :
    (m n : Fields) (f : ℤ) → level m ≡ ok (f, n) → find (codes "internal") m ≡ some (dict n)
unfolding level find_or get_dict
level-internal m n f e = ground (arith, e)

module _ {T : Type 0} (visit : Fields → Result T) where
  go_on-ends :
      (t : T) (rest : Fields → Option (Result (Bool × T))) (o : Option Value)
      → ((d : Fields) → o ≡ some (dict d) → rest d ≢ none)
      → go_on visit t rest (next_of visit o) ≢ none
  unfolding get_dict
  go_on-ends t rest none h = λ e. cc
  go_on-ends t rest (some (dict d)) h = h d refl
  go_on-ends t rest (some v) h = λ e. cc

  round-ends :
      (f : ℤ) (n : Fields) (rest : Fields → Option (Result (Bool × T))) (r : Result T)
      → ((d : Fields) → find (codes "result") n ≡ some (dict d) → rest d ≢ none)
      → round visit f n rest r ≢ none
  round-ends f n rest (err e) h = λ q. cc
  round-ends f n rest (ok t) h =
      if_cases (λ o. o ≢ none) (intercepts f) (some (ok (true, t)))
        (go_on visit t rest (next_of visit (find (codes "result") n))) (λ b q. cc)
        (λ b. go_on-ends t rest (find (codes "result") n) h)

  search-ends : (fuel : ℕ) (m : Fields) → size m < fuel → search visit fuel m ≢ none
  unfolding search
  search-ends zero m h = absurd (omega arith)
  search-ends (suc fuel) m h = elim (Result-cases (level m)) [
    | inl (e, failed) ↦ rw (failed, search) (λ q. cc)
    | inr ((f, n), reached) ↦
        rw (reached, search)
          (round-ends f n (search visit fuel) (visit m) (λ d found. search-ends fuel d (
            omega (
              arith,
              h,
              size-find (codes "result") n d found,
              size-find (codes "internal") m n (level-internal m n f reached),
            ))))
  ]

-- The search ends within the fuel that it is given, in every map and for every callback:
-- find_stored_result is what the loop comes to, and never the end of the fuel.
pub find_stored_result-ends :
    {T : Type 0} (visit : Fields → Result T) (m : Fields)
    → (r : Result (Bool × T)) × (search visit (suc (size m)) m ≡ some r)
      × (find_stored_result visit m ≡ r)
unfolding find_stored_result
find_stored_result-ends visit m = elim (Option-cases (search visit (suc (size m)) m)) [
  | inl stuck ↦ absurd (search-ends visit (suc (size m)) m (omega arith) stuck)
  | inr (r, found) ↦ (r, found, rw found refl)
]
