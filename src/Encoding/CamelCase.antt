-- ===== src/Encoding/CamelCase.antt =====
-- What uncamelcase guarantees.
use unity_scopes_api.Prelude.{ℕ, ◌≡◌, refl, Bool, false, [], ◌∷◌, Text, arith, All, ap}
use unity_scopes_api.Encoding.{is_upper, is_lower, to_lower, uncamelcase_from, uncamelcase}

abbrev pub NoUpper : Text → Type 0
NoUpper = All (λ c. is_upper c ≡ false)

uncamelcase_from-NoUpper : (p : Bool) (s : Text) → NoUpper (uncamelcase_from p s)
unfolding uncamelcase_from
uncamelcase_from-NoUpper p [] = tt
uncamelcase_from-NoUpper p (c ∷ s) = ground (arith, uncamelcase_from-NoUpper (is_lower c) s)

to_lower-IsLower : (c : ℕ) → is_upper (to_lower c) ≡ false
unfolding is_upper to_lower
to_lower-IsLower c = ground arith

-- The result holds no upper case letter.
pub uncamelcase-NoUpper : (s : Text) → NoUpper (uncamelcase s)
unfolding uncamelcase
uncamelcase-NoUpper [] = tt
uncamelcase-NoUpper (c ∷ s) = (to_lower-IsLower c, uncamelcase_from-NoUpper (is_lower c) s)

to_lower-of_NoUpper : (c : ℕ) → is_upper c ≡ false → to_lower c ≡ c
unfolding to_lower
to_lower-of_NoUpper c h = rw (to_lower, h)

uncamelcase_from-of_NoUpper : (p : Bool) (s : Text) → NoUpper s → uncamelcase_from p s ≡ s
unfolding uncamelcase_from
uncamelcase_from-of_NoUpper p [] h = refl
uncamelcase_from-of_NoUpper p (c ∷ s) h =
    rw (uncamelcase_from, to_lower, h.0)
      (ap (λ r. c ∷ r) (uncamelcase_from-of_NoUpper (is_lower c) s h.1))

uncamelcase-of_NoUpper : (s : Text) → NoUpper s → uncamelcase s ≡ s
unfolding uncamelcase
uncamelcase-of_NoUpper [] h = refl
uncamelcase-of_NoUpper (c ∷ s) h =
    rw (to_lower-of_NoUpper c h.0)
      (ap (λ r. c ∷ r) (uncamelcase_from-of_NoUpper (is_lower c) s h.1))

-- Converting a second time changes nothing.
pub uncamelcase_idempotent : (s : Text) → uncamelcase (uncamelcase s) ≡ uncamelcase s
uncamelcase_idempotent s = uncamelcase-of_NoUpper (uncamelcase s) (uncamelcase-NoUpper s)
