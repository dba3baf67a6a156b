-- ===== src/Prelude/Results.antt =====
-- Exceptions as values: the exception classes that the modelled code throws, and sequencing.
use mathlib.Core.Path.{◌≡◌, refl}
use mathlib.Core.Bool.{Bool, true, false}

pub data Error : Type 0 where
  invalid_argument logic_error not_found : Error
  resource_error config_error middleware_error : Error

pub data Result {ℓ} (T : Type ℓ) : Type ℓ where
  err : Error → Result T
  ok : T → Result T

-- A statement that throws ends the block.
infixl 4 ◌>>=◌
abbrev pub ◌>>=◌ {κ ρ} : {S : Type κ} {T : Type ρ} → Result S → (S → Result T) → Result T
err thrown >>= next = err thrown
ok s >>= next = next s

infixl 4 ◌>>◌
abbrev pub ◌>>◌ {ρ} : {T : Type ρ} → Result (Unit {0}) → Result T → Result T
err thrown >> next = err thrown
ok done >> next = next

-- `if (b) throw e;`
abbrev pub throw_if : Bool → Error → Result (Unit {0})
throw_if true e = err e
throw_if false e = ok tt

pub >>=_assoc {ℓ κ ρ} :
    {S : Type ℓ} {T : Type κ} {U : Type ρ} (m : Result S) (f : S → Result T) (g : T → Result U)
    → ((m >>= f) >>= g) ≡ (m >>= λ s. f s >>= g)
>>=_assoc (ok s) f g = refl
>>=_assoc (err e) f g = refl

-- What ends well did so in each of its two parts.
pub ok_of_bind {κ ρ} :
    {S : Type κ} {T : Type ρ} (m : Result S) (next : S → Result T) {t : T}
    → (m >>= next) ≡ ok t
    → (s : S) × (m ≡ ok s) × (next s ≡ ok t)
ok_of_bind (ok s) next e = (s, refl, e)
ok_of_bind (err thrown) next e = absurd (cc)
