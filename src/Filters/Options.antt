-- ===== src/Filters/Options.antt =====
-- The options that a filter can come to have.
use unity_scopes_api.Prelude.{
  ◌≡◌, ◌⊎◌, refl, ℕ, suc, ◌+◌, ◌≤◌, Bool, true, false, List, [], ◌∷◌, ◌++◌, Text, ok, arith,
  if◌then◌else◌,
}
use unity_scopes_api.Filters.{FilterOption, OptionSelector, any_default, add_option}

abbrev pub default_count : List FilterOption → ℕ
default_count [] = 0
default_count (p ∷ ps) = if p.default_value then suc (default_count ps) else default_count ps

pub default_count-append :
    (ps qs : List FilterOption) → default_count (ps ++ qs) ≡ default_count ps + default_count qs
default_count-append [] qs = omega arith
default_count-append (p ∷ ps) qs = ground (arith, default_count-append ps qs)

default_count-any : (ps : List FilterOption) → any_default ps ≡ false → default_count ps ≡ 0
default_count-any [] h = refl
default_count-any (p ∷ ps) h = ground (arith, h, default_count-any ps)

-- A filter without multiple selection has one default at most.
abbrev pub IsSingle : OptionSelector → Type 0
IsSingle f = (f.multi_select ≡ true) ⊎ (default_count f.options ≤ 1)

-- Adding an option that is accepted keeps a filter without multiple selection at one default at
-- most, and appends an option with the id, the label and the default value that were given.
pub add_option-IsSingle :
    (id label : Text) (default_value : Bool) (f g : OptionSelector)
    → add_option id label default_value f ≡ ok g
    → IsSingle f
    → IsSingle g
      × (g.options
          ≡ f.options ++ record { id = id; label = label; default_value = default_value } ∷ [])
unfolding add_option
add_option-IsSingle id label d f g e h = ground (
  arith,
  e,
  h,
  default_count-any f.options,
  default_count-append f.options (record { id = id; label = label; default_value = d } ∷ []),
)
