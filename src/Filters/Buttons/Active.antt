-- ===== src/Filters/Buttons/Active.antt =====
-- The button that is active after an update, and the number of options of a rating filter.
use unity_scopes_api.Prelude.{
  ◌≡◌, ◌≢◌, refl, ap, sym, subst, Bool-cases, inl, inr, ℕ, zero, suc, ◌+◌, ◌≤◌, Bool, true, false,
  List, [], ◌∷◌, some, Text, text_eq, text_eq_iff, ok, ok_of_bind, All, length, length-append,
  arith,
}
use unity_scopes_api.Prelude.Int.{pos}
use unity_scopes_api.Variant.{Fields}
use unity_scopes_api.Variant.Laws.{IsMap}
use unity_scopes_api.Filters.{
  FilterOption, OptionSelector, add_option, choose, option_known, update_state,
}
use unity_scopes_api.Filters.Updates.{update_state-only}
use unity_scopes_api.Filters.Buttons.{
  Rating, make_selector, make_buttons, active_option, add_ratings, make_rating, add_rating,
  max_rating,
}

abbrev pub AreDistinct : List FilterOption → Type 0
AreDistinct [] = Unit {0}
AreDistinct (p ∷ ps) = All (λ q. q.id ≢ p.id) ps × AreDistinct ps

choose-others :
    (o : Text) (ps : List FilterOption)
    → All (λ q. q.id ≢ o) ps
    → choose (λ p. text_eq o p.id) ps ≡ []
unfolding choose
choose-others o [] h = refl
choose-others o (p ∷ ps) h = ground (arith, h, choose-others o ps h.1, text_eq_iff o p.id)

choose-one :
    (o : Text) (ps : List FilterOption)
    → AreDistinct ps
    → option_known o ps ≡ true
    → (p : FilterOption) × (choose (λ p. text_eq o p.id) ps ≡ p ∷ []) × (p.id ≡ o)
unfolding choose
choose-one o [] d k = absurd (ground (arith, k))
choose-one o (p ∷ ps) d k = elim (Bool-cases (text_eq o p.id)) [
  | inl same ↦
      let e = (text_eq_iff o p.id).0 same in
      (
        p,
        rw (choose, same)
            (ap (λ l. p ∷ l)
              (choose-others o ps (subst (λ t. All (λ q. q.id ≢ t) ps) (sym e) d.0))),
        sym e,
      )
  | inr other ↦
      let (q, e, i) = choose-one o ps d.1 (ground (arith, k, other)) in (q, rw (choose, other) e, i)
]

-- A radio button of the filter that is activated is the active one, whatever the state had, if the
-- ids of the options are distinct.
pub active_option-updated :
    (f : OptionSelector) (o : Text) (state : Fields)
    → f.id ≢ []
    → o ≢ []
    → option_known o f.options ≡ true
    → AreDistinct f.options
    → f.multi_select ≡ false
    → IsMap state
    → (p : FilterOption) × (active_option f (update_state f o true state).0 ≡ ok (some p))
      × (p.id ≡ o)
unfolding active_option
active_option-updated f o state n m k d single w =
    let (p, e, i) = choose-one o f.options d k in
    (p, simp ((update_state-only f o state n m k single w).1, e), i)

add_option-length :
    (id label : Text) (d : Bool) (f g : OptionSelector)
    → add_option id label d f ≡ ok g
    → length g.options ≡ length f.options + 1
unfolding add_option
add_option-length id label d f g e =
    ground (
      arith,
      e,
      length-append f.options (record { id = id; label = label; default_value = d } ∷ []),
    )

add_ratings-length :
    (left i top : ℕ) (f g : OptionSelector)
    → add_ratings left i top f ≡ ok g
    → length g.options ≡ length f.options + left
unfolding add_ratings
add_ratings-length zero i top f g e = ground (arith, e)
add_ratings-length (suc left) i top f g e =
    let (h, added, rest) = ok_of_bind _ (add_ratings left (suc i) top) e in
    omega
      (arith, add_option-length _ _ false f h added, add_ratings-length left (suc i) top h g rest)

abbrev empty_buttons : Text → Text → OptionSelector
empty_buttons id label = record { id = id; label = label; multi_select = false; options = [] }

-- A rating filter that was constructed has as many options as its top rating, which is at most
-- max_rating, and an option more is accepted only below that number.
make_rating-length :
    (id label : Text) (top : ℕ) (f g : Rating) (i l : Text)
    → make_rating id label (pos top) ≡ ok f
    → (length f.buttons.options ≡ top)
      × (top ≤ max_rating)
      × (add_rating i l f ≡ ok g → (top + 1 ≤ max_rating) × (length g.buttons.options ≡ top + 1))
unfolding make_rating make_buttons make_selector add_rating
make_rating-length id label top f g i l e = ground (
  arith,
  e,
  add_ratings-length top 1 top (empty_buttons id label) f.buttons,
  add_option-length i l false f.buttons g.buttons,
)
