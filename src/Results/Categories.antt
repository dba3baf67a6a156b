-- ===== src/Results/Categories.antt =====
-- The categories of a search in the order in which they were registered:
-- src/scopes/internal/CategoryRegistry.cpp. The categories are of a type that is a parameter, with
-- their ids and their entries.
use unity_scopes_api.Prelude.{
  ◌≡◌, refl, ℕ, ◌+◌, List, [], ◌∷◌, ◌++◌, Option, none, some, Text, text_eq, text_eq_iff, Result,
  ok, err, invalid_argument, ◌>>◌, throw_if, is_some, arith, if◌then◌else◌,
}
use unity_scopes_api.Variant.{Fields, Items, nil, cons, dict}

pub record Categories {ℓ} (C : Type ℓ) : Type ℓ where
  pub id_of : C → Text
  pub fields_of : C → Fields

module _ {ℓ} {C : Type ℓ} (K : Categories C) where
  unfoldable pub lookup_category : Text → List (Text × C) → Option C
  lookup_category id [] = none
  lookup_category id ((j, c) ∷ cs) = if text_eq j id then some c else lookup_category id cs

  unfoldable pub register_category : C → List (Text × C) → Result (List (Text × C))
  unfolding lookup_category
  register_category c cs = do
    throw_if (is_some (lookup_category (K.id_of c) cs)) invalid_argument
    ok (cs ++ (K.id_of c, c) ∷ [])

  unfoldable pub serialize : List (Text × C) → Items
  serialize [] = nil
  serialize ((j, c) ∷ cs) = cons (dict (K.fields_of c)) (serialize cs)

  abbrev kept_or : List (Text × C) → Result (List (Text × C)) → List (Text × C)
  kept_or cs (ok new) = new
  kept_or cs (err thrown) = cs

  -- Call after call, and what they leave.
  unfoldable pub register_each : List C → List (Text × C) → List (Text × C)
  unfolding register_category
  register_each [] cs = cs
  register_each (c ∷ more) cs = register_each more (kept_or cs (register_category c cs))

  -- The first with the id.
  abbrev pub first_with : Text → List C → Option C
  first_with id [] = none
  first_with id (c ∷ cs) = if text_eq (K.id_of c) id then some c else first_with id cs

  -- How many categories of the registry are under an id.
  abbrev pub entries_with : Text → List (Text × C) → ℕ
  entries_with id [] = 0
  entries_with id ((j, c) ∷ cs) = (if text_eq j id then 1 else 0) + entries_with id cs

  abbrev or_else : Option C → Option C → Option C
  or_else none o = o
  or_else (some c) o = some c

  lookup-append :
      (id j : Text) (c : C) (cs : List (Text × C))
      → lookup_category id (cs ++ (j, c) ∷ [])
        ≡ or_else (lookup_category id cs) (if text_eq j id then some c else none)
  unfolding lookup_category
  lookup-append id j c [] = ground arith
  lookup-append id j c ((i, d) ∷ cs) = ground (arith, lookup-append id j c cs)

  lookup-register :
      (id : Text) (c : C) (cs : List (Text × C))
      → lookup_category id (kept_or cs (register_category c cs))
        ≡ or_else (lookup_category id cs) (if text_eq (K.id_of c) id then some c else none)
  unfolding register_category
  lookup-register id c cs =
      ground (arith, lookup-append id (K.id_of c) c cs, text_eq_iff (K.id_of c) id)

  lookup-register_each :
      (id : Text) (more : List C) (cs : List (Text × C))
      → lookup_category id (register_each more cs)
        ≡ or_else (lookup_category id cs) (first_with id more)
  unfolding register_each
  lookup-register_each id [] cs = ground arith
  lookup-register_each id (c ∷ more) cs = ground (
    arith,
    lookup-register id c cs,
    lookup-register_each id more (kept_or cs (register_category c cs)),
  )

  entries-append :
      (id j : Text) (c : C) (cs : List (Text × C))
      → entries_with id (cs ++ (j, c) ∷ []) ≡ entries_with id cs + (if text_eq j id then 1 else 0)
  entries-append id j c [] = omega arith
  entries-append id j c (d ∷ cs) = omega (arith, entries-append id j c cs)

  IsSingle : Text → List (Text × C) → Type 0
  IsSingle id cs = entries_with id cs ≡ (if is_some (lookup_category id cs) then 1 else 0)

  register-IsSingle :
      (id : Text) (c : C) (cs : List (Text × C))
      → IsSingle id cs
      → IsSingle id (kept_or cs (register_category c cs))
  unfolding register_category IsSingle
  register-IsSingle id c cs h = ground (
    arith,
    h,
    entries-append id (K.id_of c) c cs,
    lookup-append id (K.id_of c) c cs,
    text_eq_iff (K.id_of c) id,
  )

  register_each-IsSingle :
      (id : Text) (more : List C) (cs : List (Text × C))
      → IsSingle id cs
      → IsSingle id (register_each more cs)
  unfolding register_each
  register_each-IsSingle id [] cs h = h
  register_each-IsSingle id (c ∷ more) cs h =
      register_each-IsSingle id more (kept_or cs (register_category c cs))
        (register-IsSingle id c cs h)

  -- After any sequence of calls that register a category, those that threw included, looking up an
  -- id gives the category that was the first to be registered with it, and the registry, which is
  -- also what is serialised, has that one category under the id and no other.
  pub lookup-first :
      (id : Text) (more : List C)
      → (lookup_category id (register_each more []) ≡ first_with id more)
        × (entries_with id (register_each more [])
            ≡ (if is_some (first_with id more) then 1 else 0))
  unfolding lookup_category IsSingle
  lookup-first id more =
      let first = lookup-register_each id more [] in
      (first, ground (arith, first, register_each-IsSingle id more [] refl))
