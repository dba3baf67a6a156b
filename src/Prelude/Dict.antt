-- ===== src/Prelude/Dict.antt =====
-- std::map and std::unordered_map with string keys, as lists of entries with each key once.
use unity_scopes_api.Prelude.{
  ◌≡◌, ◌≢◌, refl, List, [], ◌∷◌, Option, none, some, Text, text_eq, text_eq_iff, arith,
  if◌then◌else◌,
}

module _ {ℓ} {V : Type ℓ} where
  unfoldable pub find : Text → List (Text × V) → Option V
  find k [] = none
  find k ((j, v) ∷ m) = if text_eq j k then some v else find k m

  -- insert() keeps the value of a key that is there.
  unfoldable pub insert_new : Text → V → List (Text × V) → List (Text × V)
  insert_new k v [] = (k, v) ∷ []
  insert_new k v ((j, w) ∷ m) = if text_eq j k then (j, w) ∷ m else (j, w) ∷ insert_new k v m

  -- `m[k] = v;`
  unfoldable pub assign : Text → V → List (Text × V) → List (Text × V)
  assign k v [] = (k, v) ∷ []
  assign k v ((j, w) ∷ m) = if text_eq j k then (k, v) ∷ m else (j, w) ∷ assign k v m

  pub find-assign :
      (k j : Text) (v : V) (m : List (Text × V))
      → find j (assign k v m) ≡ (if text_eq k j then some v else find j m)
  unfolding find assign
  find-assign k j v [] = ground arith
  find-assign k j v ((i, w) ∷ m) =
      ground (arith, text_eq_iff k j, text_eq_iff i k, text_eq_iff i j, find-assign k j v m)

  -- insert() of a range.
  unfoldable pub insert_all : List (Text × V) → List (Text × V) → List (Text × V)
  unfolding insert_new
  insert_all [] m = m
  insert_all ((k, v) ∷ r) m = insert_all r (insert_new k v m)

  unfoldable pub erase : Text → List (Text × V) → List (Text × V)
  erase k [] = []
  erase k ((j, w) ∷ m) = if text_eq j k then m else (j, w) ∷ erase k m

  abbrev pub Lacks : Text → List (Text × V) → Type 0
  Lacks k [] = Unit {0}
  Lacks k ((j, v) ∷ m) = (j ≢ k) × Lacks k m

  abbrev pub IsMap : List (Text × V) → Type 0
  IsMap [] = Unit {0}
  IsMap ((k, v) ∷ m) = Lacks k m × IsMap m

  -- The value that a key gets by insert().
  abbrev pub kept_or : Option V → V → Option V
  kept_or none v = some v
  kept_or (some w) v = some w

  pub find-insert_new :
      (k j : Text) (v : V) (m : List (Text × V))
      → find j (insert_new k v m) ≡ (if text_eq k j then kept_or (find j m) v else find j m)
  unfolding find insert_new
  find-insert_new k j v [] = ground arith
  find-insert_new k j v ((i, w) ∷ m) =
      ground (arith, text_eq_iff k j, text_eq_iff i k, text_eq_iff i j, find-insert_new k j v m)

  pub find-of_Lacks : (k : Text) (m : List (Text × V)) → Lacks k m → find k m ≡ none
  unfolding find
  find-of_Lacks k [] h = refl
  find-of_Lacks k ((j, v) ∷ m) h = ground (arith, text_eq_iff j k, find-of_Lacks k m h.1, h.0)

  pub find-erase :
      (k j : Text) (m : List (Text × V))
      → IsMap m
      → find j (erase k m) ≡ (if text_eq k j then none else find j m)
  unfolding find erase
  find-erase k j [] h = ground arith
  find-erase k j ((i, w) ∷ m) h = ground (
    arith,
    text_eq_iff k j,
    text_eq_iff i k,
    text_eq_iff i j,
    find-erase k j m h.1,
    find-of_Lacks i m h.0,
  )

  Lacks-insert_new :
      (i k : Text) (v : V) (m : List (Text × V)) → k ≢ i → Lacks i m → Lacks i (insert_new k v m)
  unfolding insert_new
  Lacks-insert_new i k v [] h l = (h, tt)
  Lacks-insert_new i k v ((j, w) ∷ m) h l = ground (arith, Lacks-insert_new i k v m h l.1)

  pub insert_new-IsMap :
      (k : Text) (v : V) (m : List (Text × V)) → IsMap m → IsMap (insert_new k v m)
  unfolding insert_new
  insert_new-IsMap k v [] h = (tt, tt)
  insert_new-IsMap k v ((j, w) ∷ m) h = ground (
    arith,
    text_eq_iff j k,
    text_eq_iff k j,
    Lacks-insert_new j k v m,
    insert_new-IsMap k v m h.1,
  )

  Lacks-erase : (i k : Text) (m : List (Text × V)) → Lacks i m → Lacks i (erase k m)
  unfolding erase
  Lacks-erase i k [] l = tt
  Lacks-erase i k ((j, w) ∷ m) l = ground (arith, Lacks-erase i k m l.1)

  pub erase-IsMap : (k : Text) (m : List (Text × V)) → IsMap m → IsMap (erase k m)
  unfolding erase
  erase-IsMap k [] h = tt
  erase-IsMap k ((j, w) ∷ m) h = ground (arith, Lacks-erase j k m h.0, erase-IsMap k m h.1)

  -- A range does not overwrite: what was there stays, and of a repeated key the first value counts.
  pub find-insert_all :
      (r m : List (Text × V)) (j : Text)
      → find j (insert_all r m) ≡ (elim (find j m) [ some v ↦ some v | none ↦ find j r ])
  unfolding insert_all find
  find-insert_all [] m j = ground arith
  find-insert_all ((k, v) ∷ r) m j =
      ground (arith, find-insert_all r (insert_new k v m) j, find-insert_new k j v m)
