-- ===== src/Reaper/Occurs.antt =====
-- How often a ReapItem stands in the lists of the reaper, and what its operations change of that.
use mathlib.Core.List.{reverse-cons}
use unity_scopes_api.Prelude.{
  ℕ, suc, ◌+◌, ◌-◌, ◌≤◌, ◌≡◌, refl, List, [], ◌∷◌, ◌++◌, reverse, Option, none, some, ◌==◌, arith,
  if◌then◌else◌, Option-cases, inl, inr,
}
use unity_scopes_api.Prelude.Int.{ℤ}
use unity_scopes_api.Reaper.{Item, Reaper, find, erase, move_to_front, collect, choose_zombies}

-- How often a ReapItem's node stands in a list, and in a slot.
abbrev pub occurs : ℕ → List Item → ℕ
occurs i [] = 0
occurs i (x ∷ xs) = (if x.reap_item == i then 1 else 0) + occurs i xs

abbrev pub holds : ℕ → Option Item → ℕ
holds i none = 0
holds i (some x) = if x.reap_item == i then 1 else 0

-- How often its callback was made.
abbrev pub calls : ℕ → List ℕ → ℕ
calls i [] = 0
calls i (j ∷ js) = (if j == i then 1 else 0) + calls i js

pub occurs-erase :
    (i j : ℕ) (xs : List Item) → occurs i (erase j xs) ≡ occurs i xs - (if j == i then 1 else 0)
unfolding erase
occurs-erase i j [] = ground arith
occurs-erase i j (x ∷ xs) = ground (arith, occurs-erase i j xs)

pub find-reap_item :
    (j : ℕ) (xs : List Item) (x : Item) → find j xs ≡ some x → (x.reap_item ≡ j) × (1 ≤ occurs j xs)
unfolding find
find-reap_item j [] x e = cc
find-reap_item j (y ∷ ys) x e = ground (arith, find-reap_item j ys x)

pub occurs-move_to_front :
    (i j now : ℕ) (xs : List Item) → occurs i (move_to_front j now xs) ≡ occurs i xs
unfolding move_to_front
occurs-move_to_front i j now xs = elim (Option-cases (find j xs)) [
  | inl missing ↦ rw (move_to_front, missing)
  | inr (x, found) ↦
      let (same, there) = find-reap_item j xs x found in
      rw (move_to_front, found) (ground (arith, same, there, occurs-erase i j xs))
]

pub occurs-append : (i : ℕ) (xs ys : List Item) → occurs i (xs ++ ys) ≡ occurs i xs + occurs i ys
occurs-append i [] ys = omega arith
occurs-append i (x ∷ xs) ys = omega (arith, occurs-append i xs ys)

pub occurs-reverse : (i : ℕ) (xs : List Item) → occurs i (reverse xs) ≡ occurs i xs
occurs-reverse i [] = refl
occurs-reverse i (x ∷ xs) =
    rw (reverse-cons x xs)
      (omega (arith, occurs-append i (reverse xs) (x ∷ []), occurs-reverse i xs))

pub occurs-collect :
    (i : ℕ) (e : ℤ) (tick : ℕ → ℕ) (k : ℕ) (xs : List Item)
    → occurs i (collect e tick k xs) ≤ occurs i xs
unfolding collect
occurs-collect i e tick k [] = omega arith
occurs-collect i e tick k (x ∷ xs) = ground (arith, occurs-collect i e tick (suc k) xs)

pub occurs-choose_zombies :
    (i : ℕ) (tick : ℕ → ℕ) (r : Reaper) → occurs i (choose_zombies tick r) ≤ occurs i r.list
unfolding choose_zombies
occurs-choose_zombies i tick r =
    ground
      (arith, occurs-collect i r.expiry_interval tick 0 (reverse r.list), occurs-reverse i r.list)
