-- ===== src/Reaper/Lru.antt =====
-- The list of the reaper stays in LRU order: no item is younger than the one before it.
use unity_scopes_api.Prelude.{
  ℕ, ◌≤◌, ◌≡◌, List, [], ◌∷◌, Option, none, some, ok, true, false, arith,
}
use unity_scopes_api.Reaper.{Item, Reaper, find, erase, add, move_to_front, refresh, cancel}

-- Time stamps fall from the head on, and none is after `now`.
abbrev pub Lru : ℕ → List Item → Type 0
Lru now [] = Unit {0}
Lru now (x ∷ xs) = (x.timestamp ≤ now) × Lru x.timestamp xs

pub Lru-mono : (m n : ℕ) (xs : List Item) → m ≤ n → Lru m xs → Lru n xs
Lru-mono m n [] h k = tt
Lru-mono m n (x ∷ xs) h k = (omega arith, k.1)

pub erase-Lru : (i now : ℕ) (xs : List Item) → Lru now xs → Lru now (erase i xs)
unfolding erase
erase-Lru i now [] h = tt
erase-Lru i now (x ∷ xs) h =
    ground (arith, erase-Lru i x.timestamp xs h.1, Lru-mono x.timestamp now xs h.0 h.1)

move_to_front-Lru :
    (i clock now : ℕ) (xs : List Item)
    → clock ≤ now
    → Lru clock xs
    → Lru now (move_to_front i now xs)
unfolding move_to_front
move_to_front-Lru i clock now xs h k =
    let longer = Lru-mono clock now xs h k in ground (arith, erase-Lru i now xs longer)

-- Adding, refreshing and cancelling keep the order, whatever the time since the last call.
pub add-Lru :
    (cb : Option ℕ) (clock now : ℕ) (r : Reaper) (s : Reaper × ℕ)
    → clock ≤ now
    → Lru clock r.list
    → add cb now r ≡ ok s
    → Lru now s.0.list
unfolding add
add-Lru none clock now r s h k e = ground arith
add-Lru (some cb) clock now r s h k e = ground (arith, Lru-mono clock now r.list h k)

pub refresh-Lru :
    (i clock now : ℕ) (r : Reaper) → clock ≤ now → Lru clock r.list → Lru now (refresh i now r).list
unfolding refresh
refresh-Lru i clock now r h k =
    ground (arith, Lru-mono clock now r.list h k, move_to_front-Lru i clock now r.list h k)

pub cancel-Lru : (i clock : ℕ) (r : Reaper) → Lru clock r.list → Lru clock (cancel i r).list
unfolding cancel
cancel-Lru i clock r k = ground (arith, erase-Lru i clock r.list k)

-- An item that is refreshed while it is on the list is the youngest afterwards, with its callback.
pub refresh-head :
    (i now : ℕ) (r : Reaper) (x : Item)
    → r.alive ≡ true
    → r.cancelled i ≡ false
    → find i r.list ≡ some x
    → (refresh i now r).list ≡ record x { timestamp = now } ∷ erase i r.list
unfolding refresh
refresh-head i now r x a c f = ground arith
