-- ===== src/Reaper/Scan.antt =====
-- The scan of the reaper thread stops early, and still finds every item that has expired.
use mathlib.Core.List.{reverse-cons}
use unity_scopes_api.Prelude.{
  ℕ, zero, suc, ◌+◌, ◌*◌, ◌≤◌, ◌≡◌, refl, ap, true, false, List, [], ◌∷◌, ◌++◌, reverse, arith, All,
  All-append, length, Bool-cases, inl, inr,
}
use native.Mathlib.Decide.{dec_le}
use unity_scopes_api.Prelude.Int.{ℤ, pos}
use unity_scopes_api.Reaper.{Item, Reaper, unexpired, collect, sleep_interval, ticks_per_second}
use unity_scopes_api.Reaper.Lru.{Lru, Lru-mono}

-- The clock does not go back.
abbrev pub IsMonotone : (ℕ → ℕ) → Type 0
IsMonotone tick = (k : ℕ) → tick k ≤ tick (suc k)

tick_mono : (tick : ℕ → ℕ) → IsMonotone tick → (k n : ℕ) → k ≤ n → tick k ≤ tick n
tick_mono tick m k zero h = let e : k ≡ 0 = omega arith in rw e (omega arith)
tick_mono tick m k (suc n) h = elim (dec_le k n) [
  | yes below ↦ omega (arith, tick_mono tick m k n below, m n)
  | no above ↦ let e : k ≡ suc n = omega arith in rw e (omega arith)
]

-- From the tail on: no item is older than the one before it.
abbrev Ascending : ℕ → List Item → Type 0
Ascending t [] = Unit {0}
Ascending t (x ∷ xs) = (t ≤ x.timestamp) × Ascending x.timestamp xs

unexpired_mono :
    (e : ℤ) (now : ℕ) (x y : Item)
    → x.timestamp ≤ y.timestamp
    → unexpired e now x ≡ true
    → unexpired e now y ≡ true
unfolding unexpired
unexpired_mono e now x y h k = ground arith

expired_mono :
    (e : ℤ) (now later : ℕ) (x : Item)
    → now ≤ later
    → unexpired e now x ≡ false
    → unexpired e later x ≡ false
unfolding unexpired
expired_mono e now later x h k = ground arith

All-unexpired :
    (e : ℤ) (now : ℕ) (x : Item) (xs : List Item)
    → unexpired e now x ≡ true
    → Ascending x.timestamp xs
    → All (λ y. unexpired e now y ≡ true) xs
All-unexpired e now x [] h a = tt
All-unexpired e now x (y ∷ ys) h a =
    let k = unexpired_mono e now x y a.0 h in (k, All-unexpired e now y ys k a.1)

-- What the scan of a list from its tail achieves: it takes exactly the items that have expired at
-- the reading `stop` of the clock, and leaves the others.
abbrev pub IsSplit : ℤ → (ℕ → ℕ) → ℕ → List Item → List Item → Type 0
IsSplit e tick k xs zs =
    (rest : List Item) × (stop : ℕ) × (xs ≡ zs ++ rest)
    × (stop ≡ k + length zs)
    × All (λ z. unexpired e (tick stop) z ≡ false) zs
    × All (λ z. unexpired e (tick stop) z ≡ true) rest

collect-IsSplit :
    (e : ℤ) (tick : ℕ → ℕ)
    → IsMonotone tick
    → (k t : ℕ) (xs : List Item) → Ascending t xs
    → IsSplit e tick k xs (collect e tick k xs)
unfolding collect
collect-IsSplit e tick m k t [] a = ([], k, refl, omega arith, tt, tt)
collect-IsSplit e tick m k t (x ∷ xs) a = elim (Bool-cases (unexpired e (tick k) x)) [
  | inl young ↦
      rw (collect, young)
        (x ∷ xs, k, refl, omega arith, tt, (young, All-unexpired e (tick k) x xs young a.1))
  | inr old ↦
      let (rest, stop, split, at, gone, kept) =
        collect-IsSplit e tick m (suc k) x.timestamp xs a.1 in
      rw (collect, old)
        (
          rest,
          stop,
          ap (λ l. x ∷ l) split,
          omega arith,
          (expired_mono e (tick k) (tick stop) x (tick_mono tick m k stop (omega arith)) old, gone),
          kept,
        )
]

Ascending-snoc :
    (t now : ℕ) (xs : List Item) (x : Item)
    → Ascending t xs
    → t ≤ x.timestamp
    → All (λ y. y.timestamp ≤ x.timestamp) xs
    → Ascending t (xs ++ x ∷ [])
Ascending-snoc t now [] x a h k = (h, tt)
Ascending-snoc t now (y ∷ ys) x a h k = (a.0, Ascending-snoc y.timestamp now ys x a.1 k.0 k.1)

Lru-All : (now : ℕ) (xs : List Item) → Lru now xs → All (λ y. y.timestamp ≤ now) xs
Lru-All now [] h = tt
Lru-All now (x ∷ xs) h = (h.0, Lru-All now xs (Lru-mono x.timestamp now xs h.0 h.1))

All-reverse {ℓ} : (P : Item → Type ℓ) (xs : List Item) → All P xs → All P (reverse xs)
All-reverse P [] h = tt
All-reverse P (x ∷ xs) h =
    rw (reverse-cons x xs) (All-append P (reverse xs) (x ∷ []) (All-reverse P xs h.1) (h.0, tt))

reverse-Ascending : (now : ℕ) (xs : List Item) → Lru now xs → Ascending 0 (reverse xs)
reverse-Ascending now [] h = tt
reverse-Ascending now (x ∷ xs) h = rw (reverse-cons x xs) (
    Ascending-snoc 0 now (reverse xs) x (reverse-Ascending x.timestamp xs h.1) (omega arith)
      (All-reverse (λ y. y.timestamp ≤ x.timestamp) xs (Lru-All x.timestamp xs h.1)))

-- On a list in LRU order and with a clock that does not go back, the early exit of the scan loses
-- nothing: the list, tail first, is the zombies followed by the items that stay, and at the reading
-- of the clock that follows the last zombie's every zombie has expired and no other item has.
pub collect-exact :
    (e : ℤ) (tick : ℕ → ℕ) (now : ℕ) (xs : List Item)
    → IsMonotone tick
    → Lru now xs
    → IsSplit e tick 0 (reverse xs) (collect e tick 0 (reverse xs))
collect-exact e tick now xs m h =
    collect-IsSplit e tick m 0 0 (reverse xs) (reverse-Ascending now xs h)

-- The thread sleeps at least one reap interval, and not beyond the time at which an item that has
-- not expired yet reaches the age of both intervals together: `oldest` is the time stamp at the
-- tail, and a millisecond is a million ticks.
pub sleep_interval-bounds :
    (now oldest : ℕ) (r : Reaper) (x : Item) (reap expiry : ℕ)
    → r.reap_interval ≡ pos reap
    → r.expiry_interval ≡ pos expiry
    → 1 ≤ reap
    → oldest ≤ x.timestamp
    → unexpired r.expiry_interval now x ≡ true
    → (reap * 1000 ≤ sleep_interval now oldest r)
      × (now + sleep_interval now oldest r * 1000000
          ≤ x.timestamp + (expiry + reap) * ticks_per_second)
unfolding sleep_interval unexpired
sleep_interval-bounds now oldest r x reap expiry er ee h k u = ground arith

-- After that sleep the item at the tail has expired, if it was not refreshed meanwhile.
pub sleep_interval-enough :
    (now oldest : ℕ) (r : Reaper) (x : Item) (reap expiry : ℕ)
    → r.reap_interval ≡ pos reap
    → r.expiry_interval ≡ pos expiry
    → x.timestamp ≡ oldest
    → oldest ≤ now
    → unexpired r.expiry_interval (now + sleep_interval now oldest r * 1000000) x ≡ false
unfolding sleep_interval unexpired
sleep_interval-enough now oldest r x reap expiry er ee h k = rw (er, ee) (ground arith)
