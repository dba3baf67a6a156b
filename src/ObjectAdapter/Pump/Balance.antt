-- ===== src/ObjectAdapter/Pump/Balance.antt =====
-- The pump's account of its workers, in every state that its rounds lead to.
use unity_scopes_api.Prelude.{
  ◌≡◌, ◌⊎◌, inl, inr, Bool-cases, refl, sym, subst, ap, ◌∙◌, ℕ, suc, ◌+◌, ◌-◌, ◌≤◌, ◌==◌, Bool,
  true, false, ◌&&◌, not, List, [], ◌∷◌, ◌++◌, Option, none, some, length, length-append,
  if◌then◌else◌, arith,
}
use unity_scopes_api.ObjectAdapter.Pump.{
  Mode, twoway, Message, reply, Request, Input, stop_to, Pump, without, sends, see_stop,
  from_backend, is_nil, serve, from_frontend, stop_each, stop_ready, round, new_pump,
}

abbrev pub count : ℕ → List ℕ → ℕ
count w [] = 0
count w (v ∷ vs) = if v == w then suc (count w vs) else count w vs

pub count-append : (w : ℕ) (vs ws : List ℕ) → count w (vs ++ ws) ≡ count w vs + count w ws
count-append w [] ws = omega arith
count-append w (v ∷ vs) ws = ground (arith, count-append w vs ws)

pub count-without :
    (w x : ℕ) (vs : List ℕ)
    → count x (without w vs) ≡ (if w == x then count x vs - 1 else count x vs)
count-without w x [] = ground arith
count-without w x (v ∷ vs) = ground (arith, count-without w x vs)

pub length-without :
    (w : ℕ) (vs : List ℕ) → 1 ≤ count w vs → suc (length (without w vs)) ≡ length vs
length-without w [] h = absurd (omega arith)
length-without w (v ∷ vs) h = ground (arith, length-without w vs)

-- Every worker is ready or busy, and the front end is polled as long as there is a ready one.
pub record IsBalanced (p : Pump) : Type 0 where
  pub counted : length p.busy + length p.ready_workers ≡ p.num_workers
  pub polled : p.polls_frontend ≡ (not p.shutting_down && not (is_nil p.ready_workers))

-- A worker sends a message only while it is busy.
abbrev pub IsFrom : Option (ℕ × Message) → Pump → Type 0
IsFrom none p = Unit {0}
IsFrom (some (w, m)) p = 1 ≤ count w p.busy

abbrev pub IsValid : Input → Pump → Type 0
IsValid i p = IsFrom i.backend p

pub see_stop-IsBalanced : (stop : Bool) (p : Pump) → IsBalanced p → IsBalanced (see_stop stop p)
unfolding see_stop
see_stop-IsBalanced stop p h = ground (arith, h)

nil_of_length : (ws : List ℕ) (w : ℕ) → (length (ws ++ w ∷ []) == 1) ≡ is_nil ws
nil_of_length [] w = refl
nil_of_length (v ∷ ws) w = ground (arith, length-append ws (w ∷ []))

not_nil : (ws : List ℕ) (w : ℕ) → is_nil (ws ++ w ∷ []) ≡ false
not_nil [] w = refl
not_nil (v ∷ ws) w = refl

from_backend-IsBalanced :
    (mode : Mode) (w : ℕ) (m : Message) (p : Pump)
    → 1 ≤ count w p.busy
    → IsBalanced p
    → IsBalanced (from_backend mode (some (w, m)) p)
unfolding from_backend
from_backend-IsBalanced twoway w (reply c b) p v h = ground (
  arith,
  h,
  length-without w p.busy,
  length-append {0} p.ready_workers (w ∷ []),
  nil_of_length p.ready_workers w,
  not_nil p.ready_workers w,
)
from_backend-IsBalanced mode w m p v h = ground (
  arith,
  h,
  length-without w p.busy,
  length-append {0} p.ready_workers (w ∷ []),
  nil_of_length p.ready_workers w,
  not_nil p.ready_workers w,
)

pub heard :
    (mode : Mode) (b : Option (ℕ × Message)) (p : Pump)
    → IsFrom b p
    → IsBalanced p
    → IsBalanced (from_backend mode b p)
unfolding from_backend
heard mode none p v h = h
heard mode (some (w, m)) p v h = from_backend-IsBalanced mode w m p v h

pub still-IsFrom :
    (b : Option (ℕ × Message)) (stop : Bool) (p : Pump) → IsFrom b p → IsFrom b (see_stop stop p)
unfolding see_stop
still-IsFrom none stop p v = tt
still-IsFrom (some (w, m)) stop p v = ground (arith, v)

serve-IsBalanced :
    (r : Request) (ws : List ℕ) (p : Pump)
    → length p.busy + length ws ≡ p.num_workers
    → p.polls_frontend ≡ true
    → p.shutting_down ≡ false
    → is_nil ws ≡ false
    → (q : Pump) × (serve r ws p ≡ some q) × IsBalanced q
unfolding serve
serve-IsBalanced r [] p h e f g = absurd (cc)
serve-IsBalanced r (w ∷ ws) p h e f g = (_, refl, ground arith)

polled_cases :
    (p : Pump)
    → (not p.shutting_down && p.polls_frontend) ≡ true
    → IsBalanced p
    → (p.polls_frontend ≡ true) × (p.shutting_down ≡ false) × (is_nil p.ready_workers ≡ false)
polled_cases p e h = ground (arith, h)

-- There is a ready worker for every request that is read.
pub from_frontend-IsBalanced :
    (r : Option Request) (p : Pump)
    → IsBalanced p
    → (q : Pump) × (from_frontend r p ≡ some q) × IsBalanced q
unfolding from_frontend
from_frontend-IsBalanced none p h = (p, refl, h)
from_frontend-IsBalanced (some r) p h =
    elim (Bool-cases (not p.shutting_down && p.polls_frontend)) [
      | inr closed ↦ (p, rw closed refl, h)
      | inl open_ ↦
          let (polls, up, some_ready) = polled_cases p open_ h in
          let (q, e, b) = serve-IsBalanced r p.ready_workers p h.counted polls up some_ready in
          (q, rw open_ e, b)
    ]

stop_each-IsBalanced :
    (ws : List ℕ) (p : Pump)
    → length p.busy + length ws ≡ p.num_workers
    → p.shutting_down ≡ true
    → p.polls_frontend ≡ false
    → IsBalanced (stop_each ws p).0
      × ((stop_each ws p).1 ≡ false ⊎ (length (stop_each ws p).0.busy ≡ 0))
unfolding stop_each
stop_each-IsBalanced [] p h e f = ground arith
stop_each-IsBalanced (w ∷ ws) p h e f = ground (
  arith,
  stop_each-IsBalanced ws (sends (stop_to w) (record p { num_workers = p.num_workers - 1 })),
)

pub stop_ready-IsBalanced :
    (p : Pump)
    → IsBalanced p
    → IsBalanced (stop_ready p).0 × ((stop_ready p).1 ≡ false ⊎ (length (stop_ready p).0.busy ≡ 0))
unfolding stop_ready
stop_ready-IsBalanced p h = ground (arith, h, stop_each-IsBalanced p.ready_workers p)

pub rounded :
    (mode : Mode) (i : Input) (p q : Pump)
    → from_frontend i.frontend (from_backend mode i.backend (see_stop i.stop p)) ≡ some q
    → round mode i p ≡ some (stop_ready q)
unfolding round
rounded mode i p q e = rw (e, round) refl

-- A round with a valid input never takes the front of an empty queue, keeps the balance, and returns
-- from the pump only if no worker is busy.
pub round-IsBalanced :
    (mode : Mode) (i : Input) (p : Pump)
    → IsValid i p
    → IsBalanced p
    → (q : Pump) × (ended : Bool) × (round mode i p ≡ some (q, ended))
      × IsBalanced q
      × ((ended ≡ false) ⊎ (length q.busy ≡ 0))
round-IsBalanced mode i p v h =
    let (q, e, b) = from_frontend-IsBalanced i.frontend _ (
      heard mode i.backend (see_stop i.stop p) (still-IsFrom i.backend i.stop p v)
        (see_stop-IsBalanced i.stop p h)) in
    let (balanced, ended) = stop_ready-IsBalanced q b in
    ((stop_ready q).0, (stop_ready q).1, rounded mode i p q e, balanced, ended)

-- The states that the pump comes to, from workers that have just been created.
pub data Reach (mode : Mode) (workers : List ℕ) : Pump → Type 0 where
  here : Reach mode workers (new_pump workers)
  next :
      {p q : Pump}
      → Reach mode workers p
      → (i : Input) → IsValid i p
      → round mode i p ≡ some (q, false)
      → Reach mode workers q

new-IsBalanced : (workers : List ℕ) → IsBalanced (new_pump workers)
new-IsBalanced workers = ground arith

pub Reach-IsBalanced :
    {mode : Mode} {workers : List ℕ} {p : Pump} → Reach mode workers p → IsBalanced p
Reach-IsBalanced here = new-IsBalanced _
Reach-IsBalanced (next {p} {q} path i v e) =
    let (r, ended, f, b, g) = round-IsBalanced _ i p v (Reach-IsBalanced path) in
    subst IsBalanced (ap (λ o. elim o [ some x ↦ x.0 | none ↦ q ]) (sym f ∙ e)) b
