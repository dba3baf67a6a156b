-- ===== src/ObjectAdapter/Pump/Places.antt =====
-- Each worker of the pump is in one place.
use unity_scopes_api.Prelude.{
  ◌≡◌, refl, sym, ap, ◌∙◌, ℕ, ◌+◌, ◌-◌, ◌≤◌, Bool, List, [], ◌∷◌, Option, none, some, arith,
}
use unity_scopes_api.ObjectAdapter.Pump.{
  Mode, twoway, Message, reply, Request, Input, stop_to, Pump, sends, see_stop, from_backend, serve,
  from_frontend, stop_each, stop_ready, round,
}
use unity_scopes_api.ObjectAdapter.Pump.Balance.{
  count, count-append, count-without, IsFrom, IsValid, Reach, here, next, still-IsFrom, rounded,
  Reach-IsBalanced, from_frontend-IsBalanced, heard, see_stop-IsBalanced, IsBalanced,
}

-- How often a worker is ready or busy.
abbrev pub places : ℕ → Pump → ℕ
places x p = count x p.busy + count x p.ready_workers

heard-places :
    (x : ℕ) (mode : Mode) (b : Option (ℕ × Message)) (p : Pump)
    → IsFrom b p
    → places x (from_backend mode b p) ≡ places x p
unfolding from_backend
heard-places x mode none p v = refl
heard-places x twoway (some (w, reply c b)) p v =
    ground (arith, v, count-without w x p.busy, count-append x p.ready_workers (w ∷ []))
heard-places x mode (some (w, m)) p v =
    ground (arith, v, count-without w x p.busy, count-append x p.ready_workers (w ∷ []))

serve-places :
    (x : ℕ) (r : Request) (ws : List ℕ) (p q : Pump)
    → serve r ws p ≡ some q
    → places x q ≡ count x p.busy + count x ws
unfolding serve
serve-places x r [] p q e = absurd (cc)
serve-places x r (w ∷ ws) p q e = ground (arith, e)

request-places :
    (x : ℕ) (r : Option Request) (p q : Pump) → from_frontend r p ≡ some q → places x q ≡ places x p
unfolding from_frontend
request-places x none p q e = ground (arith, e)
request-places x (some r) p q e = ground (arith, e, serve-places x r p.ready_workers p q)

stop_each-places :
    (x : ℕ) (ws : List ℕ) (p : Pump) → places x (stop_each ws p).0 ≤ count x p.busy + count x ws
unfolding stop_each
stop_each-places x [] p = ground arith
stop_each-places x (w ∷ ws) p = ground (
  arith,
  stop_each-places x ws (sends (stop_to w) (record p { num_workers = p.num_workers - 1 })),
)

see_stop-places : (x : ℕ) (stop : Bool) (p : Pump) → places x (see_stop stop p) ≡ places x p
unfolding see_stop
see_stop-places x stop p = ground arith

stop_ready-places : (x : ℕ) (p : Pump) → places x (stop_ready p).0 ≤ places x p
unfolding stop_ready
stop_ready-places x p = ground (arith, stop_each-places x p.ready_workers p)

round-places :
    (x : ℕ) (mode : Mode) (i : Input) (p : Pump)
    → IsValid i p
    → IsBalanced p
    → (q : Pump) × (ended : Bool) × (round mode i p ≡ some (q, ended)) × (places x q ≤ places x p)
round-places x mode i p v h =
    let seen = see_stop i.stop p in
    let from = still-IsFrom i.backend i.stop p v in
    let told = from_backend mode i.backend seen in
    let (q, e, b) =
      from_frontend-IsBalanced i.frontend told
        (heard mode i.backend seen from (see_stop-IsBalanced i.stop p h)) in
    (
      (stop_ready q).0,
      (stop_ready q).1,
      rounded mode i p q e,
      omega (
        arith,
        stop_ready-places x q,
        request-places x i.frontend told q e,
        heard-places x mode i.backend seen from,
        see_stop-places x i.stop p,
      ),
    )

-- No worker is ever given a request while it has one, or is in the queue twice: in every state that
-- the pump comes to from workers of different numbers, each is busy once or ready once at most.
pub Reach-places :
    {mode : Mode} {workers : List ℕ} {p : Pump} (x : ℕ)
    → count x workers ≤ 1
    → Reach mode workers p
    → count x p.busy + count x p.ready_workers ≤ 1
Reach-places x h here = omega arith
Reach-places {mode} x h (next {p} {q} path i v e) =
    let (r, ended, f, b) = round-places x mode i p v (Reach-IsBalanced path) in
    omega (
      arith,
      b,
      Reach-places x h path,
      ap (places x) (ap (λ o. elim o [ some y ↦ y.0 | none ↦ q ]) (sym f ∙ e)),
    )
