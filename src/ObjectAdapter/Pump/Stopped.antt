-- ===== src/ObjectAdapter/Pump/Stopped.antt =====
-- The pump ends once it has seen the stop, after one message of each busy worker.
use unity_scopes_api.Prelude.{
  ◌≡◌, ◌⊎◌, inl, inr, Bool-cases, refl, sym, subst, ap, ◌∙◌, ℕ, ◌-◌, ◌≤◌, ◌==◌, Bool, true, false,
  List, [], ◌∷◌, Option, none, some, length, arith,
}
use unity_scopes_api.ObjectAdapter.Pump.{
  Mode, twoway, Message, reply, Request, Input, stop_to, Pump, without, sends, forward, see_stop,
  from_backend, serve, from_frontend, stop_each, stop_ready, round,
}
use unity_scopes_api.ObjectAdapter.Pump.{rounds}
use unity_scopes_api.ObjectAdapter.Pump.Balance.{
  count, IsValid, Reach, here, next, still-IsFrom, rounded, Reach-IsBalanced,
  from_frontend-IsBalanced, heard, see_stop-IsBalanced, IsBalanced, length-without,
}

-- The pump has seen the stop, has no ready worker, and waits for some busy one.
record IsStopping (p : Pump) : Type 0 where
  stopped : p.shutting_down ≡ true
  none_ready : p.ready_workers ≡ []
  unpolled : p.polls_frontend ≡ false
  counted : length p.busy ≡ p.num_workers

-- A message of each busy worker, in the order in which they come.
abbrev pub Drains : List Input → List ℕ → Type 0
Drains [] busy = busy ≡ []
Drains (i ∷ is) busy =
    (w : ℕ) × (m : Message) × (i.backend ≡ some (w, m))
    × (1 ≤ count w busy)
    × Drains is (without w busy)

-- What one message does to a pump that stops: the last one ends it.
drained : Mode → ℕ → Message → Pump → Pump
drained mode w m p =
    sends (stop_to w)
      (record (forward mode m (record p { busy = without w p.busy; ready_workers = w ∷ [] })) {
        num_workers = p.num_workers - 1;
        ready_workers = [];
      })

-- The stages of a round, each on a pump that stops.
told-drained :
    (mode : Mode) (w : ℕ) (m : Message) (p : Pump)
    → IsStopping p
    → stop_ready (from_backend mode (some (w, m)) p) ≡ (drained mode w m p, p.num_workers - 1 == 0)
unfolding from_backend stop_ready drained
told-drained twoway w (reply c b) p h = ground (arith, h)
told-drained mode w m p h = ground (arith, h)

unread :
    (mode : Mode) (r : Option Request) (w : ℕ) (m : Message) (p : Pump)
    → IsStopping p
    → from_frontend r (from_backend mode (some (w, m)) p) ≡ some (from_backend mode (some (w, m)) p)
unfolding from_backend from_frontend
unread mode none w m p h = refl
unread twoway (some r) w (reply c b) p h = ground (arith, h)
unread mode (some r) w m p h = ground (arith, h)

drained-IsStopping :
    (mode : Mode) (w : ℕ) (m : Message) (p : Pump)
    → IsStopping p
    → 1 ≤ count w p.busy
    → IsStopping (drained mode w m p) × ((drained mode w m p).busy ≡ without w p.busy)
unfolding drained
drained-IsStopping twoway w (reply c b) p h v = ground (arith, h, length-without w p.busy)
drained-IsStopping mode w m p h v = ground (arith, h, length-without w p.busy)

seen_before : (stop : Bool) (p : Pump) → IsStopping p → see_stop stop p ≡ p
unfolding see_stop
seen_before stop p h = ground (arith, h)

stopping-round :
    (mode : Mode) (w : ℕ) (m : Message) (i : Input) (p : Pump)
    → IsStopping p
    → i.backend ≡ some (w, m)
    → round mode i p ≡ some (drained mode w m p, p.num_workers - 1 == 0)
stopping-round mode w m i p h e =
    rounded mode i p (from_backend mode (some (w, m)) p)
      (rw (seen_before i.stop p h, e) (unread mode i.frontend w m p h))
    ∙ ap some (told-drained mode w m p h)

nil_of_zero : (ws : List ℕ) → length ws ≡ 0 → ws ≡ []
nil_of_zero [] e = refl
nil_of_zero (w ∷ ws) e = absurd (omega arith)

ends_now :
    (mode : Mode) (i : Input) (is : List Input) (p q : Pump)
    → round mode i p ≡ some (q, true)
    → rounds mode (i ∷ is) p ≡ some (q, true)
unfolding rounds
ends_now mode i is p q e = rw (e, rounds) refl

goes_on :
    (mode : Mode) (i : Input) (is : List Input) (p q : Pump)
    → round mode i p ≡ some (q, false)
    → rounds mode (i ∷ is) p ≡ rounds mode is q
unfolding rounds
goes_on mode i is p q e = rw (e, rounds) refl

stopping-ends :
    (mode : Mode) (is : List Input) (p : Pump)
    → IsStopping p
    → 1 ≤ p.num_workers
    → Drains is p.busy
    → (q : Pump) × (rounds mode is p ≡ some (q, true)) × (q.busy ≡ [])
stopping-ends mode [] p h k d = absurd (ground (arith, h, d))
stopping-ends mode (i ∷ is) p h k (w, m, e, v, d) =
    let q = drained mode w m p in
    let (stops, less) = drained-IsStopping mode w m p h v in
    elim (Bool-cases (p.num_workers - 1 == 0)) [
      | inl last ↦ (
        q,
        ends_now mode i is p q (stopping-round mode w m i p h e ∙ ap (λ b. some (q, b)) last),
        nil_of_zero q.busy (ground (arith, stops, h, less, last, length-without w p.busy)),
      )
      | inr more ↦
          let (r, f, g) =
            stopping-ends mode is q stops
              (ground (arith, stops, h, less, more, length-without w p.busy))
              (subst (Drains is) (sym less) d) in
          (
            r,
            goes_on mode i is p q (stopping-round mode w m i p h e ∙ ap (λ b. some (q, b)) more)
                ∙ f,
            g,
          )
    ]

-- Between two rounds some worker is left, and a pump that has seen the stop has none that is ready.
record IsBetween (p : Pump) : Type 0 where
  left : 1 ≤ p.num_workers
  told : (p.shutting_down ≡ false) ⊎ (p.ready_workers ≡ [])

stop_each-IsBetween :
    (ws : List ℕ) (p : Pump)
    → 1 ≤ p.num_workers
    → ((stop_each ws p).1 ≡ true) ⊎ IsBetween (stop_each ws p).0
unfolding stop_each
stop_each-IsBetween [] p h = inr (record { left = h; told = inr refl })
stop_each-IsBetween (w ∷ ws) p h = elim (Bool-cases (p.num_workers - 1 == 0)) [
  | inl last ↦ inl (rw last refl)
  | inr more ↦ rw more (
      stop_each-IsBetween ws (sends (stop_to w) (record p { num_workers = p.num_workers - 1 }))
        (ground (arith, more)))
]

stop_ready-IsBetween :
    (p : Pump) → 1 ≤ p.num_workers → ((stop_ready p).1 ≡ true) ⊎ IsBetween (stop_ready p).0
unfolding stop_ready
stop_ready-IsBetween p h = ground (arith, h, stop_each-IsBetween p.ready_workers p h)

heard-num_workers :
    (mode : Mode) (b : Option (ℕ × Message)) (p : Pump)
    → (from_backend mode b p).num_workers ≡ p.num_workers
unfolding from_backend
heard-num_workers mode none p = refl
heard-num_workers twoway (some (w, reply c b)) p = refl
heard-num_workers mode (some (w, m)) p = ground arith

served-num_workers :
    (r : Request) (ws : List ℕ) (p q : Pump) → serve r ws p ≡ some q → q.num_workers ≡ p.num_workers
unfolding serve
served-num_workers r [] p q e = absurd (cc)
served-num_workers r (w ∷ ws) p q e = ground (arith, e)

read-num_workers :
    (r : Option Request) (p q : Pump) → from_frontend r p ≡ some q → q.num_workers ≡ p.num_workers
unfolding from_frontend
read-num_workers none p q e = ground (arith, e)
read-num_workers (some r) p q e = ground (arith, e, served-num_workers r p.ready_workers p q)

seen-num_workers : (stop : Bool) (p : Pump) → (see_stop stop p).num_workers ≡ p.num_workers
unfolding see_stop
seen-num_workers stop p = ground arith

round-IsBetween :
    (mode : Mode) (i : Input) (p q : Pump)
    → IsValid i p
    → IsBalanced p
    → 1 ≤ p.num_workers
    → round mode i p ≡ some (q, false)
    → IsBetween q
round-IsBetween mode i p q v h k e =
    let seen = see_stop i.stop p in
    let told = from_backend mode i.backend seen in
    let (r, f, b) = from_frontend-IsBalanced i.frontend told (
      heard mode i.backend seen (still-IsFrom i.backend i.stop p v)
        (see_stop-IsBalanced i.stop p h)) in
    let same : some (stop_ready r) ≡ some (q, false) = sym (rounded mode i p r f) ∙ e in
    elim (stop_ready-IsBetween r (
      omega (
        arith,
        read-num_workers i.frontend told r f,
        heard-num_workers mode i.backend seen,
        seen-num_workers i.stop p,
      ))) [
        | inl ended ↦ absurd (ground (arith, ended, same))
        | inr between ↦ subst IsBetween (ap (λ o. elim o [ some x ↦ x.0 | none ↦ q ]) same) between
      ]

Reach-IsBetween :
    {mode : Mode} {workers : List ℕ} {p : Pump}
    → 1 ≤ length workers
    → Reach mode workers p
    → IsBetween p
Reach-IsBetween k here = record { left = k; told = inl refl }
Reach-IsBetween {mode} k (next {p} {q} path i v e) =
    round-IsBetween mode i p q v (Reach-IsBalanced path) (Reach-IsBetween k path).left e

between-IsStopping : (p : Pump) → IsBalanced p → IsBetween p → p.shutting_down ≡ true → IsStopping p
between-IsStopping p b h e = ground (arith, b, h)

-- Once the pump has seen the stop, it returns as soon as each busy worker has sent one message, in
-- whatever order, and whatever requests still arrive; then no worker is busy.
pub Reach-ends :
    {mode : Mode} {workers : List ℕ} {p : Pump} (path : Reach mode workers p) (is : List Input)
    → 1 ≤ length workers
    → p.shutting_down ≡ true
    → Drains is p.busy
    → (q : Pump) × (rounds mode is p ≡ some (q, true)) × (q.busy ≡ [])
Reach-ends {mode} {workers} {p} path is k e d =
    let between = Reach-IsBetween k path in
    stopping-ends mode is p (between-IsStopping p (Reach-IsBalanced path) between e) between.left d
