-- ===== src/ObjectAdapter/Pump/Answers.antt =====
-- What the pump sends to the clients: each reply of a worker, to the client that it names.
use unity_scopes_api.Prelude.{
  ◌≡◌, ◌⊎◌, refl, sym, ap, ◌∙◌, ℕ, ◌+◌, ◌-◌, Bool, false, List, [], ◌∷◌, ◌++◌, append-nil, Option,
  none, some, Text, length, arith,
}
use unity_scopes_api.ObjectAdapter.Pump.{
  Mode, twoway, oneway, Message, ready, reply, Request, Input, Sent, to_client, to_worker, stop_to,
  Pump, sends, see_stop, from_backend, serve, from_frontend, stop_each, stop_ready, round,
}
use unity_scopes_api.ObjectAdapter.Pump.Balance.{
  IsValid, Reach, here, next, still-IsFrom, rounded, Reach-IsBalanced, from_frontend-IsBalanced,
  heard, see_stop-IsBalanced, IsBalanced, stop_ready-IsBalanced,
}

-- The clients and their replies among what was sent.
abbrev pub to_clients : List Sent → List (Text × Text)
to_clients [] = []
to_clients (to_client client body ∷ ms) = (client, body) ∷ to_clients ms
to_clients (to_worker w r ∷ ms) = to_clients ms
to_clients (stop_to w ∷ ms) = to_clients ms

-- What a client is to get after a worker's message.
abbrev pub answer : Mode → Option (ℕ × Message) → List (Text × Text)
answer twoway (some (w, reply client body)) = (client, body) ∷ []
answer mode b = []

to_clients-append : (ms ns : List Sent) → to_clients (ms ++ ns) ≡ to_clients ms ++ to_clients ns
to_clients-append [] ns = refl
to_clients-append (to_client c b ∷ ms) ns = ap (λ l. (c, b) ∷ l) (to_clients-append ms ns)
to_clients-append (to_worker w r ∷ ms) ns = to_clients-append ms ns
to_clients-append (stop_to w ∷ ms) ns = to_clients-append ms ns

no_client :
    (ms : List Sent) (m : Sent)
    → to_clients (m ∷ []) ≡ []
    → to_clients (ms ++ m ∷ []) ≡ to_clients ms
no_client ms m e =
    to_clients-append ms (m ∷ []) ∙ ap (λ l. to_clients ms ++ l) e ∙ append-nil (to_clients ms)

heard-answers :
    (mode : Mode) (b : Option (ℕ × Message)) (p : Pump)
    → to_clients (from_backend mode b p).sent ≡ to_clients p.sent ++ answer mode b
unfolding from_backend
heard-answers twoway none p = sym (append-nil (to_clients p.sent))
heard-answers oneway none p = sym (append-nil (to_clients p.sent))
heard-answers twoway (some (w, reply c b)) p = to_clients-append p.sent (to_client c b ∷ [])
heard-answers twoway (some (w, ready)) p = sym (append-nil (to_clients p.sent))
heard-answers oneway (some (w, m)) p = sym (append-nil (to_clients p.sent))

serve-answers :
    (r : Request) (ws : List ℕ) (p q : Pump)
    → serve r ws p ≡ some q
    → to_clients q.sent ≡ to_clients p.sent
unfolding serve
serve-answers r [] p q e = absurd (cc)
serve-answers r (w ∷ ws) p q e = ground (arith, e, no_client p.sent (to_worker w r) refl)

request-answers :
    (r : Option Request) (p q : Pump)
    → from_frontend r p ≡ some q
    → to_clients q.sent ≡ to_clients p.sent
unfolding from_frontend
request-answers none p q e = ground (arith, e)
request-answers (some r) p q e = ground (arith, e, serve-answers r p.ready_workers p q)

stop_each-answers :
    (ws : List ℕ) (p : Pump) → to_clients (stop_each ws p).0.sent ≡ to_clients p.sent
unfolding stop_each
stop_each-answers [] p = refl
stop_each-answers (w ∷ ws) p = ground (
  arith,
  stop_each-answers ws (sends (stop_to w) (record p { num_workers = p.num_workers - 1 })),
  no_client p.sent (stop_to w) refl,
)

see_stop-sent : (stop : Bool) (p : Pump) → (see_stop stop p).sent ≡ p.sent
unfolding see_stop
see_stop-sent stop p = ground arith

stop_ready-answers : (p : Pump) → to_clients (stop_ready p).0.sent ≡ to_clients p.sent
unfolding stop_ready
stop_ready-answers p = ground (arith, stop_each-answers p.ready_workers p)

-- What a round comes to.
abbrev Comes : Mode → Input → Pump → Pump → Bool → Type 0
Comes mode i p q ended =
    (to_clients q.sent ≡ to_clients p.sent ++ answer mode i.backend)
    × (length q.busy + length q.ready_workers ≡ q.num_workers)
    × ((ended ≡ false) ⊎ (length q.busy ≡ 0))

round-answers :
    (mode : Mode) (i : Input) (p : Pump)
    → IsValid i p
    → IsBalanced p
    → (q : Pump) × (ended : Bool) × (round mode i p ≡ some (q, ended)) × Comes mode i p q ended
round-answers mode i p v h =
    let seen = see_stop i.stop p in
    let from = still-IsFrom i.backend i.stop p v in
    let told = from_backend mode i.backend seen in
    let (q, e, b) =
      from_frontend-IsBalanced i.frontend told
        (heard mode i.backend seen from (see_stop-IsBalanced i.stop p h)) in
    let (balanced, ends) = stop_ready-IsBalanced q b in
    (
      (stop_ready q).0,
      (stop_ready q).1,
      rounded mode i p q e,
      (
        stop_ready-answers q
            ∙ request-answers i.frontend told q e
            ∙ heard-answers mode i.backend seen
            ∙ ap (λ ms. to_clients ms ++ answer mode i.backend) (see_stop-sent i.stop p),
        balanced.counted,
        ends,
      ),
    )

-- The replies that workers have sent on the way to a state, in the order of the rounds.
abbrev pub replies :
    {mode : Mode} {workers : List ℕ} {p : Pump} → Reach mode workers p → List (Text × Text)
replies here = []
replies {mode} (next path i v e) = replies path ++ answer mode i.backend

Reach-replies :
    {mode : Mode} {workers : List ℕ} {p : Pump} (path : Reach mode workers p)
    → to_clients p.sent ≡ replies path
Reach-replies here = refl
Reach-replies {mode} (next {p} {q} path i v e) =
    let (r, ended, f, came) = round-answers mode i p v (Reach-IsBalanced path) in
    let same : r ≡ q = ap (λ o. elim o [ some y ↦ y.0 | none ↦ q ]) (sym f ∙ e) in
    ap (λ (x : Pump). to_clients x.sent) (sym same)
    ∙ came.0
    ∙ ap (λ l. l ++ answer mode i.backend) (Reach-replies path)

-- In every state that the pump comes to, a round with a valid input takes no worker from an empty
-- queue, every worker is ready or busy after it, and it ends the pump only if no worker is busy. What
-- was sent to clients so far is exactly what the workers have replied since the pump began, each
-- reply once, in order and to the client that it names, if the mode is twoway, and nothing if it is
-- oneway.
pub Reach-answers :
    {mode : Mode} {workers : List ℕ} {p : Pump} (path : Reach mode workers p) (i : Input)
    → IsValid i p
    → (q : Pump) × (ended : Bool) × (round mode i p ≡ some (q, ended))
      × (to_clients q.sent ≡ replies path ++ answer mode i.backend)
      × (length q.busy + length q.ready_workers ≡ q.num_workers)
      × ((ended ≡ false) ⊎ (length q.busy ≡ 0))
Reach-answers {mode} {workers} {p} path i v =
    let (q, ended, e, came) = round-answers mode i p v (Reach-IsBalanced path) in
    (
      q,
      ended,
      e,
      came.0 ∙ ap (λ l. l ++ answer mode i.backend) (Reach-replies path),
      came.1,
      came.2,
    )
