-- ===== src/ObjectAdapter/Pump.antt =====
-- The pump of an object adapter, which hands the requests of clients to its workers: the loop of
-- ObjectAdapter::pump. A round takes what the poller reports as its input; texts are what the frames
-- hold. The sockets are not modelled, but for what is sent to them.
pub mod Balance
pub mod Answers
pub mod Places
pub mod Stopped
use unity_scopes_api.Prelude.{
  ℕ, zero, suc, ◌+◌, ◌-◌, ◌==◌, Bool, true, false, ◌&&◌, not, List, [], ◌∷◌, ◌++◌, Option, none,
  some, Text, length, if◌then◌else◌,
}

pub data Mode : Type 0 where
  twoway oneway : Mode

-- A worker asks for its first request, or has done one: the client's address and the reply.
pub data Message : Type 0 where
  ready : Message
  reply : Text → Text → Message

pub record Request : Type 0 where
  pub client : Text
  pub payload : Text

pub record Input : Type 0 where
  pub stop : Bool
  pub backend : Option (ℕ × Message)
  pub frontend : Option Request

pub data Sent : Type 0 where
  to_client : Text → Text → Sent
  to_worker : ℕ → Request → Sent
  stop_to : ℕ → Sent

-- `busy` are the workers that were created or given a request and have not answered since.
pub record Pump : Type 0 where
  pub ready_workers : List ℕ
  pub busy : List ℕ
  pub shutting_down : Bool
  pub polls_frontend : Bool
  pub num_workers : ℕ
  pub sent : List Sent

abbrev pub without : ℕ → List ℕ → List ℕ
without w [] = []
without w (v ∷ vs) = let rest = without w vs in if v == w then vs else v ∷ rest

abbrev sends : Sent → Pump → Pump
sends m p = record p { sent = p.sent ++ m ∷ [] }

unfoldable pub see_stop : Bool → Pump → Pump
see_stop stop p =
    if not p.shutting_down && stop
    then record p { polls_frontend = false; shutting_down = true }
    else p

abbrev forward : Mode → Message → Pump → Pump
forward twoway (reply client body) p = sends (to_client client body) p
forward mode m p = p

unfoldable pub from_backend : Mode → Option (ℕ × Message) → Pump → Pump
from_backend mode none p = p
from_backend mode (some (w, m)) p = forward mode m (record p {
  ready_workers = p.ready_workers ++ w ∷ [];
  busy = without w p.busy;
  polls_frontend =
      if not p.shutting_down && length (p.ready_workers ++ w ∷ []) == 1
      then true
      else p.polls_frontend;
})

abbrev is_nil : List ℕ → Bool
is_nil [] = true
is_nil (w ∷ ws) = false

-- `none` is front() of an empty queue.
unfoldable pub serve : Request → List ℕ → Pump → Option Pump
serve r [] p = none
serve r (w ∷ ws) p = some (
    sends (to_worker w r) (record p {
      ready_workers = ws;
      busy = w ∷ p.busy;
      polls_frontend = if is_nil ws then false else p.polls_frontend;
    }))

unfoldable pub from_frontend : Option Request → Pump → Option Pump
unfolding serve
from_frontend none p = some p
from_frontend (some r) p =
    if not p.shutting_down && p.polls_frontend then serve r p.ready_workers p else some p

-- The loop over the ready workers, and whether the pump returns from it.
unfoldable pub stop_each : List ℕ → Pump → Pump × Bool
stop_each [] p = (record p { ready_workers = [] }, false)
stop_each (w ∷ ws) p =
    let q = sends (stop_to w) (record p { num_workers = p.num_workers - 1 }) in
    let rest = stop_each ws q in
    if q.num_workers == 0 then (record q { ready_workers = ws }, true) else rest

unfoldable pub stop_ready : Pump → Pump × Bool
unfolding stop_each
stop_ready p = if p.shutting_down then stop_each p.ready_workers p else (p, false)

-- One round of the loop.
unfoldable pub round : Mode → Input → Pump → Option (Pump × Bool)
unfolding see_stop from_backend from_frontend stop_ready
round mode i p = elim (from_frontend i.frontend (from_backend mode i.backend (see_stop i.stop p))) [
  | none ↦ none
  | some q ↦ some (stop_ready q)
]

-- Round after round, until the pump returns or the inputs end.
unfoldable pub rounds : Mode → List Input → Pump → Option (Pump × Bool)
unfolding round
rounds mode [] p = some (p, false)
rounds mode (i ∷ is) p = elim (round mode i p) [
  | none ↦ none
  | some (q, true) ↦ some (q, true)
  | some (q, false) ↦ rounds mode is q
]

abbrev pub new_pump : List ℕ → Pump
new_pump workers = record {
  ready_workers = [];
  busy = workers;
  shutting_down = false;
  polls_frontend = false;
  num_workers = length workers;
  sent = [];
}
