-- ===== src/Cancellation/Client.antt =====
-- The client's handle of a query, whose proxy may come after the query was cancelled.
use unity_scopes_api.Prelude.{
  ◌≡◌, ◌⊎◌, refl, ℕ, suc, ◌+◌, ◌≤◌, Bool, true, false, List, [], ◌∷◌, All, arith, if◌then◌else◌,
}
use unity_scopes_api.Prelude.Threads
use unity_scopes_api.Prelude.Threads.{total, run-keeps}

-- `asked` counts the calls of cancel() past their lock, `forwarded` those of the query's own cancel(),
-- `finished` the completions sent to the reply object, and `failures` the exceptions that cancel()
-- caught, of either call. `null_used` says that a call was made through a null reply proxy.
pub record Shared : Type 0 where
  pub has_reply : Bool
  pub ready : Bool
  pub cancelled : Bool
  pub asked : ℕ
  pub forwarded : ℕ
  pub failures : ℕ
  pub finished : ℕ
  pub null_used : Bool

-- From the proxies of the query and of the reply object, which may be null.
abbrev pub new_ctrl : Bool → Bool → Shared
new_ctrl has_proxy has_reply = record {
  has_reply = has_reply;
  ready = has_proxy;
  cancelled = false;
  asked = 0;
  forwarded = 0;
  failures = 0;
  finished = 0;
  null_used = false;
}

pub data Call : Type 0 where
  -- cancel(): before its lock, before it forwards, and before the completion is sent.
  cancel_called cancel_forwarding cancel_finishing : Call
  -- set_proxy(): before its lock, and before it calls cancel().
  set_called set_cancelling : Call
  done : Call

abbrev cancel_at : Shared → Call × Shared
cancel_at s = if s.ready then (cancel_forwarding, s) else (done, record s { cancelled = true })

-- The choice is whether the call that the thread makes returns, and does not throw.
unfoldable pub step : Bool → Call → Shared → Call × Shared
step b cancel_called s = cancel_at (record s { asked = suc s.asked })
step true cancel_forwarding s = (cancel_finishing, record s { forwarded = suc s.forwarded })
step false cancel_forwarding s =
    (done, record s { forwarded = suc s.forwarded; failures = suc s.failures })
step b cancel_finishing s =
    if s.has_reply
    then (
      done,
      if b then record s { finished = suc s.finished } else record s { failures = suc s.failures },
    )
    else (done, record s { null_used = true })
step b set_called s =
    if s.has_reply
    then (if s.cancelled then set_cancelling else done, record s { ready = true })
    else (done, s)
step b set_cancelling s = cancel_at s
step b done s = (done, s)

abbrev pub run : List (ℕ × Bool) → List Call → Shared → List Call × Shared
run = Threads.run step

-- One for a call that has still to forward a cancellation, or to send its completion.
abbrev pub forwarding : Call → ℕ
forwarding cancel_forwarding = 1
forwarding set_cancelling = 1
forwarding c = 0

abbrev pub finishing : Call → ℕ
finishing cancel_finishing = 1
finishing c = 0

abbrev again : Call → ℕ
again set_cancelling = 1
again c = 0

record IsKept (s : Shared) (l m n : ℕ) : Type 0 where
  unasked : (1 ≤ s.asked) ⊎ (s.cancelled ≡ false)
  kept : (s.asked ≡ 0) ⊎ ((1 ≤ s.forwarded + l) ⊎ ((s.cancelled ≡ true) × (s.ready ≡ false)))
  proxied : (n ≡ 0) ⊎ (s.ready ≡ true)
  forwardable : (l ≡ 0) ⊎ (s.ready ≡ true)
  reportable : (m ≡ 0) ⊎ (s.ready ≡ true)
  replying : (s.ready ≡ false) ⊎ (s.has_reply ≡ true)
  unused : s.null_used ≡ false
  sent : s.forwarded ≡ s.finished + s.failures + m

step-IsKept :
    (b : Bool) (c : Call) (s : Shared) (l m n : ℕ)
    → IsKept s (forwarding c + l) (finishing c + m) (again c + n)
    → IsKept
        (step b c s).1
        (forwarding (step b c s).0 + l)
        (finishing (step b c s).0 + m)
        (again (step b c s).0 + n)
unfolding step
step-IsKept b c s l m n h = ground (arith, h)

abbrev pub IsStart : Call → Type 0
IsStart cancel_called = Unit {0}
IsStart set_called = Unit {0}
IsStart c = ⊥

start-total :
    (calls : List Call)
    → All IsStart calls
    → (total forwarding calls ≡ 0) × (total finishing calls ≡ 0) × (total again calls ≡ 0)
start-total [] h = (refl, refl, refl)
start-total (c ∷ cs) h = ground (arith, h.0, start-total cs h.1)

-- No cancellation is lost: in every interleaving of calls of cancel() and set_proxy() on a handle
-- that has no query proxy at first, or has a reply proxy, and whichever calls throw: the reply proxy
-- is never used while it is null, and if some cancel() was called, before or after the query has its
-- proxy, and no call is under way, then the cancellation was forwarded to the query or the query has
-- no proxy yet; and for each that was forwarded, either the reply object was told that the query is
-- finished, or one of the two calls threw an exception that was caught.
pub run-cancels :
    (schedule : List (ℕ × Bool)) (calls : List Call) (has_proxy has_reply : Bool)
    → (has_proxy ≡ false) ⊎ (has_reply ≡ true)
    → All IsStart calls
    → total forwarding (run schedule calls (new_ctrl has_proxy has_reply)).0 ≡ 0
    → total finishing (run schedule calls (new_ctrl has_proxy has_reply)).0 ≡ 0
    → 1 ≤ (run schedule calls (new_ctrl has_proxy has_reply)).1.asked
    → ((1 ≤ (run schedule calls (new_ctrl has_proxy has_reply)).1.forwarded)
        ⊎ ((run schedule calls (new_ctrl has_proxy has_reply)).1.ready ≡ false))
      × ((run schedule calls (new_ctrl has_proxy has_reply)).1.null_used ≡ false)
      × ((run schedule calls (new_ctrl has_proxy has_reply)).1.forwarded
          ≡ (run schedule calls (new_ctrl has_proxy has_reply)).1.finished
            + (run schedule calls (new_ctrl has_proxy has_reply)).1.failures)
run-cancels schedule calls has_proxy has_reply p h f g a =
    let s = new_ctrl has_proxy has_reply in
    ground (
      arith,
      f,
      g,
      a,
      run-keeps step forwarding finishing again IsKept step-IsKept schedule calls s
          (ground (arith, p, start-total calls h)),
    )
