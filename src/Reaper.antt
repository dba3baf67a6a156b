-- ===== src/Reaper.antt =====
-- The reaper of idle objects: src/scopes/internal/Reaper.cpp and its header.
-- Operations on a list of items in LRU order, head first. A list iterator is stood for by the
-- number of the ReapItem that its node points back to. Time is counted in ticks of the steady
-- clock, given to each operation. A critical section is one function; a method with several
-- sections is their composition, and Reaper/Steps interleaves them.
pub mod Lru
pub mod Scan
pub mod Steps
pub mod Occurs
pub mod Invariant
pub mod Destroy
mod Tests
use unity_scopes_api.Prelude.{
  ℕ, suc, ◌+◌, ◌-◌, ◌*◌, ◌/◌, Bool, true, false, ◌&&◌, ◌||◌, not, List, [], ◌∷◌, ◌++◌, reverse,
  Option, none, some, Result, ok, err, invalid_argument, logic_error, ◌>>=◌, ◌>>◌, throw_if, ltb,
  leb, ◌==◌, if◌then◌else◌, is_empty,
}
use unity_scopes_api.Prelude.Int.{ℤ, pos, negsuc, pos_part, neg_part, ltb_ℤ, eqb_ℤ}

pub data DestroyPolicy : Type 0 where
  no_callback_on_destroy callback_on_destroy : DestroyPolicy

-- Where reap_func is: in its wait, past its scan with the lock released, in remove_zombies, past
-- it, or returned.
pub data ReapPoint : Type 0 where
  awaiting chose_zombies passing passed returned : ReapPoint

-- `reap_item` names the ReapItem; `cb` names the application's callback.
pub record Item : Type 0 where
  pub cb : ℕ
  pub timestamp : ℕ
  pub reap_item : ℕ

-- `cancelled` is the flag of each ReapItem; `released` says that its last shared_ptr is gone;
-- `pending` that a cancel() has set the flag and not yet erased the node; `doomed` is the zombie
-- that the pass has marked and not yet erased, `calling` the one that it has erased and not yet
-- called back; `log` holds the callbacks made, the latest first. `zombies` is the list local to
-- reap_func, `point` the reaper thread's place.
pub record Reaper : Type 0 where
  pub reap_interval : ℤ
  pub expiry_interval : ℤ
  pub policy : DestroyPolicy
  pub list : List Item
  pub alive : Bool
  pub started : Bool
  pub finish : Bool
  pub point : ReapPoint
  pub reap_in_progress : Bool
  pub zombies : List Item
  pub doomed : Option Item
  pub calling : Option Item
  pub next_item : ℕ
  pub cancelled : ℕ → Bool
  pub released : ℕ → Bool
  pub pending : ℕ → Bool
  pub log : List ℕ

abbrev infinite : ℤ
infinite = negsuc 0

-- The constructor: both intervals finite are checked, a -1 is not.
unfoldable pub construct : ℤ → ℤ → DestroyPolicy → Result Reaper
construct reap expiry p = do
  throw_if (finite && ltb_ℤ reap (pos 1)) invalid_argument
  throw_if (finite && ltb_ℤ expiry reap) logic_error
  ok (record {
    reap_interval = reap;
    expiry_interval = expiry;
    policy = p;
    list = [];
    alive = true;
    started = false;
    finish = false;
    point = awaiting;
    reap_in_progress = false;
    zombies = [];
    doomed = none;
    calling = none;
    next_item = 0;
    cancelled = λ i. false;
    released = λ i. false;
    pending = λ i. false;
    log = [];
  })
  where
    finite : Bool
    finite = not (eqb_ℤ reap infinite) && not (eqb_ℤ expiry infinite)

unfoldable pub start : Reaper → Reaper
start r = record r { started = true }

unfoldable pub create : ℤ → ℤ → DestroyPolicy → Result Reaper
unfolding construct start
create reap expiry p = do
  r ← construct reap expiry p
  ok (if not (eqb_ℤ reap infinite) && not (eqb_ℤ expiry infinite) then start r else r)

abbrev pub update : (ℕ → Bool) → ℕ → Bool → ℕ → Bool
update f i b j = if j == i then b else f j

-- list_.erase(it_) for the node of a ReapItem.
pub erase : ℕ → List Item → List Item
erase i [] = []
erase i (x ∷ xs) = if x.reap_item == i then xs else x ∷ erase i xs

pub find : ℕ → List Item → Option Item
find i [] = none
find i (x ∷ xs) = if x.reap_item == i then some x else find i xs

-- Reaper::add, with the number of the new ReapItem; `none` is a null callback.
unfoldable pub add : Option ℕ → ℕ → Reaper → Result (Reaper × ℕ)
add none now r = err invalid_argument
add (some cb) now r = do
  throw_if r.finish logic_error
  ok (
    record r {
      list = record { cb = cb; timestamp = now; reap_item = r.next_item } ∷ r.list;
      next_item = suc r.next_item;
    },
    r.next_item,
  )

-- The node goes to the head under the new time stamp.
pub move_to_front : ℕ → ℕ → List Item → List Item
unfolding find erase
move_to_front i now xs = elim (find i xs) [
  | none ↦ xs
  | some x ↦ record x { timestamp = now } ∷ erase i xs
]

-- ReapItem::refresh.
unfoldable pub refresh : ℕ → ℕ → Reaper → Reaper
unfolding move_to_front
refresh i now r =
    if r.alive
    then (if r.cancelled i then r else record r { list = move_to_front i now r.list })
    else record r { cancelled = update r.cancelled i true }

-- The first critical section of ReapItem::cancel, after its wait.
unfoldable pub cancel_mark : ℕ → Reaper → Reaper
cancel_mark i r =
    if r.cancelled i
    then r
    else record r { cancelled = update r.cancelled i true; pending = update r.pending i r.alive }

-- The second one, which a cancel() reaches only if it set the flag.
unfoldable pub cancel_erase : ℕ → Reaper → Reaper
unfolding erase
cancel_erase i r =
    if r.pending i
    then record r { list = erase i r.list; pending = update r.pending i false }
    else r

-- ReapItem::cancel with nothing in between.
unfoldable pub cancel : ℕ → Reaper → Reaper
unfolding cancel_mark cancel_erase
cancel i r = cancel_erase i (cancel_mark i r)

-- The last shared_ptr of a ReapItem goes away; ~ReapItem then calls cancel.
unfoldable pub release : ℕ → Reaper → Reaper
release i r = record r { released = update r.released i true }

abbrev pub ticks_per_second : ℕ
ticks_per_second = 1000000000

-- `now < it->timestamp + expiry_interval_`.
pub unexpired : ℤ → ℕ → Item → Bool
unexpired expiry now x =
    ltb (now + neg_part expiry * ticks_per_second)
      (x.timestamp + pos_part expiry * ticks_per_second)

-- The scan of reap_func, from the tail; `tick` gives the readings of the clock in turn.
pub collect : ℤ → (ℕ → ℕ) → ℕ → List Item → List Item
collect expiry tick k [] = []
collect expiry tick k (x ∷ xs) =
    let rest = x ∷ collect expiry tick (suc k) xs in
    if unexpired expiry (tick k) x then [] else rest

is_callback : DestroyPolicy → Bool
is_callback no_callback_on_destroy = false
is_callback callback_on_destroy = true

-- The zombies of one round of reap_func.
unfoldable pub choose_zombies : (ℕ → ℕ) → Reaper → List Item
unfolding collect unexpired is_callback
choose_zombies tick r =
    if r.finish && is_callback r.policy
    then r.list
    else if not (eqb_ℤ r.reap_interval infinite)
    then collect r.expiry_interval tick 0 (reverse r.list)
    else []

-- The section of reap_func after its wait: it returns, or chooses the zombies and unlocks.
unfoldable pub wake : (ℕ → ℕ) → Reaper → Reaper
unfolding choose_zombies is_callback
wake tick r =
    if r.finish && not (is_callback r.policy)
    then record r { point = returned }
    else record r { zombies = choose_zombies tick r; point = chose_zombies }

-- remove_zombies, section by section: the pass begins, each zombie is marked unless its ReapItem
-- is gone or cancelled, erased and called back, and the pass ends.
unfoldable pub begin_pass : List Item → Reaper → Reaper
begin_pass zs r = record r { reap_in_progress = true; zombies = zs; point = passing }

skip_or_mark : Item → List Item → Reaper → Reaper
skip_or_mark z zs r =
    if r.released z.reap_item || r.cancelled z.reap_item
    then record r { zombies = zs }
    else record r { zombies = zs; cancelled = update r.cancelled z.reap_item true; doomed = some z }

unfoldable pub mark_zombie : Reaper → Reaper
unfolding skip_or_mark
mark_zombie r = elim r.zombies [ [] ↦ r | z ∷ zs ↦ skip_or_mark z zs r ]

unfoldable pub erase_zombie : Reaper → Reaper
unfolding erase
erase_zombie r = elim r.doomed [
  | none ↦ r
  | some z ↦ record r { list = erase z.reap_item r.list; doomed = none; calling = some z }
]

unfoldable pub invoke : Reaper → Reaper
invoke r = elim r.calling [
  | none ↦ r
  | some z ↦ record r { calling = none; log = z.reap_item ∷ r.log }
]

unfoldable pub end_pass : Reaper → Reaper
end_pass r = record r { reap_in_progress = false; point = passed }

-- The end of a round of reap_func, with the lock taken again.
unfoldable pub end_round : Reaper → Reaper
end_round r = record r { point = if r.finish then returned else awaiting }

-- The loop of remove_zombies with no other thread in between; a callback that was made may itself
-- use the reaper, as `app` says.
reap_each : (ℕ → Reaper → Reaper) → List Item → Reaper → Reaper
unfolding mark_zombie erase_zombie invoke
reap_each app [] r = r
reap_each app (z ∷ zs) r =
    let marked = mark_zombie r in
    reap_each app zs
      (elim marked.doomed [ none ↦ marked | some x ↦ app x.cb (invoke (erase_zombie marked)) ])

unfoldable pub remove_zombies : (ℕ → Reaper → Reaper) → List Item → Reaper → Reaper
unfolding reap_each begin_pass end_pass
remove_zombies app zs r = end_pass (reap_each app zs (begin_pass zs r))

-- The time that reap_func sleeps while the list is not empty, in milliseconds; `oldest` is the
-- time stamp of the last item, and both intervals are finite where it is used.
unfoldable pub sleep_interval : ℕ → ℕ → Reaper → ℕ
sleep_interval now oldest r =
    let left = pos_part r.expiry_interval * 1000 - (now - oldest) / 1000000 in
    let least = pos_part r.reap_interval * 1000 in if ltb left least then least else left

-- A round of reap_func after its wait.
unfoldable pub reap_round : (ℕ → Reaper → Reaper) → (ℕ → ℕ) → Reaper → Reaper
unfolding remove_zombies choose_zombies end_round
reap_round app tick r =
    if r.finish && not (is_callback r.policy)
    then record r { point = returned }
    else end_round (remove_zombies app (choose_zombies tick r) r)

-- The critical section of Reaper::destroy.
unfoldable pub destroy_mark : Reaper → Reaper
unfolding start is_callback
destroy_mark r = if r.finish then r else record (started_if_needed r) { finish = true }
  where
    started_if_needed : Reaper → Reaper
    started_if_needed q =
        if eqb_ℤ q.reap_interval infinite && (not (is_empty q.list) && is_callback q.policy)
        then start q
        else q

-- Reaper::destroy, called while the reaper thread waits: the join lets it make its last round.
unfoldable pub destroy : (ℕ → Reaper → Reaper) → (ℕ → ℕ) → Reaper → Reaper
unfolding destroy_mark reap_round
destroy app tick r =
    if r.finish
    then r
    else let woken = destroy_mark r in if woken.started then reap_round app tick woken else woken
