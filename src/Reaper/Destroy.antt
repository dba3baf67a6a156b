-- ===== src/Reaper/Destroy.antt =====
-- What Reaper::destroy does with the items that are left, and what the constructor refuses.
use unity_scopes_api.Prelude.{
  ℕ, ◌≡◌, ◌≢◌, ◌⊎◌, ◌↔◌, refl, ap, true, false, List, [], ◌∷◌, none, some, ok, err,
  invalid_argument, logic_error, arith, All,
}
use unity_scopes_api.Prelude.Int.{ℤ, pos, ◌≤ℤ◌}
use unity_scopes_api.Reaper.{
  Item, Reaper, DestroyPolicy, no_callback_on_destroy, callback_on_destroy, infinite, create, start,
  add, update, erase, choose_zombies, is_callback, begin_pass, skip_or_mark, mark_zombie,
  erase_zombie, invoke, end_pass, reap_each, remove_zombies, reap_round, end_round, destroy_mark,
  destroy,
}

-- A new reaper with finite intervals needs 1 ≤ reap ≤ expiry; one with a -1 is not checked.
pub create_errors :
    (reap expiry : ℤ) (p : DestroyPolicy)
    → reap ≢ infinite
    → expiry ≢ infinite
    → ((create reap expiry p ≡ err invalid_argument) ↔ (reap ≤ℤ pos 0))
      × ((create reap expiry p ≡ err logic_error) ↔ ((pos 1 ≤ℤ reap) × ¬ (reap ≤ℤ expiry)))
unfolding create
create_errors reap expiry p h k = ground arith

-- An application whose callbacks do not use the reaper.
abbrev pub leaves_alone : ℕ → Reaper → Reaper
leaves_alone cb r = r

abbrev pub IsLive : Reaper → List Item → Type 0
IsLive r = All (λ z. (r.released z.reap_item ≡ false) × (r.cancelled z.reap_item ≡ false))

abbrev pub IsDistinct : List Item → Type 0
IsDistinct [] = Unit {0}
IsDistinct (z ∷ zs) = All (λ y. y.reap_item ≢ z.reap_item) zs × IsDistinct zs

-- The log after the callbacks of `zs`, in that order.
abbrev pub called : List Item → List ℕ → List ℕ
called [] log = log
called (z ∷ zs) log = called zs (z.reap_item ∷ log)

-- The reaper after one zombie at the head of the list.
reaped : Item → List Item → Reaper → Reaper
reaped z zs r = record r {
  zombies = zs;
  list = zs;
  cancelled = update r.cancelled z.reap_item true;
  doomed = none;
  calling = none;
  log = z.reap_item ∷ r.log;
}

IsLive-reaped :
    (z : Item) (zs ys : List Item) (r : Reaper)
    → IsLive r ys
    → All (λ y. y.reap_item ≢ z.reap_item) ys
    → IsLive (reaped z zs r) ys
unfolding reaped
IsLive-reaped z zs [] r l d = tt
IsLive-reaped z zs (y ∷ ys) r l d =
    ((l.0.0, ground (arith, l.0, d.0)), IsLive-reaped z zs ys r l.1 d.1)

module _ (r : Reaper) (z : Item) (zs : List Item) (left : r.zombies ≡ z ∷ zs)
    (listed : r.list ≡ z ∷ zs)
    (live : (r.released z.reap_item ≡ false) × (r.cancelled z.reap_item ≡ false))
    (none_calling : r.calling ≡ none) where
  mark_head :
      mark_zombie r
      ≡ record r { zombies = zs; cancelled = update r.cancelled z.reap_item true; doomed = some z }
  unfolding mark_zombie skip_or_mark
  mark_head = ground arith

  reap_head : invoke (erase_zombie (mark_zombie r)) ≡ reaped z zs r
  unfolding erase_zombie invoke erase reaped
  reap_head = rw mark_head (ground arith)

reap_each-all :
    (zs : List Item) (r : Reaper)
    → r.zombies ≡ zs
    → r.list ≡ zs
    → r.doomed ≡ none
    → r.calling ≡ none
    → IsLive r zs
    → IsDistinct zs
    → ((reap_each leaves_alone zs r).list ≡ [])
      × ((reap_each leaves_alone zs r).log ≡ called zs r.log)
unfolding reap_each reaped
reap_each-all [] r left listed d c live distinct = (listed, refl)
reap_each-all (z ∷ zs) r left listed d c live distinct =
    let rest =
      reap_each-all zs (reaped z zs r) refl refl refl refl
        (IsLive-reaped z zs zs r live.1 distinct.0) distinct.1 in
    let one = reap_head r z zs left listed live.0 c in
    let marked = mark_head r z zs left listed live.0 c in
    rw (reap_each, ap (λ (q : Reaper). q.doomed) marked) (rw one rest)

choose_zombies-final :
    (tick : ℕ → ℕ) (r : Reaper)
    → r.finish ≡ true
    → r.policy ≡ callback_on_destroy
    → choose_zombies tick r ≡ r.list
unfolding choose_zombies is_callback
choose_zombies-final tick r f p = ground arith

reap_round-final :
    (tick : ℕ → ℕ) (r : Reaper)
    → r.finish ≡ true
    → r.policy ≡ callback_on_destroy
    → r.doomed ≡ none
    → r.calling ≡ none
    → IsLive r r.list
    → IsDistinct r.list
    → ((reap_round leaves_alone tick r).list ≡ [])
      × ((reap_round leaves_alone tick r).log ≡ called r.list r.log)
unfolding reap_round remove_zombies begin_pass end_pass end_round is_callback
reap_round-final tick r f p d c live distinct =
    let pass = reap_each-all r.list (begin_pass r.list r) refl refl d c live distinct in
    ground (arith, choose_zombies-final tick r f p, pass)

-- destroy() on a waiting reaper with CallbackOnDestroy, whose thread runs or whose reap interval is
-- infinite: every item that is left is called back once, youngest first, and the list is empty.
pub destroy-calls_all :
    (tick : ℕ → ℕ) (r : Reaper)
    → r.finish ≡ false
    → r.policy ≡ callback_on_destroy
    → (r.started ≡ true) ⊎ (r.reap_interval ≡ infinite)
    → r.doomed ≡ none
    → r.calling ≡ none
    → IsLive r r.list
    → IsDistinct r.list
    → ((destroy leaves_alone tick r).list ≡ [])
      × ((destroy leaves_alone tick r).log ≡ called r.list r.log)
unfolding destroy destroy_mark is_callback start
destroy-calls_all tick r f p w d c live distinct =
    let woken : Reaper = record r { started = true; finish = true } in
    let last = reap_round-final tick woken refl p d c live distinct in ground (arith, last)

-- With NoCallbackOnDestroy it makes no callback and leaves the list as it was.
pub destroy-silent :
    (app : ℕ → Reaper → Reaper) (tick : ℕ → ℕ) (r : Reaper)
    → r.policy ≡ no_callback_on_destroy
    → ((destroy app tick r).list ≡ r.list) × ((destroy app tick r).log ≡ r.log)
unfolding destroy destroy_mark start is_callback reap_round
destroy-silent app tick r p = ground arith

-- A reaper with a finite reap interval and the expiry interval -1 has no thread, and destroy()
-- starts none: items that were added lose their callback in spite of CallbackOnDestroy.
pub destroy-loses_callbacks :
    (app : ℕ → Reaper → Reaper) (tick : ℕ → ℕ) (n cb now i : ℕ) (r s : Reaper)
    → create (pos n) infinite callback_on_destroy ≡ ok r
    → add (some cb) now r ≡ ok (s, i)
    → ((destroy app tick s).log ≡ []) × (s.list ≢ []) × ((destroy app tick s).list ≡ s.list)
unfolding destroy destroy_mark create add
destroy-loses_callbacks app tick n cb now i r s e f = ground arith
