-- ===== src/Reaper/Steps.antt =====
-- The reaper as a transition system. Application threads, the thread that destroys the reaper and
-- the reaper thread take turns by critical sections, in any order that the locks, the waits and the
-- place of the reaper thread allow. The wait of reap_func may end at any time, as its timed wait can;
-- for an empty list this lets it make rounds that find nothing. The last reference to the reaper
-- outlives the steps.
use unity_scopes_api.Prelude.{ℕ, ◌<◌, ◌≡◌, true, false, [], none, some, ok}
use unity_scopes_api.Reaper.{
  Reaper, awaiting, chose_zombies, passed, add, refresh, cancel_mark, cancel_erase, release, wake,
  begin_pass, mark_zombie, erase_zombie, invoke, end_pass, end_round, destroy_mark,
}

pub data Step : Reaper → Reaper → Type 0 where
  adds : (cb now : ℕ) (r s : Reaper) (i : ℕ) → add (some cb) now r ≡ ok (s, i) → Step r s
  refreshes : (i now : ℕ) (r : Reaper) → i < r.next_item → Step r (refresh i now r)
  -- cancel() on a thread of the application waits until no pass is in progress.
  cancel_marks :
      (i : ℕ) (r : Reaper) → i < r.next_item → r.reap_in_progress ≡ false → Step r (cancel_mark i r)
  -- On the reaper thread, within a callback, it does not wait.
  cancel_marks_in_callback :
      (i : ℕ) (r : Reaper)
      → i < r.next_item
      → r.reap_in_progress ≡ true
      → r.doomed ≡ none
      → r.calling ≡ none
      → Step r (cancel_mark i r)
  cancel_erases : (i : ℕ) (r : Reaper) → Step r (cancel_erase i r)
  releases : (i : ℕ) (r : Reaper) → i < r.next_item → Step r (release i r)
  destroys : (r : Reaper) → Step r (destroy_mark r)
  wakes : (tick : ℕ → ℕ) (r : Reaper) → r.started ≡ true → r.point ≡ awaiting → Step r (wake tick r)
  begins : (r : Reaper) → r.point ≡ chose_zombies → Step r (begin_pass r.zombies r)
  marks :
      (r : Reaper)
      → r.reap_in_progress ≡ true
      → r.doomed ≡ none
      → r.calling ≡ none
      → Step r (mark_zombie r)
  erases : (r : Reaper) → r.calling ≡ none → Step r (erase_zombie r)
  invokes : (r : Reaper) → Step r (invoke r)
  ends :
      (r : Reaper)
      → r.reap_in_progress ≡ true
      → r.zombies ≡ []
      → r.doomed ≡ none
      → r.calling ≡ none
      → Step r (end_pass r)
  rests : (r : Reaper) → r.point ≡ passed → Step r (end_round r)

-- The states that follow `r`.
pub data Reach (r : Reaper) : Reaper → Type 0 where
  here : Reach r r
  next : {s t : Reaper} → Reach r s → Step s t → Reach r t
