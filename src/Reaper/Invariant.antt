-- ===== src/Reaper/Invariant.antt =====
-- What holds of every item in every interleaving, and what follows for cancel().
use unity_scopes_api.Prelude.{
  ℕ, ◌+◌, ◌≤◌, ◌<◌, ◌≡◌, refl, Bool, true, false, ◌&&◌, ◌||◌, not, none, some, ok, ltb, arith,
  if◌then◌else◌, Option-cases, inl, inr,
}
use unity_scopes_api.Prelude.Int.{ℤ}
use unity_scopes_api.Reaper.{
  Reaper, DestroyPolicy, create, add, refresh, cancel_mark, cancel_erase, release, wake, begin_pass,
  skip_or_mark, mark_zombie, erase_zombie, invoke, end_pass, end_round, destroy_mark, start,
}
use unity_scopes_api.Reaper.Steps.{
  Step, adds, refreshes, cancel_marks, cancel_marks_in_callback, cancel_erases, releases, destroys,
  wakes, begins, marks, erases, invokes, ends, rests, Reach, here, next,
}
use unity_scopes_api.Reaper.Occurs.{
  occurs, holds, calls, occurs-erase, occurs-move_to_front, occurs-choose_zombies,
}

-- The callbacks of an item that were made or can no longer be stopped.
abbrev pub made : ℕ → Reaper → ℕ
made i r = calls i r.log + holds i r.doomed + holds i r.calling

-- A node is on the list while its ReapItem is not cancelled, or its erasure is still to come.
abbrev pub is_expected : ℕ → Reaper → Bool
is_expected i r =
    ltb i r.next_item && (not (r.cancelled i) || (r.pending i || ltb 0 (holds i r.doomed)))

pub record Inv (i : ℕ) (r : Reaper) : Type 0 where
  pub alive : r.alive ≡ true
  pub fresh_flag : r.next_item ≤ i → r.cancelled i ≡ false
  pub fresh_zombie : r.next_item ≤ i → occurs i r.zombies ≡ 0
  pub unmade : r.cancelled i ≡ false → made i r ≡ 0
  pub once : made i r ≤ 1
  pub pending_cancelled : r.pending i ≡ true → r.cancelled i ≡ true
  pub exclusive : r.pending i ≡ true → holds i r.doomed ≡ 0
  pub listed : occurs i r.list ≡ (if is_expected i r then 1 else 0)
  pub idle : r.reap_in_progress ≡ false → (r.doomed ≡ none) × (r.calling ≡ none)

cancel_mark-Inv : (i j : ℕ) (r : Reaper) → j < r.next_item → Inv i r → Inv i (cancel_mark j r)
unfolding cancel_mark
cancel_mark-Inv i j r h v = ground arith

cancel_erase-Inv : (i j : ℕ) (r : Reaper) → Inv i r → Inv i (cancel_erase j r)
unfolding cancel_erase
cancel_erase-Inv i j r v = ground (arith, occurs-erase i j r.list)

refresh-Inv : (i j now : ℕ) (r : Reaper) → Inv i r → Inv i (refresh j now r)
unfolding refresh
refresh-Inv i j now r v = ground (arith, occurs-move_to_front i j now r.list)

add-Inv : (i cb now j : ℕ) (r s : Reaper) → add (some cb) now r ≡ ok (s, j) → Inv i r → Inv i s
unfolding add
add-Inv i cb now j r s e v = ground arith

wake-Inv : (i : ℕ) (tick : ℕ → ℕ) (r : Reaper) → Inv i r → Inv i (wake tick r)
unfolding wake
wake-Inv i tick r v = ground (arith, occurs-choose_zombies i tick r)

begin_pass-Inv : (i : ℕ) (r : Reaper) → Inv i r → Inv i (begin_pass r.zombies r)
unfolding begin_pass
begin_pass-Inv i r v = ground arith

destroy_mark-Inv : (i : ℕ) (r : Reaper) → Inv i r → Inv i (destroy_mark r)
unfolding destroy_mark start
destroy_mark-Inv i r v = ground arith

mark_zombie-Inv :
    (i : ℕ) (r : Reaper)
    → r.reap_in_progress ≡ true
    → r.doomed ≡ none
    → r.calling ≡ none
    → Inv i r
    → Inv i (mark_zombie r)
unfolding mark_zombie skip_or_mark
mark_zombie-Inv i r p d c v = ground arith

erase_zombie-Inv : (i : ℕ) (r : Reaper) → r.calling ≡ none → Inv i r → Inv i (erase_zombie r)
unfolding erase_zombie
erase_zombie-Inv i r c v = elim (Option-cases r.doomed) [
  | inl e ↦ rw (erase_zombie, e) v
  | inr (z, e) ↦ rw (erase_zombie, e) (ground (arith, occurs-erase i z.reap_item r.list))
]

invoke-Inv : (i : ℕ) (r : Reaper) → Inv i r → Inv i (invoke r)
unfolding invoke
invoke-Inv i r v = ground arith

Step-Inv : (i : ℕ) {r s : Reaper} → Step r s → Inv i r → Inv i s
unfolding release end_pass end_round
Step-Inv i (adds cb now r s j e) v = add-Inv i cb now j r s e v
Step-Inv i (refreshes j now r h) v = refresh-Inv i j now r v
Step-Inv i (cancel_marks j r h k) v = cancel_mark-Inv i j r h v
Step-Inv i (cancel_marks_in_callback j r h p d c) v = cancel_mark-Inv i j r h v
Step-Inv i (cancel_erases j r) v = cancel_erase-Inv i j r v
Step-Inv i (releases j r h) v = ground arith
Step-Inv i (destroys r) v = destroy_mark-Inv i r v
Step-Inv i (wakes tick r k h) v = wake-Inv i tick r v
Step-Inv i (begins r h) v = begin_pass-Inv i r v
Step-Inv i (marks r p d c) v = mark_zombie-Inv i r p d c v
Step-Inv i (erases r c) v = erase_zombie-Inv i r c v
Step-Inv i (invokes r) v = invoke-Inv i r v
Step-Inv i (ends r p z d c) v = ground arith
Step-Inv i (rests r h) v = ground arith

Reach-Inv : (i : ℕ) {r s : Reaper} → Inv i r → Reach r s → Inv i s
Reach-Inv i v here = v
Reach-Inv i v (next p st) = Step-Inv i st (Reach-Inv i v p)

create-Inv :
    (i : ℕ) (reap expiry : ℤ) (p : DestroyPolicy) (r : Reaper)
    → create reap expiry p ≡ ok r
    → Inv i r
unfolding create
create-Inv i reap expiry p r e = ground arith

-- In every state that threads and the reaper can reach from a new reaper, an item has had its
-- callback at most once, and its node is on the list exactly once while its ReapItem is neither
-- cancelled nor to be erased, and otherwise not at all.
pub create-calls-once :
    (reap expiry : ℤ) (p : DestroyPolicy) (r s : Reaper) (i : ℕ)
    → create reap expiry p ≡ ok r
    → Reach r s
    → (calls i s.log ≤ 1) × (occurs i s.list ≡ (if is_expected i s then 1 else 0))
create-calls-once reap expiry p r s i e path =
    let v = Reach-Inv i (create-Inv i reap expiry p r e) path in (ground (arith, v.once), v.listed)

-- A step leaves a cancelled item cancelled, and makes no callback of it that was not already due.
Step-cancelled :
    (i : ℕ) {r s : Reaper}
    → Step r s
    → r.alive ≡ true
    → r.cancelled i ≡ true
    → (s.cancelled i ≡ true) × (made i s ≡ made i r)
unfolding add refresh cancel_mark cancel_erase release destroy_mark start wake begin_pass
    mark_zombie skip_or_mark erase_zombie invoke end_pass end_round
Step-cancelled i (adds cb now r s j e) a h = ground arith
Step-cancelled i (refreshes j now r k) a h = ground arith
Step-cancelled i (cancel_marks j r k l) a h = ground arith
Step-cancelled i (cancel_marks_in_callback j r k p d c) a h = ground arith
Step-cancelled i (cancel_erases j r) a h = ground arith
Step-cancelled i (releases j r k) a h = ground arith
Step-cancelled i (destroys r) a h = ground arith
Step-cancelled i (wakes tick r k l) a h = ground arith
Step-cancelled i (begins r k) a h = ground arith
Step-cancelled i (marks r p d c) a h = ground arith
Step-cancelled i (erases r c) a h = ground arith
Step-cancelled i (invokes r) a h = ground arith
Step-cancelled i (ends r p z d c) a h = ground arith
Step-cancelled i (rests r k) a h = ground arith

Reach-cancelled :
    (i : ℕ) {r s : Reaper}
    → Reach r s
    → Inv i r
    → r.cancelled i ≡ true
    → (s.cancelled i ≡ true) × (made i s ≡ made i r)
Reach-cancelled i here v h = (h, refl)
Reach-cancelled i (next p st) v h =
    let before = Reach-cancelled i p v h in
    let after = Step-cancelled i st (Reach-Inv i v p).alive before.0 in
    ground (arith, before, after)

cancel_mark-cancelled :
    (i : ℕ) (r : Reaper)
    → ((cancel_mark i r).cancelled i ≡ true)
      × ((cancel_mark i r).log ≡ r.log)
      × ((cancel_mark i r).doomed ≡ r.doomed)
      × ((cancel_mark i r).calling ≡ r.calling)
unfolding cancel_mark
cancel_mark-cancelled i r = ground arith

Step-log : (i : ℕ) {r s : Reaper} → Step r s → calls i r.log ≤ calls i s.log
unfolding add refresh cancel_mark cancel_erase release destroy_mark start wake begin_pass
    mark_zombie skip_or_mark erase_zombie invoke end_pass end_round
Step-log i (adds cb now r s j e) = ground arith
Step-log i (refreshes j now r k) = ground arith
Step-log i (marks r p d c) = ground arith
Step-log i (erases r c) = ground arith
Step-log i st = ground arith

Reach-log : (i : ℕ) {r s : Reaper} → Reach r s → calls i r.log ≤ calls i s.log
Reach-log i here = omega arith
Reach-log i (next p st) = omega (arith, Reach-log i p, Step-log i st)

-- In any interleaving from a new reaper: once cancel() of an application thread has got past its
-- wait for the pass in progress and set the flag, the item's callback is never made again, however
-- the threads and the reaper go on.
pub cancel-no_callback :
    (reap expiry : ℤ) (p : DestroyPolicy) (r s t : Reaper) (i : ℕ)
    → create reap expiry p ≡ ok r
    → Reach r s
    → i < s.next_item
    → s.reap_in_progress ≡ false
    → Reach (cancel_mark i s) t
    → calls i t.log ≡ calls i s.log
cancel-no_callback reap expiry p r s t i e path h quiet later =
    let v = Reach-Inv i (create-Inv i reap expiry p r e) path in
    let w = cancel_mark-Inv i i s h v in
    let flag = cancel_mark-cancelled i s in
    let same = Reach-cancelled i later w flag.0 in
    let idle = v.idle quiet in ground (arith, flag, same, idle, Reach-log i later)
