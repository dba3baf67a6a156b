-- ===== src/Reaper/Tests.antt =====
-- Runs of the reaper, and its theorems at concrete states.
use unity_scopes_api.Prelude.{
  ℕ, ◌+◌, ◌*◌, ◌≤◌, ◌≡◌, ◌≢◌, refl, inl, true, false, [], ◌∷◌, none, some, ok, arith, reverse,
  if◌then◌else◌,
}
use unity_scopes_api.Prelude.Int.{pos}
use unity_scopes_api.Reaper.{
  Item, Reaper, no_callback_on_destroy, callback_on_destroy, infinite, create, add, find, erase,
  refresh, cancel_mark, cancel_erase, cancel, choose_zombies, unexpired, collect, sleep_interval,
  destroy, ticks_per_second, remove_zombies, awaiting, destroy_mark, wake, begin_pass, mark_zombie,
  erase_zombie, invoke,
}
use unity_scopes_api.Reaper.Lru.{Lru, add-Lru, refresh-Lru, cancel-Lru, refresh-head}
use unity_scopes_api.Reaper.Scan.{
  IsSplit, collect-exact, sleep_interval-bounds, sleep_interval-enough,
}
use unity_scopes_api.Reaper.Steps.{
  here, next, adds, cancel_erases, destroys, wakes, begins, marks, erases, invokes,
}
use unity_scopes_api.Reaper.Occurs.{occurs, calls}
use unity_scopes_api.Reaper.Invariant.{is_expected, create-calls-once, cancel-no_callback}
use unity_scopes_api.Reaper.Destroy.{
  leaves_alone, called, destroy-calls_all, destroy-silent, destroy-loses_callbacks,
}

abbrev fresh : Reaper
fresh = record {
  reap_interval = pos 1;
  expiry_interval = pos 5;
  policy = callback_on_destroy;
  list = [];
  alive = true;
  started = true;
  finish = false;
  point = awaiting;
  reap_in_progress = false;
  zombies = [];
  doomed = none;
  calling = none;
  next_item = 0;
  cancelled = λ i. false;
  released = λ i. false;
  pending = λ i. false;
  log = [];
}

abbrev first_item : Item
first_item = record { cb = 7; timestamp = 10; reap_item = 0 }

abbrev second_item : Item
second_item = record { cb = 8; timestamp = 20; reap_item = 1 }

abbrev one : Reaper
one = record fresh { list = first_item ∷ []; next_item = 1 }

abbrev two : Reaper
two = record fresh { list = second_item ∷ first_item ∷ []; next_item = 2 }

create_run : create (pos 1) (pos 5) callback_on_destroy ≡ ok fresh
unfolding create
create_run = refl

add_run : add (some 7) 10 fresh ≡ ok (one, 0)
unfolding add
add_run = refl

add_second_run : add (some 8) 20 one ≡ ok (two, 1)
unfolding add
add_second_run = refl

-- Six seconds later both items have expired; the second is called back after the first.
abbrev late : ℕ → ℕ
late k = 6 * ticks_per_second

pass_run : (remove_zombies leaves_alone (choose_zombies late two) two).log ≡ 1 ∷ 0 ∷ []
unfolding remove_zombies choose_zombies
pass_run = refl

refresh_run : (refresh 0 30 two).list ≡ record first_item { timestamp = 30 } ∷ second_item ∷ []
unfolding refresh
refresh_run = refl

add-Lru_example : Lru 20 two.list
add-Lru_example = add-Lru (some 8) 10 20 one (two, 1) (omega arith) (omega arith) add_second_run

refresh-Lru_example : Lru 30 (refresh 0 30 two).list
refresh-Lru_example = refresh-Lru 0 20 30 two (omega arith) (omega arith)

cancel-Lru_example : Lru 20 (cancel_erase 0 (cancel_mark 0 two)).list
unfolding cancel
cancel-Lru_example = cancel-Lru 0 20 two (omega arith)

refresh-head_example :
    (refresh 0 30 two).list ≡ record first_item { timestamp = 30 } ∷ erase 0 two.list
unfolding find
refresh-head_example = refresh-head 0 30 two first_item refl refl refl

collect-exact_example :
    IsSplit (pos 5) late 0 (reverse two.list) (collect (pos 5) late 0 (reverse two.list))
collect-exact_example = collect-exact (pos 5) late 20 two.list (λ k. omega arith) (omega arith)

sleep_interval-bounds_example :
    (1 * 1000 ≤ sleep_interval 15 10 two)
    × (15 + sleep_interval 15 10 two * 1000000 ≤ 20 + (5 + 1) * ticks_per_second)
unfolding unexpired
sleep_interval-bounds_example =
    sleep_interval-bounds 15 10 two second_item 1 5 refl refl (omega arith) (omega arith) refl

sleep_interval-enough_example :
    unexpired (pos 5) (15 + sleep_interval 15 10 two * 1000000) first_item ≡ false
sleep_interval-enough_example =
    sleep_interval-enough 15 10 two first_item 1 5 refl refl refl (omega arith)

-- An item is added, and the reaper destroyed: the last pass of the reaper thread finds it.
abbrev passing_one : Reaper
passing_one = let woken = wake late (destroy_mark one) in begin_pass woken.zombies woken

abbrev called_one : Reaper
called_one = invoke (erase_zombie (mark_zombie passing_one))

called_one_run : called_one.log ≡ 0 ∷ []
unfolding invoke erase_zombie mark_zombie begin_pass wake destroy_mark
called_one_run = refl

create-calls-once_example :
    (calls 0 called_one.log ≤ 1)
    × (occurs 0 called_one.list ≡ (if is_expected 0 called_one then 1 else 0))
unfolding invoke erase_zombie mark_zombie begin_pass wake destroy_mark
create-calls-once_example =
    create-calls-once (pos 1) (pos 5) callback_on_destroy fresh called_one 0 create_run (
      next
        (next
          (next
            (next
              (next (next (next here (adds 7 10 fresh one 0 add_run)) (destroys one))
                (wakes late (destroy_mark one) refl refl))
              (begins (wake late (destroy_mark one)) refl))
            (marks passing_one refl refl refl))
          (erases (mark_zombie passing_one) refl))
        (invokes (erase_zombie (mark_zombie passing_one))))

cancel-no_callback_example : calls 0 (cancel_erase 0 (cancel_mark 0 one)).log ≡ calls 0 one.log
cancel-no_callback_example =
    cancel-no_callback (pos 1) (pos 5) callback_on_destroy fresh one
      (cancel_erase 0 (cancel_mark 0 one)) 0 create_run (next here (adds 7 10 fresh one 0 add_run))
      (omega arith) refl (next here (cancel_erases 0 (cancel_mark 0 one)))

destroy-calls_all_example :
    ((destroy leaves_alone late two).list ≡ [])
    × ((destroy leaves_alone late two).log ≡ called two.list [])
destroy-calls_all_example =
    destroy-calls_all late two refl refl (inl refl) refl refl ((refl, refl), ((refl, refl), tt))
      (((λ e. absurd (omega arith)), tt), (tt, tt))

abbrev silent : Reaper
silent = record two { policy = no_callback_on_destroy }

destroy-silent_example :
    ((destroy leaves_alone late silent).list ≡ two.list)
    × ((destroy leaves_alone late silent).log ≡ [])
destroy-silent_example = destroy-silent leaves_alone late silent refl

abbrev mixed : Reaper
mixed = record fresh { expiry_interval = infinite; started = false }

abbrev mixed_one : Reaper
mixed_one = record mixed { list = first_item ∷ []; next_item = 1 }

destroy-loses_callbacks_example :
    ((destroy leaves_alone late mixed_one).log ≡ [])
    × (mixed_one.list ≢ [])
    × ((destroy leaves_alone late mixed_one).list ≡ mixed_one.list)
unfolding create add
destroy-loses_callbacks_example =
    destroy-loses_callbacks leaves_alone late 1 7 10 0 mixed mixed_one refl refl
