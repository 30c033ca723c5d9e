-- ===== src/Nursery/Examples.antt =====
-- Runs of the nurseries of trio/_core/_run.py: the task 0 opens nurseries and the task 7 is spawned.
use trio.Prelude.{ℕ, ◌≡◌, refl, true, false, none, [], ◌∷◌, mem}
use trio.Exec.{runtime_error, ok, raise}
use trio.ParkingLot.Reach.{initial}
use trio.Nursery.{
  Nursery, Nurseries, create, open_nursery, spawn_impl, task_exited, nested_child_finished, start,
  started, start_finished, combined, single, multi_error,
}
use trio.Nursery.Invariant.{IsValid}
use trio.Nursery.History.{
  IsInitial, History, begin, next, opens, spawns, leaves_block, nurseries-IsValid,
  nurseries-no_orphans,
}

abbrev unopened : Nursery
unopened = record (create 0) { nested_child_running = false; closed = true }

abbrev nobody : Nurseries
nobody = record {
  world = initial;
  nurseries = λ n. unopened;
  parent_nursery = λ t. 0;
  tasks = [];
  called_started = λ n. false;
}

nobody-IsInitial : IsInitial nobody
nobody-IsInitial = record { no_tasks = refl; unopened = λ n. (refl, refl, refl, refl, refl, refl) }

-- The nursery 1 is opened, gets the child 7, and its parent waits.
abbrev with_child : Nurseries
with_child = (spawn_impl 1 7 (open_nursery 1 0 nobody).1).1

abbrev waiting : Nurseries
waiting = (nested_child_finished 1 none with_child).1

history : History nobody waiting
unfolding mem open_nursery
history =
    next (next (next (begin nobody-IsInitial) (opens 1 0 refl)) (spawns 1 7 refl))
      (leaves_block 1 none)

parent_waits : (waiting.nurseries 1).parent_waiting_in_aexit ≡ true
unfolding spawn_impl open_nursery nested_child_finished mem
parent_waits = refl

nurseries-IsValid_example : IsValid waiting
nurseries-IsValid_example = nurseries-IsValid history

is_live : mem 7 waiting.tasks ≡ true
unfolding spawn_impl open_nursery nested_child_finished mem
is_live = refl

parent_of_7 : waiting.parent_nursery 7 ≡ 1
unfolding spawn_impl open_nursery nested_child_finished mem
parent_of_7 = refl

nurseries-no_orphans_example :
    (n : ℕ) × (mem 7 (waiting.nurseries n).children ≡ true)
    × ((waiting.nurseries n).closed ≡ false)
    × ((m : ℕ) → mem 7 (waiting.nurseries m).children ≡ true → m ≡ n)
nurseries-no_orphans_example = nurseries-no_orphans history 7 is_live

wakes_parent : (task_exited 7 (ok tt) 0 waiting).1.world.scheduled 0 ≡ true
unfolding spawn_impl open_nursery nested_child_finished task_exited mem
wakes_parent = refl

closed_to_new_arrivals : (spawn_impl 2 8 nobody).0 ≡ raise runtime_error
unfolding spawn_impl mem
closed_to_new_arrivals = refl

-- The child 9 is started through the nursery 5, and handed over to the nursery 1.
abbrev starting : Nurseries
starting = (start 1 5 0 9 waiting).1

hands_over :
    (((started false 5 1 starting).1.nurseries 1).children ≡ 7 ∷ 9 ∷ [])
    × ((started false 5 1 starting).1.parent_nursery 9 ≡ 1)
unfolding spawn_impl open_nursery nested_child_finished start started mem
hands_over = (refl, refl)

started_twice : (started false 5 1 (started false 5 1 starting).1).0 ≡ raise runtime_error
unfolding spawn_impl open_nursery nested_child_finished start started mem
started_twice = refl

never_started : (start_finished 1 5 (ok tt) starting).0 ≡ raise runtime_error
unfolding spawn_impl open_nursery nested_child_finished start start_finished mem
never_started = refl

combines : (combined false (4 ∷ []) ≡ single 4) × (combined true (4 ∷ []) ≡ multi_error (4 ∷ []))
unfolding combined
combines = (refl, refl)
