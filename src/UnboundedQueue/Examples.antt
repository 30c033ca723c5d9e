-- ===== src/UnboundedQueue/Examples.antt =====
-- A queue that gets one object: a test, and an instance of the theorem.
use trio.Prelude.{mem, none, some, false, ◌∷◌, ℕ, ◌≡◌, refl, [], ◌++◌}
use trio.Exec.{raise, would_block}
use trio.Run.{checkpoint_if_cancelled}
use trio.ParkingLot.{park, unpark}
use trio.ParkingLot.Reach.{initial, initial-IsFree, start, Reach-IsSound}
use trio.UnboundedQueue.{get_batch, get_batch_protected, put_nowait, get_batch_nowait}
use trio.UnboundedQueue.Reach.{
  Log, History, begin, next, puts, gets, takes, gets_nowait, IsValid, History-in_order, put_log,
  batch_of,
}

abbrev fresh : Log ℕ
fresh = record {
  queue = record { world = initial; lot = 0; items = []; can_get = false };
  sent = [];
  received = [];
  handoff = none;
}

get_from_fresh : (get_batch_nowait fresh.queue).0 ≡ raise would_block
unfolding get_batch_nowait
get_from_fresh = refl

abbrev put_five : Log ℕ
put_five = record {
  queue = (put_nowait 5 fresh.queue).1;
  sent = put_log 5 (put_nowait 5 fresh.queue).0 [];
  received = [];
  handoff = none;
}

abbrev got_batch : Log ℕ
got_batch = record put_five {
  queue = (get_batch_nowait put_five.queue).1;
  received = [] ++ batch_of (get_batch_nowait put_five.queue).0;
}

put_and_got : History got_batch
put_and_got = next (next (begin initial 0 (Reach-IsSound start) refl) (puts 5)) gets_nowait

-- The task 7 waits, and is scheduled for the object that is put.
abbrev waiting : Log ℕ
waiting = record fresh { queue = (get_batch false 7 fresh.queue).1 }

abbrev handed_over : Log ℕ
handed_over = record {
  queue = (put_nowait 5 waiting.queue).1;
  sent = 5 ∷ [];
  received = [];
  handoff = some 7;
}

waited_and_handed : History handed_over
unfolding get_batch put_nowait checkpoint_if_cancelled park mem unpark
waited_and_handed =
    next (next (begin initial 0 (Reach-IsSound start) refl) (gets false 7 (initial-IsFree 7)))
      (puts 5)

takes_it : History (record handed_over {
  queue = (get_batch_protected handed_over.queue).1;
  received = 5 ∷ [];
  handoff = none;
})
unfolding get_batch put_nowait get_batch_protected checkpoint_if_cancelled park mem unpark
takes_it = next waited_and_handed (takes 7 refl)

History-in_order_example : IsValid handed_over
History-in_order_example = History-in_order waited_and_handed
