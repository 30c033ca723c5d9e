-- ===== src/Event/Examples.antt =====
-- Task 3 waits for an event, which is then set: a test, and instances of the theorems.
use trio.Prelude.{◌≡◌, refl, ◌∷◌, [], false, mem, insert_last}
use trio.Run.{wait_task_rescheduled}
use trio.ParkingLot.Reach.{initial}
use trio.Event.{Event, set, wait}

abbrev fresh : Event
fresh = record { world = initial; tasks = []; flag = false }

abbrev one_waits : Event
one_waits = (wait 3 fresh).1

set_wakes : (set one_waits).1.world.runq ≡ 3 ∷ []
unfolding set wait insert_last mem wait_task_rescheduled
set_wakes = refl
