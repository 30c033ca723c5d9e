-- ===== src/ParkingLot/Examples.antt =====
-- Two tasks in the lots of trio/_core/_parking_lot.py: tests, and instances of the theorems.
use trio.Prelude.{◌≡◌, refl, true, [], ◌∷◌, ◌⊎◌, arith, mem, remove, take, drop}
use trio.Exec.{ok}
use trio.Run.{World, attempt_abort}
use trio.ParkingLot.{set_lot, park, unpark, unpark_all, repark, abort_fn}
use trio.ParkingLot.Wakeups.{schedule_all}
use trio.ParkingLot.Invariant.{IsSound, IsFree}
use trio.ParkingLot.Steps.{unpark-eq}
use trio.ParkingLot.Repark.{Moved, IsParked, repark-Moved}
use trio.ParkingLot.Reach.{
  parks, unparks, initial, Reach, start, after, Reach-IsSound, initial-IsFree, Step-waits,
}

abbrev one_parked : World
one_parked = (park 0 7 initial).1

abbrev two_parked : World
two_parked = (park 0 8 one_parked).1

one_parked-IsFree : IsFree one_parked 8
unfolding mem park
one_parked-IsFree = record { idle = refl; apart = λ k. ground arith }

two_parked-Reach : Reach two_parked
two_parked-Reach = after (after start (parks 0 7 (initial-IsFree 7))) (parks 0 8 one_parked-IsFree)

two_parked-IsSound : IsSound two_parked
two_parked-IsSound = Reach-IsSound two_parked-Reach

two_parked_lot : two_parked.lots 0 ≡ 7 ∷ 8 ∷ []
unfolding park mem
two_parked_lot = refl

two_parked_mem : mem 8 (two_parked.lots 0) ≡ true
unfolding park mem
two_parked_mem = refl

-- A task that was moved is cancelled in the lot where it now sleeps.
cancel_after_repark : (attempt_abort abort_fn 7 (repark 0 1 1 two_parked).1).1.lots 1 ≡ []
unfolding park repark attempt_abort abort_fn mem remove
cancel_after_repark = refl

unpark_all_order : (unpark_all 0 two_parked).0 ≡ ok (7 ∷ 8 ∷ [])
unfolding park unpark_all mem
unpark_all_order = refl

repark_to_itself : (repark 0 0 1 two_parked).1.lots 0 ≡ 8 ∷ 7 ∷ []
unfolding park repark mem
repark_to_itself = refl

Reach-IsSound_example : IsSound (unpark 0 1 two_parked).1
Reach-IsSound_example = Reach-IsSound (after two_parked-Reach (unparks 0 1))

Step-waits_example :
    IsParked (unpark 0 1 two_parked).1 8 ⊎ (mem 8 (unpark 0 1 two_parked).1.runq ≡ true)
Step-waits_example = Step-waits 8 two_parked-IsSound (unparks 0 1) (0, two_parked_mem)

unpark-eq_example : unpark 0 1 two_parked ≡ (
  ok (take 1 (two_parked.lots 0)),
  schedule_all (take 1 (two_parked.lots 0)) (set_lot 0 (drop 1 (two_parked.lots 0)) two_parked),
)
unpark-eq_example = unpark-eq two_parked-IsSound 0 1

repark-Moved_example : Moved two_parked (repark 0 1 1 two_parked).1 0 1 1
repark-Moved_example = repark-Moved two_parked 0 1 1 two_parked-IsSound (omega arith)
