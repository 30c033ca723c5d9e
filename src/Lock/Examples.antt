-- ===== src/Lock/Examples.antt =====
-- A lock that task 1 holds and task 2 waits for: tests, and instances of the theorems.
use trio.Prelude.{◌≡◌, refl, none, some, [], ◌∷◌, arith, mem}
use trio.Exec.{raise, runtime_error}
use trio.ParkingLot.{unpark, park}
use trio.ParkingLot.Reach.{initial, start, after, Reach-IsSound, initial-IsFree, parks}
use trio.Lock.{Lock, create, acquire_nowait, release}
use trio.Lock.Behaviour.{IsValid, queue, handed_over, release-handed_over}
use trio.Lock.Reach.{History, begin, next, acquires_nowait, IsExclusive, History-IsExclusive}

abbrev fresh : Lock
fresh = record { world = initial; lot = 0; owner = none }

fresh_created : create initial 0 ≡ fresh
unfolding create
fresh_created = refl

fresh-IsValid : IsValid fresh
fresh-IsValid = record { sound = Reach-IsSound start; no_idle = λ _. refl; owner_runs = λ t e. cc }

abbrev contended : Lock
contended = record { world = (park 0 2 initial).1; lot = 0; owner = some 1 }

contended-IsValid : IsValid contended
unfolding mem park
contended-IsValid = record {
  sound = Reach-IsSound (after start (parks 0 2 (initial-IsFree 2)));
  no_idle = λ e. cc;
  owner_runs = λ t e. ground arith;
}

release_by_other : (release 2 contended).0 ≡ raise runtime_error
unfolding release
release_by_other = refl

release_hands_over : (release 1 contended).1.owner ≡ some 2
unfolding release park mem unpark
release_hands_over = refl

release-handed_over_example : release 1 contended ≡ handed_over contended (queue contended)
release-handed_over_example = release-handed_over 1 contended contended-IsValid

history : History fresh (record { lock = (acquire_nowait 1 fresh).1; holders = 1 ∷ [] })
unfolding acquire_nowait
history = next (begin refl) (acquires_nowait 1 (initial-IsFree 1))

History-IsExclusive_example :
    IsExclusive (record { lock = (acquire_nowait 1 fresh).1; holders = 1 ∷ [] })
History-IsExclusive_example = History-IsExclusive fresh-IsValid history
