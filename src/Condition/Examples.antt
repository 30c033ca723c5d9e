-- ===== src/Condition/Examples.antt =====
-- A condition whose lock task 1 holds while task 2 waits: tests, and instances of the theorems.
use trio.Prelude.{◌≡◌, refl, true, some, [], ◌∷◌, arith, mem}
use trio.Exec.{raise, runtime_error}
use trio.ParkingLot.{park}
use trio.ParkingLot.Invariant.{IsFree}
use trio.ParkingLot.Reach.{initial, start, after, Reach-IsSound, initial-IsFree, parks}
use trio.Lock.Behaviour.{queue}
use trio.Condition.{Condition, release, notify}
use trio.Condition.Behaviour.{IsValid, waiters}
use trio.Condition.Handoff.{notify-release}

-- Lot 0 is the lock's, lot 1 the condition's.
abbrev waiting : Condition
waiting = record {
  lock = record { world = (park 1 2 initial).1; lot = 0; owner = some 1 };
  lot = 1;
}

waiting-IsFree : IsFree waiting.lock.world 1
unfolding mem park
waiting-IsFree = record { idle = refl; apart = λ k. ground arith }

waiting-IsValid : IsValid waiting
unfolding mem park
waiting-IsValid = record {
  lock_valid = record {
    sound = Reach-IsSound (after start (parks 1 2 (initial-IsFree 2)));
    no_idle = λ e. cc;
    owner_runs = λ t e. refl;
  };
  apart = omega arith;
  owner_runs = λ t e. ground arith;
}

notify_by_other : (notify 1 2 waiting).0 ≡ raise runtime_error
unfolding notify
notify_by_other = refl

waiting_queue : queue waiting.lock ≡ []
unfolding park
waiting_queue = refl

waiting-waiters : waiters waiting ≡ 2 ∷ []
unfolding park mem
waiting-waiters = refl

notify-release_example :
    let s' = (release 1 (notify 1 1 waiting).1).1 in
    (s'.lock.owner ≡ some 2)
    × (s'.lock.world.scheduled 2 ≡ true)
    × (waiters s' ≡ [])
    × (queue s'.lock ≡ [])
notify-release_example =
    notify-release 1 2 [] waiting waiting-IsValid refl waiting_queue waiting-waiters
