-- ===== src/Semaphore/Examples.antt =====
-- A semaphore of one token with a task that waits: tests, and instances of the theorems.
use trio.Prelude.{◌≡◌, refl, false, none, some, [], ◌∷◌, inl, inr, arith, mem, pos, negsuc}
use trio.Exec.{ok, raise, value_error}
use trio.Run.{checkpoint_if_cancelled, cancel_shielded_checkpoint}
use trio.ParkingLot.{unpark, park}
use trio.ParkingLot.Reach.{initial, start, after, Reach-IsSound, initial-IsFree, parks}
use trio.Semaphore.{Semaphore, create, acquire, release}
use trio.Semaphore.Behaviour.{IsValid}
use trio.Semaphore.Reach.{Tally, History, begin, next, acquires, IsBalanced, History-IsBalanced}

abbrev fresh : Semaphore
fresh = record { world = initial; lot = 0; value = 1; max_value = some 1 }

fresh_created : create initial 0 (pos 1) (some (pos 1)) ≡ ok fresh
unfolding create
fresh_created = refl

create_negative : create initial 0 (negsuc 0) none ≡ raise value_error
unfolding create
create_negative = refl

fresh-IsValid : IsValid fresh
fresh-IsValid = record {
  sound = Reach-IsSound start;
  exclusive = inr refl;
  bounded = λ m e. ground arith;
}

-- Task 7 waits for the token that another task has.
abbrev contended : Semaphore
contended = record { world = (park 0 7 initial).1; lot = 0; value = 0; max_value = some 1 }

contended-IsValid : IsValid contended
contended-IsValid = record {
  sound = Reach-IsSound (after start (parks 0 7 (initial-IsFree 7)));
  exclusive = inl refl;
  bounded = λ m e. ground arith;
}

release_wakes : (release contended).1.world.runq ≡ 7 ∷ []
unfolding release park mem unpark
release_wakes = refl

after_acquire : Tally
after_acquire = record { semaphore = (acquire false 7 fresh).1; taken = 1; given = 0 }

history : History fresh (record { semaphore = (acquire false 7 fresh).1; taken = 1; given = 0 })
unfolding acquire checkpoint_if_cancelled cancel_shielded_checkpoint
history = next begin (acquires false 7 (initial-IsFree 7))

History-IsBalanced_example :
    IsBalanced 1 (record { semaphore = (acquire false 7 fresh).1; taken = 1; given = 0 })
History-IsBalanced_example = History-IsBalanced fresh-IsValid history
