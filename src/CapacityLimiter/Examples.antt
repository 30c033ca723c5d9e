-- ===== src/CapacityLimiter/Examples.antt =====
-- Limiters of one and of two tokens: tests, and instances of the theorems.
use trio.Prelude.{
  ℕ, ◌≡◌, refl, ◌++◌, ◌∷◌, [], false, none, some, inl, arith, mem, insert_last, update, negsuc,
}
use trio.Exec.{ok, raise, value_error, runtime_error}
use trio.Run.{Task}
use trio.ParkingLot.{park}
use trio.ParkingLot.Invariant.{IsFree, IsSound}
use trio.ParkingLot.Reach.{initial, start, after, Reach-IsSound, initial-IsFree, parks}
use trio.CapacityLimiter.{
  CapacityLimiter, finite, create, wake_waiters, acquire_on_behalf_of, release_on_behalf_of,
  release,
}
use trio.CapacityLimiter.Wakeups.{claims}
use trio.CapacityLimiter.Invariant.{queue}
use trio.CapacityLimiter.Calls.{IsValid}
use trio.CapacityLimiter.Reach.{
  History, begin, next, acquires, releases, History-IsValid, shared_borrower,
}

abbrev fresh : CapacityLimiter
fresh = record {
  world = initial;
  lot = 0;
  borrowers = [];
  pending_borrowers = λ _. none;
  total_tokens = finite 1;
}

create_negative : (create initial 0 (some (negsuc 3))).0 ≡ raise value_error
unfolding create
create_negative = refl

release_unheld : (release 4 fresh).0 ≡ raise runtime_error
unfolding release mem
release_unheld = refl

no_task : (t : Task) → mem t [] ≡ false
unfolding mem
no_task t = refl

fresh-IsValid : IsValid 1 fresh
fresh-IsValid = record {
  proper = record {
    sound = Reach-IsSound start;
    claimed = λ t h. ground (arith, no_task t);
    distinct = tt;
  };
  fair = inl refl;
  within = ground arith;
  capped = refl;
}

new_borrower : (b : ℕ) → mem b (claims fresh.pending_borrowers (queue fresh)) ≡ false
unfolding mem
new_borrower b = refl

-- Task 2 takes the token for borrower 7, which then gives it back.
taken_and_given :
    History 1 fresh (release_on_behalf_of 7 (acquire_on_behalf_of false 2 7 fresh).1).1
taken_and_given =
    next (next begin (acquires false 2 7 (new_borrower 7) (initial-IsFree 2))) (releases 7)

History-IsValid_example :
    IsValid 1 (release_on_behalf_of 7 (acquire_on_behalf_of false 2 7 fresh).1).1
History-IsValid_example = History-IsValid fresh-IsValid taken_and_given

-- Tasks 1 and 2 wait on behalf of borrower 9, and there are two tokens.
abbrev shared : CapacityLimiter
shared = record {
  world = (park 0 2 (park 0 1 initial).1).1;
  lot = 0;
  borrowers = [];
  pending_borrowers = update (update (λ _. none) 1 (some 9)) 2 (some 9);
  total_tokens = finite 2;
}

second-IsFree : IsFree (park 0 1 initial).1 2
unfolding mem park
second-IsFree = record { idle = refl; apart = λ k. ground arith }

shared-IsSound : IsSound shared.world
shared-IsSound =
    Reach-IsSound (after (after start (parks 0 1 (initial-IsFree 1))) (parks 0 2 second-IsFree))

shared_queue : queue shared ≡ 1 ∷ 2 ∷ []
unfolding park mem insert_last
shared_queue = refl

not_lent : mem 9 [] ≡ false
unfolding mem
not_lent = refl

shared_borrower_example :
    ((wake_waiters shared).0 ≡ ok tt)
    × ((wake_waiters shared).1.world.runq ≡ shared.world.runq ++ 1 ∷ 2 ∷ [])
    × ((wake_waiters shared).1.borrowers ≡ 9 ∷ [])
shared_borrower_example =
    shared_borrower shared 1 2 9 shared-IsSound shared_queue refl refl refl not_lent
