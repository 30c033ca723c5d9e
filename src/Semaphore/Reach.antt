-- ===== src/Semaphore/Reach.antt =====
-- Any history of a `Semaphore` of trio/_sync.py: calls by any tasks, cancellations, and steps of
-- the scheduler and of other objects in between.
use trio.Prelude.{
  ℕ, ◌+◌, ◌-◌, ◌≡◌, refl, ap, ◌∙◌, Bool, true, none, [], ◌∷◌, inl, inr, arith, List-cases, mem,
  length, length-append, remove,
}
use trio.Exec.{Result, ok, raise}
use trio.Run.{Task, World}
use trio.ParkingLot.{park}
use trio.ParkingLot.Invariant.{IsFree, schedule-IsSound, pop-IsSound, pop-IsFree}
use trio.ParkingLot.Steps.{park-IsSound}
use trio.ParkingLot.Cancel.{attempt_abort-eq, attempt_abort-IsSound}
use trio.ParkingLot.Reach.{Step-IsSound}
use trio.ParkingLot.Reach
use trio.Semaphore.{Semaphore, acquire_nowait, acquire, at_max, release, cancel}
use trio.Semaphore.Behaviour.{queue, IsValid, release-released, acquire-acquired, released}

-- The semaphore, with how many tokens have been handed to tasks and how many given back.
pub record Tally : Type 0 where
  pub semaphore : Semaphore
  pub taken : ℕ
  pub given : ℕ

abbrev pub count_ok {ℓ} : {A : Type ℓ} → Result A → ℕ
count_ok (ok a) = 1
count_ok (raise e) = 0

-- How many tasks a call has put in the run queue.
abbrev pub scheduled_by : Semaphore → Semaphore → ℕ
scheduled_by s v = length v.world.runq - length s.world.runq

-- `acquire_nowait` hands out a token by returning; `acquire` and `release` do so by scheduling the
-- task that asked for it.
pub data Step (y : Tally) : Tally → Type 0 where
  acquires_nowait : Step y (record y {
    semaphore = (acquire_nowait y.semaphore).1;
    taken = y.taken + count_ok (acquire_nowait y.semaphore).0;
  })
  acquires :
      (pending : Bool) (t : Task)
      → IsFree y.semaphore.world t
      → Step y (record y {
        semaphore = (acquire pending t y.semaphore).1;
        taken = y.taken + scheduled_by y.semaphore (acquire pending t y.semaphore).1;
      })
  releases : Step y (record y {
    semaphore = (release y.semaphore).1;
    taken = y.taken + scheduled_by y.semaphore (release y.semaphore).1;
    given = y.given + count_ok (release y.semaphore).0;
  })
  cancels :
      (t : Task)
      → mem t (queue y.semaphore) ≡ true
      → Step y (record y { semaphore = (cancel t y.semaphore).1 })
  elsewhere :
      (w : World)
      → Reach.Step y.semaphore.world w
      → w.lots y.semaphore.lot ≡ queue y.semaphore
      → Step y (record y { semaphore = record y.semaphore { world = w } })

pub data History (start : Semaphore) : Tally → Type 0 where
  begin : History start (record { semaphore = start; taken = 0; given = 0 })
  next : {y z : Tally} → History start y → Step y z → History start z

-- Valid, and no token is lost or made up since the semaphore had `start` of them.
pub record IsBalanced (start : ℕ) (y : Tally) : Type 0 where
  pub valid : IsValid y.semaphore
  pub balance : y.semaphore.value + y.taken ≡ start + y.given

module _ {start : ℕ} {y : Tally} (b : IsBalanced start y) where
  open b use {valid, balance}

  acquire_nowait-IsBalanced : IsBalanced start (record y {
    semaphore = (acquire_nowait y.semaphore).1;
    taken = y.taken + count_ok (acquire_nowait y.semaphore).0;
  })
  unfolding acquire_nowait
  acquire_nowait-IsBalanced = ground arith

  acquire-IsBalanced :
      (pending : Bool) (t : Task)
      → IsFree y.semaphore.world t
      → IsBalanced start (record y {
        semaphore = (acquire pending t y.semaphore).1;
        taken = y.taken + scheduled_by y.semaphore (acquire pending t y.semaphore).1;
      })
  unfolding park
  acquire-IsBalanced pending t f = rw (acquire-acquired pending t y.semaphore valid f) (
      ground (
        arith,
        valid.exclusive,
        schedule-IsSound valid.sound t (ok none) f,
        park-IsSound y.semaphore.world y.semaphore.lot t valid.sound f,
        length-append y.semaphore.world.runq (t ∷ []),
      ))

  release-IsBalanced : IsBalanced start (record y {
    semaphore = (release y.semaphore).1;
    taken = y.taken + scheduled_by y.semaphore (release y.semaphore).1;
    given = y.given + count_ok (release y.semaphore).0;
  })
  unfolding at_max
  release-IsBalanced = elim (List-cases (queue y.semaphore)) [
    | inl e ↦ rw (release-released y.semaphore valid ∙ ap (released y.semaphore) e) (ground arith)
    | inr (t, rest, e) ↦ rw (release-released y.semaphore valid ∙ ap (released y.semaphore) e) (
        ground (
          arith,
          schedule-IsSound (pop-IsSound valid.sound y.semaphore.lot t rest e) t (ok none)
              (pop-IsFree valid.sound y.semaphore.lot t rest e),
          length-append y.semaphore.world.runq (t ∷ []),
        ))
  ]

  cancel-IsBalanced :
      (t : Task)
      → mem t (queue y.semaphore) ≡ true
      → IsBalanced start (record y { semaphore = (cancel t y.semaphore).1 })
  unfolding cancel mem remove
  cancel-IsBalanced t m = record {
    valid = record {
      sound = attempt_abort-IsSound valid.sound y.semaphore.lot t m;
      exclusive =
          rw (attempt_abort-eq valid.sound y.semaphore.lot t m) (ground (arith, valid.exclusive));
      bounded = valid.bounded;
    };
    balance = balance;
  }

  elsewhere-IsBalanced :
      (w : World)
      → Reach.Step y.semaphore.world w
      → w.lots y.semaphore.lot ≡ queue y.semaphore
      → IsBalanced start (record y { semaphore = record y.semaphore { world = w } })
  elsewhere-IsBalanced w st e = record {
    valid = record {
      sound = Step-IsSound st valid.sound;
      exclusive = ground (arith, valid.exclusive);
      bounded = valid.bounded;
    };
    balance = balance;
  }

Step-IsBalanced : {start : ℕ} {y z : Tally} → Step y z → IsBalanced start y → IsBalanced start z
Step-IsBalanced acquires_nowait b = acquire_nowait-IsBalanced b
Step-IsBalanced (acquires pending t f) b = acquire-IsBalanced b pending t f
Step-IsBalanced releases b = release-IsBalanced b
Step-IsBalanced (cancels t m) b = cancel-IsBalanced b t m
Step-IsBalanced (elsewhere w st e) b = elsewhere-IsBalanced b w st e

-- In every history from a valid semaphore: nobody waits while a token is left, the value stays
-- within the bound, and the tokens left and taken are those at the start and those given back.
pub History-IsBalanced :
    {s : Semaphore} {y : Tally} → IsValid s → History s y → IsBalanced s.value y
History-IsBalanced v begin = record { valid = v; balance = refl }
History-IsBalanced v (next h st) = Step-IsBalanced st (History-IsBalanced v h)
