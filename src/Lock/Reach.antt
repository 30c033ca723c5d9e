-- ===== src/Lock/Reach.antt =====
-- Any history of a lock of trio/_sync.py: calls by any tasks, cancellations, tasks that a condition
-- variable moves into the wait queue, and steps of the scheduler and of other objects in between.
use trio.Prelude.{
  ℕ, ◌≤◌, ◌≡◌, ◌≢◌, refl, ap, ◌∙◌, Bool, true, false, Option, none, some, List, [], ◌∷◌, ◌++◌, inl,
  inr, arith, List-cases, Bool-cases, mem, remove, length, drop, take, mem-append, mem-remove,
  mem_of_mem-take, mem-insert_last,
}
use trio.Exec.{Result, ok, raise}
use trio.Run.{Task, World}
use trio.ParkingLot.{park, repark}
use trio.ParkingLot.Invariant.{IsFree, schedule-IsSound}
use trio.ParkingLot.Steps.{park-IsSound}
use trio.ParkingLot.Repark.{repark-IsSound, repark-Moved}
use trio.ParkingLot.Cancel.{attempt_abort-eq, attempt_abort-IsSound}
use trio.ParkingLot.Reach.{Step-IsSound}
use trio.ParkingLot.Reach
use trio.Lock.{Lock, is_owner, acquire_nowait, acquire, release, cancel}
use trio.Lock.Behaviour.{
  queue, IsValid, release-handed_over, acquire-taken, handed_over, taken, passed_to,
  passed_to-IsValid,
}

-- The lock, with the tasks that have been given it and have not released it.
pub record Held : Type 0 where
  pub lock : Lock
  pub holders : List Task

-- The task `t` holds the lock once `acquire_nowait` has returned.
abbrev pub joins {ℓ} : {A : Type ℓ} → Result A → Task → List Task → List Task
joins (ok a) t hs = t ∷ hs
joins (raise e) t hs = hs

abbrev pub leaves {ℓ} : {A : Type ℓ} → Result A → Task → List Task → List Task
leaves (ok a) t hs = remove t hs
leaves (raise e) t hs = hs

-- The tasks that a call has put in the run queue.
abbrev pub scheduled_by : Lock → Lock → List Task
scheduled_by s v = drop (length s.world.runq) v.world.runq

-- A task is given the lock when its `acquire_nowait` returns, or when `acquire` or the `release` of
-- another task schedules it.
pub data Step (y : Held) : Held → Type 0 where
  acquires_nowait :
      (t : Task)
      → IsFree y.lock.world t
      → Step y (record {
        lock = (acquire_nowait t y.lock).1;
        holders = joins (acquire_nowait t y.lock).0 t y.holders;
      })
  acquires :
      (pending : Bool) (t : Task)
      → IsFree y.lock.world t
      → Step y (record {
        lock = (acquire pending t y.lock).1;
        holders = scheduled_by y.lock (acquire pending t y.lock).1 ++ y.holders;
      })
  releases :
      (t : Task)
      → Step y (record {
        lock = (release t y.lock).1;
        holders =
            scheduled_by y.lock (release t y.lock).1 ++ leaves (release t y.lock).0 t y.holders;
      })
  cancels :
      (t : Task) → mem t (queue y.lock) ≡ true → Step y (record y { lock = (cancel t y.lock).1 })
  requeues :
      (t : Task) (lot count : ℕ)
      → y.lock.owner ≡ some t
      → mem t (y.lock.world.lots lot) ≡ false
      → lot ≢ y.lock.lot
      → Step y (record y {
        lock = record y.lock { world = (repark lot y.lock.lot count y.lock.world).1 };
      })
  elsewhere :
      (w : World)
      → Reach.Step y.lock.world w
      → w.lots y.lock.lot ≡ queue y.lock
      → Step y (record y { lock = record y.lock { world = w } })

pub data History (start : Lock) : Held → Type 0 where
  begin : start.owner ≡ none → History start (record { lock = start; holders = [] })
  next : {y z : Held} → History start y → Step y z → History start z

abbrev pub owners : Option Task → List Task
owners none = []
owners (some t) = t ∷ []

-- Valid, and the holders are just the owner.
pub record IsExclusive (y : Held) : Type 0 where
  pub valid : IsValid y.lock
  pub held : y.holders ≡ owners y.lock.owner

scheduled_one : (l : List Task) (t : Task) → drop (length l) (l ++ t ∷ []) ≡ t ∷ []
scheduled_one [] t = refl
scheduled_one (x ∷ l) t = scheduled_one l t

scheduled_none : (l : List Task) → drop (length l) l ≡ []
scheduled_none [] = refl
scheduled_none (x ∷ l) = scheduled_none l

module _ {y : Held} (x : IsExclusive y) where
  open x use {valid, held}

  acquire_nowait-IsExclusive :
      (t : Task)
      → IsFree y.lock.world t
      → IsExclusive (record {
        lock = (acquire_nowait t y.lock).1;
        holders = joins (acquire_nowait t y.lock).0 t y.holders;
      })
  unfolding acquire_nowait
  acquire_nowait-IsExclusive t f =
      grind (arith, valid.no_idle, valid.owner_runs, f.apart y.lock.lot)

  taken-IsValid :
      (pending : Bool) (t : Task)
      → IsFree y.lock.world t
      → IsValid (taken pending t y.lock y.lock.owner).1
  unfolding park
  taken-IsValid pending t f = record {
    sound = ground (
      arith,
      schedule-IsSound valid.sound t (ok none) f,
      park-IsSound y.lock.world y.lock.lot t valid.sound f,
      valid.sound,
    );
    no_idle = ground (arith, valid.no_idle);
    owner_runs = λ u e.
        ground (arith, valid.owner_runs u, f.apart y.lock.lot, mem-insert_last u t (queue y.lock));
  }

  acquire-IsExclusive :
      (pending : Bool) (t : Task)
      → IsFree y.lock.world t
      → IsExclusive (record {
        lock = (acquire pending t y.lock).1;
        holders = scheduled_by y.lock (acquire pending t y.lock).1 ++ y.holders;
      })
  unfolding park
  acquire-IsExclusive pending t f = rw (acquire-taken pending t y.lock valid f) (record {
    valid = taken-IsValid pending t f;
    held =
        ground (arith, held, scheduled_one y.lock.world.runq t, scheduled_none y.lock.world.runq);
  })

  module _ (t : Task) (own : is_owner t y.lock.owner ≡ true) where
    let_go : queue y.lock ≡ [] → release t y.lock ≡ (ok tt, record y.lock { owner = none })
    let_go e = release-handed_over t y.lock valid ∙ rw own (ap (handed_over y.lock) e)

    pass_on :
        (u : Task) (rest : List Task)
        → queue y.lock ≡ u ∷ rest
        → release t y.lock ≡ (ok tt, passed_to y.lock u rest)
    pass_on u rest e = release-handed_over t y.lock valid ∙ rw own (ap (handed_over y.lock) e)

    no_other : remove t (owners y.lock.owner) ≡ []
    unfolding remove
    no_other = ground arith

  release-IsExclusive :
      (t : Task)
      → IsExclusive (record {
        lock = (release t y.lock).1;
        holders =
            scheduled_by y.lock (release t y.lock).1 ++ leaves (release t y.lock).0 t y.holders;
      })
  release-IsExclusive t = elim (Bool-cases (is_owner t y.lock.owner)) [
    | inr other ↦
        rw (release-handed_over t y.lock valid)
          (rw other (record { valid = valid; held = rw (scheduled_none y.lock.world.runq) held }))
    | inl own ↦ elim (List-cases (queue y.lock)) [
      | inl e ↦ rw (let_go t own e) (record {
        valid = record { sound = valid.sound; no_idle = λ _. e; owner_runs = λ u o. cc };
        held = rw (scheduled_none y.lock.world.runq, held) (no_other t own);
      })
      | inr (u, rest, e) ↦ rw (pass_on t own u rest e) (record {
        valid = passed_to-IsValid y.lock u rest valid e;
        held = rw (scheduled_one y.lock.world.runq u, held, no_other t own);
      })
    ]
  ]

  cancel-IsExclusive :
      (t : Task)
      → mem t (queue y.lock) ≡ true
      → IsExclusive (record y { lock = (cancel t y.lock).1 })
  unfolding cancel mem remove
  cancel-IsExclusive t m = record {
    valid = record {
      sound = attempt_abort-IsSound valid.sound y.lock.lot t m;
      no_idle =
          λ e. rw (attempt_abort-eq valid.sound y.lock.lot t m) (ground (arith, valid.no_idle e));
      owner_runs = λ u e. rw (attempt_abort-eq valid.sound y.lock.lot t m) (
          ground (
            arith,
            valid.owner_runs u e,
            mem-remove u t (queue y.lock) (valid.sound.distinct y.lock.lot),
          ));
    };
    held = held;
  }

  requeue-IsExclusive :
      (t : Task) (lot count : ℕ)
      → y.lock.owner ≡ some t
      → mem t (y.lock.world.lots lot) ≡ false
      → lot ≢ y.lock.lot
      → IsExclusive (record y {
        lock = record y.lock { world = (repark lot y.lock.lot count y.lock.world).1 };
      })
  requeue-IsExclusive t lot count o m ne = record {
    valid = record {
      sound = (repark-IsSound y.lock.world lot y.lock.lot count valid.sound).1;
      no_idle = λ e. cc;
      owner_runs = λ u e.
          rw (repark-Moved y.lock.world lot y.lock.lot count valid.sound ne).target (
            ground (
              arith,
              valid.owner_runs u e,
              mem-append u (queue y.lock) (take count (y.lock.world.lots lot)),
              mem_of_mem-take count (y.lock.world.lots lot) u,
            ));
    };
    held = held;
  }

  elsewhere-IsExclusive :
      (w : World)
      → Reach.Step y.lock.world w
      → w.lots y.lock.lot ≡ queue y.lock
      → IsExclusive (record y { lock = record y.lock { world = w } })
  elsewhere-IsExclusive w st e = record {
    valid = record {
      sound = Step-IsSound st valid.sound;
      no_idle = λ o. e ∙ valid.no_idle o;
      owner_runs = λ u o. rw e (valid.owner_runs u o);
    };
    held = held;
  }

Step-IsExclusive : {y z : Held} → Step y z → IsExclusive y → IsExclusive z
Step-IsExclusive (acquires_nowait t f) x = acquire_nowait-IsExclusive x t f
Step-IsExclusive (acquires pending t f) x = acquire-IsExclusive x pending t f
Step-IsExclusive (releases t) x = release-IsExclusive x t
Step-IsExclusive (cancels t m) x = cancel-IsExclusive x t m
Step-IsExclusive (requeues t lot count o m ne) x = requeue-IsExclusive x t lot count o m ne
Step-IsExclusive (elsewhere w st e) x = elsewhere-IsExclusive x w st e

-- In every history from a valid free lock, with acquisitions, releases, cancelled waits, tasks
-- brought in by `repark` while the lock is owned, and steps elsewhere: the tasks that have been
-- given the lock and have not released it are exactly its owner, so they are at most one; and
-- nobody waits for a free lock.
pub History-IsExclusive : {s : Lock} {y : Held} → IsValid s → History s y → IsExclusive y
History-IsExclusive v (begin free) = record { valid = v; held = rw free }
History-IsExclusive v (next h st) = Step-IsExclusive st (History-IsExclusive v h)

pub mutual_exclusion : {s : Lock} {y : Held} → IsValid s → History s y → length y.holders ≤ 1
mutual_exclusion v h = ground (arith, (History-IsExclusive v h).held)
