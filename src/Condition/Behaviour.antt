-- ===== src/Condition/Behaviour.antt =====
-- What the calls of a `Condition` of trio/_sync.py do to its own queue, to the lock's queue, and to
-- the owner.
use trio.Prelude.{
  ℕ, ◌≡◌, ◌≢◌, refl, ap, true, false, Option, none, some, List, [], ◌∷◌, ◌++◌, inl, inr, arith,
  List-cases, Bool-cases, mem, take, drop, insert_last, mem-append, mem_of_mem-take,
  mem_of_mem-drop,
}
use trio.Exec.{ok}
use trio.Run.{Task, World}
use trio.ParkingLot.{park, repark}
use trio.ParkingLot.Invariant.{IsFree}
use trio.ParkingLot.Repark.{Moved, repark-IsSound, repark-Moved}
use trio.Lock.{is_owner}
use trio.Lock.Behaviour.{queue, release-handed_over, handed_over}
use trio.Lock.Behaviour
use trio.Condition.{Condition, release, wait, notify}

abbrev pub waiters : Condition → List Task
waiters s = s.lock.world.lots s.lot

-- The lock is valid, the two lots are two objects, and the owner waits in neither.
pub record IsValid (s : Condition) : Type 0 where
  pub lock_valid : Behaviour.IsValid s.lock
  pub apart : s.lot ≢ s.lock.lot
  pub owner_runs : (t : Task) → s.lock.owner ≡ some t → mem t (waiters s) ≡ false

module _ (n : ℕ) (t : Task) (s : Condition) (v : IsValid s) where
  open v use {lock_valid, apart, owner_runs}

  after_notify : World
  after_notify = (repark s.lot s.lock.lot n s.lock.world).1

  moved : Moved s.lock.world after_notify s.lot s.lock.lot n
  unfolding after_notify
  moved = repark-Moved s.lock.world s.lot s.lock.lot n lock_valid.sound apart

  notified : Condition
  notified = record s { lock = record s.lock { world = after_notify } }

  notify_allowed : is_owner t s.lock.owner ≡ true → notify n t s ≡ (ok tt, notified)
  unfolding notify notified after_notify
  notify_allowed own =
      rw own (
        ap (λ r. (r, notified)) (repark-IsSound s.lock.world s.lot s.lock.lot n lock_valid.sound).0)

  -- `notify` by the owner of a valid condition's lock returns, moves the oldest `n` waiters, or
  -- all, to the end of the lock's queue in their order, and leaves the owner, the other queues,
  -- the run queue and the identities of the two queues.
  pub notify-Moved :
      s.lock.owner ≡ some t
      → ((notify n t s).0 ≡ ok tt)
        × Moved s.lock.world (notify n t s).1.lock.world s.lot s.lock.lot n
        × ((notify n t s).1.lock.owner ≡ some t)
        × ((notify n t s).1.lock.lot ≡ s.lock.lot)
        × ((notify n t s).1.lot ≡ s.lot)
  unfolding notified
  notify-Moved o = rw (notify_allowed (ground arith)) (refl, moved, o, refl, refl)

  notified-IsValid : is_owner t s.lock.owner ≡ true → IsValid notified
  unfolding notified after_notify
  notified-IsValid own = record {
    lock_valid = record {
      sound = (repark-IsSound s.lock.world s.lot s.lock.lot n lock_valid.sound).1;
      no_idle = λ e. ground arith;
      owner_runs = λ u e. rw moved.target (
          ground (
            arith,
            lock_valid.owner_runs u e,
            owner_runs u e,
            mem-append u (queue s.lock) (take n (waiters s)),
            mem_of_mem-take n (waiters s) u,
          ));
    };
    apart = apart;
    owner_runs =
        λ u e. rw moved.source (ground (arith, owner_runs u e, mem_of_mem-drop n (waiters s) u));
  }

  pub notify-IsValid : IsValid (notify n t s).1
  notify-IsValid = elim (Bool-cases (is_owner t s.lock.owner)) [
    | inl own ↦ rw (notify_allowed own) (notified-IsValid own)
    | inr other ↦ unfold notify in rw other v
  ]

-- The lock's next owner, by its queue.
abbrev pub next_owner : List Task → Option Task
next_owner [] = none
next_owner (u ∷ rest) = some u

-- `wait` by the owner, in a valid condition, in one go gives the lock to its oldest waiter, or
-- frees it, and puts the task at the end of the condition's queue: no notification can come in
-- between.
pub wait_lem :
    (t : Task) (s : Condition)
    → IsValid s
    → s.lock.owner ≡ some t
    → IsFree s.lock.world t
    → ((wait t s).0 ≡ ok tt)
      × (waiters (wait t s).1 ≡ waiters s ++ t ∷ [])
      × (queue (wait t s).1.lock ≡ drop 1 (queue s.lock))
      × ((wait t s).1.lock.owner ≡ next_owner (queue s.lock))
unfolding wait release park insert_last
wait_lem t s v o f = elim (List-cases (queue s.lock)) [
  | inl e ↦ ground (arith, release-handed_over t s.lock v.lock_valid, v.apart, f.apart s.lot)
  | inr (u, rest, e) ↦
      ground (arith, release-handed_over t s.lock v.lock_valid, v.apart, f.apart s.lot)
]
