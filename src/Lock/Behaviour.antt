-- ===== src/Lock/Behaviour.antt =====
-- What each call of a lock of trio/_sync.py does, on every branch, to the owner, the wait queue
-- and the run queue.
use trio.Prelude.{
  ◌≡◌, refl, Bool, true, false, ◌==◌, if◌then◌else◌, Option, none, some, List, [], ◌∷◌, inl, inr,
  arith, List-cases, mem,
}
use trio.Exec.{Result, ok, raise, cancelled, runtime_error}
use trio.Run.{Task, schedule, checkpoint_if_cancelled}
use trio.ParkingLot.{set_lot, park}
use trio.ParkingLot.Invariant.{IsSound, IsFree, schedule-IsSound, pop-IsSound, pop-IsFree}
use trio.ParkingLot.Steps.{unpark_one, cancel_shielded_checkpoint-eq}
use trio.Lock.{Lock, is_owner, acquire, set_owner, release}

abbrev pub queue : Lock → List Task
queue s = s.world.lots s.lot

-- A free lock has no waiters, and the owner is not among the waiters.
pub record IsValid (s : Lock) : Type 0 where
  pub sound : IsSound s.world
  pub no_idle : s.owner ≡ none → queue s ≡ []
  pub owner_runs : (t : Task) → s.owner ≡ some t → mem t (queue s) ≡ false

-- Where the lock goes when its owner lets go.
abbrev pub handed_over : Lock → List Task → Result (Unit {0}) × Lock
handed_over s [] = (ok tt, record s { owner = none })
handed_over s (u ∷ rest) =
    (ok tt, record s { owner = some u; world = schedule u (ok none) (set_lot s.lot rest s.world) })

-- For a valid lock: `release` by another task than the owner fails and changes nothing; by the
-- owner it makes the oldest waiter the owner and schedules it, or frees the lock where nobody
-- waits.
pub release-handed_over :
    (t : Task) (s : Lock)
    → IsValid s
    → release t s
      ≡ (if is_owner t s.owner then handed_over s (queue s) else (raise runtime_error, s))
unfolding release set_owner
release-handed_over t s v = elim (List-cases (queue s)) [
  | inl e ↦ rw (e, release) (ground arith)
  | inr (u, rest, e) ↦ ground (arith, unpark_one v.sound s.lot u rest e)
]

-- What `acquire` by `t` leaves.
abbrev pub taken : Bool → Task → Lock → Option Task → Result (Unit {0}) × Lock
taken true t s owner = (raise cancelled, s)
taken false t s none = (ok tt, record s { owner = some t; world = schedule t (ok none) s.world })
taken false t s (some o) =
    if o == t
    then (raise runtime_error, s)
    else (ok tt, record s { world = (park s.lot t s.world).1 })

-- For a valid lock and a task that is in no lot and not scheduled, `acquire` raises Cancelled
-- where a cancellation is due, takes a free lock, parks where another task holds it, and fails for
-- the owner.
pub acquire-taken :
    (pending : Bool) (t : Task) (s : Lock)
    → IsValid s
    → IsFree s.world t
    → acquire pending t s ≡ taken pending t s s.owner
unfolding acquire checkpoint_if_cancelled park
acquire-taken true t s v f = refl
acquire-taken false t s v f = ground (arith, v.no_idle, cancel_shielded_checkpoint-eq s.world t f)

-- The lock after it has been given to its oldest waiter.
abbrev pub passed_to : Lock → Task → List Task → Lock
passed_to s u rest = record s {
  owner = some u;
  world = schedule u (ok none) (set_lot s.lot rest s.world);
}

pub passed_to-IsValid :
    (s : Lock) (u : Task) (rest : List Task)
    → IsValid s
    → queue s ≡ u ∷ rest
    → IsValid (passed_to s u rest)
passed_to-IsValid s u rest v e = record {
  sound =
      schedule-IsSound (pop-IsSound v.sound s.lot u rest e) u (ok none)
        (pop-IsFree v.sound s.lot u rest e);
  no_idle = λ o. cc;
  owner_runs = λ t o. ground (arith, (pop-IsFree v.sound s.lot u rest e).apart s.lot);
}
