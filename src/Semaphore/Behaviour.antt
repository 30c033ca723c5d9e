-- ===== src/Semaphore/Behaviour.antt =====
-- What each call of a `Semaphore` of trio/_sync.py does, on every branch, to the count, the wait
-- queue and the run queue.
use trio.Prelude.{
  ℕ, ◌+◌, ◌-◌, ◌≤◌, ◌≡◌, refl, Bool, true, false, ◌==◌, if◌then◌else◌, none, some, List, [], ◌∷◌,
  ◌⊎◌, inl, inr, arith, List-cases,
}
use trio.Exec.{Result, ok, raise, cancelled, value_error}
use trio.Run.{Task, schedule, checkpoint_if_cancelled}
use trio.ParkingLot.{set_lot, park}
use trio.ParkingLot.Invariant.{IsSound, IsFree}
use trio.ParkingLot.Steps.{unpark_one, cancel_shielded_checkpoint-eq}
use trio.Semaphore.{Semaphore, acquire, at_max, release}

abbrev pub queue : Semaphore → List Task
queue s = s.world.lots s.lot

-- The comment of `__init__`: where somebody waits the value is 0. And the value is within the
-- bound, where there is one.
pub record IsValid (s : Semaphore) : Type 0 where
  pub sound : IsSound s.world
  pub exclusive : (s.value ≡ 0) ⊎ (queue s ≡ [])
  pub bounded : (m : ℕ) → s.max_value ≡ some m → s.value ≤ m

-- What `release` leaves, by the contents of the wait queue.
abbrev pub released : Semaphore → List Task → Result (Unit {0}) × Semaphore
released s [] =
    if at_max s.value s.max_value
    then (raise value_error, s)
    else (ok tt, record s { value = s.value + 1 })
released s (t ∷ rest) =
    (ok tt, record s { world = schedule t (ok none) (set_lot s.lot rest s.world) })

-- For a valid semaphore `release` gives the token to the oldest waiter and schedules it; where
-- nobody waits it counts up, or fails at the maximum and changes nothing.
pub release-released : (s : Semaphore) → IsValid s → release s ≡ released s (queue s)
unfolding release
release-released s v = elim (List-cases (queue s)) [
  | inl e ↦ rw (e, release) refl
  | inr (t, rest, e) ↦ ground (arith, v.exclusive, unpark_one v.sound s.lot t rest e)
]

-- What `acquire` leaves.
abbrev pub acquired : Bool → Task → Semaphore → Result (Unit {0}) × Semaphore
acquired pending t s =
    if pending
    then (raise cancelled, s)
    else if s.value == 0
    then (ok tt, record s { world = (park s.lot t s.world).1 })
    else (ok tt, record s { value = s.value - 1; world = schedule t (ok none) s.world })

-- For a valid semaphore and a task that is in no lot and not scheduled, `acquire` raises Cancelled
-- where a cancellation is due, parks the task where the value is 0, and else takes a token.
pub acquire-acquired :
    (pending : Bool) (t : Task) (s : Semaphore)
    → IsValid s
    → IsFree s.world t
    → acquire pending t s ≡ acquired pending t s
unfolding acquire checkpoint_if_cancelled park
acquire-acquired true t s v f = refl
acquire-acquired false t s v f =
    ground (arith, v.exclusive, cancel_shielded_checkpoint-eq s.world t f)
