-- ===== src/Semaphore.antt =====
-- trio/_sync.py: `Semaphore`. A call takes the object together with the scheduler's state.
pub mod Behaviour
pub mod Reach
mod Examples
use mathlib.Core.Option
use trio.Prelude.{
  ℕ, ◌+◌, ◌-◌, Bool, true, false, not, Option, none, some, ltb, ◌==◌, if◌then◌else◌, List, ℤ,
  is_neg, lt_int, to_nat,
}
use trio.Exec.{
  would_block, value_error, assertion_error, Result, ok, raise, Exec, throw, modify, ensure, zoom,
  try_nowait, ◌>>=◌, ◌>>◌, pure,
}
use trio.Run.{
  Task, World, checkpoint_if_cancelled, cancel_shielded_checkpoint, attempt_abort, resume,
}
use trio.ParkingLot.{occupied, park, unpark, abort_fn, tasks_waiting}

pub record Semaphore : Type 0 where
  pub world : World
  pub lot : ℕ
  pub value : ℕ
  pub max_value : Option ℕ

abbrev pub on_world : {A : Type 0} → Exec World A → Exec Semaphore A
on_world = zoom (λ s. s.world) (λ w s. record s { world = w })

abbrev exceeds : ℤ → Option ℤ → Bool
exceeds initial_value none = false
exceeds initial_value (some max_value) = lt_int max_value initial_value

-- `__init__`, with the identity of the new lot; the tests for non-integers are left out.
pub create : World → ℕ → ℤ → Option ℤ → Result Semaphore
create w lot initial_value max_value =
    if is_neg initial_value
    then raise value_error
    else if exceeds initial_value max_value
    then raise value_error
    else ok (record {
      world = w;
      lot = lot;
      value = to_nat initial_value;
      max_value = Option.map to_nat max_value;
    })

pub waiters : Semaphore → Bool
unfolding occupied
waiters s = occupied s.lot s.world

pub acquire_nowait : Exec Semaphore Unit
unfolding waiters
acquire_nowait s =
    if ltb 0 s.value
    then (do
      ensure assertion_error (not (waiters s))
      modify (λ s. record s { value = s.value - 1 }))
        s
    else (raise would_block, s)

-- `acquire` by the task `t` up to the point where it is suspended: parked, or at the end of the run
-- queue with the semaphore acquired. Once resumed it has nothing left to do.
pub acquire : Bool → Task → Exec Semaphore Unit
unfolding acquire_nowait
acquire pending t = do
  checkpoint_if_cancelled pending
  try_nowait acquire_nowait (λ s. on_world (park s.lot t) s)
      (λ _. on_world (cancel_shielded_checkpoint t))

-- `self._max_value is not None and self._value == self._max_value`
pub at_max : ℕ → Option ℕ → Bool
at_max value none = false
at_max value (some m) = value == m

pub release : Exec Semaphore Unit
unfolding waiters at_max
release s =
    if waiters s
    then (do ensure assertion_error (s.value == 0); on_world (unpark s.lot 1); pure tt) s
    else if at_max s.value s.max_value
    then (raise value_error, s)
    else (ok tt, record s { value = s.value + 1 })

-- A cancellation is delivered to the task `t`.
pub cancel : Task → Exec Semaphore Unit
cancel t = on_world (attempt_abort abort_fn t)

-- `statistics()`
pub statistics : Semaphore → ℕ
unfolding tasks_waiting
statistics s = tasks_waiting s.lot s.world
