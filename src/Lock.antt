-- ===== src/Lock.antt =====
-- trio/_sync.py: `_LockImpl`, which `Lock` and `StrictFIFOLock` are. A call takes the object
-- together with the scheduler's state, and the task that makes it.
pub mod Behaviour
pub mod Reach
mod Examples
use trio.Prelude.{
  ℕ, Bool, true, false, not, ◌&&◌, Option, none, some, ◌==◌, if◌then◌else◌, List, [], ◌∷◌,
}
use trio.Exec.{
  would_block, value_error, runtime_error, Result, ok, raise, Exec, throw, modify, zoom, try_nowait,
  ◌>>=◌, ◌>>◌, pure,
}
use trio.Run.{Task, World, checkpoint_if_cancelled, cancel_shielded_checkpoint, attempt_abort}
use trio.ParkingLot.{occupied, park, unpark, abort_fn, tasks_waiting}

pub record Lock : Type 0 where
  pub world : World
  pub lot : ℕ
  pub owner : Option Task

abbrev pub on_world : {A : Type 0} → Exec World A → Exec Lock A
on_world = zoom (λ s. s.world) (λ w s. record s { world = w })

pub create : World → ℕ → Lock
create w lot = record { world = w; lot = lot; owner = none }

-- `self._owner is task`
abbrev pub is_owner : Task → Option Task → Bool
is_owner t none = false
is_owner t (some o) = o == t

-- `owner is not None`
abbrev pub is_held : Option Task → Bool
is_held none = false
is_held (some o) = true

pub locked : Lock → Bool
locked s = is_held s.owner

unfoldable pub acquire_nowait : Task → Exec Lock Unit
unfolding occupied
acquire_nowait t s =
    if is_owner t s.owner
    then (raise runtime_error, s)
    else if not (is_held s.owner) && not (occupied s.lot s.world)
    then (ok tt, record s { owner = some t })
    else (raise would_block, s)

-- `acquire` by the task `t` up to the point where it is suspended: parked, or at the end of the run
-- queue as the owner. Once resumed it has nothing left to do.
unfoldable pub acquire : Bool → Task → Exec Lock Unit
unfolding acquire_nowait
acquire pending t = do
  checkpoint_if_cancelled pending
  try_nowait (acquire_nowait t) (λ s. on_world (park s.lot t) s)
      (λ _. on_world (cancel_shielded_checkpoint t))

-- `(self._owner,) = tasks`
set_owner : List Task → Exec Lock Unit
set_owner (t ∷ []) s = (ok tt, record s { owner = some t })
set_owner _ s = (raise value_error, s)

unfoldable pub release : Task → Exec Lock Unit
unfolding occupied set_owner
release t s =
    if not (is_owner t s.owner)
    then (raise runtime_error, s)
    else if occupied s.lot s.world
    then (do woken ← on_world (unpark s.lot 1); set_owner woken) s
    else (ok tt, record s { owner = none })

-- A cancellation is delivered to the task `t`.
unfoldable pub cancel : Task → Exec Lock Unit
cancel t = on_world (attempt_abort abort_fn t)

pub record LockStatistics : Type 0 where
  pub locked : Bool
  pub owner : Option Task
  pub tasks_waiting : ℕ

pub statistics : Lock → LockStatistics
unfolding locked tasks_waiting
statistics s = record {
  locked = locked s;
  owner = s.owner;
  tasks_waiting = tasks_waiting s.lot s.world;
}
