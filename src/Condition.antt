-- ===== src/Condition.antt =====
-- trio/_sync.py: `Condition`. The state is that of its lock, and the identity of its own lot.
pub mod Behaviour
pub mod Handoff
mod Examples
use trio.Prelude.{ℕ, Bool, true, false, not, if◌then◌else◌}
use trio.Exec.{runtime_error, Result, ok, raise, Exec, zoom, ◌>>=◌, ◌>>◌}
use trio.Run.{Task, World, attempt_abort}
use trio.ParkingLot.{park, repark, repark_all, abort_fn, tasks_waiting}
use trio.Lock.{Lock, LockStatistics, is_owner}
use trio.Lock

pub record Condition : Type 0 where
  pub lock : Lock
  pub lot : ℕ

abbrev pub on_lock : {A : Type 0} → Exec Lock A → Exec Condition A
on_lock = zoom (λ s. s.lock) (λ l s. record s { lock = l })

abbrev pub on_world : {A : Type 0} → Exec World A → Exec Condition A
on_world m = on_lock (Lock.on_world m)

pub create : Lock → ℕ → Condition
create lock lot = record { lock = lock; lot = lot }

pub locked : Condition → Bool
locked s = Lock.locked s.lock

unfoldable pub acquire_nowait : Task → Exec Condition Unit
acquire_nowait t = on_lock (Lock.acquire_nowait t)

unfoldable pub acquire : Bool → Task → Exec Condition Unit
acquire pending t = on_lock (Lock.acquire pending t)

unfoldable pub release : Task → Exec Condition Unit
release t = on_lock (Lock.release t)

-- `wait` up to the point where the task is suspended. If it is woken, it has been moved to the
-- lock's lot and made the owner, and has nothing left to do.
unfoldable pub wait : Task → Exec Condition Unit
unfolding release
wait t s =
    if not (is_owner t s.lock.owner)
    then (raise runtime_error, s)
    else (do release t; on_world (park s.lot t)) s

-- The `except:` branch of `wait`, which runs when the task is resumed with an exception: it takes
-- the lock again, shielded from cancellation, before the exception goes on.
unfoldable pub wait_cancelled : Task → Exec Condition Unit
unfolding acquire
wait_cancelled t = acquire false t

unfoldable pub notify : ℕ → Task → Exec Condition Unit
notify n t s =
    if not (is_owner t s.lock.owner)
    then (raise runtime_error, s)
    else on_world (repark s.lot s.lock.lot n) s

unfoldable pub notify_all : Task → Exec Condition Unit
notify_all t s =
    if not (is_owner t s.lock.owner)
    then (raise runtime_error, s)
    else on_world (repark_all s.lot s.lock.lot) s

-- A cancellation is delivered to the task `t`.
unfoldable pub cancel : Task → Exec Condition Unit
cancel t = on_world (attempt_abort abort_fn t)

pub record ConditionStatistics : Type 0 where
  pub tasks_waiting : ℕ
  pub lock_statistics : LockStatistics

pub statistics : Condition → ConditionStatistics
unfolding tasks_waiting
statistics s = record {
  tasks_waiting = tasks_waiting s.lot s.lock.world;
  lock_statistics = Lock.statistics s.lock;
}
