-- ===== src/ParkingLot.antt =====
-- trio/_core/_parking_lot.py: `ParkingLot`, the fair wait queue under the other primitives. A lot
-- is the identity of the object; its `_parked` is `lots` at that number, the oldest task first.
-- A negative `count` parks and wakes nobody, as 0 does, so a count is a natural number here.
pub mod Wakeups
pub mod Invariant
pub mod Steps
pub mod Repark
pub mod Cancel
pub mod Reach
mod Examples
use trio.Prelude.{
  ℕ, zero, suc, min, Option, none, some, List, [], ◌∷◌, Bool, if◌then◌else◌, update, length,
  nonempty, mem, insert_last, remove,
}
use trio.Exec.{key_error, attribute_error, ok, raise, Exec, pure, throw, modify, gets, ◌>>=◌, ◌>>◌}
use trio.Run.{Abort, succeeded, Task, World, reschedule, wait_task_rescheduled}

-- `__len__`
unfoldable pub size : ℕ → World → ℕ
size lot w = length (w.lots lot)

-- `__bool__`
unfoldable pub occupied : ℕ → World → Bool
occupied lot w = nonempty (w.lots lot)

abbrev pub set_lot : ℕ → List Task → World → World
set_lot lot ts w = record w { lots = update w.lots lot ts }

-- `self._parked[task] = None; task.custom_sleep_data = self`
abbrev pub enter : ℕ → Task → World → World
enter lot t w = record w {
  lots = update w.lots lot (insert_last t (w.lots lot));
  sleep_data = update w.sleep_data t (some lot);
}

-- `park` by the current task, up to the point where it is suspended; when it is woken nothing is
-- left to do.
unfoldable pub park : ℕ → Task → Exec World Unit
unfolding wait_task_rescheduled insert_last
park lot t = do modify (enter lot t); wait_task_rescheduled t

delete : Task → Option ℕ → Exec World Unit
delete t none w = (raise attribute_error, w)
delete t (some lot) w =
    if mem t (w.lots lot)
    then (ok tt, set_lot lot (remove t (w.lots lot)) w)
    else (raise key_error, w)

-- The abort function of `park`: it deletes the task from the lot where it sleeps now.
unfoldable pub abort_fn : Task → Exec World Abort
unfolding delete
abort_fn t = do (λ w. delete t (w.sleep_data t) w); pure succeeded

-- `self._parked.popitem(last=False)`
pop_first : ℕ → Exec World Task
pop_first lot w = elim (w.lots lot) [
  | [] ↦ (raise key_error, w)
  | t ∷ rest ↦ (ok t, set_lot lot rest w)
]

-- `list(self._pop_several(count))`, in the rounds that `range(min(count, len(self._parked)))` has.
pop_several : ℕ → ℕ → Exec World (List Task)
unfolding pop_first
pop_several lot zero = pure []
pop_several lot (suc rounds) = do
  task ← pop_first lot
  rest ← pop_several lot rounds
  pure (task ∷ rest)

unfoldable pub reschedule_all : List Task → Exec World Unit
unfolding reschedule
reschedule_all [] = pure tt
reschedule_all (t ∷ ts) = do reschedule t (ok none); reschedule_all ts

unfoldable pub unpark : ℕ → ℕ → Exec World (List Task)
unfolding pop_several reschedule_all
unpark lot count = do
  available ← gets (λ w. length (w.lots lot))
  tasks ← pop_several lot (min count available)
  reschedule_all tasks
  pure tasks

unfoldable pub unpark_all : ℕ → Exec World (List Task)
unfolding size unpark
unpark_all lot = do count ← gets (size lot); unpark lot count

-- The loop of `repark`, which pops from one lot while it fills the other.
move_several : ℕ → ℕ → ℕ → Exec World Unit
unfolding pop_first insert_last
move_several lot new_lot zero = pure tt
move_several lot new_lot (suc rounds) = do
  task ← pop_first lot
  modify (enter new_lot task)
  move_several lot new_lot rounds

unfoldable pub repark : ℕ → ℕ → ℕ → Exec World Unit
unfolding move_several
repark lot new_lot count = do
  available ← gets (λ w. length (w.lots lot))
  move_several lot new_lot (min count available)

unfoldable pub repark_all : ℕ → ℕ → Exec World Unit
unfolding size repark
repark_all lot new_lot = do count ← gets (size lot); repark lot new_lot count

-- `statistics().tasks_waiting`
unfoldable pub tasks_waiting : ℕ → World → ℕ
unfolding size
tasks_waiting lot w = size lot w
