-- ===== src/Event.antt =====
-- trio/_sync.py: `Event`. A call takes the event together with the scheduler's state. The Python set
-- of tasks is a list of them, in the order in which they were added.
pub mod Reach
mod Examples
use trio.Prelude.{ℕ, Bool, true, false, List, [], length, mem, insert_last, remove, if◌then◌else◌}
use trio.Exec.{key_error, Result, ok, raise, Exec, modify, zoom, ◌>>=◌, ◌>>◌, pure}
use trio.Run.{
  succeeded, Task, World, wait_task_rescheduled, attempt_abort, cancel_shielded_checkpoint,
}
use trio.ParkingLot.{reschedule_all}

pub record Event : Type 0 where
  pub world : World
  pub tasks : List Task
  pub flag : Bool

abbrev pub on_world : {A : Type 0} → Exec World A → Exec Event A
on_world = zoom (λ s. s.world) (λ w s. record s { world = w })

pub is_set : Event → Bool
is_set s = s.flag

unfoldable pub set : Exec Event Unit
unfolding reschedule_all
set s =
    if s.flag
    then (ok tt, s)
    else (do
      modify (λ s. record s { flag = true })
      on_world (reschedule_all s.tasks)
      modify (λ s. record s { tasks = [] }))
        s

-- `wait` up to the point where the task is suspended: waiting, or in the `checkpoint` at the end of
-- the run queue.
unfoldable pub wait : Task → Exec Event Unit
unfolding insert_last wait_task_rescheduled cancel_shielded_checkpoint
wait t s =
    if s.flag
    then on_world (cancel_shielded_checkpoint t) s
    else (do
      modify (λ s. record s { tasks = insert_last t s.tasks })
      on_world (wait_task_rescheduled t))
        s

-- The abort function of `wait`, and the delivery of a cancellation that calls it.
unfoldable pub abort_wait : Task → Exec Event Unit
unfolding mem remove
abort_wait t s =
    if mem t s.tasks then (ok tt, record s { tasks = remove t s.tasks }) else (raise key_error, s)

unfoldable pub cancel : Task → Exec Event Unit
unfolding abort_wait attempt_abort
cancel t s =
    if s.world.abortable t
    then (do abort_wait t; on_world (attempt_abort (λ _. pure succeeded) t)) s
    else (ok tt, s)

-- `statistics()`: the number of waiting tasks.
pub tasks_waiting : Event → ℕ
tasks_waiting s = length s.tasks
