-- ===== src/Run.antt =====
-- The part of trio/_core/_run.py through which blocking code reaches the scheduler: `reschedule`,
-- the step of the run loop that resumes a task, the effect of `wait_task_rescheduled`, and the
-- delivery of a cancellation to a blocked task. Tasks and other objects are their identities, as
-- numbers; Python's None is `none`. `runq` holds the tasks that are scheduled and have not been
-- resumed, the rest of the batch of the current pass included.
use trio.Prelude.{
  ℕ, Bool, true, false, not, Option, none, List, [], ◌∷◌, ◌++◌, if◌then◌else◌, update, remove,
}
use trio.Exec.{
  cancelled, assertion_error, Result, ok, raise, Exec, modify, ensure, pure, ◌>>=◌, ◌>>◌,
}

abbrev pub Task : Type 0
Task = ℕ

abbrev pub Outcome : Type 0
Outcome = Result (Option ℕ)

-- The fields of all tasks, each as a map from tasks, and the run queue. `scheduled t` says that
-- `_next_send_fn` is not None, `abortable t` that `_abort_func` is not. The parking lots are
-- shared objects, so their contents are a map from their identities.
pub record World : Type 0 where
  pub runq : List Task
  pub scheduled : Task → Bool
  pub next_send : Task → Outcome
  pub abortable : Task → Bool
  pub sleep_data : Task → Option ℕ
  pub lots : ℕ → List Task

-- What `reschedule` does once its assertion has passed.
abbrev pub schedule : Task → Outcome → World → World
schedule t o w = record w {
  scheduled = update w.scheduled t true;
  next_send = update w.next_send t o;
  abortable = update w.abortable t false;
  sleep_data = update w.sleep_data t none;
  runq = w.runq ++ t ∷ [];
}

unfoldable pub reschedule : Task → Outcome → Exec World Unit
reschedule t o w = if w.scheduled t then (raise assertion_error, w) else (ok tt, schedule t o w)

-- The run loop takes `t` from its batch and sends it what it was rescheduled with.
unfoldable pub resume : Task → Exec World Outcome
resume t w = (
  ok (w.next_send t),
  record w { runq = remove t w.runq; scheduled = update w.scheduled t false },
)

-- The run loop's handling of the trap: the task is left suspended, with its abort function.
unfoldable pub wait_task_rescheduled : Task → Exec World Unit
wait_task_rescheduled t = modify λ w. record w { abortable = update w.abortable t true }

-- What an abort function returns.
pub data Abort : Type 0 where
  succeeded failed : Abort

abbrev pub if_succeeded : Abort → Exec World Unit → Exec World Unit
if_succeeded succeeded m = m
if_succeeded failed m = pure tt

-- A cancellation reaches `t`: `abort_fn` is called if `t` is blocked, once, and if it succeeds `t` is
-- rescheduled with the exception; if it fails the task goes on waiting.
unfoldable pub attempt_abort : (Task → Exec World Abort) → Task → Exec World Unit
unfolding reschedule
attempt_abort abort_fn t w =
    if w.abortable t
    then (do
      success ← abort_fn t
      modify (λ v. record v { abortable = update v.abortable t false })
      if_succeeded success (reschedule t (raise cancelled)))
        w
    else (ok tt, w)

-- `checkpoint_if_cancelled`: `pending` says whether a cancellation of the task is due. The task is
-- then suspended once before it gets the exception, which no state of this development shows.
unfoldable pub checkpoint_if_cancelled : {S : Type 0} → Bool → Exec S Unit
checkpoint_if_cancelled pending = ensure cancelled (not pending)

-- `cancel_shielded_checkpoint`: the task goes to the end of the run queue.
unfoldable pub cancel_shielded_checkpoint : Task → Exec World Unit
unfolding reschedule
cancel_shielded_checkpoint t = reschedule t (ok none)
