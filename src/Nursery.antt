-- ===== src/Nursery.antt =====
-- trio/_core/_run.py: nurseries and the tasks in them: `Nursery`, `NurseryManager`, `_TaskStatus`, and
-- `spawn_impl` and `task_exited` of the runner. Nurseries and exceptions are numbers. Of a nursery's
-- cancel scope there is the flag `cancel_called`; what its `cancel` does is in CancelScope, where the
-- parent's abort function is `aborted`. Moving cancel statuses and tasks between scopes is left out.
pub mod Invariant
pub mod Calls
pub mod Moves
pub mod Starts
pub mod Handover
pub mod Wakeup
pub mod History
mod Examples
use trio.Prelude.{
  ℕ, zero, suc, ◌+◌, ◌-◌, Bool, true, false, not, ◌||◌, Option, none, some, List, [], ◌∷◌, ◌++◌,
  if◌then◌else◌, ◌==◌, nonempty, update, mem, remove, insert_last,
}
use trio.Exec.{
  runtime_error, key_error, assertion_error, attribute_error, Result, ok, raise, Exec, pure, modify,
  ensure, zoom, ◌>>=◌, ◌>>◌,
}
use trio.Run.{Task, World, reschedule}

pub record Nursery : Type 0 where
  pub parent_task : Task
  pub children : List Task
  pub pending_excs : List ℕ
  pub nested_child_running : Bool
  pub parent_waiting_in_aexit : Bool
  pub pending_starts : ℕ
  pub closed : Bool
  pub cancel_called : Bool

-- All nurseries, `_parent_nursery` of the tasks, the runner's `tasks`, and for the old nursery of a
-- `_TaskStatus` its `_called_started`.
pub record Nurseries : Type 0 where
  pub world : World
  pub nurseries : ℕ → Nursery
  pub parent_nursery : Task → ℕ
  pub tasks : List Task
  pub called_started : ℕ → Bool

abbrev pub put : ℕ → Nursery → Nurseries → Nurseries
put n v s = record s { nurseries = update s.nurseries n v }

abbrev pub change : ℕ → (Nursery → Nursery) → Exec Nurseries Unit
change n f = modify λ s. put n (f (s.nurseries n)) s

abbrev pub on_world : Exec World Unit → Exec Nurseries Unit
on_world m = zoom (λ s. s.world) (λ w s. record s { world = w }) m

-- `Nursery(parent_task, cancel_scope)`
abbrev pub create : Task → Nursery
create t = record {
  parent_task = t;
  children = [];
  pending_excs = [];
  nested_child_running = true;
  parent_waiting_in_aexit = false;
  pending_starts = 0;
  closed = false;
  cancel_called = false;
}

unfoldable pub open_nursery : ℕ → Task → Exec Nurseries Unit
open_nursery n t = modify (put n (create t))

unfoldable pub add_exc : ℕ → ℕ → Exec Nurseries Unit
add_exc n e =
    change n λ v. record v { pending_excs = v.pending_excs ++ e ∷ []; cancel_called = true }

-- `any([self._nested_child_running, self._children, self._pending_starts])`
abbrev pub is_busy : Nursery → Bool
is_busy v = v.nested_child_running || nonempty v.children || not (v.pending_starts == 0)

unfoldable pub check_nursery_closed : ℕ → Exec Nurseries Unit
unfolding reschedule
check_nursery_closed n s =
    if is_busy (s.nurseries n)
    then (ok tt, s)
    else (if (s.nurseries n).parent_waiting_in_aexit
          then (do
            change n (λ v. record v { closed = true; parent_waiting_in_aexit = false })
            on_world (reschedule (s.nurseries n).parent_task (ok none)))
          else change n (λ v. record v { closed = true }))
        s

-- What a task ends with.
abbrev pub add_error : ℕ → Result (Unit {0}) → ℕ → Exec Nurseries Unit
add_error n (ok x) e = pure tt
add_error n (raise k) e = add_exc n e

-- `outcome` says whether there is an error, and `e` is the exception then.
unfoldable pub child_finished : ℕ → Task → Result (Unit {0}) → ℕ → Exec Nurseries Unit
unfolding add_exc check_nursery_closed mem remove
child_finished n t outcome e = do
  (λ s. ensure key_error (mem t (s.nurseries n).children) s)
  change n (λ v. record v { children = remove t v.children })
  add_error n outcome e
  check_nursery_closed n

unfoldable pub spawn_impl : ℕ → Task → Exec Nurseries Unit
unfolding reschedule insert_last
spawn_impl n t = do
  (λ s. ensure runtime_error (not (s.nurseries n).closed) s)
  modify (λ s. record s {
    parent_nursery = update s.parent_nursery t n;
    tasks = insert_last t s.tasks;
  })
  change n (λ v. record v { children = insert_last t v.children })
  on_world (reschedule t (ok none))

-- For a task with a nursery, that is any but the init task.
unfoldable pub task_exited : Task → Result (Unit {0}) → ℕ → Exec Nurseries Unit
unfolding child_finished mem remove
task_exited t outcome e = do
  (λ s. ensure key_error (mem t s.tasks) s)
  modify (λ s. record s { tasks = remove t s.tasks })
  (λ s. child_finished (s.parent_nursery t) t outcome e s)

-- `_nested_child_finished` up to where the parent waits, or does not: `nested_exc` is what the body of
-- the `async with` block ended with.
abbrev pub add_nested : ℕ → Option ℕ → Exec Nurseries Unit
add_nested n none = pure tt
add_nested n (some e) = add_exc n e

unfoldable pub nested_child_finished : ℕ → Option ℕ → Exec Nurseries Unit
unfolding add_exc check_nursery_closed
nested_child_finished n nested_exc = do
  add_nested n nested_exc
  change n (λ v. record v { nested_child_running = false })
  check_nursery_closed n
  (λ s.
      (if (s.nurseries n).closed
          then pure tt
          else change n (λ v. record v { parent_waiting_in_aexit = true }))
        s)

-- The abort function of that wait: the cancellation is saved, and the parent goes on waiting.
unfoldable pub aborted : ℕ → ℕ → Exec Nurseries Unit
unfolding add_exc
aborted n e = add_exc n e

-- What it raises when the nursery has closed: one exception as it is, unless the nursery is strict.
pub data Raised : Type 0 where
  nothing : Raised
  single : ℕ → Raised
  multi_error : List ℕ → Raised

unfoldable pub combined : Bool → List ℕ → Raised
combined strict [] = nothing
combined strict (e ∷ []) = if strict then multi_error (e ∷ []) else single e
combined strict (e ∷ f ∷ es) = multi_error (e ∷ f ∷ es)

-- `start` up to its wait for the child: `old` is the nursery that it opens for the caller `t`.
unfoldable pub start : ℕ → ℕ → Task → Task → Exec Nurseries Unit
unfolding open_nursery spawn_impl
start n old t child = do
  (λ s. ensure runtime_error (not (s.nurseries n).closed) s)
  change n (λ v. record v { pending_starts = v.pending_starts + 1 })
  open_nursery old t
  modify (λ s. record s { called_started = update s.called_started old false })
  spawn_impl old child

abbrev pub returns : Result (Unit {0}) → Exec Nurseries Unit
returns r s = (r, s)

-- What follows its wait, the `finally` first: `outcome` is what the old nursery raised.
unfoldable pub start_finished : ℕ → ℕ → Result (Unit {0}) → Exec Nurseries Unit
unfolding check_nursery_closed
start_finished n old outcome = do
  change n (λ v. record v { pending_starts = v.pending_starts - 1 })
  check_nursery_closed n
  returns outcome
  (λ s. ensure runtime_error (s.called_started old) s)

abbrev pub move_task : ℕ → Task → Nurseries → Nurseries
move_task new t s =
    put new (record (s.nurseries new) { children = insert_last t (s.nurseries new).children })
      (record s { parent_nursery = update s.parent_nursery t new })

unfoldable pub move_tasks : ℕ → List Task → Nurseries → Nurseries
unfolding insert_last
move_tasks new [] s = s
move_tasks new (t ∷ ts) s = move_tasks new ts (move_task new t s)

-- What `started` does when the old nursery is not cancelled.
unfoldable pub move_children : ℕ → ℕ → Exec Nurseries Unit
unfolding move_tasks check_nursery_closed
move_children old new = do
  (λ s. ensure assertion_error (not (s.nurseries new).closed) s)
  modify (λ s.
      move_tasks new (s.nurseries old).children
        (put old (record (s.nurseries old) { children = [] }) s))
  (λ s. ensure assertion_error (not (nonempty (s.nurseries old).children)) s)
  check_nursery_closed old

-- `started`, where `cancelled` is whether the old nursery's cancel status is effectively cancelled.
unfoldable pub started : Bool → ℕ → ℕ → Exec Nurseries Unit
unfolding move_children
started cancelled old new = do
  (λ s. ensure runtime_error (not (s.called_started old)) s)
  modify (λ s. record s { called_started = update s.called_started old true })
  (if cancelled then pure tt else move_children old new)
