-- ===== src/Epoll.antt =====
-- trio/_core/_io_epoll.py: `EpollIOManager`, with `wake_all` of trio/_core/_io_common.py. What epoll
-- answers is the parameter `accepts`: given the calls so far, whether the next one is accepted, or
-- raises OSError. File descriptors are numbers. `current_task` is an argument, `none` where there is
-- no task. A task's abort function captures the waiters of its descriptor, and it is only called
-- while these are still registered, so `abort` looks them up.
pub mod Waiting
pub mod Waking
pub mod Registration
pub mod Calls
pub mod Events
pub mod Entering
pub mod Leaving
pub mod Asked
pub mod Told
pub mod History
mod Examples
use trio.Prelude.{
  ℕ, Bool, true, false, not, ◌&&◌, ◌||◌, Option, none, some, List, [], ◌∷◌, ◌++◌, if◌then◌else◌,
  ◌==◌, update,
}
use trio.Exec.{
  busy_resource_error, closed_resource_error, os_error, cancelled, Error, Result, ok, raise, Exec,
  pure, modify, ensure, zoom, ◌>>=◌, ◌>>◌,
}
use trio.Run.{Task, Outcome, World, reschedule, wait_task_rescheduled}

-- Which of EPOLLIN and EPOLLOUT is set.
pub record Interest : Type 0 where
  pub input : Bool
  pub output : Bool

-- The flags of an event, where `other` says that any other flag is set, as EPOLLHUP or EPOLLERR.
pub record Flags : Type 0 where
  pub input : Bool
  pub output : Bool
  pub other : Bool

pub record EpollWaiters : Type 0 where
  pub read_task : Option Task
  pub write_task : Option Task
  pub current_flags : Interest

-- The values of `attr_name`.
pub data End : Type 0 where
  read_task write_task : End

-- What happens between the manager and epoll: the calls that may fail, EPOLLONESHOT being always set,
-- and an event, by which epoll disarms the descriptor.
pub data Call : Type 0 where
  modify_call register_call : ℕ → Interest → Call
  unregister_call : ℕ → Call
  event_call : ℕ → Call

-- `registered` has `none` for a missing key.
pub record EpollIoManager : Type 0 where
  pub world : World
  pub registered : ℕ → Option EpollWaiters
  pub force_wakeup_fd : ℕ
  pub calls : List Call

abbrev pub no_waiters : EpollWaiters
no_waiters = record {
  read_task = none;
  write_task = none;
  current_flags = record { input = false; output = false };
}

-- The `defaultdict`, whose new entries the callers store or delete.
abbrev pub or_default : Option EpollWaiters → EpollWaiters
or_default none = no_waiters
or_default (some w) = w

abbrev pub waiters : ℕ → EpollIoManager → EpollWaiters
waiters fd s = or_default (s.registered fd)

abbrev pub store : ℕ → EpollWaiters → EpollIoManager → EpollIoManager
store fd w s = record s { registered = update s.registered fd (some w) }

abbrev pub forget : ℕ → EpollIoManager → EpollIoManager
forget fd s = record s { registered = update s.registered fd none }

abbrev pub made : Call → EpollIoManager → EpollIoManager
made c s = record s { calls = s.calls ++ c ∷ [] }

abbrev pub is_some : Option Task → Bool
is_some none = false
is_some (some t) = true

abbrev pub task_at : End → EpollWaiters → Option Task
task_at read_task w = w.read_task
task_at write_task w = w.write_task

-- `setattr`
abbrev pub set_task : End → Option Task → EpollWaiters → EpollWaiters
set_task read_task o w = record w { read_task = o }
set_task write_task o w = record w { write_task = o }

abbrev pub is_current : Option Task → Task → Bool
is_current none t = false
is_current (some u) t = u == t

-- One task of `wake_all`: whether it is the current one is returned.
abbrev pub wake : Option Task → Error → Option Task → Exec World Bool
wake current e none = pure false
wake current e (some t) =
    if is_current current t then pure true else (reschedule t (raise e) >>= λ x. pure false)

-- What `wake_all` changes.
pub record Woken : Type 0 where
  pub world : World
  pub waiters : EpollWaiters

abbrev pub wake_at : Option Task → Error → End → Exec Woken Bool
wake_at current e end = do
  raises ← (λ s.
      zoom (λ v. v.world) (λ w v. record v { world = w }) (wake current e (task_at end s.waiters))
        s)
  modify (λ s. record s { waiters = set_task end none s.waiters })
  pure raises

unfoldable pub wake_all : Option Task → Error → Exec Woken Unit
unfolding reschedule
wake_all current e = do
  first ← wake_at current e read_task
  second ← wake_at current e write_task
  ensure e (not (first || second))

abbrev pub wanted_flags : EpollWaiters → Interest
wanted_flags w = record { input = is_some w.read_task; output = is_some w.write_task }

abbrev pub same : Bool → Bool → Bool
same a b = if a then b else not b

abbrev pub same_flags : Interest → Interest → Bool
same_flags a b = same a.input b.input && same a.output b.output

abbrev pub is_waited : EpollWaiters → Bool
is_waited w = is_some w.read_task || is_some w.write_task

-- `wake_all` of waiters that are registered no more.
abbrev pub wake_unregistered : Option Task → EpollWaiters → Exec EpollIoManager Unit
wake_unregistered current w =
    zoom (λ s. record { world = s.world; waiters = w }) (λ v s. record s { world = v.world })
      (wake_all current os_error)

abbrev pub drop_idle : ℕ → EpollIoManager → EpollIoManager
drop_idle fd s = if is_waited (waiters fd s) then s else forget fd s

abbrev pub with_flags : EpollWaiters → EpollWaiters
with_flags w = record w { current_flags = wanted_flags w }

-- The waiters are deleted if `wake_all` does not raise; what epoll answers is ignored.
unfoldable pub notify_closing : Option Task → ℕ → Exec EpollIoManager Unit
unfolding wake_all
notify_closing current fd = do
  zoom (λ s. record { world = s.world; waiters = waiters fd s })
      (λ v s. store fd v.waiters (record s { world = v.world }))
      (wake_all current closed_resource_error)
  modify (λ s. forget fd s)
  modify (λ s. made (unregister_call fd) s)

-- `flags & ~EPOLLIN`, or `flags & ~EPOLLOUT`, is not zero.
abbrev pub concerns : End → Flags → Bool
concerns read_task f = f.input || f.other
concerns write_task f = f.output || f.other

abbrev pub wake_ready : ℕ → End → Flags → Exec EpollIoManager Unit
wake_ready fd end f s =
    (if concerns end f
        then elim (task_at end (waiters fd s)) [
          | none ↦ pure tt
          | some t ↦ (do
            zoom (λ s. s.world) (λ w s. record s { world = w }) (reschedule t (ok none))
            modify (λ s. store fd (set_task end none (waiters fd s)) s))
        ]
        else pure tt)
      s

module _ (accepts : List Call → Call → Bool) where
  -- EPOLL_CTL_MOD, and EPOLL_CTL_ADD where it fails: the answer of the last call.
  unfoldable pub asks : ℕ → Interest → EpollIoManager → Bool × EpollIoManager
  asks fd f s =
      let first = made (modify_call fd f) s in
      if accepts s.calls (modify_call fd f)
      then (true, first)
      else (accepts first.calls (register_call fd f), made (register_call fd f) first)

  unfoldable pub update_registrations : Option Task → ℕ → Exec EpollIoManager Unit
  unfolding asks wake_all
  update_registrations current fd s =
      let w = waiters fd s in
      if same_flags (wanted_flags w) w.current_flags
      then (ok tt, drop_idle fd s)
      else (let (done, u) = asks fd (wanted_flags w) s in
          if done
          then (ok tt, drop_idle fd (store fd (with_flags w) u))
          else wake_unregistered current w (forget fd u))

  -- `_epoll_wait` by the task `t`, up to where it is suspended.
  unfoldable pub epoll_wait : ℕ → End → Task → Exec EpollIoManager Unit
  unfolding update_registrations wait_task_rescheduled
  epoll_wait fd end t = do
    (λ s. ensure busy_resource_error (not (is_some (task_at end (waiters fd s)))) s)
    modify (λ s. store fd (set_task end (some t) (waiters fd s)) s)
    update_registrations (some t) fd
    zoom (λ s. s.world) (λ w s. record s { world = w }) (wait_task_rescheduled t)

  unfoldable pub abort : Option Task → ℕ → End → Exec EpollIoManager Unit
  unfolding update_registrations
  abort current fd end = do
    modify (λ s. store fd (set_task end none (waiters fd s)) s)
    update_registrations current fd

  -- A cancellation is delivered to the task `t` that waits for `fd`.
  unfoldable pub cancel : Option Task → ℕ → End → Task → Exec EpollIoManager Unit
  unfolding abort reschedule
  cancel current fd end t s =
      (if s.world.abortable t
          then (do
            abort current fd end
            zoom (λ s. s.world) (λ w s. record s { world = w })
                (do
                  modify (λ w. record w { abortable = update w.abortable t false })
                  reschedule t (raise cancelled)))
          else pure tt)
        s

  -- One event, by which EPOLLONESHOT has cleared the flags. What `drain` reads from the socket is no state of
  -- the manager.
  unfoldable pub process_event : ℕ → Flags → Exec EpollIoManager Unit
  unfolding update_registrations reschedule
  process_event fd f s =
      (if fd == s.force_wakeup_fd then pure tt else (do
        modify (λ s. made (event_call fd) (
            store fd
              (record (waiters fd s) { current_flags = record { input = false; output = false } })
              s))
        wake_ready fd write_task f
        wake_ready fd read_task f
        update_registrations none fd))
        s

  unfoldable pub process_events : List (ℕ × Flags) → Exec EpollIoManager Unit
  unfolding process_event
  process_events [] = pure tt
  process_events ((fd, f) ∷ events) = process_event fd f >>= λ x. process_events events
