-- ===== src/MemoryChannel.antt =====
-- trio/_channel.py: `open_memory_channel` and its two kinds of endpoints. A call takes the shared
-- `MemoryChannelState` together with the endpoints and the scheduler's state. Objects sent are
-- their identities; an endpoint is a number, and `ends` has what belongs to it. A Python set of
-- tasks is a list of them, in the order in which they were added.
pub mod Order
pub mod Invariant
mod Examples
use trio.Prelude.{
  ℕ, suc, ◌+◌, ◌-◌, Bool, true, false, not, Option, none, some, List, [], ◌∷◌, ◌++◌, if◌then◌else◌,
  ltb, ◌==◌, length, nonempty, mem, insert_last, remove, update, ℤ, pos, negsuc,
}
use trio.Exec.{
  Error, would_block, closed_resource_error, broken_resource_error, end_of_channel, key_error,
  attribute_error, assertion_error, value_error, Result, ok, raise, Exec, throw, modify, ensure,
  gets, zoom, try_nowait, ◌>>=◌, ◌>>◌, pure,
}
use trio.Run.{
  succeeded, Task, Outcome, World, reschedule, wait_task_rescheduled, attempt_abort,
  checkpoint_if_cancelled, cancel_shielded_checkpoint,
}

pub data BufferSize : Type 0 where
  finite : ℕ → BufferSize
  infinite : BufferSize

pub record Endpoint : Type 0 where
  pub closed : Bool
  pub tasks : List Task

pub record MemoryChannel : Type 0 where
  pub world : World
  pub ends : ℕ → Endpoint
  pub next_end : ℕ
  pub max_buffer_size : BufferSize
  pub data_queue : List ℕ
  pub open_send_channels : ℕ
  pub open_receive_channels : ℕ
  pub send_tasks : List (Task × ℕ)
  pub receive_tasks : List Task

abbrev pub on_world : {A : Type 0} → Exec World A → Exec MemoryChannel A
on_world = zoom (λ s. s.world) (λ w s. record s { world = w })

-- `len(data) < max_buffer_size`
abbrev pub below : ℕ → BufferSize → Bool
below count (finite n) = ltb count n
below count infinite = true

abbrev pub set_tasks : ℕ → List Task → MemoryChannel → MemoryChannel
set_tasks e ts s = record s {
  ends = update s.ends e (record { closed = (s.ends e).closed; tasks = ts });
}

-- `MemorySendChannel._create(state)`
create_send : Exec MemoryChannel ℕ
create_send s = (
  ok s.next_end,
  record s {
    ends = update s.ends s.next_end (record { closed = false; tasks = [] });
    next_end = s.next_end + 1;
    open_send_channels = s.open_send_channels + 1;
  },
)

-- `MemoryReceiveChannel._create(state)`
create_receive : Exec MemoryChannel ℕ
create_receive s = (
  ok s.next_end,
  record s {
    ends = update s.ends s.next_end (record { closed = false; tasks = [] });
    next_end = s.next_end + 1;
    open_receive_channels = s.open_receive_channels + 1;
  },
)

abbrev pub new_state : World → BufferSize → MemoryChannel
new_state w size = record {
  world = w;
  ends = λ _. record { closed = false; tasks = [] };
  next_end = 0;
  max_buffer_size = size;
  data_queue = [];
  open_send_channels = 0;
  open_receive_channels = 0;
  send_tasks = [];
  receive_tasks = [];
}

both_ends : Exec MemoryChannel (ℕ × ℕ)
unfolding create_send create_receive
both_ends = do s ← create_send; r ← create_receive; pure (s, r)

-- `none` is `math.inf`. The endpoints are numbers 0 and 1.
pub open_memory_channel : World → Option ℤ → Result (ℕ × ℕ) × MemoryChannel
unfolding both_ends
open_memory_channel w none = both_ends (new_state w infinite)
open_memory_channel w (some (pos n)) = both_ends (new_state w (finite n))
open_memory_channel w (some (negsuc n)) = (raise value_error, new_state w infinite)

-- `self._tasks.remove(task)`
unfoldable leave : ℕ → Task → Exec MemoryChannel Unit
unfolding mem remove
leave e t s =
    if mem t (s.ends e).tasks
    then (ok tt, set_tasks e (remove t (s.ends e).tasks) s)
    else (raise key_error, s)

-- `task.custom_sleep_data._tasks.remove(task)`
unfoldable forget : Task → Exec MemoryChannel Unit
unfolding leave
forget t s = elim (s.world.sleep_data t) [
  | none ↦ (raise attribute_error, s)
  | some e ↦ leave e t s
]

-- The keys of `send_tasks`, oldest first.
abbrev pub senders : List (Task × ℕ) → List Task
senders [] = []
senders ((t, v) ∷ l) = t ∷ senders l

abbrev pub delete_key : Task → List (Task × ℕ) → List (Task × ℕ)
delete_key t [] = []
delete_key t ((u, v) ∷ l) = if t == u then l else (u, v) ∷ delete_key t l

abbrev pub set_key : Task → ℕ → List (Task × ℕ) → List (Task × ℕ)
set_key t v [] = (t, v) ∷ []
set_key t v ((u, w) ∷ l) = if t == u then (u, v) ∷ l else (u, w) ∷ set_key t v l

-- `del self._state.send_tasks[task]`
unfoldable delete_sender : Task → Exec MemoryChannel Unit
unfolding mem
delete_sender t s =
    if mem t (senders s.send_tasks)
    then (ok tt, record s { send_tasks = delete_key t s.send_tasks })
    else (raise key_error, s)

-- `del self._state.receive_tasks[task]`
unfoldable delete_receiver : Task → Exec MemoryChannel Unit
unfolding mem remove
delete_receiver t s =
    if mem t s.receive_tasks
    then (ok tt, record s { receive_tasks = remove t s.receive_tasks })
    else (raise key_error, s)

-- What `send_nowait` does where the channel is open at both ends.
deliver : ℕ → List Task → Exec MemoryChannel Unit
unfolding forget reschedule
deliver v [] s =
    if below (length s.data_queue) s.max_buffer_size
    then (ok tt, record s { data_queue = s.data_queue ++ v ∷ [] })
    else (raise would_block, s)
deliver v (t ∷ rest) s =
    (do
      ensure assertion_error (not (nonempty s.data_queue))
      modify (λ s. record s { receive_tasks = rest })
      forget t
      on_world (reschedule t (ok (some v))))
      s

unfoldable pub send_nowait : ℕ → ℕ → Exec MemoryChannel Unit
unfolding deliver
send_nowait e v s =
    if (s.ends e).closed
    then (raise closed_resource_error, s)
    else if s.open_receive_channels == 0
    then (raise broken_resource_error, s)
    else deliver v s.receive_tasks s

-- `send` by the task `t` up to the point where it is suspended: waiting, or at the end of the run
-- queue with its value sent.
unfoldable pub send : Bool → Task → ℕ → ℕ → Exec MemoryChannel Unit
unfolding send_nowait insert_last wait_task_rescheduled
send pending t e v = do
  checkpoint_if_cancelled pending
  try_nowait (send_nowait e v)
      (do
        modify (λ s. set_tasks e (insert_last t (s.ends e).tasks) s)
        modify (λ s. record s { send_tasks = set_key t v s.send_tasks })
        modify (λ s. record s {
          world = record s.world { sleep_data = update s.world.sleep_data t (some e) };
        })
        on_world (wait_task_rescheduled t))
      (λ _. on_world (cancel_shielded_checkpoint t))

-- The abort function of `send`, and the delivery of a cancellation that calls it.
unfoldable abort_send : ℕ → Task → Exec MemoryChannel Unit
unfolding leave delete_sender
abort_send e t = do leave e t; delete_sender t

unfoldable pub cancel_send : ℕ → Task → Exec MemoryChannel Unit
unfolding abort_send attempt_abort
cancel_send e t s =
    if s.world.abortable t
    then (do abort_send e t; on_world (attempt_abort (λ _. pure succeeded) t)) s
    else (ok tt, s)

-- The first `if` of `receive_nowait`: a waiting sender's value goes into the buffer.
admit : List (Task × ℕ) → Exec MemoryChannel Unit
unfolding forget reschedule
admit [] = pure tt
admit ((t, v) ∷ rest) = do
  modify (λ s. record s { send_tasks = rest })
  forget t
  on_world (reschedule t (ok none))
  modify (λ s. record s { data_queue = s.data_queue ++ v ∷ [] })

-- The rest of it.
pop_left : List ℕ → Exec MemoryChannel ℕ
pop_left (v ∷ rest) s = (ok v, record s { data_queue = rest })
pop_left [] s = (raise (if s.open_send_channels == 0 then end_of_channel else would_block), s)

unfoldable pub receive_nowait : ℕ → Exec MemoryChannel ℕ
unfolding admit pop_left
receive_nowait e s =
    if (s.ends e).closed
    then (raise closed_resource_error, s)
    else (do admit s.send_tasks; (λ s. pop_left s.data_queue s)) s

-- `receive`: as `send`. The value of a task that waits is the outcome with which it is rescheduled.
unfoldable pub receive : Bool → Task → ℕ → Exec MemoryChannel (Option ℕ)
unfolding receive_nowait insert_last wait_task_rescheduled
receive pending t e = do
  checkpoint_if_cancelled pending
  try_nowait (receive_nowait e)
      (do
        modify (λ s. set_tasks e (insert_last t (s.ends e).tasks) s)
        modify (λ s. record s { receive_tasks = insert_last t s.receive_tasks })
        modify (λ s. record s {
          world = record s.world { sleep_data = update s.world.sleep_data t (some e) };
        })
        on_world (wait_task_rescheduled t)
        pure none)
      (λ v. do on_world (cancel_shielded_checkpoint t); pure (some v))

unfoldable abort_receive : ℕ → Task → Exec MemoryChannel Unit
unfolding leave delete_receiver
abort_receive e t = do leave e t; delete_receiver t

unfoldable pub cancel_receive : ℕ → Task → Exec MemoryChannel Unit
unfolding abort_receive attempt_abort
cancel_receive e t s =
    if s.world.abortable t
    then (do abort_receive e t; on_world (attempt_abort (λ _. pure succeeded) t)) s
    else (ok tt, s)

unfoldable pub clone_send : ℕ → Exec MemoryChannel ℕ
unfolding create_send
clone_send e s = if (s.ends e).closed then (raise closed_resource_error, s) else create_send s

unfoldable pub clone_receive : ℕ → Exec MemoryChannel ℕ
unfolding create_receive
clone_receive e s = if (s.ends e).closed then (raise closed_resource_error, s) else create_receive s

-- The loops of `close`: over the tasks of the endpoint, and over those at the other side.
wake_own : (Task → Exec MemoryChannel Unit) → List Task → Exec MemoryChannel Unit
unfolding reschedule
wake_own drop_key [] = pure tt
wake_own drop_key (t ∷ ts) = do
  on_world (reschedule t (raise closed_resource_error))
  drop_key t
  wake_own drop_key ts

wake_others : Error → List Task → Exec MemoryChannel Unit
unfolding forget reschedule
wake_others e [] = pure tt
wake_others e (t ∷ ts) = do forget t; on_world (reschedule t (raise e)); wake_others e ts

unfoldable pub close_send : ℕ → Exec MemoryChannel Unit
unfolding delete_sender wake_own wake_others
close_send e s =
    if (s.ends e).closed
    then (ok tt, s)
    else (do
      modify (λ s. record s {
        ends = update s.ends e (record { closed = true; tasks = (s.ends e).tasks });
      })
      wake_own delete_sender (s.ends e).tasks
      modify (λ s. set_tasks e [] s)
      modify (λ s. record s { open_send_channels = s.open_send_channels - 1 })
      (λ s.
          (if s.open_send_channels == 0
              then (do
                ensure assertion_error (not (nonempty (senders s.send_tasks)))
                wake_others end_of_channel s.receive_tasks
                modify (λ s. record s { receive_tasks = [] }))
              else pure tt)
            s))
        s

unfoldable pub close_receive : ℕ → Exec MemoryChannel Unit
unfolding delete_receiver wake_own wake_others
close_receive e s =
    if (s.ends e).closed
    then (ok tt, s)
    else (do
      modify (λ s. record s {
        ends = update s.ends e (record { closed = true; tasks = (s.ends e).tasks });
      })
      wake_own delete_receiver (s.ends e).tasks
      modify (λ s. set_tasks e [] s)
      modify (λ s. record s { open_receive_channels = s.open_receive_channels - 1 })
      (λ s.
          (if s.open_receive_channels == 0
              then (do
                ensure assertion_error (not (nonempty s.receive_tasks))
                wake_others broken_resource_error (senders s.send_tasks)
                modify (λ s. record s { send_tasks = []; data_queue = [] }))
              else pure tt)
            s))
        s

pub record MemoryChannelStats : Type 0 where
  pub current_buffer_used : ℕ
  pub max_buffer_size : BufferSize
  pub open_send_channels : ℕ
  pub open_receive_channels : ℕ
  pub tasks_waiting_send : ℕ
  pub tasks_waiting_receive : ℕ

pub statistics : MemoryChannel → MemoryChannelStats
statistics s = record {
  current_buffer_used = length s.data_queue;
  max_buffer_size = s.max_buffer_size;
  open_send_channels = s.open_send_channels;
  open_receive_channels = s.open_receive_channels;
  tasks_waiting_send = length s.send_tasks;
  tasks_waiting_receive = length s.receive_tasks;
}
