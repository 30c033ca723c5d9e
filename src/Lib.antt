-- ===== src/Lib.antt =====
-- A model of the part of Trio, a Python library for asynchronous programs, through which tasks wait
-- for one another: the scheduler's interface, parking lots, the synchronization primitives, and the
-- queues and channels between tasks; of nurseries, cancel scopes, the epoll manager and the test
-- helpers that order tasks; and of the wire format of its DTLS.
--
-- How the program is put together. Tasks are coroutines that the run loop resumes one at a time. A
-- task that waits enters itself in some object, hands an abort function to `wait_task_rescheduled`
-- and is suspended; another task calls `reschedule` for it, which puts it in the run queue, or a
-- cancellation calls its abort function and, where that succeeds, reschedules it with Cancelled. A
-- `ParkingLot` is a queue of suspended tasks; semaphores, locks, conditions, limiters and unbounded
-- queues each have one; events and memory channels call the scheduler themselves.
--
-- The files.
-- - Prelude: lists, tests and maps over native numbers, the names of the libraries.
-- - Exec: outcomes, exceptions (trio/_core/_exceptions.py) and code that mutates objects and may
--   raise; what was written before a raise stays written.
-- - Run: `World`, the scheduling fields of all tasks with the run queue and the contents of all lots;
--   `reschedule`, `resume` (a step of the run loop), `attempt_abort` of trio/_core/_run.py;
--   `wait_task_rescheduled`, `cancel_shielded_checkpoint` of trio/_core/_traps.py.
-- - ParkingLot: `ParkingLot` of trio/_core/_parking_lot.py. ParkingLot/Wakeups has what `unpark`
--   computes, Invariant the agreement of tasks and lots, Steps and Repark and Cancel the operations
--   under it, Reach all interleavings.
-- - CancelScope: `CancelStatus` and `CancelScope` of trio/_core/_run.py. CancelScope/Delivery has what
--   they ask of abort functions and Parked how parking lots give it, Forest and Settled trees of
--   statuses, Recalculate the walk through them, Cancel the calls that start it, Expiry `Deadlines`
--   with its heap (Count the number of its entries, Passing `expire`), Exit the closing of a status.
-- - Nursery: `Nursery`, `NurseryManager` and `_TaskStatus` of trio/_core/_run.py, with `spawn_impl` and
--   `task_exited`. Nursery/Invariant has how nurseries and tasks fit together, Calls, Moves, Starts and
--   Handover the calls under it, History all sequences of calls, Wakeup the waking of a parent.
-- - Epoll: `EpollIOManager` of trio/_core/_io_epoll.py and `wake_all` of trio/_core/_io_common.py.
--   Epoll/Waiting has who waits and who is released, Waking `wake_all`, Registration how waiters are
--   registered, Asked what epoll has been asked for by the calls it has accepted, Told how the flags
--   keep to that, Entering, Leaving and Events the calls, History all sequences of them.
-- - MultiError: `_filter_impl` and the constructor of trio/_core/_multierror.py. MultiError/Leaves has
--   what a filter returns.
-- - EntryQueue: `EntryQueue` of trio/_core/_entry_queue.py. EntryQueue/Shutdown has its end.
-- - Event, Semaphore, Lock, Condition, CapacityLimiter: the classes of trio/_sync.py, `Lock` for
--   `_LockImpl`. Behaviour (Calls, Wakeups) has the single calls, Reach the histories, Handoff what
--   follows a notification.
-- - UnboundedQueue: trio/_core/_unbounded_queue.py. UnboundedQueue/Reach has the histories.
-- - MemoryChannel: trio/_channel.py. MemoryChannel/Order has the channel as a queue,
--   Invariant its validity.
-- - MemoryStreams: `_UnboundedByteQueue` and `memory_stream_pump` of trio/testing/_memory_streams.py,
--   with `ConflictDetector` of trio/_util.py. MemoryStreams/Pump has what a pump moves.
-- - Lockstep: `_LockstepByteQueue` of trio/testing/_memory_streams.py. Lockstep/Phases has the parts of
--   its calls, Order who sends and receives, Sending, Receiving, Finishing and Moves the calls, History
--   all sequences of them.
-- - Sequencer: trio/testing/_sequencer.py. Sequencer/Order has what becomes of blocks, Moves and
--   Entering the calls, History all sequences of them.
-- - Dtls: the wire format of trio/_dtls.py. Dtls/Bytes has numbers as bytes, Dtls/Record the records,
--   Dtls/Handshake the fragments of handshake messages, Dtls/ClientHello the first message of a
--   client, Dtls/Cookie the cookies and challenges, Dtls/Volley what takes volleys of messages apart
--   and puts them into packets (Volley/Emitted the encoder's state as the records it has made, Pieces
--   and Fragments one message, Loop its loop, Messages all classes of messages, RoundTrip the volley).
-- A file Examples has the tests of its component and instances of its theorems.
--
-- How code is modelled. A method of the source is a function of its name; its self is the state that
-- the function takes and returns, and the object's parking lot a number at which `World` has the
-- tasks, oldest first. Tasks, borrowers and values sent are numbers for their identities. Between
-- two suspensions no other task runs, so a method is one function up to the point where it suspends
-- its task, and what runs after that is a function of its own (`acquire_cancelled`,
-- `wait_cancelled`, `get_batch_protected`, `get_finished`). Whether a cancellation is due at a
-- checkpoint is the argument `pending`, and `cancel` delivers one to a task that waits. A history is
-- any sequence of calls by any tasks; its steps `elsewhere` are those of the rest of the program.
-- `runq` also holds the tasks of the batch that the run loop has taken and not resumed, and `resume`
-- takes any of them, as the loop's order is random. A Python set of tasks is a list in the order of
-- insertion, and the theorems depend on it only where they name an order of scheduling. Counts are
-- natural numbers; a negative count, as `CapacityLimiter` may compute, is 0, which wakes as many.
-- Loops are by recursion on the list or count they run over. Two loops of Dtls are on fuel:
-- `records_loop` has the packet's length, since each round takes at least the header's bytes, and
-- `fragment_loop` has 2 * length body + 4 rounds, since from an MTU of 26 on no two rounds in a row
-- take nothing of the message; with a smaller MTU the source's loop does not end. Where the fuel
-- ends the outcome is `out_of_fuel`, which the theorems exclude. Python's bytes are lists of numbers
-- below 256, a generator is the list of what it yields with its end (`Records`); the digest of a
-- cookie is a parameter, the tick of the clock and the random salt are arguments. `recalculate`
-- takes its rounds as an argument, and as many as there are statuses in its tree are enough. A
-- cancel scope and its only status have one number, times are natural numbers, and a Python set of
-- statuses is a list. Whether epoll accepts a call is a parameter, a function of the calls and
-- events before it, and the theorems hold for each such function.
--
-- Not modelled: the run loop's batches and instruments, what the exit of a cancel scope does to
-- exceptions, the guest mode and the cancel statuses that `started` moves; clocks and timeouts; the
-- printing of exception groups; threads, signals and keyboard interrupts; sockets, TLS, the
-- endpoints and handshakes of DTLS, which drive OpenSSL, subprocesses, files and the event loops of
-- other systems, which mostly call the operating system; type checks of arguments; texts of
-- exceptions.
pub mod Prelude
pub mod Exec
pub mod Run
pub mod ParkingLot
pub mod Event
pub mod Semaphore
pub mod Lock
pub mod Condition
pub mod CapacityLimiter
pub mod UnboundedQueue
pub mod MemoryChannel
pub mod MemoryStreams
pub mod Dtls
pub mod CancelScope
pub mod MultiError
pub mod EntryQueue
pub mod Nursery
pub mod Epoll
pub mod Sequencer
pub mod Lockstep
