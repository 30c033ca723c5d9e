-- ===== src/Epoll/Examples.antt =====
-- Runs of an epoll manager of trio/_core/_io_epoll.py: the tasks 7 and 8 wait for the descriptor 4.
use trio.Prelude.{ℕ, ◌≡◌, ◌≢◌, ◌⊎◌, refl, Bool, true, false, none, some, List, [], ◌∷◌}
use trio.Exec.{busy_resource_error, os_error, ok, raise}
use trio.ParkingLot.Reach.{initial}
use trio.Epoll.{
  EpollIoManager, EpollWaiters, wanted_flags, event_call, End, read_task, write_task, Call,
  modify_call, register_call, unregister_call, Flags, epoll_wait, process_event, process_events,
  notify_closing,
}
use trio.Epoll.Waiting.{at}
use trio.Epoll.Asked.{asked}
use trio.Epoll.Registration.{IsValid}
use trio.Epoll.History.{
  Step, History, begin, next, waits, events, History-IsValid, managers-IsValid, Step-keeps,
}
use trio.Epoll.Leaving.{notify_closing-closes}

-- A new descriptor is registered, and after that modified.
abbrev known : List Call → Call → Bool
known [] (modify_call fd f) = false
known (c ∷ cs) (modify_call fd f) = true
known cs (register_call fd f) = true
known cs (unregister_call fd) = true
known cs (event_call fd) = true

abbrev refuses : List Call → Call → Bool
refuses cs c = false

abbrev nobody : EpollIoManager
nobody = record { world = initial; registered = λ fd. none; force_wakeup_fd = 3; calls = [] }

abbrev reading : EpollIoManager
reading = (epoll_wait known 4 read_task 7 nobody).1

abbrev both : EpollIoManager
both = (epoll_wait known 4 write_task 8 reading).1

at-nobody : (fd : ℕ) (e : End) → at fd e nobody ≢ some 7
at-nobody fd read_task = λ k. cc
at-nobody fd write_task = λ k. cc

one_waits : Step known nobody reading
one_waits = waits 4 read_task 7 refl at-nobody

history : History known reading
history = next (begin nobody (λ fd. refl)) one_waits

managers-IsValid_example :
    IsValid reading
    × ((fd : ℕ) (w : EpollWaiters)
        → reading.registered fd ≡ some w
        → asked known fd reading.calls ≡ some (wanted_flags w))
managers-IsValid_example = managers-IsValid known history

flags :
    (both.registered 4)
    ≡ some (record {
      read_task = some 7;
      write_task = some 8;
      current_flags = record { input = true; output = true };
    })
unfolding epoll_wait
flags = refl

busy : (epoll_wait known 4 read_task 9 both).0 ≡ raise busy_resource_error
unfolding epoll_wait
busy = refl

-- The descriptor is bad: the caller gets the error.
bad_descriptor : (epoll_wait refuses 4 read_task 7 nobody).0 ≡ raise os_error
unfolding epoll_wait
bad_descriptor = refl

abbrev hang_up : Flags
hang_up = record { input = false; output = false; other = true }

wakes_both :
    ((process_event known 4 hang_up both).1.world.runq ≡ 8 ∷ 7 ∷ [])
    × ((process_event known 4 hang_up both).1.registered 4 ≡ none)
unfolding epoll_wait process_event
wakes_both = (refl, refl)

is_reading : at 4 read_task reading ≡ some 7
unfolding epoll_wait
is_reading = refl

Step-keeps_example :
    (at 4 read_task (process_events known ((4, hang_up) ∷ []) reading).1 ≡ some 7)
    ⊎ ((process_events known ((4, hang_up) ∷ []) reading).1.world.scheduled 7 ≡ true)
Step-keeps_example = Step-keeps known history (events ((4, hang_up) ∷ [])) 4 read_task 7 is_reading

notify_closing-closes_example :
    ((notify_closing none 4 reading).0 ≡ ok tt)
    × ((notify_closing none 4 reading).1.registered 4 ≡ none)
    × ((notify_closing none 4 reading).1.world.scheduled 7 ≡ true)
notify_closing-closes_example =
    notify_closing-closes none 4 reading (History-IsValid known history) (λ fd e t k. refl)
      read_task 7 is_reading
