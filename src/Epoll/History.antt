-- ===== src/Epoll/History.antt =====
-- Any history of an epoll manager of trio/_core/_io_epoll.py: tasks that wait, events in any order,
-- cancellations, and descriptors that are closed, whatever epoll answers.
use trio.Prelude.{ℕ, ◌≡◌, sym, ap, ◌∙◌, arith, ◌⊎◌, Bool, true, false, Option, none, some, List}
use trio.Run.{Task, World}
use trio.Epoll.{
  EpollWaiters, Interest, same, same_flags, wanted_flags, is_waited, EpollIoManager, End, Call,
  Flags, epoll_wait, cancel, process_events, notify_closing,
}
use trio.Epoll.Waiting.{at}
use trio.Epoll.Asked.{asked}
use trio.Epoll.Told.{
  is_asking, IsTold, epoll_wait-IsTold, cancel-IsTold, process_events-IsTold, notify_closing-IsTold,
}
use trio.Epoll.Registration.{no_task, IsArmed, IsValid, IsAwake}
use trio.Epoll.Calls.{IsReleased-IsKept, nobody-IsAwake, IsSafe, world-IsValid, IsApart}
use trio.Epoll.Events.{process_events-IsReturned}
use trio.Epoll.Entering.{epoll_wait-IsSafe}
use trio.Epoll.Leaving.{cancel-IsSafe, notify_closing-IsSafe}

same-eq : (a b : Bool) → same a b ≡ true → a ≡ b
same-eq true b h = ground (arith, h)
same-eq false b h = ground (arith, h)

same_flags-eq : (a b : Interest) → same_flags a b ≡ true → a ≡ b
same_flags-eq a b h =
    ap (λ x. record { input = x; output = a.output }) (same-eq a.input b.input (ground (arith, h)))
    ∙ ap (λ x. record { input = b.input; output = x })
        (same-eq a.output b.output (ground (arith, h)))

asked-wanted :
    {o : Option Interest} (w : EpollWaiters)
    → same_flags (wanted_flags w) w.current_flags ≡ true
    → is_waited w ≡ true
    → (is_asking w.current_flags ≡ true → o ≡ some w.current_flags)
    → o ≡ some (wanted_flags w)
asked-wanted w f a told =
    let e = same_flags-eq (wanted_flags w) w.current_flags f in
    told (ap is_asking (sym e) ∙ a) ∙ ap some (sym e)

module _ (accepts : List Call → Call → Bool) where
  -- A task that starts to wait runs, and so is not scheduled and waits nowhere. A cancellation reaches
  -- a task that waits, and the task that causes it, or that closes a descriptor, does not wait.
  pub data Step (s : EpollIoManager) : EpollIoManager → Type 0 where
    waits :
        (fd : ℕ) (e : End) (t : Task)
        → s.world.scheduled t ≡ false
        → IsApart s t
        → Step s (epoll_wait accepts fd e t s).1
    cancels :
        (current : Option Task) (fd : ℕ) (e : End) (t : Task)
        → at fd e s ≡ some t
        → IsAwake current s
        → Step s (cancel accepts current fd e t s).1
    events : (fs : List (ℕ × Flags)) → Step s (process_events accepts fs s).1
    closes :
        (current : Option Task) (fd : ℕ)
        → IsAwake current s
        → Step s (notify_closing current fd s).1

  pub Step-IsSafe : {s u : EpollIoManager} → IsValid s → Step s u → IsSafe s u
  Step-IsSafe {s} h (waits fd e t i a) = epoll_wait-IsSafe fd e t s h i a accepts
  Step-IsSafe {s} h (cancels c fd e t k a) = cancel-IsSafe accepts c fd e t s h k a
  Step-IsSafe {s} h (events fs) =
      let r = process_events-IsReturned accepts fs s h in
      record { valid = r.done.valid; kept = IsReleased-IsKept (nobody-IsAwake s) r.done.released }
  Step-IsSafe {s} h (closes c fd a) = notify_closing-IsSafe c fd s h a

  -- A manager without waiters, its steps, and whatever the scheduler does that schedules no task that
  -- waits.
  pub data History : EpollIoManager → Type 0 where
    begin : (s : EpollIoManager) → ((fd : ℕ) → s.registered fd ≡ none) → History s
    next : {s u : EpollIoManager} → History s → Step s u → History u
    elsewhere :
        {s : EpollIoManager}
        → History s
        → (w : World) → ((fd : ℕ) (e : End) (t : Task) → at fd e s ≡ some t → w.scheduled t ≡ false)
        → History (record s { world = w })

  unregistered :
      (s : EpollIoManager)
      → ((fd : ℕ) → s.registered fd ≡ none)
      → (fd : ℕ) (e : End) → at fd e s ≡ none
  unregistered s n fd e = rw (n fd) (no_task e)

  initial-IsValid : (s : EpollIoManager) → ((fd : ℕ) → s.registered fd ≡ none) → IsValid s
  initial-IsValid s n = record {
    sound = record {
      idle = λ fd e t k. cc (unregistered s n fd e, k);
      apart = λ fd gd e f t k l. cc (unregistered s n fd e, k);
    };
    armed = λ fd. rw (n fd) tt;
  }

  pub History-IsValid : {s : EpollIoManager} → History s → IsValid s
  History-IsValid (begin s n) = initial-IsValid s n
  History-IsValid (next h x) = (Step-IsSafe (History-IsValid h) x).valid
  History-IsValid (elsewhere {s} h w k) = world-IsValid s w (History-IsValid h) k

  Step-IsTold : {s u : EpollIoManager} → Step s u → IsTold accepts s → IsTold accepts u
  Step-IsTold {s} (waits fd e t i a) h = epoll_wait-IsTold accepts fd e t s h
  Step-IsTold {s} (cancels c fd e t k a) h = cancel-IsTold accepts c fd e t s h
  Step-IsTold {s} (events fs) h = process_events-IsTold accepts fs s h
  Step-IsTold {s} (closes c fd a) h = notify_closing-IsTold accepts c fd s h

  History-IsTold : {s : EpollIoManager} → History s → IsTold accepts s
  History-IsTold (begin s n) = λ fd. rw (n fd) (λ k. cc)
  History-IsTold (next h x) = Step-IsTold x (History-IsTold h)
  History-IsTold (elsewhere h w k) = History-IsTold h

  -- After any calls, whether they return or raise and whatever epoll answers: epoll has been asked, by
  -- the calls that it has accepted and since the last event, for just what the tasks wait for that wait
  -- for a registered descriptor; and each such descriptor has a task that waits for it, with the flags
  -- of what its tasks wait for, and no task that waits is scheduled or waits in two places.
  pub managers-IsValid :
      {s : EpollIoManager}
      → History s
      → IsValid s
        × ((fd : ℕ) (w : EpollWaiters)
            → s.registered fd ≡ some w
            → asked accepts fd s.calls ≡ some (wanted_flags w))
  managers-IsValid {s} h =
      let valid = History-IsValid h in
      (
        valid,
        λ fd w k.
            let (f, a) : IsArmed (some w) = rw k at (valid.armed fd) in
            let told = rw k at (History-IsTold h fd) in asked-wanted w f a told,
      )

  -- After any calls, no further call loses a task that waits, whatever epoll answers: it waits as
  -- before, or it is scheduled.
  pub Step-keeps :
      {s u : EpollIoManager}
      → History s
      → Step s u
      → (fd : ℕ) (e : End) (t : Task) → at fd e s ≡ some t
      → (at fd e u ≡ some t) ⊎ (u.world.scheduled t ≡ true)
  Step-keeps h x = (Step-IsSafe (History-IsValid h) x).kept.waits
