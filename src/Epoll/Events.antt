-- ===== src/Epoll/Events.antt =====
-- Events of trio/_core/_io_epoll.py wake the tasks that wait for them.
use trio.Prelude.{
  ℕ, ◌≡◌, inl, inr, refl, ap, Bool, true, false, none, some, List, [], ◌∷◌, ◌==◌, ==_iff, ==_refl,
  Bool-cases, Option-cases,
}
use trio.Exec.{continue_ok, Result, ok}
use trio.Run.{Task, reschedule, schedule}
use trio.Epoll.{
  made, event_call, EpollWaiters, EpollIoManager, End, read_task, write_task, Call, Interest, Flags,
  waiters, store, task_at, concerns, wake_ready, update_registrations, process_event,
  process_events,
}
use trio.Epoll.Waiting.{
  at, IsReleased, IsReleased-IsSound, IsReleased-trans, IsReleased_same, embed, here,
  here-IsReleased, here-IsSound, cleared, scheduled-IsReleased, task_none,
}
use trio.Epoll.Registration.{
  IsValid, IsValidBut, IsDone, update_registrations-IsDone, update_registrations-ok,
}
use trio.Epoll.Calls.{nobody-IsAwake}

same_task :
    (w : EpollWaiters) (f : Interest) (e : End)
    → task_at e (record w { current_flags = f }) ≡ task_at e w
same_task w f read_task = refl
same_task w f write_task = refl

-- What happens to the tasks at one end of the descriptor of an event.
record IsReady (fd : ℕ) (e : End) (f : Flags) (s : EpollIoManager) : Type 0 where
  after : EpollIoManager
  eq : wake_ready fd e f s ≡ (ok tt, after)
  valid : IsValidBut fd after
  released : IsReleased none s after
  gone : concerns e f ≡ true → at fd e after ≡ none

abbrev woken_at : ℕ → End → Task → EpollIoManager → EpollIoManager
woken_at fd e t s =
    embed fd s (record (cleared e (here fd s)) { world = schedule t (ok none) s.world })

module _ (fd : ℕ) (e : End) (s : EpollIoManager) (h : IsValidBut fd s) where
  woken_at-IsReleased : (t : Task) → at fd e s ≡ some t → IsReleased none s (woken_at fd e t s)
  woken_at-IsReleased t k =
      IsReleased-trans (here-IsReleased fd s none)
        (scheduled-IsReleased fd s (here fd s) e none t k (ok none) (here-IsSound fd s h.sound))

  untouched-IsReady :
      (f : Flags)
      → wake_ready fd e f s ≡ (ok tt, s)
      → (concerns e f ≡ true → at fd e s ≡ none)
      → IsReady fd e f s
  untouched-IsReady f q n = record {
    after = s;
    eq = q;
    valid = h;
    released = IsReleased_same s s (λ gd e. refl) refl;
    gone = n;
  }

  wake_ready-IsReady : (f : Flags) → IsReady fd e f s
  unfolding reschedule
  wake_ready-IsReady f = elim (Bool-cases (concerns e f)) [
    | inr n ↦ untouched-IsReady f (rw n) (λ c. cc)
    | inl y ↦ elim (Option-cases (at fd e s)) [
      | inl n ↦ untouched-IsReady f (rw (y, n)) (λ c. n)
      | inr (t, k) ↦ record {
        after = woken_at fd e t s;
        eq = rw (y, k, h.sound.idle fd e t k);
        valid = record {
          sound = IsReleased-IsSound (woken_at-IsReleased t k) h.sound;
          armed = λ gd q. rw q (h.armed gd q);
        };
        released = woken_at-IsReleased t k;
        gone = λ c. rw (==_refl fd) (task_none e (waiters fd s));
      }
    ]
  ]

-- EPOLLONESHOT has cleared the flags.
abbrev unarmed : ℕ → EpollIoManager → EpollIoManager
unarmed fd s = made (event_call fd) (
    store fd (record (waiters fd s) { current_flags = record { input = false; output = false } }) s)

module _ (fd : ℕ) (s : EpollIoManager) (h : IsValid s) where
  unarmed-at : (gd : ℕ) (e : End) → at gd e (unarmed fd s) ≡ at gd e s
  unarmed-at gd e = elim (Bool-cases (fd == gd)) [
    | inl q ↦ rw (← (==_iff fd gd).0 q, ==_refl fd) (same_task (waiters fd s) _ e)
    | inr q ↦ rw q
  ]

  unarmed-IsReleased : IsReleased none s (unarmed fd s)
  unarmed-IsReleased = IsReleased_same s (unarmed fd s) unarmed-at refl

  unarmed-IsValidBut : IsValidBut fd (unarmed fd s)
  unarmed-IsValidBut = record {
    sound = IsReleased-IsSound unarmed-IsReleased h.sound;
    armed = λ gd q. rw q (h.armed gd);
  }

-- A call that returns.
pub record IsReturned (m : Result (Unit {0}) × EpollIoManager) (s : EpollIoManager) : Type 0 where
  pub returns : m.0 ≡ ok tt
  pub done : IsDone none s m.1

module _ (accepts : List Call → Call → Bool) where
  -- The parts of `process_event`.
  module _ (fd : ℕ) (f : Flags) (s : EpollIoManager) (h : IsValid s) where
    writer : IsReady fd write_task f (unarmed fd s)
    writer = wake_ready-IsReady fd write_task (unarmed fd s) (unarmed-IsValidBut fd s h) f

    reader : IsReady fd read_task f writer.after
    reader = wake_ready-IsReady fd read_task writer.after writer.valid f

    abbrev finished : EpollIoManager
    finished = (update_registrations accepts none fd reader.after).1

    finished-IsDone : IsDone none reader.after finished
    finished-IsDone = update_registrations-IsDone accepts none fd reader.after reader.valid

    process_event-eq :
        (fd == s.force_wakeup_fd) ≡ false → process_event accepts fd f s ≡ (ok tt, finished)
    unfolding process_event
    process_event-eq n =
        rw (n, writer.eq, reader.eq)
          (ap (λ (r : Result (Unit {0})). (r, finished))
            (update_registrations-ok accepts none fd reader.after reader.valid
              (nobody-IsAwake reader.after)))

    to_writer : IsReleased none s writer.after
    to_writer = IsReleased-trans (unarmed-IsReleased fd s h) writer.released

    from_writer : IsReleased none writer.after finished
    from_writer = IsReleased-trans reader.released finished-IsDone.released

    pub process_event-IsReturned : IsReturned (process_event accepts fd f s) s
    unfolding process_event
    process_event-IsReturned = elim (Bool-cases (fd == s.force_wakeup_fd)) [
      | inl y ↦ rw y record {
        returns = refl;
        done = record { valid = h; released = IsReleased_same s s (λ gd e. refl) refl };
      }
      | inr n ↦ rw (process_event-eq n) record {
        returns = refl;
        done = record {
          valid = finished-IsDone.valid;
          released = IsReleased-trans to_writer from_writer;
        };
      }
    ]

  -- A batch of events is processed without an exception.
  pub process_events-IsReturned :
      (events : List (ℕ × Flags)) (s : EpollIoManager)
      → IsValid s
      → IsReturned (process_events accepts events s) s
  unfolding process_events
  process_events-IsReturned [] s h = record {
    returns = refl;
    done = record { valid = h; released = IsReleased_same s s (λ gd e. refl) refl };
  }
  process_events-IsReturned ((fd, f) ∷ events) s h =
      let a = process_event-IsReturned fd f s h in
      let b = process_events-IsReturned events (process_event accepts fd f s).1 a.done.valid in
      rw (continue_ok (process_event accepts fd f s) (λ x. process_events accepts events) a.returns)
        record {
          returns = b.returns;
          done = record {
            valid = b.done.valid;
            released = IsReleased-trans a.done.released b.done.released;
          };
        }
