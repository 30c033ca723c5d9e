-- ===== src/Event/Reach.antt =====
-- Any history of an `Event` of trio/_sync.py: calls by any tasks, cancellations, and what the rest
-- of the program does in between.
use trio.Prelude.{
  ◌≡◌, refl, ap, true, none, List, [], ◌∷◌, if◌then◌else◌, arith, mem, remove, insert_last,
  Distinct, Distinct-insert_last, Distinct-remove, mem-insert_last, mem-remove, Bool-cases, if_elim,
  update, inl, inr, ◌⊎◌, false,
}
use trio.Exec.{ok, raise, cancelled}
use trio.Run.{Task, World, schedule, reschedule, wait_task_rescheduled, cancel_shielded_checkpoint}
use trio.ParkingLot.Wakeups.{schedule_all, AllIdle, reschedule_all_lem}
use trio.ParkingLot.Cancel.{attempt_abort_only}
use trio.Event.{Event, set, wait, cancel, abort_wait}

-- The waiting tasks are suspended, and there are none once the event has happened.
pub record IsValid (s : Event) : Type 0 where
  pub distinct : Distinct s.tasks
  pub idle : (t : Task) → mem t s.tasks ≡ true → s.world.scheduled t ≡ false
  pub abortable : (t : Task) → mem t s.tasks ≡ true → s.world.abortable t ≡ true
  pub happened : s.flag ≡ true → s.tasks ≡ []

AllIdle-mem :
    (w : World) (ts : List Task)
    → ((t : Task) → mem t ts ≡ true → w.scheduled t ≡ false)
    → AllIdle w ts
unfolding mem
AllIdle-mem w [] h = tt
AllIdle-mem w (t ∷ ts) h = (ground (arith, h t), AllIdle-mem w ts (λ u i. ground (arith, h u)))

module _ {s : Event} (valid : IsValid s) where
  open valid use {distinct, idle, abortable, happened}

  -- For a valid event `set` never fails: it sets the flag and schedules every waiting task, each
  -- once, and empties the set of tasks; where the flag is set already it changes nothing.
  pub set-eq : set s ≡ (
    ok tt,
    (if s.flag
        then s
        else record s { flag = true; tasks = []; world = schedule_all s.tasks s.world }),
  )
  unfolding set
  set-eq = elim (Bool-cases s.flag) [
    | inl e ↦ rw e
    | inr e ↦
        rw e (rw (reschedule_all_lem s.tasks s.world distinct (AllIdle-mem s.world s.tasks idle)))
  ]

  set-IsValid : IsValid (set s).1
  unfolding mem
  set-IsValid = rw set-eq (
      if_elim IsValid s.flag (λ _. valid)
        (λ _. record {
          distinct = tt;
          idle = λ t h. ground (arith, h);
          abortable = λ t h. ground (arith, h);
          happened = λ _. refl;
        }))

  module _ (t : Task) (free : s.world.scheduled t ≡ false) (apart : mem t s.tasks ≡ false) where
    -- The event has happened: the task only goes through a checkpoint.
    passed : Event
    passed = record s { world = schedule t (ok none) s.world }

    -- It has not: the task waits.
    waiting : Event
    waiting = record s {
      tasks = insert_last t s.tasks;
      world = record s.world { abortable = update s.world.abortable t true };
    }

    wait-eq : wait t s ≡ (ok tt, (if s.flag then passed else waiting))
    unfolding wait wait_task_rescheduled cancel_shielded_checkpoint reschedule passed waiting
    wait-eq = ground arith

    waiting-IsValid : s.flag ≡ false → IsValid waiting
    unfolding waiting
    waiting-IsValid e = record {
      distinct = Distinct-insert_last t s.tasks distinct;
      idle = λ u h. ground (arith, mem-insert_last u t s.tasks, idle u);
      abortable = λ u h. ground (arith, mem-insert_last u t s.tasks, abortable u);
      happened = λ h. ground arith;
    }

    passed-IsValid : s.flag ≡ true → IsValid passed
    unfolding passed mem
    passed-IsValid e = record {
      distinct = distinct;
      idle = λ u h. ground (arith, ap (mem u) (happened e));
      abortable = λ u h. ground (arith, ap (mem u) (happened e));
      happened = happened;
    }

    wait-IsValid : IsValid (wait t s).1
    wait-IsValid = rw wait-eq (if_elim IsValid s.flag passed-IsValid waiting-IsValid)

  module _ (t : Task) (there : mem t s.tasks ≡ true) where
    aborted : Event
    aborted = record s { tasks = remove t s.tasks; world = schedule t (raise cancelled) s.world }

    cancel-eq : cancel t s ≡ (ok tt, aborted)
    unfolding cancel abort_wait aborted
    cancel-eq =
        rw (
          abortable t there,
          there,
          attempt_abort_only s.world t (abortable t there) (idle t there),
        )

    cancel-IsValid : IsValid (cancel t s).1
    unfolding aborted mem remove
    cancel-IsValid = rw cancel-eq (record {
      distinct = Distinct-remove t s.tasks distinct;
      idle = λ u h. ground (arith, mem-remove u t s.tasks distinct, idle u);
      abortable = λ u h. ground (arith, mem-remove u t s.tasks distinct, abortable u);
      happened = λ h. ground (arith, ap (mem t) (happened h));
    })

-- What tasks and the event do. The rest of the program leaves the waiting tasks alone.
pub data Step (s : Event) : Event → Type 0 where
  sets : Step s (set s).1
  waits : (t : Task) → s.world.scheduled t ≡ false → mem t s.tasks ≡ false → Step s (wait t s).1
  cancels : (t : Task) → mem t s.tasks ≡ true → Step s (cancel t s).1
  elsewhere :
      (w : World)
      → ((t : Task) → mem t s.tasks ≡ true → (w.scheduled t ≡ false) × (w.abortable t ≡ true))
      → Step s (record s { world = w })

pub data History : Event → Type 0 where
  begin : (w : World) → History (record { world = w; tasks = []; flag = false })
  next : {s v : Event} → History s → Step s v → History v

Step-IsValid : {s v : Event} → Step s v → IsValid s → IsValid v
Step-IsValid sets h = set-IsValid h
Step-IsValid (waits t free apart) h = wait-IsValid h t free apart
Step-IsValid (cancels t there) h = cancel-IsValid h t there
Step-IsValid (elsewhere w kept) h = record {
  distinct = h.distinct;
  idle = λ t i. (kept t i).0;
  abortable = λ t i. (kept t i).1;
  happened = h.happened;
}

pub History-IsValid : {s : Event} → History s → IsValid s
unfolding mem
History-IsValid (begin w) = record {
  distinct = tt;
  idle = λ t h. ground (arith, h);
  abortable = λ t h. ground (arith, h);
  happened = λ _. refl;
}
History-IsValid (next h st) = Step-IsValid st (History-IsValid h)

-- The task goes on waiting for an event that has not happened, or it is scheduled.
abbrev pub IsKept : Task → Event → Type 0
IsKept t v = ((v.flag ≡ false) × (mem t v.tasks ≡ true)) ⊎ (v.world.scheduled t ≡ true)
