-- ===== src/ParkingLot/Cancel.antt =====
-- The abort function of `park` (trio/_core/_parking_lot.py) under `Task._attempt_abort`
-- (trio/_core/_run.py).
use trio.Prelude.{ℕ, ◌≡◌, ap, true, false, update, mem, remove}
use trio.Exec.{pure, ok, raise, cancelled}
use trio.Run.{succeeded, Task, World, schedule, reschedule, attempt_abort}
use trio.ParkingLot.{set_lot, abort_fn}
use trio.ParkingLot.Wakeups.{update-update}
use trio.ParkingLot.Invariant.{IsSound, schedule-IsSound, remove-IsSound, remove-IsFree}

module _ {w : World} (s : IsSound w) (lot : ℕ) (t : Task) (m : mem t (w.lots lot) ≡ true) where
  -- In a sound world a cancellation of a task that is in a lot, whatever lot it has been moved to,
  -- takes it out of there and schedules it with Cancelled, and changes nothing else.
  pub attempt_abort-eq :
      attempt_abort abort_fn t w
      ≡ (ok tt, schedule t (raise cancelled) (set_lot lot (remove t (w.lots lot)) w))
  unfolding attempt_abort abort_fn
  attempt_abort-eq =
      rw (s.abortable lot t m, attempt_abort)
        (rw (s.placed lot t m, abort_fn)
          (rw m (
            rw (s.idle lot t m, reschedule)
              (ap
                (λ f. (
                  ok tt,
                  record (schedule t (raise cancelled) w) {
                    abortable = f;
                    lots = update w.lots lot (remove t (w.lots lot));
                  },
                ))
                (update-update w.abortable t false false)))))

  pub attempt_abort-IsSound : IsSound (attempt_abort abort_fn t w).1
  attempt_abort-IsSound =
      rw attempt_abort-eq
        (schedule-IsSound (remove-IsSound s lot t) t (raise cancelled) (remove-IsFree s lot t m))

-- Where the abort function does nothing to the scheduler's state.
pub attempt_abort_only :
    (w : World) (t : Task)
    → w.abortable t ≡ true
    → w.scheduled t ≡ false
    → attempt_abort (λ _. pure succeeded) t w ≡ (ok tt, schedule t (raise cancelled) w)
unfolding attempt_abort
attempt_abort_only w t a i =
    rw (a, attempt_abort)
      (rw (i, reschedule)
        (ap (λ f. (ok tt, record (schedule t (raise cancelled) w) { abortable = f }))
          (update-update w.abortable t false false)))
