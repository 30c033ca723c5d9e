-- ===== src/CancelScope/Parked.antt =====
-- Cancel scopes of trio/_core/_run.py around tasks that wait in parking lots
-- (trio/_core/_parking_lot.py).
use trio.Prelude.{ℕ, ◌≡◌, refl, true, ==_iff, mem, mem-remove, remove, arith}
use trio.Exec.{raise, cancelled}
use trio.Run.{Task, World, attempt_abort, schedule}
use trio.ParkingLot.{set_lot, abort_fn}
use trio.ParkingLot.Invariant.{IsSound}
use trio.ParkingLot.Cancel.{attempt_abort-eq, attempt_abort-IsSound}
use trio.CancelScope.Delivery.{IsAborted, IsDelivery}

-- A sound world in which all tasks that can be cancelled wait in parking lots.
pub record AllParked (w : World) : Type 0 where
  pub sound : IsSound w
  pub parked : (t : Task) → w.abortable t ≡ true → (lot : ℕ) × (mem t (w.lots lot) ≡ true)

module _ (t : Task) (w : World) (g : AllParked w) (lot : ℕ) (m : mem t (w.lots lot) ≡ true) where
  after : World
  after = schedule t (raise cancelled) (set_lot lot (remove t (w.lots lot)) w)

  still_parked :
      (u : Task) → after.abortable u ≡ true → (there : ℕ) × (mem u (after.lots there) ≡ true)
  unfolding after
  still_parked u a =
      let (there, n) = g.parked u (ground arith) in
      (
        there,
        ground (
          arith,
          n,
          mem-remove u t (w.lots lot) (g.sound.distinct lot),
          ==_iff lot there,
          ==_iff t u,
        ),
      )

  aborted_there : IsAborted AllParked t w (attempt_abort abort_fn t w)
  unfolding after
  aborted_there = record {
    result = rw (attempt_abort-eq g.sound lot t m) refl;
    good = record {
      sound = attempt_abort-IsSound g.sound lot t m;
      parked = rw (attempt_abort-eq g.sound lot t m) still_parked;
    };
    calms = rw (attempt_abort-eq g.sound lot t m) (λ u h. ground (arith, h));
    done = rw (attempt_abort-eq g.sound lot t m) (ground arith);
  }

-- In every sound world in which the tasks that can be cancelled are parked, the abort function of
-- `ParkingLot.park` does all that cancel scopes ask for: the delivery of a cancellation succeeds, the
-- task has no abort function afterwards, no other task gets one, and the world is such a world again.
pub park-IsDelivery : IsDelivery abort_fn AllParked
park-IsDelivery = record {
  aborted = λ t w g a. (let (lot, m) = g.parked t a in aborted_there t w g lot m);
}
