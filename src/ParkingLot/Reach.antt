-- ===== src/ParkingLot/Reach.antt =====
-- Any interleaving of the operations of trio/_core/_parking_lot.py with the scheduler's own steps.
use trio.Prelude.{
  ℕ, ◌≡◌, ◌⊎◌, inl, inr, refl, true, false, none, List, [], ◌∷◌, arith, ◌==◌, mem, take, drop,
  mem-remove, mem-append, take-append-drop, Distinct-remove, Bool-cases, mem-insert_last,
}
use trio.Exec.{ok}
use trio.Run.{Task, World, attempt_abort, resume, cancel_shielded_checkpoint}
use trio.ParkingLot.{set_lot, park, unpark, repark, abort_fn}
use trio.ParkingLot.Wakeups.{schedule_all-lots, schedule_all-runq}
use trio.ParkingLot.Invariant.{IsSound, IsFree, schedule-IsSound}
use trio.ParkingLot.Steps.{cancel_shielded_checkpoint-eq, park-IsSound, unpark-eq, unpark-IsSound}
use trio.ParkingLot.Repark.{repark-IsSound, IsParked, repark-IsParked}
use trio.ParkingLot.Cancel.{attempt_abort-eq, attempt_abort-IsSound}

-- Who may do what: only a running task parks or yields, only a parked one is cancelled here, and
-- only a scheduled one is resumed. The cases `unparks` and `reparks` are calls by any task.
pub data Step (w : World) : World → Type 0 where
  parks : (lot : ℕ) (t : Task) → IsFree w t → Step w (park lot t w).1
  unparks : (lot count : ℕ) → Step w (unpark lot count w).1
  reparks : (lot new_lot count : ℕ) → Step w (repark lot new_lot count w).1
  cancels : (lot : ℕ) (t : Task) → mem t (w.lots lot) ≡ true → Step w (attempt_abort abort_fn t w).1
  yields : (t : Task) → IsFree w t → Step w (cancel_shielded_checkpoint t w).1
  resumes : (t : Task) → w.scheduled t ≡ true → Step w (resume t w).1

-- The start: nothing is scheduled or parked.
abbrev pub initial : World
initial = record {
  runq = [];
  scheduled = λ _. false;
  next_send = λ _. ok none;
  abortable = λ _. false;
  sleep_data = λ _. none;
  lots = λ _. [];
}

pub initial-IsFree : (t : Task) → IsFree initial t
unfolding mem
initial-IsFree t = record { idle = refl; apart = λ _. refl }

pub data Reach : World → Type 0 where
  start : Reach initial
  after : {v w : World} → Reach v → Step v w → Reach w

resume-IsSound : (w : World) (t : Task) → w.scheduled t ≡ true → IsSound w → IsSound (resume t w).1
unfolding resume
resume-IsSound w t h s = record {
  idle = λ lot u m. ground (arith, s.idle lot u m);
  abortable = s.abortable;
  placed = s.placed;
  cleared = λ u h. ground (arith, s.cleared u);
  distinct = s.distinct;
  queued = λ u. ground (arith, s.queued u, mem-remove u t w.runq s.once);
  once = Distinct-remove t w.runq s.once;
}

pub Step-IsSound : {w v : World} → Step w v → IsSound w → IsSound v
Step-IsSound {w} (parks lot t f) s = park-IsSound w lot t s f
Step-IsSound (unparks lot count) s = unpark-IsSound s lot count
Step-IsSound {w} (reparks lot new_lot count) s = (repark-IsSound w lot new_lot count s).1
Step-IsSound (cancels lot t m) s = attempt_abort-IsSound s lot t m
Step-IsSound {w} (yields t f) s =
    rw (cancel_shielded_checkpoint-eq w t f) (schedule-IsSound s t (ok none) f)
Step-IsSound {w} (resumes t h) s = resume-IsSound w t h s

initial-IsSound : IsSound initial
unfolding mem
initial-IsSound = record {
  idle = λ _ _ m. refl;
  abortable = λ _ _ m. cc;
  placed = λ _ _ m. cc;
  cleared = λ _ h. cc;
  distinct = λ _. tt;
  queued = λ _. refl;
  once = tt;
}

-- In every world reached from the initial one by any sequence of parking, unparking, reparking,
-- cancellation, checkpoints and resumption: a parked task is not scheduled, can be aborted, and
-- has the lot it is in as its `custom_sleep_data`; no task is twice in a lot or in the run queue;
-- and the run queue has exactly the scheduled tasks, which have no `custom_sleep_data`.
pub Reach-IsSound : {w : World} → Reach w → IsSound w
Reach-IsSound start = initial-IsSound
Reach-IsSound (after r st) = Step-IsSound st (Reach-IsSound r)

unpark-waits :
    (w : World) (lot count : ℕ) (u : Task)
    → IsSound w
    → IsParked w u
    → IsParked (unpark lot count w).1 u ⊎ (mem u (unpark lot count w).1.runq ≡ true)
unpark-waits w lot count u s (k, m) = elim (Bool-cases (mem u woken)) [
  | inl e ↦ inr (
      rw (unpark-eq s lot count)
        (rw (schedule_all-runq woken left, mem-append u w.runq woken, e) (ground arith)))
  | inr e ↦ inl (k, rw (unpark-eq s lot count) (rw (schedule_all-lots woken left) (still_there e)))
]
  where
    woken : List Task
    woken = take count (w.lots lot)

    left : World
    left = set_lot lot (drop count (w.lots lot)) w

    still_there : mem u woken ≡ false → mem u (left.lots k) ≡ true
    still_there e =
        ground
          (arith, mem-append u woken (drop count (w.lots lot)), take-append-drop count (w.lots lot))

cancel-waits :
    (w : World) (lot : ℕ) (t u : Task)
    → IsSound w
    → mem t (w.lots lot) ≡ true
    → IsParked w u
    → IsParked (attempt_abort abort_fn t w).1 u ⊎ (mem u (attempt_abort abort_fn t w).1.runq ≡ true)
unfolding mem
cancel-waits w lot t u s c (k, m) = elim (Bool-cases (t == u)) [
  | inl e ↦ inr (rw (attempt_abort-eq s lot t c) (ground (arith, mem-append u w.runq (t ∷ []))))
  | inr e ↦ inl (
    k,
    rw (attempt_abort-eq s lot t c) (ground (arith, mem-remove u t (w.lots lot) (s.distinct lot))),
  )
]

-- No wakeup is lost: a step from a sound world leaves a parked task parked, or has put it in the
-- run queue.
pub Step-waits :
    {w v : World} (u : Task)
    → IsSound w
    → Step w v
    → IsParked w u
    → IsParked v u ⊎ (mem u v.runq ≡ true)
unfolding park cancel_shielded_checkpoint resume
Step-waits {w} u s (parks lot t f) (k, m) =
    inl (k, ground (arith, mem-insert_last u t (w.lots lot)))
Step-waits {w} u s (unparks lot count) m = unpark-waits w lot count u s m
Step-waits {w} u s (reparks lot new_lot count) m = inl (repark-IsParked w lot new_lot count u m)
Step-waits {w} u s (cancels lot t c) m = cancel-waits w lot t u s c m
Step-waits {w} u s (yields t f) m = inl (rw (cancel_shielded_checkpoint-eq w t f) m)
Step-waits {w} u s (resumes t h) m = inl m
