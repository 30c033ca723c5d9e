-- ===== src/ParkingLot/Steps.antt =====
-- The operations of trio/_core/_parking_lot.py on a sound world, one by one.
use trio.Prelude.{
  ℕ, ◌≡◌, ◌≢◌, ◌∙◌, ap, true, false, none, List, [], ◌∷◌, arith, update, mem, Distinct, take, drop,
  Distinct-take, Distinct-drop, mem_of_mem-take, mem_of_mem-drop, mem-drop_of_mem-take,
}
use trio.Exec.{ok}
use trio.Run.{Task, World, Outcome, schedule, cancel_shielded_checkpoint}
use trio.ParkingLot.{set_lot, park, unpark}
use trio.ParkingLot.Wakeups.{schedule_all, AllIdle, unpark_lem}
use trio.ParkingLot.Invariant.{
  IsSound, IsFree, schedule-IsSound, set_lot-IsSound, enter-IsSound, one_lot,
}

allow_abort : Task → World → World
allow_abort t w = record w { abortable = update w.abortable t true }

allow_abort-IsSound : (w : World) (t : Task) → IsSound w → IsSound (allow_abort t w)
unfolding allow_abort
allow_abort-IsSound w t s = record {
  idle = s.idle;
  abortable = λ lot u m. ground (arith, s.abortable lot u m);
  placed = s.placed;
  cleared = s.cleared;
  distinct = s.distinct;
  queued = s.queued;
  once = s.once;
}

pub park-IsSound :
    (w : World) (lot : ℕ) (t : Task) → IsSound w → IsFree w t → IsSound (park lot t w).1
unfolding park allow_abort
park-IsSound w lot t s f =
    enter-IsSound (allow_abort-IsSound w t s) lot t (record { idle = f.idle; apart = f.apart })
      (ground arith)

module _ {w : World} (s : IsSound w) (lot n : ℕ) where
  let_go : World
  let_go = set_lot lot (drop n (w.lots lot)) w

  let_go-IsSound : IsSound let_go
  unfolding let_go
  let_go-IsSound =
      set_lot-IsSound s lot _ (mem_of_mem-drop n (w.lots lot)) (Distinct-drop n _ (s.distinct lot))

  let_go-IsFree : (t : Task) → mem t (take n (w.lots lot)) ≡ true → IsFree let_go t
  unfolding let_go
  let_go-IsFree t m = record {
    idle = s.idle lot t (mem_of_mem-take n (w.lots lot) t m);
    apart = λ k. ground (
      arith,
      one_lot s lot k t (mem_of_mem-take n (w.lots lot) t m),
      mem-drop_of_mem-take n (w.lots lot) (s.distinct lot) t m,
    );
  }

AllIdle-of_mem :
    (w : World) (ts : List Task)
    → ((t : Task) → mem t ts ≡ true → w.scheduled t ≡ false)
    → AllIdle w ts
unfolding mem
AllIdle-of_mem w [] h = tt
AllIdle-of_mem w (t ∷ ts) h = (h t (ground arith), AllIdle-of_mem w ts (λ u m. h u (ground arith)))

schedule-IsFree :
    (w : World) (t u : Task) (o : Outcome) → IsFree w u → t ≢ u → IsFree (schedule t o w) u
schedule-IsFree w t u o f ne = record { idle = ground (arith, f.idle); apart = f.apart }

pub schedule_all-IsSound :
    (ts : List Task) (w : World)
    → IsSound w
    → Distinct ts
    → ((t : Task) → mem t ts ≡ true → IsFree w t)
    → IsSound (schedule_all ts w)
unfolding schedule_all mem
schedule_all-IsSound [] w s d h = s
schedule_all-IsSound (t ∷ ts) w s (new, d) h =
    schedule_all-IsSound ts (schedule t (ok none) w)
      (schedule-IsSound s t (ok none) (h t (ground arith))) d
      λ u m. schedule-IsFree w t u (ok none) (h u (ground arith)) (λ e. ground arith)

module _ {w : World} (s : IsSound w) (lot count : ℕ) where
  -- In a sound world `unpark` returns the `count` oldest tasks of the lot, or all where there are
  -- fewer; it takes exactly these out of the lot and schedules them in that order; it never fails.
  pub unpark-eq : unpark lot count w ≡ (
    ok (take count (w.lots lot)),
    schedule_all (take count (w.lots lot)) (set_lot lot (drop count (w.lots lot)) w),
  )
  unfolding let_go
  unpark-eq =
      unpark_lem lot count w (Distinct-take count _ (s.distinct lot))
        (AllIdle-of_mem w _ λ t m. s.idle lot t (mem_of_mem-take count (w.lots lot) t m))

  pub unpark-IsSound : IsSound (unpark lot count w).1
  unfolding let_go
  unpark-IsSound = rw unpark-eq (
      schedule_all-IsSound (take count (w.lots lot)) (let_go s lot count)
        (let_go-IsSound s lot count) (Distinct-take count _ (s.distinct lot))
        (let_go-IsFree s lot count))

-- A running task that yields is put at the end of the run queue.
pub cancel_shielded_checkpoint-eq :
    (w : World) (t : Task)
    → IsFree w t
    → cancel_shielded_checkpoint t w ≡ (ok tt, schedule t (ok none) w)
unfolding cancel_shielded_checkpoint
cancel_shielded_checkpoint-eq w t f = rw f.idle

-- `unpark(count=1)` of a lot whose oldest task is known.
pub unpark_one :
    {w : World} (s : IsSound w) (lot : ℕ) (t : Task) (rest : List Task)
    → w.lots lot ≡ t ∷ rest
    → unpark lot 1 w ≡ (ok (t ∷ []), schedule t (ok none) (set_lot lot rest w))
unfolding schedule_all
unpark_one {w} s lot t rest e =
    unpark-eq s lot 1
    ∙ ap (λ l. (ok (take 1 l), schedule_all (take 1 l) (set_lot lot (drop 1 l) w))) e
