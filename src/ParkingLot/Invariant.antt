-- ===== src/ParkingLot/Invariant.antt =====
-- The bookkeeping of the scheduler and of all parking lots (trio/_core/_run.py and
-- trio/_core/_parking_lot.py) between two steps, and the parts that steps are made of.
use trio.Prelude.{
  ℕ, ◌≡◌, ◌≢◌, ◌∙◌, true, false, none, some, List, [], ◌∷◌, arith, update, mem, remove, Distinct,
  mem-append, mem-insert_last, mem-remove, Distinct-remove, Distinct-snoc, Distinct-insert_last,
  ==_iff, Bool-cases, inl, inr,
}
use trio.Run.{Task, World, Outcome, schedule}
use trio.ParkingLot.{set_lot, enter}

-- A parked task is suspended, can be cancelled, and knows the one lot that holds it; a task is in
-- the run queue, once, exactly if it is scheduled, and then its `custom_sleep_data` is None.
pub record IsSound (w : World) : Type 0 where
  pub idle : (lot : ℕ) (t : Task) → mem t (w.lots lot) ≡ true → w.scheduled t ≡ false
  pub abortable : (lot : ℕ) (t : Task) → mem t (w.lots lot) ≡ true → w.abortable t ≡ true
  pub placed : (lot : ℕ) (t : Task) → mem t (w.lots lot) ≡ true → w.sleep_data t ≡ some lot
  pub cleared : (t : Task) → w.scheduled t ≡ true → w.sleep_data t ≡ none
  pub distinct : (lot : ℕ) → Distinct (w.lots lot)
  pub queued : (t : Task) → mem t w.runq ≡ w.scheduled t
  pub once : Distinct w.runq

-- A task that is in no lot and is not scheduled: the one that runs, or one blocked elsewhere.
pub record IsFree (w : World) (t : Task) : Type 0 where
  pub idle : w.scheduled t ≡ false
  pub apart : (lot : ℕ) → mem t (w.lots lot) ≡ false

module _ {w : World} (s : IsSound w) where
  pub schedule-IsSound : (t : Task) (o : Outcome) → IsFree w t → IsSound (schedule t o w)
  unfolding mem
  schedule-IsSound t o f = record {
    idle = λ lot u m. ground (arith, s.idle lot u m, f.apart lot, ==_iff t u);
    abortable = λ lot u m. ground (arith, s.abortable lot u m, f.apart lot);
    placed = λ lot u m. ground (arith, s.placed lot u m, f.apart lot);
    cleared = λ u h. ground (arith, s.cleared u);
    distinct = s.distinct;
    queued = λ u. ground (arith, s.queued u, mem-append u w.runq (t ∷ []));
    once = Distinct-snoc w.runq t s.once (s.queued t ∙ f.idle);
  }

  -- Tasks may leave a lot.
  pub set_lot-IsSound :
      (lot : ℕ) (ts : List Task)
      → ((u : Task) → mem u ts ≡ true → mem u (w.lots lot) ≡ true)
      → Distinct ts
      → IsSound (set_lot lot ts w)
  set_lot-IsSound lot ts sub d = record {
    idle = λ k u m. s.idle k u (within k u m);
    abortable = λ k u m. s.abortable k u (within k u m);
    placed = λ k u m. s.placed k u (within k u m);
    cleared = s.cleared;
    distinct = λ k. ground (arith, s.distinct k);
    queued = s.queued;
    once = s.once;
  }
    where
      within : (k : ℕ) (u : Task) → mem u (update w.lots lot ts k) ≡ true → mem u (w.lots k) ≡ true
      within k u m = ground (arith, sub u)

  pub one_lot : (k l : ℕ) (t : Task) → mem t (w.lots k) ≡ true → k ≢ l → mem t (w.lots l) ≡ false
  one_lot k l t m ne = elim (Bool-cases (mem t (w.lots l))) [
    | inl e ↦ ground (arith, s.placed k t m, s.placed l t e)
    | inr e ↦ e
  ]

  module _ (lot : ℕ) (t : Task) (rest : List Task) (e : w.lots lot ≡ t ∷ rest) where
    pub mem_head : mem t (w.lots lot) ≡ true
    unfolding mem
    mem_head = rw (e, mem) (ground arith)

    -- The oldest task leaves its lot: it is then in no lot.
    pub pop-IsSound : IsSound (set_lot lot rest w)
    unfolding mem
    pop-IsSound = set_lot-IsSound lot rest (λ u m. rw (e, mem) (ground arith)) tail_distinct
      where
        tail_distinct : Distinct rest
        tail_distinct = (rw e at (s.distinct lot)).1

    pub pop-IsFree : IsFree (set_lot lot rest w) t
    pop-IsFree = record {
      idle = s.idle lot t mem_head;
      apart = λ k. ground (arith, one_lot lot k t mem_head, (rw e at (s.distinct lot)).0);
    }

  -- A free task that can be aborted enters a lot.
  pub enter-IsSound :
      (lot : ℕ) (t : Task) → IsFree w t → w.abortable t ≡ true → IsSound (enter lot t w)
  enter-IsSound lot t f a = record {
    idle = λ k u m. ground (arith, s.idle k u, f.idle, mem-insert_last u t (w.lots lot));
    abortable = λ k u m. ground (arith, s.abortable k u, mem-insert_last u t (w.lots lot));
    placed = λ k u m. ground (arith, s.placed k u, f.apart k, mem-insert_last u t (w.lots lot));
    cleared = λ u h. ground (arith, s.cleared u, f.idle);
    distinct =
        λ k. ground (arith, s.distinct k, Distinct-insert_last t (w.lots lot) (s.distinct lot));
    queued = s.queued;
    once = s.once;
  }

  pub remove-IsSound : (lot : ℕ) (t : Task) → IsSound (set_lot lot (remove t (w.lots lot)) w)
  remove-IsSound lot t =
      set_lot-IsSound lot (remove t (w.lots lot))
        (λ u m. ground (arith, mem-remove u t (w.lots lot) (s.distinct lot)))
        (Distinct-remove t (w.lots lot) (s.distinct lot))

  pub remove-IsFree :
      (lot : ℕ) (t : Task)
      → mem t (w.lots lot) ≡ true
      → IsFree (set_lot lot (remove t (w.lots lot)) w) t
  remove-IsFree lot t m = record {
    idle = s.idle lot t m;
    apart = λ k. ground (arith, one_lot lot k t m, mem-remove t t (w.lots lot) (s.distinct lot));
  }
