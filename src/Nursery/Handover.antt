-- ===== src/Nursery/Handover.antt =====
-- `_TaskStatus.started` of trio/_core/_run.py hands children over to another nursery.
use trio.Prelude.{
  ℕ, ◌≡◌, Bool, true, false, not, Distinct-insert_last, ◌&&◌, List, [], ◌∷◌, ◌==◌, mem,
  mem-insert_last, Distinct, Distinct-insert_last, arith, Bool-cases, ==_refl, inl, inr,
}
use trio.Run.{Task}
use trio.Nursery.{Nursery, Nurseries, put, move_task, move_tasks, move_children, started}
use trio.Nursery.Invariant.{IsOpenWhileBusy, IsSettled, IsValid, IsValidBut, check-IsValid}
use trio.Nursery.Moves.{same_value}
use trio.Nursery.Starts.{called-IsValid, more-IsSettled}

-- The tasks `ts` are on their way from the nursery `old` to the nursery `new`, and in neither.
record IsMoving (old new : ℕ) (ts : List Task) (s : Nurseries) : Type 0 where
  placed :
      (n : ℕ) (t : Task)
      → mem t (s.nurseries n).children
        ≡ (mem t s.tasks && not (mem t ts) && (s.parent_nursery t == n))
  alive : (t : Task) → mem t ts ≡ true → mem t s.tasks ≡ true
  distinct : (n : ℕ) → Distinct (s.nurseries n).children
  once : Distinct s.tasks
  unique : Distinct ts
  settled : (n : ℕ) → (old == n) ≡ false → IsSettled (s.nurseries n)
  steady : IsOpenWhileBusy (s.nurseries old)
  open_ : (s.nurseries new).closed ≡ false
  emptied : (s.nurseries old).children ≡ []

==_not_sym : (a b : ℕ) → (a == b) ≡ false → (b == a) ≡ false
==_not_sym a b h = ground (arith, h)

childless-IsOpenWhileBusy :
    (v : Nursery) → IsOpenWhileBusy v → IsOpenWhileBusy (record v { children = [] })
childless-IsOpenWhileBusy v h = record {
  busy = λ b. ground (arith, h.busy, b);
  left = h.left;
  waiting = h.waiting;
  cancelled = h.cancelled;
}

-- Its children are taken out of a nursery at once.
abbrev emptied_nursery : ℕ → Nurseries → Nurseries
emptied_nursery old s = put old (record (s.nurseries old) { children = [] }) s

module _ (old new : ℕ) (apart : (old == new) ≡ false) where
  first-IsMoving :
      (s : Nurseries)
      → IsValid s
      → (s.nurseries new).closed ≡ false
      → IsMoving old new (s.nurseries old).children (emptied_nursery old s)
  unfolding mem
  first-IsMoving s h c = record {
    placed = λ n t. elim (Bool-cases (old == n)) [
      | inl e ↦ rw e (ground (arith, e, h.tracked.placed old t))
      | inr e ↦ rw e (ground (arith, e, h.tracked.placed n t, h.tracked.placed old t))
    ];
    alive = λ t m. ground (arith, m, h.tracked.placed old t);
    distinct =
        λ n. elim (Bool-cases (old == n)) [ inl e ↦ rw e tt | inr e ↦ rw e (h.tracked.distinct n) ];
    once = h.tracked.once;
    unique = h.tracked.distinct old;
    settled = λ n e. rw e (h.settled n);
    steady = rw (==_refl old) (childless-IsOpenWhileBusy (s.nurseries old) (h.settled old).steady);
    open_ = rw apart c;
    emptied = rw (==_refl old);
  }

  next-IsMoving :
      (t : Task) (ts : List Task) (s : Nurseries)
      → IsMoving old new (t ∷ ts) s
      → IsMoving old new ts (move_task new t s)
  unfolding mem
  next-IsMoving t ts s h = record {
    placed = λ n u. elim (Bool-cases (new == n)) [
      | inl e ↦
          rw (e, mem-insert_last u t (s.nurseries new).children)
            (ground (
              arith,
              e,
              h.placed new u,
              h.alive t,
              h.unique.0,
              same_value (λ (x : Task). mem x s.tasks) t u,
              same_value (λ (x : Task). mem x ts) t u,
            ))
      | inr e ↦ rw e (ground (arith, e, h.placed n u))
    ];
    alive = λ u m. h.alive u (ground (arith, m));
    distinct = λ n. elim (Bool-cases (new == n)) [
      | inl e ↦ rw e (Distinct-insert_last t _ (h.distinct new))
      | inr e ↦ rw e (h.distinct n)
    ];
    once = h.once;
    unique = h.unique.1;
    settled = λ n o. elim (Bool-cases (new == n)) [
      | inl e ↦ rw e (more-IsSettled (s.nurseries new) t (h.settled new apart) h.open_)
      | inr e ↦ rw e (h.settled n o)
    ];
    steady = rw (==_not_sym old new apart) h.steady;
    open_ = rw (==_refl new) h.open_;
    emptied = rw (==_not_sym old new apart) h.emptied;
  }

  moved-IsMoving :
      (ts : List Task) (s : Nurseries)
      → IsMoving old new ts s
      → IsMoving old new [] (move_tasks new ts s)
  unfolding move_tasks
  moved-IsMoving [] s h = h
  moved-IsMoving (t ∷ ts) s h = moved-IsMoving ts (move_task new t s) (next-IsMoving t ts s h)

  last-IsValidBut : (s : Nurseries) → IsMoving old new [] s → IsValidBut old s
  unfolding mem
  last-IsValidBut s h = record {
    tracked = record {
      placed = λ n t. ground (arith, h.placed n t);
      distinct = h.distinct;
      once = h.once;
    };
    settled = h.settled;
    steady = h.steady;
  }

  abbrev handed_over : Nurseries → Nurseries
  handed_over s = move_tasks new (s.nurseries old).children (emptied_nursery old s)

  module _ (s : Nurseries) (h : IsValid s) where
    over-IsMoving : (s.nurseries new).closed ≡ false → IsMoving old new [] (handed_over s)
    over-IsMoving c =
        moved-IsMoving (s.nurseries old).children (emptied_nursery old s) (first-IsMoving s h c)

    move_children-IsValid : IsValid (move_children old new s).1
    unfolding move_children
    move_children-IsValid = elim (Bool-cases (s.nurseries new).closed) [
      | inl c ↦ rw c h
      | inr c ↦
          rw (c, (over-IsMoving c).emptied)
            (check-IsValid old (handed_over s) (last-IsValidBut (handed_over s) (over-IsMoving c)))
    ]

  pub started-IsValid :
      (cancelled : Bool) (s : Nurseries) → IsValid s → IsValid (started cancelled old new s).1
  unfolding started
  started-IsValid cancelled s h = elim (Bool-cases (s.called_started old)) [
    | inl c ↦ rw c h
    | inr c ↦ rw c (elim (Bool-cases cancelled) [
      | inl k ↦ rw k (called-IsValid _ s h)
      | inr k ↦ rw k (move_children-IsValid _ (called-IsValid _ s h))
    ])
  ]
