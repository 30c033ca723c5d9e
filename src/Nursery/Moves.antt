-- ===== src/Nursery/Moves.antt =====
-- Tasks that start and end in nurseries of trio/_core/_run.py, and the invariant.
use trio.Prelude.{
  ℕ, ◌≡◌, refl, ap, true, false, List, [], ◌∷◌, ◌==◌, ==_iff, nonempty, update, mem, remove,
  insert_last, mem-remove, mem-insert_last, Distinct-remove, Distinct-insert_last, arith,
  Bool-cases, ==_refl, inl, inr,
}
use trio.Exec.{Result, ok, raise}
use trio.Run.{Task}
use trio.Nursery.{Nursery, Nurseries, put, add_exc, child_finished, task_exited}
use trio.Nursery.Invariant.{
  IsOpenWhileBusy, IsTracked, IsValid, IsValidBut, same-IsTracked, check-IsValid,
}

pub same_value : {A : Type 0} (f : ℕ → A) (t u : ℕ) → (t == u) ≡ true → f t ≡ f u
same_value f t u e = ap f ((==_iff t u).0 e)

-- A task leaves the runner's tasks and the children of its nursery.
abbrev pub without : Task → Nurseries → Nurseries
without t s =
    let n = s.parent_nursery t in
    put n (record (s.nurseries n) { children = remove t (s.nurseries n).children })
      (record s { tasks = remove t s.tasks })

module _ (t : Task) (s : Nurseries) (h : IsTracked s) (l : mem t s.tasks ≡ true) where
  without-IsTracked : IsTracked (without t s)
  without-IsTracked = record {
    placed = λ n u. elim (Bool-cases (s.parent_nursery t == n)) [
      | inl e ↦
          rw (e, mem-remove u t _ (h.distinct (s.parent_nursery t)), mem-remove u t _ h.once)
            (ground (arith, h.placed (s.parent_nursery t) u, same_value s.parent_nursery t u))
      | inr e ↦
          rw (e, h.placed n u, mem-remove u t _ h.once)
            (ground (arith, same_value s.parent_nursery t u))
    ];
    distinct = λ n. elim (Bool-cases (s.parent_nursery t == n)) [
      | inl e ↦ rw e (Distinct-remove t _ (h.distinct (s.parent_nursery t)))
      | inr e ↦ rw e (h.distinct n)
    ];
    once = Distinct-remove t s.tasks h.once;
  }

-- The runner's tasks and the children of `n` have a new one.
abbrev pub with : ℕ → Task → Nurseries → Nurseries
with n t s =
    put n (record (s.nurseries n) { children = insert_last t (s.nurseries n).children })
      (record s { parent_nursery = update s.parent_nursery t n; tasks = insert_last t s.tasks })

module _ (n : ℕ) (t : Task) (s : Nurseries) (h : IsTracked s) (new : mem t s.tasks ≡ false) where
  pub with-IsTracked : IsTracked (with n t s)
  with-IsTracked = record {
    placed = λ m u. elim (Bool-cases (n == m)) [
      | inl e ↦
          rw
            (
              e,
              mem-insert_last u t (s.nurseries n).children,
              h.placed n u,
              mem-insert_last u t s.tasks,
            )
            (ground (arith, e))
      | inr e ↦
          rw (e, h.placed m u, mem-insert_last u t s.tasks)
            (ground (arith, e, new, same_value (λ (x : Task). mem x s.tasks) t u))
    ];
    distinct = λ m. elim (Bool-cases (n == m)) [
      | inl e ↦ rw e (Distinct-insert_last t _ (h.distinct n))
      | inr e ↦ rw e (h.distinct m)
    ];
    once = Distinct-insert_last t s.tasks h.once;
  }

-- The flags of a nursery stay sound when a child goes, or when an open one gets a child.
pub fewer-IsOpenWhileBusy :
    (v : Nursery) (l : List Task)
    → IsOpenWhileBusy v
    → v.closed ≡ false
    → IsOpenWhileBusy (record v { children = l })
fewer-IsOpenWhileBusy v l h c = record {
  busy = λ b. c;
  left = h.left;
  waiting = h.waiting;
  cancelled = h.cancelled;
}

pub member_of : (t : Task) (l : List Task) → mem t l ≡ true → nonempty l ≡ true
unfolding mem
member_of t [] h = h
member_of t (x ∷ xs) h = refl

pub is_child :
    (t : Task) (s : Nurseries)
    → IsValid s
    → mem t s.tasks ≡ true
    → mem t (s.nurseries (s.parent_nursery t)).children ≡ true
is_child t s h l = ground (arith, l, h.tracked.placed (s.parent_nursery t) t)

-- A nursery of which a live task is a child is open.
pub open_parent :
    (t : Task) (s : Nurseries)
    → IsValid s
    → mem t s.tasks ≡ true
    → (s.nurseries (s.parent_nursery t)).closed ≡ false
open_parent t s h l =
    (h.settled (s.parent_nursery t)).steady.busy (ground (arith, member_of t _ (is_child t s h l)))

module _ (t : Task) (s : Nurseries) (h : IsValid s) (l : mem t s.tasks ≡ true) where
  without-IsValidBut : IsValidBut (s.parent_nursery t) (without t s)
  without-IsValidBut = record {
    tracked = without-IsTracked t s h.tracked l;
    settled = λ m e. rw e (h.settled m);
    steady =
        rw (==_refl (s.parent_nursery t))
          (fewer-IsOpenWhileBusy _ _ (h.settled (s.parent_nursery t)).steady (open_parent t s h l));
  }

-- What is added to the exceptions of a nursery.
module _ (n e : ℕ) (s : Nurseries) (h : IsValidBut n s) where
  add_exc-IsValidBut : IsValidBut n (add_exc n e s).1
  unfolding add_exc
  add_exc-IsValidBut = record {
    tracked = same-IsTracked h.tracked (λ m. ground (arith, ==_iff n m)) refl refl;
    settled = λ m k. rw k (h.settled m k);
    steady = rw (==_refl n) record {
      busy = h.steady.busy;
      left = h.steady.left;
      waiting = h.steady.waiting;
      cancelled = λ b. refl;
    };
  }

module _ (t : Task) (e : ℕ) (s : Nurseries) (h : IsValid s) where
  exit-IsValid : (o : Result (Unit {0})) → mem t s.tasks ≡ true → IsValid (task_exited t o e s).1
  unfolding task_exited child_finished
  exit-IsValid (ok x) l =
      rw (l, is_child t s h l)
        (check-IsValid (s.parent_nursery t) (without t s) (without-IsValidBut t s h l))
  exit-IsValid (raise k) l =
      rw (l, is_child t s h l)
        (check-IsValid (s.parent_nursery t) (add_exc (s.parent_nursery t) e (without t s)).1
          (add_exc-IsValidBut (s.parent_nursery t) e (without t s) (without-IsValidBut t s h l)))

  pub task_exited-IsValid : (o : Result (Unit {0})) → IsValid (task_exited t o e s).1
  unfolding task_exited
  task_exited-IsValid o = elim (Bool-cases (mem t s.tasks)) [
    | inl l ↦ exit-IsValid o l
    | inr l ↦ rw l h
  ]
