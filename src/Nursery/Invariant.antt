-- ===== src/Nursery/Invariant.antt =====
-- When nurseries and tasks of trio/_core/_run.py fit together.
use trio.Prelude.{
  ℕ, ◌≡◌, true, false, ◌&&◌, if◌then◌else◌, ◌==◌, ==_iff, nonempty, update, mem, Distinct, arith,
  Bool-cases, inl, inr,
}
use trio.Run.{Task}
use trio.Nursery.{Nursery, Nurseries, is_busy, check_nursery_closed}

-- A nursery whose block is still running, or that has children or pending starts, is open. A parent
-- that waits in `__aexit__` has left its block, and its nursery is open. A nursery with exceptions has
-- been cancelled.
pub record IsOpenWhileBusy (v : Nursery) : Type 0 where
  pub busy : is_busy v ≡ true → v.closed ≡ false
  pub left : v.parent_waiting_in_aexit ≡ true → v.nested_child_running ≡ false
  pub waiting : v.parent_waiting_in_aexit ≡ true → v.closed ≡ false
  pub cancelled : nonempty v.pending_excs ≡ true → v.cancel_called ≡ true

-- And any other nursery is closed.
pub record IsSettled (v : Nursery) : Type 0 where
  pub steady : IsOpenWhileBusy v
  pub done : is_busy v ≡ false → v.closed ≡ true

-- What `_check_nursery_closed` leaves of a nursery.
abbrev pub settle : Nursery → Nursery
settle v = if is_busy v then v else record v { closed = true; parent_waiting_in_aexit = false }

pub settle-IsSettled : (v : Nursery) → IsOpenWhileBusy v → IsSettled (settle v)
settle-IsSettled v h = record {
  steady = record {
    busy = λ b. ground (arith, h.busy);
    left = λ b. ground (arith, h.left);
    waiting = λ b. ground (arith, h.waiting);
    cancelled = λ b. ground (arith, h.cancelled);
  };
  done = λ b. ground (arith, h.busy);
}

-- `check_nursery_closed` changes nothing else, whether or not the parent is rescheduled.
module _ (n : ℕ) (s : Nurseries) where
  pub check-nurseries :
      (m : ℕ)
      → (check_nursery_closed n s).1.nurseries m ≡ update s.nurseries n (settle (s.nurseries n)) m
  unfolding check_nursery_closed
  check-nurseries m = ground (arith, ==_iff n m)

  pub check-tasks : (check_nursery_closed n s).1.tasks ≡ s.tasks
  unfolding check_nursery_closed
  check-tasks = ground arith

  pub check-parent_nursery : (check_nursery_closed n s).1.parent_nursery ≡ s.parent_nursery
  unfolding check_nursery_closed
  check-parent_nursery = ground arith

-- The children of a nursery are the live tasks that have it as their `_parent_nursery`, each once.
pub record IsTracked (s : Nurseries) : Type 0 where
  pub placed :
      (n : ℕ) (t : Task)
      → mem t (s.nurseries n).children ≡ (mem t s.tasks && (s.parent_nursery t == n))
  pub distinct : (n : ℕ) → Distinct (s.nurseries n).children
  pub once : Distinct s.tasks

pub record IsValid (s : Nurseries) : Type 0 where
  pub tracked : IsTracked s
  pub settled : (n : ℕ) → IsSettled (s.nurseries n)

pub same-IsTracked :
    {s u : Nurseries}
    → IsTracked s
    → ((m : ℕ) → (u.nurseries m).children ≡ (s.nurseries m).children)
    → u.tasks ≡ s.tasks
    → u.parent_nursery ≡ s.parent_nursery
    → IsTracked u
same-IsTracked h c e p = record {
  placed = λ n t. rw (c n, e, p) (h.placed n t);
  distinct = λ n. rw (c n) (h.distinct n);
  once = rw e h.once;
}

-- So it is, but the nursery `n` may have to be closed yet.
pub record IsValidBut (n : ℕ) (s : Nurseries) : Type 0 where
  pub tracked : IsTracked s
  pub settled : (m : ℕ) → (n == m) ≡ false → IsSettled (s.nurseries m)
  pub steady : IsOpenWhileBusy (s.nurseries n)

settle-children : (v : Nursery) → (settle v).children ≡ v.children
settle-children v = ground arith

module _ (n : ℕ) (s : Nurseries) (h : IsValidBut n s) where
  check-children :
      (m : ℕ) → ((check_nursery_closed n s).1.nurseries m).children ≡ (s.nurseries m).children
  check-children m =
      ground (arith, check-nurseries n s m, settle-children (s.nurseries n), ==_iff n m)

  check-IsTracked : IsTracked (check_nursery_closed n s).1
  check-IsTracked =
      same-IsTracked h.tracked check-children (check-tasks n s) (check-parent_nursery n s)

  pub check-IsValid : IsValid (check_nursery_closed n s).1
  check-IsValid = record {
    tracked = check-IsTracked;
    settled = λ m. elim (Bool-cases (n == m)) [
      | inl e ↦ rw (check-nurseries n s m, e) (settle-IsSettled (s.nurseries n) h.steady)
      | inr e ↦ rw (check-nurseries n s m, e) (h.settled m e)
    ];
  }
