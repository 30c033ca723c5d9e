-- ===== src/Nursery/History.antt =====
-- Any history of the nurseries and tasks of trio/_core/_run.py. Numbers of nurseries that are not in
-- use stand for closed ones.
use trio.Prelude.{ℕ, ◌≡◌, Bool, true, false, Option, [], ◌==◌, ==_iff, mem, arith}
use trio.Exec.{Result}
use trio.Run.{Task, World}
use trio.Nursery.{
  Nurseries, open_nursery, aborted, spawn_impl, task_exited, nested_child_finished, start,
  start_finished, started,
}
use trio.Nursery.Invariant.{IsValid}
use trio.Nursery.Calls.{open_nursery-IsValid, add_exc-IsValid, nested_child_finished-IsValid}
use trio.Nursery.Moves.{task_exited-IsValid, is_child, open_parent}
use trio.Nursery.Starts.{spawn_impl-IsValid, start-IsValid, start_finished-IsValid, world-IsValid}
use trio.Nursery.Handover.{started-IsValid}

-- A new nursery gets a number that no open nursery has, and a new task is not one that lives. The
-- `finally` of `start` runs once for each time that it has counted itself.
pub data Step (s : Nurseries) : Nurseries → Type 0 where
  opens : (n : ℕ) (t : Task) → (s.nurseries n).closed ≡ true → Step s (open_nursery n t s).1
  spawns : (n : ℕ) (t : Task) → mem t s.tasks ≡ false → Step s (spawn_impl n t s).1
  exits : (t : Task) (outcome : Result (Unit {0})) (e : ℕ) → Step s (task_exited t outcome e s).1
  leaves_block : (n : ℕ) (nested_exc : Option ℕ) → Step s (nested_child_finished n nested_exc s).1
  aborts : (n e : ℕ) → Step s (aborted n e s).1
  starts :
      (n old : ℕ) (t child : Task)
      → mem child s.tasks ≡ false
      → (s.nurseries old).closed ≡ true
      → Step s (start n old t child s).1
  finishes_start :
      (n old : ℕ) (outcome : Result (Unit {0}))
      → ((s.nurseries n).pending_starts == 0) ≡ false
      → Step s (start_finished n old outcome s).1
  reports_started :
      (cancelled : Bool) (old new : ℕ)
      → (old == new) ≡ false
      → Step s (started cancelled old new s).1
  schedules : (w : World) → Step s (record s { world = w })

pub Step-IsValid : {s u : Nurseries} → Step s u → IsValid s → IsValid u
unfolding aborted
Step-IsValid {s} (opens n t c) h = open_nursery-IsValid n t s h c
Step-IsValid {s} (spawns n t new) h = spawn_impl-IsValid n t s h new
Step-IsValid {s} (exits t o e) h = task_exited-IsValid t e s h o
Step-IsValid {s} (leaves_block n e) h = nested_child_finished-IsValid n e s h
Step-IsValid {s} (aborts n e) h = add_exc-IsValid n e s h
Step-IsValid {s} (starts n old t child new c) h = start-IsValid n s h old t child new c
Step-IsValid {s} (finishes_start n old o p) h = start_finished-IsValid n s h old o p
Step-IsValid {s} (reports_started k old new a) h = started-IsValid old new a k s h
Step-IsValid {s} (schedules w) h = world-IsValid w s h

-- No nursery has been opened, and no task spawned but the init task.
pub record IsInitial (s : Nurseries) : Type 0 where
  pub no_tasks : s.tasks ≡ []
  pub unopened :
      (n : ℕ)
      → ((s.nurseries n).children ≡ [])
        × ((s.nurseries n).pending_excs ≡ [])
        × ((s.nurseries n).nested_child_running ≡ false)
        × ((s.nurseries n).parent_waiting_in_aexit ≡ false)
        × ((s.nurseries n).pending_starts ≡ 0)
        × ((s.nurseries n).closed ≡ true)

pub data History (s : Nurseries) : Nurseries → Type 0 where
  begin : IsInitial s → History s s
  next : {u v : Nurseries} → History s u → Step u v → History s v

initial-IsValid : (s : Nurseries) → IsInitial s → IsValid s
unfolding mem
initial-IsValid s h = record {
  tracked = record {
    placed = λ n t. rw (h.no_tasks, (h.unopened n).0);
    distinct = λ n. rw ((h.unopened n).0) tt;
    once = rw h.no_tasks tt;
  };
  settled = λ n.
      let (c, p, r, w, k, d) = h.unopened n in
      record {
        steady = record {
          busy = λ b. ground (arith, c, r, k, b);
          left = λ b. ground (arith, w, b);
          waiting = λ b. ground (arith, w, b);
          cancelled = λ b. ground (arith, p, b);
        };
        done = λ b. d;
      };
}

-- After any calls, whether they return or raise: a nursery is closed exactly if its block is left and
-- it has no children and no pending starts, its parent waits only where it has left the block and the
-- nursery is open, a nursery with exceptions has been cancelled, and the children of each nursery are
-- the live tasks that have it as their `_parent_nursery`, each once.
pub nurseries-IsValid : {s u : Nurseries} → History s u → IsValid u
nurseries-IsValid {s} (begin i) = initial-IsValid s i
nurseries-IsValid (next h x) = Step-IsValid x (nurseries-IsValid h)

-- After any calls, each live task is a child of exactly one nursery, and that nursery is open: there
-- are no orphans.
pub nurseries-no_orphans :
    {s u : Nurseries}
    → History s u
    → (t : Task) → mem t u.tasks ≡ true
    → (n : ℕ) × (mem t (u.nurseries n).children ≡ true)
      × ((u.nurseries n).closed ≡ false)
      × ((m : ℕ) → mem t (u.nurseries m).children ≡ true → m ≡ n)
nurseries-no_orphans {s} {u} h t l =
    let k = nurseries-IsValid h in
    (
      u.parent_nursery t,
      is_child t u k l,
      open_parent t u k l,
      λ m c. ground (arith, c, k.tracked.placed m t, ==_iff (u.parent_nursery t) m),
    )
