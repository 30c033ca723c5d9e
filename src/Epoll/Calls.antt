-- ===== src/Epoll/Calls.antt =====
-- The calls of trio/_core/_io_epoll.py and the tasks that wait.
use trio.Prelude.{
  ℕ, ◌≡◌, ◌≢◌, ◌⊎◌, inl, inr, refl, true, false, Option, none, some, ◌==◌, ==_iff, ==_refl,
  Bool-cases,
}
use trio.Run.{Task, World}
use trio.Epoll.{
  EpollWaiters, EpollIoManager, End, read_task, write_task, waiters, store, task_at, set_task,
}
use trio.Epoll.Waiting.{at, IsSound, IsReleased}
use trio.Epoll.Registration.{IsValid, IsAwake}

-- Nobody who waits is lost: it waits as before, or it is scheduled.
pub record IsKept (s u : EpollIoManager) : Type 0 where
  pub waits :
      (fd : ℕ) (e : End) (t : Task)
      → at fd e s ≡ some t
      → (at fd e u ≡ some t) ⊎ (u.world.scheduled t ≡ true)
  pub still : (t : Task) → s.world.scheduled t ≡ true → u.world.scheduled t ≡ true

pub IsReleased-IsKept :
    {current : Option Task} {s u : EpollIoManager}
    → IsAwake current s
    → IsReleased current s u
    → IsKept s u
IsReleased-IsKept a r = record {
  waits = λ fd e t k. elim (r.waits fd e t k) [
    | inl w ↦ inl w
    | inr (inl w) ↦ inr w
    | inr (inr c) ↦ cc (a fd e t k, c)
  ];
  still = r.still;
}

pub nobody-IsAwake : (s : EpollIoManager) → IsAwake none s
nobody-IsAwake s fd e t k = refl

-- What the scheduler does to other tasks.
pub world-IsSound :
    (s : EpollIoManager) (w : World)
    → IsSound s
    → ((fd : ℕ) (e : End) (t : Task) → at fd e s ≡ some t → w.scheduled t ≡ false)
    → IsSound (record s { world = w })
world-IsSound s w h k = record { idle = k; apart = h.apart }

pub world-IsValid :
    (s : EpollIoManager) (w : World)
    → IsValid s
    → ((fd : ℕ) (e : End) (t : Task) → at fd e s ≡ some t → w.scheduled t ≡ false)
    → IsValid (record s { world = w })
world-IsValid s w h k = record { sound = world-IsSound s w h.sound k; armed = h.armed }

-- The task `t` is at no descriptor.
abbrev pub IsApart : EpollIoManager → Task → Type 0
IsApart s t = (fd : ℕ) (e : End) → at fd e s ≢ some t

task_set :
    (e f : End) (o : Option Task) (w : EpollWaiters)
    → ((e ≡ f) × (task_at f (set_task e o w) ≡ o)) ⊎ (task_at f (set_task e o w) ≡ task_at f w)
task_set read_task read_task o w = inl (refl, refl)
task_set read_task write_task o w = inr refl
task_set write_task read_task o w = inr refl
task_set write_task write_task o w = inl (refl, refl)

-- A task enters itself.
abbrev pub entered : ℕ → End → Option Task → EpollIoManager → EpollIoManager
entered fd e o s = store fd (set_task e o (waiters fd s)) s

module _ (fd : ℕ) (e : End) (o : Option Task) (s : EpollIoManager) where
  pub entered-at :
      (gd : ℕ) (f : End)
      → ((fd ≡ gd) × (e ≡ f) × (at gd f (entered fd e o s) ≡ o))
        ⊎ (at gd f (entered fd e o s) ≡ at gd f s)
  entered-at gd f = elim (Bool-cases (fd == gd)) [
    | inr q ↦ inr (rw q)
    | inl q ↦ elim (task_set e f o (waiters fd s)) [
      | inl (p, k) ↦ inl ((==_iff fd gd).0 q, p, rw q k)
      | inr k ↦ inr (rw (← (==_iff fd gd).0 q, ==_refl fd) k)
    ]
  ]

-- A call leaves a valid manager, and loses nobody.
pub record IsSafe (s u : EpollIoManager) : Type 0 where
  pub valid : IsValid u
  pub kept : IsKept s u

pub same-IsSafe : (s : EpollIoManager) → IsValid s → IsSafe s s
same-IsSafe s h = record {
  valid = h;
  kept = record { waits = λ fd e t k. inl k; still = λ t k. k };
}
