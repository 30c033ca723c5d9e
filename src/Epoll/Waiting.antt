-- ===== src/Epoll/Waiting.antt =====
-- Who waits for which descriptor in trio/_core/_io_epoll.py, and what it means that tasks are released.
use trio.Prelude.{
  ℕ, ◌≡◌, ◌⊎◌, inl, inr, refl, sym, ap, ◌∙◌, true, false, Option, none, some, ◌==◌, ==_iff, ==_refl,
  Bool-cases, update, arith,
}
use trio.Run.{Task, Outcome, schedule}
use trio.Epoll.{
  EpollWaiters, EpollIoManager, End, read_task, write_task, Woken, waiters, store, task_at,
  set_task, is_current,
}

abbrev pub at : ℕ → End → EpollIoManager → Option Task
at fd e s = task_at e (waiters fd s)

-- A task that waits is not scheduled, and waits in one place.
pub record IsSound (s : EpollIoManager) : Type 0 where
  pub idle : (fd : ℕ) (e : End) (t : Task) → at fd e s ≡ some t → s.world.scheduled t ≡ false
  pub apart :
      (fd gd : ℕ) (e f : End) (t : Task)
      → at fd e s ≡ some t
      → at gd f s ≡ some t
      → (fd ≡ gd) × (e ≡ f)

-- From `s` to `u` tasks have stopped waiting, each because it is scheduled now or is the current task;
-- the others wait as before.
pub record IsReleased (current : Option Task) (s u : EpollIoManager) : Type 0 where
  pub fewer : (fd : ℕ) (e : End) (t : Task) → at fd e u ≡ some t → at fd e s ≡ some t
  pub same :
      (fd : ℕ) (e : End) (t : Task) → at fd e u ≡ some t → u.world.scheduled t ≡ s.world.scheduled t
  pub waits :
      (fd : ℕ) (e : End) (t : Task)
      → at fd e s ≡ some t
      → (at fd e u ≡ some t) ⊎ ((u.world.scheduled t ≡ true) ⊎ (is_current current t ≡ true))
  pub still : (t : Task) → s.world.scheduled t ≡ true → u.world.scheduled t ≡ true

pub IsReleased-IsSound :
    {current : Option Task} {s u : EpollIoManager} → IsReleased current s u → IsSound s → IsSound u
IsReleased-IsSound r h = record {
  idle = λ fd e t k. r.same fd e t k ∙ h.idle fd e t (r.fewer fd e t k);
  apart = λ fd gd e f t k l. h.apart fd gd e f t (r.fewer fd e t k) (r.fewer gd f t l);
}

pub IsReleased-trans :
    {current : Option Task} {s u v : EpollIoManager}
    → IsReleased current s u
    → IsReleased current u v
    → IsReleased current s v
IsReleased-trans p q = record {
  fewer = λ fd e t k. p.fewer fd e t (q.fewer fd e t k);
  same = λ fd e t k. q.same fd e t k ∙ p.same fd e t (q.fewer fd e t k);
  waits = λ fd e t k. elim (p.waits fd e t k) [
    | inl w ↦ q.waits fd e t w
    | inr (inl w) ↦ inr (inl (q.still t w))
    | inr (inr c) ↦ inr (inr c)
  ];
  still = λ t k. q.still t (p.still t k);
}

-- Where all wait as before.
pub IsReleased_same :
    {current : Option Task} (s u : EpollIoManager)
    → ((fd : ℕ) (e : End) → at fd e u ≡ at fd e s)
    → u.world ≡ s.world
    → IsReleased current s u
IsReleased_same s u a w = record {
  fewer = λ fd e t k. sym (a fd e) ∙ k;
  same = λ fd e t k. rw w;
  waits = λ fd e t k. inl (a fd e ∙ k);
  still = λ t k. rw w k;
}

-- The manager in which these are the waiters of `fd`.
abbrev pub embed : ℕ → EpollIoManager → Woken → EpollIoManager
embed fd s v = store fd v.waiters (record s { world = v.world })

abbrev pub here : ℕ → EpollIoManager → Woken
here fd s = record { world = s.world; waiters = waiters fd s }

module _ (fd : ℕ) (s : EpollIoManager) where
  here-at : (gd : ℕ) (e : End) → at gd e (embed fd s (here fd s)) ≡ at gd e s
  here-at gd e = elim (Bool-cases (fd == gd)) [
    | inl q ↦ rw (← (==_iff fd gd).0 q, ==_refl fd)
    | inr q ↦ rw q
  ]

  pub here-IsReleased : (current : Option Task) → IsReleased current s (embed fd s (here fd s))
  here-IsReleased current = IsReleased_same s (embed fd s (here fd s)) here-at refl

  pub here-IsSound : IsSound s → IsSound (embed fd s (here fd s))
  here-IsSound h = IsReleased-IsSound (here-IsReleased none) h

abbrev pub cleared : End → Woken → Woken
cleared e v = record v { waiters = set_task e none v.waiters }

pub task_cleared :
    (e f : End) (w : EpollWaiters) (t : Task)
    → task_at f (set_task e none w) ≡ some t
    → task_at f w ≡ some t
task_cleared read_task read_task w t k = cc
task_cleared read_task write_task w t k = k
task_cleared write_task read_task w t k = k
task_cleared write_task write_task w t k = cc

task_kept : (e f : End) (w : EpollWaiters) → (task_at f (set_task e none w) ≡ task_at f w) ⊎ (e ≡ f)
task_kept read_task read_task w = inr refl
task_kept read_task write_task w = inl refl
task_kept write_task read_task w = inl refl
task_kept write_task write_task w = inr refl

pub task_none : (e : End) (w : EpollWaiters) → task_at e (set_task e none w) ≡ none
task_none read_task w = refl
task_none write_task w = refl

module _ (fd : ℕ) (s : EpollIoManager) (v : Woken) (e : End) where
  cleared_fewer :
      (gd : ℕ) (f : End) (t : Task)
      → at gd f (embed fd s (cleared e v)) ≡ some t
      → at gd f (embed fd s v) ≡ some t
  cleared_fewer gd f t k = elim (Bool-cases (fd == gd)) [
    | inl q ↦ rw q (task_cleared e f v.waiters t (rw q at k))
    | inr q ↦ rw q (rw q at k)
  ]

  cleared_kept :
      (gd : ℕ) (f : End)
      → (at gd f (embed fd s (cleared e v)) ≡ at gd f (embed fd s v)) ⊎ ((fd ≡ gd) × (e ≡ f))
  cleared_kept gd f = elim (Bool-cases (fd == gd)) [
    | inl q ↦ elim (task_kept e f v.waiters) [
      | inl k ↦ inl (rw q k)
      | inr k ↦ inr ((==_iff fd gd).0 q, k)
    ]
    | inr q ↦ inl (rw q)
  ]

  pub at_embedded : at fd e (embed fd s v) ≡ task_at e v.waiters
  at_embedded = rw (==_refl fd)

  at_same :
      (v : Woken) (gd : ℕ) (f : End)
      → fd ≡ gd
      → e ≡ f
      → at gd f (embed fd s v) ≡ task_at e v.waiters
  at_same v gd f p q = rw (← p, ← q) (rw (==_refl fd))

  module _ (current : Option Task) where
    pub absent-IsReleased :
        task_at e v.waiters ≡ none → IsReleased current (embed fd s v) (embed fd s (cleared e v))
    absent-IsReleased n = record {
      fewer = cleared_fewer;
      same = λ gd f t k. refl;
      waits = λ gd f t k. elim (cleared_kept gd f) [
        | inl q ↦ inl (q ∙ k)
        | inr (p, q) ↦ inl (cc (sym (at_same v gd f p q) ∙ k, n))
      ];
      still = λ t k. k;
    }

    module _ (t : Task) (h : task_at e v.waiters ≡ some t) where
      pub current-IsReleased :
          is_current current t ≡ true → IsReleased current (embed fd s v) (embed fd s (cleared e v))
      current-IsReleased c = record {
        fewer = cleared_fewer;
        same = λ gd f u k. refl;
        waits = λ gd f u k. elim (cleared_kept gd f) [
          | inl q ↦ inl (q ∙ k)
          | inr (p, q) ↦ inr (inr (cc (sym (at_same v gd f p q) ∙ k, h, c)))
        ];
        still = λ u k. k;
      }

      mine :
          (gd : ℕ) (f : End) (u : Task)
          → fd ≡ gd
          → e ≡ f
          → at gd f (embed fd s v) ≡ some u
          → update v.world.scheduled t true u ≡ true
      mine gd f u p q k = ground (arith, sym (at_same v gd f p q) ∙ k, h)

      others :
          IsSound (embed fd s v)
          → (gd : ℕ) (f : End) (u : Task) → at gd f (embed fd s (cleared e v)) ≡ some u
          → (t == u) ≡ false
      others sound gd f u k = elim (Bool-cases (t == u)) [
        | inr n ↦ n
        | inl y ↦
            let (p, q) =
              sound.apart fd gd e f u (at_same v fd e refl refl ∙ h ∙ ap some ((==_iff t u).0 y))
                (cleared_fewer gd f u k) in
            cc (sym (at_same (cleared e v) gd f p q) ∙ k, task_none e v.waiters)
      ]

      pub scheduled-IsReleased :
          (o : Outcome)
          → IsSound (embed fd s v)
          → IsReleased current
              (embed fd s v)
              (embed fd s (record (cleared e v) { world = schedule t o v.world }))
      scheduled-IsReleased o sound = record {
        fewer = cleared_fewer;
        same = λ gd f u k. rw (others sound gd f u k);
        waits = λ gd f u k. elim (cleared_kept gd f) [
          | inl q ↦ inl (q ∙ k)
          | inr (p, q) ↦ inr (inl (mine gd f u p q k))
        ];
        still = λ u k. ground (arith, k);
      }
