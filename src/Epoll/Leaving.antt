-- ===== src/Epoll/Leaving.antt =====
-- Tasks that stop to wait in trio/_core/_io_epoll.py: cancellations, and descriptors that are closed.
use trio.Prelude.{
  ℕ, ◌≡◌, inl, inr, refl, sym, ap, ◌∙◌, Bool, true, false, Option, none, some, List, ◌==◌, ==_iff,
  ==_refl, Bool-cases, update, arith,
}
use trio.Exec.{continue_ok, cancelled, closed_resource_error, ok, raise}
use trio.Run.{Task, World, Outcome, reschedule}
use trio.Epoll.{
  EpollWaiters, EpollIoManager, End, read_task, write_task, Call, waiters, forget, task_at,
  set_task, made, unregister_call, update_registrations, abort, cancel, notify_closing,
}
use trio.Epoll.Waiting.{
  at, IsReleased, IsReleased-IsSound, IsReleased-trans, IsReleased_same, embed, here,
  here-IsReleased, here-IsSound,
}
use trio.Epoll.Waking.{wake_all-HasWokenAll}
use trio.Epoll.Registration.{
  no_task, nobody, IsValid, IsValidBut, IsDone, IsAwake, update_registrations-IsDone,
  update_registrations-ok,
}
use trio.Epoll.Waking.{HasWokenAll}
use trio.Epoll.Calls.{
  IsReleased-IsKept, IsSafe, same-IsSafe, world-IsValid, IsApart, entered, entered-at,
}

task_gone : (e : End) (w : EpollWaiters) → task_at e (set_task e none w) ≡ none
task_gone read_task w = refl
task_gone write_task w = refl

reschedule_self : (t : Task) (o : Outcome) (w : World) → (reschedule t o w).1.scheduled t ≡ true
unfolding reschedule
reschedule_self t o w = ground (arith, ==_refl t)

reschedule_other :
    (t u : Task) (o : Outcome) (w : World)
    → (t == u) ≡ false
    → (reschedule t o w).1.scheduled u ≡ w.scheduled u
unfolding reschedule
reschedule_other t u o w n = ground (arith, n)

module _ (accepts : List Call → Call → Bool) (current : Option Task) (fd : ℕ) (e : End) (t : Task)
    (s : EpollIoManager) (h : IsValid s) (k : at fd e s ≡ some t) (awake : IsAwake current s) where
  abbrev left : EpollIoManager
  left = entered fd e none s

  left_fewer : (gd : ℕ) (f : End) (u : Task) → at gd f left ≡ some u → at gd f s ≡ some u
  left_fewer gd f u l = elim (entered-at fd e none s gd f) [
    | inl (p, q, r) ↦ cc (r, l)
    | inr r ↦ sym r ∙ l
  ]

  left_none : at fd e left ≡ none
  left_none = rw (==_refl fd) (task_gone e (waiters fd s))

  same_end : (v : EpollIoManager) (gd : ℕ) (f : End) → fd ≡ gd → e ≡ f → at fd e v ≡ at gd f v
  same_end v gd f p q = rw (p, q)

  left-IsApart : IsApart left t
  left-IsApart gd f l =
      let (p, q) = h.sound.apart fd gd e f t k (left_fewer gd f t l) in
      cc (same_end left gd f p q, left_none, l)

  left_kept :
      (gd : ℕ) (f : End) (u : Task) → at gd f s ≡ some u → (t == u) ≡ false → at gd f left ≡ some u
  left_kept gd f u l n = elim (entered-at fd e none s gd f) [
    | inr r ↦ r ∙ l
    | inl (p, q, r) ↦ ground (arith, n, sym k ∙ same_end s gd f p q ∙ l)
  ]

  left-IsValidBut : IsValidBut fd left
  left-IsValidBut = record {
    sound = record {
      idle = λ gd f u l. h.sound.idle gd f u (left_fewer gd f u l);
      apart =
          λ gd hd f g u l m. h.sound.apart gd hd f g u (left_fewer gd f u l) (left_fewer hd g u m);
    };
    armed = λ gd q. rw q (h.armed gd);
  }

  left-IsAwake : IsAwake current left
  left-IsAwake gd f u l = awake gd f u (left_fewer gd f u l)

  abbrev updated : EpollIoManager
  updated = (update_registrations accepts current fd left).1

  updated-IsDone : IsDone current left updated
  updated-IsDone = update_registrations-IsDone accepts current fd left left-IsValidBut

  updated-IsApart : IsApart updated t
  updated-IsApart gd f l = left-IsApart gd f (updated-IsDone.released.fewer gd f t l)

  abbrev unabortable : World
  unabortable = record updated.world { abortable = update updated.world.abortable t false }

  -- The task `t` is scheduled in the end, and the others wait or are scheduled.
  rescheduled-IsSafe :
      (w : World)
      → w.scheduled t ≡ true
      → ((u : Task) → (t == u) ≡ false → w.scheduled u ≡ updated.world.scheduled u)
      → IsSafe s (record updated { world = w })
  rescheduled-IsSafe w y others = record {
    valid = world-IsValid updated w updated-IsDone.valid (λ gd f u l. elim (Bool-cases (t == u)) [
      | inl q ↦ absurd (updated-IsApart gd f (l ∙ ap some (sym ((==_iff t u).0 q))))
      | inr n ↦ others u n ∙ updated-IsDone.valid.sound.idle gd f u l
    ]);
    kept = record {
      waits = λ gd f u l. elim (Bool-cases (t == u)) [
        | inl q ↦ inr (ap w.scheduled (sym ((==_iff t u).0 q)) ∙ y)
        | inr n ↦ elim (updated-IsDone.released.waits gd f u (left_kept gd f u l n)) [
          | inl x ↦ inl x
          | inr (inl x) ↦ inr (others u n ∙ x)
          | inr (inr c) ↦ cc (awake gd f u l, c)
        ]
      ];
      still = λ u l. elim (Bool-cases (t == u)) [
        | inl q ↦ ap w.scheduled (sym ((==_iff t u).0 q)) ∙ y
        | inr n ↦ others u n ∙ updated-IsDone.released.still u l
      ];
    };
  }

  pub cancel-IsSafe : IsSafe s (cancel accepts current fd e t s).1
  unfolding cancel abort reschedule
  cancel-IsSafe = elim (Bool-cases (s.world.abortable t)) [
    | inr n ↦ rw n (same-IsSafe s h)
    | inl y ↦
        rw
          (
            y,
            continue_ok (update_registrations accepts current fd left) _
                (update_registrations-ok accepts current fd left left-IsValidBut left-IsAwake),
          )
          (rescheduled-IsSafe (reschedule t (raise cancelled) unabortable).1
            (reschedule_self t (raise cancelled) unabortable)
            (λ u n. reschedule_other t u (raise cancelled) unabortable n))
  ]

-- A descriptor is closed: nobody waits for it then, and `notify_closing` raises nothing.
module _ (current : Option Task) (fd : ℕ) (s : EpollIoManager) (h : IsValid s)
    (awake : IsAwake current s) where
  woken : HasWokenAll current closed_resource_error fd s (here fd s)
  woken =
      wake_all-HasWokenAll current closed_resource_error fd s (here fd s)
        (here-IsSound fd s h.sound)

  blames_nobody : woken.raises ≡ false
  blames_nobody = elim (Bool-cases woken.raises) [
    | inr n ↦ n
    | inl y ↦ let (e, (t, k, c)) = woken.blame y in cc (awake fd e t k, c)
  ]

  abbrev closed : EpollIoManager
  closed = made (unregister_call fd) (forget fd (embed fd s woken.after))

  notify_closing-eq : notify_closing current fd s ≡ (ok tt, closed)
  unfolding notify_closing
  notify_closing-eq = rw (woken.eq, blames_nobody)

  closed-at : (gd : ℕ) (e : End) → at gd e closed ≡ at gd e (embed fd s woken.after)
  closed-at gd e = elim (Bool-cases (fd == gd)) [
    | inl q ↦ rw (q, woken.gone) (no_task e ∙ sym (nobody (waiters fd s) e))
    | inr q ↦ rw q
  ]

  closed-IsReleased : IsReleased current s closed
  closed-IsReleased = IsReleased-trans (here-IsReleased fd s current) (
      IsReleased-trans woken.released
        (IsReleased_same (embed fd s woken.after) closed closed-at refl))

  pub notify_closing-IsSafe : IsSafe s (notify_closing current fd s).1
  notify_closing-IsSafe = rw notify_closing-eq record {
    valid = record {
      sound = IsReleased-IsSound closed-IsReleased h.sound;
      armed = λ gd. elim (Bool-cases (fd == gd)) [ inl q ↦ rw q tt | inr q ↦ rw q (h.armed gd) ];
    };
    kept = IsReleased-IsKept awake closed-IsReleased;
  }

  closed_none : (e : End) → at fd e closed ≡ none
  closed_none e = rw (==_refl fd) (no_task e)

  -- Where the current task does not wait, `notify_closing` raises nothing, leaves no waiters of the
  -- descriptor behind, and schedules a task that waits for it.
  pub notify_closing-closes :
      (e : End) (t : Task)
      → at fd e s ≡ some t
      → ((notify_closing current fd s).0 ≡ ok tt)
        × ((notify_closing current fd s).1.registered fd ≡ none)
        × ((notify_closing current fd s).1.world.scheduled t ≡ true)
  notify_closing-closes e t k = rw notify_closing-eq (
    refl,
    rw (==_refl fd),
    elim ((IsReleased-IsKept awake closed-IsReleased).waits fd e t k) [
      | inr x ↦ x
      | inl x ↦ cc (closed_none e, x)
    ],
  )
