-- ===== src/Epoll/Told.antt =====
-- The `current_flags` of the waiters of trio/_core/_io_epoll.py are what epoll was asked for.
use trio.Prelude.{
  ℕ, ◌≡◌, inl, inr, refl, ap, ◌++◌, ◌∙◌, Bool, true, false, not, ◌||◌, Option, none, some, List,
  ◌∷◌, [], ◌==◌, ==_iff, ==_refl, Bool-cases, Option-cases,
}
use trio.Exec.{
  ensure, Error, ok, zoom, continue_keeps, ensure-state, closed_resource_error, busy_resource_error,
}
use trio.Run.{Task, reschedule}
use trio.Epoll.{
  EpollWaiters, EpollIoManager, End, read_task, write_task, Call, unregister_call, event_call,
  Interest, Flags, Woken, waiters, store, forget, made, is_some, task_at, set_task, wake, wake_at,
  wake_all, wanted_flags, same_flags, is_waited, wake_unregistered, drop_idle, with_flags, asks,
  update_registrations, epoll_wait, abort, cancel, notify_closing, concerns, wake_ready,
  process_event, process_events,
}
use trio.Epoll.Asked.{asked, asked-made, asks-others, asks-accepted}
use trio.Epoll.Registration.{asks-registered}

abbrev pub is_asking : Interest → Bool
is_asking f = f.input || f.output

abbrev SameFlags : EpollWaiters → EpollWaiters → Type 0
SameFlags v w = v.current_flags ≡ w.current_flags

-- `wake_all` leaves the flags alone, also where it raises.
module _ (current : Option Task) (e : Error) (w : EpollWaiters) where
  wake_at-flags :
      (end : End) (v : Woken)
      → SameFlags v.waiters w
      → SameFlags (wake_at current e end v).1.waiters w
  wake_at-flags read_task v h =
      continue_keeps (λ u. SameFlags u.waiters w)
        (zoom (λ x. x.world) (λ y x. record x { world = y }) (wake current e v.waiters.read_task) v)
        _ h (λ raises u k. k)
  wake_at-flags write_task v h =
      continue_keeps (λ u. SameFlags u.waiters w)
        (zoom (λ x. x.world) (λ y x. record x { world = y }) (wake current e v.waiters.write_task)
          v)
        _ h (λ raises u k. k)

  wake_all-flags :
      (v : Woken) → SameFlags v.waiters w → SameFlags (wake_all current e v).1.waiters w
  unfolding wake_all
  wake_all-flags v h =
      continue_keeps (λ u. SameFlags u.waiters w) (wake_at current e read_task v) _
        (wake_at-flags read_task v h)
        (λ first u k.
          continue_keeps (λ u. SameFlags u.waiters w) (wake_at current e write_task u) _
            (wake_at-flags write_task u k)
            (λ second x l. rw (ensure-state e (not (first || second)) x) l))

module _ (accepts : List Call → Call → Bool) where
  -- The descriptor's flags, if there are any, are epoll's interest in it.
  abbrev pub IsTold : EpollIoManager → Type 0
  IsTold s =
      (fd : ℕ)
      → is_asking (waiters fd s).current_flags ≡ true
      → asked accepts fd s.calls ≡ some (waiters fd s).current_flags

  -- So it is, but for the descriptor `fd`.
  abbrev IsToldBut : ℕ → EpollIoManager → Type 0
  IsToldBut fd s =
      (gd : ℕ)
      → (fd == gd) ≡ false
      → is_asking (waiters gd s).current_flags ≡ true
      → asked accepts gd s.calls ≡ some (waiters gd s).current_flags

  store-IsTold :
      (fd : ℕ) (w : EpollWaiters) (s : EpollIoManager)
      → (is_asking w.current_flags ≡ true → asked accepts fd s.calls ≡ some w.current_flags)
      → IsToldBut fd s
      → IsTold (store fd w s)
  store-IsTold fd w s h others gd = elim (Bool-cases (fd == gd)) [
    | inl q ↦ rw (← (==_iff fd gd).0 q, ==_refl fd) h
    | inr q ↦ rw q (others gd q)
  ]

  same-IsTold :
      (fd : ℕ) (w : EpollWaiters) (s : EpollIoManager)
      → SameFlags w (waiters fd s)
      → IsTold s
      → IsTold (store fd w s)
  same-IsTold fd w s e h = store-IsTold fd w s (rw e (h fd)) (λ gd q. h gd)

  forget-IsTold : (fd : ℕ) (s : EpollIoManager) → IsToldBut fd s → IsTold (forget fd s)
  forget-IsTold fd s others gd = elim (Bool-cases (fd == gd)) [
    | inl q ↦ rw q (λ k. cc)
    | inr q ↦ rw q (others gd q)
  ]

  drop_idle-IsTold : (fd : ℕ) (s : EpollIoManager) → IsTold s → IsTold (drop_idle fd s)
  drop_idle-IsTold fd s h = elim (Bool-cases (is_waited (waiters fd s))) [
    | inl w ↦ rw w h
    | inr w ↦ rw w (forget-IsTold fd s (λ gd q. h gd))
  ]

  wake_unregistered-IsTold :
      (current : Option Task) (w : EpollWaiters) (s : EpollIoManager)
      → IsTold s
      → IsTold (wake_unregistered current w s).1
  wake_unregistered-IsTold current w s h = h

  -- The other descriptors are left alone by the calls for one.
  told-asks :
      (fd : ℕ) (f : Interest) (s : EpollIoManager)
      → IsToldBut fd s
      → IsToldBut fd (asks accepts fd f s).1
  told-asks fd f s h gd q =
      rw (asks-others accepts fd f s gd q, asks-registered accepts fd f s) (h gd q)

  pub update_registrations-IsTold :
      (current : Option Task) (fd : ℕ) (s : EpollIoManager)
      → IsTold s
      → IsTold (update_registrations accepts current fd s).1
  unfolding update_registrations
  update_registrations-IsTold current fd s h =
      let f = wanted_flags (waiters fd s) in
      let others = told-asks fd f s (λ gd q. h gd) in
      elim (Bool-cases (same_flags f (waiters fd s).current_flags)) [
        | inl e ↦ rw e (drop_idle-IsTold fd s h)
        | inr e ↦ rw e (elim (Bool-cases (asks accepts fd f s).0) [
          | inl y ↦ rw y (
              drop_idle-IsTold fd (store fd (with_flags (waiters fd s)) (asks accepts fd f s).1) (
                store-IsTold fd (with_flags (waiters fd s)) (asks accepts fd f s).1
                  (λ k. asks-accepted accepts fd f s y) others))
          | inr n ↦ rw n (
              wake_unregistered-IsTold current (waiters fd s) (forget fd (asks accepts fd f s).1)
                (forget-IsTold fd (asks accepts fd f s).1 others))
        ])
      ]

  set_task-flags : (end : End) (o : Option Task) (w : EpollWaiters) → SameFlags (set_task end o w) w
  set_task-flags read_task o w = refl
  set_task-flags write_task o w = refl

  set_task-IsTold :
      (fd : ℕ) (end : End) (o : Option Task) (s : EpollIoManager)
      → IsTold s
      → IsTold (store fd (set_task end o (waiters fd s)) s)
  set_task-IsTold fd end o s h =
      same-IsTold fd (set_task end o (waiters fd s)) s (set_task-flags end o (waiters fd s)) h

  pub epoll_wait-IsTold :
      (fd : ℕ) (end : End) (t : Task) (s : EpollIoManager)
      → IsTold s
      → IsTold (epoll_wait accepts fd end t s).1
  unfolding epoll_wait
  epoll_wait-IsTold fd end t s h =
      continue_keeps IsTold
        (ensure busy_resource_error (not (is_some (task_at end (waiters fd s)))) s) _
        (rw (ensure-state busy_resource_error (not (is_some (task_at end (waiters fd s)))) s) h)
        (λ x u k.
          continue_keeps IsTold
            (update_registrations accepts (some t) fd
              (store fd (set_task end (some t) (waiters fd u)) u))
            _
            (update_registrations-IsTold (some t) fd
              (store fd (set_task end (some t) (waiters fd u)) u)
              (set_task-IsTold fd end (some t) u k))
            (λ y v l. l))

  abort-IsTold :
      (current : Option Task) (fd : ℕ) (end : End) (s : EpollIoManager)
      → IsTold s
      → IsTold (abort accepts current fd end s).1
  unfolding abort
  abort-IsTold current fd end s h =
      update_registrations-IsTold current fd (store fd (set_task end none (waiters fd s)) s)
        (set_task-IsTold fd end none s h)

  pub cancel-IsTold :
      (current : Option Task) (fd : ℕ) (end : End) (t : Task) (s : EpollIoManager)
      → IsTold s
      → IsTold (cancel accepts current fd end t s).1
  unfolding cancel
  cancel-IsTold current fd end t s h = elim (Bool-cases (s.world.abortable t)) [
    | inr n ↦ rw n h
    | inl y ↦ rw y (
        continue_keeps IsTold (abort accepts current fd end s) _ (abort-IsTold current fd end s h)
          (λ x u k. k))
  ]

  -- A call or an event for a descriptor that has no flags.
  made-IsTold :
      (fd : ℕ) (c : Call) (s : EpollIoManager)
      → is_asking (waiters fd s).current_flags ≡ false
      → ((gd : ℕ)
          → (fd == gd) ≡ false
          → asked accepts gd (s.calls ++ c ∷ []) ≡ asked accepts gd s.calls)
      → IsTold s
      → IsTold (made c s)
  made-IsTold fd c s idle others h gd k = elim (Bool-cases (fd == gd)) [
    | inl q ↦
        cc (idle, ap (λ (x : ℕ). is_asking (waiters x s).current_flags) ((==_iff fd gd).0 q), k)
    | inr q ↦ others gd q ∙ h gd k
  ]

  pub notify_closing-IsTold :
      (current : Option Task) (fd : ℕ) (s : EpollIoManager)
      → IsTold s
      → IsTold (notify_closing current fd s).1
  unfolding notify_closing
  notify_closing-IsTold current fd s h =
      continue_keeps IsTold
        (zoom (λ s. record { world = s.world; waiters = waiters fd s })
          (λ v s. store fd v.waiters (record s { world = v.world }))
          (wake_all current closed_resource_error) s)
        _
        (same-IsTold fd
          (wake_all current closed_resource_error
            record { world = s.world; waiters = waiters fd s }).1.waiters
          s
          (wake_all-flags current closed_resource_error (waiters fd s)
            (record { world = s.world; waiters = waiters fd s }) refl)
          h)
        (λ x u k.
          made-IsTold fd (unregister_call fd) (forget fd u) (rw (==_refl fd) refl)
            (λ gd q. rw (asked-made accepts gd u.calls (unregister_call fd), q) refl)
            (forget-IsTold fd u (λ gd q. k gd)))

  wake_ready-IsTold :
      (fd : ℕ) (end : End) (f : Flags) (s : EpollIoManager)
      → IsTold s
      → IsTold (wake_ready fd end f s).1
  wake_ready-IsTold fd end f s h = elim (Bool-cases (concerns end f)) [
    | inr n ↦ rw n h
    | inl y ↦ elim (Option-cases (task_at end (waiters fd s))) [
      | inl e ↦ rw (y, e) h
      | inr (t, e) ↦
          rw (y, e)
            (continue_keeps IsTold
              (zoom (λ s. s.world) (λ w s. record s { world = w }) (reschedule t (ok none)) s) _ h
              (λ x u k. set_task-IsTold fd end none u k))
    ]
  ]

  -- EPOLLONESHOT has cleared the flags.
  abbrev unarmed : ℕ → EpollIoManager → EpollIoManager
  unarmed fd s =
      store fd (record (waiters fd s) { current_flags = record { input = false; output = false } })
        s

  event-IsTold :
      (fd : ℕ) (s : EpollIoManager) → IsTold s → IsTold (made (event_call fd) (unarmed fd s))
  event-IsTold fd s h =
      made-IsTold fd (event_call fd) (unarmed fd s) (rw (==_refl fd) refl)
        (λ gd q. rw (asked-made accepts gd s.calls (event_call fd), q) refl)
        (store-IsTold fd
          (record (waiters fd s) { current_flags = record { input = false; output = false } }) s
          (λ k. cc) (λ gd q. h gd))

  process_event-IsTold :
      (fd : ℕ) (f : Flags) (s : EpollIoManager) → IsTold s → IsTold (process_event accepts fd f s).1
  unfolding process_event
  process_event-IsTold fd f s h = elim (Bool-cases (fd == s.force_wakeup_fd)) [
    | inl y ↦ rw y h
    | inr n ↦ rw n (
        continue_keeps IsTold (wake_ready fd write_task f (made (event_call fd) (unarmed fd s))) _
          (wake_ready-IsTold fd write_task f (made (event_call fd) (unarmed fd s))
            (event-IsTold fd s h))
          (λ x u k.
            continue_keeps IsTold (wake_ready fd read_task f u) _
              (wake_ready-IsTold fd read_task f u k)
              (λ y v l. update_registrations-IsTold none fd v l)))
  ]

  pub process_events-IsTold :
      (events : List (ℕ × Flags)) (s : EpollIoManager)
      → IsTold s
      → IsTold (process_events accepts events s).1
  unfolding process_events
  process_events-IsTold [] s h = h
  process_events-IsTold ((fd, f) ∷ events) s h =
      continue_keeps IsTold (process_event accepts fd f s) _ (process_event-IsTold fd f s h)
        (λ x u k. process_events-IsTold events u k)
