-- ===== src/Epoll/Entering.antt =====
-- Tasks that start to wait in trio/_core/_io_epoll.py.
use trio.Prelude.{ℕ, ◌≡◌, inl, inr, sym, ap, ◌∙◌, Bool, false, some, List, ==_iff, Bool-cases}
use trio.Exec.{continue_keeps}
use trio.Run.{Task, wait_task_rescheduled}
use trio.Epoll.{EpollIoManager, End, Call, is_some, update_registrations, epoll_wait}
use trio.Epoll.Waiting.{at, IsSound}
use trio.Epoll.Registration.{IsValid, IsValidBut, IsDone, update_registrations-IsDone}
use trio.Epoll.Calls.{IsSafe, same-IsSafe, world-IsValid, IsApart, entered, entered-at}

module _ (fd : ℕ) (e : End) (t : Task) (s : EpollIoManager) (h : IsValid s)
    (idle : s.world.scheduled t ≡ false) (apart : IsApart s t) where
  entered-IsSound : IsSound (entered fd e (some t) s)
  entered-IsSound = record {
    idle = λ gd f u k. elim (entered-at fd e (some t) s gd f) [
      | inl (p, q, r) ↦ cc (sym r ∙ k, idle)
      | inr r ↦ h.sound.idle gd f u (sym r ∙ k)
    ];
    apart = λ gd hd f g u k l. elim (entered-at fd e (some t) s gd f) [
      | inl (p, q, r) ↦ elim (entered-at fd e (some t) s hd g) [
        | inl (p2, q2, r2) ↦ (sym p ∙ p2, sym q ∙ q2)
        | inr r2 ↦ absurd (apart hd g (sym r2 ∙ l ∙ sym k ∙ r))
      ]
      | inr r ↦ elim (entered-at fd e (some t) s hd g) [
        | inl (p2, q2, r2) ↦ absurd (apart gd f (sym r ∙ k ∙ sym l ∙ r2))
        | inr r2 ↦ h.sound.apart gd hd f g u (sym r ∙ k) (sym r2 ∙ l)
      ]
    ];
  }

  entered-IsValidBut : IsValidBut fd (entered fd e (some t) s)
  entered-IsValidBut = record { sound = entered-IsSound; armed = λ gd q. rw q (h.armed gd) }

  at_end : (gd : ℕ) (f : End) → fd ≡ gd → e ≡ f → at fd e s ≡ at gd f s
  at_end gd f p q = rw (p, q)

  -- The end was free, so whoever waited waits.
  entered_keeps :
      is_some (at fd e s) ≡ false
      → (gd : ℕ) (f : End) (u : Task) → at gd f s ≡ some u
      → at gd f (entered fd e (some t) s) ≡ some u
  entered_keeps n gd f u k = elim (entered-at fd e (some t) s gd f) [
    | inr r ↦ r ∙ k
    | inl (p, q, r) ↦ cc (ap is_some (at_end gd f p q ∙ k), n)
  ]

  entered-IsSafe :
      {u : EpollIoManager}
      → is_some (at fd e s) ≡ false
      → IsDone (some t) (entered fd e (some t) s) u
      → IsSafe s u
  entered-IsSafe n d = record {
    valid = d.valid;
    kept = record {
      waits = λ gd f u k. elim (d.released.waits gd f u (entered_keeps n gd f u k)) [
        | inl w ↦ inl w
        | inr (inl w) ↦ inr w
        | inr (inr c) ↦ absurd (apart gd f (k ∙ ap some (sym ((==_iff t u).0 c))))
      ];
      still = d.released.still;
    };
  }

  pub epoll_wait-IsSafe :
      (accepts : List Call → Call → Bool) → IsSafe s (epoll_wait accepts fd e t s).1
  unfolding epoll_wait wait_task_rescheduled
  epoll_wait-IsSafe accepts = elim (Bool-cases (is_some (at fd e s))) [
    | inl y ↦ rw y (same-IsSafe s h)
    | inr n ↦ rw n (
        continue_keeps (IsSafe s)
          (update_registrations accepts (some t) fd (entered fd e (some t) s)) _
          (entered-IsSafe n (update_registrations-IsDone accepts (some t) fd _ entered-IsValidBut))
          (λ a u k. record {
            valid = world-IsValid u _ k.valid k.valid.sound.idle;
            kept = record { waits = k.kept.waits; still = k.kept.still };
          }))
  ]
