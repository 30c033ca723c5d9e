-- ===== src/Sequencer/Entering.antt =====
-- Calls that claim a position of a sequencer of trio/testing/_sequencer.py.
use trio.Prelude.{
  ℕ, ◌≡◌, ◌⊎◌, inl, inr, refl, sym, ap, ◌∙◌, true, false, ◌||◌, ◌∷◌, ◌==◌, ==_iff, ==_refl, update,
  mem, Bool-cases, arith,
}
use trio.Exec.{ok, raise, runtime_error}
use trio.Run.{Task, wait_task_rescheduled, cancel_shielded_checkpoint, reschedule}
use trio.Event.{Event, wait}
use trio.Sequencer.{event, call}
use trio.Sequencer.Order.{
  Phase, waits, runs, ended, is_claimed, Sequence, IsOrdered, wait-flag, wait-enters,
}
use trio.Sequencer.Moves.{IsMoved, old_flag}

module _ {y : Sequence} (h : IsOrdered y) (p : ℕ) (t : Task) where
  is_broken :
      mem p y.sequencer.claimed ≡ false
      → (mem p y.sequencer.claimed || y.sequencer.broken) ≡ true
      → y.sequencer.broken ≡ true
  is_broken m r = ground (arith, r, m)

  pub refused-eq :
      (mem p y.sequencer.claimed || y.sequencer.broken) ≡ true
      → (call p t y.sequencer).1 ≡ y.sequencer
  unfolding call
  refused-eq r = elim (Bool-cases (mem p y.sequencer.claimed)) [
    | inl m ↦ rw m
    | inr m ↦ rw (m, is_broken m r)
  ]

  refused_raises :
      (mem p y.sequencer.claimed || y.sequencer.broken) ≡ true
      → (call p t y.sequencer).0 ≡ raise runtime_error
  unfolding call
  refused_raises r = elim (Bool-cases (mem p y.sequencer.claimed)) [
    | inl m ↦ rw m
    | inr m ↦ rw (m, is_broken m r)
  ]

  accepted_ok :
      y.sequencer.world.scheduled t ≡ false
      → (mem p y.sequencer.claimed || y.sequencer.broken) ≡ false
      → (call p t y.sequencer).0 ≡ ok tt
  unfolding call wait wait_task_rescheduled cancel_shielded_checkpoint reschedule
  accepted_ok free r =
      let absent : mem p y.sequencer.claimed ≡ false = ground (arith, r) in
      let whole : y.sequencer.broken ≡ false = ground (arith, r) in
      elim (Bool-cases (p == 0)) [
        | inl z ↦ rw (absent, whole, z)
        | inr z ↦ elim (Bool-cases (y.sequencer.flags p)) [
          | inl f ↦ rw (absent, whole, z, f, free)
          | inr f ↦ rw (absent, whole, z, f)
        ]
      ]

  pub was_refused :
      y.sequencer.world.scheduled t ≡ false
      → (call p t y.sequencer).0 ≡ raise runtime_error
      → (mem p y.sequencer.claimed || y.sequencer.broken) ≡ true
  was_refused free k = elim (Bool-cases (mem p y.sequencer.claimed || y.sequencer.broken)) [
    | inl r ↦ r
    | inr r ↦ cc (accepted_ok free r, k)
  ]

  pub was_accepted :
      (call p t y.sequencer).0 ≡ ok tt → (mem p y.sequencer.claimed || y.sequencer.broken) ≡ false
  was_accepted k = elim (Bool-cases (mem p y.sequencer.claimed || y.sequencer.broken)) [
    | inl r ↦ cc (refused_raises r, k)
    | inr r ↦ r
  ]

  module _ (r : (mem p y.sequencer.claimed || y.sequencer.broken) ≡ false) where
    absent : mem p y.sequencer.claimed ≡ false
    absent = ground (arith, r)

    whole : y.sequencer.broken ≡ false
    whole = ground (arith, r)

    new_not_ended : (f : Phase) → y.phase p ≡ ended → f ≡ ended
    new_not_ended f e = cc (sym absent ∙ h.claimed p, ap is_claimed e)

    now_claimed :
        (f : Phase)
        → is_claimed f ≡ true
        → (q : ℕ) → mem q (p ∷ y.sequencer.claimed) ≡ is_claimed (update y.phase p f q)
    unfolding mem
    now_claimed f c q = elim (Bool-cases (p == q)) [
      | inl e ↦ rw e (sym c)
      | inr e ↦ rw e (h.claimed q)
    ]

    pub first-IsMoved : (p == 0) ≡ true → IsMoved y p runs (call p t y.sequencer).1
    unfolding call
    first-IsMoved z =
        rw (absent, whole, z)
          record {
            ending = new_not_ended runs;
            flagged = λ q k. elim (old_flag h p runs (new_not_ended runs) q k) [
              | inl b ↦ cc (b, whole)
              | inr n ↦ inr n
            ];
            begun = λ k. inl ((==_iff p 0).0 z);
            here = λ u e. cc;
            flags = λ q e k. k;
            tasks = λ q u e m. inr m;
            claimed = now_claimed runs refl;
          }

    waits_inj : (u : Task) → waits t ≡ waits u → t ≡ u
    waits_inj u e = cc e

    abbrev event_after : Event
    event_after = (wait t (event p y.sequencer)).1

    kept_flag :
        (q : ℕ) → update y.sequencer.flags p event_after.flag q ≡ true → y.sequencer.flags q ≡ true
    kept_flag q k = elim (Bool-cases (p == q)) [
      | inl e ↦
          ap y.sequencer.flags (sym ((==_iff p q).0 e))
          ∙ sym (wait-flag t (event p y.sequencer))
          ∙ (rw e at k)
      | inr e ↦ rw e at k
    ]

    enters :
        (u : Task)
        → t ≡ u
        → (update y.sequencer.flags p event_after.flag p ≡ true)
          ⊎ (mem u (update y.sequencer.waiting p event_after.tasks p) ≡ true)
    enters u e = elim (wait-enters t (event p y.sequencer)) [
      | inl z ↦ inl (rw (==_refl p) (wait-flag t (event p y.sequencer) ∙ z))
      | inr m ↦ inr (rw (==_refl p, ← e) m)
    ]

    pub waiting-IsMoved : (p == 0) ≡ false → IsMoved y p (waits t) (call p t y.sequencer).1
    unfolding call
    waiting-IsMoved z =
        rw (absent, whole, z)
          record {
            ending = new_not_ended (waits t);
            flagged = λ q k.
                elim (old_flag h p (waits t) (new_not_ended (waits t)) q (kept_flag q k)) [
                  | inl b ↦ cc (b, whole)
                  | inr n ↦ inr n
                ];
            begun = λ k. cc;
            here = λ u e. enters u (waits_inj u e);
            flags = λ q e k. rw e k;
            tasks = λ q u e m. inr (rw e m);
            claimed = now_claimed (waits t) refl;
          }
