-- ===== src/Sequencer/Moves.antt =====
-- What single calls do to the order of blocks, for a sequencer of trio/testing/_sequencer.py.
use trio.Prelude.{
  ℕ, ◌+◌, ◌≡◌, ◌≢◌, ◌⊎◌, inl, inr, refl, sym, ap, ◌∙◌, true, false, ◌==◌, ==_iff, ==_refl, update,
  mem, Bool-cases,
}
use trio.Exec.{Result, ok, raise, continue, throw, runtime_error}
use trio.Run.{Task}
use trio.Sequencer.{Sequencer, event, set_all, wait_cancelled, finish, cancel_wait}
use trio.Sequencer.Order.{
  Phase, waits, is_cancelled, runs, ended, failed, is_claimed, has_begun, Sequence, IsNext,
  IsOrdered, IsLater, set-IsLater, set_all-IsLater, finish-flags, cancel-flag,
}

-- The block of the position `p` gets the phase `f`.
abbrev pub moved : ℕ → Phase → Sequencer → Sequence → Sequence
moved p f s y = record { sequencer = s; phase = update y.phase p f }

-- A block that has ended stays so when another phase changes.
module _ (phase : ℕ → Phase) (p : ℕ) (f : Phase) (open_ : (phase p ≡ ended) → f ≡ ended) where
  IsNext-update : (q : ℕ) → IsNext phase q → IsNext (update phase p f) q
  IsNext-update q (r, e, k) = (
    r,
    e,
    elim (Bool-cases (p == r)) [
      | inl y ↦ rw y (open_ (ap phase ((==_iff p r).0 y) ∙ k))
      | inr n ↦ rw n k
    ],
  )

-- The block at `p` gets the phase `f`, and the sequencer is `s` then.
pub record IsMoved (y : Sequence) (p : ℕ) (f : Phase) (s : Sequencer) : Type 0 where
  pub ending : y.phase p ≡ ended → f ≡ ended
  pub flagged : (q : ℕ) → s.flags q ≡ true → (s.broken ≡ true) ⊎ IsNext (update y.phase p f) q
  pub begun : has_begun f ≡ true → (p ≡ 0) ⊎ IsNext (update y.phase p f) p
  pub here : (t : Task) → f ≡ waits t → (s.flags p ≡ true) ⊎ (mem t (s.waiting p) ≡ true)
  pub flags : (q : ℕ) → (p == q) ≡ false → y.sequencer.flags q ≡ true → s.flags q ≡ true
  pub tasks :
      (q : ℕ) (t : Task)
      → (p == q) ≡ false
      → mem t (y.sequencer.waiting q) ≡ true
      → (s.flags q ≡ true) ⊎ (mem t (s.waiting q) ≡ true)
  pub claimed : (q : ℕ) → mem q s.claimed ≡ is_claimed (update y.phase p f q)

pub moved-IsOrdered :
    {y : Sequence} (p : ℕ) (f : Phase) (s : Sequencer)
    → IsOrdered y
    → IsMoved y p f s
    → IsOrdered (moved p f s y)
moved-IsOrdered {y} p f s h m = record {
  flagged = m.flagged;
  begun = λ q k. elim (Bool-cases (p == q)) [
    | inl e ↦ rw (← (==_iff p q).0 e) (m.begun (rw e at k))
    | inr e ↦ elim (h.begun q (rw e at k)) [
      | inl z ↦ inl z
      | inr n ↦ inr (IsNext-update y.phase p f m.ending q n)
    ]
  ];
  waiting = λ q t k. elim (Bool-cases (p == q)) [
    | inl e ↦ rw (← (==_iff p q).0 e) (m.here t (rw e at k))
    | inr e ↦ elim (h.waiting q t (rw e at k)) [
      | inl z ↦ inl (m.flags q e z)
      | inr n ↦ m.tasks q t e n
    ]
  ];
  claimed = m.claimed;
}

throw-state :
    (r : Result (Unit {0}) × Sequencer)
    → (continue r (λ (x : Unit). throw {A = Unit} runtime_error)).1 ≡ r.1
throw-state (ok x, s) = refl
throw-state (raise e, s) = refl

module _ {y : Sequence} (h : IsOrdered y) (p : ℕ) where
  -- A flag that was set already.
  pub old_flag :
      (f : Phase)
      → (y.phase p ≡ ended → f ≡ ended)
      → (q : ℕ) → y.sequencer.flags q ≡ true
      → (y.sequencer.broken ≡ true) ⊎ IsNext (update y.phase p f) q
  old_flag f o q k = elim (h.flagged q k) [
    | inl b ↦ inl b
    | inr n ↦ inr (IsNext-update y.phase p f o q n)
  ]

  still_claimed :
      (f : Phase)
      → is_claimed (y.phase p) ≡ true
      → is_claimed f ≡ true
      → (q : ℕ) → mem q y.sequencer.claimed ≡ is_claimed (update y.phase p f q)
  still_claimed f c d q = elim (Bool-cases (p == q)) [
    | inl e ↦
        rw e (
          h.claimed q ∙ ap (λ (r : ℕ). is_claimed (y.phase r)) (sym ((==_iff p q).0 e)) ∙ c ∙ sym d)
    | inr e ↦ rw e (h.claimed q)
  ]

  -- The wait of a task is over.
  module _ (t : Task) (w : y.phase p ≡ waits t) where
    waits_not_ended : (f : Phase) → y.phase p ≡ ended → f ≡ ended
    waits_not_ended f e = cc (w, e)

    pub resumed-IsMoved :
        (f : Phase)
        → is_claimed f ≡ true
        → (has_begun f ≡ true → y.sequencer.broken ≡ false)
        → ((u : Task) → f ≢ waits u)
        → mem t (y.sequencer.waiting p) ≡ false
        → IsMoved y p f y.sequencer
    resumed-IsMoved f c b n gone = record {
      ending = waits_not_ended f;
      flagged = old_flag f (waits_not_ended f);
      begun = λ k. elim (h.waiting p t w) [
        | inr m ↦ cc (m, gone)
        | inl z ↦ elim (old_flag f (waits_not_ended f) p z) [ inl x ↦ cc (x, b k) | inr x ↦ inr x ]
      ];
      here = λ u e. absurd (n u e);
      flags = λ q e k. k;
      tasks = λ q u e m. inr m;
      claimed = still_claimed f (ap is_claimed w) c;
    }

    pub cancelled-IsMoved : IsMoved y p is_cancelled (cancel_wait p t y.sequencer).1
    unfolding cancel_wait
    cancelled-IsMoved = record {
      ending = waits_not_ended is_cancelled;
      flagged = λ q k.
          old_flag is_cancelled (waits_not_ended is_cancelled) q (elim (Bool-cases (p == q)) [
            | inl e ↦
                ap y.sequencer.flags (sym ((==_iff p q).0 e))
                ∙ sym (cancel-flag t (event p y.sequencer))
                ∙ (rw e at k)
            | inr e ↦ rw e at k
          ]);
      begun = λ k. cc;
      here = λ u e. cc;
      flags = λ q e k. rw e k;
      tasks = λ q u e m. inr (rw e m);
      claimed = still_claimed is_cancelled (ap is_claimed w) refl;
    }

  abbrev broken_up : Sequencer
  broken_up = (set_all y.sequencer.keys (record y.sequencer { broken = true })).1

  broken_up-IsLater : IsLater (record y.sequencer { broken = true }) broken_up
  broken_up-IsLater = set_all-IsLater y.sequencer.keys (record y.sequencer { broken = true })

  pub failed-IsMoved : y.phase p ≡ is_cancelled → IsMoved y p failed (wait_cancelled y.sequencer).1
  unfolding wait_cancelled
  failed-IsMoved w =
      rw (throw-state (set_all y.sequencer.keys (record y.sequencer { broken = true }))) record {
        ending = λ e. cc (w, e);
        flagged = λ q k. inl broken_up-IsLater.broken;
        begun = λ k. cc;
        here = λ u e. cc;
        flags = λ q e. broken_up-IsLater.flags q;
        tasks = λ q u e. broken_up-IsLater.tasks q u;
        claimed = rw broken_up-IsLater.claimed (still_claimed failed (ap is_claimed w) refl);
      }

  finish-IsLater : IsLater y.sequencer (finish p y.sequencer).1
  unfolding finish
  finish-IsLater = set-IsLater (p + 1) y.sequencer

  pub finished-IsMoved : y.phase p ≡ runs → IsMoved y p ended (finish p y.sequencer).1
  finished-IsMoved w = record {
    ending = λ e. refl;
    flagged = λ q k. elim (finish-flags p q y.sequencer k) [
      | inl z ↦ rw finish-IsLater.broken (old_flag ended (λ e. refl) q z)
      | inr e ↦ inr (p, e, rw (==_refl p))
    ];
    begun = λ k. elim (h.begun p (ap has_begun w)) [
      | inl z ↦ inl z
      | inr n ↦ inr (IsNext-update y.phase p ended (λ e. refl) p n)
    ];
    here = λ u e. cc;
    flags = λ q e. finish-IsLater.flags q;
    tasks = λ q u e. finish-IsLater.tasks q u;
    claimed = rw finish-IsLater.claimed (still_claimed ended (ap is_claimed w) refl);
  }
