-- ===== src/CapacityLimiter/Invariant.antt =====
-- The books of a `CapacityLimiter` of trio/_sync.py between calls, and under `_wake_waiters`.
use trio.Prelude.{
  ℕ, zero, suc, ◌+◌, ◌-◌, ◌≤◌, ◌≡◌, refl, sym, ap, ◌∙◌, true, false, Option, none, List, [], ◌∷◌,
  ◌++◌, ◌⊎◌, inl, inr, arith, append_assoc, mem, Distinct, take, drop, length, update,
  length-append, length-take, mem_of_mem-take, mem_of_mem-drop, take-append-drop,
  mem-drop_of_mem-take, Distinct-append_left, drop-length, ltb, Bool-cases,
}
use trio.Exec.{ok}
use trio.Run.{Task}
use trio.ParkingLot.{set_lot}
use trio.ParkingLot.Wakeups.{schedule_all, schedule_all-lots}
use trio.ParkingLot.Invariant.{IsSound}
use trio.ParkingLot.Steps.{unpark-eq, unpark-IsSound}
use trio.CapacityLimiter.{CapacityLimiter, Tokens, finite, infinite, available, below, wake_waiters}
use trio.CapacityLimiter.Wakeups.{
  claims, clear, is_some, AllClaimed, claims-update, granted, woken_by, left_by, wake_waiters-eq,
}

abbrev pub queue : CapacityLimiter → List Task
queue s = s.world.lots s.lot

-- Each waiting task has a borrower to wait for, and no borrower has two tokens or two places.
pub record IsProper (s : CapacityLimiter) : Type 0 where
  pub sound : IsSound s.world
  pub claimed : (t : Task) → mem t (queue s) ≡ true → is_some (s.pending_borrowers t) ≡ true
  pub distinct : Distinct (s.borrowers ++ claims s.pending_borrowers (queue s))

-- Nobody waits while a token is free.
abbrev pub IsFair : CapacityLimiter → Type 0
IsFair s = (queue s ≡ []) ⊎ (below (length s.borrowers) s.total_tokens ≡ false)

AllClaimed-of_mem :
    (p : Task → Option ℕ) (ts : List Task)
    → ((t : Task) → mem t ts ≡ true → is_some (p t) ≡ true)
    → AllClaimed p ts
unfolding mem
AllClaimed-of_mem p [] h = tt
AllClaimed-of_mem p (t ∷ ts) h =
    (h t (ground arith), AllClaimed-of_mem p ts (λ u m. h u (ground arith)))

pub claims-append :
    (p : Task → Option ℕ) (ts us : List Task) → claims p (ts ++ us) ≡ claims p ts ++ claims p us
claims-append p [] us = refl
claims-append p (t ∷ ts) us = ground (arith, claims-append p ts us)

length-claims :
    (p : Task → Option ℕ) (ts : List Task) → AllClaimed p ts → length (claims p ts) ≡ length ts
length-claims p [] a = refl
length-claims p (t ∷ ts) (c, a) = ground (arith, length-claims p ts a)

claims-clear :
    (ts : List Task) (p : Task → Option ℕ) (us : List Task)
    → ((t : Task) → mem t ts ≡ true → mem t us ≡ false)
    → claims (clear ts p) us ≡ claims p us
unfolding mem
claims-clear [] p us h = refl
claims-clear (t ∷ ts) p us h =
    claims-clear ts (update p t none) us (λ u m. h u (ground arith))
    ∙ claims-update p t none us (h t (ground arith))

clear_other :
    (ts : List Task) (p : Task → Option ℕ) (t : Task) → mem t ts ≡ false → clear ts p t ≡ p t
unfolding mem
clear_other [] p t h = refl
clear_other (u ∷ ts) p t h = ground (arith, clear_other ts (update p u none) t)

drop_all : (n : ℕ) (q : List Task) → length q ≤ n → drop n q ≡ []
drop_all zero [] h = refl
drop_all zero (t ∷ q) h = absurd (omega arith)
drop_all (suc n) [] h = refl
drop_all (suc n) (t ∷ q) h = drop_all n q (omega arith)

fair_counts :
    (total : Tokens) (borrowed : ℕ) (q : List Task) (taken : ℕ)
    → taken ≡ length (take (available total borrowed (length q)) q)
    → (drop (available total borrowed (length q)) q ≡ []) ⊎ (below (borrowed + taken) total ≡ false)
fair_counts infinite borrowed q taken e = inl (drop-length q)
fair_counts (finite n) borrowed q taken e = elim (Bool-cases (ltb (n - borrowed) (length q))) [
  | inl more ↦ inr (ground (arith, length-take (n - borrowed) q))
  | inr all ↦ inl (drop_all (n - borrowed) q (ground arith))
]

lent_counts :
    (total : Tokens) (borrowed : ℕ) (q : List Task) (taken m : ℕ)
    → taken ≡ length (take (available total borrowed (length q)) q)
    → borrowed ≤ m
    → below m total ≡ false
    → borrowed + taken ≤ m
lent_counts infinite borrowed q taken m e h capped = cc
lent_counts (finite n) borrowed q taken m e h capped = ground (arith, length-take (n - borrowed) q)

module _ (s : CapacityLimiter) (v : IsProper s) where
  open v use {sound, claimed, distinct}

  count : ℕ
  count = available s.total_tokens (length s.borrowers) (length (queue s))

  all_claimed : AllClaimed s.pending_borrowers (woken_by s)
  all_claimed =
      AllClaimed-of_mem s.pending_borrowers (woken_by s)
        λ t m. claimed t (mem_of_mem-take _ (queue s) t m)

  regrouped :
      (s.borrowers ++ claims s.pending_borrowers (woken_by s))
        ++ claims s.pending_borrowers (left_by s)
      ≡ s.borrowers ++ claims s.pending_borrowers (queue s)
  regrouped =
      append_assoc s.borrowers _ _
      ∙ ap (◌++◌ s.borrowers) (
          sym (claims-append s.pending_borrowers (woken_by s) (left_by s))
          ∙ ap (claims s.pending_borrowers) (take-append-drop _ (queue s)))

  woken-Distinct : Distinct (s.borrowers ++ claims s.pending_borrowers (woken_by s))
  woken-Distinct =
      Distinct-append_left _ (claims s.pending_borrowers (left_by s)) (rw regrouped distinct)

  -- The state that `_wake_waiters` leaves.
  pub after_wakeup : CapacityLimiter
  after_wakeup =
      granted (woken_by s)
        (record s { world = schedule_all (woken_by s) (set_lot s.lot (left_by s) s.world) })

  pub wake_waiters-lem : wake_waiters s ≡ (ok tt, after_wakeup)
  unfolding after_wakeup
  wake_waiters-lem = wake_waiters-eq s sound all_claimed woken-Distinct

  queue_after : queue after_wakeup ≡ left_by s
  unfolding after_wakeup
  queue_after = rw (schedule_all-lots (woken_by s)) (ground arith)

  left_claimed :
      (t : Task)
      → mem t (left_by s) ≡ true
      → is_some (clear (woken_by s) s.pending_borrowers t) ≡ true
  unfolding count
  left_claimed t m = elim (Bool-cases (mem t (woken_by s))) [
    | inl e ↦ ground (arith, mem-drop_of_mem-take count (queue s) (sound.distinct s.lot) t e)
    | inr e ↦
        rw (clear_other (woken_by s) s.pending_borrowers t e)
          (claimed t (mem_of_mem-drop count (queue s) t m))
  ]

  pub after_wakeup-IsProper : IsProper after_wakeup
  unfolding after_wakeup count
  after_wakeup-IsProper = record {
    sound = rw (unpark-eq sound s.lot count) at (unpark-IsSound sound s.lot count);
    claimed = λ t m. left_claimed t (rw queue_after at m);
    distinct = rw queue_after (
        rw
          (claims-clear (woken_by s) s.pending_borrowers (left_by s)
            (mem-drop_of_mem-take _ (queue s) (sound.distinct s.lot)))
          (rw regrouped distinct));
  }

  -- Waking tasks uses up the free tokens or the queue.
  pub after_wakeup-IsFair : IsFair after_wakeup
  unfolding after_wakeup
  after_wakeup-IsFair =
      rw (queue_after, length-append)
        (fair_counts s.total_tokens (length s.borrowers) (queue s) _
          (length-claims s.pending_borrowers (woken_by s) all_claimed))

  -- It lends no more tokens than there are.
  pub length-after_wakeup :
      (m : ℕ)
      → length s.borrowers ≤ m
      → below m s.total_tokens ≡ false
      → length after_wakeup.borrowers ≤ m
  unfolding after_wakeup
  length-after_wakeup m h capped = rw length-append (
      lent_counts s.total_tokens (length s.borrowers) (queue s) _ m
        (length-claims s.pending_borrowers (woken_by s) all_claimed) h capped)

  pub total_tokens-after_wakeup : after_wakeup.total_tokens ≡ s.total_tokens
  unfolding after_wakeup
  total_tokens-after_wakeup = refl
