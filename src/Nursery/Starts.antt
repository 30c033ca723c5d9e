-- ===== src/Nursery/Starts.antt =====
-- Tasks that are started in nurseries of trio/_core/_run.py, and the invariant.
use trio.Prelude.{
  ℕ, ◌≡◌, refl, Bool, true, false, ◌+◌, ◌-◌, List, [], ◌∷◌, ◌==◌, ==_iff, nonempty, update, mem,
  insert_last, arith, Bool-cases, inl, inr,
}
use trio.Exec.{continue_keeps, Result, ensure, runtime_error, Error}
use trio.Run.{Task, World}
use trio.Nursery.{
  Nursery, Nurseries, put, open_nursery, check_nursery_closed, spawn_impl, start, start_finished,
}
use trio.Nursery.Invariant.{IsSettled, IsValid, IsValidBut, same-IsTracked, check-IsValid}
use trio.Nursery.Calls.{put-IsValid, put-IsValidBut, open_nursery-IsValid}
use trio.Nursery.Moves.{with, with-IsTracked, fewer-IsOpenWhileBusy}

-- Nurseries do not depend on what the scheduler does.
pub world-IsValid : (w : World) (s : Nurseries) → IsValid s → IsValid (record s { world = w })
world-IsValid w s h = record {
  tracked = same-IsTracked h.tracked (λ m. refl) refl refl;
  settled = h.settled;
}

insert_last-nonempty : (t : Task) (l : List Task) → nonempty (insert_last t l) ≡ true
unfolding insert_last mem
insert_last-nonempty t [] = refl
insert_last-nonempty t (x ∷ xs) = ground arith

-- An open nursery with a new child.
pub more-IsSettled :
    (v : Nursery) (t : Task)
    → IsSettled v
    → v.closed ≡ false
    → IsSettled (record v { children = insert_last t v.children })
more-IsSettled v t h c = record {
  steady = fewer-IsOpenWhileBusy v _ h.steady c;
  done = λ b. ground (arith, b, insert_last-nonempty t v.children);
}

module _ (n : ℕ) (t : Task) (s : Nurseries) (h : IsValid s) (new : mem t s.tasks ≡ false) where
  with-IsValid : (s.nurseries n).closed ≡ false → IsValid (with n t s)
  with-IsValid c = record {
    tracked = with-IsTracked n t s h.tracked new;
    settled = λ m. elim (Bool-cases (n == m)) [
      | inl e ↦ rw e (more-IsSettled (s.nurseries n) t (h.settled n) c)
      | inr e ↦ rw e (h.settled m)
    ];
  }

  pub spawn_impl-IsValid : IsValid (spawn_impl n t s).1
  unfolding spawn_impl
  spawn_impl-IsValid = elim (Bool-cases (s.nurseries n).closed) [
    | inl c ↦ rw c h
    | inr c ↦ rw c (world-IsValid _ (with n t s) (with-IsValid c))
  ]

-- A test changes nothing.
pub ensure_keeps :
    (P : Nurseries → Type 0) (e : Error) (b : Bool) (s : Nurseries) → P s → P (ensure e b s).1
ensure_keeps P e true s p = p
ensure_keeps P e false s p = p

-- `start` counts itself as a pending start as long as it runs.
abbrev counted : ℕ → Nurseries → Nurseries
counted n s =
    put n (record (s.nurseries n) { pending_starts = (s.nurseries n).pending_starts + 1 }) s

abbrev uncounted : ℕ → Nurseries → Nurseries
uncounted n s =
    put n (record (s.nurseries n) { pending_starts = (s.nurseries n).pending_starts - 1 }) s

-- And opens a nursery.
abbrev opened : ℕ → Task → Nurseries → Nurseries
opened old t s =
    let u = (open_nursery old t s).1 in
    record u { called_started = update u.called_started old false }

pub called-IsValid :
    (c : ℕ → Bool) (s : Nurseries) → IsValid s → IsValid (record s { called_started = c })
called-IsValid c s h = record {
  tracked = same-IsTracked h.tracked (λ m. refl) refl refl;
  settled = h.settled;
}

opened-IsValid :
    (old : ℕ) (t : Task) (s : Nurseries)
    → IsValid s
    → (s.nurseries old).closed ≡ true
    → IsValid (opened old t s)
opened-IsValid old t s h o =
    called-IsValid _ (open_nursery old t s).1 (open_nursery-IsValid old t s h o)

module _ (n : ℕ) (s : Nurseries) (h : IsValid s) where
  counted-IsValid : (s.nurseries n).closed ≡ false → IsValid (counted n s)
  counted-IsValid c = put-IsValid n _ s refl h record {
    steady = record {
      busy = λ b. c;
      left = (h.settled n).steady.left;
      waiting = (h.settled n).steady.waiting;
      cancelled = (h.settled n).steady.cancelled;
    };
    done = λ b. ground (arith, b);
  }

  uncounted-IsValidBut :
      ((s.nurseries n).pending_starts == 0) ≡ false → IsValidBut n (uncounted n s)
  uncounted-IsValidBut p = put-IsValidBut n _ s refl h record {
    busy = λ b. (h.settled n).steady.busy (ground (arith, p));
    left = (h.settled n).steady.left;
    waiting = (h.settled n).steady.waiting;
    cancelled = (h.settled n).steady.cancelled;
  }

still_closed :
    (n old : ℕ) (s : Nurseries)
    → (s.nurseries n).closed ≡ false
    → (s.nurseries old).closed ≡ true
    → ((counted n s).nurseries old).closed ≡ true
still_closed n old s c o = ground (arith, c, o, ==_iff n old)

module _ (n : ℕ) (s : Nurseries) (h : IsValid s) (old : ℕ) where
  pub start-IsValid :
      (t child : Task)
      → mem child s.tasks ≡ false
      → (s.nurseries old).closed ≡ true
      → IsValid (start n old t child s).1
  unfolding start open_nursery
  start-IsValid t child new o = elim (Bool-cases (s.nurseries n).closed) [
    | inl c ↦ rw c h
    | inr c ↦ rw c (
        spawn_impl-IsValid old child (opened old t (counted n s))
          (opened-IsValid old t (counted n s) (counted-IsValid n s h c) (still_closed n old s c o))
          new)
  ]

  pub start_finished-IsValid :
      (o : Result (Unit {0}))
      → ((s.nurseries n).pending_starts == 0) ≡ false
      → IsValid (start_finished n old o s).1
  unfolding start_finished
  start_finished-IsValid o p =
      continue_keeps {B = Unit} IsValid (check_nursery_closed n (uncounted n s)) _
        (check-IsValid n _ (uncounted-IsValidBut n s h p))
        (λ a u k.
          continue_keeps {A = Unit} {B = Unit} IsValid (o, u) _ k
            (λ b v j. ensure_keeps IsValid runtime_error (v.called_started old) v j))
