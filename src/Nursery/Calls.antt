-- ===== src/Nursery/Calls.antt =====
-- The calls of nurseries in trio/_core/_run.py that change one nursery, and the invariant.
use trio.Prelude.{
  ℕ, ◌≡◌, refl, sym, ap, true, false, Option, none, some, [], ◌==◌, ==_iff, nonempty, arith,
  Bool-cases, List-cases, ==_refl, inl, inr,
}
use trio.Exec.{continue_keeps}
use trio.Run.{Task}
use trio.Nursery.{
  Nursery, Nurseries, put, create, open_nursery, check_nursery_closed, add_exc,
  nested_child_finished,
}
use trio.Nursery.Invariant.{
  IsOpenWhileBusy, IsSettled, IsValid, IsValidBut, same-IsTracked, check-nurseries, check-IsValid,
}

module _ (n : ℕ) (v : Nursery) (s : Nurseries) (c : v.children ≡ (s.nurseries n).children) where
  put-children : (m : ℕ) → ((put n v s).nurseries m).children ≡ (s.nurseries m).children
  put-children m = ground (arith, c, ==_iff n m)

  pub put-IsValid : IsValid s → IsSettled v → IsValid (put n v s)
  put-IsValid h k = record {
    tracked = same-IsTracked h.tracked put-children refl refl;
    settled = λ m. elim (Bool-cases (n == m)) [ inl e ↦ rw e k | inr e ↦ rw e (h.settled m) ];
  }

  pub put-IsValidBut : IsValid s → IsOpenWhileBusy v → IsValidBut n (put n v s)
  put-IsValidBut h k = record {
    tracked = same-IsTracked h.tracked put-children refl refl;
    settled = λ m e. rw e (h.settled m);
    steady = rw (==_refl n) k;
  }

childless : {v : Nursery} → IsSettled v → v.closed ≡ true → v.children ≡ []
childless {v} h c = elim (List-cases v.children) [
  | inl e ↦ e
  | inr (t, rest, e) ↦ ground (arith, ap nonempty e, h.steady.busy)
]

pub open_nursery-IsValid :
    (n : ℕ) (t : Task) (s : Nurseries)
    → IsValid s
    → (s.nurseries n).closed ≡ true
    → IsValid (open_nursery n t s).1
unfolding open_nursery
open_nursery-IsValid n t s h c =
    put-IsValid n (create t) s (sym (childless (h.settled n) c)) h record {
      steady = record {
        busy = λ b. refl;
        left = λ b. ground (arith, b);
        waiting = λ b. refl;
        cancelled = λ b. ground (arith, b);
      };
      done = λ b. ground (arith, b);
    }

pub add_exc-IsValid : (n e : ℕ) (s : Nurseries) → IsValid s → IsValid (add_exc n e s).1
unfolding add_exc
add_exc-IsValid n e s h = put-IsValid n _ s refl h record {
  steady = record {
    busy = (h.settled n).steady.busy;
    left = (h.settled n).steady.left;
    waiting = (h.settled n).steady.waiting;
    cancelled = λ b. refl;
  };
  done = (h.settled n).done;
}

-- Who waits has left the block, and waits only where the nursery is not closed.
wait-IsValid :
    (n : ℕ) (s : Nurseries)
    → IsValid s
    → (s.nurseries n).nested_child_running ≡ false
    → (s.nurseries n).closed ≡ false
    → IsValid (put n (record (s.nurseries n) { parent_waiting_in_aexit = true }) s)
wait-IsValid n s h l c = put-IsValid n _ s refl h record {
  steady = record {
    busy = (h.settled n).steady.busy;
    left = λ b. l;
    waiting = λ b. c;
    cancelled = (h.settled n).steady.cancelled;
  };
  done = (h.settled n).done;
}

abbrev left_block : ℕ → Nurseries → Nurseries
left_block n s = put n (record (s.nurseries n) { nested_child_running = false }) s

module _ (n : ℕ) (s : Nurseries) (h : IsValid s) where
  left_block-IsValidBut : IsValidBut n (left_block n s)
  left_block-IsValidBut = put-IsValidBut n _ s refl h record {
    busy = λ b. ground (arith, (h.settled n).steady.busy, b);
    left = λ b. refl;
    waiting = (h.settled n).steady.waiting;
    cancelled = (h.settled n).steady.cancelled;
  }

  left_block-nested :
      ((check_nursery_closed n (left_block n s)).1.nurseries n).nested_child_running ≡ false
  left_block-nested = ground (arith, check-nurseries n (left_block n s) n, ==_refl n)

  leave-IsValid : IsValid (nested_child_finished n none s).1
  unfolding nested_child_finished
  leave-IsValid =
      (continue_keeps
        (λ (u : Nurseries). IsValid u × ((u.nurseries n).nested_child_running ≡ false))
        (check_nursery_closed n (left_block n s)) _
        (check-IsValid n (left_block n s) left_block-IsValidBut, left_block-nested)
        (λ a u (k, l). elim (Bool-cases (u.nurseries n).closed) [
          | inl c ↦ rw c (k, l)
          | inr c ↦ rw c (wait-IsValid n u k l c, rw (==_refl n) l)
        ])).0

pub nested_child_finished-IsValid :
    (n : ℕ) (e : Option ℕ) (s : Nurseries) → IsValid s → IsValid (nested_child_finished n e s).1
unfolding nested_child_finished
nested_child_finished-IsValid n none s h = leave-IsValid n s h
nested_child_finished-IsValid n (some e) s h =
    leave-IsValid n (add_exc n e s).1 (add_exc-IsValid n e s h)
