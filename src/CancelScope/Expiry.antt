-- ===== src/CancelScope/Expiry.antt =====
-- `Deadlines` of trio/_core/_run.py. The heap of `heapq` is a list whose first element is the least
-- one; the entries are compared by time, then by scope.
pub mod Count
pub mod Passing
mod Examples
use trio.Prelude.{
  ℕ, zero, suc, ◌+◌, ◌*◌, Bool, true, false, ◌&&◌, ◌||◌, Option, none, some, List, [], ◌∷◌,
  if◌then◌else◌, ◌==◌, ltb, leb, length, mem,
}
use trio.Exec.{
  assertion_error, out_of_fuel, Result, ok, raise, Exec, pure, modify, ensure, ◌>>=◌, ◌>>◌,
}
use trio.Run.{Abort, Task, World}
use trio.CancelScope.{Scopes, Deadlines, same_time, cancel}

abbrev pub set_heap : List (ℕ × ℕ) → Scopes → Scopes
set_heap heap s = record s { deadlines = record s.deadlines { heap = heap } }

abbrev pub is_before : ℕ × ℕ → ℕ × ℕ → Bool
is_before (a, i) (b, j) = ltb a b || ((a == b) && leb i j)

-- `heap[0]`
abbrev pub least : ℕ × ℕ → List (ℕ × ℕ) → ℕ × ℕ
least e [] = e
least e (x ∷ xs) = least (if is_before e x then e else x) xs

abbrev pub is_same : ℕ × ℕ → ℕ × ℕ → Bool
is_same (a, i) (b, j) = (a == b) && (i == j)

abbrev pub take_out : ℕ × ℕ → List (ℕ × ℕ) → List (ℕ × ℕ)
take_out e [] = []
take_out e (x ∷ xs) = if is_same x e then xs else x ∷ take_out e xs

-- `deadline == cancel_scope._registered_deadline`
abbrev pub is_current : (ℕ → Option ℕ) → ℕ × ℕ → Bool
is_current registered (time, i) = same_time (some time) (registered i)

-- What `next_deadline` leaves of the heap, and the time; each round takes one entry.
abbrev pub skip_stale : (ℕ → Option ℕ) → ℕ → List (ℕ × ℕ) → List (ℕ × ℕ) × Option ℕ
skip_stale registered fuel [] = ([], none)
skip_stale registered zero (x ∷ xs) = (x ∷ xs, none)
skip_stale registered (suc fuel) (x ∷ xs) =
    let top = least x xs in
    let rest = skip_stale registered fuel (take_out top (x ∷ xs)) in
    if is_current registered top then (x ∷ xs, some (top.0)) else rest

unfoldable pub next_deadline : Exec Scopes (Option ℕ)
next_deadline s =
    let (heap, time) =
      skip_stale s.registered_deadline (length s.deadlines.heap) s.deadlines.heap in
    (ok time, set_heap heap s)

-- The loop of `_prune`: the entries that are not stale, once for each scope.
unfoldable pub pruned : (ℕ → Option ℕ) → List ℕ → List (ℕ × ℕ) → List (ℕ × ℕ)
unfolding mem
pruned registered seen [] = []
pruned registered seen (x ∷ xs) =
    let without = pruned registered seen xs in
    let one = pruned registered (x.1 ∷ seen) xs in
    if is_current registered x then (if mem (x.1) seen then without else x ∷ one) else without

unfoldable pub prune : Exec Scopes Unit
unfolding pruned
prune s =
    (do
      ensure assertion_error
          (length (pruned s.registered_deadline [] s.deadlines.heap) == s.deadlines.active)
      modify (set_heap (pruned s.registered_deadline [] s.deadlines.heap)))
      s

abbrev pub prune_threshold : ℕ
prune_threshold = 1000

module _ (abort_fn : Task → Exec World Abort) where
  abbrev pub cancel_current : ℕ → ℕ × ℕ → Exec Scopes Bool
  cancel_current rounds (time, i) s =
      (if same_time (some time) (s.registered_deadline i)
          then (do cancel abort_fn rounds i; pure true)
          else pure false)
        s

  -- Whether a scope was cancelled.
  unfoldable pub expire_loop : ℕ → ℕ → ℕ → Bool → Exec Scopes Bool
  expire_loop zero rounds now did_something s = (raise out_of_fuel, s)
  expire_loop (suc fuel) rounds now did_something s = elim s.deadlines.heap [
    | [] ↦ (ok did_something, s)
    | x ∷ xs ↦
        (let top = least x xs in
          (if leb (top.0) now
              then (do
                modify (set_heap (take_out top (x ∷ xs)))
                did ← cancel_current rounds top
                expire_loop fuel rounds now (did || did_something))
              else pure did_something)
            s)
  ]

  -- Each round but the last takes an entry, and a cancellation adds none.
  unfoldable pub expire : ℕ → ℕ → Exec Scopes Bool
  unfolding expire_loop prune
  expire rounds now s =
      (do
        did_something ← expire_loop (suc (length s.deadlines.heap)) rounds now false
        (λ u.
            (if ltb (u.deadlines.active * 2 + prune_threshold) (length u.deadlines.heap)
                then prune
                else pure tt)
              u)
        pure did_something)
        s
