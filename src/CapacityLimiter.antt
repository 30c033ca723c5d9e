-- ===== src/CapacityLimiter.antt =====
-- trio/_sync.py: `CapacityLimiter`. A call takes the object together with the scheduler's state;
-- borrowers, tasks among them, are identities.
pub mod Wakeups
pub mod Invariant
pub mod Calls
pub mod Reach
mod Examples
use trio.Prelude.{
  ℕ, ◌+◌, ◌-◌, Bool, true, false, not, ◌&&◌, Option, none, some, ltb, leb, if◌then◌else◌, List, [],
  ◌∷◌, ℤ, pos, negsuc, length, mem, insert_last, remove, update, min,
}
use trio.Exec.{
  cancelled, would_block, value_error, runtime_error, key_error, Result, ok, raise, Exec, throw,
  modify, zoom, gets, try_nowait, ◌>>=◌, ◌>>◌, pure,
}
use trio.Run.{Task, World, checkpoint_if_cancelled, cancel_shielded_checkpoint, attempt_abort}
use trio.ParkingLot.{occupied, park, unpark, abort_fn, tasks_waiting}

-- An integer of at least 1, or `math.inf`.
pub data Tokens : Type 0 where
  finite : ℕ → Tokens
  infinite : Tokens

pub record CapacityLimiter : Type 0 where
  pub world : World
  pub lot : ℕ
  pub borrowers : List ℕ
  pub pending_borrowers : Task → Option ℕ
  pub total_tokens : Tokens

abbrev pub on_world : {A : Type 0} → Exec World A → Exec CapacityLimiter A
on_world = zoom (λ s. s.world) (λ w s. record s { world = w })

-- `count < tokens`
abbrev pub below : ℕ → Tokens → Bool
below count (finite n) = ltb count n
below count infinite = true

-- The count that `_wake_waiters` passes to `unpark`. A negative one is 0 here, and an infinite one
-- the size of the lot: each of them wakes the same tasks.
abbrev pub available : Tokens → ℕ → ℕ → ℕ
available (finite n) borrowed waiting = n - borrowed
available infinite borrowed waiting = waiting

-- `self._borrowers.add(self._pending_borrowers.pop(woken))`
grant : Task → Exec CapacityLimiter Unit
grant t s = elim (s.pending_borrowers t) [
  | none ↦ (raise key_error, s)
  | some b ↦ (
    ok tt,
    record s {
      borrowers = insert_last b s.borrowers;
      pending_borrowers = update s.pending_borrowers t none;
    },
  )
]

grant_all : List Task → Exec CapacityLimiter Unit
unfolding grant
grant_all [] = pure tt
grant_all (t ∷ ts) = do grant t; grant_all ts

unfoldable pub wake_waiters : Exec CapacityLimiter Unit
unfolding grant_all
wake_waiters = do
  count ← gets (λ s. available s.total_tokens (length s.borrowers) (length (s.world.lots s.lot)))
  woken ← (λ s. on_world (unpark s.lot count) s)
  grant_all woken

-- What the setter of `total_tokens` accepts.
abbrev pub Setting : Type 0
Setting = Option ℤ

-- The setter; `none` stands for `math.inf`.
unfoldable pub set_total_tokens : Setting → Exec CapacityLimiter Unit
unfolding wake_waiters
set_total_tokens none = do modify (λ s. record s { total_tokens = infinite }); wake_waiters
set_total_tokens (some (negsuc n)) = throw value_error
set_total_tokens (some (pos n)) =
    if ltb n 1
    then throw value_error
    else do modify (λ s. record s { total_tokens = finite n }); wake_waiters

-- `__init__`
pub create : World → ℕ → Setting → Result (Unit {0}) × CapacityLimiter
unfolding set_total_tokens
create w lot total = set_total_tokens total (record {
  world = w;
  lot = lot;
  borrowers = [];
  pending_borrowers = λ _. none;
  total_tokens = infinite;
})

pub borrowed_tokens : CapacityLimiter → ℕ
borrowed_tokens s = length s.borrowers

unfoldable pub acquire_on_behalf_of_nowait : ℕ → Exec CapacityLimiter Unit
unfolding occupied mem insert_last
acquire_on_behalf_of_nowait b s =
    if mem b s.borrowers
    then (raise runtime_error, s)
    else if below (length s.borrowers) s.total_tokens && not (occupied s.lot s.world)
    then (ok tt, record s { borrowers = insert_last b s.borrowers })
    else (raise would_block, s)

unfoldable pub acquire_nowait : Task → Exec CapacityLimiter Unit
unfolding acquire_on_behalf_of_nowait
acquire_nowait t = acquire_on_behalf_of_nowait t

-- `acquire_on_behalf_of` by the task `t` up to the point where it is suspended: parked, or at the
-- end of the run queue with a token.
unfoldable pub acquire_on_behalf_of : Bool → Task → ℕ → Exec CapacityLimiter Unit
unfolding acquire_on_behalf_of_nowait
acquire_on_behalf_of pending t b = do
  checkpoint_if_cancelled pending
  try_nowait (acquire_on_behalf_of_nowait b)
      (do
        modify (λ s. record s { pending_borrowers = update s.pending_borrowers t (some b) })
        (λ s. on_world (park s.lot t) s))
      (λ _. on_world (cancel_shielded_checkpoint t))

unfoldable pub acquire : Bool → Task → Exec CapacityLimiter Unit
unfolding acquire_on_behalf_of
acquire pending t = acquire_on_behalf_of pending t t

-- The `except trio.Cancelled:` branch, which runs when the task is resumed with that exception.
unfoldable pub acquire_cancelled : Task → Exec CapacityLimiter Unit
acquire_cancelled t s = elim (s.pending_borrowers t) [
  | none ↦ (raise key_error, s)
  | some b ↦ (raise cancelled, record s { pending_borrowers = update s.pending_borrowers t none })
]

unfoldable pub release_on_behalf_of : ℕ → Exec CapacityLimiter Unit
unfolding wake_waiters mem remove
release_on_behalf_of b s =
    if not (mem b s.borrowers)
    then (raise runtime_error, s)
    else (do modify (λ s. record s { borrowers = remove b s.borrowers }); wake_waiters) s

unfoldable pub release : Task → Exec CapacityLimiter Unit
unfolding release_on_behalf_of
release t = release_on_behalf_of t

-- A cancellation is delivered to the task `t`.
unfoldable pub cancel : Task → Exec CapacityLimiter Unit
cancel t = on_world (attempt_abort abort_fn t)

pub record CapacityLimiterStatistics : Type 0 where
  pub borrowed_tokens : ℕ
  pub total_tokens : Tokens
  pub borrowers : List ℕ
  pub tasks_waiting : ℕ

pub statistics : CapacityLimiter → CapacityLimiterStatistics
unfolding borrowed_tokens tasks_waiting
statistics s = record {
  borrowed_tokens = borrowed_tokens s;
  total_tokens = s.total_tokens;
  borrowers = s.borrowers;
  tasks_waiting = tasks_waiting s.lot s.world;
}
