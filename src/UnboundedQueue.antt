-- ===== src/UnboundedQueue.antt =====
-- trio/_core/_unbounded_queue.py: `UnboundedQueue`. A call takes the object together with the
-- scheduler's state; the objects in the queue are of any type.
pub mod Reach
mod Examples
use trio.Prelude.{
  ℕ, Bool, true, false, not, if◌then◌else◌, Option, none, some, List, [], ◌∷◌, ◌++◌, length,
  nonempty,
}
use trio.Exec.{
  would_block, assertion_error, Result, ok, raise, Exec, throw, modify, ensure, gets, zoom, ◌>>=◌,
  ◌>>◌, pure,
}
use trio.Run.{Task, World, checkpoint_if_cancelled, cancel_shielded_checkpoint, attempt_abort}
use trio.ParkingLot.{occupied, park, unpark, abort_fn, tasks_waiting}

pub record UnboundedQueue (A : Type 0) : Type 0 where
  pub world : World
  pub lot : ℕ
  pub items : List A
  pub can_get : Bool

module _ {A : Type 0} where
  abbrev pub on_world : {B : Type 0} → Exec World B → Exec (UnboundedQueue A) B
  on_world = zoom (λ s. s.world) (λ w s. record s { world = w })

  pub create : World → ℕ → UnboundedQueue A
  create w lot = record { world = w; lot = lot; items = []; can_get = false }

  pub qsize : UnboundedQueue A → ℕ
  qsize s = length s.items

  pub empty : UnboundedQueue A → Bool
  empty s = not (nonempty s.items)

  -- The `if` of `put_nowait`: an object comes to an empty queue.
  announce : Exec (UnboundedQueue A) Unit
  unfolding occupied
  announce s =
      if occupied s.lot s.world
      then (do on_world (unpark s.lot 1); pure tt) s
      else (ok tt, record s { can_get = true })

  unfoldable pub put_nowait : A → Exec (UnboundedQueue A) Unit
  unfolding empty announce
  put_nowait obj = do
    (λ s. (if empty s then (do ensure assertion_error (not s.can_get); announce) else pure tt) s)
    modify (λ s. record s { items = s.items ++ obj ∷ [] })

  unfoldable pub get_batch_protected : Exec (UnboundedQueue A) (List A)
  get_batch_protected s = (ok s.items, record s { items = []; can_get = false })

  unfoldable pub get_batch_nowait : Exec (UnboundedQueue A) (List A)
  unfolding get_batch_protected
  get_batch_nowait s = if not s.can_get then (raise would_block, s) else get_batch_protected s

  -- `get_batch` up to the point where the task is suspended: parked, with no batch yet, or at the
  -- end of the run queue with its batch. A parked task that is woken goes on with
  -- `get_batch_protected`.
  unfoldable pub get_batch : Bool → Task → Exec (UnboundedQueue A) (Option (List A))
  unfolding get_batch_protected
  get_batch pending t = do
    checkpoint_if_cancelled pending
    (λ s.
        (if not s.can_get then (do on_world (park s.lot t); pure none) else (do
          batch ← get_batch_protected
          on_world (cancel_shielded_checkpoint t)
          pure (some batch)))
          s)

  -- A cancellation is delivered to the task `t`.
  unfoldable pub cancel : Task → Exec (UnboundedQueue A) Unit
  cancel t = on_world (attempt_abort abort_fn t)

  -- `statistics()`: the size, and the number of waiting tasks.
  pub statistics : UnboundedQueue A → ℕ × ℕ
  unfolding qsize tasks_waiting
  statistics s = (qsize s, tasks_waiting s.lot s.world)
