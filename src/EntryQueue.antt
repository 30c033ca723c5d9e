-- ===== src/EntryQueue.antt =====
-- trio/_core/_entry_queue.py: the functions that threads and signal handlers hand to the run loop. A
-- job is a number; the parameter `calls` says which jobs its function hands in itself, with their
-- `idempotent` flags. The lock makes a call of `run_sync_soon` one step.
pub mod Shutdown
mod Examples
use trio.Prelude.{
  ℕ, zero, suc, ◌+◌, Bool, true, false, not, List, [], ◌∷◌, ◌++◌, if◌then◌else◌, length, nonempty,
  insert_last, remove, mem,
}
use trio.Exec.{
  run_finished_error, index_error, key_error, assertion_error, Result, ok, raise, Exec, pure,
  modify, ensure, ◌>>=◌, ◌>>◌,
}

-- `ran` is the jobs whose functions were called, in order; `failures` counts those that raised an
-- exception, which a system task then raises again; `is_woken` is the state of `wakeup`.
pub record EntryQueue : Type 0 where
  pub queue : List ℕ
  pub idempotent_queue : List ℕ
  pub done : Bool
  pub is_woken : Bool
  pub ran : List ℕ
  pub failures : ℕ

unfoldable pub size : EntryQueue → ℕ
size s = length s.queue + length s.idempotent_queue

abbrev pub put : ℕ → Bool → EntryQueue → EntryQueue
put job true s = record s { idempotent_queue = insert_last job s.idempotent_queue }
put job false s = record s { queue = s.queue ++ job ∷ [] }

unfoldable pub run_sync_soon : ℕ → Bool → Exec EntryQueue Unit
run_sync_soon job idempotent = do
  (λ s. ensure run_finished_error (not s.done) s)
  modify (put job idempotent)
  modify (λ s. record s { is_woken = true })

module _ (calls : ℕ → List (ℕ × Bool)) where
  -- What the function of a job does to the queue: its first exception ends it.
  unfoldable pub sync_fn : List (ℕ × Bool) → Exec EntryQueue Unit
  unfolding run_sync_soon
  sync_fn [] = pure tt
  sync_fn ((job, idempotent) ∷ more) = do run_sync_soon job idempotent; sync_fn more

  abbrev pub caught : Result (Unit {0}) × EntryQueue → Result (Unit {0}) × EntryQueue
  caught (ok x, s) = (ok tt, s)
  caught (raise e, s) = (ok tt, record s { failures = s.failures + 1 })

  unfoldable pub run_cb : ℕ → Exec EntryQueue Unit
  unfolding sync_fn
  run_cb job s = caught (sync_fn (calls job) (record s { ran = s.ran ++ job ∷ [] }))

  abbrev pub pop_left : List ℕ → Exec EntryQueue ℕ
  pop_left [] s = (raise index_error, s)
  pop_left (job ∷ jobs) s = (ok job, record s { queue = jobs })

  unfoldable pub run_queue : ℕ → Exec EntryQueue Unit
  unfolding run_cb
  run_queue zero s = (ok tt, s)
  run_queue (suc n) s = (do job ← (λ u. pop_left u.queue u); run_cb job; run_queue n) s

  abbrev pub delete : ℕ → Exec EntryQueue Unit
  delete job s =
      if mem job s.idempotent_queue
      then (ok tt, record s { idempotent_queue = remove job s.idempotent_queue })
      else (raise key_error, s)

  unfoldable pub run_idempotent : List ℕ → Exec EntryQueue Unit
  unfolding run_cb mem remove
  run_idempotent [] s = (ok tt, s)
  run_idempotent (job ∷ jobs) s = (do delete job; run_cb job; run_idempotent jobs) s

  unfoldable pub run_all_bounded : Exec EntryQueue Unit
  unfolding run_queue run_idempotent
  run_all_bounded s = (do run_queue (length s.queue); (λ u. run_idempotent u.idempotent_queue u)) s

  -- What `task` does when it is cancelled.
  unfoldable pub shut_down : Exec EntryQueue Unit
  unfolding run_all_bounded
  shut_down = do
    modify (λ s. record s { done = true })
    run_all_bounded
    (λ s. ensure assertion_error (not (nonempty s.queue)) s)
    (λ s. ensure assertion_error (not (nonempty s.idempotent_queue)) s)
