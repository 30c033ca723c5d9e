-- ===== src/EntryQueue/Examples.antt =====
-- An entry queue of trio/_core/_entry_queue.py that is shut down: tests, and an instance of the theorem.
use trio.Prelude.{
  ℕ, ◌≡◌, refl, Bool, true, false, List, [], ◌∷◌, ◌++◌, if◌then◌else◌, ◌==◌, mem, insert_last,
  remove,
}
use trio.Exec.{ok, raise, run_finished_error}
use trio.EntryQueue.{
  EntryQueue, run_sync_soon, sync_fn, run_cb, run_queue, run_idempotent, run_all_bounded, shut_down,
}
use trio.EntryQueue.Shutdown.{shut_down-all}

abbrev waiting : EntryQueue
waiting = record {
  queue = 1 ∷ 2 ∷ [];
  idempotent_queue = 3 ∷ [];
  done = false;
  is_woken = true;
  ran = [];
  failures = 0;
}

-- The job 1 hands in the jobs 4, and 3 as an idempotent one.
abbrev calls : ℕ → List (ℕ × Bool)
calls job = if job == 1 then (4, false) ∷ (3, true) ∷ [] else []

-- A pass leaves what came during it in the queue; the idempotent job runs once.
one_pass : (run_all_bounded calls waiting).1.ran ≡ 1 ∷ 2 ∷ 3 ∷ []
unfolding run_all_bounded run_queue run_idempotent run_cb sync_fn run_sync_soon mem insert_last
    remove
one_pass = refl

left_over : (run_all_bounded calls waiting).1.queue ≡ 4 ∷ []
unfolding run_all_bounded run_queue run_idempotent run_cb sync_fn run_sync_soon mem insert_last
    remove
left_over = refl

too_late : (run_sync_soon 5 false (shut_down calls waiting).1).0 ≡ raise run_finished_error
unfolding shut_down run_all_bounded run_queue run_idempotent run_cb sync_fn run_sync_soon mem
    insert_last remove
too_late = refl

shut_down-all_example :
    (k : ℕ) × (shut_down calls waiting ≡ (
      ok tt,
      record waiting {
        queue = [];
        idempotent_queue = [];
        done = true;
        ran = waiting.ran ++ (waiting.queue ++ waiting.idempotent_queue);
        failures = k;
      },
    ))
shut_down-all_example = shut_down-all calls waiting
