-- ===== src/EntryQueue/Shutdown.antt =====
-- The end of the entry queue of trio/_core/_entry_queue.py.
use trio.Prelude.{
  ℕ, ◌+◌, ◌≡◌, refl, sym, ap, ◌∙◌, Bool, true, List, [], ◌∷◌, ◌++◌, append_assoc, append-nil,
  ==_refl, length, mem, remove,
}
use trio.Exec.{ok}
use trio.EntryQueue.{
  EntryQueue, sync_fn, run_sync_soon, caught, run_cb, run_queue, run_idempotent, run_all_bounded,
  shut_down,
}

-- The jobs have run, and nothing else has happened to the queue but failures.
abbrev after_jobs : List ℕ → ℕ → EntryQueue → EntryQueue
after_jobs jobs k s = record s { ran = s.ran ++ jobs; failures = k }

module _ (calls : ℕ → List (ℕ × Bool)) where
  sync_fn-refused :
      (cs : List (ℕ × Bool)) (s : EntryQueue)
      → s.done ≡ true
      → (k : ℕ) × (caught calls (sync_fn calls cs s) ≡ (ok tt, record s { failures = k }))
  unfolding sync_fn run_sync_soon
  sync_fn-refused [] s d = (s.failures, refl)
  sync_fn-refused ((job, b) ∷ cs) s d = (s.failures + 1, rw d refl)

  run_cb-refused :
      (job : ℕ) (s : EntryQueue)
      → s.done ≡ true
      → (k : ℕ) × (run_cb calls job s ≡ (ok tt, after_jobs (job ∷ []) k s))
  unfolding run_cb
  run_cb-refused job s d = sync_fn-refused (calls job) (record s { ran = s.ran ++ job ∷ [] }) d

  run_queue-all :
      (jobs : List ℕ) (s : EntryQueue)
      → s.done ≡ true
      → s.queue ≡ jobs
      → (k : ℕ) × (run_queue calls (length jobs) s
          ≡ (ok tt, record (after_jobs jobs k s) { queue = [] }))
  unfolding run_queue
  run_queue-all [] s d e = (
    s.failures,
    ap (λ r. (ok tt, record s { ran = r })) (sym (append-nil s.ran))
        ∙ ap (λ q. (ok tt, record (after_jobs [] s.failures s) { queue = q })) e,
  )
  run_queue-all (job ∷ jobs) s d e =
      let (k, first) = run_cb-refused job (record s { queue = jobs }) d in
      let (n, rest) =
        run_queue-all jobs (after_jobs (job ∷ []) k (record s { queue = jobs })) d refl in
      (
        n,
        rw e (
            (rw first (
              rest
              ∙ ap (λ r. (ok tt, record s { ran = r; failures = n; queue = [] }))
                  (append_assoc s.ran (job ∷ []) jobs)))),
      )

  run_idempotent-all :
      (jobs : List ℕ) (s : EntryQueue)
      → s.done ≡ true
      → s.idempotent_queue ≡ jobs
      → (k : ℕ) × (run_idempotent calls jobs s
          ≡ (ok tt, record (after_jobs jobs k s) { idempotent_queue = [] }))
  unfolding run_idempotent mem remove
  run_idempotent-all [] s d e = (
    s.failures,
    ap (λ r. (ok tt, record s { ran = r })) (sym (append-nil s.ran))
        ∙ ap (λ q. (ok tt, record (after_jobs [] s.failures s) { idempotent_queue = q })) e,
  )
  run_idempotent-all (job ∷ jobs) s d e =
      let (k, first) = run_cb-refused job (record s { idempotent_queue = jobs }) d in
      let (n, rest) =
        run_idempotent-all jobs (after_jobs (job ∷ []) k (record s { idempotent_queue = jobs })) d
          refl in
      (
        n,
        rw e (
            rw (==_refl job) (
              rw first (
                rest
                ∙ ap (λ r. (ok tt, record s { ran = r; failures = n; idempotent_queue = [] }))
                    (append_assoc s.ran (job ∷ []) jobs)))),
      )

  -- When the entry queue's task is cancelled, it runs every job that is left, first those of the queue
  -- and then the idempotent ones, each in the order in which they came, whatever their functions try
  -- to hand in; both queues are empty then, so that its last assertions hold.
  pub shut_down-all :
      (s : EntryQueue)
      → (k : ℕ) × (shut_down calls s ≡ (
        ok tt,
        record s {
          queue = [];
          idempotent_queue = [];
          done = true;
          ran = s.ran ++ (s.queue ++ s.idempotent_queue);
          failures = k;
        },
      ))
  unfolding shut_down run_all_bounded
  shut_down-all s =
      let (k, first) = run_queue-all s.queue (record s { done = true }) refl refl in
      let (n, rest) =
        run_idempotent-all s.idempotent_queue
          (record (after_jobs s.queue k (record s { done = true })) { queue = [] }) refl refl in
      (
        n,
        rw first (
            rw rest (
              ap
                (λ r. (
                  ok tt,
                  record s {
                    queue = [];
                    idempotent_queue = [];
                    done = true;
                    ran = r;
                    failures = n;
                  },
                ))
                (append_assoc s.ran s.queue s.idempotent_queue))),
      )
