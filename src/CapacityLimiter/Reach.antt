-- ===== src/CapacityLimiter/Reach.antt =====
-- Any history of a `CapacityLimiter` of trio/_sync.py in which no borrower stands for two waiting
-- tasks, and a case in which one does.
use trio.Prelude.{
  ℕ, ◌≤◌, ◌≡◌, ap, ◌∙◌, Bool, true, false, some, [], ◌∷◌, ◌++◌, arith, mem, insert_last, mem-append,
  length, pos, append_assoc, take, drop,
}
use trio.Exec.{ok}
use trio.Run.{Task, World}
use trio.ParkingLot.{unpark, set_lot}
use trio.ParkingLot.Invariant.{IsSound, IsFree}
use trio.ParkingLot.Wakeups.{schedule_all}
use trio.ParkingLot.Steps.{unpark-eq}
use trio.ParkingLot.Reach.{Step-IsSound}
use trio.ParkingLot.Reach
use trio.CapacityLimiter.{
  CapacityLimiter, available, grant_all, wake_waiters, acquire_on_behalf_of_nowait,
  acquire_on_behalf_of, release_on_behalf_of, cancel, acquire_cancelled, set_total_tokens,
}
use trio.CapacityLimiter.Wakeups.{claims}
use trio.CapacityLimiter.Invariant.{queue}
use trio.CapacityLimiter.Calls.{
  IsValid, release-IsValid, nowait-IsValid, acquire-IsValid, cancel-IsValid,
  acquire_cancelled-IsValid, set_total_tokens-IsValid,
}

-- The borrower is not one for which a task waits.
abbrev pub IsNew : CapacityLimiter → ℕ → Type 0
IsNew s b = mem b (claims s.pending_borrowers (queue s)) ≡ false

-- The total is set to `m` at most.
pub data Step (m : ℕ) (s : CapacityLimiter) : CapacityLimiter → Type 0 where
  acquires_nowait : (b : ℕ) → IsNew s b → Step m s (acquire_on_behalf_of_nowait b s).1
  acquires :
      (pending : Bool) (t : Task) (b : ℕ)
      → IsNew s b
      → IsFree s.world t
      → Step m s (acquire_on_behalf_of pending t b s).1
  releases : (b : ℕ) → Step m s (release_on_behalf_of b s).1
  cancels : (t : Task) → mem t (queue s) ≡ true → Step m s (cancel t s).1
  cleans_up : (t : Task) → mem t (queue s) ≡ false → Step m s (acquire_cancelled t s).1
  resizes : (n : ℕ) → n ≤ m → Step m s (set_total_tokens (some (pos n)) s).1
  elsewhere :
      (w : World)
      → Reach.Step s.world w
      → w.lots s.lot ≡ queue s
      → Step m s (record s { world = w })

pub data History (m : ℕ) (start : CapacityLimiter) : CapacityLimiter → Type 0 where
  begin : History m start start
  next : {s v : CapacityLimiter} → History m start s → Step m s v → History m start v

elsewhere-IsValid :
    (m : ℕ) (s : CapacityLimiter) (w : World)
    → IsValid m s
    → Reach.Step s.world w
    → w.lots s.lot ≡ queue s
    → IsValid m (record s { world = w })
elsewhere-IsValid m s w v st e = record {
  proper = record {
    sound = Step-IsSound st v.proper.sound;
    claimed = λ t h. v.proper.claimed t (rw e at h);
    distinct = rw e v.proper.distinct;
  };
  fair = rw e v.fair;
  within = v.within;
  capped = v.capped;
}

Step-IsValid : {m : ℕ} {s v : CapacityLimiter} → Step m s v → IsValid m s → IsValid m v
Step-IsValid {m} (acquires_nowait b new) h = nowait-IsValid m h b new
Step-IsValid {m} (acquires pending t b new f) h = acquire-IsValid m h b new pending t f
Step-IsValid {m} (releases b) h = release-IsValid m h b
Step-IsValid {m} (cancels t i) h = cancel-IsValid m h t i
Step-IsValid {m} (cleans_up t i) h = acquire_cancelled-IsValid m h t i
Step-IsValid {m} (resizes n le) h = set_total_tokens-IsValid m h n le
Step-IsValid {m} {s} (elsewhere w st e) h = elsewhere-IsValid m s w h st e

-- In every history from a valid limiter, in which a token is asked for only on behalf of a
-- borrower that no task waits for, and the total is never set above `m`: at most `m` tokens are
-- lent, no borrower has two tokens or places in the queue, and nobody waits while a token is free.
pub History-IsValid : {m : ℕ} {s v : CapacityLimiter} → IsValid m s → History m s v → IsValid m v
History-IsValid h begin = h
History-IsValid h (next r st) = Step-IsValid st (History-IsValid h r)

-- Where two tasks wait on behalf of one borrower that has no token, in a sound world with two
-- tokens to hand out, `_wake_waiters` wakes both tasks, as if each had a token, and books the
-- borrower only once.
pub shared_borrower :
    (s : CapacityLimiter) (t u : Task) (b : ℕ)
    → IsSound s.world
    → queue s ≡ t ∷ u ∷ []
    → available s.total_tokens (length s.borrowers) 2 ≡ 2
    → s.pending_borrowers t ≡ some b
    → s.pending_borrowers u ≡ some b
    → mem b s.borrowers ≡ false
    → ((wake_waiters s).0 ≡ ok tt)
      × ((wake_waiters s).1.world.runq ≡ s.world.runq ++ t ∷ u ∷ [])
      × ((wake_waiters s).1.borrowers ≡ s.borrowers ++ b ∷ [])
unfolding wake_waiters insert_last schedule_all mem
shared_borrower s t u b sound q two pt pu new = rw woken (
    ground (
      arith,
      (rw q at (sound.distinct s.lot)).0,
      mem-append b s.borrowers (b ∷ []),
      append_assoc s.world.runq (t ∷ []) (u ∷ []),
    ))
  where
    count : available s.total_tokens (length s.borrowers) (length (queue s)) ≡ 2
    count = ap (λ l. available s.total_tokens (length s.borrowers) (length l)) q ∙ two

    both : World
    both = schedule_all (t ∷ u ∷ []) (set_lot s.lot [] s.world)

    unparked : unpark s.lot 2 s.world ≡ (ok (t ∷ u ∷ []), both)
    unparked =
        unpark-eq sound s.lot 2
        ∙ ap (λ l. (ok (take 2 l), schedule_all (take 2 l) (set_lot s.lot (drop 2 l) s.world))) q

    woken : wake_waiters s ≡ grant_all (t ∷ u ∷ []) (record s { world = both })
    woken = rw (count, unparked)
