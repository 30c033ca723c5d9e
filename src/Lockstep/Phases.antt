-- ===== src/Lockstep/Phases.antt =====
-- The parts of the calls of trio/testing/_memory_streams.py's lockstep queue, in a sound world.
use trio.Prelude.{
  ℕ, ◌≡◌, refl, Bool, true, false, ◌||◌, none, List, [], ◌∷◌, if◌then◌else◌, length, take, drop,
  mem, mem_of_mem-take, mem_of_mem-drop, Bool-cases, ==_iff, inl, inr, arith,
}
use trio.Exec.{◌>>◌, ok, raise, Result, cancelled}
use trio.Run.{Task, World, schedule, checkpoint_if_cancelled, cancel_shielded_checkpoint}
use trio.ParkingLot.{park, unpark_all, size}
use trio.ParkingLot.Wakeups.{schedule_all}
use trio.ParkingLot.Invariant.{IsSound, IsFree, schedule-IsSound}
use trio.ParkingLot.Steps.{unpark-eq, unpark-IsSound, park-IsSound}
use trio.MemoryStreams.Pump.{emptied}
use trio.Lockstep.{on_world, LockstepByteQueue, something_happened, wait_round, is_closed}

-- The world when the waiters are woken.
abbrev pub roused : LockstepByteQueue → World
roused s = emptied s.waiters s.world

module _ (s : LockstepByteQueue) (sound : IsSound s.world) where
  pub something_happened-eq : something_happened s ≡ (ok tt, record s { world = roused s })
  unfolding something_happened unpark_all size
  something_happened-eq = rw (unpark-eq sound s.waiters (length (s.world.lots s.waiters)))

  pub roused-IsSound : IsSound (roused s)
  roused-IsSound =
      rw (unpark-eq sound s.waiters (length (s.world.lots s.waiters))) at
        (unpark-IsSound sound s.waiters (length (s.world.lots s.waiters)))

schedule_all-IsFree :
    (ts : List Task) (w : World) (t : Task)
    → mem t ts ≡ false
    → IsFree w t
    → IsFree (schedule_all ts w) t
unfolding schedule_all mem
schedule_all-IsFree [] w t n f = f
schedule_all-IsFree (u ∷ ts) w t n f =
    schedule_all-IsFree ts (schedule u (ok none) w) t (ground (arith, n))
      record { idle = ground (arith, n, f.idle); apart = f.apart }

not_taken : (n : ℕ) (ts : List Task) (t : Task) → mem t ts ≡ false → mem t (take n ts) ≡ false
not_taken n ts t h = ground (arith, mem_of_mem-take n ts t, h)

not_left : (n : ℕ) (ts : List Task) (t : Task) → mem t ts ≡ false → mem t (drop n ts) ≡ false
not_left n ts t h = ground (arith, mem_of_mem-drop n ts t, h)

module _ (s : LockstepByteQueue) (sound : IsSound s.world) (t : Task)
    (free : IsFree s.world t) where
  pub roused-IsFree : IsFree (roused s) t
  roused-IsFree =
      schedule_all-IsFree _ _ t (not_taken _ (s.world.lots s.waiters) t (free.apart s.waiters))
        record {
          idle = free.idle;
          apart = λ lot. ground (
            arith,
            free.apart lot,
            free.apart s.waiters,
            not_left (length (s.world.lots s.waiters)) (s.world.lots s.waiters) t,
            ==_iff s.waiters lot,
          );
        }

  -- What a round does.
  abbrev pub rounded : Bool → Bool → Result (Unit {0}) × LockstepByteQueue
  rounded goes_on pending =
      if goes_on
      then (if pending
          then (raise cancelled, s)
          else (ok tt, record s { world = schedule t (ok none) s.world }))
      else (ok tt, record s { world = (park s.waiters t s.world).1 })

  pub checkpoint-eq :
      (pending : Bool)
      → (do checkpoint_if_cancelled pending; on_world (cancel_shielded_checkpoint t)) s
        ≡ rounded true pending
  unfolding checkpoint_if_cancelled cancel_shielded_checkpoint
  checkpoint-eq true = refl
  checkpoint-eq false = rw free.idle

  pub round-eq :
      (fn : LockstepByteQueue → Bool) (pending : Bool)
      → wait_round fn pending t s ≡ rounded (fn s || is_closed s) pending
  unfolding wait_round checkpoint_if_cancelled park
  round-eq fn pending = elim (Bool-cases (fn s || is_closed s)) [
    | inr c ↦ rw c
    | inl c ↦ rw c (elim (Bool-cases pending) [ inl p ↦ rw p | inr p ↦ rw (p, free.idle) ])
  ]

  pub rounded-IsSound : (b pending : Bool) → IsSound (rounded b pending).1.world
  rounded-IsSound true true = sound
  rounded-IsSound true false = schedule-IsSound sound t (ok none) free
  rounded-IsSound false pending = park-IsSound s.world s.waiters t sound free
