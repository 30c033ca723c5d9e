-- ===== src/Condition/Handoff.antt =====
-- A `Condition` of trio/_sync.py through `wait`, `notify` and `release`.
use trio.Prelude.{
  ℕ, ◌≡◌, ◌≢◌, refl, ap, ◌∙◌, true, false, none, some, List, [], ◌∷◌, inl, inr, arith, List-cases,
  mem, drop, mem-insert_last,
}
use trio.Exec.{ok}
use trio.Run.{Task}
use trio.ParkingLot.{set_lot, park}
use trio.ParkingLot.Invariant.{IsFree, mem_head, one_lot}
use trio.ParkingLot.Steps.{park-IsSound}
use trio.Lock.{Lock}
use trio.Lock.Behaviour.{queue, release-handed_over, handed_over, passed_to, passed_to-IsValid}
use trio.Lock.Behaviour
use trio.Condition.{Condition, release, wait, notify}
use trio.Condition.Behaviour.{IsValid, waiters, notify-Moved, notify-IsValid}

module _ (t : Task) (s : Condition) (v : IsValid s) (o : s.lock.owner ≡ some t)
    (f : IsFree s.lock.world t) where
  open v use {lock_valid, apart, owner_runs}

  -- `release` has given up the lock with the state `l`.
  parked : Lock → Condition
  parked l = record s { lock = record l { world = (park s.lot t l.world).1 } }

  wait-eq :
      (l : Lock) → handed_over s.lock (queue s.lock) ≡ (ok tt, l) → wait t s ≡ (ok tt, parked l)
  unfolding wait release park parked
  wait-eq l e = ground (arith, release-handed_over t s.lock lock_valid)

  parked-IsValid :
      (l : Lock)
      → Behaviour.IsValid l
      → IsFree l.world t
      → l.lot ≡ s.lock.lot
      → l.owner ≢ some t
      → ((u : Task) → l.owner ≡ some u → mem u (l.world.lots s.lot) ≡ false)
      → IsValid (parked l)
  unfolding parked park
  parked-IsValid l lv lf same ne runs = record {
    lock_valid = record {
      sound = park-IsSound l.world s.lot t lv.sound lf;
      no_idle = λ e. ground (arith, lv.no_idle e, apart);
      owner_runs = λ u e. ground (arith, lv.owner_runs u e, apart);
    };
    apart = λ e. apart (e ∙ same);
    owner_runs = λ u e. ground (arith, runs u e, mem-insert_last u t (l.world.lots s.lot));
  }

  u_waits : (u : Task) (rest : List Task) → queue s.lock ≡ u ∷ rest → mem u (queue s.lock) ≡ true
  u_waits u rest e = mem_head lock_valid.sound s.lock.lot u rest e

  still_apart :
      (u : Task) (rest : List Task)
      → queue s.lock ≡ u ∷ rest
      → (k : ℕ) → mem t ((set_lot s.lock.lot rest s.lock.world).lots k) ≡ false
  unfolding mem
  still_apart u rest e k = ground (arith, f.apart k, ap (mem t) e, f.apart s.lock.lot)

  -- `wait` by the owner of the lock, who is in no parking lot and not scheduled, keeps the condition
  -- valid: its lock is valid, the two queues are apart, and the owner waits for neither.
  pub wait-IsValid : IsValid (wait t s).1
  wait-IsValid = elim (List-cases (queue s.lock)) [
    | inl e ↦
        let l : Lock = record s.lock { owner = none } in
        rw (wait-eq l (ap (handed_over s.lock) e)) (
          parked-IsValid l
            (record { sound = lock_valid.sound; no_idle = λ _. e; owner_runs = λ u h. cc }) f refl
            (λ h. cc) (λ u h. cc))
    | inr (u, rest, e) ↦ rw (wait-eq (passed_to s.lock u rest) (ap (handed_over s.lock) e)) (
        parked-IsValid (passed_to s.lock u rest) (passed_to-IsValid s.lock u rest lock_valid e)
          (record {
            idle = ground (arith, f.idle, u_waits u rest e, f.apart s.lock.lot);
            apart = λ k. ground (arith, still_apart u rest e k);
          })
          refl (λ h. ground (arith, u_waits u rest e, f.apart s.lock.lot))
          λ x h.
            ground (arith, one_lot lock_valid.sound s.lock.lot s.lot u (u_waits u rest e), apart))
  ]

-- In a valid condition whose lock `t` owns and nobody waits for: where `t` notifies one task and
-- then releases the lock, the oldest waiter is the owner and is scheduled, the other waiters
-- remain, and nobody waits for the lock.
pub notify-release :
    (t u : Task) (rest : List Task) (s : Condition)
    → IsValid s
    → s.lock.owner ≡ some t
    → queue s.lock ≡ []
    → waiters s ≡ u ∷ rest
    → let s' = (release t (notify 1 t s).1).1 in
      (s'.lock.owner ≡ some u)
      × (s'.lock.world.scheduled u ≡ true)
      × (waiters s' ≡ rest)
      × (queue s'.lock ≡ [])
unfolding release
notify-release t u rest s v o q e = ground (
  arith,
  release-handed_over t c.lock (notify-IsValid 1 t s v).lock_valid,
  queued,
  left,
  v.apart,
  (notify-Moved 1 t s v o).2,
  (notify-Moved 1 t s v o).3,
  (notify-Moved 1 t s v o).4,
)
  where
    c : Condition
    c = (notify 1 t s).1

    queued : c.lock.world.lots s.lock.lot ≡ u ∷ []
    queued = (notify-Moved 1 t s v o).1.target ∙ ground (arith, q, e)

    left : c.lock.world.lots s.lot ≡ rest
    left = (notify-Moved 1 t s v o).1.source ∙ ap (drop 1) e
