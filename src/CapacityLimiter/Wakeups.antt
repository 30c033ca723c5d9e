-- ===== src/CapacityLimiter/Wakeups.antt =====
-- What `_wake_waiters` of a `CapacityLimiter` of trio/_sync.py does, where no borrower stands for
-- two tasks.
use trio.Prelude.{
  ℕ, ◌≡◌, refl, ap, Bool, true, false, Option, none, some, List, [], ◌∷◌, ◌++◌, inl, inr, arith,
  append-nil, Option-cases, append_assoc, mem, insert_last_new, Distinct, Distinct-middle,
  Distinct-take, take, drop, length, update,
}
use trio.Exec.{ok}
use trio.Run.{Task}
use trio.ParkingLot.{set_lot}
use trio.ParkingLot.Wakeups.{schedule_all}
use trio.ParkingLot.Invariant.{IsSound}
use trio.ParkingLot.Steps.{unpark-eq}
use trio.CapacityLimiter.{CapacityLimiter, available, grant, grant_all, wake_waiters}

abbrev pub cons_some : Option ℕ → List ℕ → List ℕ
cons_some none l = l
cons_some (some b) l = b ∷ l

-- The borrowers for which the tasks of a list wait.
abbrev pub claims : (Task → Option ℕ) → List Task → List ℕ
claims p [] = []
claims p (t ∷ ts) = cons_some (p t) (claims p ts)

abbrev pub clear : List Task → (Task → Option ℕ) → Task → Option ℕ
clear [] p = p
clear (t ∷ ts) p = clear ts (update p t none)

abbrev pub is_some : Option ℕ → Bool
is_some none = false
is_some (some b) = true

abbrev pub AllClaimed : (Task → Option ℕ) → List Task → Type 0
AllClaimed p [] = Unit {0}
AllClaimed p (t ∷ ts) = (is_some (p t) ≡ true) × AllClaimed p ts

pub claims-update :
    (p : Task → Option ℕ) (t : Task) (o : Option ℕ) (ts : List Task)
    → mem t ts ≡ false
    → claims (update p t o) ts ≡ claims p ts
unfolding mem
claims-update p t o [] h = refl
claims-update p t o (u ∷ ts) h = ground (arith, claims-update p t o ts)

AllClaimed-update :
    (p : Task → Option ℕ) (t : Task) (ts : List Task)
    → mem t ts ≡ false
    → AllClaimed p ts
    → AllClaimed (update p t none) ts
unfolding mem
AllClaimed-update p t [] h a = tt
AllClaimed-update p t (u ∷ ts) h (c, a) = ground (arith, AllClaimed-update p t ts)

module _ (s : CapacityLimiter) (t : Task) (b : ℕ) (e : s.pending_borrowers t ≡ some b) where
  -- The state once the borrower of `t`, a new one, has its token.
  after_grant : CapacityLimiter
  after_grant = record s {
    borrowers = s.borrowers ++ b ∷ [];
    pending_borrowers = update s.pending_borrowers t none;
  }

  grant_new : mem b s.borrowers ≡ false → grant t s ≡ (ok tt, after_grant)
  unfolding grant after_grant
  grant_new h = rw (e, grant) (rw (insert_last_new b s.borrowers h))

  claims_split :
      (ts : List Task)
      → mem t ts ≡ false
      → (s.borrowers ++ b ∷ []) ++ claims (update s.pending_borrowers t none) ts
        ≡ s.borrowers ++ claims s.pending_borrowers (t ∷ ts)
  claims_split ts h = rw (claims-update s.pending_borrowers t none ts h, append_assoc, e)

-- The state once all the tasks' borrowers have their tokens.
abbrev pub granted : List Task → CapacityLimiter → CapacityLimiter
granted ts s = record s {
  borrowers = s.borrowers ++ claims s.pending_borrowers ts;
  pending_borrowers = clear ts s.pending_borrowers;
}

grant_all_lem :
    (ts : List Task) (s : CapacityLimiter)
    → Distinct ts
    → AllClaimed s.pending_borrowers ts
    → Distinct (s.borrowers ++ claims s.pending_borrowers ts)
    → grant_all ts s ≡ (ok tt, granted ts s)
unfolding grant_all after_grant
grant_all_lem [] s d a p = rw append-nil
grant_all_lem (t ∷ ts) s (new, d) (c, a) p = elim (Option-cases (s.pending_borrowers t)) [
  | inl e ↦ ground arith
  | inr (b, e) ↦ rw (grant_new s t b e (unclaimed b e)) (
      rw
        (grant_all_lem ts (after_grant s t b e) d (AllClaimed-update s.pending_borrowers t ts new a)
          (rest_proper b e))
        (ap (λ l. (ok tt, record (granted (t ∷ ts) s) { borrowers = l }))
          (claims_split s t b e ts new)))
]
  where
    unclaimed : (b : ℕ) → s.pending_borrowers t ≡ some b → mem b s.borrowers ≡ false
    unclaimed b e = Distinct-middle b s.borrowers (claims s.pending_borrowers ts) (rw e at p)

    rest_proper :
        (b : ℕ) (e : s.pending_borrowers t ≡ some b)
        → Distinct ((s.borrowers ++ b ∷ []) ++ claims (update s.pending_borrowers t none) ts)
    rest_proper b e = rw (claims_split s t b e ts new) p

-- The counting of `_wake_waiters`: how many tasks it wakes, and which.
abbrev pub woken_by : CapacityLimiter → List Task
woken_by s =
    take (available s.total_tokens (length s.borrowers) (length (s.world.lots s.lot)))
      (s.world.lots s.lot)

abbrev pub left_by : CapacityLimiter → List Task
left_by s =
    drop (available s.total_tokens (length s.borrowers) (length (s.world.lots s.lot)))
      (s.world.lots s.lot)

-- `_wake_waiters` gives the free tokens to the borrowers of the oldest waiters and wakes these.
pub wake_waiters-eq :
    (s : CapacityLimiter)
    → IsSound s.world
    → AllClaimed s.pending_borrowers (woken_by s)
    → Distinct (s.borrowers ++ claims s.pending_borrowers (woken_by s))
    → wake_waiters s ≡ (
      ok tt,
      granted
          (woken_by s)
          (record s { world = schedule_all (woken_by s) (set_lot s.lot (left_by s) s.world) }),
    )
unfolding wake_waiters
wake_waiters-eq s sound a p =
    rw (unpark-eq sound s.lot count)
      (grant_all_lem (woken_by s) _ (Distinct-take count _ (sound.distinct s.lot)) a p)
  where
    count : ℕ
    count = available s.total_tokens (length s.borrowers) (length (s.world.lots s.lot))
