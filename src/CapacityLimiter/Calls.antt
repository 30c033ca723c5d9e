-- ===== src/CapacityLimiter/Calls.antt =====
-- The books of borrowers and waiters of a `CapacityLimiter` of trio/_sync.py under each call.
use trio.Prelude.{
  ℕ, ◌+◌, ◌≤◌, ◌≡◌, ap, Bool, true, false, not, ◌&&◌, if◌then◌else◌, Option, none, some, List, [],
  ◌∷◌, ◌++◌, inl, inr, arith, append_assoc, append-nil, mem, remove, insert_last, insert_last_new,
  Distinct, Distinct-snoc, Distinct-append_left, length, update, length-append, ltb, Bool-cases,
  Option-cases, if_elim, ==_refl, pos, mem-append, mem-remove, mem-insert_last, nonempty,
}
use trio.Exec.{Exec, Result, ok, raise, cancelled, runtime_error}
use trio.Run.{Task, World, schedule, checkpoint_if_cancelled}
use trio.ParkingLot.{park}
use trio.ParkingLot.Invariant.{IsSound, IsFree, schedule-IsSound}
use trio.ParkingLot.Steps.{park-IsSound, cancel_shielded_checkpoint-eq}
use trio.ParkingLot.Cancel.{attempt_abort-eq, attempt_abort-IsSound}
use trio.CapacityLimiter.{
  CapacityLimiter, Tokens, finite, infinite, below, acquire_on_behalf_of_nowait,
  acquire_on_behalf_of, release_on_behalf_of, cancel, acquire_cancelled, set_total_tokens,
}
use trio.CapacityLimiter.Wakeups.{claims, claims-update}
use trio.CapacityLimiter.Invariant.{
  queue, IsProper, IsFair, claims-append, wake_waiters-lem, after_wakeup, after_wakeup-IsProper,
  after_wakeup-IsFair, length-after_wakeup, total_tokens-after_wakeup,
}

-- The books are proper, no token is free while somebody waits, and at most `m` tokens are lent,
-- where `m` bounds the total.
pub record IsValid (m : ℕ) (s : CapacityLimiter) : Type 0 where
  pub proper : IsProper s
  pub fair : IsFair s
  pub within : length s.borrowers ≤ m
  pub capped : below m s.total_tokens ≡ false

-- A call leaves a valid limiter, whether it returns or raises.
abbrev Ends : ℕ → Result (Unit {0}) × CapacityLimiter → Type 0
Ends m r = IsValid m r.1

mem-claims-remove :
    (p : Task → Option ℕ) (t : Task) (q : List Task) (b : ℕ)
    → mem b (claims p (remove t q)) ≡ true
    → mem b (claims p q) ≡ true
unfolding mem remove
mem-claims-remove p t [] b h = h
mem-claims-remove p t (u ∷ q) b h = ground (arith, mem-claims-remove p t q b)

Distinct-claims-remove :
    (p : Task → Option ℕ) (t : Task) (q : List Task)
    → Distinct (claims p q)
    → Distinct (claims p (remove t q))
unfolding remove
Distinct-claims-remove p t [] d = d
Distinct-claims-remove p t (u ∷ q) d = elim (Option-cases (p u)) [
  | inl e ↦ ground (arith, Distinct-claims-remove p t q)
  | inr (b, e) ↦ ground (arith, Distinct-claims-remove p t q, mem-claims-remove p t q b)
]

Distinct-append-remove :
    (p : Task → Option ℕ) (t : Task) (q : List Task) (bs : List ℕ)
    → Distinct (bs ++ claims p q)
    → Distinct (bs ++ claims p (remove t q))
Distinct-append-remove p t q [] d = Distinct-claims-remove p t q d
Distinct-append-remove p t q (b ∷ bs) (new, d) = ground (
  arith,
  Distinct-append-remove p t q bs d,
  mem-append b bs (claims p q),
  mem-append b bs (claims p (remove t q)),
  mem-claims-remove p t q b,
)

Distinct-remove_left : (b : ℕ) (xs ys : List ℕ) → Distinct (xs ++ ys) → Distinct (remove b xs ++ ys)
unfolding remove
Distinct-remove_left b [] ys d = d
Distinct-remove_left b (x ∷ xs) ys (new, d) = ground (
  arith,
  Distinct-remove_left b xs ys d,
  mem-append x xs ys,
  mem-append x (remove b xs) ys,
  mem-remove x b xs (Distinct-append_left xs ys d),
)

length-remove-le : (b : ℕ) (xs : List ℕ) → length (remove b xs) ≤ length xs
unfolding remove
length-remove-le b [] = omega arith
length-remove-le b (x ∷ xs) = ground (arith, length-remove-le b xs)

claims-enqueue :
    (p : Task → Option ℕ) (t : Task) (b : ℕ) (q : List Task)
    → mem t q ≡ false
    → claims (update p t (some b)) (q ++ t ∷ []) ≡ claims p q ++ b ∷ []
claims-enqueue p t b q h =
    rw (claims-append (update p t (some b)) q (t ∷ []), claims-update p t (some b) q h, ==_refl t)

below-lt : (x m : ℕ) (total : Tokens) → below x total ≡ true → below m total ≡ false → x + 1 ≤ m
below-lt x m infinite h g = cc
below-lt x m (finite n) h g = ground arith

module _ (m : ℕ) {s : CapacityLimiter} (v : IsValid m s) where
  open v use {proper, fair, within, capped}

  module _ (b : ℕ) where
    abbrev pub given_back : CapacityLimiter
    given_back = record s { borrowers = remove b s.borrowers }

    pub given_back-IsProper : IsProper given_back
    given_back-IsProper = record {
      sound = proper.sound;
      claimed = proper.claimed;
      distinct = Distinct-remove_left b s.borrowers _ proper.distinct;
    }

    fewer : length given_back.borrowers ≤ m
    fewer = omega (arith, length-remove-le b s.borrowers)

    -- `release_on_behalf_of` fails for who holds no token, and otherwise takes the token back and
    -- hands out what is free.
    pub release-given_back : release_on_behalf_of b s ≡ (
        if mem b s.borrowers
        then (ok tt, after_wakeup given_back given_back-IsProper)
        else (raise runtime_error, s))
    unfolding release_on_behalf_of
    release-given_back = ground (arith, wake_waiters-lem given_back given_back-IsProper)

    pub release-IsValid : IsValid m (release_on_behalf_of b s).1
    release-IsValid = elim (Bool-cases (mem b s.borrowers)) [
      | inl holds ↦ rw release-given_back (
          rw holds (record {
            proper = after_wakeup-IsProper given_back given_back-IsProper;
            fair = after_wakeup-IsFair given_back given_back-IsProper;
            within = length-after_wakeup given_back given_back-IsProper m fewer capped;
            capped = rw (total_tokens-after_wakeup given_back given_back-IsProper) capped;
          }))
      | inr other ↦ rw release-given_back (rw other v)
    ]

  -- A borrower that has no token and waits for none may ask for one.
  module _ (b : ℕ) (fresh : mem b (claims s.pending_borrowers (queue s)) ≡ false) where
    lend-IsValid :
        (w : World)
        → IsSound w
        → w.lots s.lot ≡ []
        → mem b s.borrowers ≡ false
        → below (length s.borrowers) s.total_tokens ≡ true
        → IsValid m (record s { world = w; borrowers = insert_last b s.borrowers })
    unfolding mem
    lend-IsValid w sound e new room = record {
      proper = record {
        sound = sound;
        claimed = λ t h. ground (arith, ap (mem t) e);
        distinct =
            rw (e, append-nil, insert_last_new b s.borrowers new)
              (Distinct-snoc s.borrowers b (Distinct-append_left s.borrowers _ proper.distinct)
                new);
      };
      fair = inl e;
      within =
          rw (insert_last_new b s.borrowers new, length-append)
            (below-lt _ m s.total_tokens room capped);
      capped = capped;
    }

    queue_grown :
        (t : Task)
        → IsFree s.world t
        → update s.world.lots s.lot (insert_last t (queue s)) s.lot ≡ queue s ++ t ∷ []
    queue_grown t f = ground (arith, insert_last_new t (queue s), f.apart s.lot)

    enqueue-IsValid :
        (t : Task)
        → IsFree s.world t
        → mem b s.borrowers ≡ false
        → (below (length s.borrowers) s.total_tokens && not (nonempty (queue s))) ≡ false
        → IsValid m (record s {
          pending_borrowers = update s.pending_borrowers t (some b);
          world = (park s.lot t s.world).1;
        })
    unfolding park
    enqueue-IsValid t f new full = record {
      proper = record {
        sound = park-IsSound s.world s.lot t proper.sound f;
        claimed = λ u h. ground (arith, proper.claimed u, mem-insert_last u t (queue s));
        distinct = rw (queue_grown t f) (
            rw (claims-enqueue s.pending_borrowers t b (queue s) (f.apart s.lot), ← append_assoc)
              (Distinct-snoc (s.borrowers ++ claims s.pending_borrowers (queue s)) b proper.distinct
                (ground (
                  arith,
                  fresh,
                  mem-append b s.borrowers (claims s.pending_borrowers (queue s)),
                ))));
      };
      fair = ground (arith, fair);
      within = within;
      capped = capped;
    }

    pub nowait-IsValid : IsValid m (acquire_on_behalf_of_nowait b s).1
    unfolding acquire_on_behalf_of_nowait
    nowait-IsValid =
        if_elim (Ends m) (mem b s.borrowers) (λ _. v)
          λ new.
            if_elim (Ends m) (below (length s.borrowers) s.total_tokens && not (nonempty (queue s)))
              (λ room. lend-IsValid s.world proper.sound (ground arith) new (ground arith)) (λ _. v)

    -- For a valid limiter, a borrower that no task waits for, and a task that is in no lot and not
    -- scheduled, `acquire_on_behalf_of` raises Cancelled where a cancellation is due, refuses a
    -- second token, lends a free one where nobody waits, and else parks the task at the end of the
    -- queue with the borrower on record.
    pub acquire-outcome :
        (pending : Bool) (t : Task)
        → IsFree s.world t
        → acquire_on_behalf_of pending t b s ≡ (
            if pending
            then (raise cancelled, s)
            else if mem b s.borrowers
            then (raise runtime_error, s)
            else if below (length s.borrowers) s.total_tokens && not (nonempty (queue s))
            then (
              ok tt,
              record s {
                borrowers = insert_last b s.borrowers;
                world = schedule t (ok none) s.world;
              },
            )
            else (
              ok tt,
              record s {
                pending_borrowers = update s.pending_borrowers t (some b);
                world = (park s.lot t s.world).1;
              },
            ))
    unfolding acquire_on_behalf_of checkpoint_if_cancelled park
    acquire-outcome pending t f = ground (arith, cancel_shielded_checkpoint-eq s.world t f)

    pub acquire-IsValid :
        (pending : Bool) (t : Task)
        → IsFree s.world t
        → IsValid m (acquire_on_behalf_of pending t b s).1
    acquire-IsValid pending t f = rw (acquire-outcome pending t f) (
        if_elim (Ends m) pending (λ _. v)
          λ _.
            if_elim (Ends m) (mem b s.borrowers) (λ _. v)
              λ new.
                if_elim (Ends m)
                  (below (length s.borrowers) s.total_tokens && not (nonempty (queue s)))
                  (λ room.
                    lend-IsValid (schedule t (ok none) s.world)
                      (schedule-IsSound proper.sound t (ok none) f) (ground arith) new
                      (ground arith))
                  (enqueue-IsValid t f new))

  module _ (t : Task) (h : mem t (queue s) ≡ true) where
    queue_cut : queue (cancel t s).1 ≡ remove t (queue s)
    unfolding cancel
    queue_cut = rw (attempt_abort-eq proper.sound s.lot t h) (ground arith)

    pub cancel-IsValid : IsValid m (cancel t s).1
    unfolding cancel mem
    cancel-IsValid = record {
      proper = record {
        sound = attempt_abort-IsSound proper.sound s.lot t h;
        claimed = λ u k. proper.claimed u (
            ground
              (arith, rw queue_cut at k, mem-remove u t (queue s) (proper.sound.distinct s.lot)));
        distinct =
            rw queue_cut
              (Distinct-append-remove s.pending_borrowers t (queue s) s.borrowers proper.distinct);
      };
      fair = elim fair [ inl e ↦ ground (arith, ap (mem t) e) | inr g ↦ inr g ];
      within = within;
      capped = capped;
    }

  -- The cleanup of a task whose wait was cancelled.
  pub acquire_cancelled-IsValid :
      (t : Task) → mem t (queue s) ≡ false → IsValid m (acquire_cancelled t s).1
  unfolding acquire_cancelled
  acquire_cancelled-IsValid t h = elim (Option-cases (s.pending_borrowers t)) [
    | inl e ↦ rw (e, acquire_cancelled) v
    | inr (b, e) ↦
        rw (e, acquire_cancelled)
          (record {
            proper = record {
              sound = proper.sound;
              claimed = λ u k. ground (arith, proper.claimed u k);
              distinct = rw (claims-update s.pending_borrowers t none (queue s) h) proper.distinct;
            };
            fair = fair;
            within = within;
            capped = capped;
          })
  ]

  module _ (n : ℕ) (h : n ≤ m) where
    abbrev resized : CapacityLimiter
    resized = record s { total_tokens = finite n }

    resized-IsProper : IsProper resized
    resized-IsProper = record {
      sound = proper.sound;
      claimed = proper.claimed;
      distinct = proper.distinct;
    }

    resized-capped : below m (finite n) ≡ false
    resized-capped = ground arith

    pub set_total_tokens-IsValid : IsValid m (set_total_tokens (some (pos n)) s).1
    unfolding set_total_tokens
    set_total_tokens-IsValid =
        if_elim (λ (e : Exec CapacityLimiter (Unit {0})). IsValid m (e s).1) (ltb n 1) (λ _. v)
          λ _. rw (wake_waiters-lem resized resized-IsProper) (record {
            proper = after_wakeup-IsProper resized resized-IsProper;
            fair = after_wakeup-IsFair resized resized-IsProper;
            within = length-after_wakeup resized resized-IsProper m within resized-capped;
            capped = rw (total_tokens-after_wakeup resized resized-IsProper) resized-capped;
          })
