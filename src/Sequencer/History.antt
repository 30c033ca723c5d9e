-- ===== src/Sequencer/History.antt =====
-- Any history of a sequencer of trio/testing/_sequencer.py.
use mathlib.Core.Path.{subst}
use trio.Prelude.{
  ℕ, suc, ◌≡◌, ◌≢◌, inl, inr, refl, ap, ◌∙◌, Bool, true, false, not, [], if◌then◌else◌, ◌==◌, mem,
  Bool-cases, arith,
}
use trio.Exec.{Result, continue, throw, ok, raise, ensure-state, runtime_error}
use trio.Run.{Task, World}
use trio.Sequencer.{Sequencer, set_all, call, waited, wait_cancelled, finish, cancel_wait}
use trio.Sequencer.Order.{
  Phase, unclaimed, waits, is_cancelled, runs, ended, failed, is_claimed, has_begun, Sequence,
  IsNext, IsOrdered, after_call,
}
use trio.Sequencer.Moves.{
  moved, moved-IsOrdered, resumed-IsMoved, cancelled-IsMoved, failed-IsMoved, finished-IsMoved,
}
use trio.Sequencer.Entering.{was_refused, was_accepted, refused-eq, first-IsMoved, waiting-IsMoved}

-- What becomes of a block is what the call in question returns or raises. The task that calls runs, and
-- so is not scheduled.
pub data Step (y : Sequence) : Sequence → Type 0 where
  refuses :
      (p : ℕ) (t : Task)
      → y.sequencer.world.scheduled t ≡ false
      → (call p t y.sequencer).0 ≡ raise runtime_error
      → Step y (record y { sequencer = (call p t y.sequencer).1 })
  calls :
      (p : ℕ) (t : Task)
      → y.sequencer.world.scheduled t ≡ false
      → (call p t y.sequencer).0 ≡ ok tt
      → Step y (moved p (if p == 0 then runs else waits t) (call p t y.sequencer).1 y)
  resumes :
      (p : ℕ) (t : Task)
      → y.phase p ≡ waits t
      → mem t (y.sequencer.waiting p) ≡ false
      → Step y (moved p (after_call runs failed (waited y.sequencer).0) (waited y.sequencer).1 y)
  cancels :
      (p : ℕ) (t : Task)
      → y.phase p ≡ waits t
      → Step y (moved p is_cancelled (cancel_wait p t y.sequencer).1 y)
  fails :
      (p : ℕ)
      → y.phase p ≡ is_cancelled
      → Step y (
          moved p
            (after_call runs failed (wait_cancelled y.sequencer).0)
            (wait_cancelled y.sequencer).1
            y)
  finishes : (p : ℕ) → y.phase p ≡ runs → Step y (moved p ended (finish p y.sequencer).1 y)
  elsewhere : (w : World) → Step y (record y { sequencer = record y.sequencer { world = w } })

pub data History : Sequence → Type 0 where
  begin :
      (w : World)
      → History (record {
        sequencer = record {
          world = w;
          keys = [];
          waiting = λ p. [];
          flags = λ p. false;
          claimed = [];
          broken = false;
        };
        phase = λ p. unclaimed;
      })
  next : {y z : Sequence} → History y → Step y z → History z

same-IsOrdered : {y : Sequence} → IsOrdered y → IsOrdered (record y { sequencer = y.sequencer })
same-IsOrdered h = h

begun_claimed : (f : Phase) → has_begun f ≡ true → is_claimed f ≡ true
begun_claimed runs k = refl
begun_claimed ended k = refl
begun_claimed unclaimed k = cc
begun_claimed (waits t) k = cc
begun_claimed is_cancelled k = cc
begun_claimed failed k = cc

resumed-claimed : (b : Bool) → is_claimed (if b then failed else runs) ≡ true
resumed-claimed true = refl
resumed-claimed false = refl

resumed-begun : (b : Bool) → has_begun (if b then failed else runs) ≡ true → b ≡ false
resumed-begun true k = cc
resumed-begun false k = refl

resumed-waits : (b : Bool) (t : Task) → (if b then failed else runs) ≢ waits t
resumed-waits true t k = cc
resumed-waits false t k = cc

after_waited :
    (s : Sequencer) → after_call runs failed (waited s).0 ≡ (if s.broken then failed else runs)
unfolding waited
after_waited s = elim (Bool-cases s.broken) [ inl b ↦ rw b | inr b ↦ rw b ]

after_throw :
    (r : Result (Unit {0}) × Sequencer)
    → after_call runs failed (continue r (λ (x : Unit). throw {A = Unit} runtime_error)).0 ≡ failed
after_throw (ok x, s) = refl
after_throw (raise e, s) = refl

after_cancelled : (s : Sequencer) → after_call runs failed (wait_cancelled s).0 ≡ failed
unfolding wait_cancelled
after_cancelled s = after_throw (set_all s.keys (record s { broken = true }))

Step-IsOrdered : {y z : Sequence} → Step y z → IsOrdered y → IsOrdered z
unfolding waited
Step-IsOrdered {y} (refuses p t free k) h =
    rw (refused-eq h p t (was_refused h p t free k)) (same-IsOrdered h)
Step-IsOrdered {y} (calls p t free k) h =
    let r = was_accepted h p t k in
    elim (Bool-cases (p == 0)) [
      | inl z ↦ rw z (moved-IsOrdered p runs (call p t y.sequencer).1 h (first-IsMoved h p t r z))
      | inr z ↦
          rw z (moved-IsOrdered p (waits t) (call p t y.sequencer).1 h (waiting-IsMoved h p t r z))
    ]
Step-IsOrdered {y} (resumes p t w gone) h =
    rw (after_waited y.sequencer, ensure-state runtime_error (not y.sequencer.broken) y.sequencer)
      (moved-IsOrdered p (if y.sequencer.broken then failed else runs) y.sequencer h (
        resumed-IsMoved h p t w _ (resumed-claimed y.sequencer.broken)
          (resumed-begun y.sequencer.broken) (resumed-waits y.sequencer.broken) gone))
Step-IsOrdered {y} (cancels p t w) h =
    moved-IsOrdered p is_cancelled (cancel_wait p t y.sequencer).1 h (cancelled-IsMoved h p t w)
Step-IsOrdered {y} (fails p w) h =
    rw (after_cancelled y.sequencer)
      (moved-IsOrdered p failed (wait_cancelled y.sequencer).1 h (failed-IsMoved h p w))
Step-IsOrdered {y} (finishes p w) h =
    moved-IsOrdered p ended (finish p y.sequencer).1 h (finished-IsMoved h p w)
Step-IsOrdered {y} (elsewhere w) h = record {
  flagged = h.flagged;
  begun = h.begun;
  waiting = h.waiting;
  claimed = h.claimed;
}

History-IsOrdered : {y : Sequence} → History y → IsOrdered y
unfolding mem
History-IsOrdered (begin w) = record {
  flagged = λ p k. cc;
  begun = λ p k. cc;
  waiting = λ p t k. cc;
  claimed = λ p. refl;
}
History-IsOrdered (next h x) = Step-IsOrdered x (History-IsOrdered h)

has_ended : {phase : ℕ → Phase} {p : ℕ} → IsNext phase (suc p) → phase p ≡ ended
has_ended {phase} {p} (q, e, k) = ap phase (predecessor e) ∙ k
  where
    predecessor : {a b : ℕ} → suc a ≡ suc b → a ≡ b
    predecessor e = omega arith

-- After any calls, cancellations and wakeups, where a block is entered if the wait for it returns: where
-- the block of a position runs or has ended, the block of the position before it, if there is one, has
-- ended, and the position is claimed, so that a further call of it raises.
pub History-in_sequence :
    {y : Sequence}
    → History y
    → (p : ℕ) → has_begun (y.phase p) ≡ true
    → ((q : ℕ) → p ≡ suc q → y.phase q ≡ ended)
      × ((t : Task) → (call p t y.sequencer).0 ≡ raise runtime_error)
unfolding call
History-in_sequence {y} h p k =
    let o = History-IsOrdered h in
    (
      λ q e. elim (o.begun p k) [
        | inl z ↦ absurd (omega (arith, z, e))
        | inr n ↦ has_ended (subst (IsNext y.phase) e n)
      ],
      λ t. rw (o.claimed p ∙ begun_claimed (y.phase p) k),
    )
