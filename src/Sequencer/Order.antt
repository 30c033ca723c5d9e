-- ===== src/Sequencer/Order.antt =====
-- The order in which the blocks of a sequencer of trio/testing/_sequencer.py run.
use trio.Prelude.{
  ℕ, suc, ◌+◌, ◌≡◌, ◌⊎◌, inl, inr, refl, ◌∙◌, Bool, true, false, List, [], ◌∷◌, ◌==◌, mem,
  mem-insert_last, Bool-cases, arith,
}
use trio.Exec.{Result, ok, raise, continue_keeps}
use trio.Run.{Task}
use trio.Event.{Event, set, wait, cancel, abort_wait}
use trio.Sequencer.{Sequencer, event, on_event, set_all, finish}

-- What becomes of the block at a position.
pub data Phase : Type 0 where
  unclaimed : Phase
  waits : Task → Phase
  is_cancelled : Phase
  runs : Phase
  ended : Phase
  failed : Phase

abbrev pub is_claimed : Phase → Bool
is_claimed unclaimed = false
is_claimed _ = true

abbrev pub has_begun : Phase → Bool
has_begun runs = true
has_begun ended = true
has_begun _ = false

-- What becomes of a block by a call that returns, or raises.
abbrev pub after_call : Phase → Phase → Result (Unit {0}) → Phase
after_call f g (ok x) = f
after_call f g (raise e) = g

pub record Sequence : Type 0 where
  pub sequencer : Sequencer
  pub phase : ℕ → Phase

-- The block before this one has ended.
abbrev pub IsNext : (ℕ → Phase) → ℕ → Type 0
IsNext phase p = (q : ℕ) × (p ≡ suc q) × (phase q ≡ ended)

-- Flags are set by the blocks before, unless the sequence is broken; a block that has begun is the
-- first one or has an ended one before it; who waits is in the event or may go on.
pub record IsOrdered (y : Sequence) : Type 0 where
  pub flagged :
      (p : ℕ) → y.sequencer.flags p ≡ true → (y.sequencer.broken ≡ true) ⊎ IsNext y.phase p
  pub begun : (p : ℕ) → has_begun (y.phase p) ≡ true → (p ≡ 0) ⊎ IsNext y.phase p
  pub waiting :
      (p : ℕ) (t : Task)
      → y.phase p ≡ waits t
      → (y.sequencer.flags p ≡ true) ⊎ (mem t (y.sequencer.waiting p) ≡ true)
  pub claimed : (p : ℕ) → mem p y.sequencer.claimed ≡ is_claimed (y.phase p)

-- An event keeps its flag, and loses its tasks only when it is set.
pub record IsLater (s u : Sequencer) : Type 0 where
  pub flags : (q : ℕ) → s.flags q ≡ true → u.flags q ≡ true
  pub tasks :
      (q : ℕ) (t : Task)
      → mem t (s.waiting q) ≡ true
      → (u.flags q ≡ true) ⊎ (mem t (u.waiting q) ≡ true)
  pub claimed : u.claimed ≡ s.claimed
  pub broken : u.broken ≡ s.broken

IsLater-refl : (s : Sequencer) → IsLater s s
IsLater-refl s = record { flags = λ q h. h; tasks = λ q t m. inr m; claimed = refl; broken = refl }

IsLater-trans : {s u v : Sequencer} → IsLater s u → IsLater u v → IsLater s v
IsLater-trans a b = record {
  flags = λ q h. b.flags q (a.flags q h);
  tasks = λ q t m. elim (a.tasks q t m) [ inl h ↦ inl (b.flags q h) | inr k ↦ b.tasks q t k ];
  claimed = b.claimed ∙ a.claimed;
  broken = b.broken ∙ a.broken;
}

set-flag : (e : Event) → (set e).1.flag ≡ true
unfolding set
set-flag e = ground arith

pub set-IsLater : (p : ℕ) (s : Sequencer) → IsLater s (on_event p set s).1
set-IsLater p s = record {
  flags =
      λ q h. elim (Bool-cases (p == q)) [ inl e ↦ rw e (set-flag (event p s)) | inr e ↦ rw e h ];
  tasks = λ q t m. elim (Bool-cases (p == q)) [
    | inl e ↦ inl (rw e (set-flag (event p s)))
    | inr e ↦ inr (rw e m)
  ];
  claimed = refl;
  broken = refl;
}

pub set_all-IsLater : (ps : List ℕ) (s : Sequencer) → IsLater s (set_all ps s).1
unfolding set_all
set_all-IsLater [] s = IsLater-refl s
set_all-IsLater (p ∷ ps) s =
    continue_keeps (IsLater s) (on_event p set s) (λ x. set_all ps) (set-IsLater p s)
      (λ a u h. IsLater-trans h (set_all-IsLater ps u))

-- Only the event of the next position is set at the end of a block.
pub finish-flags :
    (p q : ℕ) (s : Sequencer) → (finish p s).1.flags q ≡ true → (s.flags q ≡ true) ⊎ (q ≡ suc p)
unfolding finish
finish-flags p q s h = elim (Bool-cases (p + 1 == q)) [
  | inl e ↦ inr ground (arith, e)
  | inr e ↦ inl (rw e at h)
]

-- What does not set a flag, and takes at most the task `t` out of the event at `p`.
pub wait-tasks : (t u : Task) (e : Event) → mem u e.tasks ≡ true → mem u (wait t e).1.tasks ≡ true
unfolding wait
wait-tasks t u e m = ground (arith, m, mem-insert_last u t e.tasks)

pub wait-flag : (t : Task) (e : Event) → (wait t e).1.flag ≡ e.flag
unfolding wait
wait-flag t e = ground arith

pub wait-enters : (t : Task) (e : Event) → (e.flag ≡ true) ⊎ (mem t (wait t e).1.tasks ≡ true)
unfolding wait
wait-enters t e = elim (Bool-cases e.flag) [
  | inl y ↦ inl y
  | inr n ↦ inr (rw n (ground (arith, mem-insert_last t t e.tasks)))
]

pub cancel-flag : (t : Task) (e : Event) → (cancel t e).1.flag ≡ e.flag
unfolding cancel abort_wait
cancel-flag t e = ground arith
