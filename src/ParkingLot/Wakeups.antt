-- ===== src/ParkingLot/Wakeups.antt =====
-- What the loops of `unpark` and `repark` compute, for the parking lots of
-- trio/_core/_parking_lot.py.
use mathlib.Core.Path.{fun_ext}
use trio.Prelude.{
  ℕ, zero, suc, ◌≤◌, ◌≡◌, refl, sym, ap, min, ◌∙◌, false, none, List, [], ◌∷◌, ◌++◌, append_assoc,
  append-nil, arith, ◌||◌, if◌then◌else◌, update, length, take, drop, take-min-length,
  drop-min-length, mem, Distinct, ==_refl,
}
use trio.Exec.{ok}
use trio.Run.{Task, World, schedule}
use trio.ParkingLot.{set_lot, pop_first, pop_several, reschedule_all, unpark}

pub update-update {ℓ} :
    {A : Type ℓ} (f : ℕ → A) (k : ℕ) (a b : A) → update (update f k a) k b ≡ update f k b
update-update f k a b = fun_ext λ j. ground arith

pub update_self {ℓ} : {A : Type ℓ} (f : ℕ → A) (k : ℕ) → update f k (f k) ≡ f
update_self f k = fun_ext λ j. ground arith

-- The tasks of a list rescheduled one after the other, each with None.
unfoldable pub schedule_all : List Task → World → World
schedule_all [] w = w
schedule_all (t ∷ ts) w = schedule_all ts (schedule t (ok none) w)

-- None of the tasks is scheduled.
abbrev pub AllIdle : World → List Task → Type 0
AllIdle w [] = Unit {0}
AllIdle w (t ∷ ts) = (w.scheduled t ≡ false) × AllIdle w ts

AllIdle-schedule :
    (w : World) (t : Task) (ts : List Task)
    → mem t ts ≡ false
    → AllIdle w ts
    → AllIdle (schedule t (ok none) w) ts
unfolding mem
AllIdle-schedule w t [] h i = tt
AllIdle-schedule w t (s ∷ ts) h i = ground (arith, AllIdle-schedule w t ts)

pub reschedule_all_lem :
    (ts : List Task) (w : World)
    → Distinct ts
    → AllIdle w ts
    → reschedule_all ts w ≡ (ok tt, schedule_all ts w)
unfolding reschedule_all schedule_all
reschedule_all_lem [] w d i = refl
reschedule_all_lem (t ∷ ts) w (new, d) (idle, i) =
    rw (idle, reschedule_all)
      (reschedule_all_lem ts (schedule t (ok none) w) d (AllIdle-schedule w t ts new i))

pop_several_lem :
    (lot n : ℕ) (ts : List Task) (w : World)
    → w.lots lot ≡ ts
    → n ≤ length ts
    → pop_several lot n w ≡ (ok (take n ts), set_lot lot (drop n ts) w)
unfolding pop_several pop_first
pop_several_lem lot zero ts w e h =
    ap (λ f. (ok [], record w { lots = f }))
      (sym (ap (update w.lots lot) (sym e) ∙ update_self w.lots lot))
pop_several_lem lot (suc n) [] w e h = absurd (omega arith)
pop_several_lem lot (suc n) (t ∷ ts) w e h =
    rw (e, pop_first)
      (rw (pop_several_lem lot n ts (set_lot lot ts w) (rw (==_refl lot)) (omega arith)) (
        ap (λ f. (ok (t ∷ take n ts), record w { lots = f }))
          (update-update w.lots lot ts (drop n ts))))

-- `unpark` wakes the oldest `count` tasks, or all where there are fewer, and returns them.
pub unpark_lem :
    (lot count : ℕ) (w : World)
    → Distinct (take count (w.lots lot))
    → AllIdle w (take count (w.lots lot))
    → unpark lot count w ≡ (
      ok (take count (w.lots lot)),
      schedule_all (take count (w.lots lot)) (set_lot lot (drop count (w.lots lot)) w),
    )
unfolding unpark
unpark_lem lot count w d i =
    rw (pop_several_lem lot (min count (length ts)) ts w refl (omega arith)) (
      rw (take-min-length count ts, drop-min-length count ts)
        (rw (reschedule_all_lem (take count ts) (set_lot lot (drop count ts) w) d i)))
  where
    ts : List Task
    ts = w.lots lot

pub schedule_all-runq : (ts : List Task) (w : World) → (schedule_all ts w).runq ≡ w.runq ++ ts
unfolding schedule_all
schedule_all-runq [] w = sym (append-nil w.runq)
schedule_all-runq (t ∷ ts) w =
    schedule_all-runq ts (schedule t (ok none) w) ∙ append_assoc w.runq (t ∷ []) ts

pub schedule_all-lots : (ts : List Task) (w : World) → (schedule_all ts w).lots ≡ w.lots
unfolding schedule_all
schedule_all-lots [] w = refl
schedule_all-lots (t ∷ ts) w = schedule_all-lots ts (schedule t (ok none) w)

pub schedule_all-scheduled :
    (ts : List Task) (w : World) (u : Task)
    → (schedule_all ts w).scheduled u ≡ (mem u ts || w.scheduled u)
unfolding schedule_all mem
schedule_all-scheduled [] w u = refl
schedule_all-scheduled (t ∷ ts) w u =
    ground (arith, schedule_all-scheduled ts (schedule t (ok none) w) u)

pub schedule_all-next_send :
    (ts : List Task) (w : World) (u : Task)
    → (schedule_all ts w).next_send u ≡ (if mem u ts then ok none else w.next_send u)
unfolding schedule_all mem
schedule_all-next_send [] w u = refl
schedule_all-next_send (t ∷ ts) w u =
    ground (arith, schedule_all-next_send ts (schedule t (ok none) w) u)
