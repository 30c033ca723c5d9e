-- ===== src/CancelScope/Delivery.antt =====
-- What the cancel scopes of trio/_core/_run.py ask of the abort functions of tasks that wait, and the
-- delivery to all tasks of a status.
use trio.Prelude.{ℕ, ◌≡◌, refl, ap, true, false, some, List, [], ◌∷◌, Bool-cases, inl, inr}
use trio.Exec.{Result, ok, Exec}
use trio.Run.{Abort, Task, World, attempt_abort}
use trio.CancelScope.{Tree, Flags, attempt_delivery, deliver_all}

-- No task gets an abort function.
abbrev pub Calms : World → World → Type 0
Calms w v = (u : Task) → w.abortable u ≡ false → v.abortable u ≡ false

-- The outcome of one abort.
pub record IsAborted (Good : World → Type 0) (t : Task) (w : World) (r : Result (Unit {0}) × World)
    : Type 0 where
  pub result : r.0 ≡ ok tt
  pub good : Good r.1
  pub calms : Calms w r.1
  pub done : r.1.abortable t ≡ false

-- The abort functions do their work in every world that is `Good`.
pub record IsDelivery (abort_fn : Task → Exec World Abort) (Good : World → Type 0) : Type 0 where
  pub aborted :
      (t : Task) (w : World)
      → Good w
      → w.abortable t ≡ true
      → IsAborted Good t w (attempt_abort abort_fn t w)

-- Each task of a status knows the status.
abbrev pub AllAt : Tree → ℕ → List Task → Type 0
AllAt tree i [] = Unit {0}
AllAt tree i (t ∷ ts) = (tree.cancel_status t ≡ some i) × AllAt tree i ts

-- None of the tasks waits with an abort function.
abbrev pub AllQuiet : World → List Task → Type 0
AllQuiet w [] = Unit {0}
AllQuiet w (t ∷ ts) = (w.abortable t ≡ false) × AllQuiet w ts

pub AllQuiet-Calms : (ts : List Task) (w v : World) → Calms w v → AllQuiet w ts → AllQuiet v ts
AllQuiet-Calms [] w v c q = tt
AllQuiet-Calms (t ∷ ts) w v c (q, qs) = (c t q, AllQuiet-Calms ts w v c qs)

pub record IsDelivered (Good : World → Type 0) (f : Flags) (ts : List Task)
    (r : Result (Unit {0}) × Flags) : Type 0 where
  pub world : World
  pub result : r ≡ (ok tt, record f { world = world })
  pub good : Good world
  pub calms : Calms f.world world
  pub quiet : AllQuiet world ts

module _ (abort_fn : Task → Exec World Abort) (Good : World → Type 0) (d : IsDelivery abort_fn Good)
    (tree : Tree) where
  attempt_delivery-eq :
      (i : ℕ) (t : Task) (f : Flags)
      → f.effectively_cancelled i ≡ true
      → tree.cancel_status t ≡ some i
      → Good f.world
      → (v : World) × (attempt_delivery abort_fn tree t f ≡ (ok tt, record f { world = v }))
        × Good v
        × Calms f.world v
        × (v.abortable t ≡ false)
  unfolding attempt_delivery
  attempt_delivery-eq i t f e c g = elim (Bool-cases (f.world.abortable t)) [
    | inl a ↦
        (let r = d.aborted t f.world g a in
          (
            (attempt_abort abort_fn t f.world).1,
            rw a (
                rw c (
                  rw e (
                    ap (λ o. (o, record f { world = (attempt_abort abort_fn t f.world).1 }))
                      r.result))),
            r.good,
            r.calms,
            r.done,
          ))
    | inr a ↦ (f.world, rw a refl, g, (λ u h. h), a)
  ]

  pub deliver_all-IsDelivered :
      (i : ℕ) (ts : List Task) (f : Flags)
      → f.effectively_cancelled i ≡ true
      → AllAt tree i ts
      → Good f.world
      → IsDelivered Good f ts (deliver_all abort_fn tree ts f)
  unfolding deliver_all
  deliver_all-IsDelivered i [] f e a g = record {
    world = f.world;
    result = refl;
    good = g;
    calms = λ u h. h;
    quiet = tt;
  }
  deliver_all-IsDelivered i (t ∷ ts) f e (a, rest) g =
      let (v, first, good, calms, done) = attempt_delivery-eq i t f e a g in
      let r = deliver_all-IsDelivered i ts (record f { world = v }) e rest good in
      record {
        world = r.world;
        result = rw first r.result;
        good = r.good;
        calms = λ u h. r.calms u (calms u h);
        quiet = (r.calms t done, r.quiet);
      }
