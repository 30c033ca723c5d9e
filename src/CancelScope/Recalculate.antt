-- ===== src/CancelScope/Recalculate.antt =====
-- `CancelStatus.recalculate` of trio/_core/_run.py over a whole tree of statuses.
use trio.Prelude.{
  ℕ, zero, suc, ◌+◌, ◌≤◌, ◌≡◌, refl, sym, ap, ◌∙◌, Bool, true, false, not, ◌&&◌, ◌||◌, Option, some,
  List, [], ◌++◌, if◌then◌else◌, mem, mem-append, update, ==_iff, arith, Bool-cases, inl, inr,
}
use trio.Exec.{ok, Exec, pure}
use trio.Run.{Abort, Task, World}
use trio.CancelScope.{Tree, Flags, parent_is_cancelled, bool_eq, deliver_all, recalculate_loop}
use trio.CancelScope.Delivery.{Calms, IsDelivery, AllQuiet, AllQuiet-Calms, deliver_all-IsDelivered}
use trio.CancelScope.Forest.{
  Forest, roots, ids, size, Fits, AllApart, IsOutside, AllSettled, InnerSettled, AllServed, Agree,
  Keeps, AllSettled-InnerSettled, bool_eq_sound, parent_same, IsOutside-first, IsOutside-rest,
  empty, node, AllSettled-Agree, InnerSettled-Agree, AllServed-Agree,
}

module _ (abort_fn : Task → Exec World Abort) (Good : World → Type 0) (d : IsDelivery abort_fn Good)
    (tree : Tree) where
  -- What the loop finds at the statuses of the forest that it comes to.
  pub record IsReady (p : Option ℕ) (ts : Forest) (f : Flags) : Type 0 where
    pub fits : Fits tree ts p
    pub apart : AllApart ts
    pub outside : IsOutside p (ids ts)
    pub inner : InnerSettled tree f.effectively_cancelled ts
    pub served : AllServed tree f.effectively_cancelled f.world ts
    pub good : Good f.world

  -- The loop has done its work for the forest, and goes on with the rest of `todo`.
  pub record IsDone (p : Option ℕ) (ts : Forest) (fuel : ℕ) (todo : List ℕ) (f : Flags)
      : Type 0 where
    pub after : Flags
    pub rounds : ℕ
    pub result :
        recalculate_loop abort_fn tree fuel (roots ts ++ todo) f
        ≡ recalculate_loop abort_fn tree rounds todo after
    pub enough : fuel ≤ rounds + size ts
    pub settled :
        AllSettled tree after.effectively_cancelled ts
          (parent_is_cancelled f.effectively_cancelled p)
    pub served : AllServed tree after.effectively_cancelled after.world ts
    pub keeps : Keeps f.effectively_cancelled after.effectively_cancelled (ids ts)
    pub good : Good after.world
    pub calms : Calms f.world after.world

  module _ (i : ℕ) (kids : Forest) (p : Option ℕ) (f : Flags)
      (r : IsReady p (node i kids empty) f) where
    new_state : Bool
    new_state =
        tree.cancel_called i
        || (not (tree.shield i) && parent_is_cancelled f.effectively_cancelled p)

    same-IsDone :
        (fuel : ℕ) (todo : List ℕ)
        → bool_eq new_state (f.effectively_cancelled i) ≡ true
        → IsDone p (node i kids empty) (suc fuel) todo f
    unfolding new_state recalculate_loop
    same-IsDone fuel todo same = record {
      after = f;
      rounds = fuel;
      result = rw r.fits.1 (rw same refl);
      enough = omega arith;
      settled = (bool_eq_sound new_state (f.effectively_cancelled i) same, r.inner.0, tt);
      served = r.served;
      keeps = λ j h. refl;
      good = r.good;
      calms = λ u h. h;
    }

    -- After the flag is written and the tasks have had their delivery.
    abbrev flipped : World → Flags
    flipped w = record f {
      effectively_cancelled = update f.effectively_cancelled i new_state;
      world = w;
    }

    at_self : (w : World) → (flipped w).effectively_cancelled i ≡ new_state
    at_self w = ground arith

    i_apart : mem i (ids kids) ≡ false
    i_apart = ground (arith, r.apart.0, mem-append i (ids kids) [])

    -- The delivery, or nothing.
    record IsFlipped (w : World) : Type 0 where
      pub result :
          (if new_state then deliver_all abort_fn tree (tree.tasks i) else pure tt)
            (flipped f.world)
          ≡ (ok tt, flipped w)
      pub good : Good w
      pub calms : Calms f.world w
      pub quiet : new_state ≡ true → AllQuiet w (tree.tasks i)

    flip : (w : World) × IsFlipped w
    flip = elim (Bool-cases new_state) [
      | inl on ↦
          (let q =
              deliver_all-IsDelivered abort_fn Good d tree i (tree.tasks i) (flipped f.world)
                (at_self f.world ∙ on) r.fits.2 r.good in
            (
              q.world,
              record {
                result =
                    ap
                      (λ b.
                        (if b then deliver_all abort_fn tree (tree.tasks i) else pure tt)
                          (flipped f.world))
                      on
                    ∙ q.result;
                good = q.good;
                calms = q.calms;
                quiet = λ h. q.quiet;
              },
            ))
      | inr off ↦ (
        f.world,
        record {
          result =
              ap
                (λ b.
                  (if b then deliver_all abort_fn tree (tree.tasks i) else pure tt)
                    (flipped f.world))
                off;
          good = r.good;
          calms = λ u h. h;
          quiet = λ h. cc h;
        },
      )
    ]

    Agree-kids : (w : World) → Agree f.effectively_cancelled (flipped w).effectively_cancelled kids
    unfolding mem
    Agree-kids w j m = ground (arith, i_apart, ==_iff i j)

    kids-IsReady : (w : World) → IsFlipped w → IsReady (some i) kids (flipped w)
    kids-IsReady w q = record {
      fits = r.fits.3;
      apart = r.apart.2;
      outside = i_apart;
      inner = InnerSettled-Agree tree kids (Agree-kids w) (
          AllSettled-InnerSettled tree f.effectively_cancelled kids (f.effectively_cancelled i)
            r.inner.0);
      served = AllServed-Agree tree f.world w kids (Agree-kids w) q.calms r.served.1;
      good = q.good;
    }

    flip-IsDone :
        (fuel : ℕ) (todo : List ℕ) (w : World)
        → bool_eq new_state (f.effectively_cancelled i) ≡ false
        → IsFlipped w
        → IsDone (some i) kids fuel todo (flipped w)
        → IsDone p (node i kids empty) (suc fuel) todo f
    unfolding new_state recalculate_loop mem
    flip-IsDone fuel todo w differs q k = record {
      after = k.after;
      rounds = k.rounds;
      result = rw r.fits.1 (rw differs (rw q.result (rw r.fits.0 k.result)));
      enough = omega (arith, k.enough);
      settled = (k.keeps i i_apart ∙ at_self w, rw (k.keeps i i_apart) k.settled, tt);
      served = (
        (λ h.
            AllQuiet-Calms (tree.tasks i) w k.after.world k.calms
              (q.quiet (sym (at_self w) ∙ sym (k.keeps i i_apart) ∙ h))),
        k.served,
        tt,
      );
      keeps = λ j h. ground (arith, mem-append j (ids kids) [], k.keeps j);
      good = k.good;
      calms = λ u h. k.calms u (q.calms u h);
    }

  module _ (i : ℕ) (kids rest : Forest) (p : Option ℕ) (f : Flags)
      (r : IsReady p (node i kids rest) f) where
    first-IsReady : IsReady p (node i kids empty) f
    unfolding mem
    first-IsReady = record {
      fits = (r.fits.0, r.fits.1, r.fits.2, r.fits.3, tt);
      apart = (
        ground (arith, r.apart.0, mem-append i (ids kids) [], mem-append i (ids kids) (ids rest)),
        (λ j h. refl),
        r.apart.2,
        tt,
      );
      outside = IsOutside-first p i kids rest r.outside;
      inner = (r.inner.0, tt);
      served = (r.served.0, r.served.1, tt);
      good = r.good;
    }

    module _ (fuel : ℕ) (todo : List ℕ)
        (first : IsDone p (node i kids empty) fuel (roots rest ++ todo) f) where
      Agree-rest : Agree f.effectively_cancelled first.after.effectively_cancelled rest
      unfolding mem
      Agree-rest j m = first.keeps j (
          ground (
            arith,
            m,
            r.apart.0,
            r.apart.1 j,
            mem-append i (ids kids) (ids rest),
            mem-append j (ids kids) [],
            ==_iff i j,
          ))

      rest-IsReady : IsReady p rest first.after
      rest-IsReady = record {
        fits = r.fits.4;
        apart = r.apart.3;
        outside = IsOutside-rest p i kids rest r.outside;
        inner = InnerSettled-Agree tree rest Agree-rest r.inner.1;
        served =
            AllServed-Agree tree f.world first.after.world rest Agree-rest first.calms r.served.2;
        good = first.good;
      }

      module _ (later : IsDone p rest first.rounds todo first.after) where
        Agree-first :
            Agree first.after.effectively_cancelled later.after.effectively_cancelled
              (node i kids empty)
        unfolding mem
        Agree-first j m = later.keeps j (
            ground (
              arith,
              m,
              r.apart.0,
              r.apart.1 j,
              mem-append i (ids kids) (ids rest),
              mem-append j (ids kids) [],
              ==_iff i j,
            ))

        combine-IsDone : IsDone p (node i kids rest) fuel todo f
        unfolding mem
        combine-IsDone =
            let settled = AllSettled-Agree tree (node i kids empty) _ Agree-first first.settled in
            let served =
              AllServed-Agree tree first.after.world later.after.world (node i kids empty)
                Agree-first later.calms first.served in
            record {
              after = later.after;
              rounds = later.rounds;
              result = first.result ∙ later.result;
              enough = omega (arith, first.enough, later.enough);
              settled = (
                settled.0,
                settled.1,
                rw (sym (parent_same (ids (node i kids empty)) p first.keeps first-IsReady.outside))
                    later.settled,
              );
              served = (served.0, served.1, later.served);
              keeps = λ j h. ground (
                arith,
                mem-append j (ids kids) [],
                mem-append j (ids kids) (ids rest),
                later.keeps j,
                first.keeps j,
              );
              good = later.good;
              calms = λ u h. later.calms u (first.calms u h);
            }

  -- The loop does its work for any forest, in no more rounds than it has statuses.
  pub recalculate_loop-IsDone :
      (ts : Forest) (p : Option ℕ) (f : Flags) (fuel : ℕ) (todo : List ℕ)
      → IsReady p ts f
      → size ts ≤ fuel
      → IsDone p ts fuel todo f
  recalculate_loop-IsDone empty p f fuel todo r h = record {
    after = f;
    rounds = fuel;
    result = refl;
    enough = omega arith;
    settled = tt;
    served = tt;
    keeps = λ j m. refl;
    good = r.good;
    calms = λ u m. m;
  }
  recalculate_loop-IsDone (node i kids rest) p f zero todo r h = absurd (omega arith)
  recalculate_loop-IsDone (node i kids rest) p f (suc fuel) todo r h =
      let top = first-IsReady i kids rest p f r in
      let (w, q) = flip i kids p f top in
      let below =
        recalculate_loop-IsDone kids (some i) (flipped i kids p f top w) fuel (roots rest ++ todo)
          (kids-IsReady i kids p f top w q) (omega arith) in
      let first : IsDone p (node i kids empty) (suc fuel) (roots rest ++ todo) f =
        elim (Bool-cases (bool_eq (new_state i kids p f top) (f.effectively_cancelled i))) [
          | inl same ↦ same-IsDone i kids p f top fuel (roots rest ++ todo) same
          | inr differs ↦ flip-IsDone i kids p f top fuel (roots rest ++ todo) w differs q below
        ] in
      let later =
        recalculate_loop-IsDone rest p first.after first.rounds todo
          (rest-IsReady i kids rest p f r (suc fuel) todo first) (omega (arith, first.enough)) in
      combine-IsDone i kids rest p f r (suc fuel) todo first later
