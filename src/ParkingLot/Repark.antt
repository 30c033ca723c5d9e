-- ===== src/ParkingLot/Repark.antt =====
-- `repark` of trio/_core/_parking_lot.py: its loop pops from one lot and fills the other, which may
-- be the same lot.
use trio.Prelude.{
  ℕ, zero, suc, min, ◌≤◌, ◌≡◌, ◌≢◌, ◌∙◌, refl, sym, ap, true, false, List, [], ◌∷◌, ◌++◌,
  append_assoc, append-nil, arith, ◌==◌, update, mem, length, take, drop, List-cases, inl, inr,
  insert_last_new, length-append, mem-insert_last, Bool-cases, take-min-length, drop-min-length,
}
use trio.Exec.{ok}
use trio.Run.{Task, World}
use trio.ParkingLot.{set_lot, enter, pop_first, move_several, repark}
use trio.ParkingLot.Invariant.{IsSound, pop-IsSound, pop-IsFree, enter-IsSound, mem_head}

-- What one round leaves, where `t` is the oldest task and `rest` are the others.
abbrev after_round : World → ℕ → ℕ → Task → List Task → World
after_round w lot new_lot t rest = enter new_lot t (set_lot lot rest w)

-- `n` tasks have gone from the front of one lot to the end of another.
pub record Moved (w v : World) (lot new_lot n : ℕ) : Type 0 where
  pub target : v.lots new_lot ≡ w.lots new_lot ++ take n (w.lots lot)
  pub source : v.lots lot ≡ drop n (w.lots lot)
  pub others : (k : ℕ) → k ≢ lot → k ≢ new_lot → v.lots k ≡ w.lots k
  pub runq : v.runq ≡ w.runq
  pub scheduled : v.scheduled ≡ w.scheduled

module _ {w : World} (s : IsSound w) (lot new_lot : ℕ) (t : Task) (rest : List Task)
    (e : w.lots lot ≡ t ∷ rest) where
  round-IsSound : IsSound (after_round w lot new_lot t rest)
  round-IsSound =
      enter-IsSound (pop-IsSound s lot t rest e) new_lot t (pop-IsFree s lot t rest e)
        (s.abortable lot t (mem_head s lot t rest e))

  absent : (k : ℕ) → mem t (update w.lots lot rest k) ≡ false
  absent = (pop-IsFree s lot t rest e).apart

  -- Also where the two lots are one.
  length-round : length rest ≤ length ((after_round w lot new_lot t rest).lots lot)
  length-round = ground (arith, absent lot, insert_last_new t rest, length-append rest (t ∷ []))

  Moved-round :
      (n : ℕ) (v : World)
      → lot ≢ new_lot
      → Moved (after_round w lot new_lot t rest) v lot new_lot n
      → Moved w v lot new_lot (suc n)
  Moved-round n v ne m = record {
    target = ground (
      arith,
      e,
      absent new_lot,
      m.target,
      insert_last_new t (w.lots new_lot),
      append_assoc (w.lots new_lot) (t ∷ []) (take n rest),
    );
    source = ground (arith, e, m.source);
    others = λ k h g. ground (arith, m.others k h g);
    runq = m.runq;
    scheduled = m.scheduled;
  }

move_several-IsSound :
    (n : ℕ) (w : World) (lot new_lot : ℕ)
    → IsSound w
    → n ≤ length (w.lots lot)
    → ((move_several lot new_lot n w).0 ≡ ok tt) × IsSound (move_several lot new_lot n w).1
unfolding move_several
move_several-IsSound zero w lot new_lot s h = (refl, s)
move_several-IsSound (suc n) w lot new_lot s h = elim (List-cases (w.lots lot)) [
  | inl e ↦ absurd (omega (arith, ap length e))
  | inr (t, rest, e) ↦
      rw (e, pop_first)
        (move_several-IsSound n (after_round w lot new_lot t rest) lot new_lot
          (round-IsSound s lot new_lot t rest e)
          (omega (arith, ap length e, length-round s lot new_lot t rest e)))
]

move_several-Moved :
    (n : ℕ) (w : World) (lot new_lot : ℕ)
    → IsSound w
    → lot ≢ new_lot
    → n ≤ length (w.lots lot)
    → Moved w (move_several lot new_lot n w).1 lot new_lot n
unfolding move_several
move_several-Moved zero w lot new_lot s ne h = record {
  target = sym (append-nil _);
  source = refl;
  others = λ k _ _. refl;
  runq = refl;
  scheduled = refl;
}
move_several-Moved (suc n) w lot new_lot s ne h = elim (List-cases (w.lots lot)) [
  | inl e ↦ absurd (omega (arith, ap length e))
  | inr (t, rest, e) ↦
      rw (e, pop_first)
        (Moved-round s lot new_lot t rest e n _ ne (
          move_several-Moved n (after_round w lot new_lot t rest) lot new_lot
            (round-IsSound s lot new_lot t rest e) ne
            (omega (arith, ap length e, length-round s lot new_lot t rest e))))
]

-- The task is parked in some lot.
abbrev pub IsParked : World → Task → Type 0
IsParked w u = (k : ℕ) × (mem u (w.lots k) ≡ true)

round-IsParked :
    (w : World) (lot new_lot : ℕ) (t : Task) (rest : List Task) (u : Task)
    → w.lots lot ≡ t ∷ rest
    → IsParked w u
    → IsParked (after_round w lot new_lot t rest) u
unfolding mem
round-IsParked w lot new_lot t rest u e (k, m) = elim (Bool-cases (t == u)) [
  | inl moved ↦ (new_lot, ground (arith, mem-insert_last u t (update w.lots lot rest new_lot)))
  | inr other ↦ (k, ground (arith, mem-insert_last u t (update w.lots lot rest new_lot)))
]

move_several-IsParked :
    (n : ℕ) (w : World) (lot new_lot : ℕ) (u : Task)
    → IsParked w u
    → IsParked (move_several lot new_lot n w).1 u
unfolding move_several
move_several-IsParked zero w lot new_lot u m = m
move_several-IsParked (suc n) w lot new_lot u m = elim (List-cases (w.lots lot)) [
  | inl e ↦ rw (e, pop_first) m
  | inr (t, rest, e) ↦
      rw (e, pop_first)
        (move_several-IsParked n (after_round w lot new_lot t rest) lot new_lot u
          (round-IsParked w lot new_lot t rest u e m))
]

-- A parked task stays parked.
pub repark-IsParked :
    (w : World) (lot new_lot count : ℕ) (u : Task)
    → IsParked w u
    → IsParked (repark lot new_lot count w).1 u
unfolding repark
repark-IsParked w lot new_lot count u =
    move_several-IsParked (min count (length (w.lots lot))) w lot new_lot u

-- `repark` neither fails nor breaks the bookkeeping, also from a lot to itself.
pub repark-IsSound :
    (w : World) (lot new_lot count : ℕ)
    → IsSound w
    → ((repark lot new_lot count w).0 ≡ ok tt) × IsSound (repark lot new_lot count w).1
unfolding repark
repark-IsSound w lot new_lot count s =
    move_several-IsSound (min count (length (w.lots lot))) w lot new_lot s (omega arith)

-- In a sound world `repark` from one lot to another moves the oldest `count` tasks, or all where
-- there are fewer, to the end and in their order; it wakes nobody and touches no third lot.
pub repark-Moved :
    (w : World) (lot new_lot count : ℕ)
    → IsSound w
    → lot ≢ new_lot
    → Moved w (repark lot new_lot count w).1 lot new_lot count
unfolding repark
repark-Moved w lot new_lot count s ne = record {
  target = m.target ∙ ap (◌++◌ (w.lots new_lot)) (take-min-length count (w.lots lot));
  source = m.source ∙ drop-min-length count (w.lots lot);
  others = m.others;
  runq = m.runq;
  scheduled = m.scheduled;
}
  where
    m : Moved w (repark lot new_lot count w).1 lot new_lot (min count (length (w.lots lot)))
    m = move_several-Moved (min count (length (w.lots lot))) w lot new_lot s ne (omega arith)
