-- ===== src/CancelScope/Exit.antt =====
-- trio/_core/_run.py: the rest of `CancelStatus`, which `CancelScope` uses when a scope is left: moving
-- a status to another parent, closing it, and the questions asked of the statuses above it. Walks up
-- and down the tree are on fuel; the number of statuses is enough.
use trio.Prelude.{
  ℕ, zero, suc, Bool, true, false, ◌||◌, Option, none, some, List, [], ◌∷◌, if◌then◌else◌, ◌==◌,
  leb, nonempty, update, remove, insert_last,
}
use trio.Exec.{out_of_fuel, Result, ok, raise, Exec, pure, modify, zoom, ◌>>◌}
use trio.Run.{Abort, Task, World}
use trio.CancelScope.{Tree, Scopes, deliver_all, set_effective, recalculate}

-- `encloses(other)`
unfoldable pub encloses : ℕ → Tree → ℕ → Option ℕ → Result Bool
encloses fuel tree i none = ok false
encloses zero tree i (some j) = raise out_of_fuel
encloses (suc fuel) tree i (some j) =
    let above = encloses fuel tree i (tree.parent j) in if j == i then ok true else above

-- A float, as far as deadlines need it.
pub data Time : Type 0 where
  minus_inf inf : Time
  at : ℕ → Time

abbrev pub earlier : Time → Time → Time
earlier minus_inf t = minus_inf
earlier inf t = t
earlier (at a) minus_inf = minus_inf
earlier (at a) inf = at a
earlier (at a) (at b) = if leb a b then at a else at b

abbrev pub own_deadline : Option ℕ → Time
own_deadline none = inf
own_deadline (some t) = at t

abbrev pub map_earlier : Time → Result Time → Result Time
map_earlier t (ok u) = ok (earlier t u)
map_earlier t (raise e) = raise e

unfoldable pub effective_deadline : ℕ → Scopes → ℕ → Result Time
effective_deadline zero s i = raise out_of_fuel
effective_deadline (suc fuel) s i =
    if s.flags.effectively_cancelled i then ok minus_inf else elim (s.tree.parent i) [
      | none ↦ ok (own_deadline (s.deadline i))
      | some p ↦
          (let above = effective_deadline fuel s p in
            if s.tree.shield i
            then ok (own_deadline (s.deadline i))
            else map_earlier (own_deadline (s.deadline i)) above)
    ]

module _ (abort_fn : Task → Exec World Abort) where
  abbrev pub leave_parent : ℕ → Option ℕ → Tree → Tree
  leave_parent i none tree = tree
  leave_parent i (some p) tree = record tree {
    children = update tree.children p (remove i (tree.children p));
  }

  -- The end of the setter of `parent`.
  abbrev pub join_parent : ℕ → ℕ → Option ℕ → Exec Scopes Unit
  join_parent rounds i none = pure tt
  join_parent rounds i (some p) = do
    modify (λ s. record s {
      tree = record s.tree {
        children = update s.tree.children p (insert_last i (s.tree.children p));
      };
    })
    recalculate abort_fn rounds i

  unfoldable pub set_parent : ℕ → ℕ → Option ℕ → Exec Scopes Unit
  unfolding recalculate
  set_parent rounds i parent = do
    modify (λ s. record s { tree = leave_parent i (s.tree.parent i) s.tree })
    modify (λ s. record s { tree = record s.tree { parent = update s.tree.parent i parent } })
    join_parent rounds i parent

  -- The loop over the children in `close`.
  unfoldable pub recalculate_all : ℕ → List ℕ → Exec Scopes Unit
  unfolding recalculate
  recalculate_all rounds [] = pure tt
  recalculate_all rounds (i ∷ is) = do recalculate abort_fn rounds i; recalculate_all rounds is

  -- A recursion of `_mark_abandoned`, with the statuses still to be marked.
  unfoldable pub mark_abandoned : ℕ → List ℕ → Exec Scopes Unit
  mark_abandoned fuel [] s = (ok tt, s)
  mark_abandoned zero (i ∷ todo) s = (raise out_of_fuel, s)
  mark_abandoned (suc fuel) (i ∷ todo) s =
      (do
        modify (λ u. record u { abandoned_by_misnesting = update u.abandoned_by_misnesting i true })
        mark_abandoned fuel (s.tree.children i)
        mark_abandoned fuel todo)
        s

  unfoldable pub close : ℕ → ℕ → Exec Scopes Unit
  unfolding set_parent mark_abandoned recalculate_all
  close rounds i = do
    set_parent rounds i none
    (λ s.
        (if nonempty (s.tree.tasks i) || nonempty (s.tree.children i)
            then (do
              mark_abandoned rounds (i ∷ [])
              zoom (λ u. u.flags) (λ f u. record u { flags = f })
                  (do set_effective abort_fn i true; deliver_all abort_fn s.tree (s.tree.tasks i))
              recalculate_all rounds (s.tree.children i))
            else pure tt)
          s)
