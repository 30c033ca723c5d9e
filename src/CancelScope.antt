-- ===== src/CancelScope.antt =====
-- trio/_core/_run.py: `CancelStatus`, the tree along which cancellations spread, the operations of
-- `CancelScope` that change it, and the delivery to tasks. A scope is bound to one status at most, so
-- both have one number. The abort functions of the tasks that wait are the parameter `abort_fn`; as in
-- Run they reach the scheduler's state only.
pub mod Delivery
pub mod Forest
pub mod Recalculate
pub mod Settled
pub mod Cancel
pub mod Expiry
pub mod Exit
pub mod Parked
mod Examples
use trio.Prelude.{
  ℕ, zero, suc, ◌+◌, ◌-◌, Bool, true, false, not, ◌&&◌, ◌||◌, Option, none, some, List, [], ◌∷◌,
  ◌++◌, if◌then◌else◌, ◌==◌, leb, update, remove, insert_last,
}
use trio.Exec.{
  runtime_error, attribute_error, out_of_fuel, Result, ok, raise, Exec, pure, modify, ensure, zoom,
  ◌>>=◌, ◌>>◌,
}
use trio.Run.{Abort, Task, World, attempt_abort}

-- What `recalculate` reads only: `cancel_called` and `shield` of the scopes, `_parent`, `_children`
-- and `_tasks` of the statuses, and `_cancel_status` of the tasks. A Python set is a list.
pub record Tree : Type 0 where
  pub cancel_called : ℕ → Bool
  pub shield : ℕ → Bool
  pub parent : ℕ → Option ℕ
  pub children : ℕ → List ℕ
  pub tasks : ℕ → List Task
  pub cancel_status : Task → Option ℕ

-- What it writes.
pub record Flags : Type 0 where
  pub effectively_cancelled : ℕ → Bool
  pub world : World

-- `parent.effectively_cancelled`, where there is a parent
abbrev pub parent_is_cancelled : (ℕ → Bool) → Option ℕ → Bool
parent_is_cancelled effective none = false
parent_is_cancelled effective (some p) = effective p

abbrev pub parent_cancellation_is_visible_to_us : Tree → (ℕ → Bool) → ℕ → Bool
parent_cancellation_is_visible_to_us tree effective i =
    not (tree.shield i) && parent_is_cancelled effective (tree.parent i)

abbrev pub bool_eq : Bool → Bool → Bool
bool_eq true b = b
bool_eq false b = not b

-- The entries of the heap, and `_active`.
pub record Deadlines : Type 0 where
  pub heap : List (ℕ × ℕ)
  pub active : ℕ

-- All of it. `registered_deadline` and `deadline` are `none` for infinity; `is_bound` says that the
-- scope's `_cancel_status` is not None.
pub record Scopes : Type 0 where
  pub tree : Tree
  pub flags : Flags
  pub has_been_entered : ℕ → Bool
  pub is_bound : ℕ → Bool
  pub abandoned_by_misnesting : ℕ → Bool
  pub deadline : ℕ → Option ℕ
  pub registered_deadline : ℕ → Option ℕ
  pub deadlines : Deadlines

abbrev pub add_deadline : ℕ → ℕ → Deadlines → Deadlines
add_deadline time i d = record d { heap = d.heap ++ (time, i) ∷ []; active = d.active + 1 }

abbrev pub remove_deadline : Deadlines → Deadlines
remove_deadline d = record d { active = d.active - 1 }

abbrev pub same_time : Option ℕ → Option ℕ → Bool
same_time none none = true
same_time none (some b) = false
same_time (some a) none = false
same_time (some a) (some b) = a == b

abbrev pub move_deadline : Option ℕ → Option ℕ → ℕ → Deadlines → Deadlines
move_deadline none none i d = d
move_deadline (some a) none i d = remove_deadline d
move_deadline none (some b) i d = add_deadline b i d
move_deadline (some a) (some b) i d = add_deadline b i (remove_deadline d)

abbrev pub new_deadline : ℕ → Scopes → Option ℕ
new_deadline i s = if not (s.is_bound i) || s.tree.cancel_called i then none else s.deadline i

abbrev pub register_deadline : ℕ → Option ℕ → Scopes → Scopes
register_deadline i new s = record s {
  registered_deadline = update s.registered_deadline i new;
  deadlines = move_deadline (s.registered_deadline i) new i s.deadlines;
}

-- What stands in the `finally` of `_might_change_registered_deadline`.
unfoldable pub change_registered_deadline : ℕ → Exec Scopes Unit
change_registered_deadline i s =
    if same_time (s.registered_deadline i) (new_deadline i s)
    then (ok tt, s)
    else (ok tt, register_deadline i (new_deadline i s) s)

module _ (abort_fn : Task → Exec World Abort) where
  abbrev pub deliver_to : Option ℕ → Task → Exec Flags Unit
  deliver_to none t f = (raise attribute_error, f)
  deliver_to (some c) t f =
      if not (f.effectively_cancelled c)
      then (ok tt, f)
      else zoom (λ g. g.world) (λ w g. record g { world = w }) (attempt_abort abort_fn t) f

  -- `_attempt_delivery_of_any_pending_cancel`
  unfoldable pub attempt_delivery : Tree → Task → Exec Flags Unit
  attempt_delivery tree t f =
      if not (f.world.abortable t) then (ok tt, f) else deliver_to (tree.cancel_status t) t f

  unfoldable pub deliver_all : Tree → List Task → Exec Flags Unit
  deliver_all tree [] = pure tt
  deliver_all tree (t ∷ ts) = do attempt_delivery tree t; deliver_all tree ts

  abbrev pub set_effective : ℕ → Bool → Exec Flags Unit
  set_effective i b =
      modify λ f. record f { effectively_cancelled = update f.effectively_cancelled i b }

  -- The loop of `recalculate`, with the last element of `todo` first.
  unfoldable pub recalculate_loop : Tree → ℕ → List ℕ → Exec Flags Unit
  recalculate_loop tree fuel [] f = (ok tt, f)
  recalculate_loop tree zero (i ∷ todo) f = (raise out_of_fuel, f)
  recalculate_loop tree (suc fuel) (i ∷ todo) f =
      let new_state =
        tree.cancel_called i
        || parent_cancellation_is_visible_to_us tree f.effectively_cancelled i in
      (if bool_eq new_state (f.effectively_cancelled i)
          then recalculate_loop tree fuel todo
          else (do
            set_effective i new_state
            (if new_state then deliver_all tree (tree.tasks i) else pure tt)
            recalculate_loop tree fuel (tree.children i ++ todo)))
        f

  unfoldable pub recalculate : ℕ → ℕ → Exec Scopes Unit
  unfolding recalculate_loop
  recalculate fuel i s =
      zoom (λ u. u.flags) (λ f u. record u { flags = f }) (recalculate_loop s.tree fuel (i ∷ [])) s

  abbrev pub recalculate_if_bound : ℕ → ℕ → Exec Scopes Unit
  recalculate_if_bound fuel i s = (if s.is_bound i then recalculate fuel i else pure tt) s

  unfoldable pub cancel : ℕ → ℕ → Exec Scopes Unit
  unfolding recalculate change_registered_deadline
  cancel fuel i s =
      (if s.tree.cancel_called i then pure tt else (do
        modify (λ u. record u {
          tree = record u.tree { cancel_called = update u.tree.cancel_called i true };
        })
        change_registered_deadline i
        recalculate_if_bound fuel i))
        s

  unfoldable pub set_shield : ℕ → Bool → ℕ → Exec Scopes Unit
  unfolding recalculate
  set_shield fuel new_value i = do
    modify (λ u. record u { tree = record u.tree { shield = update u.tree.shield i new_value } })
    recalculate_if_bound fuel i

  unfoldable pub set_deadline : ℕ → Option ℕ → Exec Scopes Unit
  unfolding change_registered_deadline
  set_deadline i new_deadline = do
    modify (λ s. record s { deadline = update s.deadline i new_deadline })
    change_registered_deadline i

  -- `CancelStatus(scope=..., parent=...)`
  abbrev pub add_child : Option ℕ → ℕ → Tree → Tree
  add_child none i tree = tree
  add_child (some p) i tree = record tree {
    children = update tree.children p (insert_last i (tree.children p));
  }

  abbrev pub new_status : ℕ → Option ℕ → Scopes → Scopes
  new_status i parent s = record s {
    tree = add_child parent i (record s.tree {
      parent = update s.tree.parent i parent;
      children = update s.tree.children i [];
      tasks = update s.tree.tasks i [];
    });
    flags = record s.flags { effectively_cancelled = update s.flags.effectively_cancelled i false };
    abandoned_by_misnesting = update s.abandoned_by_misnesting i false;
  }

  abbrev pub recalculate_child : ℕ → ℕ → Option ℕ → Exec Scopes Unit
  recalculate_child fuel i none = pure tt
  recalculate_child fuel i (some p) = recalculate fuel i

  abbrev pub leave_status : Task → Option ℕ → Tree → Tree
  leave_status t none tree = tree
  leave_status t (some c) tree = record tree {
    tasks = update tree.tasks c (remove t (tree.tasks c));
  }

  -- Does nothing where the new status is None.
  abbrev pub enter_status : Task → Option ℕ → Exec Scopes Unit
  enter_status t none = pure tt
  enter_status t (some c) = do
    modify (λ s. record s {
      tree = record s.tree { tasks = update s.tree.tasks c (insert_last t (s.tree.tasks c)) };
    })
    (λ s.
        (if s.flags.effectively_cancelled c
            then zoom (λ u. u.flags) (λ f u. record u { flags = f }) (attempt_delivery s.tree t)
            else pure tt)
          s)

  unfoldable pub activate_cancel_status : Task → Option ℕ → Exec Scopes Unit
  unfolding attempt_delivery
  activate_cancel_status t new = do
    modify (λ s. record s { tree = leave_status t (s.tree.cancel_status t) s.tree })
    modify (λ s. record s {
      tree = record s.tree { cancel_status = update s.tree.cancel_status t new };
    })
    enter_status t new

  abbrev pub is_past : ℕ → Option ℕ → Bool
  is_past now none = false
  is_past now (some time) = leb time now

  -- `__enter__`, by the task `t` at the time `now`.
  unfoldable pub enter : ℕ → ℕ → Task → ℕ → Exec Scopes Unit
  unfolding cancel activate_cancel_status recalculate change_registered_deadline
  enter fuel now t i s =
      (do
        ensure runtime_error (not (s.has_been_entered i))
        modify (λ u. record u { has_been_entered = update u.has_been_entered i true })
        (if is_past now (s.deadline i) then cancel fuel i else pure tt)
        modify (new_status i (s.tree.cancel_status t))
        recalculate_child fuel i (s.tree.cancel_status t)
        modify (λ u. record u { is_bound = update u.is_bound i true })
        activate_cancel_status t (some i)
        change_registered_deadline i)
        s
