-- ===== src/CancelScope/Cancel.antt =====
-- `CancelScope.cancel` and the setter of `shield` (trio/_core/_run.py) over the statuses below the
-- scope's own.
use trio.Prelude.{
  ℕ, ◌≤◌, ◌≡◌, refl, sym, ap, ◌∙◌, Bool, true, Option, [], update, arith, Bool-cases, inl, inr,
}
use trio.Exec.{Result, ok, Exec}
use trio.Run.{Abort, Task, World}
use trio.CancelScope.{
  Tree, Flags, Scopes, recalculate_loop, recalculate, new_deadline, register_deadline, same_time,
  change_registered_deadline, cancel, set_shield,
}
use trio.CancelScope.Delivery.{IsDelivery, AllQuiet}
use trio.CancelScope.Forest.{Forest, ids, size, Keeps, parent_same, empty, node}
use trio.CancelScope.Recalculate.{IsReady, IsDone, recalculate_loop-IsDone}
use trio.CancelScope.Settled.{
  IsSameBut, AllReached, AllSettled-AllReached, IsSettled, changed-IsReady,
}

module _ (abort_fn : Task → Exec World Abort) (Good : World → Type 0) (d : IsDelivery abort_fn Good)
    (p : Option ℕ) (i : ℕ) (kids : Forest) where
  -- The outcome of a call that ends with `recalculate`: the tree is the one given, and everything is
  -- settled under it, without a change outside.
  pub record IsRecalculated (tree : Tree) (f : Flags) (r : Result (Unit {0}) × Scopes)
      : Type 0 where
    pub result : r.0 ≡ ok tt
    pub tree_same : r.1.tree ≡ tree
    pub settled : IsSettled Good tree p i kids r.1.flags
    pub keeps :
        Keeps f.effectively_cancelled r.1.flags.effectively_cancelled (ids (node i kids empty))

  done-IsSettled :
      (tree : Tree) (fuel : ℕ) (f : Flags)
      → IsReady abort_fn Good d tree p (node i kids empty) f
      → (q : IsDone abort_fn Good d tree p (node i kids empty) fuel [] f)
      → IsSettled Good tree p i kids q.after
  done-IsSettled tree fuel f r q = record {
    fits = r.fits;
    apart = r.apart;
    outside = r.outside;
    settled = rw (parent_same (ids (node i kids empty)) p q.keeps r.outside) q.settled;
    served = q.served;
    good = q.good;
  }

  -- Where abort functions do their work (`IsDelivery`), those below a scope's status are settled, the
  -- shape of the tree is as given, and the rounds are at least as many as its statuses: `recalculate`
  -- ends without an exception and settles the status and all below it, whatever has happened to the
  -- status itself. Then each is effectively cancelled exactly if its scope is cancelled or it is not
  -- shielded from an effectively cancelled parent, and no task of an effectively cancelled one waits
  -- with an abort function. No other status changes.
  pub recalculate-IsRecalculated :
      (fuel : ℕ) (s : Scopes)
      → IsReady abort_fn Good d s.tree p (node i kids empty) s.flags
      → size (node i kids empty) ≤ fuel
      → IsRecalculated s.tree s.flags (recalculate abort_fn fuel i s)
  unfolding recalculate recalculate_loop
  recalculate-IsRecalculated fuel s r h =
      let q =
        recalculate_loop-IsDone abort_fn Good d s.tree (node i kids empty) p s.flags fuel [] r h in
      record {
        result = ap (λ o. o.0) q.result;
        tree_same = refl;
        settled = rw q.result (done-IsSettled s.tree fuel s.flags r q);
        keeps = rw q.result q.keeps;
      }

  cancelled_tree : Tree → Tree
  cancelled_tree tree = record tree { cancel_called = update tree.cancel_called i true }

  shielded_tree : Bool → Tree → Tree
  shielded_tree b tree = record tree { shield = update tree.shield i b }

  cancelled_tree-IsSameBut : (tree : Tree) → IsSameBut i tree (cancelled_tree tree)
  unfolding cancelled_tree
  cancelled_tree-IsSameBut tree = record {
    children = λ j. refl;
    parent = λ j. refl;
    tasks = λ j. refl;
    cancel_status = λ t. refl;
    cancel_called = λ j h. rw h refl;
    shield = λ j h. refl;
  }

  shielded_tree-IsSameBut : (b : Bool) (tree : Tree) → IsSameBut i tree (shielded_tree b tree)
  unfolding shielded_tree
  shielded_tree-IsSameBut b tree = record {
    children = λ j. refl;
    parent = λ j. refl;
    tasks = λ j. refl;
    cancel_status = λ t. refl;
    cancel_called = λ j h. refl;
    shield = λ j h. rw h refl;
  }

  -- Where abort functions do their work and the rounds are at least as many as the statuses, setting
  -- `shield` of a bound scope whose statuses are settled ends without an exception, settles them for
  -- the new value, and changes no status outside.
  pub set_shield-IsRecalculated :
      (fuel : ℕ) (b : Bool) (s : Scopes)
      → s.is_bound i ≡ true
      → IsSettled Good s.tree p i kids s.flags
      → size (node i kids empty) ≤ fuel
      → IsRecalculated
          (record s.tree { shield = update s.tree.shield i b })
          s.flags
          (set_shield abort_fn fuel b i s)
  unfolding set_shield shielded_tree
  set_shield-IsRecalculated fuel b s bound v h = rw bound (
      recalculate-IsRecalculated fuel (record s { tree = shielded_tree b s.tree })
        (changed-IsReady abort_fn Good d p i kids s.tree (shielded_tree b s.tree) s.flags
          (shielded_tree-IsSameBut b s.tree) v)
        h)

  -- The outcome of `cancel`.
  pub record IsCancelled (f : Flags) (r : Result (Unit {0}) × Scopes) : Type 0 where
    pub result : r.0 ≡ ok tt
    pub called : r.1.tree.cancel_called i ≡ true
    pub effective : r.1.flags.effectively_cancelled i ≡ true
    pub quiet : AllQuiet r.1.flags.world (r.1.tree.tasks i)
    pub reached : AllReached r.1.tree r.1.flags.effectively_cancelled r.1.flags.world kids
    pub settled : IsSettled Good r.1.tree p i kids r.1.flags
    pub keeps :
        Keeps f.effectively_cancelled r.1.flags.effectively_cancelled (ids (node i kids empty))

  settled-IsCancelled :
      (f : Flags) (o : Result (Unit {0})) (u : Scopes)
      → o ≡ ok tt
      → u.tree.cancel_called i ≡ true
      → IsSettled Good u.tree p i kids u.flags
      → Keeps f.effectively_cancelled u.flags.effectively_cancelled (ids (node i kids empty))
      → IsCancelled f (o, u)
  settled-IsCancelled f o u e c v k =
      let on : u.flags.effectively_cancelled i ≡ true = ground (arith, v.settled.0, c) in
      record {
        result = e;
        called = c;
        effective = on;
        quiet = v.served.0 on;
        reached =
            AllSettled-AllReached u.tree u.flags.effectively_cancelled u.flags.world kids
              (rw (sym on) v.settled.1) v.served.1;
        settled = v;
        keeps = k;
      }

  -- What the bookkeeping of the deadline leaves alone.
  deadline_only :
      (s : Scopes)
      → (t : Scopes) × (change_registered_deadline i s ≡ (ok tt, t))
        × (t.tree ≡ s.tree)
        × (t.flags ≡ s.flags)
        × (t.is_bound ≡ s.is_bound)
  unfolding change_registered_deadline
  deadline_only s = elim (Bool-cases (same_time (s.registered_deadline i) (new_deadline i s))) [
    | inl same ↦ (s, rw same refl, refl, refl, refl)
    | inr differs ↦ (register_deadline i (new_deadline i s) s, rw differs refl, refl, refl, refl)
  ]

  recalculated :
      (fuel : ℕ) (s t : Scopes)
      → t.tree ≡ cancelled_tree s.tree
      → t.flags ≡ s.flags
      → IsSettled Good s.tree p i kids s.flags
      → size (node i kids empty) ≤ fuel
      → IsCancelled s.flags (recalculate abort_fn fuel i t)
  unfolding cancelled_tree
  recalculated fuel s t same_tree same_flags v h =
      let ready =
        changed-IsReady abort_fn Good d p i kids s.tree (cancelled_tree s.tree) s.flags
          (cancelled_tree-IsSameBut s.tree) v in
      let q = recalculate-IsRecalculated fuel t (rw (same_tree, same_flags) ready) h in
      settled-IsCancelled s.flags _ (recalculate abort_fn fuel i t).1 q.result
        (rw (q.tree_same, same_tree) (ground arith)) (rw q.tree_same q.settled)
        (rw (sym same_flags) q.keeps)

  -- Where abort functions do their work and the rounds are at least as many as the statuses, `cancel`
  -- of a bound scope whose statuses are settled never fails, whether the scope was cancelled before or
  -- not. Afterwards its status and every one below it that no shield parts from it are effectively
  -- cancelled, none of their tasks is left with an abort function (where it failed, the task goes on
  -- waiting and is not asked again), the statuses are settled again, and none outside has changed.
  pub cancel-IsCancelled :
      (fuel : ℕ) (s : Scopes)
      → s.is_bound i ≡ true
      → IsSettled Good s.tree p i kids s.flags
      → size (node i kids empty) ≤ fuel
      → IsCancelled s.flags (cancel abort_fn fuel i s)
  unfolding cancel cancelled_tree
  cancel-IsCancelled fuel s bound v h = elim (Bool-cases (s.tree.cancel_called i)) [
    | inl again ↦ rw again (settled-IsCancelled s.flags (ok tt) s refl again v (λ j m. refl))
    | inr first ↦
        (let (t, run, same_tree, same_flags, same_bound) =
            deadline_only (record s { tree = cancelled_tree s.tree }) in
          let q = recalculated fuel s t same_tree same_flags v h in
          rw first (rw run (rw (ap (λ g. g i) same_bound ∙ bound) q)))
  ]
