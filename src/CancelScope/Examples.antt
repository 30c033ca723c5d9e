-- ===== src/CancelScope/Examples.antt =====
-- A task parked in a scope within a scope of trio/_core/_run.py: tests, and instances of the theorems.
use trio.Prelude.{
  ◌≡◌, refl, true, false, none, some, [], ◌∷◌, ◌==◌, ==_iff, if◌then◌else◌, mem, insert_last,
  remove, arith,
}
use trio.Exec.{ok, raise, runtime_error}
use trio.Run.{World, wait_task_rescheduled, attempt_abort, reschedule}
use trio.ParkingLot.{park, abort_fn}
use trio.ParkingLot.Reach.{initial, start, after, parks, initial-IsFree, Reach-IsSound}
use trio.CancelScope.{
  Tree, Flags, Scopes, attempt_delivery, deliver_all, change_registered_deadline, recalculate_loop,
  recalculate, cancel, set_shield, enter,
}
use trio.CancelScope.Forest.{Forest, empty, node}
use trio.CancelScope.Recalculate.{IsReady}
use trio.CancelScope.Exit.{
  encloses, effective_deadline, at, set_parent, recalculate_all, mark_abandoned, close,
}
use trio.CancelScope.Parked.{AllParked, park-IsDelivery}
use trio.CancelScope.Settled.{IsSettled}
use trio.CancelScope.Cancel.{
  IsRecalculated, IsCancelled, recalculate-IsRecalculated, cancel-IsCancelled,
}

abbrev one_parked : World
one_parked = (park 0 7 initial).1

one_parked-AllParked : AllParked one_parked
unfolding park wait_task_rescheduled mem insert_last
one_parked-AllParked = record {
  sound = Reach-IsSound (after start (parks 0 7 (initial-IsFree 7)));
  parked = λ t a. (0, ground (arith, a, ==_iff 7 t));
}

-- The status 1 has the child 2, and there the task 7 waits.
abbrev tree : Tree
tree = record {
  cancel_called = λ _. false;
  shield = λ _. false;
  parent = λ j. if j == 2 then some 1 else none;
  children = λ j. if j == 1 then 2 ∷ [] else [];
  tasks = λ j. if j == 2 then 7 ∷ [] else [];
  cancel_status = λ t. if t == 7 then some 2 else none;
}

abbrev flags : Flags
flags = record { effectively_cancelled = λ _. false; world = one_parked }

abbrev scopes : Scopes
scopes = record {
  tree = tree;
  flags = flags;
  has_been_entered = λ _. true;
  is_bound = λ _. true;
  abandoned_by_misnesting = λ _. false;
  deadline = λ _. none;
  registered_deadline = λ _. none;
  deadlines = record { heap = []; active = 0 };
}

abbrev child : Forest
child = node 2 empty empty

scopes-IsSettled : IsSettled AllParked tree none 1 child flags
unfolding mem
scopes-IsSettled = record {
  fits = (refl, refl, tt, (refl, refl, (refl, tt), tt, tt), tt);
  apart = (refl, (λ j m. refl), (refl, (λ j m. refl), tt, tt), tt);
  outside = tt;
  settled = (refl, (refl, tt, tt), tt);
  served = ((λ h. cc), ((λ h. cc), tt, tt), tt);
  good = one_parked-AllParked;
}

-- The inner task is scheduled with Cancelled, and leaves its lot.
cancelled_task : (cancel abort_fn 2 1 scopes).1.flags.world.runq ≡ 7 ∷ []
unfolding cancel change_registered_deadline recalculate recalculate_loop deliver_all
    attempt_delivery attempt_abort abort_fn reschedule park wait_task_rescheduled mem insert_last
    remove
cancelled_task = refl

-- A shield in between keeps it waiting.
shielded_task :
    (cancel abort_fn 2 1 (set_shield abort_fn 2 true 2 scopes).1).1.flags.world.runq ≡ []
unfolding cancel set_shield change_registered_deadline recalculate recalculate_loop deliver_all
    attempt_delivery attempt_abort abort_fn reschedule park wait_task_rescheduled mem insert_last
    remove
shielded_task = refl

-- A scope is entered once.
entered_twice : (enter abort_fn 2 0 7 1 scopes).0 ≡ raise runtime_error
unfolding enter
entered_twice = refl

ready : IsReady abort_fn AllParked park-IsDelivery tree none (node 1 child empty) flags
unfolding mem
ready = record {
  fits = scopes-IsSettled.fits;
  apart = scopes-IsSettled.apart;
  outside = tt;
  inner = (scopes-IsSettled.settled.1, tt);
  served = scopes-IsSettled.served;
  good = one_parked-AllParked;
}

recalculate-IsRecalculated_example :
    IsRecalculated abort_fn AllParked park-IsDelivery none 1 child tree flags
      (recalculate abort_fn 2 1 scopes)
recalculate-IsRecalculated_example =
    recalculate-IsRecalculated abort_fn AllParked park-IsDelivery none 1 child 2 scopes ready
      (omega arith)

cancel-IsCancelled_example :
    IsCancelled abort_fn AllParked park-IsDelivery none 1 child flags (cancel abort_fn 2 1 scopes)
cancel-IsCancelled_example =
    cancel-IsCancelled abort_fn AllParked park-IsDelivery none 1 child 2 scopes refl
      scopes-IsSettled (omega arith)

encloses_child : encloses 2 tree 1 (some 2) ≡ ok true
unfolding encloses
encloses_child = refl

encloses_parent : encloses 2 tree 2 (some 1) ≡ ok false
unfolding encloses
encloses_parent = refl

-- An inner deadline of 9 within an outer one of 4.
deadline_above :
    effective_deadline 2 (record scopes { deadline = λ j. if j == 1 then some 4 else some 9 }) 2
    ≡ ok (at 4)
unfolding effective_deadline
deadline_above = refl

-- Closing the outer scope first leaves the inner one cancelled, and its task is scheduled.
closed_early : (close abort_fn 2 1 scopes).1.flags.world.runq ≡ 7 ∷ []
unfolding close set_parent mark_abandoned recalculate_all recalculate recalculate_loop deliver_all
    attempt_delivery attempt_abort abort_fn reschedule park wait_task_rescheduled mem insert_last
    remove
closed_early = refl

abandoned : (close abort_fn 2 1 scopes).1.abandoned_by_misnesting 2 ≡ true
unfolding close set_parent mark_abandoned recalculate_all recalculate recalculate_loop deliver_all
    attempt_delivery attempt_abort abort_fn reschedule park wait_task_rescheduled mem insert_last
    remove
abandoned = refl

no_child_left : (set_parent abort_fn 2 2 none scopes).1.tree.children 1 ≡ []
unfolding set_parent remove
no_child_left = refl
