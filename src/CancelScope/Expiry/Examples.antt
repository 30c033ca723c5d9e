-- ===== src/CancelScope/Expiry/Examples.antt =====
-- A heap with stale and doubled entries (trio/_core/_run.py): tests, and instances of the theorems.
use trio.Prelude.{
  ◌≡◌, refl, true, false, none, some, [], ◌∷◌, ◌==◌, ==_iff, if◌then◌else◌, length, mem, arith,
}
use trio.Exec.{ok}
use trio.ParkingLot.Reach.{initial}
use trio.CancelScope.{deliver_all, Tree, Scopes, cancel, recalculate, change_registered_deadline}
use trio.CancelScope.Expiry.{next_deadline, pruned, prune, expire, expire_loop}
use trio.ParkingLot.{abort_fn}
use trio.CancelScope.Expiry.Passing.{IsTimed, expire-IsTimed}
use trio.CancelScope.Expiry.Count.{IsCounted, change_registered_deadline-IsCounted}

abbrev one_status : Tree
one_status = record {
  cancel_called = λ _. false;
  shield = λ _. false;
  parent = λ _. none;
  children = λ _. [];
  tasks = λ _. [];
  cancel_status = λ _. none;
}

-- The scope 1 has the registered deadline 5, which was 3 and 5 before; now it is to be 7.
abbrev timed : Scopes
timed = record {
  tree = one_status;
  flags = record { effectively_cancelled = λ _. false; world = initial };
  has_been_entered = λ _. true;
  is_bound = λ _. true;
  abandoned_by_misnesting = λ _. false;
  deadline = λ _. some 7;
  registered_deadline = λ j. if j == 1 then some 5 else none;
  deadlines = record { heap = (5, 1) ∷ (3, 1) ∷ (5, 1) ∷ []; active = 1 };
}

timed-IsCounted : IsCounted timed
unfolding mem
timed-IsCounted = record {
  scopes = 1 ∷ [];
  distinct = (refl, tt);
  counted = refl;
  registered = λ j. ground (arith, ==_iff 1 j, ==_iff j 1);
  entered = λ j m. ground (arith, m, ==_iff 1 j, ==_iff j 1);
}

earliest : (next_deadline timed).0 ≡ ok (some 5)
unfolding next_deadline
earliest = refl

one_left : (prune timed).1.deadlines.heap ≡ (5, 1) ∷ []
unfolding prune pruned mem
one_left = refl

timed-IsTimed : IsTimed timed
timed-IsTimed = record { count = timed-IsCounted; live = λ j m. refl }

-- The scope's deadline has passed: nothing is registered any more.
expires : (expire abort_fn 1 6 timed).1.deadlines.active ≡ 0
unfolding expire_loop expire cancel change_registered_deadline recalculate mem deliver_all
expires = refl

expire-IsTimed_example :
    let u = (expire_loop abort_fn 4 1 6 false timed).1 in
    ((prune u).0 ≡ ok tt)
    × (length (prune u).1.deadlines.heap ≡ u.deadlines.active)
    × IsTimed (expire abort_fn 1 6 timed).1
expire-IsTimed_example = expire-IsTimed abort_fn 1 6 timed timed-IsTimed

change_registered_deadline-IsCounted_example : IsCounted (change_registered_deadline 1 timed).1
change_registered_deadline-IsCounted_example =
    change_registered_deadline-IsCounted 1 timed timed-IsCounted
