-- ===== src/Sequencer/Examples.antt =====
-- Runs of a sequencer of trio/testing/_sequencer.py, with two tasks.
use trio.Prelude.{ℕ, suc, ◌≡◌, refl, true, false, [], mem}
use trio.Exec.{runtime_error, raise}
use trio.Run.{Task}
use trio.ParkingLot.Reach.{initial}
use trio.Sequencer.{Sequencer, call, waited, wait_cancelled, finish}
use trio.Sequencer.Order.{Phase, unclaimed, runs, ended, Sequence}
use trio.Sequencer.Moves.{moved}
use trio.Sequencer.History.{History, begin, next, calls, resumes, finishes, History-in_sequence}

abbrev fresh : Sequencer
fresh = record {
  world = initial;
  keys = [];
  waiting = λ p. [];
  flags = λ p. false;
  claimed = [];
  broken = false;
}

-- The task 7 enters the block 0, and the task 8 waits for the block 1.
abbrev two : Sequencer
two = (call 1 8 (call 0 7 fresh).1).1

is_waiting : mem 8 (two.waiting 1) ≡ true
unfolding call mem
is_waiting = refl

-- The first block ends, and the second one begins.
abbrev second : Sequencer
second = (finish 0 two).1

abbrev second_runs : Sequence
second_runs = moved 1 runs (waited second).1 (
    moved 0 ended second (
      moved 1 (Phase.waits 8) two
        (moved 0 runs (call 0 7 fresh).1 record { sequencer = fresh; phase = λ p. unclaimed })))

history : History second_runs
unfolding call mem finish waited
history =
    next
      (next (next (next (begin initial) (calls 0 7 refl refl)) (calls 1 8 refl refl))
        (finishes 0 refl))
      (resumes 1 8 refl refl)

History-in_sequence_example :
    ((q : ℕ) → 1 ≡ suc q → second_runs.phase q ≡ ended)
    × ((t : Task) → (call 1 t second_runs.sequencer).0 ≡ raise runtime_error)
History-in_sequence_example = History-in_sequence history 1 refl

used_twice : (call 0 8 two).0 ≡ raise runtime_error
unfolding call mem
used_twice = refl

-- A wait that is cancelled wakes all, and no further block begins.
abbrev broken_up : Sequencer
broken_up = (wait_cancelled two).1

breaks : (broken_up.world.scheduled 8 ≡ true) × ((waited broken_up).0 ≡ raise runtime_error)
unfolding call mem wait_cancelled waited
breaks = (refl, refl)
