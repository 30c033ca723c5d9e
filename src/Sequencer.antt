-- ===== src/Sequencer.antt =====
-- trio/testing/_sequencer.py: `Sequencer`. Positions are natural numbers. Each position has an `Event`
-- of trio/_sync.py; `keys` are the positions in the `defaultdict`, oldest first.
pub mod Order
pub mod Moves
pub mod Entering
pub mod History
mod Examples
use trio.Prelude.{
  ℕ, zero, suc, ◌+◌, Bool, true, false, not, List, [], ◌∷◌, if◌then◌else◌, ◌==◌, update, mem,
  insert_last,
}
use trio.Exec.{
  runtime_error, Result, ok, raise, Exec, pure, throw, modify, ensure, zoom, ◌>>=◌, ◌>>◌,
}
use trio.Run.{Task, World}
use trio.Event.{Event, set, wait, cancel}

pub record Sequencer : Type 0 where
  pub world : World
  pub keys : List ℕ
  pub waiting : ℕ → List Task
  pub flags : ℕ → Bool
  pub claimed : List ℕ
  pub broken : Bool

abbrev pub event : ℕ → Sequencer → Event
event p s = record { world = s.world; tasks = s.waiting p; flag = s.flags p }

abbrev pub put_event : ℕ → Event → Sequencer → Sequencer
put_event p e s = record s {
  world = e.world;
  waiting = update s.waiting p e.tasks;
  flags = update s.flags p e.flag;
}

-- `self._sequence_points[position]`
abbrev pub on_event : ℕ → Exec Event Unit → Exec Sequencer Unit
on_event p m = do
  modify (λ s. record s { keys = insert_last p s.keys })
  zoom (event p) (put_event p) m

-- `__call__` by the task `t`, up to the point where it is suspended, or, at the position 0, where the
-- block begins.
unfoldable pub call : ℕ → Task → Exec Sequencer Unit
unfolding mem insert_last wait
call p t = do
  (λ s. ensure runtime_error (not (mem p s.claimed)) s)
  (λ s. ensure runtime_error (not s.broken) s)
  modify (λ s. record s { claimed = p ∷ s.claimed })
  (if p == 0 then pure tt else on_event p (wait t))

-- What follows when the wait returns: the block begins if nothing is raised.
unfoldable pub waited : Exec Sequencer Unit
waited s = ensure runtime_error (not s.broken) s

unfoldable pub set_all : List ℕ → Exec Sequencer Unit
unfolding set insert_last
set_all [] = pure tt
set_all (p ∷ ps) = do on_event p set; set_all ps

-- What follows when it is cancelled.
unfoldable pub wait_cancelled : Exec Sequencer Unit
unfolding set_all
wait_cancelled = do
  modify (λ s. record s { broken = true })
  (λ s. set_all s.keys s)
  throw runtime_error

-- The end of the block, also with an exception.
unfoldable pub finish : ℕ → Exec Sequencer Unit
unfolding set insert_last
finish p = on_event (p + 1) set

-- A cancellation is delivered to the task `t` that waits at a position.
unfoldable pub cancel_wait : ℕ → Task → Exec Sequencer Unit
unfolding cancel insert_last
cancel_wait p t = on_event p (cancel t)
