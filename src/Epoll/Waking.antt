-- ===== src/Epoll/Waking.antt =====
-- `wake_all` of trio/_core/_io_common.py.
use trio.Prelude.{
  ℕ, ◌≡◌, inl, inr, refl, ◌∙◌, Bool, true, false, not, ◌||◌, Option, none, some, Bool-cases,
  Option-cases, arith,
}
use trio.Exec.{Error, ok, raise, ensure}
use trio.Run.{Task, reschedule, schedule}
use trio.Epoll.{
  EpollWaiters, EpollIoManager, End, read_task, write_task, Woken, task_at, set_task, is_current,
  wake_at, wake_all,
}
use trio.Epoll.Waiting.{
  IsSound, IsReleased, IsReleased-IsSound, IsReleased-trans, embed, cleared, absent-IsReleased,
  current-IsReleased, scheduled-IsReleased, at_embedded,
}

-- The current task is the one that waits.
abbrev pub IsBlamed : Option Task → EpollWaiters → End → Type 0
IsBlamed current w e = (t : Task) × (task_at e w ≡ some t) × (is_current current t ≡ true)

-- One task of `wake_all` is woken: nothing fails, and the task waits no more.
record HasWoken (current : Option Task) (x : Error) (fd : ℕ) (s : EpollIoManager) (v : Woken)
    (e : End) : Type 0 where
  raises : Bool
  after : Woken
  eq : wake_at current x e v ≡ (ok raises, after)
  blame : raises ≡ true → IsBlamed current v.waiters e
  gone : after.waiters ≡ set_task e none v.waiters
  released : IsReleased current (embed fd s v) (embed fd s after)

module _ (current : Option Task) (x : Error) (fd : ℕ) (s : EpollIoManager) (v : Woken) (e : End)
    (sound : IsSound (embed fd s v)) where
  wake_at-HasWoken : HasWoken current x fd s v e
  unfolding reschedule
  wake_at-HasWoken = elim (Option-cases (task_at e v.waiters)) [
    | inl n ↦ record {
      raises = false;
      after = cleared e v;
      eq = rw n;
      blame = λ b. cc;
      gone = refl;
      released = absent-IsReleased fd s v e current n;
    }
    | inr (t, h) ↦ elim (Bool-cases (is_current current t)) [
      | inl c ↦ record {
        raises = true;
        after = cleared e v;
        eq = rw (h, c);
        blame = λ b. (t, h, c);
        gone = refl;
        released = current-IsReleased fd s v e current t h c;
      }
      | inr c ↦ record {
        raises = false;
        after = record (cleared e v) { world = schedule t (raise x) v.world };
        eq = rw (h, c, sound.idle fd e t (at_embedded fd s v e ∙ h));
        blame = λ b. cc;
        gone = refl;
        released = scheduled-IsReleased fd s v e current t h (raise x) sound;
      }
    ]
  ]

-- After `wake_all` nobody waits for the descriptor, and it raises only for the current task.
pub record HasWokenAll (current : Option Task) (x : Error) (fd : ℕ) (s : EpollIoManager) (v : Woken)
    : Type 0 where
  pub raises : Bool
  pub after : Woken
  pub eq : wake_all current x v ≡ ensure x (not raises) after
  pub blame : raises ≡ true → (e : End) × IsBlamed current v.waiters e
  pub gone : after.waiters ≡ record v.waiters { read_task = none; write_task = none }
  pub released : IsReleased current (embed fd s v) (embed fd s after)

module _ (current : Option Task) (x : Error) (fd : ℕ) (s : EpollIoManager) (v : Woken)
    (sound : IsSound (embed fd s v)) where
  pub wake_all-HasWokenAll : HasWokenAll current x fd s v
  unfolding wake_all
  wake_all-HasWokenAll =
      let a = wake_at-HasWoken current x fd s v read_task sound in
      let b =
        wake_at-HasWoken current x fd s a.after write_task (IsReleased-IsSound a.released sound) in
      record {
        raises = a.raises || b.raises;
        after = b.after;
        eq = rw (a.eq, b.eq);
        blame = λ k. elim (Bool-cases a.raises) [
          | inl y ↦ (read_task, a.blame y)
          | inr n ↦ (write_task, rw a.gone at (b.blame (ground (arith, k, n))))
        ];
        gone = rw (b.gone, a.gone);
        released = IsReleased-trans a.released b.released;
      }
