-- ===== src/Epoll/Registration.antt =====
-- `_update_registrations` of trio/_core/_io_epoll.py: what epoll is asked for is what tasks wait for.
use trio.Prelude.{
  ℕ, ◌≡◌, inl, inr, refl, sym, ◌∙◌, Bool, true, false, not, Option, none, some, List, ◌==◌, ==_iff,
  ==_refl, Bool-cases, update, arith,
}
use trio.Exec.{ensure-state, os_error, ok}
use trio.Run.{Task}
use trio.Epoll.{
  EpollWaiters, EpollIoManager, End, no_waiters, read_task, write_task, Call, Interest, Woken,
  or_default, waiters, store, forget, task_at, is_current, wanted_flags, same_flags, is_waited,
  wake_unregistered, drop_idle, with_flags, asks, update_registrations,
}
use trio.Epoll.Waiting.{
  at, IsSound, IsReleased, IsReleased-IsSound, IsReleased-trans, IsReleased_same, embed, here,
  here-IsReleased, here-IsSound,
}
use trio.Epoll.Waking.{HasWokenAll, wake_all-HasWokenAll}

-- A registered descriptor has a task that waits for it, and epoll was asked for what tasks wait for.
abbrev pub IsArmed : Option EpollWaiters → Type 0
IsArmed none = Unit {0}
IsArmed (some w) = (same_flags (wanted_flags w) w.current_flags ≡ true) × (is_waited w ≡ true)

pub record IsValid (s : EpollIoManager) : Type 0 where
  pub sound : IsSound s
  pub armed : (fd : ℕ) → IsArmed (s.registered fd)

-- So it is, but for the descriptor `fd`.
pub record IsValidBut (fd : ℕ) (s : EpollIoManager) : Type 0 where
  pub sound : IsSound s
  pub armed : (gd : ℕ) → (fd == gd) ≡ false → IsArmed (s.registered gd)

-- What a call that wakes tasks leads to.
pub record IsDone (current : Option Task) (s u : EpollIoManager) : Type 0 where
  pub valid : IsValid u
  pub released : IsReleased current s u

-- The current task, if there is one, does not wait.
abbrev pub IsAwake : Option Task → EpollIoManager → Type 0
IsAwake current s =
    (fd : ℕ) (e : End) (t : Task) → at fd e s ≡ some t → is_current current t ≡ false

not_waited : (w : EpollWaiters) (e : End) → is_waited w ≡ false → task_at e w ≡ none
not_waited w read_task h = ground (arith, h)
not_waited w write_task h = ground (arith, h)

pub no_task : (e : End) → task_at e no_waiters ≡ none
no_task read_task = refl
no_task write_task = refl

pub nobody :
    (w : EpollWaiters) (e : End)
    → task_at e (record w { read_task = none; write_task = none }) ≡ none
nobody w read_task = refl
nobody w write_task = refl

module _ (current : Option Task) (fd : ℕ) (s : EpollIoManager) (h : IsValidBut fd s) where
  update-IsArmed :
      (o : Option EpollWaiters) → IsArmed o → (gd : ℕ) → IsArmed (update s.registered fd o gd)
  update-IsArmed o a gd = elim (Bool-cases (fd == gd)) [
    | inl q ↦ rw q a
    | inr q ↦ rw q (h.armed gd q)
  ]

  forget-at :
      is_waited (waiters fd s) ≡ false → (gd : ℕ) (e : End) → at gd e (forget fd s) ≡ at gd e s
  forget-at n gd e = elim (Bool-cases (fd == gd)) [
    | inl q ↦
        rw (← (==_iff fd gd).0 q, ==_refl fd) (no_task e ∙ sym (not_waited (waiters fd s) e n))
    | inr q ↦ rw q
  ]

  registered-IsArmed :
      (o : Option EpollWaiters)
      → same_flags (wanted_flags (or_default o)) (or_default o).current_flags ≡ true
      → is_waited (or_default o) ≡ true
      → IsArmed o
  registered-IsArmed none f w = tt
  registered-IsArmed (some x) f w = (f, w)

  drop_idle-IsDone :
      same_flags (wanted_flags (waiters fd s)) (waiters fd s).current_flags ≡ true
      → IsDone current s (drop_idle fd s)
  drop_idle-IsDone f = elim (Bool-cases (is_waited (waiters fd s))) [
    | inl w ↦ rw w record {
      valid = record {
        sound = h.sound;
        armed = λ gd. elim (Bool-cases (fd == gd)) [
          | inl q ↦ rw (← (==_iff fd gd).0 q) (registered-IsArmed (s.registered fd) f w)
          | inr q ↦ h.armed gd q
        ];
      };
      released = IsReleased_same s s (λ gd e. refl) refl;
    }
    | inr w ↦ rw w record {
      valid = record {
        sound =
            IsReleased-IsSound (IsReleased_same {current = none} s (forget fd s) (forget-at w) refl)
              h.sound;
        armed = update-IsArmed none tt;
      };
      released = IsReleased_same s (forget fd s) (forget-at w) refl;
    }
  ]

with_flags-same :
    (w : EpollWaiters)
    → same_flags (wanted_flags (with_flags w)) (with_flags w).current_flags ≡ true
with_flags-same w = ground arith

with_flags-at : (w : EpollWaiters) (e : End) → task_at e (with_flags w) ≡ task_at e w
with_flags-at w read_task = refl
with_flags-at w write_task = refl

-- Whatever epoll answers, only the calls change.
module _ (accepts : List Call → Call → Bool) (fd : ℕ) (f : Interest) (s : EpollIoManager) where
  pub asks-registered : (asks accepts fd f s).1.registered ≡ s.registered
  unfolding asks
  asks-registered = ground arith

  asks-world : (asks accepts fd f s).1.world ≡ s.world
  unfolding asks
  asks-world = ground arith

-- `u` is `s` after the calls of epoll.
module _ (current : Option Task) (fd : ℕ) (s u : EpollIoManager) (h : IsValidBut fd s)
    (r : u.registered ≡ s.registered) (w : u.world ≡ s.world) where
  accepted-at : (gd : ℕ) (e : End) → at gd e (store fd (with_flags (waiters fd s)) u) ≡ at gd e s
  accepted-at gd e = elim (Bool-cases (fd == gd)) [
    | inl q ↦ rw (← (==_iff fd gd).0 q, ==_refl fd) (with_flags-at (waiters fd s) e)
    | inr q ↦ rw (q, r)
  ]

  accepted-IsReleased : IsReleased current s (store fd (with_flags (waiters fd s)) u)
  accepted-IsReleased = IsReleased_same s (store fd (with_flags (waiters fd s)) u) accepted-at w

  accepted-IsDone : IsDone current s (drop_idle fd (store fd (with_flags (waiters fd s)) u))
  accepted-IsDone =
      let d =
        drop_idle-IsDone current fd (store fd (with_flags (waiters fd s)) u)
          record {
            sound = IsReleased-IsSound accepted-IsReleased h.sound;
            armed = λ gd q. rw (q, r) (h.armed gd q);
          }
          (rw (==_refl fd) (with_flags-same (waiters fd s))) in
      record { valid = d.valid; released = IsReleased-trans accepted-IsReleased d.released }

  -- When all have been woken.
  last-at :
      (v : Woken)
      → v.waiters ≡ record (waiters fd s) { read_task = none; write_task = none }
      → (gd : ℕ) (e : End)
      → at gd e (forget fd (record u { world = v.world })) ≡ at gd e (embed fd s v)
  last-at v g gd e = elim (Bool-cases (fd == gd)) [
    | inl q ↦ rw (q, g) (no_task e ∙ sym (nobody (waiters fd s) e))
    | inr q ↦ rw (q, r)
  ]

  woken : HasWokenAll current os_error fd s (here fd s)
  woken = wake_all-HasWokenAll current os_error fd s (here fd s) (here-IsSound fd s h.sound)

  blames_nobody : IsAwake current s → woken.raises ≡ false
  blames_nobody a = elim (Bool-cases woken.raises) [
    | inr n ↦ n
    | inl y ↦ let (e, (t, k, c)) = woken.blame y in cc (a fd e t k, c)
  ]

  refused_lem :
      IsAwake current s → (wake_unregistered current (waiters fd s) (forget fd u)).0 ≡ ok tt
  refused_lem a = rw (w, woken.eq, blames_nobody a)

  refused-IsDone : IsDone current s (wake_unregistered current (waiters fd s) (forget fd u)).1
  refused-IsDone =
      let end : IsReleased current s (forget fd (record u { world = woken.after.world })) =
        IsReleased-trans (here-IsReleased fd s current) (
          IsReleased-trans woken.released
            (IsReleased_same (embed fd s woken.after) _ (last-at woken.after woken.gone) refl)) in
      rw (w, woken.eq, ensure-state os_error (not woken.raises) woken.after)
        record {
          valid = record {
            sound = IsReleased-IsSound end h.sound;
            armed = rw r (update-IsArmed current fd s h none tt);
          };
          released = end;
        }

module _ (accepts : List Call → Call → Bool) (current : Option Task) (fd : ℕ) (s : EpollIoManager)
    (h : IsValidBut fd s) where
  pub update_registrations-IsDone : IsDone current s (update_registrations accepts current fd s).1
  unfolding update_registrations
  update_registrations-IsDone =
      elim (Bool-cases (same_flags (wanted_flags (waiters fd s)) (waiters fd s).current_flags)) [
        | inl f ↦ rw f (drop_idle-IsDone current fd s h f)
        | inr f ↦ rw f (elim (Bool-cases (asks accepts fd (wanted_flags (waiters fd s)) s).0) [
          | inl y ↦ rw y (
              accepted-IsDone current fd s (asks accepts fd (wanted_flags (waiters fd s)) s).1 h
                (asks-registered accepts fd _ s) (asks-world accepts fd _ s))
          | inr n ↦ rw n (
              refused-IsDone current fd s (asks accepts fd (wanted_flags (waiters fd s)) s).1 h
                (asks-registered accepts fd _ s) (asks-world accepts fd _ s))
        ])
      ]

  -- It raises nothing where the current task does not wait.
  pub update_registrations-ok :
      IsAwake current s → (update_registrations accepts current fd s).0 ≡ ok tt
  unfolding update_registrations
  update_registrations-ok a =
      elim (Bool-cases (same_flags (wanted_flags (waiters fd s)) (waiters fd s).current_flags)) [
        | inl f ↦ rw f
        | inr f ↦ rw f (elim (Bool-cases (asks accepts fd (wanted_flags (waiters fd s)) s).0) [
          | inl y ↦ rw y
          | inr n ↦ rw n (
              refused_lem current fd s (asks accepts fd (wanted_flags (waiters fd s)) s).1 h
                (asks-registered accepts fd _ s) (asks-world accepts fd _ s) a)
        ])
      ]
