-- ===== src/Epoll/Asked.antt =====
-- What epoll was asked for by `EpollIOManager` of trio/_core/_io_epoll.py.
use trio.Prelude.{
  ℕ, ◌≡◌, inl, inr, refl, Bool, true, false, ◌&&◌, Option, none, some, List, [], ◌∷◌, ◌++◌,
  append_assoc, append-nil, if◌then◌else◌, ◌==◌, ==_refl, Bool-cases,
}
use trio.Epoll.{
  EpollIoManager, Call, modify_call, register_call, unregister_call, event_call, Interest, asks,
}

abbrev pub disarmed : Option Interest → Option Interest
disarmed none = none
disarmed (some f) = some (record { input = false; output = false })

-- The interest that epoll has in `fd`, `none` where it is not registered, before and after a call that
-- comes after `calls`: an accepted call changes it, and an event disarms the descriptor.
abbrev pub after :
    (List Call → Call → Bool) → ℕ → List Call → Call → Option Interest → Option Interest
after accepts fd calls (modify_call gd f) o =
    if gd == fd && accepts calls (modify_call gd f) then some f else o
after accepts fd calls (register_call gd f) o =
    if gd == fd && accepts calls (register_call gd f) then some f else o
after accepts fd calls (unregister_call gd) o =
    if gd == fd && accepts calls (unregister_call gd) then none else o
after accepts fd calls (event_call gd) o = if gd == fd then disarmed o else o

unfoldable asked_from :
    (List Call → Call → Bool) → ℕ → List Call → List Call → Option Interest → Option Interest
asked_from accepts fd earlier [] o = o
asked_from accepts fd earlier (c ∷ cs) o =
    asked_from accepts fd (earlier ++ c ∷ []) cs (after accepts fd earlier c o)

-- The interest that epoll has in `fd` after these calls, with none at first.
unfoldable pub asked : (List Call → Call → Bool) → ℕ → List Call → Option Interest
unfolding asked_from
asked accepts fd calls = asked_from accepts fd [] calls none

module _ (accepts : List Call → Call → Bool) where
  asked_from-last :
      (fd : ℕ) (earlier calls : List Call) (c : Call) (o : Option Interest)
      → asked_from accepts fd earlier (calls ++ c ∷ []) o
        ≡ after accepts fd (earlier ++ calls) c (asked_from accepts fd earlier calls o)
  unfolding asked_from
  asked_from-last fd earlier [] c o = rw append-nil refl
  asked_from-last fd earlier (d ∷ ds) c o =
      rw
        (
          asked_from-last fd (earlier ++ d ∷ []) ds c (after accepts fd earlier d o),
          append_assoc earlier (d ∷ []) ds,
        )
        refl

  pub asked-made :
      (fd : ℕ) (calls : List Call) (c : Call)
      → asked accepts fd (calls ++ c ∷ []) ≡ after accepts fd calls c (asked accepts fd calls)
  unfolding asked
  asked-made fd calls c = asked_from-last fd [] calls c none

  module _ (fd : ℕ) (f : Interest) (s : EpollIoManager) where
    -- The calls for a descriptor concern no other one.
    pub asks-others :
        (gd : ℕ)
        → (fd == gd) ≡ false
        → asked accepts gd (asks accepts fd f s).1.calls ≡ asked accepts gd s.calls
    unfolding asks
    asks-others gd n = elim (Bool-cases (accepts s.calls (modify_call fd f))) [
      | inl y ↦ rw (y, asked-made gd s.calls (modify_call fd f), n) refl
      | inr k ↦
          rw
            (
              k,
              asked-made gd (s.calls ++ modify_call fd f ∷ []) (register_call fd f),
              asked-made gd s.calls (modify_call fd f),
              n,
            )
            refl
    ]

    -- Where epoll accepts one of them, that is its interest.
    pub asks-accepted :
        (asks accepts fd f s).0 ≡ true → asked accepts fd (asks accepts fd f s).1.calls ≡ some f
    unfolding asks
    asks-accepted = elim (Bool-cases (accepts s.calls (modify_call fd f))) [
      | inl y ↦ rw (y, asked-made fd s.calls (modify_call fd f), ==_refl fd, y) (λ k. refl)
      | inr n ↦ rw n (λ k.
          rw (asked-made fd (s.calls ++ modify_call fd f ∷ []) (register_call fd f), ==_refl fd, k)
            refl)
    ]
