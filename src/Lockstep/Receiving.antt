-- ===== src/Lockstep/Receiving.antt =====
-- The calls that receive from the lockstep queue of trio/testing/_memory_streams.py.
use trio.Prelude.{
  ◌≡◌, ◌⊎◌, inl, inr, refl, ap, Bool, true, false, not, ◌||◌, Option, if◌then◌else◌, ℤ, Bool-cases,
  none, some, is_neg, to_nat, ltb,
}
use trio.Exec.{
  busy_resource_error, Error, ensure, modify, ◌>>◌, Result, ok, raise, ensure_pass,
  closed_resource_error, value_error, Exec,
}
use trio.Run.{Task}
use trio.ParkingLot.{park}
use trio.ParkingLot.Invariant.{IsSound, IsFree}
use trio.Lockstep.{
  LockstepByteQueue, is_closed, is_filled, on_error, done_receiving, done_waiting,
  something_happened, wait_round, check_max_bytes, receive_round, receive_some,
}
use trio.Lockstep.Phases.{
  roused, something_happened-eq, roused-IsSound, roused-IsFree, round-eq, rounded, rounded-IsSound,
}
use trio.Lockstep.Order.{IsReceiving}

failing-IsReceiving :
    (t : Task) (s : LockstepByteQueue)
    → IsSound s.world
    → (e : Error) → IsReceiving t s (raise e, record s { receiving = false })
failing-IsReceiving t s sound e = record {
  sound = sound;
  bytes = refl;
  sender_closed = refl;
  receiver_closed = refl;
  sending = refl;
  held = refl;
  passed = λ k. cc;
}

check-cases :
    (m : Option ℤ) (s : LockstepByteQueue)
    → (check_max_bytes m s ≡ (ok tt, s)) ⊎ (check_max_bytes m s ≡ (raise value_error, s))
unfolding check_max_bytes
check-cases none s = inl refl
check-cases (some n) s = elim (Bool-cases (is_neg n || ltb (to_nat n) 1)) [
  | inl y ↦ inr (rw y)
  | inr y ↦ inl (rw y)
]

abbrev give_up : LockstepByteQueue → LockstepByteQueue
give_up u = done_receiving (done_waiting u)

module _ (s : LockstepByteQueue) (sound : IsSound s.world) (t : Task)
    (free : IsFree s.world t) where
  rounded-IsReceiving :
      (b pending : Bool)
      → s.receiving ≡ true
      → (b ≡ true → (is_filled s || is_closed s) ≡ true)
      → IsReceiving t s (on_error give_up (rounded s sound t free b pending))
  unfolding park
  rounded-IsReceiving true true h p = record {
    sound = rounded-IsSound s sound t free true true;
    bytes = refl;
    sender_closed = refl;
    receiver_closed = refl;
    sending = refl;
    held = refl;
    passed = λ k. cc;
  }
  rounded-IsReceiving true false h p = record {
    sound = rounded-IsSound s sound t free true false;
    bytes = refl;
    sender_closed = refl;
    receiver_closed = refl;
    sending = refl;
    held = h;
    passed = λ k e. p refl;
  }
  rounded-IsReceiving false pending h p = record {
    sound = rounded-IsSound s sound t free false pending;
    bytes = refl;
    sender_closed = refl;
    receiver_closed = refl;
    sending = refl;
    held = h;
    passed = λ k e. cc (e, free.idle);
  }

  pub receive_round-IsReceiving :
      (pending : Bool) → s.receiving ≡ true → IsReceiving t s (receive_round pending t s)
  unfolding receive_round
  receive_round-IsReceiving pending h =
      rw (round-eq s sound t free is_filled pending) (rounded-IsReceiving _ pending h (λ e. e))

on_error-on_error :
    (m : Result (Unit {0}) × LockstepByteQueue)
    → on_error done_receiving (on_error done_waiting m) ≡ on_error give_up m
on_error-on_error (ok x, s) = refl
on_error-on_error (raise e, s) = refl

module _ (s : LockstepByteQueue) (sound : IsSound s.world) (t : Task)
    (free : IsFree s.world t) where
  abbrev holding : LockstepByteQueue
  holding = record s { receiving = true }

  abbrev looking : LockstepByteQueue
  looking = record holding { receiver_waiting = true; world = roused s }

  abbrev last_part : Bool → Exec LockstepByteQueue Unit
  last_part pending s = on_error done_waiting (wait_round is_filled pending t s)

  abbrev asking : Bool → Exec LockstepByteQueue Unit
  asking pending = do
    (λ s. ensure closed_resource_error (not s.receiver_closed) s)
    modify (λ s. record s { receiver_waiting = true })
    something_happened
    last_part pending

  looking-IsReceiving :
      {m : Result (Unit {0}) × LockstepByteQueue} → IsReceiving t looking m → IsReceiving t s m
  looking-IsReceiving i = record {
    sound = i.sound;
    bytes = i.bytes;
    sender_closed = i.sender_closed;
    receiver_closed = i.receiver_closed;
    sending = i.sending;
    held = i.held;
    passed = i.passed;
  }

  asking-IsReceiving :
      (pending : Bool) → IsReceiving t s (on_error done_receiving (asking pending holding))
  asking-IsReceiving pending = elim (Bool-cases s.receiver_closed) [
    | inl p ↦
        rw p
          (failing-IsReceiving t (record s { receiver_closed = true }) sound closed_resource_error)
    | inr p ↦
        rw
          (
            ensure_pass closed_resource_error (not s.receiver_closed) holding _ (ap not p),
            something_happened-eq (record holding { receiver_waiting = true }) sound,
            round-eq looking (roused-IsSound s sound) t (roused-IsFree s sound t free) is_filled
                pending,
            on_error-on_error (
                rounded looking (roused-IsSound s sound) t (roused-IsFree s sound t free)
                  (is_filled looking || is_closed looking) pending),
          )
          (looking-IsReceiving (
            rounded-IsReceiving looking (roused-IsSound s sound) t (roused-IsFree s sound t free) _
              pending refl (λ e. e)))
  ]

  receives : Bool → Option ℤ → Result (Unit {0}) × LockstepByteQueue
  receives pending max_bytes = (do check_max_bytes max_bytes; asking pending) holding

  receives-IsReceiving :
      (pending : Bool) (max_bytes : Option ℤ)
      → IsReceiving t s (on_error done_receiving (receives pending max_bytes))
  unfolding receives
  receives-IsReceiving pending max_bytes = elim (check-cases max_bytes holding) [
    | inl e ↦ rw e (asking-IsReceiving pending)
    | inr e ↦ rw e (failing-IsReceiving t s sound value_error)
  ]

  receive_some-eq :
      (pending : Bool) (max_bytes : Option ℤ) (b : Bool)
      → s.receiving ≡ b
      → receive_some pending t max_bytes s ≡ (
          if b
          then (raise busy_resource_error, s)
          else on_error done_receiving (receives pending max_bytes))
  unfolding receive_some receives
  receive_some-eq pending max_bytes b a =
      ap
        (λ (b : Bool).
          if b
          then (raise busy_resource_error, s)
          else on_error done_receiving (receives pending max_bytes))
        a

  pub receive_some-IsReceiving :
      (pending : Bool) (max_bytes : Option ℤ)
      → s.receiving ≡ false
      → IsReceiving t s (receive_some pending t max_bytes s)
  receive_some-IsReceiving pending max_bytes a =
      rw (receive_some-eq pending max_bytes false a) (receives-IsReceiving pending max_bytes)

  pub receive_some-busy :
      (pending : Bool) (max_bytes : Option ℤ)
      → s.receiving ≡ true
      → receive_some pending t max_bytes s ≡ (raise busy_resource_error, s)
  receive_some-busy pending max_bytes a = receive_some-eq pending max_bytes true a
