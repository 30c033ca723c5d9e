-- ===== src/Lockstep/Sending.antt =====
-- The calls that send through the lockstep queue of trio/testing/_memory_streams.py.
use trio.Prelude.{
  ℕ, ◌≡◌, inl, inr, refl, sym, ap, ◌∙◌, Bool, true, false, not, ◌&&◌, ◌||◌, List, [], ◌++◌,
  append-nil, if◌then◌else◌, nonempty, Bool-cases, arith,
}
use trio.Exec.{
  Exec, busy_resource_error, Error, ensure, modify, ◌>>◌, Result, raise, continue, ensure_pass,
  closed_resource_error, broken_resource_error, assertion_error,
}
use trio.Run.{Task, World, checkpoint_if_cancelled, cancel_shielded_checkpoint}
use trio.ParkingLot.{park}
use trio.ParkingLot.Invariant.{IsSound, IsFree}
use trio.Lockstep.{
  on_world, LockstepByteQueue, is_closed, is_sent, on_error, done_sending, something_happened,
  wait_round, send_round, send_all, writable_round, wait_send_all_might_not_block,
}
use trio.Lockstep.Phases.{
  checkpoint-eq, roused, something_happened-eq, roused-IsSound, roused-IsFree, round-eq, rounded,
  rounded-IsSound,
}
use trio.Lockstep.Order.{IsSending}

-- Whether the detector was held already is not in it.
holding-IsSending :
    (fn : LockstepByteQueue → Bool) (t : Task) (s : LockstepByteQueue) {new : List ℕ}
    {m : Result (Unit {0}) × LockstepByteQueue}
    → IsSending fn t (record s { sending = true }) new m
    → IsSending fn t s new m
holding-IsSending fn t s i = record {
  sound = i.sound;
  bytes = i.bytes;
  sender_closed = i.sender_closed;
  receiver_closed = i.receiver_closed;
  receiving = i.receiving;
  held = i.held;
  passed = i.passed;
}

failing-IsSending :
    (fn : LockstepByteQueue → Bool) (t : Task) (s : LockstepByteQueue)
    → IsSound s.world
    → (e : Error) → IsSending fn t s [] (raise e, record s { sending = false })
failing-IsSending fn t s sound e = record {
  sound = sound;
  bytes = sym (append-nil s.bytes);
  sender_closed = refl;
  receiver_closed = refl;
  receiving = refl;
  held = refl;
  passed = λ k. cc;
}

module _ (s : LockstepByteQueue) (sound : IsSound s.world) (t : Task)
    (free : IsFree s.world t) where
  sent-IsSending :
      (fn : LockstepByteQueue → Bool) (b pending : Bool)
      → s.sending ≡ true
      → (b ≡ true → (w : World) → (fn (record s { world = w }) || is_closed s) ≡ true)
      → IsSending fn t s [] (on_error done_sending (rounded s sound t free b pending))
  unfolding park
  sent-IsSending fn true true h p = record {
    sound = rounded-IsSound s sound t free true true;
    bytes = sym (append-nil s.bytes);
    sender_closed = refl;
    receiver_closed = refl;
    receiving = refl;
    held = refl;
    passed = λ k. cc;
  }
  sent-IsSending fn true false h p = record {
    sound = rounded-IsSound s sound t free true false;
    bytes = sym (append-nil s.bytes);
    sender_closed = refl;
    receiver_closed = refl;
    receiving = refl;
    held = h;
    passed = λ k e. p refl _;
  }
  sent-IsSending fn false pending h p = record {
    sound = rounded-IsSound s sound t free false pending;
    bytes = sym (append-nil s.bytes);
    sender_closed = refl;
    receiver_closed = refl;
    receiving = refl;
    held = h;
    passed = λ k e. cc (e, free.idle);
  }

  pub send_round-IsSending :
      (pending : Bool) → s.sending ≡ true → IsSending is_sent t s [] (send_round pending t s)
  unfolding send_round
  send_round-IsSending pending h =
      rw (round-eq s sound t free is_sent pending) (sent-IsSending is_sent _ pending h (λ e w. e))

  pub writable_round-IsSending :
      (pending : Bool)
      → s.sending ≡ true
      → IsSending (λ u. true) t s [] (writable_round pending t s)
  unfolding writable_round
  writable_round-IsSending pending h =
      rw (round-eq s sound t free (λ u. u.receiver_waiting) pending)
        (sent-IsSending (λ u. true) _ pending h (λ e w. refl))

module _ (s : LockstepByteQueue) (sound : IsSound s.world) (t : Task)
    (free : IsFree s.world t) where
  -- The queue with the bytes in it, when the waiters have been woken.
  abbrev pub put_in : List ℕ → LockstepByteQueue
  put_in new = record s { sending = true; bytes = s.bytes ++ new; world = roused s }

  put_in-IsSending :
      (new : List ℕ) {m : Result (Unit {0}) × LockstepByteQueue}
      → IsSending is_sent t (put_in new) [] m
      → IsSending is_sent t s new m
  put_in-IsSending new i = record {
    sound = i.sound;
    bytes = i.bytes ∙ append-nil (s.bytes ++ new);
    sender_closed = i.sender_closed;
    receiver_closed = i.receiver_closed;
    receiving = i.receiving;
    held = i.held;
    passed = i.passed;
  }

  abbrev holding : LockstepByteQueue
  holding = record s { sending = true }

  -- The part of `send_all` that has the detector.
  sends : Bool → List ℕ → Result (Unit {0}) × LockstepByteQueue
  sends pending new =
      (do
        (λ s. ensure closed_resource_error (not s.sender_closed) s)
        (λ s. ensure broken_resource_error (not s.receiver_closed) s)
        (λ s. ensure assertion_error (not (nonempty s.bytes)) s)
        modify (λ s. record s { bytes = s.bytes ++ new })
        something_happened
        wait_round is_sent pending t)
        holding

  sends-eq :
      (pending : Bool) (new : List ℕ)
      → s.sender_closed ≡ false
      → s.receiver_closed ≡ false
      → nonempty s.bytes ≡ false
      → sends pending new ≡ wait_round is_sent pending t (put_in new)
  unfolding sends
  sends-eq pending new p q r =
      ensure_pass closed_resource_error (not s.sender_closed) holding _ (ap not p)
      ∙ ensure_pass broken_resource_error (not s.receiver_closed) holding _ (ap not q)
      ∙ ensure_pass assertion_error (not (nonempty s.bytes)) holding _ (ap not r)
      ∙ ap
          (λ (r : Result (Unit {0}) × LockstepByteQueue).
            continue r (λ x. wait_round is_sent pending t))
          (something_happened-eq (record holding { bytes = s.bytes ++ new }) sound)

  put-IsSending :
      (pending : Bool) (new : List ℕ)
      → s.sender_closed ≡ false
      → s.receiver_closed ≡ false
      → nonempty s.bytes ≡ false
      → IsSending is_sent t s new (on_error done_sending (sends pending new))
  put-IsSending pending new p q r =
      rw
        (
          sends-eq pending new p q r,
          round-eq (put_in new) (roused-IsSound s sound) t (roused-IsFree s sound t free) is_sent
              pending,
        )
        (put_in-IsSending new (
          sent-IsSending (put_in new) (roused-IsSound s sound) t (roused-IsFree s sound t free)
            is_sent _ pending refl (λ e w. e)))

  -- Its bytes are put into the queue if this is empty and open at both ends.
  abbrev pub accepted : List ℕ → List ℕ
  accepted new = if not (is_closed s) && is_sent s then new else []

  accepted-all :
      (new : List ℕ)
      → s.sender_closed ≡ false
      → s.receiver_closed ≡ false
      → nonempty s.bytes ≡ false
      → accepted new ≡ new
  accepted-all new p q r = ground (arith, p, q, r)

  sends-IsSending :
      (pending : Bool) (new : List ℕ)
      → IsSending is_sent t s (accepted new) (on_error done_sending (sends pending new))
  unfolding sends
  sends-IsSending pending new = elim (Bool-cases s.sender_closed) [
    | inl p ↦ rw p (
        failing-IsSending is_sent t (record s { sender_closed = true }) sound closed_resource_error)
    | inr p ↦ elim (Bool-cases s.receiver_closed) [
      | inl q ↦
          rw (p, q)
            (failing-IsSending is_sent t
              (record s { sender_closed = false; receiver_closed = true }) sound
              broken_resource_error)
      | inr q ↦ elim (Bool-cases (nonempty s.bytes)) [
        | inl r ↦
            rw (p, q, r)
              (failing-IsSending is_sent t
                (record s { sender_closed = false; receiver_closed = false }) sound assertion_error)
        | inr r ↦ rw (accepted-all new p q r) (put-IsSending pending new p q r)
      ]
    ]
  ]

  send_all-eq :
      (pending : Bool) (new : List ℕ)
      → s.sending ≡ false
      → send_all pending t new s ≡ on_error done_sending (sends pending new)
  unfolding send_all sends
  send_all-eq pending new a =
      ap
        (λ (b : Bool).
          if b then (raise busy_resource_error, s) else on_error done_sending (sends pending new))
        a

  pub send_all-IsSending :
      (pending : Bool) (new : List ℕ)
      → s.sending ≡ false
      → IsSending is_sent t s (accepted new) (send_all pending t new s)
  send_all-IsSending pending new a = rw (send_all-eq pending new a) (sends-IsSending pending new)

  pub send_all-busy :
      (pending : Bool) (new : List ℕ)
      → s.sending ≡ true
      → send_all pending t new s ≡ (raise busy_resource_error, s)
  unfolding send_all sends
  send_all-busy pending new a =
      ap
        (λ (b : Bool).
          if b then (raise busy_resource_error, s) else on_error done_sending (sends pending new))
        a

  -- `wait_send_all_might_not_block` puts nothing into the queue.
  abbrev looks : Bool → Exec LockstepByteQueue Unit
  looks pending s =
      (if s.receiver_closed
          then (do checkpoint_if_cancelled pending; on_world (cancel_shielded_checkpoint t))
          else wait_round (λ s. s.receiver_waiting) pending t)
        s

  looks-IsSending :
      (pending : Bool)
      → IsSending (λ u. true) t s [] (on_error done_sending (looks pending holding))
  looks-IsSending pending = elim (Bool-cases s.receiver_closed) [
    | inl q ↦
        rw (q, checkpoint-eq (record holding { receiver_closed = true }) sound t free pending)
          (holding-IsSending (λ u. true) t (record s { receiver_closed = true })
            (sent-IsSending (record holding { receiver_closed = true }) sound t free (λ u. true)
              true pending refl (λ e w. refl)))
    | inr q ↦
        rw
          (
            q,
            round-eq (record holding { receiver_closed = false }) sound t free
                (λ u. u.receiver_waiting) pending,
          )
          (holding-IsSending (λ u. true) t (record s { receiver_closed = false })
            (sent-IsSending (record holding { receiver_closed = false }) sound t free (λ u. true) _
              pending refl (λ e w. refl)))
  ]

  checks : Bool → Result (Unit {0}) × LockstepByteQueue
  checks pending =
      (do (λ s. ensure closed_resource_error (not s.sender_closed) s); looks pending) holding

  checks-IsSending :
      (pending : Bool) → IsSending (λ u. true) t s [] (on_error done_sending (checks pending))
  unfolding checks
  checks-IsSending pending = elim (Bool-cases s.sender_closed) [
    | inl p ↦ rw p (
        failing-IsSending (λ u. true) t (record s { sender_closed = true }) sound
          closed_resource_error)
    | inr p ↦
        rw
          (ensure_pass closed_resource_error (not s.sender_closed) holding (λ x. looks pending)
            (ap not p))
          (looks-IsSending pending)
  ]

  writable-eq :
      (pending : Bool) (b : Bool)
      → s.sending ≡ b
      → wait_send_all_might_not_block pending t s
        ≡ (if b then (raise busy_resource_error, s) else on_error done_sending (checks pending))
  unfolding wait_send_all_might_not_block checks
  writable-eq pending b a =
      ap
        (λ (b : Bool).
          if b then (raise busy_resource_error, s) else on_error done_sending (checks pending))
        a

  pub writable-IsSending :
      (pending : Bool)
      → s.sending ≡ false
      → IsSending (λ u. true) t s [] (wait_send_all_might_not_block pending t s)
  writable-IsSending pending a = rw (writable-eq pending false a) (checks-IsSending pending)

  pub writable-busy :
      (pending : Bool)
      → s.sending ≡ true
      → wait_send_all_might_not_block pending t s ≡ (raise busy_resource_error, s)
  writable-busy pending a = writable-eq pending true a
