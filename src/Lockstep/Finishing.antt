-- ===== src/Lockstep/Finishing.antt =====
-- The end of `receive_some` of trio/testing/_memory_streams.py's lockstep queue.
use trio.Prelude.{
  ℕ, ◌≡◌, ◌≢◌, inl, inr, refl, ap, Bool, true, false, ◌||◌, Option, List, [], ◌++◌, if◌then◌else◌,
  ℤ, nonempty, take, drop, take-append-drop, Bool-cases, arith,
}
use trio.Exec.{Result, ok, raise, closed_resource_error, assertion_error}
use trio.ParkingLot.Invariant.{IsSound}
use trio.Lockstep.{
  LockstepByteQueue, is_closed, is_filled, done_receiving, done_waiting, limit, receive_finished,
}
use trio.Lockstep.Phases.{roused, something_happened-eq, roused-IsSound}
use trio.Lockstep.Order.{bytes_of}

-- The bytes that are returned are the first ones of the queue, and no others are taken.
pub record IsTaken (s : LockstepByteQueue) (m : Result (List ℕ) × LockstepByteQueue) : Type 0 where
  pub sound : IsSound m.1.world
  pub bytes : bytes_of m.0 ++ m.1.bytes ≡ s.bytes
  pub emptied : nonempty s.bytes ≡ false → nonempty m.1.bytes ≡ false
  pub sender_closed : m.1.sender_closed ≡ s.sender_closed
  pub receiver_closed : m.1.receiver_closed ≡ s.receiver_closed
  pub sending : m.1.sending ≡ s.sending
  pub receiving : m.1.receiving ≡ false
  pub asserted : (is_filled s || is_closed s) ≡ true → m.0 ≢ raise assertion_error

module _ (s : LockstepByteQueue) (sound : IsSound s.world) (max_bytes : Option ℤ) where
  abbrev end : LockstepByteQueue → LockstepByteQueue
  end u = done_receiving (done_waiting u)

  nothing-IsTaken :
      (r : Result (List ℕ))
      → bytes_of r ≡ []
      → ((is_filled s || is_closed s) ≡ true → r ≢ raise assertion_error)
      → IsTaken s (r, end s)
  nothing-IsTaken r e a = record {
    sound = sound;
    bytes = ap (λ (l : List ℕ). l ++ s.bytes) e;
    emptied = λ n. n;
    sender_closed = refl;
    receiver_closed = refl;
    sending = refl;
    receiving = refl;
    asserted = a;
  }

  -- What is left.
  abbrev shorter : LockstepByteQueue
  shorter = record (done_waiting s) { bytes = drop (limit max_bytes s.bytes) s.bytes }

  abbrev answer : Bool → Bool → Bool → Result (List ℕ) × LockstepByteQueue
  answer receiver_closed filled sender_closed =
      if receiver_closed
      then (raise closed_resource_error, end s)
      else (if filled
          then (
            ok (take (limit max_bytes s.bytes) s.bytes),
            done_receiving (record shorter { world = roused shorter }),
          )
          else (if sender_closed then (ok [], end s) else (raise assertion_error, end s)))

  receive_finished-eq :
      receive_finished max_bytes s ≡ answer s.receiver_closed (nonempty s.bytes) s.sender_closed
  unfolding receive_finished
  receive_finished-eq = elim (Bool-cases s.receiver_closed) [
    | inl p ↦ rw p
    | inr p ↦ elim (Bool-cases (nonempty s.bytes)) [
      | inl q ↦ rw (p, q, something_happened-eq (record shorter { receiver_closed = false }) sound)
      | inr q ↦ elim (Bool-cases s.sender_closed) [ inl r ↦ rw (p, q, r) | inr r ↦ rw (p, q, r) ]
    ]
  ]

  closed_false :
      s.receiver_closed ≡ false
      → nonempty s.bytes ≡ false
      → s.sender_closed ≡ false
      → (is_filled s || is_closed s) ≡ false
  closed_false p q r = ground (arith, p, q, r)

  answer-IsTaken :
      (c f d : Bool)
      → s.receiver_closed ≡ c
      → nonempty s.bytes ≡ f
      → s.sender_closed ≡ d
      → IsTaken s (answer c f d)
  answer-IsTaken true f d p q r = nothing-IsTaken (raise closed_resource_error) refl (λ a b. cc)
  answer-IsTaken false true d p q r = record {
    sound = roused-IsSound shorter sound;
    bytes = take-append-drop (limit max_bytes s.bytes) s.bytes;
    emptied = λ n. cc;
    sender_closed = refl;
    receiver_closed = refl;
    sending = refl;
    receiving = refl;
    asserted = λ a b. cc;
  }
  answer-IsTaken false false true p q r = nothing-IsTaken (ok []) refl (λ a b. cc)
  answer-IsTaken false false false p q r =
      nothing-IsTaken (raise assertion_error) refl (λ a b. cc (closed_false p q r, a))

  pub receive_finished-IsTaken : IsTaken s (receive_finished max_bytes s)
  receive_finished-IsTaken =
      rw receive_finished-eq
        (answer-IsTaken s.receiver_closed (nonempty s.bytes) s.sender_closed refl refl refl)
