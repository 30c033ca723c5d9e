-- ===== src/Lockstep/Order.antt =====
-- Who sends and who receives through the lockstep queue of trio/testing/_memory_streams.py.
use trio.Prelude.{
  ℕ, ◌≡◌, inl, inr, refl, Bool, true, false, ◌||◌, List, [], ◌++◌, if◌then◌else◌, Bool-cases,
}
use trio.Exec.{Result, ok, raise}
use trio.Run.{Task}
use trio.ParkingLot.Invariant.{IsSound}
use trio.Lockstep.{LockstepByteQueue, is_closed, is_sent, is_filled}

-- Who holds the detector for sending: a task in the loop of `send_all`, in the checkpoint after it, or
-- in `wait_send_all_might_not_block`.
pub data Sender : Type 0 where
  no_sender send_loops send_leaves other_sender : Sender

pub data Receiver : Type 0 where
  no_receiver receive_loops receive_leaves : Receiver

abbrev pub is_sender : Sender → Bool
is_sender no_sender = false
is_sender _ = true

abbrev pub is_receiver : Receiver → Bool
is_receiver no_receiver = false
is_receiver _ = true

-- The queue, with all bytes that `send_all` has put into it and that `receive_some` has returned.
pub record Lockstep : Type 0 where
  pub queue : LockstepByteQueue
  pub sender : Sender
  pub receiver : Receiver
  pub sent : List ℕ
  pub received : List ℕ

pub record IsOrdered (y : Lockstep) : Type 0 where
  pub sound : IsSound y.queue.world
  pub sending : y.queue.sending ≡ is_sender y.sender
  pub receiving : y.queue.receiving ≡ is_receiver y.receiver
  pub order : y.received ++ y.queue.bytes ≡ y.sent
  pub emptied : y.sender ≡ send_leaves → (is_sent y.queue || is_closed y.queue) ≡ true
  pub filled : y.receiver ≡ receive_leaves → (is_filled y.queue || is_closed y.queue) ≡ true

-- After a round of a task: it has an exception, is in the checkpoint, where it is scheduled, or is parked.
abbrev pub sender_after : Task → Result (Unit {0}) × LockstepByteQueue → Sender
sender_after t (ok x, q) = if q.world.scheduled t then send_leaves else send_loops
sender_after t (raise e, q) = no_sender

abbrev pub other_after : Result (Unit {0}) × LockstepByteQueue → Sender
other_after (ok x, q) = other_sender
other_after (raise e, q) = no_sender

abbrev pub receiver_after : Task → Result (Unit {0}) × LockstepByteQueue → Receiver
receiver_after t (ok x, q) = if q.world.scheduled t then receive_leaves else receive_loops
receiver_after t (raise e, q) = no_receiver

-- A round leaves its task scheduled only where `fn` holds, or an end is closed.
abbrev pub IsPassed :
    (LockstepByteQueue → Bool) → Task → Result (Unit {0}) × LockstepByteQueue → Type 0
IsPassed fn t m = m.0 ≡ ok tt → m.1.world.scheduled t ≡ true → (fn m.1 || is_closed m.1) ≡ true

abbrev pub bytes_of : Result (List ℕ) → List ℕ
bytes_of (ok bs) = bs
bytes_of (raise e) = []

pub sender_after-leaves :
    (t : Task) (m : Result (Unit {0}) × LockstepByteQueue)
    → IsPassed is_sent t m
    → sender_after t m ≡ send_leaves
    → (is_sent m.1 || is_closed m.1) ≡ true
sender_after-leaves t (ok x, q) p h = elim (Bool-cases (q.world.scheduled t)) [
  | inl y ↦ p refl y
  | inr n ↦ cc (rw n at h)
]
sender_after-leaves t (raise e, q) p h = cc

pub receiver_after-leaves :
    (t : Task) (m : Result (Unit {0}) × LockstepByteQueue)
    → IsPassed is_filled t m
    → receiver_after t m ≡ receive_leaves
    → (is_filled m.1 || is_closed m.1) ≡ true
receiver_after-leaves t (ok x, q) p h = elim (Bool-cases (q.world.scheduled t)) [
  | inl y ↦ p refl y
  | inr n ↦ cc (rw n at h)
]
receiver_after-leaves t (raise e, q) p h = cc

abbrev pub has_returned : Result (Unit {0}) → Bool
has_returned (ok x) = true
has_returned (raise e) = false

-- What a call that sends has to leave: the bytes that were there and `new`, the other detector as it
-- was, and its own one held exactly if it returns, and its task scheduled only where the wait is over.
pub record IsSending (fn : LockstepByteQueue → Bool) (t : Task) (s : LockstepByteQueue)
    (new : List ℕ) (m : Result (Unit {0}) × LockstepByteQueue) : Type 0 where
  pub sound : IsSound m.1.world
  pub bytes : m.1.bytes ≡ s.bytes ++ new
  pub sender_closed : m.1.sender_closed ≡ s.sender_closed
  pub receiver_closed : m.1.receiver_closed ≡ s.receiver_closed
  pub receiving : m.1.receiving ≡ s.receiving
  pub held : m.1.sending ≡ has_returned m.0
  pub passed : IsPassed fn t m

pub record IsReceiving (t : Task) (s : LockstepByteQueue)
    (m : Result (Unit {0}) × LockstepByteQueue) : Type 0 where
  pub sound : IsSound m.1.world
  pub bytes : m.1.bytes ≡ s.bytes
  pub sender_closed : m.1.sender_closed ≡ s.sender_closed
  pub receiver_closed : m.1.receiver_closed ≡ s.receiver_closed
  pub sending : m.1.sending ≡ s.sending
  pub held : m.1.receiving ≡ has_returned m.0
  pub passed : IsPassed is_filled t m

pub sender_after-held :
    (t : Task) (m : Result (Unit {0}) × LockstepByteQueue)
    → is_sender (sender_after t m) ≡ has_returned m.0
sender_after-held t (ok x, q) = elim (Bool-cases (q.world.scheduled t)) [
  | inl y ↦ rw y
  | inr n ↦ rw n
]
sender_after-held t (raise e, q) = refl

pub other_after-held :
    (m : Result (Unit {0}) × LockstepByteQueue) → is_sender (other_after m) ≡ has_returned m.0
other_after-held (ok x, q) = refl
other_after-held (raise e, q) = refl

pub receiver_after-held :
    (t : Task) (m : Result (Unit {0}) × LockstepByteQueue)
    → is_receiver (receiver_after t m) ≡ has_returned m.0
receiver_after-held t (ok x, q) = elim (Bool-cases (q.world.scheduled t)) [
  | inl y ↦ rw y
  | inr n ↦ rw n
]
receiver_after-held t (raise e, q) = refl
