-- ===== src/Lockstep/Examples.antt =====
-- Runs of a lockstep queue of trio/testing/_memory_streams.py, with the tasks 7 and 8.
use trio.Prelude.{◌≡◌, refl, true, false, none, some, pos, [], ◌∷◌, ◌++◌, mem}
use trio.Exec.{busy_resource_error, broken_resource_error, raise}
use trio.ParkingLot.Reach.{initial, initial-IsFree, start, Reach-IsSound}
use trio.Lockstep.{
  LockstepByteQueue, send_all, send_round, send_finished, receive_some, receive_finished,
  close_receiver,
}
use trio.Lockstep.Order.{Lockstep, no_receiver, sender_after, receiver_after}
use trio.Lockstep.History.{
  History, begin, next, sends, sends_on, receives, has_received, elsewhere,
  History-in_order_of_bytes, send_finished-received,
}

abbrev fresh : LockstepByteQueue
fresh = record {
  world = initial;
  bytes = [];
  sender_closed = false;
  receiver_closed = false;
  receiver_waiting = false;
  waiters = 0;
  sending = false;
  receiving = false;
}

-- The task 7 sends two bytes and waits.
abbrev filled : LockstepByteQueue
filled = (send_all false 7 (1 ∷ 2 ∷ []) fresh).1

abbrev sent_two : Lockstep
sent_two = record {
  queue = filled;
  sender = sender_after 7 (send_all false 7 (1 ∷ 2 ∷ []) fresh);
  receiver = no_receiver;
  sent = 1 ∷ 2 ∷ [];
  received = [];
}

history : History sent_two
history =
    next (begin initial 0 (Reach-IsSound start))
      (sends false 7 (1 ∷ 2 ∷ []) (initial-IsFree 7) refl)

History-in_order_of_bytes_example : sent_two.received ++ filled.bytes ≡ sent_two.sent
History-in_order_of_bytes_example = History-in_order_of_bytes history

-- The scheduler has resumed all tasks.
abbrev resumed : LockstepByteQueue → LockstepByteQueue
resumed s = record s { world = initial }

-- The task 8 finds two bytes, and takes them.
abbrev found : Lockstep
found = record sent_two {
  queue = (receive_some false 8 none (resumed filled)).1;
  receiver = receiver_after 8 (receive_some false 8 none (resumed filled));
}

abbrev taken : Lockstep
taken = record found {
  queue = (receive_finished none found.queue).1;
  receiver = no_receiver;
  received = 1 ∷ 2 ∷ [];
}

-- And the task 7 goes on.
abbrev leaving : Lockstep
leaving = record taken {
  queue = (send_round false 7 (resumed taken.queue)).1;
  sender = sender_after 7 (send_round false 7 (resumed taken.queue));
}

found-History : History found
unfolding send_all mem
found-History =
    next (next history (elsewhere initial (Reach-IsSound start)))
      (receives false 8 none (initial-IsFree 8) refl)

leaving-History : History leaving
unfolding send_all receive_some receive_finished mem
leaving-History =
    next
      (next (next found-History (has_received none refl)) (elsewhere initial (Reach-IsSound start)))
      (sends_on false 7 (initial-IsFree 7) refl)

send_finished-received_example : leaving.received ≡ leaving.sent
unfolding send_all receive_some receive_finished send_round send_finished mem
send_finished-received_example = send_finished-received leaving-History refl refl

waits : filled.world.lots 0 ≡ 7 ∷ []
unfolding send_all mem
waits = refl

only_one_sends : (send_all false 8 (3 ∷ []) filled).0 ≡ raise busy_resource_error
unfolding send_all mem
only_one_sends = refl

-- The task 8 takes one byte, then the other, and the sender is woken each time.
abbrev one_taken : LockstepByteQueue
one_taken = (receive_finished (some (pos 1)) (receive_some false 8 (some (pos 1)) filled).1).1

takes_one : (one_taken.bytes ≡ 2 ∷ []) × (one_taken.world.scheduled 7 ≡ true)
unfolding send_all receive_some receive_finished mem
takes_one = (refl, refl)

nobody_receives : (send_finished (close_receiver filled).1).0 ≡ raise broken_resource_error
unfolding send_all close_receiver send_finished mem
nobody_receives = refl
