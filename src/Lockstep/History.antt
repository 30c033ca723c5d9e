-- ===== src/Lockstep/History.antt =====
-- Any history of a lockstep queue of trio/testing/_memory_streams.py.
use trio.Prelude.{
  ℕ, ◌≡◌, ◌≢◌, refl, sym, ap, ◌∙◌, Bool, true, false, not, ◌&&◌, Option, List, [], ◌++◌, append-nil,
  if◌then◌else◌, ℤ, arith,
}
use trio.Exec.{ok, raise, ensure-state, closed_resource_error, assertion_error}
use trio.Run.{Task, World}
use trio.ParkingLot.Invariant.{IsSound, IsFree}
use trio.Lockstep.{
  is_closed, is_sent, close_sender, close_receiver, send_round, send_all, send_finished,
  send_aborted, writable_round, wait_send_all_might_not_block, writable_finished, receive_round,
  receive_some, receive_finished, receive_aborted,
}
use trio.Lockstep.Phases.{roused, something_happened-eq, roused-IsSound}
use trio.Lockstep.Order.{
  Lockstep, no_sender, send_loops, send_leaves, other_sender, no_receiver, receive_loops,
  receive_leaves, is_sender, is_receiver, IsOrdered, sender_after, other_after, receiver_after,
  bytes_of, sender_after-leaves, sender_after-held, other_after-held,
}
use trio.Lockstep.Sending.{
  send_all-IsSending, send_all-busy, send_round-IsSending, writable_round-IsSending,
  writable-IsSending,
}
use trio.Lockstep.Receiving.{receive_some-IsReceiving, receive_round-IsReceiving}
use trio.Lockstep.Finishing.{receive_finished-IsTaken}
use trio.Lockstep.Moves.{
  sent-IsOrdered, received-IsOrdered, sent_nothing-IsOrdered, idle-IsOrdered, taken-IsOrdered,
  closed-IsOrdered, send_finished-queue, same-IsOrdered, other-stays, all_taken,
}

-- A task that calls, or goes on, runs, and so is in no parking lot and not scheduled. The rounds of a
-- loop may come at any time. Who finds a detector held changes nothing.
pub data Step (y : Lockstep) : Lockstep → Type 0 where
  sends :
      (pending : Bool) (t : Task) (new : List ℕ)
      → IsFree y.queue.world t
      → y.queue.sending ≡ false
      → Step y (record y {
        queue = (send_all pending t new y.queue).1;
        sender = sender_after t (send_all pending t new y.queue);
        sent = y.sent ++ (if not (is_closed y.queue) && is_sent y.queue then new else []);
      })
  is_busy_sending :
      (pending : Bool) (t : Task) (new : List ℕ)
      → IsFree y.queue.world t
      → y.queue.sending ≡ true
      → Step y (record y { queue = (send_all pending t new y.queue).1 })
  sends_on :
      (pending : Bool) (t : Task)
      → IsFree y.queue.world t
      → y.sender ≡ send_loops
      → Step y (record y {
        queue = (send_round pending t y.queue).1;
        sender = sender_after t (send_round pending t y.queue);
      })
  has_sent :
      y.sender ≡ send_leaves
      → Step y (record y { queue = (send_finished y.queue).1; sender = no_sender })
  stops_sending : Step y (record y { queue = (send_aborted y.queue).1; sender = no_sender })
  looks :
      (pending : Bool) (t : Task)
      → IsFree y.queue.world t
      → y.queue.sending ≡ false
      → Step y (record y {
        queue = (wait_send_all_might_not_block pending t y.queue).1;
        sender = other_after (wait_send_all_might_not_block pending t y.queue);
      })
  looks_on :
      (pending : Bool) (t : Task)
      → IsFree y.queue.world t
      → y.sender ≡ other_sender
      → Step y (record y {
        queue = (writable_round pending t y.queue).1;
        sender = other_after (writable_round pending t y.queue);
      })
  has_looked :
      (checked : Bool)
      → y.sender ≡ other_sender
      → Step y (record y { queue = (writable_finished checked y.queue).1; sender = no_sender })
  receives :
      (pending : Bool) (t : Task) (max_bytes : Option ℤ)
      → IsFree y.queue.world t
      → y.queue.receiving ≡ false
      → Step y (record y {
        queue = (receive_some pending t max_bytes y.queue).1;
        receiver = receiver_after t (receive_some pending t max_bytes y.queue);
      })
  receives_on :
      (pending : Bool) (t : Task)
      → IsFree y.queue.world t
      → y.receiver ≡ receive_loops
      → Step y (record y {
        queue = (receive_round pending t y.queue).1;
        receiver = receiver_after t (receive_round pending t y.queue);
      })
  has_received :
      (max_bytes : Option ℤ)
      → y.receiver ≡ receive_leaves
      → Step y (record y {
        queue = (receive_finished max_bytes y.queue).1;
        receiver = no_receiver;
        received = y.received ++ bytes_of (receive_finished max_bytes y.queue).0;
      })
  stops_receiving :
      Step y (record y { queue = (receive_aborted y.queue).1; receiver = no_receiver })
  closes_sender : Step y (record y { queue = (close_sender y.queue).1 })
  closes_receiver : Step y (record y { queue = (close_receiver y.queue).1 })
  elsewhere : (w : World) → IsSound w → Step y (record y { queue = record y.queue { world = w } })

Step-IsOrdered : {y z : Lockstep} → Step y z → IsOrdered y → IsOrdered z
unfolding send_aborted writable_finished receive_aborted close_sender close_receiver
Step-IsOrdered {y} (sends pending t new free a) h =
    let m = send_all pending t new y.queue in
    let i = send_all-IsSending y.queue h.sound t free pending new a in
    sent-IsOrdered h is_sent t _ m (sender_after t m) i (sender_after-held t m ∙ sym i.held)
      (sender_after-leaves t m i.passed)
Step-IsOrdered {y} (is_busy_sending pending t new free a) h =
    rw (send_all-busy y.queue h.sound t free pending new a) (same-IsOrdered h)
Step-IsOrdered {y} (sends_on pending t free l) h =
    let m = send_round pending t y.queue in
    let i = send_round-IsSending y.queue h.sound t free pending (h.sending ∙ ap is_sender l) in
    sent_nothing-IsOrdered h is_sent t m (sender_after t m) i (sender_after-held t m ∙ sym i.held)
      (sender_after-leaves t m i.passed)
Step-IsOrdered {y} (has_sent l) h = rw (send_finished-queue y.queue) (idle-IsOrdered h)
Step-IsOrdered stops_sending h = idle-IsOrdered h
Step-IsOrdered {y} (looks pending t free a) h =
    let m = wait_send_all_might_not_block pending t y.queue in
    let i = writable-IsSending y.queue h.sound t free pending a in
    sent_nothing-IsOrdered h (λ u. true) t m (other_after m) i (other_after-held m ∙ sym i.held)
      (other-stays m)
Step-IsOrdered {y} (looks_on pending t free l) h =
    let m = writable_round pending t y.queue in
    let i = writable_round-IsSending y.queue h.sound t free pending (h.sending ∙ ap is_sender l) in
    sent_nothing-IsOrdered h (λ u. true) t m (other_after m) i (other_after-held m ∙ sym i.held)
      (other-stays m)
Step-IsOrdered {y} (has_looked checked l) h =
    rw (ensure-state closed_resource_error (not (checked && y.queue.sender_closed)) y.queue)
      (idle-IsOrdered h)
Step-IsOrdered {y} (receives pending t max_bytes free a) h =
    received-IsOrdered h t (receive_some pending t max_bytes y.queue)
      (receive_some-IsReceiving y.queue h.sound t free pending max_bytes a)
Step-IsOrdered {y} (receives_on pending t free l) h =
    received-IsOrdered h t (receive_round pending t y.queue)
      (receive_round-IsReceiving y.queue h.sound t free pending (h.receiving ∙ ap is_receiver l))
Step-IsOrdered {y} (has_received max_bytes l) h =
    taken-IsOrdered h (receive_finished max_bytes y.queue)
      (receive_finished-IsTaken y.queue h.sound max_bytes)
Step-IsOrdered stops_receiving h = record {
  sound = h.sound;
  sending = h.sending;
  receiving = refl;
  order = h.order;
  emptied = h.emptied;
  filled = λ k. cc;
}
Step-IsOrdered {y} closes_sender h =
    rw (something_happened-eq (record y.queue { sender_closed = true }) h.sound) (
      closed-IsOrdered h (record y.queue { sender_closed = true; world = roused y.queue })
        (roused-IsSound y.queue h.sound) refl refl refl refl)
Step-IsOrdered {y} closes_receiver h =
    rw (something_happened-eq (record y.queue { receiver_closed = true }) h.sound) (
      closed-IsOrdered h (record y.queue { receiver_closed = true; world = roused y.queue })
        (roused-IsSound y.queue h.sound) refl refl refl (ground arith))
Step-IsOrdered (elsewhere w k) h = record {
  sound = k;
  sending = h.sending;
  receiving = h.receiving;
  order = h.order;
  emptied = h.emptied;
  filled = h.filled;
}

pub data History : Lockstep → Type 0 where
  begin :
      (w : World) (lot : ℕ)
      → IsSound w
      → History (record {
        queue = record {
          world = w;
          bytes = [];
          sender_closed = false;
          receiver_closed = false;
          receiver_waiting = false;
          waiters = lot;
          sending = false;
          receiving = false;
        };
        sender = no_sender;
        receiver = no_receiver;
        sent = [];
        received = [];
      })
  next : {y z : Lockstep} → History y → Step y z → History z

History-IsOrdered : {y : Lockstep} → History y → IsOrdered y
History-IsOrdered (begin w lot s) = record {
  sound = s;
  sending = refl;
  receiving = refl;
  order = refl;
  emptied = λ k. cc;
  filled = λ k. cc;
}
History-IsOrdered (next h x) = Step-IsOrdered x (History-IsOrdered h)

-- After any calls, cancellations and wakeups, what has been received, with what is in the queue behind
-- it, is what has been sent.
pub History-in_order_of_bytes : {y : Lockstep} → History y → y.received ++ y.queue.bytes ≡ y.sent
History-in_order_of_bytes h = (History-IsOrdered h).order

-- After any calls, where a round of the wait of `send_all` has sent its task to the checkpoint at the end
-- of the wait, and `send_all` then returns, all that has been sent has been received.
pub send_finished-received :
    {y : Lockstep}
    → History y
    → y.sender ≡ send_leaves
    → (send_finished y.queue).0 ≡ ok tt
    → y.received ≡ y.sent
send_finished-received {y} h l r =
    let o = History-IsOrdered h in
    sym (append-nil y.received)
    ∙ ap (λ (l : List ℕ). y.received ++ l) (sym (all_taken y.queue (o.emptied l) r))
    ∙ o.order

-- After any calls, where the wait of `receive_some` is over, its assertion holds.
pub receive_finished-asserted :
    {y : Lockstep}
    → History y
    → (max_bytes : Option ℤ) → y.receiver ≡ receive_leaves
    → (receive_finished max_bytes y.queue).0 ≢ raise assertion_error
receive_finished-asserted {y} h max_bytes l =
    let o = History-IsOrdered h in
    (receive_finished-IsTaken y.queue o.sound max_bytes).asserted (o.filled l)
