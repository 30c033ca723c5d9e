-- ===== src/MemoryChannel/Examples.antt =====
-- A channel without a buffer at which task 4 waits to send: tests, and instances of the theorems.
use trio.Prelude.{◌≡◌, refl, false, some, mem, insert_last, ◌==◌, pos, arith}
use trio.Exec.{ok, raise, would_block, end_of_channel, broken_resource_error}
use trio.Run.{wait_task_rescheduled, checkpoint_if_cancelled}
use trio.ParkingLot.Reach.{initial}
use trio.MemoryChannel.{
  MemoryChannel, open_memory_channel, send_nowait, send, receive_nowait, close_send, close_receive,
}
use trio.MemoryChannel.Invariant.{receive_nowait-IsValid, send_nowait-IsValid}
use trio.MemoryChannel.Order.{
  Receipt, Delivery, IsValid, receive_nowait-oldest, send_nowait-outcome,
}

-- Endpoint 0 sends and endpoint 1 receives.
abbrev fresh : MemoryChannel
fresh = (open_memory_channel initial (some (pos 0))).1

no_room : (send_nowait 0 8 fresh).0 ≡ raise would_block
unfolding open_memory_channel send_nowait
no_room = refl

end_seen : (receive_nowait 1 (close_send 0 fresh).1).0 ≡ raise end_of_channel
unfolding open_memory_channel close_send receive_nowait
end_seen = refl

nobody_receives : (send_nowait 0 8 (close_receive 1 fresh).1).0 ≡ raise broken_resource_error
unfolding open_memory_channel close_receive send_nowait
nobody_receives = refl

abbrev sending : MemoryChannel
sending = (send false 4 0 8 fresh).1

sending-IsValid : IsValid sending
unfolding open_memory_channel send send_nowait mem insert_last wait_task_rescheduled
    checkpoint_if_cancelled
sending-IsValid = record {
  sending =
      λ t h. record { end = 0; asleep = ground arith; listed = ground arith; suspended = refl };
  receiving = λ t h. cc;
  starved = λ h. cc;
  senders_once = (refl, tt);
  receivers_once = tt;
  full = λ _. refl;
}

sending_open : (sending.ends 1).closed ≡ false
unfolding open_memory_channel send checkpoint_if_cancelled
sending_open = refl

value_taken : (receive_nowait 1 sending).0 ≡ ok 8
unfolding open_memory_channel send receive_nowait checkpoint_if_cancelled
value_taken = refl

receive_nowait-oldest_example : Receipt sending 1
receive_nowait-oldest_example = receive_nowait-oldest sending-IsValid 1 sending_open

sender_open : (sending.ends 0).closed ≡ false
unfolding open_memory_channel send checkpoint_if_cancelled
sender_open = refl

one_receiver : (sending.open_receive_channels == 0) ≡ false
unfolding open_memory_channel send checkpoint_if_cancelled
one_receiver = refl

send_nowait-outcome_example : Delivery sending 0 9
send_nowait-outcome_example = send_nowait-outcome sending-IsValid 0 sender_open 9 one_receiver

receive_nowait-IsValid_example : IsValid (receive_nowait 1 sending).1
receive_nowait-IsValid_example = receive_nowait-IsValid sending 1 sending-IsValid

send_nowait-IsValid_example : IsValid (send_nowait 0 9 sending).1
send_nowait-IsValid_example = send_nowait-IsValid sending 0 9 sending-IsValid
