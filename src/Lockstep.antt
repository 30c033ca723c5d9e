-- ===== src/Lockstep.antt =====
-- trio/testing/_memory_streams.py: `_LockstepByteQueue`, the queue of `_LockstepSendStream` and
-- `_LockstepReceiveStream`. Bytes are numbers. `sending` and `receiving` say that the two
-- `ConflictDetector`s of trio/_util.py are held, `waiters` is the number of the parking lot.
pub mod Phases
pub mod Order
pub mod Sending
pub mod Receiving
pub mod Finishing
pub mod Moves
pub mod History
mod Examples
use trio.Prelude.{
  ℕ, Bool, true, false, not, ◌&&◌, ◌||◌, Option, none, some, List, [], ◌∷◌, ◌++◌, if◌then◌else◌,
  ltb, ℤ, is_neg, to_nat, length, nonempty, take, drop,
}
use trio.Exec.{
  closed_resource_error, broken_resource_error, busy_resource_error, value_error, assertion_error,
  Result, ok, raise, Exec, throw, modify, ensure, zoom, pure, ◌>>=◌, ◌>>◌,
}
use trio.Run.{Task, World, checkpoint_if_cancelled, cancel_shielded_checkpoint}
use trio.ParkingLot.{park, unpark_all}

pub record LockstepByteQueue : Type 0 where
  pub world : World
  pub bytes : List ℕ
  pub sender_closed : Bool
  pub receiver_closed : Bool
  pub receiver_waiting : Bool
  pub waiters : ℕ
  pub sending : Bool
  pub receiving : Bool

abbrev pub on_world : {A : Type 0} → Exec World A → Exec LockstepByteQueue A
on_world = zoom (λ s. s.world) (λ w s. record s { world = w })

unfoldable pub something_happened : Exec LockstepByteQueue Unit
unfolding unpark_all
something_happened = do (λ s. on_world (unpark_all s.waiters) s); pure tt

abbrev pub is_closed : LockstepByteQueue → Bool
is_closed s = s.sender_closed || s.receiver_closed

-- A round of the loop of `_wait_for` by the task `t`: it parks, or goes on to the checkpoint, where it
-- is suspended in the run queue, or is cancelled if `pending`.
unfoldable pub wait_round : (LockstepByteQueue → Bool) → Bool → Task → Exec LockstepByteQueue Unit
unfolding park checkpoint_if_cancelled cancel_shielded_checkpoint
wait_round fn pending t s =
    (if fn s || is_closed s
        then (do checkpoint_if_cancelled pending; on_world (cancel_shielded_checkpoint t))
        else on_world (park s.waiters t))
      s

unfoldable pub close_sender : Exec LockstepByteQueue Unit
unfolding something_happened
close_sender = do modify (λ s. record s { sender_closed = true }); something_happened

unfoldable pub close_receiver : Exec LockstepByteQueue Unit
unfolding something_happened
close_receiver = do modify (λ s. record s { receiver_closed = true }); something_happened

-- The ends of the `with` blocks, after an exception or in any case; that of the `finally` in it, too.
abbrev pub done_sending : LockstepByteQueue → LockstepByteQueue
done_sending s = record s { sending = false }

abbrev pub done_receiving : LockstepByteQueue → LockstepByteQueue
done_receiving s = record s { receiving = false }

abbrev pub done_waiting : LockstepByteQueue → LockstepByteQueue
done_waiting s = record s { receiver_waiting = false }

abbrev pub finally :
    {A : Type 0}
    → (LockstepByteQueue → LockstepByteQueue)
    → Result A × LockstepByteQueue
    → Result A × LockstepByteQueue
finally f (r, s) = (r, f s)

abbrev pub on_error :
    {A : Type 0}
    → (LockstepByteQueue → LockstepByteQueue)
    → Result A × LockstepByteQueue
    → Result A × LockstepByteQueue
on_error f (ok a, s) = (ok a, s)
on_error f (raise e, s) = (raise e, f s)

abbrev pub is_sent : LockstepByteQueue → Bool
is_sent s = not (nonempty s.bytes)

abbrev pub is_filled : LockstepByteQueue → Bool
is_filled s = nonempty s.bytes

-- `send_all` by the task `t`, up to where it is suspended first; the rounds that follow; and the end.
unfoldable pub send_round : Bool → Task → Exec LockstepByteQueue Unit
unfolding wait_round
send_round pending t s = on_error done_sending (wait_round is_sent pending t s)

unfoldable pub send_all : Bool → Task → List ℕ → Exec LockstepByteQueue Unit
unfolding something_happened wait_round
send_all pending t new s =
    if s.sending
    then (raise busy_resource_error, s)
    else on_error done_sending (
        (do
          (λ s. ensure closed_resource_error (not s.sender_closed) s)
          (λ s. ensure broken_resource_error (not s.receiver_closed) s)
          (λ s. ensure assertion_error (not (nonempty s.bytes)) s)
          modify (λ s. record s { bytes = s.bytes ++ new })
          something_happened
          wait_round is_sent pending t)
          (record s { sending = true }))

unfoldable pub send_finished : Exec LockstepByteQueue Unit
send_finished s = finally done_sending (
    (do
      (λ s. ensure closed_resource_error (not s.sender_closed) s)
      (λ s. ensure broken_resource_error (not (nonempty s.bytes && s.receiver_closed)) s))
      s)

-- Any exception in the wait of `send_all`, or of the next method.
unfoldable pub send_aborted : Exec LockstepByteQueue Unit
send_aborted = modify done_sending

-- `wait_send_all_might_not_block` in the same way.
unfoldable pub writable_round : Bool → Task → Exec LockstepByteQueue Unit
unfolding wait_round
writable_round pending t s =
    on_error done_sending (wait_round (λ s. s.receiver_waiting) pending t s)

unfoldable pub wait_send_all_might_not_block : Bool → Task → Exec LockstepByteQueue Unit
unfolding wait_round checkpoint_if_cancelled cancel_shielded_checkpoint
wait_send_all_might_not_block pending t s =
    if s.sending
    then (raise busy_resource_error, s)
    else on_error done_sending (
        (do
          (λ s. ensure closed_resource_error (not s.sender_closed) s)
          (λ s.
              (if s.receiver_closed
                  then (do checkpoint_if_cancelled pending; on_world (cancel_shielded_checkpoint t))
                  else wait_round (λ s. s.receiver_waiting) pending t)
                s))
          (record s { sending = true }))

-- `checked` says that it waited, and did not only pass a checkpoint.
unfoldable pub writable_finished : Bool → Exec LockstepByteQueue Unit
writable_finished checked s =
    finally done_sending (ensure closed_resource_error (not (checked && s.sender_closed)) s)

unfoldable pub check_max_bytes : Option ℤ → Exec LockstepByteQueue Unit
check_max_bytes none = pure tt
check_max_bytes (some n) = ensure value_error (not (is_neg n || ltb (to_nat n) 1))

-- `receive_some` in the same way.
unfoldable pub receive_round : Bool → Task → Exec LockstepByteQueue Unit
unfolding wait_round
receive_round pending t s =
    on_error (λ u. done_receiving (done_waiting u)) (wait_round is_filled pending t s)

unfoldable pub receive_some : Bool → Task → Option ℤ → Exec LockstepByteQueue Unit
unfolding something_happened wait_round check_max_bytes
receive_some pending t max_bytes s =
    if s.receiving
    then (raise busy_resource_error, s)
    else on_error done_receiving (
        (do
          check_max_bytes max_bytes
          (λ s. ensure closed_resource_error (not s.receiver_closed) s)
          modify (λ s. record s { receiver_waiting = true })
          something_happened
          (λ s. on_error done_waiting (wait_round is_filled pending t s)))
          (record s { receiving = true }))

abbrev pub limit : Option ℤ → List ℕ → ℕ
limit none bytes = length bytes
limit (some n) bytes = to_nat n

-- `del self._data[:max_bytes]`, and what it had.
abbrev pub take_bytes : Option ℤ → Exec LockstepByteQueue (List ℕ)
take_bytes max_bytes s =
    (do
      modify (λ u. record u { bytes = drop (limit max_bytes s.bytes) s.bytes })
      something_happened
      pure (take (limit max_bytes s.bytes) s.bytes))
      s

unfoldable pub receive_finished : Option ℤ → Exec LockstepByteQueue (List ℕ)
unfolding something_happened
receive_finished max_bytes s = finally done_receiving (
    (do
      modify done_waiting
      (λ s. ensure closed_resource_error (not s.receiver_closed) s)
      (λ s.
          (if nonempty s.bytes
              then take_bytes max_bytes
              else (do (λ s. ensure assertion_error s.sender_closed s); pure []))
            s))
      s)

unfoldable pub receive_aborted : Exec LockstepByteQueue Unit
receive_aborted = modify (λ u. done_receiving (done_waiting u))
