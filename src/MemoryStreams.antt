-- ===== src/MemoryStreams.antt =====
-- trio/testing/_memory_streams.py: `_UnboundedByteQueue`, the buffer of `MemorySendStream` and
-- `MemoryReceiveStream`, and `memory_stream_pump` between two of them; `ConflictDetector` of
-- trio/_util.py. A queue is a number, at which `queues` has its fields; bytes are numbers.
pub mod Pump
mod Examples
use trio.Prelude.{
  ℕ, Bool, true, false, not, ◌&&◌, ◌||◌, Option, none, some, List, [], ◌∷◌, ◌++◌, if◌then◌else◌,
  ltb, ℤ, is_neg, to_nat, length, nonempty, take, drop, update,
}
use trio.Exec.{
  Error, would_block, closed_resource_error, broken_resource_error, busy_resource_error,
  value_error, assertion_error, Result, ok, raise, Exec, throw, modify, ensure, zoom, ◌>>=◌, ◌>>◌,
  pure,
}
use trio.Run.{Task, World, cancel_shielded_checkpoint}
use trio.ParkingLot.{park, unpark_all}

-- `held` is the field of the queue's `ConflictDetector`.
pub record ByteQueue : Type 0 where
  pub bytes : List ℕ
  pub closed : Bool
  pub lot : ℕ
  pub held : Bool

pub record Streams : Type 0 where
  pub world : World
  pub queues : ℕ → ByteQueue

abbrev pub on_world : {A : Type 0} → Exec World A → Exec Streams A
on_world = zoom (λ s. s.world) (λ w s. record s { world = w })

abbrev pub on_queue : ℕ → (ByteQueue → ByteQueue) → Streams → Streams
on_queue q f s = record s { queues = update s.queues q (f (s.queues q)) }

pub new_queue : ℕ → ByteQueue
new_queue lot = record { bytes = []; closed = false; lot = lot; held = false }

unfoldable pub close : ℕ → Exec Streams Unit
unfolding unpark_all
close q s =
    (do
      modify (on_queue q (λ b. record b { closed = true }))
      on_world (unpark_all (s.queues q).lot)
      pure tt)
      s

unfoldable pub close_and_wipe : ℕ → Exec Streams Unit
unfolding close
close_and_wipe q = do modify (on_queue q (λ b. record b { bytes = [] })); close q

unfoldable pub put : ℕ → List ℕ → Exec Streams Unit
unfolding unpark_all
put q new_bytes s =
    if (s.queues q).closed
    then (raise closed_resource_error, s)
    else (do
      modify (on_queue q (λ b. record b { bytes = b.bytes ++ new_bytes }))
      on_world (unpark_all (s.queues q).lot)
      pure tt)
        s

-- `max_bytes` is an integer or None.
unfoldable pub check_max_bytes : Option ℤ → Exec Streams Unit
check_max_bytes none = pure tt
check_max_bytes (some n) = ensure value_error (not (is_neg n || ltb (to_nat n) 1))

abbrev pub limit : Option ℤ → List ℕ → ℕ
limit none bytes = length bytes
limit (some n) bytes = to_nat n

unfoldable pub get_impl : ℕ → Option ℤ → Exec Streams (List ℕ)
get_impl q max_bytes s =
    (do
      ensure assertion_error (b.closed || nonempty b.bytes)
      (λ s.
          (if nonempty b.bytes
              then (do
                modify
                    (on_queue q (λ b. record b { bytes = drop (limit max_bytes b.bytes) b.bytes }))
                ensure assertion_error (nonempty (take (limit max_bytes b.bytes) b.bytes))
                pure (take (limit max_bytes b.bytes) b.bytes))
              else pure [])
            s))
      s
  where
    b : ByteQueue
    b = s.queues q

-- `ConflictDetector.__enter__` and `__exit__`.
unfoldable pub enter : ℕ → Exec Streams Unit
enter q s =
    if (s.queues q).held
    then (raise busy_resource_error, s)
    else (ok tt, on_queue q (λ b. record b { held = true }) s)

unfoldable pub exit : ℕ → Streams → Streams
exit q s = on_queue q (λ b. record b { held = false }) s

-- The end of a `with` block, also after an exception; or only after an exception.
abbrev pub and_exit : {A : Type 0} → ℕ → Result A × Streams → Result A × Streams
and_exit q (r, s) = (r, exit q s)

abbrev pub exit_on_error : {A : Type 0} → ℕ → Result A × Streams → Result A × Streams
exit_on_error q (ok a, s) = (ok a, s)
exit_on_error q (raise e, s) = (raise e, exit q s)

-- `not self._closed and not self._data`
abbrev pub starved : ByteQueue → Bool
starved b = not b.closed && not (nonempty b.bytes)

unfoldable pub get_nowait : ℕ → Option ℤ → Exec Streams (List ℕ)
unfolding enter exit check_max_bytes get_impl
get_nowait q max_bytes = do
  enter q
  (λ s. and_exit q (
      (do
        check_max_bytes max_bytes
        (λ s. (if starved (s.queues q) then throw would_block else get_impl q max_bytes) s))
        s))

-- `get` by the task `t` up to the point where it is suspended, with the detector held: parked, or
-- in a checkpoint at the end of the run queue.
unfoldable pub get : Task → ℕ → Option ℤ → Exec Streams Unit
unfolding enter exit check_max_bytes park cancel_shielded_checkpoint
get t q max_bytes = do
  enter q
  (λ s. exit_on_error q (
      (do
        check_max_bytes max_bytes
        (λ s.
            (if starved (s.queues q)
                then on_world (park (s.queues q).lot t)
                else on_world (cancel_shielded_checkpoint t))
              s))
        s))

-- The rest of `get`, once the task is resumed; and its end where that is with an exception.
unfoldable pub get_finished : ℕ → Option ℤ → Exec Streams (List ℕ)
unfolding get_impl exit
get_finished q max_bytes s = and_exit q (get_impl q max_bytes s)

unfoldable pub get_aborted : ℕ → Exec Streams Unit
unfolding exit
get_aborted q = modify (exit q)

-- The methods of the two streams that go straight to their queues.
unfoldable pub get_data_nowait : ℕ → Option ℤ → Exec Streams (List ℕ)
unfolding get_nowait
get_data_nowait = get_nowait

unfoldable pub put_data : ℕ → List ℕ → Exec Streams Unit
unfolding put
put_data = put

unfoldable pub put_eof : ℕ → Exec Streams Unit
unfolding close
put_eof = close

-- The two `try` statements of `memory_stream_pump`.
abbrev pub passed_on : Result (Unit {0}) × Streams → Result Bool × Streams
passed_on (ok _, s) = (ok true, s)
passed_on (raise closed_resource_error, s) = (raise broken_resource_error, s)
passed_on (raise e, s) = (raise e, s)

pass_on : ℕ → Result (List ℕ) × Streams → Result Bool × Streams
unfolding put_data put_eof
pass_on r (ok [], s) = passed_on (put_eof r s)
pass_on r (ok (b ∷ bs), s) = passed_on (put_data r (b ∷ bs) s)
pass_on r (raise would_block, s) = (ok false, s)
pass_on r (raise e, s) = (raise e, s)

-- The first number is the send stream's queue, the second one the receive stream's.
unfoldable pub memory_stream_pump : ℕ → ℕ → Option ℤ → Exec Streams Bool
unfolding get_data_nowait pass_on
memory_stream_pump q r max_bytes s = pass_on r (get_data_nowait q max_bytes s)
