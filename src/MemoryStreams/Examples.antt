-- ===== src/MemoryStreams/Examples.antt =====
-- A pump between two buffers: tests, and an instance of the theorem.
use trio.Prelude.{◌≡◌, refl, arith, ◌∷◌, [], true, false, none, some, ◌==◌, if◌then◌else◌, pos}
use trio.Exec.{ok, raise, value_error, busy_resource_error, closed_resource_error}
use trio.ParkingLot.Reach.{initial, start, Reach-IsSound}
use trio.MemoryStreams.{ByteQueue, Streams, put, close, get, get_nowait, memory_stream_pump}
use trio.MemoryStreams.Pump.{IsPumped, memory_stream_pump-moved}

abbrev filled : ByteQueue
filled = record { bytes = 1 ∷ 2 ∷ 3 ∷ []; closed = false; lot = 0; held = false }

abbrev other : ByteQueue
other = record { bytes = 9 ∷ []; closed = false; lot = 1; held = false }

abbrev streams : Streams
streams = record { world = initial; queues = λ q. if q == 0 then filled else other }

no_limit : (get_nowait 0 (some (pos 0)) streams).0 ≡ raise value_error
unfolding get_nowait
no_limit = refl

two_fetches : (get_nowait 0 none (get 4 0 none streams).1).0 ≡ raise busy_resource_error
unfolding get_nowait get
two_fetches = refl

put_closed : (put 0 (5 ∷ []) (close 0 streams).1).0 ≡ raise closed_resource_error
unfolding put close
put_closed = refl

memory_stream_pump-moved_example :
    ((memory_stream_pump 0 1 (some (pos 2)) streams).0 ≡ ok true)
    × IsPumped streams (memory_stream_pump 0 1 (some (pos 2)) streams).1 0 1 (some (pos 2))
memory_stream_pump-moved_example =
    memory_stream_pump-moved streams (Reach-IsSound start) 0 1 (some (pos 2)) (omega arith) refl
      refl refl
