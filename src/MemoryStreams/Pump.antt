-- ===== src/MemoryStreams/Pump.antt =====
-- What `memory_stream_pump` of trio/testing/_memory_streams.py does to the bytes.
use trio.Prelude.{
  ℕ, zero, suc, take-length, ◌≡◌, ◌≢◌, refl, ◌∙◌, Bool, true, false, not, ◌&&◌, ◌||◌, Option, none,
  some, List, [], ◌∷◌, ◌++◌, if◌then◌else◌, ltb, ℤ, is_neg, to_nat, length, nonempty, take, drop,
  arith, append-nil, List-cases, inl, inr, Bool-cases,
}
use trio.Exec.{Result, ok, raise, would_block}
use trio.Run.{World}
use trio.ParkingLot.{unpark_all, size, set_lot}
use trio.ParkingLot.Wakeups.{schedule_all}
use trio.ParkingLot.Invariant.{IsSound}
use trio.ParkingLot.Steps.{unpark-eq}
use trio.MemoryStreams.{
  Streams, on_queue, limit, starved, close, put, check_max_bytes, get_impl, enter, exit, get_nowait,
  get_data_nowait, put_data, put_eof, and_exit, passed_on, pass_on, memory_stream_pump,
}

-- What `max_bytes` may be: None, or at least 1.
abbrev pub allowed : Option ℤ → Bool
allowed none = true
allowed (some n) = not (is_neg n || ltb (to_nat n) 1)

-- The world once all tasks of a lot have been woken.
abbrev pub emptied : ℕ → World → World
emptied lot w =
    schedule_all (take (length (w.lots lot)) (w.lots lot))
      (set_lot lot (drop (length (w.lots lot)) (w.lots lot)) w)

unpark_all-eq :
    (w : World) (lot : ℕ)
    → IsSound w
    → unpark_all lot w ≡ (ok (take (length (w.lots lot)) (w.lots lot)), emptied lot w)
unfolding unpark_all size
unpark_all-eq w lot s = unpark-eq s lot (length (w.lots lot))

module _ (s : Streams) (sound : IsSound s.world) (q : ℕ) where
  put-eq :
      (bs : List ℕ)
      → (s.queues q).closed ≡ false
      → put q bs s ≡ (
        ok tt,
        record (on_queue q (λ b. record b { bytes = b.bytes ++ bs }) s) {
          world = emptied (s.queues q).lot s.world;
        },
      )
  unfolding put
  put-eq bs e = ground (arith, unpark_all-eq s.world (s.queues q).lot sound)

  close-eq : close q s ≡ (
    ok tt,
    record (on_queue q (λ b. record b { closed = true }) s) {
      world = emptied (s.queues q).lot s.world;
    },
  )
  unfolding close
  close-eq = ground (arith, unpark_all-eq s.world (s.queues q).lot sound)

checked_lem : (m : Option ℤ) (s : Streams) → allowed m ≡ true → check_max_bytes m s ≡ (ok tt, s)
unfolding check_max_bytes
checked_lem none s h = refl
checked_lem (some n) s h = rw h

-- The queue without the bytes that are taken.
abbrev cut : ℕ → Option ℤ → Streams → Streams
cut q m s = on_queue q (λ b. record b { bytes = drop (limit m b.bytes) b.bytes }) s

nonempty-take :
    (n : ℕ) (xs : List ℕ) → ltb n 1 ≡ false → nonempty xs ≡ true → nonempty (take n xs) ≡ true
nonempty-take zero xs h e = ground arith
nonempty-take (suc n) [] h e = e
nonempty-take (suc n) (x ∷ xs) h e = refl

some_taken :
    (m : Option ℤ) (xs : List ℕ)
    → allowed m ≡ true
    → nonempty xs ≡ true
    → nonempty (take (limit m xs) xs) ≡ true
some_taken none xs h e = rw (take-length xs) e
some_taken (some n) xs h e = nonempty-take (to_nat n) xs (ground arith) e

get_impl_some :
    (s : Streams) (q : ℕ) (m : Option ℤ) (b : ℕ) (bs : List ℕ)
    → allowed m ≡ true
    → (s.queues q).bytes ≡ b ∷ bs
    → get_impl q m s ≡ (ok (take (limit m (s.queues q).bytes) (s.queues q).bytes), cut q m s)
unfolding get_impl
get_impl_some s q m b bs h e = ground (arith, some_taken m (s.queues q).bytes h)

get_impl_none :
    (s : Streams) (q : ℕ) (m : Option ℤ)
    → (s.queues q).closed ≡ true
    → (s.queues q).bytes ≡ []
    → get_impl q m s ≡ (ok [], s)
unfolding get_impl
get_impl_none s q m c e = ground arith

abbrev entered : ℕ → Streams → Streams
entered q s = on_queue q (λ b. record b { held = true }) s

get_nowait-eq :
    (s : Streams) (q : ℕ) (m : Option ℤ)
    → (s.queues q).held ≡ false
    → allowed m ≡ true
    → get_nowait q m s
      ≡ and_exit q (
          if starved (s.queues q)
          then (raise would_block, entered q s)
          else get_impl q m (entered q s))
unfolding get_nowait enter
get_nowait-eq s q m free good = ground (arith, checked_lem m (entered q s) good)

pub record IsPumped (s v : Streams) (q r : ℕ) (m : Option ℤ) : Type 0 where
  pub target :
      (v.queues r).bytes
      ≡ (s.queues r).bytes ++ take (limit m (s.queues q).bytes) (s.queues q).bytes
  pub source : (v.queues q).bytes ≡ drop (limit m (s.queues q).bytes) (s.queues q).bytes
  pub ended : (v.queues r).closed ≡ (not (nonempty (s.queues q).bytes) && (s.queues q).closed)
  pub released : (v.queues q).held ≡ false
  pub kept : (v.queues q).closed ≡ (s.queues q).closed

take_nothing : (n : ℕ) (xs : List ℕ) → xs ≡ [] → take n xs ≡ []
take_nothing zero xs e = refl
take_nothing (suc n) xs e = rw e

drop_nothing : (n : ℕ) (xs : List ℕ) → xs ≡ [] → drop n xs ≡ xs
drop_nothing zero xs e = refl
drop_nothing (suc n) xs e = rw e

module _ (s : Streams) (sound : IsSound s.world) (q r : ℕ) (m : Option ℤ) (ne : q ≢ r)
    (free : (s.queues q).held ≡ false) (open_end : (s.queues r).closed ≡ false)
    (good : allowed m ≡ true) where
  abbrev pump : Result Bool × Streams
  pump = memory_stream_pump q r m s

  module _ (e : (s.queues q).bytes ≡ []) where
    nothing_moved :
        (s.queues r).bytes
        ≡ (s.queues r).bytes ++ take (limit m (s.queues q).bytes) (s.queues q).bytes
    nothing_moved = rw (take_nothing (limit m (s.queues q).bytes) _ e, append-nil)

    starved_state : Streams
    starved_state = exit q (entered q s)

    pump_starved-eq : (s.queues q).closed ≡ false → pump ≡ (ok false, starved_state)
    unfolding memory_stream_pump get_data_nowait pass_on starved_state
    pump_starved-eq c = rw (get_nowait-eq s q m free good) (ground arith)

    pump_starved : (s.queues q).closed ≡ false → (pump.0 ≡ ok false) × IsPumped s pump.1 q r m
    unfolding exit starved_state
    pump_starved c = rw (pump_starved-eq c) (
      refl,
      record {
        target = ground (arith, nothing_moved);
        source = ground (arith, drop_nothing (limit m (s.queues q).bytes) _ e);
        ended = ground arith;
        released = ground arith;
        kept = ground arith;
      },
    )

    fetched_end : (s.queues q).closed ≡ true → get_nowait q m s ≡ (ok [], starved_state)
    unfolding starved_state
    fetched_end c =
        rw (get_nowait-eq s q m free good) (ground (arith, get_impl_none (entered q s) q m))

    ended_world : World
    ended_world = emptied (starved_state.queues r).lot s.world

    ended_state : Streams
    ended_state = record (on_queue r (λ b. record b { closed = true }) starved_state) {
      world = ended_world;
    }

    pump_ended-eq : (s.queues q).closed ≡ true → pump ≡ (ok true, ended_state)
    unfolding memory_stream_pump get_data_nowait pass_on put_eof ended_state ended_world
        starved_state exit
    pump_ended-eq c = rw (fetched_end c) (rw (close-eq starved_state sound r))

    pump_ended : (s.queues q).closed ≡ true → (pump.0 ≡ ok true) × IsPumped s pump.1 q r m
    unfolding exit ended_state starved_state
    pump_ended c = rw (pump_ended-eq c) (
      refl,
      record {
        target = ground (arith, nothing_moved);
        source = ground (arith, drop_nothing (limit m (s.queues q).bytes) _ e);
        ended = ground arith;
        released = ground arith;
        kept = ground arith;
      },
    )

  module _ (b : ℕ) (bs : List ℕ) (e : (s.queues q).bytes ≡ b ∷ bs) where
    moving : List ℕ
    moving = take (limit m (s.queues q).bytes) (s.queues q).bytes

    cut_state : Streams
    cut_state = exit q (cut q m (entered q s))

    fetched : get_nowait q m s ≡ (ok moving, cut_state)
    unfolding cut_state moving
    fetched =
        rw (get_nowait-eq s q m free good)
          (ground (arith, get_impl_some (entered q s) q m b bs good))

    filled : Streams
    filled = record (on_queue r (λ b. record b { bytes = b.bytes ++ moving }) cut_state) {
      world = emptied (cut_state.queues r).lot s.world;
    }

    cut_open : (cut_state.queues r).closed ≡ false
    unfolding cut_state exit
    cut_open = ground arith

    pass_moving :
        (xs : List ℕ)
        → nonempty xs ≡ true
        → pass_on r (ok xs, cut_state) ≡ passed_on (put r xs cut_state)
    unfolding pass_on put_data
    pass_moving [] h = cc
    pass_moving (x ∷ xs) h = refl

    pump_bytes-eq : pump ≡ (ok true, filled)
    unfolding memory_stream_pump get_data_nowait filled moving cut_state exit
    pump_bytes-eq = rw fetched (
        rw (pass_moving moving (some_taken m (s.queues q).bytes good (rw e)))
          (rw (put-eq cut_state sound r moving cut_open)))

    pump_bytes : (pump.0 ≡ ok true) × IsPumped s pump.1 q r m
    unfolding exit filled cut_state moving
    pump_bytes = rw pump_bytes-eq (
      refl,
      record {
        target = ground arith;
        source = ground arith;
        ended = ground arith;
        released = ground arith;
        kept = ground arith;
      },
    )

  -- In a sound world, from a queue that nobody fetches from to another one that is not closed, and
  -- with no limit or one of at least one byte, `memory_stream_pump` moves the oldest bytes up to
  -- the limit to the end of the other queue, or, where there are none, passes the end of the
  -- stream on, and tells whether it did one of these, the end of the stream included; no byte is
  -- lost or repeated, and it raises nothing.
  pub memory_stream_pump-moved :
      (pump.0 ≡ ok (nonempty (s.queues q).bytes || (s.queues q).closed)) × IsPumped s pump.1 q r m
  memory_stream_pump-moved = elim (List-cases (s.queues q).bytes) [
    | inr (b, bs, e) ↦ ((pump_bytes b bs e).0 ∙ ground arith, (pump_bytes b bs e).1)
    | inl e ↦ elim (Bool-cases (s.queues q).closed) [
      | inl c ↦ ((pump_ended e c).0 ∙ ground arith, (pump_ended e c).1)
      | inr c ↦ ((pump_starved e c).0 ∙ ground arith, (pump_starved e c).1)
    ]
  ]
