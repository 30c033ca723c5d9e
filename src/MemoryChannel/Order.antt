-- ===== src/MemoryChannel/Order.antt =====
-- The memory channel of trio/_channel.py as a queue: what is in the buffer, followed by the values
-- of the senders that wait, in the order in which they came.
use trio.Prelude.{
  Distinct, ℕ, ◌≡◌, refl, ap, ◌∙◌, sym, true, false, Option, none, some, List, [], ◌∷◌, ◌++◌,
  if◌then◌else◌, ◌==◌, ==_refl, length, nonempty, mem, remove, arith, take, append-nil,
  append_assoc, List-cases, Bool-cases, ◌⊎◌, inl, inr,
}
use trio.Exec.{would_block, end_of_channel, Result, ok, raise}
use trio.Run.{Task, schedule, reschedule}
use trio.MemoryChannel.{
  MemoryChannel, below, senders, set_tasks, leave, forget, deliver, admit, pop_left, send_nowait,
  receive_nowait,
}

abbrev pub values : List (Task × ℕ) → List ℕ
values [] = []
values ((t, v) ∷ l) = v ∷ values l

-- What has been sent and has not been received.
abbrev pub contents : MemoryChannel → List ℕ
contents s = s.data_queue ++ values s.send_tasks

-- The task `t` is suspended, and it is known to the endpoint at which it waits.
pub record IsWaiting (s : MemoryChannel) (t : Task) : Type 0 where
  pub end : ℕ
  pub asleep : s.world.sleep_data t ≡ some end
  pub listed : mem t (s.ends end).tasks ≡ true
  pub suspended : s.world.scheduled t ≡ false

-- Who is in the queues waits, and is there once; a receiver waits only while there is nothing to
-- receive, and a sender only while the buffer is full.
pub record IsValid (s : MemoryChannel) : Type 0 where
  pub sending : (t : Task) → mem t (senders s.send_tasks) ≡ true → IsWaiting s t
  pub receiving : (t : Task) → mem t s.receive_tasks ≡ true → IsWaiting s t
  pub starved : nonempty s.receive_tasks ≡ true → contents s ≡ []
  pub senders_once : Distinct (senders s.send_tasks)
  pub receivers_once : Distinct s.receive_tasks
  pub full : nonempty s.send_tasks ≡ true → below (length s.data_queue) s.max_buffer_size ≡ false

-- The channel once the waiting task `t` has been taken out and rescheduled with `o`.
abbrev pub woken : Task → ℕ → Result (Option ℕ) → MemoryChannel → MemoryChannel
woken t e o s = record (set_tasks e (remove t (s.ends e).tasks) s) { world = schedule t o s.world }

module _ (s : MemoryChannel) (t : Task) (w : IsWaiting s t) where
  abbrev pub freed : Result (Option ℕ) → MemoryChannel
  freed o = woken t w.end o s

  module _ (rest : List Task) (v : ℕ) where
    -- The oldest receiver gets the value.
    unfoldable pub handed : MemoryChannel
    handed = record (freed (ok (some v))) { receive_tasks = rest }

    deliver_waiting : nonempty s.data_queue ≡ false → deliver v (t ∷ rest) s ≡ (ok tt, handed)
    unfolding deliver forget leave reschedule handed
    deliver_waiting e = rw (e, w.asleep, w.listed, w.suspended)

  module _ (rest : List (Task × ℕ)) (v : ℕ) where
    -- The value of the oldest sender is in the buffer.
    unfoldable pub admitted : MemoryChannel
    admitted = record (freed (ok none)) { send_tasks = rest; data_queue = s.data_queue ++ v ∷ [] }

    admit_waiting : admit ((t, v) ∷ rest) s ≡ (ok tt, admitted)
    unfolding admit forget leave reschedule admitted
    admit_waiting = rw (w.asleep, w.listed, w.suspended)

nothing_buffered : (xs ys : List ℕ) → xs ++ ys ≡ [] → nonempty xs ≡ false
nothing_buffered [] ys e = refl
nothing_buffered (x ∷ xs) ys e = cc

pub no_values : (l : List (Task × ℕ)) → values l ≡ [] → l ≡ []
no_values [] e = refl
no_values (x ∷ l) e = cc

-- The senders that a receipt lets go.
abbrev pub let_go : MemoryChannel → List Task
let_go s = take 1 (senders s.send_tasks)

-- How `receive_nowait` ends: with an exception and nothing changed, or with the first value of the
-- contents.
abbrev pub Receipt : MemoryChannel → ℕ → Type 0
Receipt s e =
    ((contents s ≡ [])
      × (receive_nowait e s
          ≡ (raise (if s.open_send_channels == 0 then end_of_channel else would_block), s)))
    ⊎ ((v : ℕ) × (r : MemoryChannel) × (receive_nowait e s ≡ (ok v, r))
        × (contents s ≡ v ∷ contents r)
        × (senders s.send_tasks ≡ let_go s ++ senders r.send_tasks)
        × (r.world.runq ≡ s.world.runq ++ let_go s))

-- How `send_nowait` ends: the value is with a receiver, or last of the contents, or refused.
abbrev pub Delivery : MemoryChannel → ℕ → ℕ → Type 0
Delivery s e v =
    ((t : Task) × (rest : List Task) × (r : MemoryChannel) × (s.receive_tasks ≡ t ∷ rest)
      × (send_nowait e v s ≡ (ok tt, r))
      × (contents s ≡ [])
      × (contents r ≡ [])
      × (r.receive_tasks ≡ rest)
      × (r.world.next_send t ≡ ok (some v))
      × (r.world.runq ≡ s.world.runq ++ t ∷ []))
    ⊎ (((s.receive_tasks ≡ [])
          × (r : MemoryChannel) × (send_nowait e v s ≡ (ok tt, r))
          × (contents r ≡ contents s ++ v ∷ [])
          × (r.world ≡ s.world))
        ⊎ ((s.receive_tasks ≡ [])
            × (below (length s.data_queue) s.max_buffer_size ≡ false)
            × (send_nowait e v s ≡ (raise would_block, s))))

module _ {s : MemoryChannel} (valid : IsValid s) (e : ℕ)
    (open_end : (s.ends e).closed ≡ false) where
  pub oldest :
      (t : Task) (v : ℕ) (rest : List (Task × ℕ)) → s.send_tasks ≡ (t, v) ∷ rest → IsWaiting s t
  unfolding mem
  oldest t v rest q = valid.sending t (rw (q, ==_refl t))

  pub first : (t : Task) (rest : List Task) → s.receive_tasks ≡ t ∷ rest → IsWaiting s t
  unfolding mem
  first t rest q = valid.receiving t (rw (q, ==_refl t))

  pub unsent : (t : Task) (rest : List Task) → s.receive_tasks ≡ t ∷ rest → contents s ≡ []
  unsent t rest q = valid.starved (rw q)

  pub no_senders : below (length s.data_queue) s.max_buffer_size ≡ true → s.send_tasks ≡ []
  no_senders room = elim (List-cases s.send_tasks) [
    | inl q ↦ q
    | inr (x, xs, q) ↦ ground (arith, valid.full)
  ]

  pub receipt :
      (t : Task) (v : ℕ) (rest : List (Task × ℕ)) (q : s.send_tasks ≡ (t, v) ∷ rest) (x : ℕ)
      (xs : List ℕ)
      → s.data_queue ++ v ∷ [] ≡ x ∷ xs
      → receive_nowait e s
        ≡ (ok x, record (admitted s t (oldest t v rest q) rest v) { data_queue = xs })
  unfolding receive_nowait admit pop_left admitted
  receipt t v rest q x xs d =
      rw (open_end, q) (rw (admit_waiting s t (oldest t v rest q) rest v) (rw d))

  -- At an open endpoint of a valid channel, `receive_nowait` takes the oldest of the values that
  -- have been sent and not received, the waiting senders' values included, and lets the oldest
  -- sender go; where there is none it changes nothing, and raises EndOfChannel if no send endpoint
  -- is open and WouldBlock otherwise.
  pub receive_nowait-oldest : Receipt s e
  unfolding receive_nowait admit pop_left admitted mem
  receive_nowait-oldest = elim (List-cases s.send_tasks) [
    | inl q ↦ elim (List-cases s.data_queue) [
      | inl d ↦ inl (rw (q, d), ground arith)
      | inr (v, rest, d) ↦
          inr (v, record s { data_queue = rest }, ground arith, rw (q, d), rw q, rw (q, append-nil))
    ]
    | inr ((t, v), rest, q) ↦ elim (List-cases s.data_queue) [
      | inl d ↦ inr (
        v,
        record (admitted s t (oldest t v rest q) rest v) { data_queue = [] },
        receipt t v rest q v [] (rw d),
        rw (q, d),
        rw q,
        rw q,
      )
      | inr (x, xs, d) ↦ inr (
        x,
        record (admitted s t (oldest t v rest q) rest v) { data_queue = xs ++ v ∷ [] },
        receipt t v rest q x (xs ++ v ∷ []) (rw d),
        rw (q, d) (sym (ap (◌∷◌ x) (append_assoc xs (v ∷ []) (values rest)))),
        rw q,
        rw q,
      )
    ]
  ]

  module _ (v : ℕ) (receivers : (s.open_receive_channels == 0) ≡ false) where
    pub handing :
        (t : Task) (rest : List Task) (q : s.receive_tasks ≡ t ∷ rest)
        → send_nowait e v s ≡ (ok tt, handed s t (first t rest q) rest v)
    unfolding send_nowait
    handing t rest q =
        rw (open_end, receivers)
          (ap (λ l. deliver v l s) q
            ∙ deliver_waiting s t (first t rest q) rest v (nothing_buffered _ _ (unsent t rest q)))

    -- At an open endpoint of a valid channel that has a receiver, `send_nowait` hands the value to
    -- the oldest task that waits for one, or else puts it behind all that is there; where nobody
    -- waits for a value and the buffer is full it changes nothing and raises WouldBlock.
    pub send_nowait-outcome : Delivery s e v
    unfolding send_nowait deliver handed mem
    send_nowait-outcome = elim (List-cases s.receive_tasks) [
      | inr (t, rest, q) ↦ inl (
        t,
        rest,
        handed s t (first t rest q) rest v,
        q,
        handing t rest q,
        unsent t rest q,
        unsent t rest q,
        refl,
        ground arith,
        refl,
      )
      | inl q ↦ elim (Bool-cases (below (length s.data_queue) s.max_buffer_size)) [
        | inl room ↦ inr (
            inl (
              q,
              record s { data_queue = s.data_queue ++ v ∷ [] },
              ground arith,
              rw (no_senders room)
                  (rw (append-nil s.data_queue, append-nil (s.data_queue ++ v ∷ []))),
              refl,
            ))
        | inr none_left ↦ inr (inr (q, none_left, ground arith))
      ]
    ]
