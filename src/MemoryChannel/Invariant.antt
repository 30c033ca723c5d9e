-- ===== src/MemoryChannel/Invariant.antt =====
-- The validity of a memory channel (trio/_channel.py) under `send_nowait` and `receive_nowait`, case
-- by case.
use mathlib.Core.Path.{subst}
use trio.Prelude.{
  ℕ, ◌≡◌, refl, sym, ap, ◌∙◌, true, false, Option, none, some, List, [], ◌∷◌, ◌++◌, ◌==◌, length,
  length-append, nonempty, mem, remove, arith, List-cases, Bool-cases, inl, inr,
}
use trio.Exec.{Result, ok}
use trio.Run.{Task}
use trio.MemoryChannel.{
  MemoryChannel, below, senders, deliver, admit, pop_left, send_nowait, receive_nowait,
}
use trio.MemoryChannel.Order.{
  IsWaiting, IsValid, freed, handed, admitted, receipt, handing, oldest, first, no_senders, unsent,
  no_values,
}

mem-remove_other : (t u : ℕ) (l : List ℕ) → (t == u) ≡ false → mem u (remove t l) ≡ mem u l
unfolding mem remove
mem-remove_other t u [] h = refl
mem-remove_other t u (x ∷ xs) h = ground (arith, mem-remove_other t u xs h)

other_task : (t u : ℕ) (l : List ℕ) → mem t l ≡ false → mem u l ≡ true → (t == u) ≡ false
other_task t u l h k = elim (Bool-cases (t == u)) [
  | inr e ↦ e
  | inl e ↦ ground (arith, ap (λ (x : ℕ). mem x l) (same e))
]
  where
    same : (t == u) ≡ true → t ≡ u
    same e = ground arith

-- A task that waits goes on waiting when another one is woken.
module _ (s : MemoryChannel) (t : Task) (w : IsWaiting s t) (o : Result (Option ℕ)) (u : Task)
    (ne : (t == u) ≡ false) where
  freed-IsWaiting : IsWaiting s u → IsWaiting (freed s t w o) u
  freed-IsWaiting x = record {
    end = x.end;
    asleep = ground (arith, x.asleep);
    listed = ground (arith, x.listed, mem-remove_other t u (s.ends w.end).tasks ne);
    suspended = ground (arith, x.suspended);
  }

-- Who waits depends on the endpoints and the scheduler alone.
again :
    {s : MemoryChannel} {u : Task} (xs : List ℕ) (l : List (Task × ℕ)) (r : List Task)
    → IsWaiting s u
    → IsWaiting (record s { data_queue = xs; send_tasks = l; receive_tasks = r }) u
again xs l r x = record {
  end = x.end;
  asleep = x.asleep;
  listed = x.listed;
  suspended = x.suspended;
}

nobody : {A : Type 0} (u : Task) (l : List Task) → l ≡ [] → mem u l ≡ true → A
unfolding mem
nobody u [] e h = cc
nobody u (x ∷ xs) e h = cc

no_contents : (xs ys : List ℕ) → xs ++ ys ≡ [] → (xs ≡ []) × (ys ≡ [])
no_contents [] ys e = (refl, e)
no_contents (x ∷ xs) ys e = cc

module _ {s : MemoryChannel} (valid : IsValid s) (e : ℕ)
    (open_end : (s.ends e).closed ≡ false) where
  open valid use {sending, receiving, starved, senders_once, receivers_once, full}

  -- A receiver waits only where nobody sends.
  alone : nonempty s.send_tasks ≡ true → s.receive_tasks ≡ []
  alone h = elim (List-cases s.receive_tasks) [
    | inl q ↦ q
    | inr (t, rest, q) ↦ ground (
      arith,
      ap nonempty (
          no_values s.send_tasks (no_contents s.data_queue _ (unsent valid e open_end t rest q)).1),
    )
  ]

  module _ (v : ℕ) (rest : List ℕ) (d : s.data_queue ≡ v ∷ rest) (q : s.send_tasks ≡ []) where
    popped-IsValid : IsValid (record s { data_queue = rest })
    popped-IsValid = record {
      sending = λ u h. again rest s.send_tasks s.receive_tasks (sending u h);
      receiving = λ u h. again rest s.send_tasks s.receive_tasks (receiving u h);
      starved = λ h. cc (d, (no_contents s.data_queue _ (starved h)).0);
      senders_once = senders_once;
      receivers_once = receivers_once;
      full = λ h. ground arith;
    }

  module _ (t : Task) (v : ℕ) (rest : List (Task × ℕ)) (q : s.send_tasks ≡ (t, v) ∷ rest) (x : ℕ)
      (xs : List ℕ) (d : s.data_queue ++ v ∷ [] ≡ x ∷ xs) where
    taken : MemoryChannel
    taken = record (admitted s t (oldest valid e open_end t v rest q) rest v) { data_queue = xs }

    same_length : nonempty rest ≡ true → length xs ≡ length s.data_queue
    same_length h = omega (arith, sym (length-append s.data_queue (v ∷ [])) ∙ ap length d)

    taken-IsValid : IsValid taken
    unfolding taken admitted mem
    taken-IsValid = record {
      sending = λ u h. again xs rest s.receive_tasks (
          freed-IsWaiting s t (oldest valid e open_end t v rest q) (ok none) u
            (other_task t u (senders rest) (rw q at senders_once).0 h)
            (sending u (rw q (ground arith))));
      receiving = λ u h. nobody u s.receive_tasks (alone (rw q refl)) h;
      starved = λ h. ground (arith, alone (rw q refl));
      senders_once = (rw q at senders_once).1;
      receivers_once = receivers_once;
      full = λ h. rw (same_length h) (full (rw q refl));
    }

  receive_open-IsValid : IsValid (receive_nowait e s).1
  unfolding receive_nowait admit pop_left taken
  receive_open-IsValid = elim (List-cases s.send_tasks) [
    | inl q ↦ elim (List-cases s.data_queue) [
      | inl d ↦ subst (λ x. IsValid x) (sym (nothing_received q d)) valid
      | inr (v, rest, d) ↦
          subst (λ x. IsValid x) (sym (value_received q v rest d)) (popped-IsValid v rest d q)
    ]
    | inr ((t, v), rest, q) ↦ elim (List-cases (s.data_queue ++ v ∷ [])) [
      | inl d ↦ cc ((no_contents s.data_queue (v ∷ []) d).1)
      | inr (x, xs, d) ↦
          subst (λ r. IsValid r.1) (sym (receipt valid e open_end t v rest q x xs d))
            (taken-IsValid t v rest q x xs d)
    ]
  ]
    where
      nothing_received : s.send_tasks ≡ [] → s.data_queue ≡ [] → (receive_nowait e s).1 ≡ s
      nothing_received q d = ground arith

      value_received :
          s.send_tasks ≡ []
          → (v : ℕ) (rest : List ℕ) → s.data_queue ≡ v ∷ rest
          → (receive_nowait e s).1 ≡ record s { data_queue = rest }
      value_received q v rest d = ground arith

  module _ (v : ℕ) (receivers : (s.open_receive_channels == 0) ≡ false) where
    module _ (t : Task) (rest : List Task) (q : s.receive_tasks ≡ t ∷ rest) where
      given : MemoryChannel
      given = handed s t (first valid e open_end t rest q) rest v

      given-IsValid : IsValid given
      unfolding given handed mem
      given-IsValid = record {
        sending = λ u h.
            nobody u (senders s.send_tasks)
              (ap senders (
                no_values s.send_tasks
                  (no_contents s.data_queue _ (unsent valid e open_end t rest q)).1))
              h;
        receiving = λ u h. again s.data_queue s.send_tasks rest (
            freed-IsWaiting s t (first valid e open_end t rest q) (ok (some v)) u
              (other_task t u rest (rw q at receivers_once).0 h)
              (receiving u (rw q (ground arith))));
        starved = λ h. unsent valid e open_end t rest q;
        senders_once = senders_once;
        receivers_once = (rw q at receivers_once).1;
        full = full;
      }

    module _ (room : below (length s.data_queue) s.max_buffer_size ≡ true)
        (none_waits : s.receive_tasks ≡ []) where
      buffered-IsValid : IsValid (record s { data_queue = s.data_queue ++ v ∷ [] })
      buffered-IsValid = record {
        sending = λ u h. again (s.data_queue ++ v ∷ []) s.send_tasks s.receive_tasks (sending u h);
        receiving =
            λ u h. again (s.data_queue ++ v ∷ []) s.send_tasks s.receive_tasks (receiving u h);
        starved = λ h. ground arith;
        senders_once = senders_once;
        receivers_once = receivers_once;
        full = λ h. ground (arith, no_senders valid e open_end room);
      }

    send_open-IsValid : IsValid (send_nowait e v s).1
    unfolding send_nowait deliver given
    send_open-IsValid = elim (List-cases s.receive_tasks) [
      | inr (t, rest, q) ↦
          subst (λ r. IsValid r.1) (sym (handing valid e open_end v receivers t rest q))
            (given-IsValid t rest q)
      | inl q ↦ elim (Bool-cases (below (length s.data_queue) s.max_buffer_size)) [
        | inl room ↦ subst (λ x. IsValid x) (sym (buffered q room)) (buffered-IsValid room q)
        | inr none_left ↦ subst (λ x. IsValid x) (sym (refused q none_left)) valid
      ]
    ]
      where
        buffered :
            s.receive_tasks ≡ []
            → below (length s.data_queue) s.max_buffer_size ≡ true
            → (send_nowait e v s).1 ≡ record s { data_queue = s.data_queue ++ v ∷ [] }
        buffered q room = ground arith

        refused :
            s.receive_tasks ≡ []
            → below (length s.data_queue) s.max_buffer_size ≡ false
            → (send_nowait e v s).1 ≡ s
        refused q none_left = ground arith

-- `receive_nowait` keeps a valid channel valid, whether it returns or raises: the tasks in its two
-- queues are suspended, each is there once and known to the endpoint at which it waits, a receiver
-- waits only while there is nothing to receive, and a sender only while the buffer is full.
pub receive_nowait-IsValid :
    (s : MemoryChannel) (e : ℕ) → IsValid s → IsValid (receive_nowait e s).1
unfolding receive_nowait
receive_nowait-IsValid s e valid = elim (Bool-cases (s.ends e).closed) [
  | inl c ↦ subst (λ x. IsValid x) (sym (refused c)) valid
  | inr c ↦ receive_open-IsValid valid e c
]
  where
    refused : (s.ends e).closed ≡ true → (receive_nowait e s).1 ≡ s
    refused c = rw (c, receive_nowait) refl

-- `send_nowait` keeps a valid channel valid in the same sense, whether it returns or raises.
pub send_nowait-IsValid : (s : MemoryChannel) (e v : ℕ) → IsValid s → IsValid (send_nowait e v s).1
unfolding send_nowait
send_nowait-IsValid s e v valid = elim (Bool-cases (s.ends e).closed) [
  | inl c ↦ subst (λ x. IsValid x) (sym (refused c)) valid
  | inr c ↦ elim (Bool-cases (s.open_receive_channels == 0)) [
    | inl n ↦ subst (λ x. IsValid x) (sym (broken c n)) valid
    | inr n ↦ send_open-IsValid valid e c v n
  ]
]
  where
    refused : (s.ends e).closed ≡ true → (send_nowait e v s).1 ≡ s
    refused c = rw (c, send_nowait) refl

    broken :
        (s.ends e).closed ≡ false
        → (s.open_receive_channels == 0) ≡ true
        → (send_nowait e v s).1 ≡ s
    broken c n = rw (c, send_nowait) (rw n refl)
