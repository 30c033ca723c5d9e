-- ===== src/Lockstep/Moves.antt =====
-- What single calls do to what was sent and received, for the lockstep queue of trio/testing/_memory_streams.py.
use trio.Prelude.{
  ℕ, ◌≡◌, ◌⊎◌, inl, inr, refl, sym, ap, ◌∙◌, Bool, true, false, ◌&&◌, ◌||◌, List, [], ◌++◌,
  append_assoc, append-nil, nonempty, List-cases, Bool-cases, arith,
}
use trio.Exec.{Result, ok, raise, closed_resource_error, broken_resource_error}
use trio.Run.{Task}
use trio.ParkingLot.Invariant.{IsSound}
use trio.Lockstep.{LockstepByteQueue, is_closed, is_sent, is_filled, send_finished}
use trio.Lockstep.Order.{
  Lockstep, Sender, no_sender, send_leaves, no_receiver, is_sender, IsOrdered, other_after,
  receiver_after, bytes_of, receiver_after-leaves, receiver_after-held, IsSending, IsReceiving,
}
use trio.Lockstep.Finishing.{IsTaken}

still_filled :
    (s u : LockstepByteQueue) (new : List ℕ)
    → u.bytes ≡ s.bytes ++ new
    → u.sender_closed ≡ s.sender_closed
    → u.receiver_closed ≡ s.receiver_closed
    → (is_filled s || is_closed s) ≡ true
    → (is_filled u || is_closed u) ≡ true
still_filled s u new b c d h = elim (List-cases s.bytes) [
  | inl e ↦ ground (arith, c, d, h, ap nonempty e)
  | inr (x, xs, e) ↦ ground (arith, ap nonempty (b ∙ ap (λ (l : List ℕ). l ++ new) e))
]

still_sent :
    (s u : LockstepByteQueue)
    → (nonempty s.bytes ≡ false → nonempty u.bytes ≡ false)
    → u.sender_closed ≡ s.sender_closed
    → u.receiver_closed ≡ s.receiver_closed
    → (is_sent s || is_closed s) ≡ true
    → (is_sent u || is_closed u) ≡ true
still_sent s u b c d h = ground (arith, b, c, d, h)

module _ {y : Lockstep} (h : IsOrdered y) where
  -- A sender has the bytes `new` put into the queue, which is empty and open if there are any.
  pub sent-IsOrdered :
      (fn : LockstepByteQueue → Bool) (t : Task) (new : List ℕ)
      (m : Result (Unit {0}) × LockstepByteQueue) (f : Sender)
      → IsSending fn t y.queue new m
      → is_sender f ≡ m.1.sending
      → (f ≡ send_leaves → (is_sent m.1 || is_closed m.1) ≡ true)
      → IsOrdered (record y { queue = m.1; sender = f; sent = y.sent ++ new })
  sent-IsOrdered fn t new m f i e l = record {
    sound = i.sound;
    sending = sym e;
    receiving = i.receiving ∙ h.receiving;
    order =
        ap (λ (l : List ℕ). y.received ++ l) i.bytes
        ∙ sym (append_assoc y.received y.queue.bytes new)
        ∙ ap (λ (l : List ℕ). l ++ new) h.order;
    emptied = l;
    filled =
        λ k. still_filled y.queue m.1 new i.bytes i.sender_closed i.receiver_closed (h.filled k);
  }

  pub received-IsOrdered :
      (t : Task) (m : Result (Unit {0}) × LockstepByteQueue)
      → IsReceiving t y.queue m
      → IsOrdered (record y { queue = m.1; receiver = receiver_after t m })
  received-IsOrdered t m i = record {
    sound = i.sound;
    sending = i.sending ∙ h.sending;
    receiving = i.held ∙ sym (receiver_after-held t m);
    order = ap (λ (l : List ℕ). y.received ++ l) i.bytes ∙ h.order;
    emptied = λ k.
        still_sent y.queue m.1 (λ n. ap nonempty i.bytes ∙ n) i.sender_closed i.receiver_closed
          (h.emptied k);
    filled = receiver_after-leaves t m i.passed;
  }

  pub sent_nothing-IsOrdered :
      (fn : LockstepByteQueue → Bool) (t : Task) (m : Result (Unit {0}) × LockstepByteQueue)
      (f : Sender)
      → IsSending fn t y.queue [] m
      → is_sender f ≡ m.1.sending
      → (f ≡ send_leaves → (is_sent m.1 || is_closed m.1) ≡ true)
      → IsOrdered (record y { queue = m.1; sender = f })
  sent_nothing-IsOrdered fn t m f i e l =
      let o = sent-IsOrdered fn t [] m f i e l in
      record {
        sound = o.sound;
        sending = o.sending;
        receiving = o.receiving;
        order = o.order ∙ append-nil y.sent;
        emptied = l;
        filled = o.filled;
      }

  pub idle-IsOrdered :
      IsOrdered (record y { queue = record y.queue { sending = false }; sender = no_sender })
  idle-IsOrdered = record {
    sound = h.sound;
    sending = refl;
    receiving = h.receiving;
    order = h.order;
    emptied = λ k. cc;
    filled = h.filled;
  }

  pub taken-IsOrdered :
      (m : Result (List ℕ) × LockstepByteQueue)
      → IsTaken y.queue m
      → IsOrdered
          (record y { queue = m.1; receiver = no_receiver; received = y.received ++ bytes_of m.0 })
  taken-IsOrdered m i = record {
    sound = i.sound;
    sending = i.sending ∙ h.sending;
    receiving = i.receiving;
    order =
        append_assoc y.received (bytes_of m.0) m.1.bytes
        ∙ ap (λ (l : List ℕ). y.received ++ l) i.bytes
        ∙ h.order;
    emptied = λ k. still_sent y.queue m.1 i.emptied i.sender_closed i.receiver_closed (h.emptied k);
    filled = λ k. cc;
  }

  -- Closing an end wakes all.
  pub closed-IsOrdered :
      (u : LockstepByteQueue)
      → IsSound u.world
      → u.bytes ≡ y.queue.bytes
      → u.sending ≡ y.queue.sending
      → u.receiving ≡ y.queue.receiving
      → is_closed u ≡ true
      → IsOrdered (record y { queue = u })
  closed-IsOrdered u w b s r c = record {
    sound = w;
    sending = s ∙ h.sending;
    receiving = r ∙ h.receiving;
    order = ap (λ (l : List ℕ). y.received ++ l) b ∙ h.order;
    emptied = λ k. ground (arith, c);
    filled = λ k. ground (arith, c);
  }

pub send_finished-queue :
    (s : LockstepByteQueue) → (send_finished s).1 ≡ record s { sending = false }
unfolding send_finished
send_finished-queue s = elim (Bool-cases s.sender_closed) [
  | inl p ↦ rw p
  | inr p ↦ elim (Bool-cases (nonempty s.bytes && s.receiver_closed)) [
    | inl q ↦ rw (p, q)
    | inr q ↦ rw (p, q)
  ]
]

pub same-IsOrdered : {y : Lockstep} → IsOrdered y → IsOrdered (record y { queue = y.queue })
same-IsOrdered h = h

pub other-stays :
    (m : Result (Unit {0}) × LockstepByteQueue)
    → other_after m ≡ send_leaves
    → (is_sent m.1 || is_closed m.1) ≡ true
other-stays (ok x, q) k = cc
other-stays (raise e, q) k = cc

other_closed :
    (s : LockstepByteQueue)
    → s.sender_closed ≡ false
    → is_closed s ≡ true
    → s.receiver_closed ≡ true
other_closed s p c = ground (arith, p, c)

fails_with_bytes :
    (s : LockstepByteQueue)
    → nonempty s.bytes ≡ true
    → is_closed s ≡ true
    → ((send_finished s).0 ≡ raise closed_resource_error)
      ⊎ ((send_finished s).0 ≡ raise broken_resource_error)
unfolding send_finished
fails_with_bytes s n c = elim (Bool-cases s.sender_closed) [
  | inl p ↦ inl (rw p)
  | inr p ↦ inr (rw (p, n, other_closed s p c))
]

-- `send_all` returns only if nothing is left.
pub all_taken :
    (s : LockstepByteQueue)
    → (is_sent s || is_closed s) ≡ true
    → (send_finished s).0 ≡ ok tt
    → s.bytes ≡ []
all_taken s h r = elim (List-cases s.bytes) [
  | inl e ↦ e
  | inr (x, xs, e) ↦ elim (fails_with_bytes s (ap nonempty e) (ground (arith, h, ap nonempty e))) [
    | inl f ↦ cc (f, r)
    | inr f ↦ cc (f, r)
  ]
]
