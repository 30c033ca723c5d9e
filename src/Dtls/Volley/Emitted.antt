-- ===== src/Dtls/Volley/Emitted.antt =====
-- The state of `encode_volley` of trio/_dtls.py, as the records that it has emitted.
use trio.Prelude.{
  ℕ, ◌+◌, ◌-◌, ◌≤◌, ◌≡◌, refl, sym, ap, ◌∙◌, List, [], ◌∷◌, ◌++◌, ◌==◌, length, arith, append_assoc,
  append-nil, length-append, Bool-cases, inl, inr,
}
use trio.Exec.{Result, ok, raise}
use trio.Dtls.Record.{Record}
use trio.Dtls.Record.RoundTrip.{IsRecord, AllRecords, all_bytes, yields_all, bytes_of}
use trio.Dtls.Volley.{Message, add_record, then_go_on, decode_loop, Encoder, make_room}

abbrev pub concat : List (List ℕ) → List ℕ
concat [] = []
concat (p ∷ ps) = p ++ concat ps

-- No packet has more than `mtu` bytes.
abbrev pub AllSmall : ℕ → List (List ℕ) → Type 0
AllSmall mtu [] = Unit {0}
AllSmall mtu (p ∷ ps) = (length p ≤ mtu) × AllSmall mtu ps

AllSmall-snoc :
    (mtu : ℕ) (ps : List (List ℕ)) (p : List ℕ)
    → AllSmall mtu ps
    → length p ≤ mtu
    → AllSmall mtu (ps ++ p ∷ [])
AllSmall-snoc mtu [] p a h = (h, tt)
AllSmall-snoc mtu (q ∷ ps) p (b, a) h = (b, AllSmall-snoc mtu ps p a h)

concat-snoc : (ps : List (List ℕ)) (p : List ℕ) → concat (ps ++ p ∷ []) ≡ concat ps ++ p
concat-snoc [] p = append-nil p
concat-snoc (q ∷ ps) p = rw (concat-snoc ps p) (sym (append_assoc q (concat ps) p))

all_bytes-snoc :
    (rs : List Record) (r : Record) → all_bytes (rs ++ r ∷ []) ≡ all_bytes rs ++ bytes_of r
unfolding all_bytes
all_bytes-snoc [] r = append-nil (bytes_of r)
all_bytes-snoc (q ∷ rs) r =
    rw (all_bytes-snoc rs r) (sym (append_assoc (bytes_of q) (all_bytes rs) (bytes_of r)))

AllRecords-snoc :
    (rs : List Record) (r : Record) → AllRecords rs → IsRecord r → AllRecords (rs ++ r ∷ [])
AllRecords-snoc [] r v h = (h, tt)
AllRecords-snoc (q ∷ rs) r (b, v) h = (b, AllRecords-snoc rs r v h)

then_go_on-ok : (m : Result (List Message)) → then_go_on m (λ ms. ok ms) ≡ m
then_go_on-ok (ok ms) = refl
then_go_on-ok (raise e) = refl

abbrev OkStays :
    (List Message → Result (List Message))
    → (List Message → Result (List Message))
    → Record
    → Type 0
OkStays first both r =
    (start ms : List Message) → first start ≡ ok ms → both start ≡ add_record r ms

go_on-snoc :
    (first both : List Message → Result (List Message)) (r : Record)
    → OkStays first both r
    → (m : Result (List Message)) (ms : List Message) → then_go_on m first ≡ ok ms
    → then_go_on m both ≡ add_record r ms
go_on-snoc first both r k (ok start) ms h = k start ms h
go_on-snoc first both r k (raise e) ms h = cc h

decode_loop-snoc :
    (rs : List Record) (r : Record)
    → OkStays (decode_loop (yields_all rs)) (decode_loop (yields_all (rs ++ r ∷ []))) r
unfolding decode_loop
decode_loop-snoc [] r start ms h = then_go_on-ok (add_record r start) ∙ cc h
decode_loop-snoc (q ∷ rs) r start ms h =
    go_on-snoc (decode_loop (yields_all rs)) (decode_loop (yields_all (rs ++ r ∷ []))) r
      (decode_loop-snoc rs r) (add_record q start) ms h

-- The packets so far have the records `rs`, which decode to the messages `ms`.
pub record Emitted (mtu : ℕ) (s : Encoder) (rs : List Record) (ms : List Message) : Type 0 where
  pub bytes : concat s.packets ++ s.packet ≡ all_bytes rs
  pub valid : AllRecords rs
  pub small : AllSmall mtu s.packets
  pub last : length s.packet ≤ mtu
  pub decoded : decode_loop (yields_all rs) [] ≡ ok ms

module _ {mtu : ℕ} {s : Encoder} {rs : List Record} {ms : List Message}
    (e : Emitted mtu s rs ms) where
  abbrev pub flushed : Encoder
  flushed = record s { packets = s.packets ++ s.packet ∷ []; packet = [] }

  pub flush-Emitted : Emitted mtu flushed rs ms
  flush-Emitted = record {
    bytes = append-nil _ ∙ concat-snoc s.packets s.packet ∙ e.bytes;
    valid = e.valid;
    small = AllSmall-snoc mtu s.packets s.packet e.small e.last;
    last = omega arith;
    decoded = e.decoded;
  }

  -- A record that fits is added to the packet.
  pub emit-Emitted :
      (r : Record) (seq : ℕ) (ms' : List Message)
      → IsRecord r
      → length s.packet + length (bytes_of r) ≤ mtu
      → add_record r ms ≡ ok ms'
      → Emitted mtu
          (record s { packet = s.packet ++ bytes_of r; record_seq = seq })
          (rs ++ r ∷ [])
          ms'
  emit-Emitted r seq ms' v room a = record {
    bytes =
        sym (append_assoc (concat s.packets) s.packet (bytes_of r))
        ∙ ap (λ l. l ++ bytes_of r) e.bytes
        ∙ sym (all_bytes-snoc rs r);
    valid = AllRecords-snoc rs r e.valid v;
    small = e.small;
    last = omega (arith, length-append s.packet (bytes_of r));
    decoded = decode_loop-snoc rs r [] ms e.decoded ∙ a;
  }

  -- After `make_room` the bytes fit.
  pub make_room-Emitted :
      (n : ℕ)
      → n ≤ mtu
      → (t : Encoder) × (make_room mtu n s ≡ (ok tt, t))
        × Emitted mtu t rs ms
        × (length t.packet + n ≤ mtu)
        × (t.record_seq ≡ s.record_seq)
  make_room-Emitted n h = elim (Bool-cases (mtu - length s.packet - n == 0)) [
    | inl full ↦ (flushed, rw full refl, flush-Emitted, omega arith, refl)
    | inr room ↦ (s, rw room refl, e, ground arith, refl)
  ]
