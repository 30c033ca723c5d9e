-- ===== src/Dtls/Volley/Messages.antt =====
-- What `encode_volley` of trio/_dtls.py makes of each of the three classes of messages.
use trio.Prelude.{
  ℕ, ◌+◌, ◌/◌, ◌%◌, ◌^◌, ◌≤◌, ◌<◌, ◌≡◌, refl, sym, ap, ◌∙◌, true, ◌||◌, List, [], ◌∷◌, ◌++◌, ◌==◌,
  leb, length, arith, append_assoc, length-append,
}
use trio.Exec.{overflow_error, ok}
use trio.Dtls.Bytes.{pack_ok}
use trio.Dtls.Record.{Record}
use trio.Dtls.Record.RoundTrip.{
  IsRecord, header_bytes, header_bytes-payload, length-header_bytes, pack_header-eq, bytes_of,
  encode_record-eq,
}
use trio.Dtls.ContentType
use trio.Dtls.Volley.{
  Message, PseudoHandshakeMessage, whole, pseudo, opaque, has_epoch, add_record, Encoder, make_room,
  encode_opaque, encode_pseudo, encode_message,
}
use trio.Dtls.Volley.Emitted.{Emitted, emit-Emitted, make_room-Emitted}
use trio.Dtls.Volley.Pieces.{IsAbsent}
use trio.Dtls.Volley.Fragments.{IsMessage}
use trio.Dtls.Volley.Loop.{Encodes, message-Encodes}

-- A ChangeCipherSpec or an alert that fits a packet.
pub record IsPseudo (mtu : ℕ) (m : PseudoHandshakeMessage) : Type 0 where
  pub content_type :
      (m.content_type == ContentType.change_cipher_spec || m.content_type == ContentType.alert)
      ≡ true
  pub record_version : length m.record_version ≡ 2
  pub room : 13 + length m.payload ≤ mtu

-- An encrypted record that fits a packet.
pub record IsOpaque (mtu : ℕ) (r : Record) : Type 0 where
  pub valid : IsRecord r
  pub epoch : has_epoch r ≡ true
  pub room : 13 + length r.payload ≤ mtu

-- What can follow the messages `ms` in a volley.
abbrev pub Sendable : ℕ → List Message → Message → Type 0
Sendable mtu ms (whole m) = IsMessage m × IsAbsent m.msg_seq ms
Sendable mtu ms (pseudo m) = IsPseudo mtu m
Sendable mtu ms (opaque r) = IsOpaque mtu r

abbrev pub AllSendable : ℕ → List Message → List Message → Type 0
AllSendable mtu ms [] = Unit {0}
AllSendable mtu ms (m ∷ later) = Sendable mtu ms m × AllSendable mtu (ms ++ m ∷ []) later

-- The record numbers that the messages can take.
abbrev pub numbers_of : Message → ℕ
numbers_of (whole m) = length m.body + 1
numbers_of (pseudo m) = 1
numbers_of (opaque r) = 0

abbrev pub all_numbers : List Message → ℕ
all_numbers [] = 0
all_numbers (m ∷ ms) = numbers_of m + all_numbers ms

length-bytes_of : (r : Record) → IsRecord r → length (bytes_of r) ≡ 13 + length r.payload
length-bytes_of r v =
    ap length (sym (header_bytes-payload r))
    ∙ omega (arith, length-append (header_bytes r) r.payload, length-header_bytes r v.version)

-- What stands in the packet after a record's bytes fits.
fits_after :
    {mtu : ℕ} (t : Encoder) (r : Record)
    → length t.packet + length (bytes_of r) ≤ mtu
    → leb (length (t.packet ++ bytes_of r)) mtu ≡ true
fits_after t r room = ground (arith, length-append t.packet (bytes_of r))

no_epoch : (seq : ℕ) → seq < 2 ^ 48 → ((seq / 2 ^ 48) % 2 ^ 16 == 0) ≡ true
no_epoch seq low = ground arith

-- The record of a pseudo message.
unfoldable pseudo_record : PseudoHandshakeMessage → ℕ → Record
pseudo_record m seq = record {
  content_type = m.content_type;
  version = m.record_version;
  epoch_seqno = seq;
  payload = m.payload;
}

pseudo_record-IsRecord :
    {mtu : ℕ} (m : PseudoHandshakeMessage) (seq : ℕ)
    → mtu ≤ 65527
    → seq < 2 ^ 48
    → IsPseudo mtu m
    → IsRecord (pseudo_record m seq)
unfolding pseudo_record
pseudo_record-IsRecord m seq most low v = record {
  content_type = ground (arith, v.content_type);
  version = v.record_version;
  epoch_seqno = omega arith;
  payload = omega (arith, v.room);
}

module _ {mtu : ℕ} (s t : Encoder) where
  encode_opaque-eq :
      (r : Record)
      → IsRecord r
      → make_room mtu (length (bytes_of r)) s ≡ (ok tt, t)
      → length t.packet + length (bytes_of r) ≤ mtu
      → encode_opaque mtu r s ≡ (ok tt, record t { packet = t.packet ++ bytes_of r })
  encode_opaque-eq r v made room =
      rw (encode_record-eq r v) (rw made (rw (fits_after t r room) refl))

  encode_pseudo-eq :
      (m : PseudoHandshakeMessage)
      → IsRecord (pseudo_record m t.record_seq)
      → make_room mtu (13 + length m.payload) s ≡ (ok tt, t)
      → length t.packet + length (bytes_of (pseudo_record m t.record_seq)) ≤ mtu
      → encode_pseudo mtu m s ≡ (
        ok tt,
        record t {
          packet = t.packet ++ bytes_of (pseudo_record m t.record_seq);
          record_seq = t.record_seq + 1;
        },
      )
  unfolding pseudo_record
  encode_pseudo-eq m v made room =
      let r = pseudo_record m t.record_seq in
      rw made (rw (pack_header-eq r v) (rw (whole_packet r) (rw (fits_after t r room) refl)))
    where
      whole_packet :
          (r : Record) → (t.packet ++ header_bytes r) ++ r.payload ≡ t.packet ++ bytes_of r
      whole_packet r =
          append_assoc t.packet (header_bytes r) r.payload
          ∙ ap (λ l. t.packet ++ l) (header_bytes-payload r)

pseudo_room :
    {mtu : ℕ} (m : PseudoHandshakeMessage) (t : Encoder)
    → IsRecord (pseudo_record m t.record_seq)
    → length t.packet + (13 + length m.payload) ≤ mtu
    → length t.packet + length (bytes_of (pseudo_record m t.record_seq)) ≤ mtu
unfolding pseudo_record
pseudo_room m t v room = omega (arith, length-bytes_of (pseudo_record m t.record_seq) v)

module _ (mtu : ℕ) (most : mtu ≤ 65527) (ms : List Message) where
  add_opaque : (r : Record) → has_epoch r ≡ true → add_record r ms ≡ ok (ms ++ opaque r ∷ [])
  unfolding add_record
  add_opaque r h = rw h refl

  add_pseudo :
      (m : PseudoHandshakeMessage) (seq : ℕ)
      → seq < 2 ^ 48
      → IsPseudo mtu m
      → add_record (pseudo_record m seq) ms ≡ ok (ms ++ pseudo m ∷ [])
  unfolding add_record pseudo_record
  add_pseudo m seq low v = rw (no_epoch seq low) (rw v.content_type refl)

  opaque-Encodes :
      (r : Record) (s : Encoder) (rs : List Record)
      → IsOpaque mtu r
      → Emitted mtu s rs ms
      → Encodes mtu (encode_opaque mtu r) s (ms ++ opaque r ∷ []) 0
  opaque-Encodes r s rs v e =
      let len = length-bytes_of r v.valid in
      let (t, made, em, room, same) =
        make_room-Emitted e (length (bytes_of r)) (omega (arith, len, v.room)) in
      record {
        after = record t { packet = t.packet ++ bytes_of r };
        records = rs ++ r ∷ [];
        result = encode_opaque-eq s t r v.valid made room;
        emitted = emit-Emitted em r t.record_seq _ v.valid room (add_opaque r v.epoch);
        numbers = omega (arith, same);
      }

  pseudo-Encodes :
      (m : PseudoHandshakeMessage) (s : Encoder) (rs : List Record)
      → IsPseudo mtu m
      → s.record_seq < 2 ^ 48
      → Emitted mtu s rs ms
      → Encodes mtu (encode_pseudo mtu m) s (ms ++ pseudo m ∷ []) 1
  pseudo-Encodes m s rs v low e =
      let (t, made, em, room, same) = make_room-Emitted e (13 + length m.payload) v.room in
      let r = pseudo_record m t.record_seq in
      let valid = pseudo_record-IsRecord m t.record_seq most (omega (arith, same)) v in
      let fits = pseudo_room m t valid room in
      record {
        after = record t { packet = t.packet ++ bytes_of r; record_seq = t.record_seq + 1 };
        records = rs ++ r ∷ [];
        result = encode_pseudo-eq s t m valid made fits;
        emitted =
            emit-Emitted em r (t.record_seq + 1) _ valid fits
              (add_pseudo m t.record_seq (omega (arith, same)) v);
        numbers = omega (arith, same);
      }

  pub message-Encodes_any :
      26 ≤ mtu
      → (m : Message) (s : Encoder) (rs : List Record) → Sendable mtu ms m
      → s.record_seq + numbers_of m ≤ 2 ^ 48
      → Emitted mtu s rs ms
      → Encodes mtu (encode_message mtu m) s (ms ++ m ∷ []) (numbers_of m)
  unfolding encode_message
  message-Encodes_any least (opaque r) s rs v low e = opaque-Encodes r s rs v e
  message-Encodes_any least (pseudo m) s rs v low e = pseudo-Encodes m s rs v (omega arith) e
  message-Encodes_any least (whole m) s rs (v, a) low e =
      let r = message-Encodes mtu least most m v ms a s rs e low in
      record {
        after = r.after;
        records = r.records;
        result = rw (pack_ok overflow_error 3 (length m.body) v.body) r.result;
        emitted = r.emitted;
        numbers = r.numbers;
      }
