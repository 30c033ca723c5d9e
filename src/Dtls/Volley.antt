-- ===== src/Dtls/Volley.antt =====
-- trio/_dtls.py: volleys of handshake messages. `decode_volley_trusted` puts messages together from
-- records, `RecordEncoder.encode_volley` cuts them into records and packets again.
pub mod Emitted
pub mod Pieces
pub mod Fragments
pub mod Loop
pub mod Messages
pub mod RoundTrip
use trio.Prelude.{
  ℕ, zero, suc, ◌+◌, ◌-◌, ◌*◌, ◌/◌, ◌%◌, ◌^◌, Bool, true, false, not, ◌||◌, List, [], ◌∷◌, ◌++◌,
  if◌then◌else◌, ◌==◌, ltb, leb, length, nonempty, take, drop, mem,
}
use trio.Exec.{
  Error, struct_error, overflow_error, value_error, assertion_error, out_of_fuel, Result, ok, raise,
  Exec, pure, throw, modify, gets, ensure, ◌>>=◌, ◌>>◌,
}
use trio.Dtls.Bytes.{pack, zeros}
use trio.Dtls.Record.{
  Record, Records, finished, failed, yields, records_untrusted, encode_record, pack_header,
}
use trio.Dtls.Handshake.{
  HandshakeFragment, decode_handshake_fragment_untrusted, pack_fragment_header,
}
use trio.Dtls.ContentType
use trio.Dtls.HandshakeType

pub record HandshakeMessage : Type 0 where
  pub record_version : List ℕ
  pub msg_type : ℕ
  pub msg_seq : ℕ
  pub body : List ℕ

pub record PseudoHandshakeMessage : Type 0 where
  pub record_version : List ℕ
  pub content_type : ℕ
  pub payload : List ℕ

-- The three classes of messages; an OpaqueHandshakeMessage has a record.
pub data Message : Type 0 where
  whole : HandshakeMessage → Message
  pseudo : PseudoHandshakeMessage → Message
  opaque : Record → Message

-- `body[offset : offset + len] = frag`
abbrev pub place : HandshakeFragment → List ℕ → List ℕ
place f body = take f.frag_offset body ++ (f.frag ++ drop (f.frag_offset + f.frag_len) body)

abbrev require : {A : Type 0} → Bool → Result A → Result A
require true r = r
require false r = raise assertion_error

abbrev pub cons_ok : Message → Result (List Message) → Result (List Message)
cons_ok m (ok ms) = ok (m ∷ ms)
cons_ok m (raise e) = raise e

-- The message with the fragment's number gets it; where there is none, a new one stands last. (The
-- dictionary `messages_by_seq` has just the handshake messages of the list.)
unfoldable pub put_fragment : List ℕ → HandshakeFragment → List Message → Result (List Message)
put_fragment version f [] = ok (
    whole (record {
      record_version = version;
      msg_type = f.msg_type;
      msg_seq = f.msg_seq;
      body = place f (zeros f.msg_len);
    })
    ∷ [])
put_fragment version f (whole m ∷ ms) =
    let later = put_fragment version f ms in
    if m.msg_seq == f.msg_seq
    then require (m.msg_type == f.msg_type) (
        require (length m.body == f.msg_len) (ok (whole (record m { body = place f m.body }) ∷ ms)))
    else cons_ok (whole m) later
put_fragment version f (pseudo m ∷ ms) = cons_ok (pseudo m) (put_fragment version f ms)
put_fragment version f (opaque m ∷ ms) = cons_ok (opaque m) (put_fragment version f ms)

-- `record.epoch_seqno & EPOCH_MASK`, as a truth value.
abbrev pub has_epoch : Record → Bool
has_epoch r = not ((r.epoch_seqno / 2 ^ 48) % 2 ^ 16 == 0)

abbrev pub put_decoded : List ℕ → Result HandshakeFragment → List Message → Result (List Message)
put_decoded version (raise e) ms = raise e
put_decoded version (ok f) ms =
    if mem f.msg_type HandshakeType.values then put_fragment version f ms else raise value_error

-- One round of the loop.
unfoldable pub add_record : Record → List Message → Result (List Message)
unfolding mem put_fragment
add_record r ms =
    if has_epoch r
    then ok (ms ++ opaque r ∷ [])
    else if r.content_type == ContentType.change_cipher_spec || r.content_type == ContentType.alert
    then ok (
        ms
        ++ pseudo (record {
          record_version = r.version;
          content_type = r.content_type;
          payload = r.payload;
        })
          ∷ [])
    else require (r.content_type == ContentType.handshake)
        (put_decoded r.version (decode_handshake_fragment_untrusted r.payload) ms)

abbrev pub then_go_on :
    Result (List Message) → (List Message → Result (List Message)) → Result (List Message)
then_go_on (ok ms) go_on = go_on ms
then_go_on (raise e) go_on = raise e

unfoldable pub decode_loop : Records → List Message → Result (List Message)
decode_loop finished ms = ok ms
decode_loop (failed e) ms = raise e
decode_loop (yields r rs) ms = then_go_on (add_record r ms) (decode_loop rs)

unfoldable pub decode_volley_trusted : List ℕ → Result (List Message)
decode_volley_trusted volley = decode_loop (records_untrusted volley) []

-- `self._record_seq`, as the number it yields next, and the variables of `encode_volley`.
pub record Encoder : Type 0 where
  pub record_seq : ℕ
  pub packets : List (List ℕ)
  pub packet : List ℕ

-- `RecordEncoder()`
abbrev pub create : Encoder
create = record { record_seq = 0; packets = []; packet = [] }

abbrev pub set_first_record_number : ℕ → Exec Encoder Unit
set_first_record_number n = modify λ s. record s { record_seq = n }

abbrev pub header_size : ℕ
header_size = 13

abbrev pub message_header_size : ℕ
message_header_size = 12

-- A function that may raise, as an action that leaves the state alone.
abbrev pub call : {A : Type 0} → Result A → Exec Encoder A
call r s = (r, s)

abbrev pub flush : Exec Encoder Unit
flush = modify λ s. record s { packets = s.packets ++ s.packet ∷ []; packet = [] }

abbrev pub append : List ℕ → Exec Encoder Unit
append bs = modify λ s. record s { packet = s.packet ++ bs }

abbrev pub fits : ℕ → Exec Encoder Unit
fits mtu s = ensure assertion_error (leb (length s.packet) mtu) s

-- A new packet, where `needed` more bytes do not fit. (A `space` below 0 is 0 here.)
abbrev pub make_room : ℕ → ℕ → Exec Encoder Unit
make_room mtu needed s = (if mtu - length s.packet - needed == 0 then flush else pure tt) s

abbrev pub next_seq : Exec Encoder ℕ
next_seq s = (ok s.record_seq, record s { record_seq = s.record_seq + 1 })

abbrev pub encode_opaque : ℕ → Record → Exec Encoder Unit
encode_opaque mtu r = do
  encoded ← call (encode_record r)
  make_room mtu (length encoded)
  append encoded
  fits mtu

abbrev pub encode_pseudo : ℕ → PseudoHandshakeMessage → Exec Encoder Unit
encode_pseudo mtu m = do
  make_room mtu (header_size + length m.payload)
  seq ← next_seq
  header ← call (
      pack_header (record {
        content_type = m.content_type;
        version = m.record_version;
        epoch_seqno = seq;
        payload_len = length m.payload;
      }))
  append header
  append m.payload
  fits mtu

-- What the loop does where there is space for `space` bytes of the message.
abbrev pub encode_fragment : ℕ → HandshakeMessage → List ℕ → ℕ → Exec Encoder Unit
encode_fragment mtu m frag offset = do
  call (pack overflow_error 3 offset)
  call (pack overflow_error 3 (length frag))
  seq ← next_seq
  header ← call (
      pack_header (record {
        content_type = ContentType.handshake;
        version = m.record_version;
        epoch_seqno = seq;
        payload_len = message_header_size + length frag;
      }))
  append header
  hs_header ← call (pack_fragment_header m.msg_type (length m.body) m.msg_seq offset (length frag))
  append hs_header
  append frag
  fits mtu

unfoldable pub fragment_loop : ℕ → ℕ → HandshakeMessage → ℕ → ℕ → Exec Encoder Unit
fragment_loop zero mtu m offset frags_encoded s = (raise out_of_fuel, s)
fragment_loop (suc fuel) mtu m offset frags_encoded s =
    (if ltb offset (length m.body) || frags_encoded == 0
        then (let space = mtu - length s.packet - header_size - message_header_size in
            if space == 0
            then (do flush; fragment_loop fuel mtu m offset frags_encoded)
            else (let frag = take space (drop offset m.body) in
                do
                  encode_fragment mtu m frag offset
                  fragment_loop fuel mtu m (offset + length frag) (frags_encoded + 1)))
        else pure tt)
      s

-- Every second round at least takes a byte of the message, but for the first and the last two.
abbrev pub rounds : HandshakeMessage → ℕ
rounds m = 2 * length m.body + 4

unfoldable pub encode_message : ℕ → Message → Exec Encoder Unit
unfolding fragment_loop
encode_message mtu (opaque r) = encode_opaque mtu r
encode_message mtu (pseudo m) = encode_pseudo mtu m
encode_message mtu (whole m) = do
  call (pack overflow_error 3 (length m.body))
  fragment_loop (rounds m) mtu m 0 0

unfoldable pub encode_messages : ℕ → List Message → Exec Encoder Unit
encode_messages mtu [] = pure tt
encode_messages mtu (m ∷ ms) = do encode_message mtu m; encode_messages mtu ms

-- The packets, with the encoder's next number.
unfoldable pub encode_volley : List Message → ℕ → Exec Encoder (List (List ℕ))
encode_volley messages mtu = do
  modify (λ s. record s { packets = []; packet = [] })
  encode_messages mtu messages
  (λ s. (if nonempty s.packet then flush else pure tt) s)
  gets (λ s. s.packets)
