-- ===== src/Dtls/Volley/Fragments.antt =====
-- The records that `encode_volley` of trio/_dtls.py makes of one message.
use trio.Prelude.{
  ℕ, ◌+◌, ◌/◌, ◌%◌, ◌^◌, ◌≤◌, ◌<◌, ◌≡◌, refl, sym, ap, ◌∙◌, true, List, [], ◌∷◌, ◌++◌, ◌==◌, leb,
  length, take, drop, mem, arith, append_assoc, length-append,
}
use trio.Exec.{overflow_error, ok}
use trio.Dtls.Bytes.{pack_ok}
use trio.Dtls.Record.{Record}
use trio.Dtls.Record.RoundTrip.{
  IsRecord, header_bytes, header_bytes-payload, length-header_bytes, pack_header-eq, bytes_of,
}
use trio.Dtls.Handshake.{HandshakeFragment}
use trio.Dtls.Handshake.RoundTrip.{IsFragment, pack_fragment_header-eq, decode-eq}
use trio.Dtls.Handshake.RoundTrip as Fragment
use trio.Dtls.ContentType
use trio.Dtls.HandshakeType
use trio.Dtls.Volley.{Message, HandshakeMessage, whole, add_record, Encoder, encode_fragment}
use trio.Dtls.Volley.Pieces.{
  so_far, partial, IsAbsent, length-so_far, place-so_far, put_first, put_next,
}

-- A message that OpenSSL can have sent.
pub record IsMessage (m : HandshakeMessage) : Type 0 where
  pub record_version : length m.record_version ≡ 2
  pub msg_type : m.msg_type < 256 ^ 1
  pub known_type : mem m.msg_type HandshakeType.values ≡ true
  pub msg_seq : m.msg_seq < 256 ^ 2
  pub body : length m.body < 256 ^ 3

module _ (m : HandshakeMessage) (valid : IsMessage m) (frag : List ℕ) (offset seq : ℕ) where
  abbrev pub fragment_of : HandshakeFragment
  fragment_of = record {
    msg_type = m.msg_type;
    msg_len = length m.body;
    msg_seq = m.msg_seq;
    frag_offset = offset;
    frag_len = length frag;
    frag = frag;
  }

  abbrev pub record_of : Record
  record_of = record {
    content_type = ContentType.handshake;
    version = m.record_version;
    epoch_seqno = seq;
    payload = Fragment.bytes_of fragment_of;
  }

  hs_bytes : List ℕ
  hs_bytes = Fragment.header_bytes m.msg_type (length m.body) m.msg_seq offset (length frag)

  length-payload : length (Fragment.bytes_of fragment_of) ≡ 12 + length frag
  unfolding Fragment.bytes_of hs_bytes
  length-payload = omega (
    arith,
    length-append hs_bytes frag,
    Fragment.length-header_bytes m.msg_type (length m.body) m.msg_seq offset (length frag),
  )

  module _ (mtu : ℕ) (most : mtu ≤ 65527) (inside : offset + length frag ≤ length m.body)
      (low : seq < 2 ^ 48) (s : Encoder) (numbered : s.record_seq ≡ seq)
      (room : length s.packet + 25 + length frag ≤ mtu) where
    fragment_of-IsFragment : IsFragment fragment_of
    fragment_of-IsFragment = record {
      msg_type = valid.msg_type;
      msg_len = valid.body;
      msg_seq = valid.msg_seq;
      frag_offset = omega (arith, valid.body);
      frag_len = omega (arith, valid.body);
      whole = refl;
    }

    pub record_of-IsRecord : IsRecord record_of
    record_of-IsRecord = record {
      content_type = omega arith;
      version = valid.record_version;
      epoch_seqno = omega arith;
      payload = omega (arith, length-payload);
    }

    pub length-record_of : length (bytes_of record_of) ≡ 25 + length frag
    length-record_of =
        ap length (sym (header_bytes-payload record_of))
        ∙ omega (
          arith,
          length-append (header_bytes record_of) (Fragment.bytes_of fragment_of),
          length-header_bytes record_of valid.record_version,
          length-payload,
        )

    whole_packet :
        ((s.packet ++ header_bytes record_of) ++ hs_bytes) ++ frag ≡ s.packet ++ bytes_of record_of
    unfolding Fragment.bytes_of hs_bytes
    whole_packet =
        append_assoc (s.packet ++ header_bytes record_of) hs_bytes frag
        ∙ append_assoc s.packet (header_bytes record_of) (hs_bytes ++ frag)
        ∙ ap (λ l. s.packet ++ l) (header_bytes-payload record_of)

    small_packet : leb (length (s.packet ++ bytes_of record_of)) mtu ≡ true
    small_packet = ground (arith, length-append s.packet (bytes_of record_of), length-record_of)

    pub encode_fragment-eq :
        encode_fragment mtu m frag offset s
        ≡ (ok tt, record s { packet = s.packet ++ bytes_of record_of; record_seq = seq + 1 })
    unfolding hs_bytes
    encode_fragment-eq =
        rw
          (
            pack_ok overflow_error 3 offset (omega (arith, valid.body)),
            pack_ok overflow_error 3 (length frag) (omega (arith, valid.body)),
          )
          (rw (numbered, ← length-payload)
            (rw (pack_header-eq record_of record_of-IsRecord) (
              rw
                (pack_fragment_header-eq m.msg_type (length m.body) m.msg_seq offset (length frag)
                  valid.msg_type valid.body valid.msg_seq (omega (arith, valid.body))
                  (omega (arith, valid.body)))
                (rw whole_packet (rw small_packet refl)))))

    no_epoch : ((seq / 2 ^ 48) % 2 ^ 16 == 0) ≡ true
    no_epoch = ground arith

    pub add_first :
        (ms : List Message)
        → IsAbsent m.msg_seq ms
        → offset ≡ 0
        → frag ≡ take (length frag) (drop 0 m.body)
        → add_record record_of ms ≡ ok (ms ++ partial m (0 + length frag) ∷ [])
    unfolding add_record
    add_first ms a o e = rw no_epoch (
        rw (decode-eq fragment_of fragment_of-IsFragment) (
          rw valid.known_type (
            rw (put_first m.record_version fragment_of ms a) (
              ap (λ b. ok (ms ++ whole (record m { body = b }) ∷ []))
                (place-so_far m fragment_of 0 (length frag) (omega arith) o refl e)))))

    pub add_next :
        (ms : List Message)
        → IsAbsent m.msg_seq ms
        → frag ≡ take (length frag) (drop offset m.body)
        → add_record record_of (ms ++ partial m offset ∷ [])
          ≡ ok (ms ++ partial m (offset + length frag) ∷ [])
    unfolding add_record
    add_next ms a e = rw no_epoch (
        rw (decode-eq fragment_of fragment_of-IsFragment) (
          rw valid.known_type (
            rw
              (put_next m.record_version fragment_of ms (record m { body = so_far m offset }) a refl
                refl (length-so_far m offset (omega arith)))
              (ap (λ b. ok (ms ++ whole (record m { body = b }) ∷ []))
                (place-so_far m fragment_of offset (length frag) (omega arith) refl refl e)))))
