-- ===== src/Dtls/Handshake.antt =====
-- trio/_dtls.py: the fragments of handshake messages, and the numbers of the protocol.
pub mod RoundTrip
use trio.Prelude.{
  ℕ, Bool, true, false, ◌&&◌, List, [], ◌∷◌, ◌++◌, if◌then◌else◌, length, drop, ◌==◌, Option, none,
  some,
}
use trio.Exec.{struct_error, overflow_error, bad_packet, Result, ok, raise}
use trio.Dtls.Bytes.{read, or_bad, from_be, pack, ◌>>=◌}

-- `ProtocolVersion.DTLS10`
abbrev pub dtls10 : List ℕ
dtls10 = 254 ∷ 255 ∷ []

pub record HandshakeFragment : Type 0 where
  pub msg_type : ℕ
  pub msg_len : ℕ
  pub msg_seq : ℕ
  pub frag_offset : ℕ
  pub frag_len : ℕ
  pub frag : List ℕ

-- `HANDSHAKE_MESSAGE_HEADER.unpack_from`, "!B3sH3s3s", and `payload[12:]`.
unfoldable pub unpack_fragment : List ℕ → Result HandshakeFragment
unpack_fragment payload = do
  (msg_type, p) ← read 1 payload
  (msg_len, q) ← read 3 p
  (msg_seq, r) ← read 2 q
  (frag_offset, s) ← read 3 r
  (frag_len, frag) ← read 3 s
  ok (record {
    msg_type = from_be 0 msg_type;
    msg_len = from_be 0 msg_len;
    msg_seq = from_be 0 msg_seq;
    frag_offset = from_be 0 frag_offset;
    frag_len = from_be 0 frag_len;
    frag = frag;
  })

unfoldable pub decode_handshake_fragment_untrusted : List ℕ → Result HandshakeFragment
decode_handshake_fragment_untrusted payload = do
  f ← or_bad (unpack_fragment payload)
  if length f.frag == f.frag_len then ok f else raise bad_packet

-- `HANDSHAKE_MESSAGE_HEADER.pack`, after the three calls of `to_bytes`.
unfoldable pub pack_fragment_header : ℕ → ℕ → ℕ → ℕ → ℕ → Result (List ℕ)
pack_fragment_header msg_type msg_len msg_seq frag_offset frag_len = do
  len ← pack overflow_error 3 msg_len
  offset ← pack overflow_error 3 frag_offset
  frag ← pack overflow_error 3 frag_len
  type ← pack struct_error 1 msg_type
  seq ← pack struct_error 2 msg_seq
  ok (type ++ (len ++ (seq ++ (offset ++ frag))))

unfoldable pub encode_handshake_fragment : HandshakeFragment → Result (List ℕ)
encode_handshake_fragment f = do
  header ← pack_fragment_header f.msg_type f.msg_len f.msg_seq f.frag_offset f.frag_len
  ok (header ++ f.frag)
