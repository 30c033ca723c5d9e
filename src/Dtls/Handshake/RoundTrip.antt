-- ===== src/Dtls/Handshake/RoundTrip.antt =====
-- Handshake fragments of trio/_dtls.py, encoded and decoded again.
use trio.Prelude.{ℕ, ◌<◌, ◌^◌, ◌≡◌, refl, List, ◌++◌, ==_refl, length, append_assoc}
use trio.Exec.{struct_error, overflow_error, ok}
use trio.Dtls.Bytes.{to_be, read-append, length-to_be, from_be-to_be, pack_ok}
use trio.Dtls.Handshake.{
  HandshakeFragment, unpack_fragment, decode_handshake_fragment_untrusted, pack_fragment_header,
  encode_handshake_fragment,
}

-- A fragment that the header's fields can hold, and whose length is the one it states.
pub record IsFragment (f : HandshakeFragment) : Type 0 where
  pub msg_type : f.msg_type < 256 ^ 1
  pub msg_len : f.msg_len < 256 ^ 3
  pub msg_seq : f.msg_seq < 256 ^ 2
  pub frag_offset : f.frag_offset < 256 ^ 3
  pub frag_len : f.frag_len < 256 ^ 3
  pub whole : length f.frag ≡ f.frag_len

unfoldable pub header_bytes : ℕ → ℕ → ℕ → ℕ → ℕ → List ℕ
header_bytes msg_type msg_len msg_seq frag_offset frag_len =
    to_be 1 msg_type
    ++ (to_be 3 msg_len ++ (to_be 2 msg_seq ++ (to_be 3 frag_offset ++ to_be 3 frag_len)))

pub length-header_bytes :
    (ty len seq offset frag : ℕ) → length (header_bytes ty len seq offset frag) ≡ 12
unfolding header_bytes to_be
length-header_bytes ty len seq offset frag = refl

unfoldable pub bytes_of : HandshakeFragment → List ℕ
unfolding header_bytes
bytes_of f = header_bytes f.msg_type f.msg_len f.msg_seq f.frag_offset f.frag_len ++ f.frag

pub pack_fragment_header-eq :
    (ty len seq offset frag : ℕ)
    → ty < 256 ^ 1
    → len < 256 ^ 3
    → seq < 256 ^ 2
    → offset < 256 ^ 3
    → frag < 256 ^ 3
    → pack_fragment_header ty len seq offset frag ≡ ok (header_bytes ty len seq offset frag)
unfolding pack_fragment_header header_bytes
pack_fragment_header-eq ty len seq offset frag h1 h2 h3 h4 h5 =
    rw
      (
        pack_ok overflow_error 3 len h2,
        pack_ok overflow_error 3 offset h4,
        pack_ok overflow_error 3 frag h5,
        pack_ok struct_error 1 ty h1,
        pack_ok struct_error 2 seq h3,
      )
      refl

module _ (f : HandshakeFragment) (valid : IsFragment f) where
  pub encode_handshake_fragment-eq : encode_handshake_fragment f ≡ ok (bytes_of f)
  unfolding encode_handshake_fragment bytes_of header_bytes
  encode_handshake_fragment-eq =
      rw
        (pack_fragment_header-eq f.msg_type f.msg_len f.msg_seq f.frag_offset f.frag_len
          valid.msg_type valid.msg_len valid.msg_seq valid.frag_offset valid.frag_len)
        refl

  unpack_fragment-eq : unpack_fragment (bytes_of f) ≡ ok f
  unfolding unpack_fragment bytes_of header_bytes
  unpack_fragment-eq =
      rw
        (
          append_assoc (to_be 1 f.msg_type),
          append_assoc (to_be 3 f.msg_len),
          append_assoc (to_be 2 f.msg_seq),
          append_assoc (to_be 3 f.frag_offset),
        )
        (rw
          (read-append 1 _
            (to_be 3 f.msg_len
              ++ (to_be 2 f.msg_seq ++ (to_be 3 f.frag_offset ++ (to_be 3 f.frag_len ++ f.frag))))
            (length-to_be 1 f.msg_type))
          (rw
            (read-append 3 _
              (to_be 2 f.msg_seq ++ (to_be 3 f.frag_offset ++ (to_be 3 f.frag_len ++ f.frag)))
              (length-to_be 3 f.msg_len))
            (rw
              (read-append 2 _ (to_be 3 f.frag_offset ++ (to_be 3 f.frag_len ++ f.frag))
                (length-to_be 2 f.msg_seq))
              (rw (read-append 3 _ (to_be 3 f.frag_len ++ f.frag) (length-to_be 3 f.frag_offset)) (
                rw (read-append 3 _ f.frag (length-to_be 3 f.frag_len)) (
                  rw
                    (
                      from_be-to_be 1 _ valid.msg_type,
                      from_be-to_be 3 _ valid.msg_len,
                      from_be-to_be 2 _ valid.msg_seq,
                      from_be-to_be 3 _ valid.frag_offset,
                      from_be-to_be 3 _ valid.frag_len,
                    )
                    refl))))))

  pub decode-eq : decode_handshake_fragment_untrusted (bytes_of f) ≡ ok f
  unfolding decode_handshake_fragment_untrusted
  decode-eq = rw unpack_fragment-eq (rw valid.whole (rw (==_refl f.frag_len) refl))

  -- A handshake fragment that fits its header's fields, and whose length is the one it states, is
  -- encoded without an exception and decoded to itself.
  pub decode_handshake_fragment-encode :
      (bs : List ℕ) × (encode_handshake_fragment f ≡ ok bs)
      × (decode_handshake_fragment_untrusted bs ≡ ok f)
  decode_handshake_fragment-encode = (bytes_of f, encode_handshake_fragment-eq, decode-eq)
