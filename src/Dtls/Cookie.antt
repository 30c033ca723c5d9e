-- ===== src/Dtls/Cookie.antt =====
-- trio/_dtls.py: `_signable`, the cookies that a listening endpoint hands out, and the challenge
-- that carries one. `hmac.digest` with SHA-256 is a parameter, from a key and data; the salt, which
-- comes from `os.urandom`, and the tick, which the clock gives, are arguments.
pub mod Accepted
pub mod Signable
use trio.Prelude.{
  ℕ, ◌+◌, ◌-◌, Bool, true, false, not, ◌||◌, ◌&&◌, List, [], ◌∷◌, ◌++◌, if◌then◌else◌, ◌==◌, ltb,
  length, take,
}
use trio.Exec.{struct_error, assertion_error, Result, ok, raise}
use trio.Dtls.Bytes.{pack, ◌>>=◌}
use trio.Dtls.Record.{Record, encode_record}
use trio.Dtls.Handshake.{HandshakeFragment, encode_handshake_fragment, dtls10}
use trio.Dtls.ClientHello.{bytes_eq}
use trio.Dtls.ContentType
use trio.Dtls.HandshakeType

abbrev pub key_bytes : ℕ
key_bytes = 32

abbrev pub salt_bytes : ℕ
salt_bytes = 8

abbrev pub cookie_length : ℕ
cookie_length = 32

-- `_signable(*fields)`
unfoldable pub signable : List (List ℕ) → Result (List ℕ)
signable [] = ok []
signable (field ∷ fields) = do
  len ← pack struct_error 8 (length field)
  rest ← signable fields
  ok (len ++ (field ++ rest))

module _ (digest : List ℕ → List ℕ → List ℕ) where
  -- `address` has its parts as encoded text.
  unfoldable pub make_cookie : List ℕ → List ℕ → ℕ → List (List ℕ) → List ℕ → Result (List ℕ)
  make_cookie key salt tick address client_hello_bits =
      if not (length salt == salt_bytes)
      then raise assertion_error
      else if not (length key == key_bytes)
      then raise assertion_error
      else (do
        tick_field ← pack struct_error 8 tick
        address_field ← signable address
        signable_data ← signable (salt ∷ tick_field ∷ address_field ∷ client_hello_bits ∷ [])
        ok (take cookie_length (salt ++ digest key signable_data)))

  unfoldable pub valid_cookie : ℕ → List ℕ → List ℕ → List (List ℕ) → List ℕ → Result Bool
  unfolding make_cookie
  valid_cookie tick key cookie address client_hello_bits =
      if ltb salt_bytes (length cookie)
      then (do
        cur_cookie ← make_cookie key (take salt_bytes cookie) tick address client_hello_bits
        old_cookie ← make_cookie key (take salt_bytes cookie) (tick - 1) address client_hello_bits
        ok (bytes_eq cookie cur_cookie || bytes_eq cookie old_cookie))
      else ok false

  -- The fragment of a HelloVerifyRequest.
  abbrev pub hello_verify_request : List ℕ → HandshakeFragment
  hello_verify_request body = record {
    msg_type = HandshakeType.hello_verify_request;
    msg_len = length body;
    msg_seq = 0;
    frag_offset = 0;
    frag_len = length body;
    frag = body;
  }

  -- `bytes([len(cookie)])` raises ValueError from 256 on; a cookie has 32 bytes at most.
  unfoldable pub challenge_for : List ℕ → ℕ → List ℕ → List (List ℕ) → ℕ → List ℕ → Result (List ℕ)
  unfolding make_cookie
  challenge_for salt tick key address epoch_seqno client_hello_bits = do
    cookie ← make_cookie key salt tick address client_hello_bits
    payload ← encode_handshake_fragment (hello_verify_request (dtls10 ++ (length cookie ∷ cookie)))
    encode_record (record {
      content_type = ContentType.handshake;
      version = dtls10;
      epoch_seqno = epoch_seqno;
      payload = payload;
    })
