-- ===== src/Dtls/Examples.antt =====
-- Records, handshake messages and cookies of trio/_dtls.py: tests, and instances of the theorems.
use trio.Prelude.{
  ℕ, ◌≡◌, refl, List, ◌∷◌, [], true, ◌^◌, ◌++◌, take, length-take, length-append, mem, length,
  arith,
}
use trio.Exec.{ok, bad_packet}
use trio.Dtls.Bytes.{zeros, pack, to_be, read}
use trio.Dtls.Record.{
  Record, next_record, records_untrusted, records_loop, encode_record, unpack_header, pack_header,
  failed,
}
use trio.Dtls.Record.RoundTrip.{
  IsRecord, encode_all, yields_all, bytes_of, records_untrusted-encode,
}
use trio.Dtls.Handshake.{HandshakeFragment, dtls10}
use trio.Dtls.Handshake.RoundTrip.{IsFragment, decode_handshake_fragment-encode}
use trio.Dtls.Handshake.RoundTrip as Fragment
use trio.Dtls.ClientHello.{get_elem, is_client_hello_untrusted, decode_client_hello_untrusted}
use trio.Dtls.ClientHello.Errors.{only_bad_packet, decode_client_hello-errors}
use trio.Dtls.ClientHello.Parts.{Hello, before, body, Carries, decode_client_hello-parts}
use trio.Dtls.Cookie.{make_cookie, valid_cookie}
use trio.Dtls.Cookie.Signable
use trio.Dtls.Cookie.Signable.{signable-injective}
use trio.Dtls.Cookie.Accepted.{IsMaterial, valid_cookie-fresh}
use trio.Dtls.Volley.{
  Message, HandshakeMessage, PseudoHandshakeMessage, whole, pseudo, opaque, Encoder, create,
  set_first_record_number, encode_messages, encode_message, encode_volley, decode_volley_trusted,
}
use trio.Dtls.Volley.Emitted.{concat, AllSmall}
use trio.Dtls.Volley.Messages.{AllSendable}
use trio.Dtls.Volley.RoundTrip.{decode_volley-encode_volley}
use trio.Dtls.ContentType
use trio.Dtls.HandshakeType

abbrev alert_record : Record
alert_record = record { content_type = 21; version = dtls10; epoch_seqno = 5; payload = 1 ∷ 0 ∷ [] }

abbrev data_record : Record
data_record = record { content_type = 23; version = dtls10; epoch_seqno = 2 ^ 48; payload = 7 ∷ [] }

alert_record-IsRecord : IsRecord alert_record
alert_record-IsRecord = record {
  content_type = omega arith;
  version = refl;
  epoch_seqno = omega arith;
  payload = omega arith;
}

data_record-IsRecord : IsRecord data_record
data_record-IsRecord = record {
  content_type = omega arith;
  version = refl;
  epoch_seqno = omega arith;
  payload = omega arith;
}

records_untrusted-encode_example :
    (packet : List ℕ) × (encode_all (alert_record ∷ data_record ∷ []) ≡ ok packet)
    × (records_untrusted packet ≡ yields_all (alert_record ∷ data_record ∷ []))
records_untrusted-encode_example =
    records_untrusted-encode (alert_record ∷ data_record ∷ [])
      (alert_record-IsRecord, (data_record-IsRecord, tt))

-- A packet that ends within its record's header.
cut_short : records_untrusted (21 ∷ 254 ∷ []) ≡ failed bad_packet
unfolding records_untrusted records_loop next_record unpack_header read
cut_short = refl

-- A ClientHello with a session id of one byte, a cookie of two bytes, and two more bytes.
abbrev hello : Hello
hello = record { start = zeros 34; session_id = 4 ∷ []; cookie = 8 ∷ 9 ∷ []; rest = 1 ∷ 2 ∷ [] }

abbrev hello_fragment : HandshakeFragment
hello_fragment = record {
  msg_type = HandshakeType.client_hello;
  msg_len = 41;
  msg_seq = 0;
  frag_offset = 0;
  frag_len = 41;
  frag = body hello;
}

hello_fragment-IsFragment : IsFragment hello_fragment
hello_fragment-IsFragment = record {
  msg_type = omega arith;
  msg_len = omega arith;
  msg_seq = omega arith;
  frag_offset = omega arith;
  frag_len = omega arith;
  whole = refl;
}

abbrev hello_record : Record
hello_record = record {
  content_type = ContentType.handshake;
  version = dtls10;
  epoch_seqno = 3;
  payload = Fragment.bytes_of hello_fragment;
}

hello_record-Carries : Carries hello_record hello_fragment hello
unfolding Fragment.bytes_of Fragment.header_bytes to_be
hello_record-Carries = record {
  fits_record = record {
    content_type = omega arith;
    version = refl;
    epoch_seqno = omega arith;
    payload = omega arith;
  };
  fits_fragment = hello_fragment-IsFragment;
  content_type = refl;
  payload = refl;
  msg_type = refl;
  from_start = refl;
  to_end = refl;
  frag = refl;
  start = refl;
}

decode_client_hello-parts_example :
    decode_client_hello_untrusted (bytes_of hello_record ++ 5 ∷ [])
    ≡ ok (3, (hello.cookie, before hello ++ hello.rest))
decode_client_hello-parts_example =
    decode_client_hello-parts hello_record hello_fragment hello (5 ∷ []) hello_record-Carries

abbrev short_hello : List ℕ
short_hello = 22 ∷ (zeros 12 ++ 1 ∷ [])

decode_client_hello-errors_example :
    only_bad_packet (decode_client_hello_untrusted short_hello) ≡ true
unfolding is_client_hello_untrusted get_elem
decode_client_hello-errors_example = decode_client_hello-errors short_hello refl

abbrev two_fields : List (List ℕ)
two_fields = (1 ∷ []) ∷ (2 ∷ 3 ∷ []) ∷ []

signable-injective_example : two_fields ≡ two_fields
signable-injective_example =
    signable-injective two_fields two_fields (omega arith, (omega arith, tt))
      (omega arith, (omega arith, tt)) refl

-- A digest of 32 bytes.
abbrev digest : List ℕ → List ℕ → List ℕ
digest key text = take 32 (text ++ zeros 32)

length-digest : (key text : List ℕ) → length (digest key text) ≡ 32
length-digest key text =
    omega (arith, length-take 32 (text ++ zeros 32), length-append text (zeros 32))

material : IsMaterial (zeros 32) (zeros 8) two_fields (1 ∷ [])
unfolding Signable.bytes_of to_be
material = record {
  key_length = refl;
  salt_length = refl;
  parts = (omega arith, (omega arith, tt));
  address_length = omega arith;
  bits_length = omega arith;
}

valid_cookie-fresh_example :
    (cookie : List ℕ) × (make_cookie digest (zeros 32) (zeros 8) 4 two_fields (1 ∷ []) ≡ ok cookie)
    × (valid_cookie digest 4 (zeros 32) cookie two_fields (1 ∷ []) ≡ ok true)
    × (valid_cookie digest 5 (zeros 32) cookie two_fields (1 ∷ []) ≡ ok true)
valid_cookie-fresh_example =
    valid_cookie-fresh digest length-digest (zeros 32) (zeros 8) two_fields (1 ∷ []) material 4
      (omega arith)

-- Of 30 bytes, for packets of 50.
abbrev server_hello : HandshakeMessage
server_hello = record { record_version = dtls10; msg_type = 2; msg_seq = 1; body = zeros 30 }

abbrev change_cipher : PseudoHandshakeMessage
change_cipher = record { record_version = dtls10; content_type = 20; payload = 1 ∷ [] }

abbrev flight : List Message
flight = whole server_hello ∷ pseudo change_cipher ∷ opaque data_record ∷ []

abbrev encoder : Encoder
encoder = (set_first_record_number 7 create).1

flight-AllSendable : AllSendable 50 [] flight
unfolding mem
flight-AllSendable = (
  (
    record {
      record_version = refl;
      msg_type = omega arith;
      known_type = refl;
      msg_seq = omega arith;
      body = omega arith;
    },
    tt,
  ),
  (
    record { content_type = refl; record_version = refl; room = omega arith },
    (record { valid = data_record-IsRecord; epoch = refl; room = omega arith }, tt),
  ),
)

decode_volley-encode_volley_example :
    (packets : List (List ℕ)) × ((encode_volley flight 50 encoder).0 ≡ ok packets)
    × AllSmall 50 packets
    × (decode_volley_trusted (concat packets) ≡ ok flight)
decode_volley-encode_volley_example =
    decode_volley-encode_volley 50 (omega arith) (omega arith) flight encoder flight-AllSendable
      (omega arith)

-- A record that fills its packet leaves an empty packet before it.
abbrev full_record : Record
full_record = record {
  content_type = 22;
  version = dtls10;
  epoch_seqno = 2 ^ 48;
  payload = zeros 2;
}

empty_packet :
    (encode_volley (opaque full_record ∷ []) 15 create).0
    ≡ ok ([] ∷ (22 ∷ 254 ∷ 255 ∷ 0 ∷ 1 ∷ 0 ∷ 0 ∷ 0 ∷ 0 ∷ 0 ∷ 0 ∷ 0 ∷ 2 ∷ 0 ∷ 0 ∷ []) ∷ [])
unfolding encode_volley encode_messages encode_message encode_record pack_header pack to_be
empty_packet = refl
