-- ===== src/Dtls/ClientHello/Parts.antt =====
-- What `decode_client_hello_untrusted` of trio/_dtls.py finds in a ClientHello.
use trio.Prelude.{
  ℕ, ◌+◌, ◌≡◌, refl, sym, List, [], ◌∷◌, ◌++◌, ==_refl, length, take, drop, arith, append_assoc,
  length-append,
}
use trio.Exec.{ok}
use trio.Dtls.Bytes.{to_be, take_prefix, drop_prefix}
use trio.Dtls.Record.{Record, records_untrusted}
use trio.Dtls.Record.RoundTrip.{IsRecord, next_record-eq, records_loop-step, bytes_of}
use trio.Dtls.Handshake.{HandshakeFragment}
use trio.Dtls.Handshake.RoundTrip.{IsFragment, decode-eq}
use trio.Dtls.Handshake.RoundTrip
use trio.Dtls.ContentType
use trio.Dtls.HandshakeType
use trio.Dtls.ClientHello.{
  get_elem, slice, first_record, split_cookie, hello_parts, decode_client_hello_untrusted,
}

-- The body of a ClientHello: `start` is the version and the random, `rest` everything after the
-- cookie.
pub record Hello : Type 0 where
  pub start : List ℕ
  pub session_id : List ℕ
  pub cookie : List ℕ
  pub rest : List ℕ

abbrev pub before : Hello → List ℕ
before h = h.start ++ (length h.session_id ∷ h.session_id)

abbrev pub body : Hello → List ℕ
body h = before h ++ (length h.cookie ∷ (h.cookie ++ h.rest))

get_elem-append : (xs : List ℕ) (y : ℕ) (ys : List ℕ) → get_elem (length xs) (xs ++ y ∷ ys) ≡ ok y
unfolding get_elem
get_elem-append [] y ys = refl
get_elem-append (x ∷ xs) y ys = get_elem-append xs y ys

get_elem-at :
    (i : ℕ) (xs : List ℕ) (y : ℕ) (ys : List ℕ) → length xs ≡ i → get_elem i (xs ++ y ∷ ys) ≡ ok y
get_elem-at i xs y ys h = rw (← h) (get_elem-append xs y ys)

module _ (h : Hello) (start : length h.start ≡ 34) where
  length-before : length (before h) ≡ 2 + 32 + 1 + length h.session_id
  length-before = omega (arith, length-append h.start (length h.session_id ∷ h.session_id))

  take-at : (n : ℕ) (xs ys : List ℕ) → length xs ≡ n → take n (xs ++ ys) ≡ xs
  take-at n xs ys e = rw (← e) (take_prefix xs ys)

  drop-at : (n : ℕ) (xs ys : List ℕ) → length xs ≡ n → drop n (xs ++ ys) ≡ ys
  drop-at n xs ys e = rw (← e) (drop_prefix xs ys)

  offset : ℕ
  offset = 2 + 32 + 1 + length h.session_id

  -- The body up to the cookie, its length included.
  upto : List ℕ
  upto = before h ++ length h.cookie ∷ []

  length-upto : length upto ≡ offset + 1
  unfolding upto offset
  length-upto = omega (arith, length-before, length-append (before h) (length h.cookie ∷ []))

  body-upto : body h ≡ upto ++ (h.cookie ++ h.rest)
  unfolding upto
  body-upto = sym (append_assoc (before h) (length h.cookie ∷ []) (h.cookie ++ h.rest))

  session_id_read : get_elem (2 + 32) (body h) ≡ ok (length h.session_id)
  session_id_read =
      rw (append_assoc h.start (length h.session_id ∷ h.session_id))
        (get_elem-at (2 + 32) h.start (length h.session_id) _ start)

  length_read : get_elem offset (body h) ≡ ok (length h.cookie)
  unfolding offset
  length_read = get_elem-at offset (before h) (length h.cookie) (h.cookie ++ h.rest) length-before

  cookie_read : slice (offset + 1) (length h.cookie) (body h) ≡ h.cookie
  cookie_read =
      rw (body-upto, drop-at (offset + 1) upto (h.cookie ++ h.rest) length-upto)
        (take_prefix h.cookie h.rest)

  before_read : take offset (body h) ≡ before h
  unfolding offset
  before_read = take-at offset (before h) (length h.cookie ∷ (h.cookie ++ h.rest)) length-before

  rest_read : drop (offset + 1 + length h.cookie) (body h) ≡ h.rest
  rest_read =
      rw (body-upto, ← append_assoc upto h.cookie h.rest)
        (drop-at (offset + 1 + length h.cookie) (upto ++ h.cookie) h.rest
          (omega (arith, length-append upto h.cookie, length-upto)))

  split_cookie-eq : split_cookie (body h) ≡ ok (h.cookie, before h ++ h.rest)
  unfolding split_cookie offset
  split_cookie-eq = rw session_id_read (
      rw length_read
        (rw cookie_read (rw (==_refl (length h.cookie)) (rw (before_read, rest_read) refl))))

-- A record that carries a whole ClientHello in one fragment.
pub record Carries (r : Record) (f : HandshakeFragment) (h : Hello) : Type 0 where
  pub fits_record : IsRecord r
  pub fits_fragment : IsFragment f
  pub content_type : r.content_type ≡ ContentType.handshake
  pub payload : r.payload ≡ RoundTrip.bytes_of f
  pub msg_type : f.msg_type ≡ HandshakeType.client_hello
  pub from_start : f.frag_offset ≡ 0
  pub to_end : f.frag_len ≡ f.msg_len
  pub frag : f.frag ≡ body h
  pub start : length h.start ≡ 34

first_of_packet :
    (r : Record) (more : List ℕ)
    → IsRecord r
    → first_record (records_untrusted (bytes_of r ++ more)) ≡ ok r
unfolding records_untrusted first_record bytes_of to_be
first_of_packet r more v =
    rw (records_loop-step _ (bytes_of r ++ more) r more refl (next_record-eq r v more)) refl

-- From a packet whose first record carries a whole ClientHello, `decode_client_hello_untrusted`
-- gets the record's number, the cookie, and all of the message but the cookie and its length, so
-- that a ClientHello repeated with a cookie has the same data for it.
pub decode_client_hello-parts :
    (r : Record) (f : HandshakeFragment) (h : Hello) (more : List ℕ)
    → Carries r f h
    → decode_client_hello_untrusted (bytes_of r ++ more)
      ≡ ok (r.epoch_seqno, (h.cookie, before h ++ h.rest))
unfolding decode_client_hello_untrusted hello_parts
decode_client_hello-parts r f h more c = rw (first_of_packet r more c.fits_record) (
    rw (c.content_type, c.payload)
      (rw (decode-eq f c.fits_fragment) (
        rw (c.msg_type, c.from_start, c.to_end)
          (rw (==_refl f.msg_len) (rw c.frag (rw (split_cookie-eq h c.start) refl))))))
