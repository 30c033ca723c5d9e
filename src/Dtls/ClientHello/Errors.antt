-- ===== src/Dtls/ClientHello/Errors.antt =====
-- Which exceptions leave the functions of trio/_dtls.py that read packets from the network.
use trio.Prelude.{
  ℕ, zero, suc, ◌+◌, ◌≡◌, refl, Bool, true, false, not, List, [], ◌∷◌, if◌then◌else◌, ◌==◌, ltb,
  length,
}
use trio.Exec.{Error, struct_error, index_error, bad_packet, Result, ok, raise}
use trio.Dtls.Bytes.{read, or_bad, ◌>>=◌}
use trio.Dtls.Record.{
  Record, Records, then_yield, next_record, unpack_header, records_loop, records_untrusted,
}
use trio.Dtls.Handshake.{unpack_fragment, decode_handshake_fragment_untrusted}
use trio.Dtls.ContentType
use trio.Dtls.HandshakeType
use trio.Dtls.ClientHello.{
  get_elem, slice, first_record, split_cookie, or_bad_hello, hello_parts,
  decode_client_hello_untrusted, is_client_hello_untrusted,
}

-- The exceptions that `decode_client_hello_untrusted` catches, or means to raise.
abbrev pub caught : Error → Bool
caught struct_error = true
caught index_error = true
caught bad_packet = true
caught _ = false

abbrev pub is_bad_packet : Error → Bool
is_bad_packet bad_packet = true
is_bad_packet _ = false

module _ {ℓ} {A : Type ℓ} where
  abbrev pub within : Result A → Bool
  within (ok a) = true
  within (raise e) = caught e

  -- The call returns, or raises BadPacket.
  abbrev pub only_bad_packet : Result A → Bool
  only_bad_packet (ok a) = true
  only_bad_packet (raise e) = is_bad_packet e

  or_bad_hello-only : (r : Result A) → within r ≡ true → only_bad_packet (or_bad_hello r) ≡ true
  or_bad_hello-only (ok a) h = refl
  or_bad_hello-only (raise struct_error) h = refl
  or_bad_hello-only (raise index_error) h = refl
  or_bad_hello-only (raise e) h = h

  or_bad-within : (r : Result A) → within r ≡ true → within (or_bad r) ≡ true
  or_bad-within (ok a) h = refl
  or_bad-within (raise struct_error) h = refl
  or_bad-within (raise e) h = h

  within-if :
      (b : Bool) (x y : Result A)
      → within x ≡ true
      → within y ≡ true
      → within (if b then x else y) ≡ true
  within-if true x y h k = h
  within-if false x y h k = k

within-bind {ℓ κ} :
    {A : Type ℓ} {B : Type κ} (r : Result A) (f : A → Result B)
    → within r ≡ true
    → ((a : A) → within (f a) ≡ true)
    → within (r >>= f) ≡ true
within-bind (ok a) f h g = g a
within-bind (raise e) f h g = h

read-within : (n : ℕ) (bs : List ℕ) → within (read n bs) ≡ true
unfolding read
read-within n bs = within-if (ltb (length bs) n) _ _ refl refl

get_elem-within : (i : ℕ) (bs : List ℕ) → within (get_elem i bs) ≡ true
unfolding get_elem
get_elem-within i [] = refl
get_elem-within zero (b ∷ bs) = refl
get_elem-within (suc i) (b ∷ bs) = get_elem-within i bs

unpack_header-within : (p : List ℕ) → within (unpack_header p) ≡ true
unfolding unpack_header
unpack_header-within p = within-bind (read 1 p) _ (read-within 1 p) λ (_, p1).
    within-bind (read 2 p1) _ (read-within 2 p1) λ (_, p2).
      within-bind (read 8 p2) _ (read-within 8 p2)
        λ (_, p3). within-bind (read 2 p3) _ (read-within 2 p3) λ _. refl

next_record-within : (p : List ℕ) → within (next_record p) ≡ true
unfolding next_record
next_record-within p =
    within-bind (or_bad (unpack_header p)) _ (or_bad-within _ (unpack_header-within p)) λ (h, rest).
      within-bind (or_bad (read h.payload_len rest)) _
        (or_bad-within _ (read-within h.payload_len rest)) λ _. refl

first_record-within :
    (r : Result (Record × List ℕ)) (go_on : List ℕ → Records)
    → within r ≡ true
    → within (first_record (then_yield r go_on)) ≡ true
unfolding first_record
first_record-within (ok (r, rest)) go_on h = refl
first_record-within (raise e) go_on h = h

records-within : (b : ℕ) (bs : List ℕ) → within (first_record (records_untrusted (b ∷ bs))) ≡ true
unfolding records_untrusted records_loop
records-within b bs = first_record-within (next_record (b ∷ bs)) _ (next_record-within (b ∷ bs))

unpack_fragment-within : (p : List ℕ) → within (unpack_fragment p) ≡ true
unfolding unpack_fragment
unpack_fragment-within p = within-bind (read 1 p) _ (read-within 1 p) λ (_, p1).
    within-bind (read 3 p1) _ (read-within 3 p1) λ (_, p2).
      within-bind (read 2 p2) _ (read-within 2 p2) λ (_, p3).
        within-bind (read 3 p3) _ (read-within 3 p3)
          λ (_, p4). within-bind (read 3 p4) _ (read-within 3 p4) λ _. refl

decode-within : (p : List ℕ) → within (decode_handshake_fragment_untrusted p) ≡ true
unfolding decode_handshake_fragment_untrusted
decode-within p =
    within-bind (or_bad (unpack_fragment p)) _ (or_bad-within _ (unpack_fragment-within p))
      λ f. within-if (length f.frag == f.frag_len) _ _ refl refl

split_cookie-within : (body : List ℕ) → within (split_cookie body) ≡ true
unfolding split_cookie
split_cookie-within body = within-bind (get_elem (2 + 32) body) _ (get_elem-within _ body) λ n.
    within-bind (get_elem (2 + 32 + 1 + n) body) _ (get_elem-within _ body)
      λ m. within-if (length (slice (2 + 32 + 1 + n + 1) m body) == m) _ _ refl refl

hello_parts-within : (b : ℕ) (bs : List ℕ) → within (hello_parts (b ∷ bs)) ≡ true
unfolding hello_parts
hello_parts-within b bs =
    within-bind (first_record (records_untrusted (b ∷ bs))) _ (records-within b bs) λ r.
      within-if (not (r.content_type == ContentType.handshake)) _ _ refl (
        within-bind (decode_handshake_fragment_untrusted r.payload) _ (decode-within r.payload) λ f.
          within-if (not (f.msg_type == HandshakeType.client_hello)) _ _ refl (
            within-if (not (f.frag_offset == 0)) _ _ refl (
              within-if (not (f.frag_len == f.msg_len)) _ _ refl
                (within-bind (split_cookie f.frag) _ (split_cookie-within f.frag) λ _. refl))))

-- On a packet that has passed `is_client_hello_untrusted`, `decode_client_hello_untrusted` returns
-- or raises BadPacket, and no other exception, whatever bytes the packet has.
pub decode_client_hello-errors :
    (packet : List ℕ)
    → is_client_hello_untrusted packet ≡ ok true
    → only_bad_packet (decode_client_hello_untrusted packet) ≡ true
unfolding decode_client_hello_untrusted is_client_hello_untrusted get_elem
decode_client_hello-errors [] h = cc
decode_client_hello-errors (b ∷ bs) h =
    or_bad_hello-only (hello_parts (b ∷ bs)) (hello_parts-within b bs)
