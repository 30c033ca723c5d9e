-- ===== src/Dtls/ClientHello.antt =====
-- trio/_dtls.py: `part_of_handshake_untrusted`, `is_client_hello_untrusted` and
-- `decode_client_hello_untrusted`, which reads the first message of a client.
pub mod Errors
pub mod Parts
use trio.Prelude.{
  ℕ, suc, zero, ◌+◌, Bool, true, false, not, ◌&&◌, List, [], ◌∷◌, ◌++◌, if◌then◌else◌, ◌==◌, length,
  take, drop,
}
use trio.Exec.{Error, struct_error, index_error, bad_packet, stop_iteration, Result, ok, raise}
use trio.Dtls.Bytes.{◌>>=◌}
use trio.Dtls.Record.{Record, Records, finished, failed, yields, records_untrusted}
use trio.Dtls.Handshake.{HandshakeFragment, decode_handshake_fragment_untrusted}
use trio.Dtls.ContentType
use trio.Dtls.HandshakeType

-- `l[i]`
unfoldable pub get_elem : ℕ → List ℕ → Result ℕ
get_elem i [] = raise index_error
get_elem zero (x ∷ xs) = ok x
get_elem (suc i) (x ∷ xs) = get_elem i xs

abbrev pub bytes_eq : List ℕ → List ℕ → Bool
bytes_eq [] [] = true
bytes_eq (x ∷ xs) [] = false
bytes_eq [] (y ∷ ys) = false
bytes_eq (x ∷ xs) (y ∷ ys) = (x == y) && bytes_eq xs ys

-- `l[i:j]`, for i ≤ j
abbrev pub slice : ℕ → ℕ → List ℕ → List ℕ
slice i n l = take n (drop i l)

pub part_of_handshake_untrusted : List ℕ → Bool
part_of_handshake_untrusted packet = bytes_eq (slice 3 2 packet) (0 ∷ 0 ∷ [])

-- `except IndexError: return False`
abbrev pub or_false : Result Bool → Result Bool
or_false (raise index_error) = ok false
or_false r = r

unfoldable pub is_client_hello_untrusted : List ℕ → Result Bool
is_client_hello_untrusted packet = or_false (do
  ct ← get_elem 0 packet
  if ct == ContentType.handshake
      then (do ty ← get_elem 13 packet; ok (ty == HandshakeType.client_hello))
      else ok false)

-- `next` of the generator
unfoldable pub first_record : Records → Result Record
first_record finished = raise stop_iteration
first_record (failed e) = raise e
first_record (yields r rs) = ok r

-- Where the cookie stands in the body: it, and the body without it.
unfoldable pub split_cookie : List ℕ → Result (List ℕ × List ℕ)
split_cookie body = do
  session_id_len ← get_elem (2 + 32) body
  let offset = 2 + 32 + 1 + session_id_len in
      (do
        cookie_len ← get_elem offset body
        let cookie = slice (offset + 1) cookie_len body in
            if length cookie == cookie_len
            then ok (cookie, take offset body ++ drop (offset + 1 + cookie_len) body)
            else raise bad_packet)

-- `except (struct.error, IndexError)`
abbrev pub or_bad_hello {ℓ} : {A : Type ℓ} → Result A → Result A
or_bad_hello (raise struct_error) = raise bad_packet
or_bad_hello (raise index_error) = raise bad_packet
or_bad_hello r = r

unfoldable pub hello_parts : List ℕ → Result (ℕ × (List ℕ × List ℕ))
hello_parts packet = do
  r ← first_record (records_untrusted packet)
  if not (r.content_type == ContentType.handshake) then raise bad_packet else (do
    f ← decode_handshake_fragment_untrusted r.payload
    if not (f.msg_type == HandshakeType.client_hello)
        then raise bad_packet
        else if not (f.frag_offset == 0)
        then raise bad_packet
        else if not (f.frag_len == f.msg_len)
        then raise bad_packet
        else (do parts ← split_cookie f.frag; ok (r.epoch_seqno, parts)))

unfoldable pub decode_client_hello_untrusted : List ℕ → Result (ℕ × (List ℕ × List ℕ))
decode_client_hello_untrusted packet = or_bad_hello (hello_parts packet)
