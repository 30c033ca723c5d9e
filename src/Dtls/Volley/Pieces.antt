-- ===== src/Dtls/Volley/Pieces.antt =====
-- Handshake messages of trio/_dtls.py that are put together from fragments.
use trio.Prelude.{
  ℕ, zero, suc, ◌+◌, ◌≤◌, ◌≡◌, refl, sym, ap, ◌∙◌, false, List, [], ◌∷◌, ◌++◌, ◌==◌, length, take,
  drop, arith, append_assoc, append-nil, length-append, length-take, length-drop,
}
use trio.Exec.{ok}
use trio.Dtls.Bytes.{zeros}
use trio.Dtls.Handshake.{HandshakeFragment}
use trio.Dtls.Volley.{Message, HandshakeMessage, whole, pseudo, opaque, place, put_fragment}

-- The message of which the first `n` bytes have come.
abbrev pub so_far : HandshakeMessage → ℕ → List ℕ
so_far m n = take n m.body ++ drop n (zeros (length m.body))

abbrev pub partial : HandshakeMessage → ℕ → Message
partial m n = whole (record m { body = so_far m n })

-- No handshake message of the list has the number.
abbrev pub IsAbsent : ℕ → List Message → Type 0
IsAbsent seq [] = Unit {0}
IsAbsent seq (whole m ∷ ms) = ((m.msg_seq == seq) ≡ false) × IsAbsent seq ms
IsAbsent seq (pseudo m ∷ ms) = IsAbsent seq ms
IsAbsent seq (opaque r ∷ ms) = IsAbsent seq ms

length-zeros : (n : ℕ) → length (zeros n) ≡ n
length-zeros zero = refl
length-zeros (suc n) = ap suc (length-zeros n)

pub length-so_far :
    (m : HandshakeMessage) (n : ℕ) → n ≤ length m.body → length (so_far m n) ≡ length m.body
length-so_far m n h = omega (
  arith,
  length-append (take n m.body) (drop n (zeros (length m.body))),
  length-take n m.body,
  length-drop n (zeros (length m.body)),
  length-zeros (length m.body),
)

take-all : (n : ℕ) (xs : List ℕ) → length xs ≤ n → take n xs ≡ xs
take-all zero [] h = refl
take-all zero (x ∷ xs) h = absurd (omega arith)
take-all (suc n) [] h = refl
take-all (suc n) (x ∷ xs) h = ap (◌∷◌ x) (take-all n xs (omega arith))

drop-all : (n : ℕ) (xs : List ℕ) → length xs ≤ n → drop n xs ≡ []
drop-all zero [] h = refl
drop-all zero (x ∷ xs) h = absurd (omega arith)
drop-all (suc n) [] h = refl
drop-all (suc n) (x ∷ xs) h = drop-all n xs (omega arith)

take-prefix : (n : ℕ) (xs ys zs : List ℕ) → n ≤ length xs → take n (take n xs ++ ys) ≡ take n xs
take-prefix zero xs ys zs h = refl
take-prefix (suc n) [] ys zs h = absurd (omega arith)
take-prefix (suc n) (x ∷ xs) ys zs h = ap (◌∷◌ x) (take-prefix n xs ys zs (omega arith))

drop_empty : (k : ℕ) → drop {A = ℕ} k [] ≡ []
drop_empty zero = refl
drop_empty (suc k) = refl

take_empty : (k : ℕ) → take {A = ℕ} k [] ≡ []
take_empty zero = refl
take_empty (suc k) = refl

drop_add : (n k j : ℕ) (l : List ℕ) → n + k ≡ j → drop j l ≡ drop k (drop n l)
drop_add zero k j l e = ap (λ i. drop i l) (omega arith)
drop_add (suc n) k zero l e = absurd (omega arith)
drop_add (suc n) k (suc j) [] e = sym (drop_empty k)
drop_add (suc n) k (suc j) (x ∷ xs) e = drop_add n k j xs (omega arith)

take_add : (n k j : ℕ) (l : List ℕ) → n + k ≡ j → take n l ++ take k (drop n l) ≡ take j l
take_add zero k j l e = ap (λ i. take i l) (omega arith)
take_add (suc n) k zero l e = absurd (omega arith)
take_add (suc n) k (suc j) [] e = take_empty k
take_add (suc n) k (suc j) (x ∷ xs) e = ap (◌∷◌ x) (take_add n k j xs (omega arith))

drop-taken : (n : ℕ) (xs ys : List ℕ) → n ≤ length xs → drop n (take n xs ++ ys) ≡ ys
drop-taken zero xs ys h = refl
drop-taken (suc n) [] ys h = absurd (omega arith)
drop-taken (suc n) (x ∷ xs) ys h = drop-taken n xs ys (omega arith)

drop-prefix :
    (n k : ℕ) (xs zs : List ℕ)
    → n ≤ length xs
    → drop (n + k) (take n xs ++ drop n zs) ≡ drop (n + k) zs
drop-prefix n k xs zs h =
    drop_add n k (n + k) (take n xs ++ drop n zs) refl
    ∙ ap (drop k) (drop-taken n xs (drop n zs) h)
    ∙ sym (drop_add n k (n + k) zs refl)

-- The next piece, put in its place.
pub place-so_far :
    (m : HandshakeMessage) (f : HandshakeFragment) (n k : ℕ)
    → n ≤ length m.body
    → f.frag_offset ≡ n
    → f.frag_len ≡ k
    → f.frag ≡ take k (drop n m.body)
    → place f (so_far m n) ≡ so_far m (n + k)
place-so_far m f n k h o l e =
    rw (o, l, e)
      (rw
        (
          take-prefix n m.body (drop n (zeros (length m.body))) [] h,
          drop-prefix n k m.body (zeros (length m.body)) h,
        )
        (sym (
            append_assoc (take n m.body) (take k (drop n m.body))
              (drop (n + k) (zeros (length m.body))))
          ∙ ap (λ l. l ++ drop (n + k) (zeros (length m.body))) (take_add n k (n + k) m.body refl)))

pub so_far-all : (m : HandshakeMessage) → so_far m (length m.body) ≡ m.body
so_far-all m =
    rw
      (
        take-all (length m.body) m.body (omega arith),
        drop-all (length m.body) (zeros (length m.body))
            (omega (arith, length-zeros (length m.body))),
      )
      (append-nil m.body)

module _ (version : List ℕ) (f : HandshakeFragment) where
  pub put_first :
      (ms : List Message)
      → IsAbsent f.msg_seq ms
      → put_fragment version f ms
        ≡ ok (
            ms
            ++ whole (record {
              record_version = version;
              msg_type = f.msg_type;
              msg_seq = f.msg_seq;
              body = place f (zeros f.msg_len);
            })
              ∷ [])
  unfolding put_fragment
  put_first [] a = refl
  put_first (whole m ∷ ms) (ne, a) = rw (put_first ms a) (rw ne refl)
  put_first (pseudo m ∷ ms) a = rw (put_first ms a) refl
  put_first (opaque r ∷ ms) a = rw (put_first ms a) refl

  pub put_next :
      (ms : List Message) (m : HandshakeMessage)
      → IsAbsent f.msg_seq ms
      → m.msg_seq ≡ f.msg_seq
      → m.msg_type ≡ f.msg_type
      → length m.body ≡ f.msg_len
      → put_fragment version f (ms ++ whole m ∷ [])
        ≡ ok (ms ++ whole (record m { body = place f m.body }) ∷ [])
  unfolding put_fragment
  put_next [] m a s t l = ground arith
  put_next (whole p ∷ ms) m (ne, a) s t l = rw (put_next ms m a s t l) (rw ne refl)
  put_next (pseudo p ∷ ms) m a s t l = rw (put_next ms m a s t l) refl
  put_next (opaque r ∷ ms) m a s t l = rw (put_next ms m a s t l) refl
