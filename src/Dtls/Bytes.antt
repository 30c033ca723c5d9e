-- ===== src/Dtls/Bytes.antt =====
-- Python's `bytes` as lists of numbers below 256; `int.to_bytes`, `int.from_bytes` and the fields of
-- `struct` in network order, for trio/_dtls.py.
use trio.Prelude.{
  ℕ, zero, suc, ◌+◌, ◌*◌, ◌/◌, ◌%◌, ◌^◌, ◌<◌, ◌≡◌, refl, ap, List, [], ◌∷◌, ◌++◌, if◌then◌else◌,
  ltb, length, take, drop, arith, length-append,
}
use native.Mathlib.Numerals.{unary_clauses}
use trio.Exec.{struct_error, bad_packet, Error, Result, ok, raise}

-- Big-endian, in `n` bytes; and back.
unfoldable pub to_be : ℕ → ℕ → List ℕ
to_be zero v = []
to_be (suc n) v = to_be n (v / 256) ++ v % 256 ∷ []

unfoldable pub from_be : ℕ → List ℕ → ℕ
from_be acc [] = acc
from_be acc (b ∷ bs) = from_be (acc * 256 + b) bs

-- An unsigned field of `n` bytes: too great a number raises `e`.
unfoldable pub pack : Error → ℕ → ℕ → Result (List ℕ)
pack e n v = if ltb v (256 ^ n) then ok (to_be n v) else raise e

-- A field of `n` bytes of text, as `2s`: cut, or filled up with zeros.
abbrev pub zeros : ℕ → List ℕ
zeros zero = []
zeros (suc n) = 0 ∷ zeros n

abbrev pub pack_text : ℕ → List ℕ → List ℕ
pack_text n bs = take n (bs ++ zeros n)

-- The next `n` bytes, and what follows them.
unfoldable pub read : ℕ → List ℕ → Result (List ℕ × List ℕ)
read n bs = if ltb (length bs) n then raise struct_error else ok (take n bs, drop n bs)

-- `except struct.error: raise BadPacket`
abbrev pub or_bad {ℓ} : {A : Type ℓ} → Result A → Result A
or_bad (raise struct_error) = raise bad_packet
or_bad r = r

pub take_prefix : (xs ys : List ℕ) → take (length xs) (xs ++ ys) ≡ xs
take_prefix [] ys = refl
take_prefix (x ∷ xs) ys = ap (◌∷◌ x) (take_prefix xs ys)

pub drop_prefix : (xs ys : List ℕ) → drop (length xs) (xs ++ ys) ≡ ys
drop_prefix [] ys = refl
drop_prefix (x ∷ xs) ys = drop_prefix xs ys

pub read-append : (n : ℕ) (xs ys : List ℕ) → length xs ≡ n → read n (xs ++ ys) ≡ ok (xs, ys)
unfolding read
read-append n xs ys h =
    rw (← h) (ground (arith, length-append xs ys, take_prefix xs ys, drop_prefix xs ys))

pub length-to_be : (n v : ℕ) → length (to_be n v) ≡ n
unfolding to_be
length-to_be zero v = refl
length-to_be (suc n) v =
    omega (arith, length-append (to_be n (v / 256)) (v % 256 ∷ []), length-to_be n (v / 256))

from_be-append : (a : ℕ) (xs : List ℕ) (b : ℕ) → from_be a (xs ++ b ∷ []) ≡ from_be a xs * 256 + b
unfolding from_be
from_be-append a [] b = refl
from_be-append a (x ∷ xs) b = from_be-append (a * 256 + x) xs b

pow_shrinks : (v p : ℕ) → v < 256 * p → v / 256 < p
pow_shrinks v p h = omega arith

pub from_be-to_be : (n v : ℕ) → v < 256 ^ n → from_be 0 (to_be n v) ≡ v
unfolding from_be to_be
from_be-to_be zero v h = omega arith
from_be-to_be (suc n) v h =
    rw
      (
        from_be-append 0 (to_be n (v / 256)) (v % 256),
        from_be-to_be n (v / 256)
            (pow_shrinks v (256 ^ n) (omega (arith, simp unary_clauses at h))),
      )
      (omega arith)

pub pack_text_whole : (n : ℕ) (bs : List ℕ) → length bs ≡ n → pack_text n bs ≡ bs
pack_text_whole n bs h = rw (← h) (take_prefix bs (zeros (length bs)))

pub pack_ok : (e : Error) (n v : ℕ) → v < 256 ^ n → pack e n v ≡ ok (to_be n v)
unfolding pack
pack_ok e n v h = ground arith

-- Chains of calls that may raise.
infixl 10 ◌>>=◌
abbrev pub ◌>>=◌ {ℓ κ} : {A : Type ℓ} {B : Type κ} → Result A → (A → Result B) → Result B
ok a >>= f = f a
raise e >>= f = raise e
