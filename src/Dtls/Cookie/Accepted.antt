-- ===== src/Dtls/Cookie/Accepted.antt =====
-- The cookies that `valid_cookie` of trio/_dtls.py accepts.
use trio.Prelude.{
  ℕ, zero, suc, ◌+◌, ◌-◌, ◌≤◌, ◌<◌, ◌^◌, ◌≡◌, refl, ap, true, ◌||◌, List, [], ◌∷◌, ◌++◌, ==_refl,
  length, take, arith, length-append, length-take,
}
use trio.Exec.{struct_error, ok}
use trio.Dtls.Bytes.{to_be, length-to_be, pack_ok}
use trio.Dtls.ClientHello.{bytes_eq}
use trio.Dtls.Cookie.{make_cookie, valid_cookie}
use trio.Dtls.Cookie.Signable.{AllFit, bytes_of, signable-eq}

bytes_eq_refl : (xs : List ℕ) → bytes_eq xs xs ≡ true
bytes_eq_refl [] = refl
bytes_eq_refl (x ∷ xs) = rw (==_refl x, bytes_eq_refl xs) refl

-- The beginning of a list, of which more is kept.
take-take_more :
    (m n : ℕ) (xs ys : List ℕ) → length xs ≡ m → m ≤ n → take m (take n (xs ++ ys)) ≡ xs
take-take_more zero n [] ys e h = refl
take-take_more zero n (x ∷ xs) ys e h = absurd (omega arith)
take-take_more (suc m) n [] ys e h = absurd (omega arith)
take-take_more (suc m) zero (x ∷ xs) ys e h = absurd (omega arith)
take-take_more (suc m) (suc n) (x ∷ xs) ys e h =
    ap (◌∷◌ x) (take-take_more m n xs ys (omega arith) (omega arith))

-- What a cookie is made of, with the sizes that Python's `struct` and the assertions ask for.
pub record IsMaterial (key salt : List ℕ) (address : List (List ℕ)) (bits : List ℕ) : Type 0 where
  pub key_length : length key ≡ 32
  pub salt_length : length salt ≡ 8
  pub parts : AllFit address
  pub address_length : length (bytes_of address) < 256 ^ 8
  pub bits_length : length bits < 256 ^ 8

module _ (digest : List ℕ → List ℕ → List ℕ)
    (digest_length : (key text : List ℕ) → length (digest key text) ≡ 32) (key salt : List ℕ)
    (address : List (List ℕ)) (bits : List ℕ) (m : IsMaterial key salt address bits) where
  fields : ℕ → List (List ℕ)
  fields tick = salt ∷ to_be 8 tick ∷ bytes_of address ∷ bits ∷ []

  cookie_of : ℕ → List ℕ
  cookie_of tick = take 32 (salt ++ digest key (bytes_of (fields tick)))

  make_cookie-eq :
      (tick : ℕ)
      → tick < 256 ^ 8
      → make_cookie digest key salt tick address bits ≡ ok (cookie_of tick)
  unfolding make_cookie cookie_of fields
  make_cookie-eq tick h =
      rw (m.salt_length, m.key_length)
        (rw (pack_ok struct_error 8 tick h, signable-eq address m.parts)
          (rw
            (signable-eq (fields tick)
              (small, (tick_fits, (m.address_length, (m.bits_length, tt)))))
            refl))
    where
      small : length salt < 256 ^ 8
      small = omega (arith, m.salt_length)

      tick_fits : length (to_be 8 tick) < 256 ^ 8
      tick_fits = omega (arith, length-to_be 8 tick)

  salt_kept : (tick : ℕ) → take 8 (cookie_of tick) ≡ salt
  unfolding cookie_of
  salt_kept tick = take-take_more 8 32 salt _ m.salt_length (omega arith)

  length-cookie : (tick : ℕ) → length (cookie_of tick) ≡ 32
  unfolding cookie_of
  length-cookie tick = omega (
    arith,
    length-take 32 (salt ++ digest key (bytes_of (fields tick))),
    length-append salt (digest key (bytes_of (fields tick))),
    m.salt_length,
    digest_length key (bytes_of (fields tick)),
  )

  valid_cookie-eq :
      (now tick : ℕ)
      → now < 256 ^ 8
      → valid_cookie digest now key (cookie_of tick) address bits
        ≡ ok (
            bytes_eq (cookie_of tick) (cookie_of now)
            || bytes_eq (cookie_of tick) (cookie_of (now - 1)))
  unfolding valid_cookie
  valid_cookie-eq now tick h =
      rw (length-cookie tick) (
        rw (salt_kept tick)
          (rw (make_cookie-eq now h, make_cookie-eq (now - 1) (omega arith)) refl))

  -- A cookie made at some tick is accepted at that tick and at the next one, for the same key,
  -- address and data, where the digest has 32 bytes and all sizes fit their fields: it is good for at
  -- least one whole refresh interval.
  pub valid_cookie-fresh :
      (tick : ℕ)
      → tick + 1 < 256 ^ 8
      → (cookie : List ℕ) × (make_cookie digest key salt tick address bits ≡ ok cookie)
        × (valid_cookie digest tick key cookie address bits ≡ ok true)
        × (valid_cookie digest (tick + 1) key cookie address bits ≡ ok true)
  valid_cookie-fresh tick h = (
    cookie_of tick,
    make_cookie-eq tick (omega arith),
    rw (valid_cookie-eq tick tick (omega arith)) (rw (bytes_eq_refl (cookie_of tick)) refl),
    rw (valid_cookie-eq (tick + 1) tick h) (next_tick (tick + 1 - 1) (omega arith)),
  )
    where
      next_tick :
          (t : ℕ)
          → t ≡ tick
          → ok (
              bytes_eq (cookie_of tick) (cookie_of (tick + 1))
              || bytes_eq (cookie_of tick) (cookie_of t))
            ≡ ok true
      next_tick t e = ground (arith, e, bytes_eq_refl (cookie_of tick))
