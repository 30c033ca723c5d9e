-- ===== src/Dtls/Cookie/Signable.antt =====
-- `_signable` of trio/_dtls.py, as a serialization.
use trio.Prelude.{ℕ, ◌<◌, ◌^◌, ◌≡◌, refl, sym, ap, ◌∙◌, List, [], ◌∷◌, ◌++◌, length}
use trio.Exec.{struct_error, Result, ok, raise}
use trio.Dtls.Bytes.{to_be, from_be, read, read-append, length-to_be, from_be-to_be, pack_ok}
use trio.Dtls.Cookie.{signable}

-- The length of each field fits the eight bytes it is written in.
abbrev pub AllFit : List (List ℕ) → Type 0
AllFit [] = Unit {0}
AllFit (field ∷ fields) = (length field < 256 ^ 8) × AllFit fields

unfoldable pub bytes_of : List (List ℕ) → List ℕ
bytes_of [] = []
bytes_of (field ∷ fields) = to_be 8 (length field) ++ (field ++ bytes_of fields)

pub signable-eq : (fields : List (List ℕ)) → AllFit fields → signable fields ≡ ok (bytes_of fields)
unfolding signable bytes_of
signable-eq [] v = refl
signable-eq (field ∷ fields) (v, vs) =
    rw (pack_ok struct_error 8 (length field) v, signable-eq fields vs) refl

abbrev got : List ℕ → List ℕ → Result (List ℕ × List ℕ)
got xs ys = ok (xs, ys)

from_ok : {A : Type 0} {a b : A} → ok a ≡ ok b → a ≡ b
from_ok {a} e = ap (λ r. elim r [ ok x ↦ x | raise e ↦ a ]) e

module _ (f g : List ℕ) (more others : List ℕ) (hf : length f < 256 ^ 8) (hg : length g < 256 ^ 8)
    (e : to_be 8 (length f) ++ (f ++ more) ≡ to_be 8 (length g) ++ (g ++ others)) where
  heads_read : got (to_be 8 (length f)) (f ++ more) ≡ got (to_be 8 (length g)) (g ++ others)
  heads_read =
      sym (read-append 8 (to_be 8 (length f)) (f ++ more) (length-to_be 8 (length f)))
      ∙ ap (read 8) e
      ∙ read-append 8 (to_be 8 (length g)) (g ++ others) (length-to_be 8 (length g))

  same_length : length f ≡ length g
  same_length =
      sym (from_be-to_be 8 (length f) hf)
      ∙ ap (from_be 0) (ap (λ p. p.0) (from_ok heads_read))
      ∙ from_be-to_be 8 (length g) hg

  fields_read : got f more ≡ got g others
  fields_read =
      sym (read-append (length f) f more refl)
      ∙ ap (read (length f)) (ap (λ p. p.1) (from_ok heads_read))
      ∙ read-append (length f) g others (sym same_length)

bytes_of-injective :
    (fs gs : List (List ℕ)) → AllFit fs → AllFit gs → bytes_of fs ≡ bytes_of gs → fs ≡ gs
unfolding bytes_of to_be
bytes_of-injective [] [] u v e = refl
bytes_of-injective [] (g ∷ gs) u v e = cc
bytes_of-injective (f ∷ fs) [] u v e = cc
bytes_of-injective (f ∷ fs) (g ∷ gs) (uf, u) (vg, v) e =
    let both = from_ok (fields_read f g (bytes_of fs) (bytes_of gs) uf vg e) in
    ap (λ p. p.0 ∷ fs) both ∙ ap (◌∷◌ g) (bytes_of-injective fs gs u v (ap (λ p. p.1) both))

-- `_signable` serializes different lists of fields differently, where the fields' lengths fit eight
-- bytes: fields cannot be moved into one another.
pub signable-injective :
    (fs gs : List (List ℕ)) → AllFit fs → AllFit gs → signable fs ≡ signable gs → fs ≡ gs
signable-injective fs gs u v e =
    bytes_of-injective fs gs u v (from_ok (sym (signable-eq fs u) ∙ e ∙ signable-eq gs v))
