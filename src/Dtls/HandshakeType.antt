-- ===== src/Dtls/HandshakeType.antt =====
-- `HandshakeType` of trio/_dtls.py.
use trio.Prelude.{ℕ, List, [], ◌∷◌}

abbrev pub client_hello : ℕ
client_hello = 1

abbrev pub hello_verify_request : ℕ
hello_verify_request = 3

-- All its values.
abbrev pub values : List ℕ
values =
    0 ∷ 1 ∷ 2 ∷ 3 ∷ 4 ∷ 8 ∷ 11 ∷ 12 ∷ 13 ∷ 14 ∷ 15 ∷ 16 ∷ 20 ∷ 21 ∷ 22 ∷ 23 ∷ 24 ∷ 25 ∷ 26 ∷ 254
    ∷ []
