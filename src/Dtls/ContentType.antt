-- ===== src/Dtls/ContentType.antt =====
-- `ContentType` of trio/_dtls.py.
use trio.Prelude.{ℕ}

abbrev pub change_cipher_spec : ℕ
change_cipher_spec = 20

abbrev pub alert : ℕ
alert = 21

abbrev pub handshake : ℕ
handshake = 22
