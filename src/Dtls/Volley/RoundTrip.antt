-- ===== src/Dtls/Volley/RoundTrip.antt =====
-- Volleys of trio/_dtls.py, encoded by `encode_volley` and decoded by `decode_volley_trusted`.
use mathlib.Core.Path.{subst}
use trio.Prelude.{
  ℕ, ◌+◌, ◌^◌, ◌≤◌, ◌≡◌, refl, sym, ap, ◌∙◌, false, List, [], ◌∷◌, ◌++◌, if◌then◌else◌, length,
  nonempty, arith, append_assoc, append-nil, Bool-cases, inl, inr,
}
use trio.Exec.{ok, pure}
use trio.Dtls.Record.{Record, records_untrusted}
use trio.Dtls.Record.RoundTrip.{all_bytes, records_loop-all}
use trio.Dtls.Volley.{
  Message, decode_loop, decode_volley_trusted, Encoder, flush, encode_message, encode_messages,
  encode_volley,
}
use trio.Dtls.Volley.Emitted.{concat, AllSmall, Emitted, flushed, flush-Emitted}
use trio.Dtls.Volley.Loop.{Encodes}
use trio.Dtls.Volley.Messages.{AllSendable, all_numbers, message-Encodes_any}

messages-step :
    (mtu : ℕ) (m : Message) (later : List Message) (s : Encoder) {q r : Encoder}
    → encode_message mtu m s ≡ (ok tt, q)
    → encode_messages mtu later q ≡ (ok tt, r)
    → encode_messages mtu (m ∷ later) s ≡ (ok tt, r)
unfolding encode_messages
messages-step mtu m later s first rest = rw first rest

module _ (mtu : ℕ) (least : 26 ≤ mtu) (most : mtu ≤ 65527) where
  encode_messages-Encodes :
      (later ms : List Message) (s : Encoder) (rs : List Record)
      → AllSendable mtu ms later
      → s.record_seq + all_numbers later ≤ 2 ^ 48
      → Emitted mtu s rs ms
      → Encodes mtu (encode_messages mtu later) s (ms ++ later) (all_numbers later)
  unfolding encode_messages
  encode_messages-Encodes [] ms s rs v low e = record {
    after = s;
    records = rs;
    result = refl;
    emitted = subst (Emitted mtu s rs) (sym (append-nil ms)) e;
    numbers = omega arith;
  }
  encode_messages-Encodes (m ∷ later) ms s rs (v, vs) low e =
      let q = message-Encodes_any mtu most ms least m s rs v (omega arith) e in
      let r =
        encode_messages-Encodes later (ms ++ m ∷ []) q.after q.records vs (omega (arith, q.numbers))
          q.emitted in
      record {
        after = r.after;
        records = r.records;
        result = messages-step mtu m later s q.result r.result;
        emitted = subst (Emitted mtu r.after r.records) (append_assoc ms (m ∷ []) later) r.emitted;
        numbers = omega (arith, q.numbers, r.numbers);
      }

  empty_packet : (bs : List ℕ) → nonempty bs ≡ false → bs ≡ []
  empty_packet [] h = refl
  empty_packet (b ∷ bs) h = cc

  no_more :
      {t : Encoder} {rs : List Record} {ms : List Message}
      → Emitted mtu t rs ms
      → nonempty t.packet ≡ false
      → concat t.packets ≡ all_bytes rs
  no_more {t} e h =
      sym (append-nil (concat t.packets))
      ∙ ap (λ p. concat t.packets ++ p) (sym (empty_packet t.packet h))
      ∙ e.bytes

  -- The last packet goes out where it has bytes.
  last_packet :
      (t : Encoder) (rs : List Record) (ms : List Message)
      → Emitted mtu t rs ms
      → (u : Encoder) × ((if nonempty t.packet then flush else pure tt) t ≡ (ok tt, u))
        × AllSmall mtu u.packets
        × (concat u.packets ≡ all_bytes rs)
  last_packet t rs ms e = elim (Bool-cases (nonempty t.packet)) [
    | inl some ↦ (
      flushed e,
      rw some refl,
      (flush-Emitted e).small,
      sym (append-nil _) ∙ (flush-Emitted e).bytes,
    )
    | inr none ↦ (t, rw none refl, e.small, no_more e none)
  ]

  started : (s : Encoder) → Emitted mtu (record s { packets = []; packet = [] }) [] []
  unfolding all_bytes decode_loop
  started s = record { bytes = refl; valid = tt; small = tt; last = omega arith; decoded = refl }

  volley-steps :
      (messages : List Message) (s : Encoder) {t u : Encoder}
      → encode_messages mtu messages (record s { packets = []; packet = [] }) ≡ (ok tt, t)
      → (if nonempty t.packet then flush else pure tt) t ≡ (ok tt, u)
      → (encode_volley messages mtu s).0 ≡ ok u.packets
  unfolding encode_volley
  volley-steps messages s run last = rw run (rw last refl)

  decoded :
      {t : Encoder} {ms : List Message} (rs : List Record) (bytes : List ℕ)
      → Emitted mtu t rs ms
      → bytes ≡ all_bytes rs
      → decode_volley_trusted bytes ≡ ok ms
  unfolding decode_volley_trusted records_untrusted
  decoded rs bytes e h =
      rw h (rw (records_loop-all rs (length (all_bytes rs)) e.valid (omega arith)) e.decoded)

  -- Each message is encoded, and what comes out is decoded: with an MTU from 26 to 65527 bytes, for
  -- messages that can be sent in this order (handshake messages with different numbers, encrypted
  -- records and alerts that fit a packet) and record numbers that stay below 2 ^ 48, `encode_volley`
  -- ends without an exception, no packet is longer than the MTU, and `decode_volley_trusted` gets
  -- the same messages back from the packets, put one behind the other.
  pub decode_volley-encode_volley :
      (messages : List Message) (s : Encoder)
      → AllSendable mtu [] messages
      → s.record_seq + all_numbers messages ≤ 2 ^ 48
      → (packets : List (List ℕ)) × ((encode_volley messages mtu s).0 ≡ ok packets)
        × AllSmall mtu packets
        × (decode_volley_trusted (concat packets) ≡ ok messages)
  decode_volley-encode_volley messages s v low =
      let r =
        encode_messages-Encodes messages [] (record s { packets = []; packet = [] }) [] v low
          (started s) in
      let (u, last, small, bytes) = last_packet r.after r.records messages r.emitted in
      (
        u.packets,
        volley-steps messages s r.result last,
        small,
        decoded r.records (concat u.packets) r.emitted bytes,
      )
