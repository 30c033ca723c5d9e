-- ===== src/Dtls/Volley/Loop.antt =====
-- The loop of `encode_volley` of trio/_dtls.py over the fragments of one message.
use mathlib.Core.Path.{subst}
use trio.Prelude.{
  ℕ, zero, suc, ◌+◌, ◌-◌, ◌*◌, ◌^◌, ◌≤◌, ◌<◌, ◌≡◌, refl, sym, ap, ◌∙◌, Bool, true, false, ◌||◌,
  List, [], ◌∷◌, ◌++◌, ◌==◌, ltb, length, take, drop, arith, length-take, length-drop, min,
  take-min-length, Bool-cases, inl, inr,
}
use trio.Exec.{ok, Exec}
use trio.Dtls.Record.{Record}
use trio.Dtls.Record.RoundTrip.{bytes_of}
use trio.Dtls.Volley.{
  Message, HandshakeMessage, whole, add_record, Encoder, encode_fragment, fragment_loop, rounds,
}
use trio.Dtls.Volley.Emitted.{Emitted, flushed, flush-Emitted, emit-Emitted}
use trio.Dtls.Volley.Pieces.{so_far, partial, IsAbsent, so_far-all}
use trio.Dtls.Volley.Fragments.{
  IsMessage, record_of, record_of-IsRecord, length-record_of, encode_fragment-eq, add_first,
  add_next,
}

-- An action succeeds, leaves packets that decode to `ms`, and takes `n` record numbers at most.
pub record Encodes (mtu : ℕ) (act : Exec Encoder Unit) (s : Encoder) (ms : List Message) (n : ℕ)
    : Type 0 where
  pub after : Encoder
  pub records : List Record
  pub result : act s ≡ (ok tt, after)
  pub emitted : Emitted mtu after records ms
  pub numbers : after.record_seq ≤ s.record_seq + n

take-taken : (n : ℕ) (xs : List ℕ) → take n xs ≡ take (length (take n xs)) xs
take-taken n xs = sym (take-min-length n xs) ∙ ap (λ k. take k xs) (sym (length-take n xs))

module _ (mtu : ℕ) (least : 26 ≤ mtu) (most : mtu ≤ 65527) (m : HandshakeMessage)
    (valid : IsMessage m) (ms : List Message) (absent : IsAbsent m.msg_seq ms) where
  -- What has been decoded when the loop has made some fragments.
  abbrev stage : ℕ → ℕ → List Message
  stage zero offset = ms
  stage (suc k) offset = ms ++ partial m offset ∷ []

  abbrev space : Encoder → ℕ
  space s = mtu - length s.packet - 13 - 12

  abbrev first_left : ℕ → ℕ
  first_left zero = 1
  first_left (suc k) = 0

  -- How many record numbers the loop can take.
  abbrev left : ℕ → ℕ → ℕ
  left offset frags = length m.body - offset + first_left frags

  abbrev piece : Encoder → ℕ → List ℕ
  piece s offset = take (space s) (drop offset m.body)

  length-piece :
      (s : Encoder) (offset : ℕ) → length (piece s offset) ≡ min (space s) (length m.body - offset)
  length-piece s offset =
      omega (arith, length-take (space s) (drop offset m.body), length-drop offset m.body)

  module _ (s : Encoder) (offset : ℕ) (inside : offset ≤ length m.body)
      (low : s.record_seq < 2 ^ 48) (room : 1 ≤ space s) where
    taken : Record
    taken = record_of m valid (piece s offset) offset s.record_seq

    in_body : offset + length (piece s offset) ≤ length m.body
    in_body = omega (arith, length-piece s offset)

    in_packet : length s.packet + 25 + length (piece s offset) ≤ mtu
    in_packet = omega (arith, length-piece s offset)

    own_length : piece s offset ≡ take (length (piece s offset)) (drop offset m.body)
    own_length = take-taken (space s) (drop offset m.body)

    added :
        (frags : ℕ)
        → (frags ≡ 0 → offset ≡ 0)
        → add_record taken (stage frags offset)
          ≡ ok (stage (suc frags) (offset + length (piece s offset)))
    unfolding taken
    added zero start =
        add_first m valid (piece s offset) offset s.record_seq mtu most in_body low s refl in_packet
          ms absent (start refl)
          (own_length ∙ ap (λ k. take (length (piece s offset)) (drop k m.body)) (start refl))
        ∙ ap (λ k. ok (stage 1 (k + length (piece s offset)))) (sym (start refl))
    added (suc k) start =
        add_next m valid (piece s offset) offset s.record_seq mtu most in_body low s refl in_packet
          ms absent own_length

    fragment_step :
        (rs : List Record) (frags : ℕ)
        → Emitted mtu s rs (stage frags offset)
        → (frags ≡ 0 → offset ≡ 0)
        → Encodes mtu
            (encode_fragment mtu m (piece s offset) offset)
            s
            (stage (suc frags) (offset + length (piece s offset)))
            1
    unfolding taken
    fragment_step rs frags e start = record {
      after = record s { packet = s.packet ++ bytes_of taken; record_seq = s.record_seq + 1 };
      records = rs ++ taken ∷ [];
      result =
          encode_fragment-eq m valid (piece s offset) offset s.record_seq mtu most in_body low s
            refl in_packet;
      emitted =
          emit-Emitted e taken (s.record_seq + 1) _
            (record_of-IsRecord m valid (piece s offset) offset s.record_seq mtu most in_body low s
              refl in_packet)
            (omega (
              arith,
              in_packet,
              length-record_of m valid (piece s offset) offset s.record_seq mtu most in_body low s
                  refl in_packet,
            ))
            (added frags start);
      numbers = omega arith;
    }

  one_if : Bool → ℕ
  one_if true = 1
  one_if false = 0

  -- Rounds that are enough from here.
  needed : Encoder → ℕ → ℕ → ℕ
  needed s offset frags = 2 * left offset frags + 1 + one_if (space s == 0)

  finish :
      (frags : ℕ) (s : Encoder) (rs : List Record) (offset : ℕ)
      → Emitted mtu s rs (stage frags offset)
      → (frags == 0) ≡ false
      → offset ≡ length m.body
      → Emitted mtu s rs (ms ++ whole m ∷ [])
  finish zero s rs offset e h o = cc
  finish (suc k) s rs offset e h o =
      subst (λ b. Emitted mtu s rs (ms ++ whole (record m { body = b }) ∷ []))
        (ap (so_far m) o ∙ so_far-all m) e

  add_one : (n : ℕ) → n + 1 ≡ suc n
  add_one n = omega arith

  loop-room :
      (fuel : ℕ) (s : Encoder) (offset frags : ℕ) {q r : Encoder}
      → (ltb offset (length m.body) || frags == 0) ≡ true
      → (space s == 0) ≡ false
      → encode_fragment mtu m (piece s offset) offset s ≡ (ok tt, q)
      → fragment_loop fuel mtu m (offset + length (piece s offset)) (suc frags) q ≡ (ok tt, r)
      → fragment_loop (suc fuel) mtu m offset frags s ≡ (ok tt, r)
  unfolding fragment_loop
  loop-room fuel s offset frags more room first rest =
      rw more (rw room (rw (add_one frags) (rw first rest)))

  has_begun :
      (offset frags : ℕ) → (ltb offset (length m.body) || frags == 0) ≡ false → (frags == 0) ≡ false
  has_begun offset frags h = ground arith

  at_end :
      (offset frags : ℕ)
      → offset ≤ length m.body
      → (ltb offset (length m.body) || frags == 0) ≡ false
      → offset ≡ length m.body
  at_end offset frags i h = ground arith

  needed_most : (s : Encoder) (offset frags : ℕ) → needed s offset frags ≤ 2 * left offset frags + 2
  unfolding needed one_if
  needed_most s offset frags = ground arith

  needed-flushed :
      (s : Encoder) (offset frags fuel : ℕ)
      → (space s == 0) ≡ true
      → needed s offset frags ≤ suc fuel
      → needed (record s { packets = s.packets ++ s.packet ∷ []; packet = [] }) offset frags ≤ fuel
  unfolding needed one_if
  needed-flushed s offset frags fuel full enough = ground arith

  needed-room :
      (s : Encoder) (offset frags fuel : ℕ)
      → (space s == 0) ≡ false
      → needed s offset frags ≤ suc fuel
      → 2 * left offset frags ≤ fuel
  unfolding needed one_if
  needed-room s offset frags fuel room enough = ground arith

  has_space : (s : Encoder) → (space s == 0) ≡ false → 1 ≤ space s
  has_space s room = ground arith

  left-step :
      (s : Encoder) (offset frags : ℕ)
      → 1 ≤ space s
      → (ltb offset (length m.body) || frags == 0) ≡ true
      → left (offset + length (piece s offset)) (suc frags) + 1 ≤ left offset frags
  left-step s offset zero room more = omega (arith, length-piece s offset)
  left-step s offset (suc k) room more = ground (arith, length-piece s offset)

  fragment_loop-Encodes :
      (fuel : ℕ) (s : Encoder) (rs : List Record) (offset frags : ℕ)
      → Emitted mtu s rs (stage frags offset)
      → (frags ≡ 0 → offset ≡ 0)
      → offset ≤ length m.body
      → s.record_seq + left offset frags ≤ 2 ^ 48
      → needed s offset frags ≤ fuel
      → Encodes mtu
          (fragment_loop fuel mtu m offset frags)
          s
          (ms ++ whole m ∷ [])
          (left offset frags)
  unfolding fragment_loop needed one_if
  fragment_loop-Encodes zero s rs offset frags e start inside low enough = absurd (omega arith)
  fragment_loop-Encodes (suc fuel) s rs offset frags e start inside low enough =
      elim (Bool-cases (ltb offset (length m.body) || frags == 0)) [
        | inr over ↦ record {
          after = s;
          records = rs;
          result = rw over refl;
          emitted =
              finish frags s rs offset e (has_begun offset frags over)
                (at_end offset frags inside over);
          numbers = omega arith;
        }
        | inl more ↦ elim (Bool-cases (space s == 0)) [
          | inl full ↦
              (let r =
                  fragment_loop-Encodes fuel (flushed e) rs offset frags (flush-Emitted e) start
                    inside low (needed-flushed s offset frags fuel full enough) in
                record {
                  after = r.after;
                  records = r.records;
                  result = rw more (rw full r.result);
                  emitted = r.emitted;
                  numbers = r.numbers;
                })
          | inr room ↦
              (let step = left-step s offset frags (has_space s room) more in
                let q =
                  fragment_step s offset inside (omega (arith, step)) (has_space s room) rs frags e
                    start in
                let r =
                  fragment_loop-Encodes fuel q.after q.records (offset + length (piece s offset))
                    (suc frags) q.emitted (λ z. absurd (omega arith))
                    (omega (arith, length-piece s offset)) (omega (arith, step, q.numbers))
                    (omega (
                      arith,
                      step,
                      needed_most q.after (offset + length (piece s offset)) (suc frags),
                      needed-room s offset frags fuel room enough,
                    )) in
                record {
                  after = r.after;
                  records = r.records;
                  result = loop-room fuel s offset frags more room q.result r.result;
                  emitted = r.emitted;
                  numbers = omega (arith, step, q.numbers, r.numbers);
                })
        ]
      ]

  -- The whole message, in as many rounds as `encode_message` gives the loop.
  pub message-Encodes :
      (s : Encoder) (rs : List Record)
      → Emitted mtu s rs ms
      → s.record_seq + (length m.body + 1) ≤ 2 ^ 48
      → Encodes mtu (fragment_loop (rounds m) mtu m 0 0) s (ms ++ whole m ∷ []) (length m.body + 1)
  message-Encodes s rs e low =
      let r =
        fragment_loop-Encodes (rounds m) s rs 0 0 e (λ z. refl) (omega arith) (omega arith)
          (omega (arith, needed_most s 0 0)) in
      record {
        after = r.after;
        records = r.records;
        result = r.result;
        emitted = r.emitted;
        numbers = omega (arith, r.numbers);
      }
