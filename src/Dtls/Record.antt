-- ===== src/Dtls/Record.antt =====
-- trio/_dtls.py: the record layer, `Record`, `records_untrusted` and `encode_record`.
pub mod RoundTrip
use trio.Prelude.{
  ℕ, zero, suc, Bool, true, false, Option, none, some, List, [], ◌∷◌, ◌++◌, if◌then◌else◌, length,
  take,
}
use trio.Exec.{Error, struct_error, bad_packet, out_of_fuel, stop_iteration, Result, ok, raise}
use trio.Dtls.Bytes.{read, or_bad, from_be, pack, pack_text, ◌>>=◌}

pub record Record : Type 0 where
  pub content_type : ℕ
  pub version : List ℕ
  pub epoch_seqno : ℕ
  pub payload : List ℕ

-- The fields of RECORD_HEADER, "!B2sQH".
pub record RecordHeader : Type 0 where
  pub content_type : ℕ
  pub version : List ℕ
  pub epoch_seqno : ℕ
  pub payload_len : ℕ

-- `RECORD_HEADER.unpack_from`, with what follows the header.
unfoldable pub unpack_header : List ℕ → Result (RecordHeader × List ℕ)
unpack_header packet = do
  (ct, p) ← read 1 packet
  (version, q) ← read 2 p
  (seqno, r) ← read 8 q
  (len, rest) ← read 2 r
  ok (
    record {
      content_type = from_be 0 ct;
      version = version;
      epoch_seqno = from_be 0 seqno;
      payload_len = from_be 0 len;
    },
    rest,
  )

-- `RECORD_HEADER.pack`
unfoldable pub pack_header : RecordHeader → Result (List ℕ)
pack_header h = do
  ct ← pack struct_error 1 h.content_type
  seqno ← pack struct_error 8 h.epoch_seqno
  len ← pack struct_error 2 h.payload_len
  ok (ct ++ (pack_text 2 h.version ++ (seqno ++ len)))

-- What the generator yields, in order, and how it ends.
pub data Records : Type 0 where
  finished : Records
  failed : Error → Records
  yields : Record → Records → Records

-- The record at the start of a packet, and what follows it.
unfoldable pub next_record : List ℕ → Result (Record × List ℕ)
next_record packet = do
  (h, rest) ← or_bad (unpack_header packet)
  (payload, after) ← or_bad (read h.payload_len rest)
  ok (
    record {
      content_type = h.content_type;
      version = h.version;
      epoch_seqno = h.epoch_seqno;
      payload = payload;
    },
    after,
  )

abbrev pub then_yield : Result (Record × List ℕ) → (List ℕ → Records) → Records
then_yield (raise e) go_on = failed e
then_yield (ok (r, rest)) go_on = yields r (go_on rest)

-- The loop, on the part of the packet from `i` on.
unfoldable pub records_loop : ℕ → List ℕ → Records
records_loop fuel [] = finished
records_loop zero (b ∷ bs) = failed out_of_fuel
records_loop (suc fuel) (b ∷ bs) = then_yield (next_record (b ∷ bs)) (records_loop fuel)

-- Each round takes bytes of the packet, so its length is enough.
unfoldable pub records_untrusted : List ℕ → Records
records_untrusted packet = records_loop (length packet) packet

unfoldable pub encode_record : Record → Result (List ℕ)
encode_record r = do
  header ← pack_header (record {
    content_type = r.content_type;
    version = r.version;
    epoch_seqno = r.epoch_seqno;
    payload_len = length r.payload;
  })
  ok (header ++ r.payload)
