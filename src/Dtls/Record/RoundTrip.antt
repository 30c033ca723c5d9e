-- ===== src/Dtls/Record/RoundTrip.antt =====
-- Records of trio/_dtls.py, encoded and decoded again.
use trio.Prelude.{
  ℕ, zero, suc, ◌≤◌, ◌<◌, ◌^◌, ◌≡◌, refl, ap, true, List, [], ◌∷◌, ◌++◌, length, nonempty, arith,
  length-append, append_assoc,
}
use trio.Exec.{struct_error, Result, ok}
use trio.Dtls.Bytes.{
  to_be, read-append, length-to_be, from_be-to_be, pack_ok, pack_text_whole, ◌>>=◌,
}
use trio.Dtls.Record.{
  Record, RecordHeader, unpack_header, pack_header, Records, finished, yields, next_record,
  records_loop, records_untrusted, encode_record,
}

-- A record that the header's fields can hold.
pub record IsRecord (r : Record) : Type 0 where
  pub content_type : r.content_type < 256 ^ 1
  pub version : length r.version ≡ 2
  pub epoch_seqno : r.epoch_seqno < 256 ^ 8
  pub payload : length r.payload < 256 ^ 2

abbrev pub header_of : Record → RecordHeader
header_of r = record {
  content_type = r.content_type;
  version = r.version;
  epoch_seqno = r.epoch_seqno;
  payload_len = length r.payload;
}

unfoldable pub bytes_of : Record → List ℕ
bytes_of r =
    to_be 1 r.content_type
    ++ (r.version ++ (to_be 8 r.epoch_seqno ++ (to_be 2 (length r.payload) ++ r.payload)))

unfoldable pub header_bytes : Record → List ℕ
header_bytes r =
    to_be 1 r.content_type ++ (r.version ++ (to_be 8 r.epoch_seqno ++ to_be 2 (length r.payload)))

pub header_bytes-payload : (r : Record) → header_bytes r ++ r.payload ≡ bytes_of r
unfolding header_bytes bytes_of
header_bytes-payload r = rw (append_assoc, append_assoc, append_assoc) refl

pub length-header_bytes : (r : Record) → length r.version ≡ 2 → length (header_bytes r) ≡ 13
unfolding header_bytes to_be
length-header_bytes r v =
    omega (arith, v, length-append r.version (to_be 8 r.epoch_seqno ++ to_be 2 (length r.payload)))

module _ (r : Record) (valid : IsRecord r) where
  pub pack_header-eq : pack_header (header_of r) ≡ ok (header_bytes r)
  unfolding pack_header header_bytes
  pack_header-eq =
      rw
        (
          pack_ok struct_error 1 r.content_type valid.content_type,
          pack_ok struct_error 8 r.epoch_seqno valid.epoch_seqno,
          pack_ok struct_error 2 (length r.payload) valid.payload,
          pack_text_whole 2 r.version valid.version,
        )
        refl

  pub encode_record-eq : encode_record r ≡ ok (bytes_of r)
  unfolding encode_record
  encode_record-eq = rw pack_header-eq (rw (header_bytes-payload r) refl)

  module _ (rest : List ℕ) where
    unpack_header-eq : unpack_header (bytes_of r ++ rest) ≡ ok (header_of r, r.payload ++ rest)
    unfolding unpack_header bytes_of
    unpack_header-eq =
        rw
          (
            append_assoc (to_be 1 r.content_type),
            append_assoc r.version,
            append_assoc (to_be 8 r.epoch_seqno),
            append_assoc (to_be 2 (length r.payload)),
          )
          (rw
            (read-append 1 _
              (r.version
                ++ (to_be 8 r.epoch_seqno ++ (to_be 2 (length r.payload) ++ (r.payload ++ rest))))
              (length-to_be 1 r.content_type))
            (rw
              (read-append 2 r.version
                (to_be 8 r.epoch_seqno ++ (to_be 2 (length r.payload) ++ (r.payload ++ rest)))
                valid.version)
              (rw
                (read-append 8 _ (to_be 2 (length r.payload) ++ (r.payload ++ rest))
                  (length-to_be 8 r.epoch_seqno))
                (rw (read-append 2 _ (r.payload ++ rest) (length-to_be 2 (length r.payload))) (
                  rw
                    (
                      from_be-to_be 1 _ valid.content_type,
                      from_be-to_be 8 _ valid.epoch_seqno,
                      from_be-to_be 2 _ valid.payload,
                    )
                    refl)))))

    pub next_record-eq : next_record (bytes_of r ++ rest) ≡ ok (r, rest)
    unfolding next_record
    next_record-eq =
        rw unpack_header-eq (rw (read-append (length r.payload) r.payload rest refl) refl)

abbrev pub AllRecords : List Record → Type 0
AllRecords [] = Unit {0}
AllRecords (r ∷ rs) = IsRecord r × AllRecords rs

-- The records of a packet, one after the other.
unfoldable pub encode_all : List Record → Result (List ℕ)
encode_all [] = ok []
encode_all (r ∷ rs) = do bs ← encode_record r; rest ← encode_all rs; ok (bs ++ rest)

abbrev pub yields_all : List Record → Records
yields_all [] = finished
yields_all (r ∷ rs) = yields r (yields_all rs)

unfoldable pub all_bytes : List Record → List ℕ
all_bytes [] = []
all_bytes (r ∷ rs) = bytes_of r ++ all_bytes rs

pub encode_all-eq : (rs : List Record) → AllRecords rs → encode_all rs ≡ ok (all_bytes rs)
unfolding encode_all all_bytes
encode_all-eq [] v = refl
encode_all-eq (r ∷ rs) (v, vs) = rw (encode_record-eq r v, encode_all-eq rs vs) refl

pub records_loop-step :
    (fuel : ℕ) (packet : List ℕ) (r : Record) (rest : List ℕ)
    → nonempty packet ≡ true
    → next_record packet ≡ ok (r, rest)
    → records_loop (suc fuel) packet ≡ yields r (records_loop fuel rest)
unfolding records_loop
records_loop-step fuel [] r rest h e = cc
records_loop-step fuel (b ∷ bs) r rest h e = rw e refl

some_bytes :
    (r : Record) (rest : List ℕ)
    → (nonempty (bytes_of r ++ rest) ≡ true) × (1 ≤ length (bytes_of r))
unfolding bytes_of to_be
some_bytes r rest = (refl, omega arith)

pub records_loop-all :
    (rs : List Record) (fuel : ℕ)
    → AllRecords rs
    → length (all_bytes rs) ≤ fuel
    → records_loop fuel (all_bytes rs) ≡ yields_all rs
unfolding all_bytes records_loop
records_loop-all [] zero v h = refl
records_loop-all [] (suc fuel) v h = refl
records_loop-all (r ∷ rs) zero (v, vs) h =
    absurd (omega (arith, h, length-append (bytes_of r) (all_bytes rs), (some_bytes r []).1))
records_loop-all (r ∷ rs) (suc fuel) (v, vs) h =
    rw
      (records_loop-step fuel _ r (all_bytes rs) (some_bytes r (all_bytes rs)).0
        (next_record-eq r v (all_bytes rs)))
      (ap (yields r) (
        records_loop-all rs fuel vs
          (omega (arith, h, length-append (bytes_of r) (all_bytes rs), (some_bytes r []).1))))

-- Records that fit their header's fields are encoded without an exception, and `records_untrusted`
-- yields exactly these records again, in order, from the packet that has one after the other.
pub records_untrusted-encode :
    (rs : List Record)
    → AllRecords rs
    → (packet : List ℕ) × (encode_all rs ≡ ok packet) × (records_untrusted packet ≡ yields_all rs)
unfolding records_untrusted
records_untrusted-encode rs v =
    (all_bytes rs, encode_all-eq rs v, records_loop-all rs (length (all_bytes rs)) v (omega arith))
