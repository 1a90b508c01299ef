-- ===== src/Persist/Snapshot.antt =====
-- internal/persist/snapshot.go: the bytes of the file of a snapshot. SHA-256 is a parameter, a
-- function on bytes.
pub mod Accepted
mod Load
use Prim.Native.String.{String}
use gapdb.Prelude.{
  ℕ, zero, suc, ◌+◌, ◌-◌, ◌*◌, ◌/◌, ◌%◌, ◌^◌, ◌==◌, ◌||◌, ◌&&◌, not, Bool, true, false, Option,
  none, some, List, [], ◌∷◌, ◌++◌, Bytes, key_eq, key_lt, utf8_valid, length, take, drop, ltb,
  if◌then◌else◌, keep,
}
use gapdb.Prelude.BigEndian.{be16, be32, be64, put16, put32, put64}
use gapdb.Prelude.Int.{ltb_ℤ, to_uint64, of_uint64}
use gapdb.Prelude.Slices.{slice, byte_at, zeros, all_zero}
use gapdb.Api.Errors.{
  Error, Result, ok, err, ◌>>=◌, ◌>>◌, reject, corrupt_snapshot, unknown_format,
  database_id_mismatch,
}
use gapdb.Api.Options.{Limits}
use gapdb.Api.Types.{Instant, Record, new_record}
use gapdb.Engine.Admission.{expiry_representable}
use gapdb.Persist.Header.{storage_version, header_size, is_zero_id}
use gapdb.Persist.Recovery.{SnapshotState}

-- `snapshotItemHeader`, `snapshotTrailer` and `MaxSnapshotBytes`; `SnapshotHeaderSize` is 64 as well
abbrev item_header : ℕ
item_header = 40

abbrev trailer_size : ℕ
trailer_size = 32

abbrev pub maximum_size : ℕ
maximum_size = 2 ^ 30

abbrev snapshot_magic : Bytes
snapshot_magic = b'G' ∷ b'A' ∷ b'P' ∷ b'S' ∷ b'N' ∷ b'A' ∷ b'P' ∷ b'1' ∷ []

abbrev pub snapshot_error : String → Error
snapshot_error reason = corrupt_snapshot reason 0

-- A record that has not expired at the instant of the snapshot.
abbrev is_kept : Instant → Record → Bool
is_kept as_of r = elim r.expires_at [ none ↦ true | some t ↦ ltb_ℤ as_of t ]

insert_record : Record → List Record → List Record
insert_record r [] = r ∷ []
insert_record r (s ∷ rest) = if key_lt s.key r.key then s ∷ insert_record r rest else r ∷ s ∷ rest

-- `sort.Slice` by the keys
sort_records : List Record → List Record
unfolding insert_record
sort_records [] = []
sort_records (r ∷ rest) = insert_record r (sort_records rest)

abbrev is_previous : Option Bytes → Bytes → Bool
is_previous none key = false
is_previous (some previous) key = key_eq previous key

abbrev representable : Option Instant → Bool
representable none = true
representable (some t) = expiry_representable t

-- The checks of the first loop of `EncodeSnapshot`, with the bytes so far.
measure_records : Limits → (revision index total : ℕ) → Option Bytes → List Record → Result ℕ
measure_records limits revision index total previous [] = ok total
measure_records limits revision index total previous (r ∷ rest) = do
  reject
      (length r.key == 0
        || not (utf8_valid r.key)
        || ltb limits.max_key_bytes (length r.key)
        || ltb limits.max_value_bytes (length r.value)
        || r.revision == 0
        || ltb revision r.revision)
      (corrupt_snapshot "snapshot record fields are invalid" index)
  reject (is_previous previous r.key) (corrupt_snapshot "snapshot contains duplicate keys" index)
  reject (not (representable r.expires_at))
      (corrupt_snapshot "snapshot expiry is outside the signed Unix nanosecond range" index)
  let addition = (item_header + length r.key + length r.value) % 2 ^ 64
  reject (ltb (2 ^ 64 - 1 - addition) total)
      (corrupt_snapshot "snapshot payload length overflows" index)
  measure_records limits revision (suc index) (total + addition) (some r.key) rest

-- The expiry of a record with its flag and the bytes that are reserved.
abbrev expiry_fields : Option Instant → Bytes
expiry_fields none = zeros 24
expiry_fields (some t) = (1 ∷ zeros 7) ++ put64 (to_uint64 t) ++ zeros 8

-- The second loop of `EncodeSnapshot`
encode_records : List Record → Bytes
encode_records [] = []
encode_records (r ∷ rest) =
    (put32 (length r.key)
      ++ put32 (length r.value)
      ++ put64 r.revision
      ++ expiry_fields r.expires_at)
    ++ (r.key ++ (r.value ++ encode_records rest))

-- Whether the record before has this key or a later one.
abbrev pub not_above : Option Bytes → Bytes → Bool
not_above none key = false
not_above (some previous) key = not (key_lt previous key)

-- One round of the loop of `DecodeSnapshot`: the record, and the bytes that it takes.
unfoldable pub decode_record :
    Limits → (revision offset : ℕ) → (last : Option Bytes) → Bytes → Result (Record × ℕ)
decode_record limits revision offset last payload = do
  reject (ltb (length payload) item_header) (corrupt_snapshot "record header is truncated" offset)
  let key_bytes = be32 (slice 0 4 payload)
  let value_bytes = be32 (slice 4 8 payload)
  let record_revision = be64 (slice 8 16 payload)
  let flags = byte_at 16 payload
  let nanos = be64 (slice 24 32 payload)
  reject
      (not (flags / 2 == 0)
        || not (all_zero (slice 17 24 payload))
        || not (all_zero (slice 32 40 payload)))
      (corrupt_snapshot "record flags or reserved bytes are invalid" offset)
  let body = drop item_header payload
  let after = offset + item_header
  reject
      (key_bytes == 0
        || ltb limits.max_key_bytes key_bytes
        || ltb limits.max_value_bytes value_bytes
        || ltb (length body) key_bytes
        || ltb (length body - key_bytes) value_bytes)
      (corrupt_snapshot "record key/value lengths exceed bounds" after)
  let key = take key_bytes body
  reject
      (not (utf8_valid key)
        || record_revision == 0
        || ltb revision record_revision
        || not_above last key)
      (corrupt_snapshot "records are invalid, duplicated, or not strictly sorted" after)
  reject (not (flags == 1) && not (nanos == 0))
      (corrupt_snapshot "expiry is nonzero without its flag" after)
  ok (
    new_record key (some (take value_bytes (drop key_bytes body))) record_revision
        (if flags == 1 then some (of_uint64 nanos) else none),
    item_header + key_bytes + value_bytes,
  )

-- The loop of `DecodeSnapshot` and the check behind it.
unfoldable pub decode_records :
    Limits → (revision count offset : ℕ) → (last : Option Bytes) → Bytes → Result (List Record)
decode_records limits revision zero offset last payload = do
  reject (not (length payload == 0)) (corrupt_snapshot "snapshot payload has trailing bytes" offset)
  ok []
decode_records limits revision (suc count) offset last payload = do
  decoded ← decode_record limits revision offset last payload
  rest ←
      decode_records limits revision count (offset + decoded.1) (some decoded.0.key)
        (drop decoded.1 payload)
  ok (decoded.0 ∷ rest)

module _ (sha256 : Bytes → Bytes) where
  encode_measured : Bytes → (revision : ℕ) → List Record → ℕ → Bytes × Bytes
  unfolding encode_records
  encode_measured id revision records payload =
      let body =
        snapshot_magic
        ++ put16 storage_version
        ++ put16 header_size
        ++ id
        ++ put64 revision
        ++ put64 (length records)
        ++ put64 payload
        ++ zeros 12
        ++ encode_records records in
      (body ++ sha256 body, sha256 body)

  -- `EncodeSnapshot`: the file, and its digest.
  unfoldable pub encode_snapshot :
      Bytes → SnapshotState → (as_of : Instant) → Limits → Result (Bytes × Bytes)
  unfolding encode_measured measure_records sort_records
  encode_snapshot id state as_of limits = do
    reject (is_zero_id id || limits.max_key_bytes == 0 || limits.max_value_bytes == 0)
        (snapshot_error "database ID and snapshot limits must be valid")
    let records = sort_records (keep (is_kept as_of) state.records)
    payload ← measure_records limits state.revision 0 0 none records
    reject (ltb maximum_size ((header_size + trailer_size + payload) % 2 ^ 64))
        (snapshot_error "snapshot exceeds the format size bound")
    ok (encode_measured id state.revision records payload)

  -- `DecodeSnapshot` up to its loop: the revision, the number of records, and their bytes.
  decode_header : Bytes → (expected_id expected_digest : Bytes) → Result (ℕ × ℕ × Bytes)
  decode_header encoded expected_id expected_digest = do
    let size = length encoded
    reject (ltb size (header_size + trailer_size) || ltb maximum_size size)
        (snapshot_error "snapshot size is outside bounds")
    reject (not (key_eq (take 8 encoded) snapshot_magic))
        (snapshot_error "magic does not match GAPSNAP1")
    let version = be16 (slice 8 10 encoded)
    reject (not (version == storage_version)) (unknown_format version)
    reject (not (be16 (slice 10 12 encoded) == header_size) || not (all_zero (slice 52 64 encoded)))
        (snapshot_error "header length or reserved bytes are invalid")
    let id = slice 12 28 encoded
    reject (not (key_eq id expected_id)) (database_id_mismatch expected_id id)
    let revision = be64 (slice 28 36 encoded)
    let count = be64 (slice 36 44 encoded)
    let payload_bytes = be64 (slice 44 52 encoded)
    reject
        (not ((payload_bytes + header_size + trailer_size) % 2 ^ 64 == size)
          || ltb (payload_bytes / item_header) count)
        (snapshot_error "revision, count, or payload length is invalid")
    let digest = sha256 (take (size - trailer_size) encoded)
    reject
        (not (key_eq digest expected_digest)
          || not (key_eq digest (drop (size - trailer_size) encoded)))
        (corrupt_snapshot "SHA-256 mismatch" (size - trailer_size))
    ok (revision, count, slice header_size (size - trailer_size) encoded)

  -- `DecodeSnapshot`
  unfoldable pub decode_snapshot :
      Bytes → (expected_id expected_digest : Bytes) → Limits → Result SnapshotState
  unfolding decode_header
  decode_snapshot encoded expected_id expected_digest limits = do
    header ← decode_header encoded expected_id expected_digest
    records ← decode_records limits header.0 header.1 header_size none header.2
    ok (record { revision = header.0; records = records })
